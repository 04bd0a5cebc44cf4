-- ===== src/Tests/Cache.antt =====
-- The theorems on the cache server, at a database that is a list.
use balabox.Base.{
  All, ap, ◌+◌, ◌≤◌, ◌<◌, ◌≡◌, ◌≢◌, refl, true, none, some, List, [], ◌∷◌, ◌++◌, length, arith,
}
use balabox.Base.Text.{Text, text, text_eq}
use balabox.Exec.{ok, ◌>>=◌}
use balabox.Base.Decimal.{decimal}
use balabox.Cache.Frame.Bounds.{received-bounds}
use balabox.Cache.Frame.{packets, received, create_buffer, extract_buffer}
use balabox.Cache.Frame.RoundTrip.{extract_buffer-create_buffer}
use balabox.Cache.Server.Laws.{length-put_command, length-get_command}
use balabox.Tests.Database.{value_of, list_db, list_db-IsLevelDb}
use balabox.Tests.Data.{ann, hash_a, hash_b}
use mathlib.Core.List.{flatten, map}
use balabox.Cache.Client.{Network, failed}
use balabox.Cache.Client.Laws.{IsNetwork, IsSized}
use balabox.Cache.Process.Blocks.{Call, put_block, get_block, Store, IsCall, Holds}
use balabox.Cache.Client.Traces.{perform, perform-results}
use balabox.Cache.Fetch.{
  Neon, Response, Cached, cached_head, fetched_head, fetch_block, request_from_block_server,
  send_http_request,
}
use balabox.Cache.Fetch.Laws.{fetch_block-miss, fetch_block-fetch_block}

-- "a,b", which holds a comma.
abbrev pub comma : Text
comma = b'a' ∷ b',' ∷ b'b' ∷ []

extract_buffer-create_buffer_example :
    (buffer : Text) × (create_buffer 9 comma ≡ some buffer)
    × (length buffer ≡ 9)
    × (extract_buffer 9 buffer ≡ some comma)
extract_buffer-create_buffer_example =
    extract_buffer-create_buffer 9 comma (omega arith) (omega arith)

-- A network that delivers one byte at a time.
unfoldable pub bytes : Text → List Text
bytes s = map (λ c. c ∷ []) s

abbrev pub byte_network : Network
byte_network = record { connects = true; send = λ ps. (true, bytes (flatten ps)) }

pub flatten-bytes : (s : Text) → flatten (bytes s) ≡ s
unfolding bytes flatten
flatten-bytes [] = refl
flatten-bytes (c ∷ s) = ap (λ t. c ∷ t) (flatten-bytes s)

pub bytes-some : (s : Text) → All (λ c. c ≢ []) (bytes s)
unfolding bytes
bytes-some [] = tt
bytes-some (c ∷ s) = ((λ e. cc), bytes-some s)

pub byte_network-IsNetwork : IsNetwork byte_network
byte_network-IsNetwork = record {
  connected = refl;
  send_all = λ ps. refl;
  send_same = λ ps. flatten-bytes (flatten ps);
  send_some = λ ps. bytes-some (flatten ps);
}

pub sized : IsSized 60 7
sized = record { some_packet = omega arith; fits_int = omega arith; fits_failure = omega arith }

abbrev filled : List (Text × Text)
filled = (hash_a, comma) ∷ []

small_values : (v : Text) → value_of hash_a filled ≡ some v → 4 + length v ≤ 60
unfolding value_of text_eq
small_values v e = let same : comma ≡ v = cc in omega (arith, ap length same)

-- A block server that answers every request with 404 and the page "a,b".
abbrev no_block : Neon
no_block = λ host path method body. record {
  done = true;
  body = comma;
  status = 404;
  content_type = some ann;
}

abbrev not_found : Response
not_found = record { content_type = ann; body = comma; code = b'4' ∷ b'0' ∷ b'4' ∷ [] }

abbrev idle : List (Text × Text) → Cached list_db
idle s = record { db = s; out = []; prefetches = [] }

abbrev page : Text
page = fetched_head not_found ++ comma

asks : request_from_block_server no_block hash_a (idle []) ≡ (ok not_found, idle [])
unfolding request_from_block_server send_http_request ◌>>=◌ decimal
asks = refl

fetch_block-miss_example :
    fetch_block byte_network list_db no_block 60 7 hash_a (idle [])
    ≡ (ok tt, record { db = filled; out = page; prefetches = [] })
unfolding value_of
fetch_block-miss_example =
    fetch_block-miss byte_network list_db no_block 60 7 byte_network-IsNetwork sized hash_a
      not_found (idle []) (omega arith, (omega arith, tt))
      (omega (arith, length-put_command hash_a comma)) (λ v e. cc) refl asks

fetch_block-fetch_block_example :
    fetch_block byte_network list_db no_block 60 7 hash_a
      (fetch_block byte_network list_db no_block 60 7 hash_a (idle [])).1
    ≡ (ok tt, record { db = filled; out = page ++ (cached_head ++ comma); prefetches = [] })
unfolding value_of failed text text_eq
fetch_block-fetch_block_example =
    fetch_block-fetch_block byte_network list_db no_block 60 7 byte_network-IsNetwork sized hash_a
      not_found (idle []) list_db-IsLevelDb (omega arith, (omega arith, tt))
      (omega (arith, length-put_command hash_a comma)) (λ v e. cc) refl asks refl refl

abbrev pub nothing : Store
nothing k = none

abbrev pub calls : List Call
calls = put_block hash_a comma ∷ get_block hash_a ∷ get_block hash_b ∷ []

pub calls-IsCall : All (IsCall 60) calls
calls-IsCall = (
  ((omega arith, (omega arith, tt)), omega (arith, length-put_command hash_a comma)),
  (
    ((omega arith, (omega arith, tt)), omega (arith, length-get_command hash_a)),
    (((omega arith, (omega arith, tt)), omega (arith, length-get_command hash_b)), tt),
  ),
)

pub nothing-Holds : Holds list_db 60 nothing []
unfolding value_of
nothing-Holds = record { same = λ k. refl; small = λ k v e. cc }

perform-results_example :
    (perform byte_network list_db 60 7 calls []).0 ≡ ok ((0, []) ∷ (0, comma) ∷ (1, []) ∷ [])
unfolding text_eq failed text
perform-results_example =
    perform-results byte_network list_db 60 7 byte_network-IsNetwork sized list_db-IsLevelDb
      (λ k v s. refl) calls nothing [] calls-IsCall nothing-Holds

-- A message of three bytes in packets of two.
abbrev small_page : Text
small_page = 1 ∷ 2 ∷ 3 ∷ []

packets_cut : packets 2 9 3 small_page ≡ (1 ∷ 2 ∷ []) ∷ (3 ∷ []) ∷ []
unfolding packets
packets_cut = refl

received-bounds_example : (3 ≤ 5) × (5 < 3 + 4)
unfolding received flatten
received-bounds_example =
    received-bounds 4 3 ((1 ∷ []) ∷ (2 ∷ 3 ∷ 4 ∷ 5 ∷ []) ∷ (6 ∷ []) ∷ []) (omega arith)
      ((omega arith, omega arith), ((omega arith, omega arith), ((omega arith, omega arith), tt)))
      (omega arith)
