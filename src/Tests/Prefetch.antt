-- ===== src/Tests/Prefetch.antt =====
-- The theorems on the prefetcher and on the store of the cache server, at a JSON library whose
-- documents are lists of strings.
use balabox.Base.{
  ℕ, zero, suc, ◌≡◌, refl, ap, true, false, inl, inr, Bool-cases, Option, none, some, List, [], ◌∷◌,
  ◌++◌, length, All, arith,
}
use balabox.Base.Text.{Text, text, text_eq}
use balabox.Base.Decimal.{decimal}
use balabox.Exec.{ok, ◌>>=◌}
use balabox.Json.{Json}
use balabox.Cache.Server.Laws.{length-put_command}
use balabox.Cache.Client.{failed}
use balabox.Cache.Fetch.{
  Neon, Response, Cached, request_from_block_server, send_http_request, send_msg, block_ip,
}
use balabox.Cache.Prefetch.{is_block, message_of, prefetch_list}
use balabox.Cache.Prefetch.Laws.{Holds, IsFetchable, IsSmall, prefetch_list_lem}
use balabox.Cache.Prefetch.Coherent.{
  IsCoherent, IsCached, prefetch_list-IsCoherent, prefetch_list-IsCached,
}
use balabox.Cache.Prefetch.Messages.{sent, message_of-send_msg}
use balabox.Cache.Store.{forwarded_page, cache_block_store}
use balabox.Cache.Store.Laws.{store_path, cache_block_store_lem}
use balabox.Blocks.{get_block_hash}
use balabox.Blocks.Laws.{hash_query}
use balabox.Tests.Data.{ann, hash_a, hash_b, hashes}
use balabox.Tests.Database.{value_of, list_db, list_db-IsLevelDb}
use balabox.Tests.Cache.{byte_network, byte_network-IsNetwork, sized}

abbrev element : ℕ → List Text → Option (List Text)
element i [] = none
element zero (s ∷ v) = some (s ∷ [])
element (suc i) (s ∷ v) = element i v

abbrev first : List Text → Option Text
first [] = none
first (s ∷ v) = some s

abbrev lists : Json
lists = record {
  Value = List Text;
  null = [];
  of_string = λ s. s ∷ [];
  of_bool = λ b. [];
  of_int = λ n. [];
  of_uint = λ n. [];
  is_null = λ v. false;
  get_index = λ v i. element i v;
  get_member = λ v k. some v;
  member_or = λ v k d. some v;
  set_index = λ v i x. some (v ++ x);
  set_member = λ v k x. some (v ++ x);
  size = λ v. length v;
  as_string = first;
  parse = λ t. (true, t ∷ []);
  write = λ v. [];
}

-- A block server that has "ann" under every hash.
abbrev anns : Neon
anns = λ host path method body. record {
  done = true;
  body = ann;
  status = 200;
  content_type = some ann;
}

abbrev block_ann : Response
block_ann = record { content_type = ann; body = ann; code = b'2' ∷ b'0' ∷ b'0' ∷ [] }

abbrev answer : Text → Response
answer h = block_ann

abbrev kept : List (Text × Text)
kept = (hash_a, ann) ∷ []

abbrev after : List (Text × Text)
after = (hash_b, ann) ∷ kept

hashes-Holds : Holds lists hashes 0 hashes
hashes-Holds = ((hash_a ∷ [], refl, refl), ((hash_b ∷ [], refl, refl), tt))

asks : (h : Text) (s : List (Text × Text)) → request_from_block_server anns h s ≡ (ok block_ann, s)
unfolding request_from_block_server send_http_request ◌>>=◌ decimal
asks h s = refl

hashes-IsFetchable : All (IsFetchable list_db anns 60 answer) hashes
hashes-IsFetchable = (
  ((omega arith, (omega arith, tt)), omega (arith, length-put_command hash_a ann), asks hash_a),
  (
    ((omega arith, (omega arith, tt)), omega (arith, length-put_command hash_b ann), asks hash_b),
    tt,
  ),
)

hashes-IsSmall : All (IsSmall list_db anns 60 answer kept) hashes
unfolding value_of text_eq
hashes-IsSmall =
    ((λ v e. let same : ann ≡ v = cc in omega (arith, ap length same)), ((λ v e. cc), tt))

prefetch_list_lem_example :
    prefetch_list byte_network list_db anns 60 7 lists hashes kept ≡ (ok tt, after)
unfolding value_of text_eq failed text is_block
prefetch_list_lem_example =
    prefetch_list_lem byte_network list_db anns 60 7 byte_network-IsNetwork sized answer lists
      hashes hashes kept refl refl hashes-Holds hashes-IsFetchable hashes-IsSmall

kept-value : (h v : Text) → value_of h kept ≡ some v → v ≡ ann
unfolding value_of
kept-value h v e = elim (Bool-cases (text_eq hash_a h)) [
  | inl hit ↦ let held : some ann ≡ some v = rw hit at e in cc
  | inr miss ↦ let none_held : none ≡ some v = rw miss at e in cc
]

kept-IsCoherent : IsCoherent list_db answer kept
unfolding is_block text text_eq
kept-IsCoherent h v e = (refl, kept-value h v e)

prefetch_list-IsCoherent_example :
    IsCoherent list_db answer (prefetch_list byte_network list_db anns 60 7 lists hashes kept).1
prefetch_list-IsCoherent_example =
    prefetch_list-IsCoherent byte_network list_db anns 60 7 byte_network-IsNetwork sized answer
      list_db-IsLevelDb lists hashes hashes kept refl refl hashes-Holds hashes-IsFetchable
      hashes-IsSmall kept-IsCoherent

prefetch_list-IsCached_example :
    ((prefetch_list byte_network list_db anns 60 7 lists hashes kept).0 ≡ ok tt)
    × IsCached list_db hash_b (prefetch_list byte_network list_db anns 60 7 lists hashes kept).1
unfolding failed text text_eq is_block
prefetch_list-IsCached_example =
    prefetch_list-IsCached byte_network list_db anns 60 7 byte_network-IsNetwork sized answer
      list_db-IsLevelDb lists hashes (hash_a ∷ []) [] hash_b kept refl refl hashes-Holds
      hashes-IsFetchable hashes-IsSmall (λ k b t. refl) refl refl

abbrev idle : Cached list_db
idle = record { db = []; out = []; prefetches = [] }

message_of-send_msg_example :
    (send_msg list_db ann idle ≡ (ok tt, record idle { prefetches = sent ann ∷ [] }))
    × (message_of (sent ann) kept ≡ (ok ann, kept))
message_of-send_msg_example =
    message_of-send_msg list_db ann idle kept (omega arith)
      (omega arith, (omega arith, (omega arith, tt)))

-- "e0&user=ann"
abbrev query_end : Text
query_end = b'e' ∷ b'0' ∷ b'&' ∷ b'u' ∷ b's' ∷ b'e' ∷ b'r' ∷ b'=' ∷ ann

stores :
    send_http_request {S = Text} anns block_ip (store_path (hash_query hash_a)) (text "POST") ann []
    ≡ (ok block_ann, [])
unfolding send_http_request ◌>>=◌ decimal
stores = refl

cache_block_store_lem_example :
    (cache_block_store anns (some (hash_query query_end)) ann []
      ≡ (ok tt, forwarded_page block_ann))
    × (get_block_hash (hash_query hash_a) ≡ some hash_a)
cache_block_store_lem_example = cache_block_store_lem anns query_end ann [] block_ann stores
