-- ===== src/Cache/Prefetch.antt =====
-- blockcache/prefetch.cpp: for each message of the cache server, the blocks that its user asked for
-- most recently are put into the cache. JsonCpp and the neon library are parameters. pickHashes is
-- called with a null LevelDBHelper, whose methods use no member of it: it is taken for the helper.
pub mod Laws
pub mod Coherent
pub mod Messages
use balabox.Base.{
  ℕ, zero, suc, ◌+◌, ◌-◌, Bool, true, false, not, Option, none, some, List, [], ◌∷◌, ◌++◌, ◌==◌,
  any, leb, if◌then◌else◌, length,
}
use balabox.Base.Text.{Text, text, text_eq, c_string}
use balabox.Exec.{Exec, pure, die, demand, ◌>>=◌, ◌>>◌}
use balabox.Json.{Json}
use balabox.Cache.Frame.{zeros}
use balabox.Cache.Server.{LevelDb}
use balabox.Cache.Client.{Network, helper_put, already_exists}
use balabox.Cache.Fetch.{Neon, Response, prefetch_msg_size, request_from_block_server, metadata_ip}

-- maxHashes
abbrev pub max_hashes : Text
max_hashes = b'1' ∷ b'0' ∷ []

unfoldable pub recent_query : Text → Text
unfolding text
recent_query user_id =
    text "/recent_hashes?user_id=" ++ (user_id ++ (text "&max_hashes=" ++ max_hashes))

-- lookUpRecentHashes: a request that fails is only reported, and what was read is the result.
unfoldable pub look_up_recent_hashes : Neon → Text → Text
look_up_recent_hashes neon user_id =
    (neon metadata_ip (c_string (recent_query user_id)) (text "GET") []).body

-- `string(buffer)` on the zeroed buffer that `recv` wrote to. Without a NUL in the buffer the
-- string goes on behind it.
unfoldable pub message_of : {S : Type 0} → Text → Exec S Text
unfolding zeros
message_of chunk =
    let buffer = chunk ++ zeros (prefetch_msg_size - length chunk) in
    if any (λ c. c == 0) buffer then pure (c_string buffer) else die

-- The response is that of a block.
unfoldable pub is_block : Response → Bool
unfolding text_eq text
is_block r = text_eq r.code (text "200")

module _ (N : Network) (D : LevelDb) (msg_size packet_size : ℕ) (J : Json) where
  -- pickHashes, for the `n` elements from index `i` on
  unfoldable pub pick_hashes : ℕ → ℕ → J.Value → Exec D.State (List Text)
  pick_hashes zero i recent_hashes = pure []
  pick_hashes (suc n) i recent_hashes = do
    element ← demand (J.get_index recent_hashes i)
    cur_hash ← demand (J.as_string element)
    known ← already_exists N D msg_size packet_size cur_hash
    more ← pick_hashes n (i + 1) recent_hashes
    pure (if known then more else cur_hash ∷ more)

module _ (N : Network) (D : LevelDb) (neon : Neon) (msg_size packet_size : ℕ) where
  -- One hash of the loop in main. The code of `put` is only reported.
  unfoldable pub prefetch_hash : Text → Exec D.State (Unit {0})
  unfolding is_block
  prefetch_hash cur_hash = do
    response ← request_from_block_server neon cur_hash
    if is_block response
        then (do status ← helper_put N D msg_size packet_size cur_hash response.body; pure tt)
        else pure tt

  unfoldable pub prefetch_hashes : List Text → Exec D.State (Unit {0})
  prefetch_hashes [] = pure tt
  prefetch_hashes (h ∷ hashes) = prefetch_hash h >> prefetch_hashes hashes

module _ (N : Network) (D : LevelDb) (neon : Neon) (msg_size packet_size : ℕ) (J : Json) where
  -- main, for the block list
  unfoldable pub prefetch_list : J.Value → Exec D.State (Unit {0})
  prefetch_list block_list = if J.is_null block_list then pure tt else do
    hashes ← pick_hashes N D msg_size packet_size J (J.size block_list) 0 block_list
    prefetch_hashes N D neon msg_size packet_size hashes

  -- One round of main, on what `recv` wrote.
  unfoldable pub prefetch_message : Text → Exec D.State (Unit {0})
  unfolding look_up_recent_hashes text
  prefetch_message chunk = do
    msg ← message_of chunk
    let (parsed, msg_root) = J.parse msg
    if not parsed then pure tt else do
      user_member ← demand (J.member_or msg_root (text "userID") (J.of_string (text "-1")))
      user_id ← demand (J.as_string user_member)
      hash_member ← demand (J.member_or msg_root (text "hash") (J.of_string (text "-1")))
      hash ← demand (J.as_string hash_member)
      let (parsed', recent_root) = J.parse (look_up_recent_hashes neon user_id)
      if not parsed' then pure tt else do
        block_list ← demand (J.member_or recent_root (text "block_list") (J.of_string []))
        prefetch_list block_list
