-- ===== src/Cache/Store/Laws.antt =====
-- A block that is stored through the cache server reaches the block server under its hash.
use balabox.Base.{◌≡◌, refl, ap, some, ◌++◌}
use balabox.Base.Text.{Text, text, find, find_at, is_prefix}
use balabox.Exec.{ok, ◌>>=◌}
use balabox.Util.{behind}
use balabox.Util.Query.{until_amp, value_from-drop}
use balabox.Blocks.{get_block_hash}
use balabox.Blocks.Laws.{hash_query, get_block_hash-hash_query}
use balabox.Cache.Fetch.{Neon, Response, http_query_param, send_http_request, block_ip}
use balabox.Cache.Store.{forwarded_page, store_to_block_server, cache_block_store}

http_query_param-hash_query :
    (t : Text) → http_query_param (hash_query t) (text "hash") ≡ some (until_amp t)
unfolding http_query_param find find_at is_prefix behind text
http_query_param-hash_query t = ap some (value_from-drop (hash_query t) t 5 refl)

-- The path that the cache server asks of the block server for a query string.
abbrev pub store_path : Text → Text
store_path query = text "/block_store?" ++ query

store_path-hash_query : (h : Text) → store_path (hash_query h) ≡ text "/block_store?hash=" ++ h
unfolding text
store_path-hash_query h = refl

-- On a query string that begins with a hash, cache_block_store sends the body to the block server
-- with the text up to the next '&' as the hash, which is the hash that block_store reads from this
-- path, and prints the answer, if the request is answered.
pub cache_block_store_lem :
    (neon : Neon) (t body out : Text) (r : Response)
    → send_http_request neon block_ip (store_path (hash_query (until_amp t))) (text "POST") body out
      ≡ (ok r, out)
    → (cache_block_store neon (some (hash_query t)) body out ≡ (ok tt, out ++ forwarded_page r))
      × (get_block_hash (hash_query (until_amp t)) ≡ some (until_amp t))
unfolding cache_block_store store_to_block_server ◌>>=◌
cache_block_store_lem neon t body out r answers = (
  rw (http_query_param-hash_query t, ← store_path-hash_query (until_amp t), answers),
  get_block_hash-hash_query (until_amp t),
)
