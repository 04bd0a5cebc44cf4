-- ===== src/Cache/Fetch.antt =====
-- blockcache/cache_block_fetch.cpp, which serves a block from the cache or from the block server,
-- and the requests of blockcache/http_helper.cpp. The neon library, which sends a request, is a
-- parameter.
pub mod Laws
use balabox.Base.{
  ℕ, ◌+◌, ◌-◌, Bool, true, false, Option, none, some, List, [], ◌∷◌, ◌++◌, leb, if◌then◌else◌,
  length,
}
use balabox.Base.Text.{Text, text, find, find_at, c_string}
use balabox.Base.Decimal.{decimal}
use balabox.Exec.{Exec, pure, die, demand, ◌>>=◌, ◌>>◌}
use balabox.Util.{behind, value_from, or_empty}
use balabox.Cache.Frame.{zeros}
use balabox.Cache.Server.{LevelDb}
use balabox.Cache.Client.{Network, helper_get, helper_put, already_exists}

-- HttpHelper::getQueryParam: `none` for the return code 1.
unfoldable pub http_query_param : Text → Text → Option Text
unfolding find find_at behind value_from
http_query_param query param = elim (find param query) [
  | none ↦ none
  | some param_pos ↦ some (value_from query (behind (find_at (b'=' ∷ []) query param_pos)))
]

-- What ne_request_dispatch gives, with the body that the reader appended.
pub record Reply : Type 0 where
  pub done : Bool
  pub body : Text
  pub status : ℕ
  pub content_type : Option Text

-- Host, path, method and body of a request on port 80. The path is a C string.
abbrev pub Neon : Type 0
Neon = Text → Text → Text → Text → Reply

-- The strings that sendHttpRequest fills.
pub record Response : Type 0 where
  pub content_type : Text
  pub body : Text
  pub code : Text

-- PREFETCH_MSG_SIZE
abbrev pub prefetch_msg_size : ℕ
prefetch_msg_size = 1000

-- The database's process, the output of the request at hand, and the messages sent to the prefetcher.
pub record Cached (D : LevelDb) : Type 0 where
  pub db : D.State
  pub out : Text
  pub prefetches : List Text

unfoldable pub block_ip : Text
unfolding text
block_ip = text "104.236.143.21"

unfoldable pub metadata_ip : Text
unfolding text
metadata_ip = text "162.243.132.35"

unfoldable pub cache_ip : Text
unfolding text
cache_ip = text "1.2.3.4"

module _ {S : Type 0} (neon : Neon) where
  -- sendHttpRequest on empty strings. A header that is missing is a null pointer.
  unfoldable pub send_http_request : Text → Text → Text → Text → Exec S Response
  send_http_request host path method body =
      let reply = neon host (c_string path) method body in
      if reply.done
      then (do
        content_type ← demand reply.content_type
        pure (record {
          content_type = content_type;
          body = reply.body;
          code = decimal reply.status;
        }))
      else pure (record { content_type = []; body = reply.body; code = [] })

  unfoldable pub request_from_block_server : Text → Exec S Response
  request_from_block_server hash =
      send_http_request block_ip (text "/block_fetch?hash=" ++ hash) (text "GET") []

module _ {S : Type 0} (neon : Neon) where
  -- addUserCache, which nothing calls
  unfoldable pub add_user_cache : Text → Exec S ℕ
  add_user_cache user_id =
      send_http_request neon metadata_ip
        (text "/user_cache_add?user_id=" ++ (user_id ++ (text "&cache_ip=" ++ cache_ip)))
        (text "POST") []
      >> pure 0

module _ (D : LevelDb) where
  unfoldable pub on_cache : {A : Type 0} → Exec D.State A → Exec (Cached D) A
  on_cache m w = let (res, s) = m w.db in (res, record w { db = s })

  unfoldable pub put_out : Text → Exec (Cached D) (Unit {0})
  put_out t w = pure tt (record w { out = w.out ++ t })

  -- sendMsg, whose buffer a longer message overruns
  unfoldable pub send_msg : Text → Exec (Cached D) (Unit {0})
  unfolding zeros
  send_msg msg =
      if leb (length msg) prefetch_msg_size
      then (λ w. pure tt (record w {
        prefetches = w.prefetches ++ (msg ++ zeros (prefetch_msg_size - length msg)) ∷ [];
      }))
      else die

  unfoldable pub prefetch_msg : Text → Text → Text
  prefetch_msg user_id hash =
      text "{\"userID\": \"" ++ (user_id ++ (text "\", \"hash\": \"" ++ (hash ++ text "\" }")))

unfoldable pub cached_head : Text
unfolding text
cached_head = text "Status: 200\r\nOrigin: Cache Server\r\nContent-Type: application/binary\r\n\r\n"

unfoldable pub fetched_head : Response → Text
fetched_head r =
    text "Status: "
    ++ (r.code
        ++ (text "\r\nOrigin: Block Server\r\nContent-Type: "
            ++ (r.content_type ++ text "\r\n\r\n")))

unfoldable pub no_parameters_page : Text
unfolding text
no_parameters_page =
    text "Status: 400\r\nContent-type: text/html\r\n\r\n<html><p>400 No parameters</p></html>\n"

module _ (N : Network) (D : LevelDb) (neon : Neon) (msg_size packet_size : ℕ) where
  -- The block of the cache, or that of the block server, which is saved.
  unfoldable pub fetch_block : Text → Exec (Cached D) (Unit {0})
  fetch_block hash = do
    known ← on_cache D (already_exists N D msg_size packet_size hash)
    if known
        then (do
          (code, block) ← on_cache D (helper_get N D msg_size packet_size hash [])
          put_out D (cached_head ++ block))
        else do
          response ← request_from_block_server neon hash
          put_out D (fetched_head response ++ response.body)
          code ← on_cache D (helper_put N D msg_size packet_size hash response.body)
          pure tt

  -- One request of the accept loop.
  unfoldable pub cache_block_fetch : Option Text → Exec (Cached D) (Unit {0})
  cache_block_fetch none = put_out D no_parameters_page
  cache_block_fetch (some query_string) =
      let hash = or_empty (http_query_param query_string (text "hash")) in
      let user_id = or_empty (http_query_param query_string (text "user")) in
      fetch_block hash >> send_msg D (prefetch_msg D user_id hash)
