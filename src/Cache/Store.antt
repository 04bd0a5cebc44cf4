-- ===== src/Cache/Store.antt =====
-- blockcache/cache_block_store.cpp: a block that is to be stored is passed on to the block server.
-- The standard input of a request, which it reads to the end, is its body.
pub mod Laws
use balabox.Base.{Option, none, some, List, [], ◌++◌}
use balabox.Base.Text.{Text, text, c_string}
use balabox.Exec.{Exec, pure, die, ◌>>=◌, ◌>>◌}
use balabox.Util.{or_empty}
use balabox.Cache.Fetch.{Neon, Response, http_query_param, send_http_request, block_ip}

-- What storeToBlockServer prints, each string up to its first NUL.
unfoldable pub forwarded_page : Response → Text
unfolding text
forwarded_page r =
    text "Status: "
    ++ (c_string r.code
        ++ (text "\r\nContent-Type:  "
            ++ (c_string r.content_type ++ (text "\r\n\r\n" ++ c_string r.body))))

module _ (neon : Neon) where
  -- storeToBlockServer, on the output of the request at hand
  unfoldable pub store_to_block_server : Text → Text → Exec Text (Unit {0})
  store_to_block_server hash block = do
    response ←
        send_http_request neon block_ip (text "/block_store?hash=" ++ hash) (text "POST") block
    (λ out. pure tt (out ++ forwarded_page response))

  -- One request of the accept loop: a string from a null QUERY_STRING ends the process.
  unfoldable pub cache_block_store : Option Text → Text → Exec Text (Unit {0})
  cache_block_store none body = die
  cache_block_store (some query_string) body =
      store_to_block_server (or_empty (http_query_param query_string (text "hash"))) body
