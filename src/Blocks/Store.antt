-- ===== src/Blocks/Store.antt =====
-- blockcache/block_store.cc: the request body is stored under the hash of the query string.
use balabox.Base.{ℕ, zero, suc, true, none, some, [], ◌∷◌, ◌++◌}
use balabox.Base.Text.{Text, text}
use balabox.Base.Decimal.{strtoul}
use balabox.Exec.{Exec, ◌>>=◌, ◌>>◌}
use balabox.Web.{Request, capped_size}
use balabox.Blocks.{
  Directory, BlockWorld, retry, get_ip_address, get_block_hash, print, on_directory,
}

-- STDIN_MAX of block_store.cc
abbrev pub store_max : ℕ
store_max = 100000000

-- The loop over FCGX_GetChar: at the end of the input it gives EOF, which becomes the byte 255.
unfoldable pub get_chars : ℕ → Text → Text
get_chars zero s = []
get_chars (suc n) [] = 255 ∷ get_chars n []
get_chars (suc n) (c ∷ s) = c ∷ get_chars n s

-- The number of characters to read.
unfoldable pub store_size : ℕ → Text → ℕ
unfolding capped_size
store_size max clenstr = capped_size max (strtoul clenstr)

-- getRequestBody
unfoldable pub get_request_body : ℕ → Request → Text
unfolding get_chars store_size
get_request_body max r = elim r.content_length [
  | none ↦ []
  | some clenstr ↦ get_chars (store_size max clenstr) r.body
]

-- outputErrorMessage of block_store.cc
unfoldable pub store_error : Text → Text
unfolding text
store_error error =
    text "Status: 400\r\nContent-type: text/html\r\n\r\n<html><p>400 "
    ++ (error ++ text "</p></html>")

-- outputSuccessMessage
unfoldable pub success_page : Text → Text → Text
unfolding text
success_page hash ip =
    text
      "Status: 200\r\nOrigin: Block Server\r\nContent-type: text/html\r\n\r\n<html><p> 200 OK </p>\n<p> Hash: "
    ++ (hash ++ (text "</p>\n<p> IP: " ++ (ip ++ text "</p>\n</html>\n")))

module _ (D : Directory) (fuel : ℕ) where
  -- Opening the directory and putting the block, each until it succeeds.
  unfoldable pub store_block : Text → Text → Exec D.db.State (Unit {0})
  store_block block_hash content =
      retry fuel (D.open_db true) >> retry fuel (D.db.put block_hash content)

module _ (D : Directory) (fuel : ℕ) (eth0 : Text) where
  -- block_store.cc behind the hash. The block is in when the page is chosen.
  unfoldable pub block_store_of : Text → Text → Exec (BlockWorld D) (Unit {0})
  block_store_of block_hash content = do
    on_directory D (store_block D fuel block_hash content)
    address ← get_ip_address eth0
    elim address [
      | none ↦ print D (store_error (text "Unable to retrieve IP address"))
      | some ip ↦ print D (success_page block_hash ip)
    ]

  -- One request of the accept loop.
  unfoldable pub block_store : Request → Exec (BlockWorld D) (Unit {0})
  unfolding get_request_body get_block_hash
  block_store r =
      let content = get_request_body store_max r in
      elim r.query_string [
        | none ↦ print D (store_error (text "No parameters"))
        | some query ↦ elim (get_block_hash query) [
          | none ↦ print D (store_error (text "Invalid Input"))
          | some block_hash ↦ block_store_of block_hash content
        ]
      ]
