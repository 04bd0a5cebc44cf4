-- ===== src/Blocks/Fetch.antt =====
-- blockcache/block_fetch.cc: the block that is stored under the hash of the query string.
use balabox.Base.{ℕ, false, Option, none, some, ◌++◌, length}
use balabox.Base.Text.{Text, text}
use balabox.Base.Decimal.{decimal}
use balabox.Exec.{Exec, pure, ◌>>=◌, ◌>>◌}
use balabox.Web.{Request, gstdin, response_body}
use balabox.Blocks.{Directory, BlockWorld, retry, get_block_hash, print, on_directory}

-- STDIN_MAX of block_fetch.cc
abbrev pub fetch_max : ℕ
fetch_max = 1000000

-- outputErrorMessage of block_fetch.cc
unfoldable pub fetch_error : Text → Text
unfolding text
fetch_error error =
    text "Status: 400\r\nContent-type: text/html\r\n\r\n<html><p>400 "
    ++ (error ++ text "</p></html>\n")

unfoldable pub fetch_head : Text → Text
unfolding text decimal
fetch_head block =
    text
      "Status: 200\r\nOrigin: Block Server\r\nContent-Type: application/binary\r\nContent-Length: "
    ++ (decimal (length block) ++ text "\r\n\r\n")

-- The page of a block, or the error of a key that is not there.
unfoldable pub fetch_page : Option Text → Text
fetch_page none = fetch_error (text "Key does not exist")
fetch_page (some block) = fetch_head block ++ block

module _ (D : Directory) (fuel : ℕ) where
  -- Opening the directory until it succeeds, and DB::Get.
  unfoldable pub load_block : Text → Exec D.db.State (Option Text)
  load_block block_hash = retry fuel (D.open_db false) >> λ s. pure (D.db.get block_hash s) s

  -- One request of the accept loop.
  unfoldable pub block_fetch : Request → Exec (BlockWorld D) (Unit {0})
  unfolding get_block_hash
  block_fetch r = do
    body ← response_body r (gstdin fetch_max r)
    elim r.query_string [
      | none ↦ print D (fetch_error (text "No parameters"))
      | some query ↦ elim (get_block_hash query) [
        | none ↦ print D (fetch_error (text "Invalid Input"))
        | some block_hash ↦ do
          block ← on_directory D (load_block block_hash)
          print D (fetch_page block)
      ]
    ]
