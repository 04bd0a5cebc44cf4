-- ===== src/Handlers/Commits.antt =====
-- metadata/src/block_query.cc and file_commit.cc, which take a JSON document.
use mathlib.Core.Bool.{not}
use balabox.Base.{ℕ, Bool, true, false, ◌||◌, List, [], ◌∷◌, ◌++◌, ◌==◌, if◌then◌else◌}
use balabox.Base.Text.{Text, text}
use balabox.Base.Decimal.{atoi, int_to_str}
use balabox.Exec.{Exec, pure, demand, ◌>>=◌, ◌>>◌}
use balabox.Sql.{MySql}
use balabox.Json.{Json}
use balabox.Helper.{evers, connect, get_missing_block_hashes, update_file_data}
use balabox.Util.{error_page, normal_head, string_to_json, json_to_string}
use balabox.Web.{Request, World, gstdin, content_size, stdin_max, response_body, emit, on_db}
use balabox.Handlers.Files.{reply}

module _ (M : MySql) (J : Json) where
  -- The members that both programs read from the root.
  pub record Document : Type 0 where
    pub user_id : J.Value
    pub hashes : J.Value
    pub file_name : J.Value

  unfoldable pub read_document : J.Value → Exec (World M) Document
  read_document root = do
    user_id ← demand (J.get_member root (text "user_id"))
    hashes ← demand (J.get_member root (text "block_list"))
    file_name ← demand (J.get_member root (text "file_name"))
    pure (record { user_id = user_id; hashes = hashes; file_name = file_name })

  unfoldable pub is_incomplete : Document → Bool
  is_incomplete d = J.is_null d.user_id || J.is_null d.hashes || J.is_null d.file_name

  -- `nb`, and the missing hashes if there is one. The code that the helper returned is not read.
  unfoldable pub needed_response : List Text → Exec (World M) J.Value
  needed_response [] = demand (J.set_member J.null (text "nb") (J.of_bool false))
  needed_response (h ∷ hs) = do
    response ← demand (J.set_member J.null (text "nb") (J.of_bool true))
    needed ← string_to_json J 0 (h ∷ hs) J.null
    demand (J.set_member response (text "needed_blocks") needed)

  -- block_query.cc, behind the tests of the document
  unfoldable pub block_query_of : List Text → Exec (World M) (Unit {0})
  block_query_of hashes = do
    on_db M (connect M)
    (code, missing) ← on_db M (get_missing_block_hashes M hashes)
    response ← needed_response missing
    reply M J response

  unfoldable pub block_query : Request → Exec (World M) (Unit {0})
  block_query r =
      let content = gstdin stdin_max r in
      if content_size content == 0 then emit M error_page else do
        body ← response_body r content
        let parsed = J.parse body
        d ← read_document parsed.1
        if not parsed.0 || is_incomplete d then emit M error_page else do
          emit M normal_head
          hashes ← json_to_string J (J.size d.hashes) 0 d.hashes
          block_query_of hashes

  -- The page and the response that file_commit.cc makes of updateFileData's code.
  unfoldable pub commit_response : ℕ → Exec (World M) J.Value
  commit_response code =
      if code == 0
      then (do
        emit M normal_head
        demand (J.set_member J.null (text "metadata_updated") (J.of_bool true)))
      else do
        emit M error_page
        response ← demand (J.set_member J.null (text "metadata_updated") (J.of_bool false))
        demand (
            J.set_member response (text "message") (
              J.of_string (
                if code == evers
                then text "Old client version."
                else (text
                      "Database has encountered problems while updating the files. Please try again later. error code: "
                    ++ int_to_str code))))

  -- file_commit.cc, behind the tests of the document. The arguments of updateFileData are strings
  -- made of the values, and the version is made an `int` first.
  unfoldable pub file_commit_of :
      J.Value → J.Value → List Text → J.Value → Exec (World M) (Unit {0})
  file_commit_of user_id file_name hashes version = do
    connected ← on_db M (connect M)
    if connected == 0
        then (do
          number ← demand (J.as_string version)
          user ← demand (J.as_string user_id)
          name ← demand (J.as_string file_name)
          code ← on_db M (update_file_data M user name hashes (atoi number))
          response ← commit_response code
          reply M J response)
        else emit M error_page

  unfoldable pub file_commit : Request → Exec (World M) (Unit {0})
  file_commit r =
      let content = gstdin stdin_max r in
      if content_size content == 0 then emit M error_page else do
        body ← response_body r content
        let parsed = J.parse body
        d ← read_document parsed.1
        version ← demand (J.get_member parsed.1 (text "version"))
        if not parsed.0 || is_incomplete d || J.is_null version then emit M error_page else do
          hashes ← json_to_string J (J.size d.hashes) 0 d.hashes
          file_commit_of d.user_id d.file_name hashes version
