-- ===== src/Handlers/Files.antt =====
-- metadata/src/block_list.cc, file_list.cc, file_delete.cc and recent_hashes.cc.
use balabox.Base.{ℕ, ◌+◌, true, none, some, List, [], ◌∷◌, ◌==◌, if◌then◌else◌}
use balabox.Base.Text.{Text, text}
use balabox.Base.Decimal.{atoi}
use balabox.Exec.{Exec, pure, die, demand, ◌>>=◌, ◌>>◌}
use balabox.Sql.{MySql}
use balabox.Json.{Json}
use balabox.Helper.{
  connect, close, get_file_block_list, get_user_file_names, get_recent_first_hashes, remove_file,
}
use balabox.Util.{error_page, normal_head, get_query_param, string_to_json}
use balabox.Web.{Request, World, gstdin, stdin_max, response_body, emit, on_db}

module _ (M : MySql) where
  -- What the programs that read the query string begin with: `gstdin`, the string of its buffer,
  -- and the test for a null query string.
  unfoldable pub with_query :
      Request → (Text → Exec (World M) (Unit {0})) → Exec (World M) (Unit {0})
  unfolding gstdin response_body
  with_query r handle = do
    response_body r (gstdin stdin_max r)
    elim r.query_string [ none ↦ emit M error_page | some query ↦ handle query ]

  -- The test for two parameters, `s1 != 0 || s2 != 0`.
  unfoldable pub with_params :
      Text → Text → Text → (Text → Text → Exec (World M) (Unit {0})) → Exec (World M) (Unit {0})
  unfolding get_query_param
  with_params query p q handle = elim (get_query_param query p) [
    | none ↦ emit M error_page
    | some a ↦ elim (get_query_param query q) [ none ↦ emit M error_page | some b ↦ handle a b ]
  ]

module _ (M : MySql) (J : Json) where
  -- Writes a JSON document built on the helper's answer.
  unfoldable pub reply : J.Value → Exec (World M) (Unit {0})
  reply response = do on_db M (close M); emit M (J.write response)

  -- block_list.cc, behind the parameters
  unfoldable pub block_list_of : Text → Text → Exec (World M) (Unit {0})
  block_list_of user_id file_name = do
    connected ← on_db M (connect M)
    if connected == 0
        then (do
          (code, hashes, version) ← on_db M (get_file_block_list M user_id file_name 0)
          if code == 0
              then (do
                emit M normal_head
                list ← string_to_json J 0 hashes J.null
                response ← demand (J.set_member J.null (text "block_list") list)
                response' ← demand (J.set_member response (text "version") (J.of_uint version))
                reply response')
              else emit M error_page)
        else emit M error_page

  unfoldable pub block_list : Request → Exec (World M) (Unit {0})
  block_list r =
      with_query M r
        (λ query. with_params M query (text "user_id") (text "file_name") block_list_of)

  -- The loop of file_list.cc that pairs names and versions, from index `i` on.
  unfoldable pub file_pairs : ℕ → List Text → List Text → J.Value → Exec (World M) J.Value
  file_pairs i [] versions files = pure files
  file_pairs i (name ∷ names) [] files = die
  file_pairs i (name ∷ names) (version ∷ versions) files = do
    pair ← demand (J.set_index J.null 0 (J.of_string name))
    pair' ← demand (J.set_index pair 1 (J.of_int (atoi version)))
    files' ← demand (J.set_index files i pair')
    file_pairs (i + 1) names versions files'

  unfoldable pub file_list_of : Text → Exec (World M) (Unit {0})
  file_list_of user_id = do
    on_db M (connect M)
    (code, names, versions) ← on_db M (get_user_file_names M user_id)
    if code == 0
        then (do
          emit M normal_head
          files ← file_pairs 0 names versions J.null
          response ← demand (J.set_member J.null (text "files") files)
          reply response)
        else emit M error_page

  unfoldable pub file_list : Request → Exec (World M) (Unit {0})
  file_list r = with_query M r (λ query. elim (get_query_param query (text "user_id")) [
    | none ↦ emit M error_page
    | some user_id ↦ file_list_of user_id
  ])

  -- On a failure the response is built and then dropped by `continue`.
  unfoldable pub file_delete_of : Text → Text → Exec (World M) (Unit {0})
  file_delete_of user_id file_name = do
    connected ← on_db M (connect M)
    if connected == 0
        then (do
          code ← on_db M (remove_file M user_id file_name)
          if code == 0
              then (do
                emit M normal_head
                response ← demand (J.set_member J.null (text "is_delete") (J.of_bool true))
                reply response)
              else emit M error_page)
        else emit M error_page

  unfoldable pub file_delete : Request → Exec (World M) (Unit {0})
  file_delete r =
      with_query M r
        (λ query. with_params M query (text "user_id") (text "file_name") file_delete_of)

  unfoldable pub recent_hashes_of : Text → Text → Exec (World M) (Unit {0})
  recent_hashes_of user_id max_hashes = do
    on_db M (connect M)
    (code, hashes) ← on_db M (get_recent_first_hashes M user_id (atoi max_hashes))
    if code == 0
        then (do
          emit M normal_head
          list ← string_to_json J 0 hashes J.null
          response ← demand (J.set_member J.null (text "block_list") list)
          reply response)
        else emit M error_page

  unfoldable pub recent_hashes : Request → Exec (World M) (Unit {0})
  recent_hashes r =
      with_query M r
        (λ query. with_params M query (text "user_id") (text "max_hashes") recent_hashes_of)
