-- ===== src/Handlers/Answers.antt =====
-- The documents that block_query and a refused file_commit answer with.
use balabox.Base.{
  ◌<◌, ◌≡◌, ◌≢◌, refl, sym, subst, ap, ◌∙◌, inl, inr, true, false, some, List, [], ◌∷◌, ◌++◌, not,
  length, All, All-keep_if,
}
use balabox.Base.Text.{Text, text}
use balabox.Base.Decimal.{atoi, int_mod}
use balabox.Exec.{ok, ◌>>=◌}
use balabox.Sql.{MySql}
use balabox.Sql.Laws.{IsSql, IsHash}
use balabox.Sql.Consistent.{IsConsistent}
use balabox.Helper.{close, update_file_data, get_missing_block_hashes, evers}
use balabox.Helper.Commit.{IsCommit}
use balabox.Helper.Version.{file_version, accepts}
use balabox.Helper.Outcome.{update_file_data_healthy}
use balabox.Helper.Missing.{stored, absent, get_missing_block_hashes_lem}
use balabox.Json.{Json}
use balabox.Util.{error_page}
use balabox.Util.Arrays.{IsString, IsJson, strings, string_to_json_lem, json_to_string-strings}
use balabox.Web.{World, emit, on_db}
use balabox.Handlers.Commits.{needed_response, block_query_of, commit_response, file_commit_of}
use balabox.Handlers.Files.{reply}
use balabox.Handlers.Keeps.{tables_of}
use balabox.Handlers.Service.{IsService, Lists, connect_lem, hashes-IsString}

module _ (M : MySql) (J : Json) where
  -- The document of block_query for the hashes that are missing.
  abbrev pub Needed : J.Value → List Text → Type 0
  Needed doc [] = J.get_member doc (text "nb") ≡ some (J.of_bool false)
  Needed doc (h ∷ hs) =
      (J.get_member doc (text "nb") ≡ some (J.of_bool true))
      × (list : J.Value) × (J.get_member doc (text "needed_blocks") ≡ some list)
      × Lists M J list (h ∷ hs)

  -- The document of a commit that was refused.
  abbrev pub Refused : J.Value → Type 0
  Refused doc =
      (J.get_member doc (text "metadata_updated") ≡ some (J.of_bool false))
      × (J.get_member doc (text "message") ≡ some (J.of_string (text "Old client version.")))

nb-ne : text "nb" ≢ text "needed_blocks"
unfolding text
nb-ne e = cc

updated-ne : text "metadata_updated" ≢ text "message"
unfolding text
updated-ne e = cc

module _ (M : MySql) (J : Json) (K : IsJson J) where
  needed_response_lem :
      (missing : List Text) (w : World M)
      → All IsString missing
      → (doc : J.Value) × (needed_response M J missing w ≡ (ok doc, w)) × Needed M J doc missing
  unfolding needed_response ◌>>=◌
  needed_response_lem [] w plain =
      let (doc, made, _, member, _) =
        K.set_member-IsObject J.null (text "nb") (J.of_bool false) K.null-IsObject in
      (doc, rw made, member)
  needed_response_lem (h ∷ hs) w plain =
      let list = K.items (strings J (h ∷ hs)) in
      let (doc1, made1, object1, member1, _) =
        K.set_member-IsObject J.null (text "nb") (J.of_bool true) K.null-IsObject in
      let (doc2, made2, _, member2, others) =
        K.set_member-IsObject doc1 (text "needed_blocks") list object1 in
      (
        doc2,
        rw (made1, string_to_json_lem J K (h ∷ hs), made2),
        (
          others (text "nb") nb-ne ∙ member1,
          list,
          member2,
          λ x. json_to_string-strings J K (h ∷ hs) x plain,
        ),
      )

module _ (M : MySql) (L : IsSql M) (V : IsService M L) (J : Json) (K : IsJson J) where
  -- On a healthy service (IsService) with fewer than 2 ^ 32 rows, a query for one plain hash or
  -- more is answered with a document whose nb is true and whose needed_blocks is an array of
  -- exactly the hashes that no row holds, in the order of the query, or whose nb is false if there
  -- is none, and changes no table. The JSON library meets IsJson.
  pub block_query_of_lem :
      (h : Text) (hs : List Text) (w : World M)
      → All IsHash (h ∷ hs)
      → length (tables_of M L w).files < int_mod
      → L.Healthy w.db
      → (w' : World M) × (doc : J.Value) × (block_query_of M J (h ∷ hs) w ≡ (ok tt, w'))
        × (w'.out ≡ w.out ++ J.write doc)
        × Needed M J doc (absent M L (tables_of M L w) (h ∷ hs))
        × (tables_of M L w' ≡ tables_of M L w)
  unfolding block_query_of on_db reply emit close ◌>>=◌
  block_query_of_lem h hs w hashes few healthy =
      let (s1, run1, same1, h1) = connect_lem M L V w.db healthy in
      let few1 : length (L.tables s1).files < int_mod = rw same1 few in
      elim (get_missing_block_hashes_lem M L h hs s1 hashes few1) [
        | inr (_, _, _, _, _, _, sick) ↦ absurd (sick h1)
        | inl (s2, run2, same2) ↦
            let missing = absent M L (tables_of M L w) (h ∷ hs) in
            let found : get_missing_block_hashes M (h ∷ hs) s1 ≡ (ok (0, missing), s2) =
              run2 ∙ ap (λ t. (ok (0, absent M L t (h ∷ hs)), s2)) same1 in
            let plain : All IsString missing =
              All-keep_if IsString (λ x. not (stored L.same (tables_of M L w) x)) (h ∷ hs)
                (hashes-IsString (h ∷ hs) hashes) in
            let (doc, answer, needed) =
              needed_response_lem M J K missing (record w { db = s2 }) plain in
            (
              record { db = M.close s2; out = w.out ++ J.write doc },
              doc,
              rw (run1, found, answer),
              refl,
              needed,
              V.connection.close_same s2 ∙ same2 ∙ same1,
            )
      ]

  -- On a healthy service (IsService) with consistent tables, a commit request of plain names and
  -- hashes with a version below 2 ^ 31 that is not accepted changes no table and is answered with
  -- the error page and a document whose metadata_updated is false and whose message is "Old client
  -- version.". The JSON library meets IsJson and its values of the document are these strings.
  pub file_commit_of-stale :
      (user_id file_name version : J.Value) (number user name : Text) (hashes : List Text)
      (w : World M)
      → J.as_string version ≡ some number
      → J.as_string user_id ≡ some user
      → J.as_string file_name ≡ some name
      → IsCommit M L user name hashes (atoi number)
      → IsConsistent L.same (tables_of M L w)
      → L.Healthy w.db
      → accepts (file_version L.same user name (tables_of M L w)) (atoi number) ≡ false
      → (w' : World M) × (doc : J.Value) × (file_commit_of M J user_id file_name hashes version w
          ≡ (ok tt, w'))
        × (w'.out ≡ (w.out ++ error_page) ++ J.write doc)
        × Refused M J doc
        × (tables_of M L w' ≡ tables_of M L w)
  unfolding file_commit_of on_db commit_response reply emit close ◌>>=◌
  file_commit_of-stale user_id file_name version number user name hashes w en eu ef commit inv h
        old =
      let (s1, run1, same1, h1) = connect_lem M L V w.db h in
      let inv1 : IsConsistent L.same (L.tables s1) = subst (IsConsistent L.same) (sym same1) inv in
      let old1 : accepts (file_version L.same user name (L.tables s1)) (atoi number) ≡ false =
        rw same1 old in
      let (code, stored, h2) =
        update_file_data_healthy M L user name hashes (atoi number) s1 commit inv1 h1 in
      let code1 : (update_file_data M user name hashes (atoi number) s1).0 ≡ ok evers =
        code ∙ rw old1 in
      let s2 = (update_file_data M user name hashes (atoi number) s1).1 in
      let (doc1, made1, object1, member1, _) =
        K.set_member-IsObject J.null (text "metadata_updated") (J.of_bool false) K.null-IsObject in
      let (doc2, made2, _, member2, others) =
        K.set_member-IsObject doc1 (text "message") (J.of_string (text "Old client version."))
          object1 in
      (
        record { db = M.close s2; out = (w.out ++ error_page) ++ J.write doc2 },
        doc2,
        rw (run1, en, eu, ef, code1, made1, made2),
        refl,
        (others (text "metadata_updated") updated-ne ∙ member1, member2),
        V.connection.close_same s2 ∙ (stored ∙ rw old1) ∙ same1,
      )
