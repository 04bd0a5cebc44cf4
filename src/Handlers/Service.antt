-- ===== src/Handlers/Service.antt =====
-- A commit request and the request for the blocks of the file, from document to document.
use mathlib.Core.List.{map}
use balabox.Base.{
  ℕ, ◌≡◌, ◌≢◌, refl, sym, subst, ap, ◌∙◌, inl, inr, true, some, List, [], ◌∷◌, ◌++◌, All, arith,
}
use balabox.Base.Text.{Text, text}
use balabox.Base.Decimal.{atoi}
use balabox.Exec.{ok, ◌>>=◌}
use balabox.Sql.{MySql}
use balabox.Sql.Laws.{IsSql, IsName, IsHash, is_plain}
use balabox.Sql.Files.{new_rows}
use balabox.Sql.Consistent.{rows_of, IsConsistent, replaced, replaced-IsConsistent}
use balabox.Helper.{
  connect, connect_to, close, dbhost, port, db_user, password, database, init, real_connect,
  update_file_data,
}
use balabox.Helper.Commit.{IsCommit}
use balabox.Helper.Version.{file_version, accepts}
use balabox.Helper.Outcome.{update_file_data_healthy}
use balabox.Helper.Reads.{version_or, get_file_block_list_lem}
use balabox.Helper.RoundTrip.{rows_of-replaced, hashes-new_rows, version_read, version_or-new_rows}
use balabox.Json.{Json}
use balabox.Util.{normal_head, json_to_string}
use balabox.Util.Arrays.{IsString, IsJson, strings, string_to_json_lem, json_to_string-strings}
use balabox.Web.{World, emit, on_db}
use balabox.Handlers.Commits.{commit_response, file_commit_of}
use balabox.Handlers.Files.{reply, block_list_of}
use balabox.Handlers.Keeps.{IsConnection, tables_of}

-- A healthy server can be connected to, and stays healthy over it.
pub record IsService (M : MySql) (L : IsSql M) : Type 0 where
  pub connection : IsConnection M L
  pub init_healthy : (s : M.State) → L.Healthy s → ((M.init s).0 ≡ true) × L.Healthy (M.init s).1
  pub connect_healthy :
      (host user pass db : Text) (p : ℕ) (s : M.State)
      → L.Healthy s
      → ((M.real_connect host user pass db p s).0 ≡ true)
        × L.Healthy (M.real_connect host user pass db p s).1
  pub close_healthy : (s : M.State) → L.Healthy s → L.Healthy (M.close s)

module _ (M : MySql) (L : IsSql M) (V : IsService M L) where
  pub connect_lem :
      (s : M.State)
      → L.Healthy s
      → (s' : M.State) × (connect M s ≡ (ok 0, s')) × (L.tables s' ≡ L.tables s) × L.Healthy s'
  unfolding connect connect_to init real_connect ◌>>=◌
  connect_lem s h =
      let (made, h1) = V.init_healthy s h in
      let s' = (M.real_connect dbhost db_user password database port (M.init s).1).1 in
      let (done, h2) = V.connect_healthy dbhost db_user password database port (M.init s).1 h1 in
      (
        s',
        rw (made, done),
        V.connection.connect_same dbhost db_user password database port (M.init s).1
            ∙ V.connection.init_same s,
        h2,
      )

members_apart : text "block_list" ≢ text "version"
unfolding text
members_apart e = cc

plain-IsString : (s : Text) → All (λ c. is_plain c ≡ true) s → IsString s
unfolding is_plain
plain-IsString [] h = tt
plain-IsString (c ∷ s) (plain, h) = ((λ zero_byte. ground arith), plain-IsString s h)

pub hashes-IsString : (hs : List Text) → All IsHash hs → All IsString hs
hashes-IsString [] h = tt
hashes-IsString (s ∷ hs) (hash, h) = (plain-IsString s hash.plain, hashes-IsString hs h)

module _ (M : MySql) (J : Json) where
  -- The document of a commit that was accepted.
  abbrev pub Updated : J.Value → Type 0
  Updated doc = J.get_member doc (text "metadata_updated") ≡ some (J.of_bool true)

  -- The array of some hashes, as a client reads it.
  abbrev pub Lists : J.Value → List Text → Type 0
  Lists v hs = (x : World M) → json_to_string J (J.size v) 0 v x ≡ (ok hs, x)

  -- Without hashes the value is null, and no array.
  abbrev pub Shape : List Text → J.Value → Type 0
  Shape [] v = v ≡ J.null
  Shape (h ∷ hs) v = v ≢ J.null

  -- The document of block_list for some hashes and a version.
  abbrev pub Blocks : J.Value → List Text → ℕ → Type 0
  Blocks doc hs v =
      (list : J.Value) × (J.get_member doc (text "block_list") ≡ some list)
      × Lists list hs
      × Shape hs list
      × (J.get_member doc (text "version") ≡ some (J.of_uint v))

module _ (M : MySql) (L : IsSql M) (V : IsService M L) (J : Json) (K : IsJson J) where
  file_commit_of_lem :
      (user_id file_name version : J.Value) (number user name : Text) (hashes : List Text)
      (w : World M)
      → J.as_string version ≡ some number
      → J.as_string user_id ≡ some user
      → J.as_string file_name ≡ some name
      → IsCommit M L user name hashes (atoi number)
      → IsConsistent L.same (tables_of M L w)
      → L.Healthy w.db
      → accepts (file_version L.same user name (tables_of M L w)) (atoi number) ≡ true
      → (w' : World M) × (file_commit_of M J user_id file_name hashes version w ≡ (ok tt, w'))
        × ((doc : J.Value) × (w'.out ≡ (w.out ++ normal_head) ++ J.write doc) × Updated M J doc)
        × (tables_of M L w' ≡ replaced L.same user name (atoi number) hashes (tables_of M L w))
        × L.Healthy w'.db
  unfolding file_commit_of on_db commit_response reply emit close ◌>>=◌
  file_commit_of_lem user_id file_name version number user name hashes w en eu ef commit inv h new =
      let (s1, run1, same1, h1) = connect_lem M L V w.db h in
      let inv1 : IsConsistent L.same (L.tables s1) = subst (IsConsistent L.same) (sym same1) inv in
      let new1 : accepts (file_version L.same user name (L.tables s1)) (atoi number) ≡ true =
        rw same1 new in
      let (code, stored, h2) =
        update_file_data_healthy M L user name hashes (atoi number) s1 commit inv1 h1 in
      let code0 : (update_file_data M user name hashes (atoi number) s1).0 ≡ ok 0 =
        code ∙ rw new1 in
      let s2 = (update_file_data M user name hashes (atoi number) s1).1 in
      let (doc, made, _, member, _) =
        K.set_member-IsObject J.null (text "metadata_updated") (J.of_bool true) K.null-IsObject in
      (
        record { db = M.close s2; out = (w.out ++ normal_head) ++ J.write doc },
        rw (run1, en, eu, ef, code0, made),
        (doc, refl, member),
        V.connection.close_same s2
            ∙ (stored ∙ rw new1)
            ∙ ap (replaced L.same user name (atoi number) hashes) same1,
        V.close_healthy s2 h2,
      )

  strings-Shape : (hs : List Text) → Shape M J hs (K.items (strings J hs))
  strings-Shape [] = K.items-nil
  strings-Shape (h ∷ hs) = λ null.
      let same : J.size (K.items (strings J (h ∷ hs))) ≡ J.size (K.items []) =
        ap J.size (null ∙ sym K.items-nil) in
      omega (arith, K.size-items (strings J (h ∷ hs)), K.size-items [], same)

  pub block_list_of_lem :
      (user name : Text) (hs : List Text) (v : ℕ) (w : World M)
      → IsName user
      → IsName name
      → IsConsistent L.same (tables_of M L w)
      → L.Healthy w.db
      → map (λ r. r.block_hash) (rows_of L.same user name (tables_of M L w)) ≡ hs
      → version_or 0 (rows_of L.same user name (tables_of M L w)) ≡ v
      → All IsString hs
      → (w' : World M) × (doc : J.Value) × (block_list_of M J user name w ≡ (ok tt, w'))
        × (w'.out ≡ (w.out ++ normal_head) ++ J.write doc)
        × Blocks M J doc hs v
  unfolding block_list_of on_db reply emit close ◌>>=◌
  block_list_of_lem user name hs v w nu nf inv h stored version plain =
      let (s1, run1, same1, h1) = connect_lem M L V w.db h in
      let inv1 : IsConsistent L.same (L.tables s1) = subst (IsConsistent L.same) (sym same1) inv in
      elim (get_file_block_list_lem M L user name 0 s1 nu nf inv1) [
        | inr (_, _, _, _, _, sick) ↦ absurd (sick h1)
        | inl (s2, run2, same2) ↦
            let list = K.items (strings J hs) in
            let (doc1, made1, object1, member1, _) =
              K.set_member-IsObject J.null (text "block_list") list K.null-IsObject in
            let (doc2, made2, _, member2, others) =
              K.set_member-IsObject doc1 (text "version") (J.of_uint v) object1 in
            (
              record { db = M.close s2; out = (w.out ++ normal_head) ++ J.write doc2 },
              doc2,
              rw (run1, run2, same1, stored, version, string_to_json_lem J K hs, made1, made2),
              refl,
              (
                list,
                others (text "block_list") members_apart ∙ member1,
                λ x. json_to_string-strings J K hs x plain,
                strings-Shape hs,
                member2,
              ),
            )
      ]

  -- On a healthy service (IsService) with consistent tables, a commit request of plain names and
  -- hashes with a version below 2 ^ 31 that is accepted is answered with a document whose
  -- metadata_updated is true, and the block_list request for the file that follows with a document
  -- whose block_list is an array of exactly the committed hashes, in order, or null if there is
  -- none, and whose version is the committed one, or 0 if there is no hash. The JSON library meets
  -- IsJson and its values of the document are these strings.
  pub block_list_of-file_commit_of :
      (user_id file_name version : J.Value) (number user name : Text) (hashes : List Text)
      (w : World M)
      → J.as_string version ≡ some number
      → J.as_string user_id ≡ some user
      → J.as_string file_name ≡ some name
      → IsCommit M L user name hashes (atoi number)
      → IsConsistent L.same (tables_of M L w)
      → L.Healthy w.db
      → accepts (file_version L.same user name (tables_of M L w)) (atoi number) ≡ true
      → (w1 w2 : World M) × (updated listed : J.Value) × (file_commit_of M J user_id file_name
            hashes version w
          ≡ (ok tt, w1))
        × (w1.out ≡ (w.out ++ normal_head) ++ J.write updated)
        × Updated M J updated
        × (block_list_of M J user name w1 ≡ (ok tt, w2))
        × (w2.out ≡ (w1.out ++ normal_head) ++ J.write listed)
        × Blocks M J listed hashes (version_read 0 (atoi number) hashes)
  block_list_of-file_commit_of user_id file_name version number user name hashes w en eu ef commit
        inv h new =
      let (w1, run1, (updated, out1, member), stored, h1) =
        file_commit_of_lem user_id file_name version number user name hashes w en eu ef commit inv h
          new in
      let inv1 : IsConsistent L.same (tables_of M L w1) = rw stored (
        replaced-IsConsistent L.same L.collation user name (atoi number) hashes (tables_of M L w)
          commit.version inv) in
      let rows : rows_of L.same user name (tables_of M L w1)
          ≡ new_rows user name (atoi number) 0 hashes =
        rw stored (rows_of-replaced M L user name (atoi number) hashes (tables_of M L w)) in
      let (w2, listed, run2, out2, blocks) =
        block_list_of_lem user name hashes (version_read 0 (atoi number) hashes) w1 commit.user
          commit.file inv1 h1 (rw rows (hashes-new_rows user name (atoi number) 0 hashes))
          (rw rows (version_or-new_rows user name (atoi number) 0 hashes))
          (hashes-IsString hashes commit.blocks) in
      (w1, w2, updated, listed, run1, out1, member, run2, out2, blocks)
