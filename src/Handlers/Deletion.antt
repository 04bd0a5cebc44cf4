-- ===== src/Handlers/Deletion.antt =====
-- A request to delete a file and the request for its blocks.
use balabox.Base.{
  ◌≡◌, refl, ap, ◌∙◌, inl, inr, ◌&&◌, true, some, [], ◌++◌, if◌then◌else◌, append-nil, arith,
}
use balabox.Base.Text.{Text, text}
use balabox.Exec.{ok, ◌>>=◌}
use balabox.Sql.{MySql}
use balabox.Sql.Laws.{Tables, IsSql, IsName, delete_file, effect}
use balabox.Sql.Files.{keep_if-replaced}
use balabox.Sql.Consistent.{rows_of, IsConsistent, replaced, replaced-IsConsistent}
use balabox.Helper.{close, remove_file}
use balabox.Helper.Steps.{command_lem}
use balabox.Helper.RoundTrip.{rows_of-replaced}
use balabox.Json.{Json}
use balabox.Util.{normal_head}
use balabox.Util.Arrays.{IsJson}
use balabox.Web.{World, emit, on_db}
use balabox.Handlers.Files.{reply, file_delete_of, block_list_of}
use balabox.Handlers.Keeps.{tables_of}
use balabox.Handlers.Service.{IsService, connect_lem, block_list_of_lem}

-- The document of a file that was deleted.
abbrev pub Deleted : (J : Json) → J.Value → Type 0
Deleted J doc = J.get_member doc (text "is_delete") ≡ some (J.of_bool true)

-- The document of block_list for a file without blocks.
abbrev pub Unlisted : (J : Json) → J.Value → Type 0
Unlisted J doc =
    (J.get_member doc (text "block_list") ≡ some J.null)
    × (J.get_member doc (text "version") ≡ some (J.of_uint 0))

module _ (M : MySql) (L : IsSql M) (V : IsService M L) (J : Json) (K : IsJson J) where
  -- A file without rows is one that is replaced by nothing.
  abbrev removed : Text → Text → Tables → Tables
  removed user name t = replaced L.same user name 0 [] t

  removed-effect :
      (user name : Text) (t : Tables)
      → effect L.same (delete_file user name) t ≡ removed user name t
  removed-effect user name t = rw append-nil

  file_delete_of_lem :
      (user name : Text) (w : World M)
      → IsName user
      → IsName name
      → L.Healthy w.db
      → (w' : World M) × (doc : J.Value) × (file_delete_of M J user name w ≡ (ok tt, w'))
        × (w'.out ≡ (w.out ++ normal_head) ++ J.write doc)
        × Deleted J doc
        × (tables_of M L w' ≡ removed user name (tables_of M L w))
        × L.Healthy w'.db
  unfolding file_delete_of remove_file on_db reply emit close ◌>>=◌
  file_delete_of_lem user name w nu nf h =
      let (s1, run1, same1, h1) = connect_lem M L V w.db h in
      elim (command_lem M L (delete_file user name) s1 (nu, nf)) [
        | inr (_, _, _, _, _, sick) ↦ absurd (sick h1)
        | inl (s2, run2, gone, well) ↦
            let (doc, made, _, member, _) =
              K.set_member-IsObject J.null (text "is_delete") (J.of_bool true) K.null-IsObject in
            (
              record { db = M.close s2; out = (w.out ++ normal_head) ++ J.write doc },
              doc,
              rw (run1, run2, made),
              refl,
              member,
              V.connection.close_same s2
                  ∙ gone
                  ∙ removed-effect user name (L.tables s1)
                  ∙ ap (removed user name) same1,
              V.close_healthy s2 (well h1),
            )
      ]

  -- On a healthy service (IsService) with consistent tables and for plain names, a request to
  -- delete a file is answered with a document whose is_delete is true and leaves every other file
  -- its rows, and the block_list request for the file that follows is answered with a block_list
  -- that is null and version 0. The JSON library meets IsJson.
  pub block_list_of-file_delete_of :
      (user name : Text) (w : World M)
      → IsName user
      → IsName name
      → IsConsistent L.same (tables_of M L w)
      → L.Healthy w.db
      → (w1 w2 : World M) × (deleted listed : J.Value) × (file_delete_of M J user name w
          ≡ (ok tt, w1))
        × (w1.out ≡ (w.out ++ normal_head) ++ J.write deleted)
        × Deleted J deleted
        × (block_list_of M J user name w1 ≡ (ok tt, w2))
        × (w2.out ≡ (w1.out ++ normal_head) ++ J.write listed)
        × Unlisted J listed
        × ((u f : Text)
            → rows_of L.same u f (tables_of M L w1) ≡ (
                if L.same user u && L.same name f
                then []
                else rows_of L.same u f (tables_of M L w)))
  block_list_of-file_delete_of user name w nu nf inv h =
      let (w1, deleted, run1, out1, member, gone, h1) = file_delete_of_lem user name w nu nf h in
      let inv1 : IsConsistent L.same (tables_of M L w1) = rw gone (
        replaced-IsConsistent L.same L.collation user name 0 [] (tables_of M L w) (omega arith)
          inv) in
      let rows : rows_of L.same user name (tables_of M L w1) ≡ [] =
        rw gone (rows_of-replaced M L user name 0 [] (tables_of M L w)) in
      let (w2, listed, run2, out2, blocks) =
        block_list_of_lem M L V J K user name [] 0 w1 nu nf inv1 h1 (rw rows) (rw rows) tt in
      let (list, member2, _, no_array, version) = blocks in
      (
        w1,
        w2,
        deleted,
        listed,
        run1,
        out1,
        member,
        run2,
        out2,
        (member2 ∙ ap some no_array, version),
        λ u f.
            rw gone
              (keep_if-replaced L.same L.collation user name u f 0 [] (tables_of M L w).files),
      )
