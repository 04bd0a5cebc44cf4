-- ===== src/Helper/RoundTrip.antt =====
-- A commit followed by the reads and the removal of the same file.
use mathlib.Core.List.{map}
use balabox.Base.{
  ℕ, ◌+◌, true, ◌≡◌, refl, ap, ◌∙◌, ◌⊎◌, inl, inr, ◌<◌, ◌&&◌, List, [], ◌∷◌, if◌then◌else◌,
  append-nil,
}
use balabox.Base.Text.{Text}
use balabox.Exec.{ok}
use balabox.Sql.{MySql}
use balabox.Sql.Laws.{Tables, IsSql, IsName, delete_file}
use balabox.Sql.Files.{new_rows, keep_if-replaced}
use balabox.Sql.Consistent.{rows_of, IsConsistent, replaced}
use balabox.Helper.{update_file_data, get_file_block_list, remove_file}
use balabox.Helper.Steps.{command_lem}
use balabox.Helper.Version.{file_version, accepts}
use balabox.Helper.Commit.{IsCommit}
use balabox.Helper.Outcome.{update_file_data_healthy, update_file_data-IsConsistent}
use balabox.Helper.Reads.{version_or, get_file_block_list_lem}

pub hashes-new_rows :
    (u f : Text) (v i : ℕ) (hs : List Text) → map (λ r. r.block_hash) (new_rows u f v i hs) ≡ hs
hashes-new_rows u f v i [] = refl
hashes-new_rows u f v i (h ∷ hs) = ap (λ l. h ∷ l) (hashes-new_rows u f v (i + 1) hs)

-- The version that is read back; an empty file has no row to hold one.
abbrev pub version_read : ℕ → ℕ → List Text → ℕ
version_read d v [] = d
version_read d v (h ∷ hs) = v

pub version_or-new_rows :
    (u f : Text) (v d : ℕ) (hs : List Text)
    → version_or d (new_rows u f v 0 hs) ≡ version_read d v hs
version_or-new_rows u f v d [] = refl
version_or-new_rows u f v d (h ∷ hs) = refl

module _ (M : MySql) (L : IsSql M) (u f : Text) where
  pub rows_of-replaced :
      (v : ℕ) (hs : List Text) (t : Tables)
      → rows_of L.same u f (replaced L.same u f v hs t) ≡ new_rows u f v 0 hs
  rows_of-replaced v hs t =
      keep_if-replaced L.same L.collation u f u f v hs t.files
      ∙ rw (L.collation.same_refl u, L.collation.same_refl f)

  -- On a healthy server with consistent tables, after a commit of plain names and hashes with a
  -- version below 2 ^ 31 that is accepted, getFileBlockList returns 0 with exactly the committed
  -- hashes in order, and with the committed version if there is a hash at all.
  pub get_file_block_list-update_file_data :
      (hs : List Text) (v d : ℕ) (s : M.State)
      → IsCommit M L u f hs v
      → IsConsistent L.same (L.tables s)
      → L.Healthy s
      → accepts (file_version L.same u f (L.tables s)) v ≡ true
      → (get_file_block_list M u f d (update_file_data M u f hs v s).1).0
        ≡ ok (0, hs, version_read d v hs)
  get_file_block_list-update_file_data hs v d s c inv h new =
      elim (get_file_block_list_lem M L u f d (update_file_data M u f hs v s).1 c.user c.file
        (update_file_data-IsConsistent M L u f hs v s c inv)) [
          | inl (s', run, same) ↦ rw (
            run,
            stored,
            rows_of-replaced v hs (L.tables s),
            hashes-new_rows u f v 0 hs,
            version_or-new_rows u f v d hs,
          )
          | inr (e, s', run, high, same, sick) ↦ absurd (sick (ended.2))
        ]
    where
      ended :
          ((update_file_data M u f hs v s).0
            ≡ ok (if accepts (file_version L.same u f (L.tables s)) v then 0 else 1))
          × (L.tables (update_file_data M u f hs v s).1 ≡ (
              if accepts (file_version L.same u f (L.tables s)) v
              then replaced L.same u f v hs (L.tables s)
              else L.tables s))
          × L.Healthy (update_file_data M u f hs v s).1
      ended = update_file_data_healthy M L u f hs v s c inv h

      stored : L.tables (update_file_data M u f hs v s).1 ≡ replaced L.same u f v hs (L.tables s)
      stored = ended.1 ∙ rw new

  -- For plain names removeFile returns 0 and leaves the file no row and every other file its own,
  -- or it returns an error number above 999 and changes nothing, which a healthy server does not
  -- do.
  pub remove_file_lem :
      (s : M.State)
      → IsName u
      → IsName f
      → ((s' : M.State) × (remove_file M u f s ≡ (ok 0, s'))
          × ((u' f' : Text)
              → rows_of L.same u' f' (L.tables s')
                ≡ (if L.same u u' && L.same f f' then [] else rows_of L.same u' f' (L.tables s))))
        ⊎ ((e : ℕ) × (s' : M.State) × (remove_file M u f s ≡ (ok e, s'))
            × (999 < e)
            × (L.tables s' ≡ L.tables s)
            × ¬ (L.Healthy s))
  unfolding remove_file
  remove_file_lem s nu nf = elim (command_lem M L (delete_file u f) s (nu, nf)) [
    | inl (s', run, gone, _) ↦ inl (
      s',
      run,
      λ u' f'. rw gone (
          rw (append-nil) at
            (keep_if-replaced L.same L.collation u f u' f' 0 [] (L.tables s).files)),
    )
    | inr (e, s', run, same, high, sick) ↦ inr (e, s', run, high, same, sick)
  ]
