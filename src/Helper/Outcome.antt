-- ===== src/Helper/Outcome.antt =====
-- What every commit keeps, however it ends.
use balabox.Base.{
  ℕ, ◌<◌, false, ◌&&◌, ◌≡◌, ◌≢◌, ◌⊎◌, refl, ◌∙◌, inl, inr, List, length, take, arith, if◌then◌else◌,
}
use balabox.Base.Text.{Text}
use balabox.Exec.{ok}
use balabox.Sql.{MySql}
use balabox.Sql.Laws.{Tables, IsSql}
use balabox.Sql.Files.{keep_if-replaced}
use balabox.Sql.Consistent.{rows_of, IsConsistent, replaced, replaced-IsConsistent}
use balabox.Helper.{evers, update_file_data}
use balabox.Helper.Version.{file_version, accepts}
use balabox.Helper.Commit.{
  Committed, refused, stale, cut_short, done, IsCommit, update_file_data-Committed,
}

module _ (M : MySql) (L : IsSql M) (u f : Text) (hs : List Text) (v : ℕ) (s : M.State) where
  abbrev after : Tables
  after = L.tables (update_file_data M u f hs v s).1

  -- Whatever holds of the tables before a commit and of every replacement holds after it.
  Committed-elim :
      (P : Tables → Type 0)
      → P (L.tables s)
      → ((k : ℕ) → P (replaced L.same u f v (take k hs) (L.tables s)))
      → P (replaced L.same u f v hs (L.tables s))
      → Committed M L u f hs v s
      → P after
  Committed-elim P old part new (refused e s' run _ same _) = rw (after, run, same) old
  Committed-elim P old part new (stale s' run _ same _) = rw (after, run, same) old
  Committed-elim P old part new (cut_short e k s' run _ _ _ same _) = rw (after, run, same) (part k)
  Committed-elim P old part new (done s' run _ same _) = rw (after, run, same) new

  module _ (c : IsCommit M L u f hs v) (inv : IsConsistent L.same (L.tables s)) where
    -- For a commit of plain names and hashes with a version below 2 ^ 31 on consistent tables:
    -- whether it succeeds, is refused or breaks off, every file in the tables still has one version
    -- and block numbers that count up from 0.
    pub update_file_data-IsConsistent : IsConsistent L.same after
    update_file_data-IsConsistent =
        Committed-elim (IsConsistent L.same) inv
          (λ k.
            replaced-IsConsistent L.same L.collation u f v (take k hs) (L.tables s) c.version inv)
          (replaced-IsConsistent L.same L.collation u f v hs (L.tables s) c.version inv)
          (update_file_data-Committed M L u f hs v s c inv)

    -- For a commit of plain names and hashes with a version below 2 ^ 31 on consistent tables:
    -- however it ends, the rows of every other file are as they were.
    pub rows_of-update_file_data_ne :
        (u' f' : Text)
        → (L.same u u' && L.same f f') ≡ false
        → rows_of L.same u' f' after ≡ rows_of L.same u' f' (L.tables s)
    rows_of-update_file_data_ne u' f' ne =
        Committed-elim (λ t. rows_of L.same u' f' t ≡ rows_of L.same u' f' (L.tables s)) refl
          (λ k. other (take k hs)) (other hs) (update_file_data-Committed M L u f hs v s c inv)
      where
        other :
            (part : List Text)
            → rows_of L.same u' f' (replaced L.same u f v part (L.tables s))
              ≡ rows_of L.same u' f' (L.tables s)
        other part =
            keep_if-replaced L.same L.collation u f u' f' v part ((L.tables s).files) ∙ rw ne

    -- For a commit of plain names and hashes with a version below 2 ^ 31 on consistent tables:
    -- while the server is healthy it returns 0 and replaces the file's rows if its version is
    -- accepted, and returns EVERS and changes nothing if it is not, and the server stays healthy.
    pub update_file_data_healthy :
        L.Healthy s
        → let new = accepts (file_version L.same u f (L.tables s)) v in
          ((update_file_data M u f hs v s).0 ≡ ok (if new then 0 else evers))
          × (after ≡ (if new then replaced L.same u f v hs (L.tables s) else L.tables s))
          × L.Healthy (update_file_data M u f hs v s).1
    update_file_data_healthy h = elim (update_file_data-Committed M L u f hs v s c inv) [
      | refused e s' run _ same sick ↦ absurd (sick h)
      | stale s' run old same well ↦ rw (after, run, old) (refl, same, well h)
      | cut_short e k s' run _ _ _ _ sick ↦ absurd (sick h)
      | done s' run new same well ↦ rw (after, run, new) (refl, same, well h)
    ]

    -- For a commit of plain names and hashes with a version below 2 ^ 31 on consistent tables: if
    -- it returns a code other than 0, then either it changed nothing, or the code is an error
    -- number above 999 and the file's rows are now the first few, not all, of those that it was to
    -- insert.
    pub update_file_data_error :
        (e : ℕ)
        → (update_file_data M u f hs v s).0 ≡ ok e
        → e ≢ 0
        → (after ≡ L.tables s)
          ⊎ ((999 < e)
              × (k : ℕ) × (k < length hs)
              × (after ≡ replaced L.same u f v (take k hs) (L.tables s)))
    update_file_data_error e ret ne = elim (update_file_data-Committed M L u f hs v s c inv) [
      | refused e' s' run _ same _ ↦ inl (rw (after, run) same)
      | stale s' run _ same _ ↦ inl (rw (after, run) same)
      | cut_short e' k s' run high lt _ same _ ↦
          inr (let same_code : e' ≡ e = cc in omega arith, k, lt, rw (after, run) same)
      | done s' run _ _ _ ↦ absurd (ne (cc))
    ]
