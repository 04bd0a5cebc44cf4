-- ===== src/Sql/Consistent.antt =====
-- The invariant of FileBlock: the rows of one file have one version, and their block numbers
-- count up from 0 in the order of insertion.
use balabox.Base.{
  ℕ, ◌+◌, ◌<◌, Bool, ◌&&◌, not, ◌≡◌, refl, inl, inr, List, [], ◌∷◌, ◌++◌, keep_if, Bool-cases,
}
use balabox.Base.Text.{Text}
use balabox.Base.Decimal.{int_half}
use balabox.Sql.{FileBlock}
use balabox.Sql.Laws.{Tables, IsCollation, of_file}
use balabox.Sql.Files.{new_rows, keep_if-replaced}

-- Rows of version `w`, numbered from `i`.
abbrev pub IsNumbered : ℕ → ℕ → List FileBlock → Type 0
IsNumbered w i [] = Unit
IsNumbered w i (r ∷ rs) = (r.version ≡ w) × (r.block_number ≡ i) × IsNumbered w (i + 1) rs

pub new_rows-IsNumbered :
    (u f : Text) (v i : ℕ) (hs : List Text) → IsNumbered v i (new_rows u f v i hs)
new_rows-IsNumbered u f v i [] = tt
new_rows-IsNumbered u f v i (h ∷ hs) = (refl, refl, new_rows-IsNumbered u f v (i + 1) hs)

abbrev pub rows_of : (Text → Text → Bool) → Text → Text → Tables → List FileBlock
rows_of same u f t = keep_if (of_file same u f) t.files

abbrev pub IsConsistent : (Text → Text → Bool) → Tables → Type 0
IsConsistent same t = (u f : Text) → (w : ℕ) × (w < int_half) × IsNumbered w 0 (rows_of same u f t)

-- The tables after the rows of a file are replaced.
abbrev pub replaced : (Text → Text → Bool) → Text → Text → ℕ → List Text → Tables → Tables
replaced same u f v hs t = record t {
  files = keep_if (λ r. not (of_file same u f r)) t.files ++ new_rows u f v 0 hs;
}

module _ (same : Text → Text → Bool) (C : IsCollation same) where
  pub replaced-IsConsistent :
      (u f : Text) (v : ℕ) (hs : List Text) (t : Tables)
      → v < int_half
      → IsConsistent same t
      → IsConsistent same (replaced same u f v hs t)
  replaced-IsConsistent u f v hs t lt c u' f' = elim (Bool-cases (same u u' && same f f')) [
    | inl one ↦ (
      v,
      lt,
      rw (keep_if-replaced same C u f u' f' v hs t.files, one) (new_rows-IsNumbered u f v 0 hs),
    )
    | inr two ↦
        let old = c u' f' in
        (old.0, old.1, rw (keep_if-replaced same C u f u' f' v hs t.files, two) old.2)
  ]
