-- ===== src/Sql/Files.antt =====
-- The rows of one file in FileBlock: what removing them and adding new ones does to its own rows
-- and to those of other files.
use balabox.Base.{
  ℕ, ◌+◌, Bool, true, false, ◌&&◌, not, ◌≡◌, refl, ap, ◌∙◌, inl, inr, List, [], ◌∷◌, ◌++◌,
  if◌then◌else◌, keep_if, keep_if-append, arith, Bool-cases, append-nil,
}
use balabox.Base.Text.{Text}
use balabox.Sql.{FileBlock}
use balabox.Sql.Laws.{IsCollation, of_file}

abbrev pub block : Text → Text → ℕ → ℕ → Text → FileBlock
block u f v i h = record {
  user_id = u;
  file_name = f;
  block_hash = h;
  block_number = i;
  version = v;
}

-- The rows that a commit of `hashes` inserts, from block `i` on.
abbrev pub new_rows : Text → Text → ℕ → ℕ → List Text → List FileBlock
new_rows u f v i [] = []
new_rows u f v i (h ∷ hs) = block u f v i h ∷ new_rows u f v (i + 1) hs

module _ {A : Type 0} (p q : A → Bool) where
  pub keep_if-keep_if_none :
      ((a : A) → q a ≡ true → p a ≡ true)
      → (l : List A) → keep_if q (keep_if (λ a. not (p a)) l) ≡ []
  keep_if-keep_if_none h [] = refl
  keep_if-keep_if_none h (a ∷ l) = ground (arith, h a, keep_if-keep_if_none h l)

  pub keep_if-keep_if_all :
      ((a : A) → q a ≡ true → p a ≡ false)
      → (l : List A) → keep_if q (keep_if (λ a. not (p a)) l) ≡ keep_if q l
  keep_if-keep_if_all h [] = refl
  keep_if-keep_if_all h (a ∷ l) = ground (arith, h a, keep_if-keep_if_all h l)

module _ (same : Text → Text → Bool) (C : IsCollation same) where
  -- Two names of one file have the same rows.
  same_file :
      (u f u' f' : Text) (r : FileBlock)
      → same u u' ≡ true
      → same f f' ≡ true
      → of_file same u' f' r ≡ true
      → of_file same u f r ≡ true
  same_file u f u' f' r hu hf h = ground (
    arith,
    C.same_symm u u',
    C.same_symm f f',
    C.same_trans r.user_id u' u,
    C.same_trans r.file_name f' f,
  )

  -- A row belongs to one file.
  pub other_file :
      (u f u' f' : Text) (r : FileBlock)
      → (same u u' && same f f') ≡ false
      → of_file same u' f' r ≡ true
      → of_file same u f r ≡ false
  other_file u f u' f' r h h' = ground (
    arith,
    C.same_symm r.user_id u,
    C.same_symm r.file_name f,
    C.same_trans u r.user_id u',
    C.same_trans f r.file_name f',
  )

  pub keep_if-new_rows :
      (u f u' f' : Text) (v i : ℕ) (hs : List Text)
      → keep_if (of_file same u' f') (new_rows u f v i hs)
        ≡ (if same u u' && same f f' then new_rows u f v i hs else [])
  keep_if-new_rows u f u' f' v i [] = ground arith
  keep_if-new_rows u f u' f' v i (h ∷ hs) = ground (arith, keep_if-new_rows u f u' f' v (i + 1) hs)

  -- After a file's rows are replaced, they are the new ones, and every other file has its own.
  pub keep_if-replaced :
      (u f u' f' : Text) (v : ℕ) (hs : List Text) (files : List FileBlock)
      → keep_if
          (of_file same u' f')
          (keep_if (λ r. not (of_file same u f r)) files ++ new_rows u f v 0 hs)
        ≡ (if same u u' && same f f'
            then new_rows u f v 0 hs
            else keep_if (of_file same u' f') files)
  keep_if-replaced u f u' f' v hs files = elim (Bool-cases (same u u' && same f f')) [
    | inl one ↦
        keep_if-append _ (keep_if (λ r. not (of_file same u f r)) files) (new_rows u f v 0 hs)
        ∙ rw (keep_if-new_rows u f u' f' v 0 hs, one)
            (ap (λ l. l ++ new_rows u f v 0 hs)
              (keep_if-keep_if_none (of_file same u f) (of_file same u' f')
                (λ r. same_file u f u' f' r (ground arith) (ground arith)) files))
    | inr two ↦
        keep_if-append _ (keep_if (λ r. not (of_file same u f r)) files) (new_rows u f v 0 hs)
        ∙ rw (keep_if-new_rows u f u' f' v 0 hs, two, append-nil)
            (keep_if-keep_if_all (of_file same u f) (of_file same u' f')
              (λ r. other_file u f u' f' r two) files)
  ]
