-- ===== src/Helper/Interleaved.antt =====
-- Two calls of updateFileData by different clients, their statements in any order.
use balabox.Base.{
  ℕ, Bool, true, false, ◌&&◌, ◌≡◌, refl, sym, subst, ap, ◌∙◌, [], ◌∷◌, ◌++◌, keep_if-append,
  append-nil,
}
use balabox.Base.Text.{Text}
use balabox.Sql.{FileBlock}
use balabox.Sql.Laws.{Tables, IsCollation, of_file, delete_file, insert_block, effect}
use balabox.Sql.Files.{
  new_rows, keep_if-keep_if_none, keep_if-keep_if_all, keep_if-new_rows, other_file,
}
use balabox.Sql.Consistent.{rows_of}
use balabox.Helper.Phases.{
  Commit, Phase, checking, Seen, rows_for, Step, check_fails, refuse, accept, clear_fails, clear,
  insert_fails, insert, finish, Steps, none_yet, next,
}

-- The phases of two calls, and the tables.
pub record Pair : Type 0 where
  pub one : Phase
  pub two : Phase
  pub tables : Tables

module _ (same : Text → Text → Bool) (a b : Commit) where
  -- What is reached by statements of the two calls, in any order.
  pub data Reach (t : Tables) : Pair → Type 0 where
    start : Reach t (record { one = checking; two = checking; tables = t })
    step_one :
        {p q r : Phase} {t' t'' : Tables}
        → Reach t (record { one = p; two = r; tables = t' })
        → Step same a p t' q t''
        → Reach t (record { one = q; two = r; tables = t'' })
    step_two :
        {p q r : Phase} {t' t'' : Tables}
        → Reach t (record { one = r; two = p; tables = t' })
        → Step same b p t' q t''
        → Reach t (record { one = r; two = q; tables = t'' })

  -- The calls are for different files.
  abbrev pub IsApart : Type 0
  IsApart =
      ((same a.user_id b.user_id && same a.file_name b.file_name) ≡ false)
      × ((same b.user_id a.user_id && same b.file_name a.file_name) ≡ false)

module _ (same : Text → Text → Bool) (C : IsCollation same) (c : Commit) where
  of_own :
      (r : FileBlock)
      → of_file same c.user_id c.file_name r ≡ true
      → of_file same c.user_id c.file_name r ≡ true
  of_own r e = e

  abbrev pub cleared : Tables → Tables
  cleared t = effect same (delete_file c.user_id c.file_name) t

  abbrev pub added : ℕ → Text → Tables → Tables
  added i h t = effect same (insert_block c.user_id c.file_name h i c.version) t

  pub rows-cleared : (t : Tables) → rows_for same c (cleared t) ≡ []
  rows-cleared t =
      keep_if-keep_if_none (of_file same c.user_id c.file_name) (of_file same c.user_id c.file_name)
        of_own t.files

  pub rows-added :
      (i : ℕ) (h : Text) (t : Tables)
      → rows_for same c (added i h t)
        ≡ rows_for same c t ++ new_rows c.user_id c.file_name c.version i (h ∷ [])
  rows-added i h t =
      keep_if-append (of_file same c.user_id c.file_name) t.files
        (new_rows c.user_id c.file_name c.version i (h ∷ []))
      ∙ rw (
        keep_if-new_rows same C c.user_id c.file_name c.user_id c.file_name c.version i (h ∷ []),
        C.same_refl c.user_id,
        C.same_refl c.file_name,
      )

  -- A call's next step depends on the rows of its file alone.
  mimic :
      {p q : Phase} {t t' : Tables} (u : Tables)
      → Step same c p t q t'
      → rows_for same c t ≡ rows_for same c u
      → (u' : Tables) × Step same c p u q u' × (rows_for same c t' ≡ rows_for same c u')
  mimic u (check_fails high) e = (u, check_fails high, e)
  mimic u (refuse w checked seen old) e = (u, refuse w checked (subst (Seen w) e seen) old, e)
  mimic u (accept w checked seen new) e = (u, accept w checked (subst (Seen w) e seen) new, e)
  mimic u (clear_fails high) e = (u, clear_fails high, e)
  mimic u (clear {t} safe) e = (cleared u, clear safe, rows-cleared t ∙ sym (rows-cleared u))
  mimic u (insert_fails high) e = (u, insert_fails high, e)
  mimic u (insert {t} {i} {h} safe) e = (
    added i h u,
    insert safe,
    rows-added i h t
        ∙ ap (λ rows. rows ++ new_rows c.user_id c.file_name c.version i (h ∷ [])) e
        ∙ sym (rows-added i h u),
  )
  mimic u finish e = (u, finish, e)

  -- A step leaves the rows of other files.
  rows_of-Step :
      (u' f' : Text) {p q : Phase} {t t' : Tables}
      → (same c.user_id u' && same c.file_name f') ≡ false
      → Step same c p t q t'
      → rows_of same u' f' t' ≡ rows_of same u' f' t
  rows_of-Step u' f' ne (check_fails high) = refl
  rows_of-Step u' f' ne (refuse w checked seen old) = refl
  rows_of-Step u' f' ne (accept w checked seen new) = refl
  rows_of-Step u' f' ne (clear_fails high) = refl
  rows_of-Step u' f' ne (clear {t} safe) =
      keep_if-keep_if_all (of_file same c.user_id c.file_name) (of_file same u' f')
        (λ r. other_file same C c.user_id c.file_name u' f' r ne) t.files
  rows_of-Step u' f' ne (insert_fails high) = refl
  rows_of-Step u' f' ne (insert {t} {i} {h} safe) =
      keep_if-append (of_file same u' f') t.files
        (new_rows c.user_id c.file_name c.version i (h ∷ []))
      ∙ rw
          (keep_if-new_rows same C c.user_id c.file_name u' f' c.version i (h ∷ []), ne, append-nil)
  rows_of-Step u' f' ne finish = refl

-- What a call leaves for its file is what it leaves when it runs alone.
pub record Alone (same : Text → Text → Bool) (c : Commit) (t : Tables) (p : Phase) (t' : Tables)
    : Type 0 where
  pub own : Tables
  pub run : Steps same c checking t p own
  pub agree : rows_for same c t' ≡ rows_for same c own

module _ (same : Text → Text → Bool) (C : IsCollation same) (a b : Commit)
    (apart : IsApart same a b) where
  own_step :
      {t t' t'' : Tables} {p q : Phase} (c : Commit)
      → Alone same c t p t'
      → Step same c p t' q t''
      → Alone same c t q t''
  own_step c alone step =
      let (u, step', e) = mimic same C c alone.own step alone.agree in
      record { own = u; run = next alone.run step'; agree = e }

  other_step :
      {t t' t'' : Tables} {p r q : Phase} (c d : Commit)
      → (same d.user_id c.user_id && same d.file_name c.file_name) ≡ false
      → Alone same c t p t'
      → Step same d r t' q t''
      → Alone same c t p t''
  other_step c d ne alone step = record {
    own = alone.own;
    run = alone.run;
    agree = rows_of-Step same C d c.user_id c.file_name ne step ∙ alone.agree;
  }

  -- x
  pub Reach-Alone :
      (t : Tables) (s : Pair)
      → Reach same a b t s
      → Alone same a t s.one s.tables × Alone same b t s.two s.tables
  Reach-Alone t _ start = (
    record { own = t; run = none_yet; agree = refl },
    record { own = t; run = none_yet; agree = refl },
  )
  Reach-Alone t _ (step_one reach step) =
      let (one, two) = Reach-Alone t _ reach in
      (own_step a one step, other_step b a apart.0 two step)
  Reach-Alone t _ (step_two reach step) =
      let (one, two) = Reach-Alone t _ reach in
      (other_step a b apart.1 one step, own_step b two step)
