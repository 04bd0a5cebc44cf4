-- ===== src/Helper/Finished.antt =====
-- What a call of updateFileData leaves when it returns 0, alone or among the statements of another.
use balabox.Base.{
  ℕ, ◌+◌, Bool, ◌≡◌, refl, sym, ap, ◌∙◌, List, [], ◌∷◌, ◌++◌, append_assoc, append-nil, length,
  length-append, arith,
}
use balabox.Base.Text.{Text}
use balabox.Sql.{FileBlock}
use balabox.Sql.Laws.{Tables, IsCollation}
use balabox.Sql.Files.{block, new_rows}
use balabox.Helper.Phases.{
  Commit, Phase, checking, clearing, inserting, finished, rows_for, Step, check_fails, refuse,
  accept, clear_fails, clear, insert_fails, insert, finish, Steps, none_yet, next,
}
use balabox.Helper.Interleaved.{Reach, IsApart, Alone, rows-added, rows-cleared, Reach-Alone}

new_rows-append :
    (u f : Text) (v i : ℕ) (hs more : List Text)
    → new_rows u f v i (hs ++ more) ≡ new_rows u f v i hs ++ new_rows u f v (i + length hs) more
new_rows-append u f v i [] more =
    let same_count : i ≡ i + 0 = omega arith in ap (λ n. new_rows u f v n more) same_count
new_rows-append u f v i (h ∷ hs) more =
    let same_count : i + 1 + length hs ≡ i + length (h ∷ hs) = omega arith in
    ap (λ rows. block u f v i h ∷ rows)
      (new_rows-append u f v (i + 1) hs more
        ∙ ap (λ n. new_rows u f v (i + 1) hs ++ new_rows u f v n more) same_count)

-- The rows that a commit inserts for the first few of its hashes.
abbrev pub own_rows : Commit → List Text → List FileBlock
own_rows c hs = new_rows c.user_id c.file_name c.version 0 hs

module _ (same : Text → Text → Bool) (C : IsCollation same) (c : Commit) where
  -- The insertions so far, and behind the last one all of them.
  abbrev Progress : Phase → Tables → Type 0
  Progress checking t = Unit
  Progress clearing t = Unit
  Progress (inserting i rest) t =
      (hs : List Text) × (c.hashes ≡ hs ++ rest)
      × (i ≡ length hs)
      × (rows_for same c t ≡ own_rows c hs)
  Progress (finished e) t = e ≡ 0 → rows_for same c t ≡ own_rows c c.hashes

  Progress-Step :
      {p q : Phase} {t t' : Tables} → Step same c p t q t' → Progress p t → Progress q t'
  Progress-Step (check_fails high) h = λ e. absurd (omega arith)
  Progress-Step (refuse w checked seen old) h = λ e. absurd (omega arith)
  Progress-Step (accept w checked seen new) h = tt
  Progress-Step (clear_fails high) h = λ e. absurd (omega arith)
  Progress-Step (clear {t} safe) h = ([], refl, refl, rows-cleared same C c t)
  Progress-Step (insert_fails high) h = λ e. absurd (omega arith)
  Progress-Step (insert {t} {i} {h} {hs = rest} safe) (hs, split, count, rows) = (
    hs ++ h ∷ [],
    split ∙ sym (append_assoc hs (h ∷ []) rest),
    omega (arith, length-append hs (h ∷ [])),
    rows-added same C c i h t
        ∙ let place : i ≡ 0 + length hs = omega arith in
          rw (rows, place) (sym (new_rows-append c.user_id c.file_name c.version 0 hs (h ∷ []))),
  )
  Progress-Step finish (hs, split, count, rows) =
      λ e. rows ∙ ap (own_rows c) (sym (split ∙ append-nil hs))

  Progress-Steps :
      {t : Tables} {q : Phase} {t' : Tables} → Steps same c checking t q t' → Progress q t'
  Progress-Steps none_yet = tt
  Progress-Steps (next steps step) = Progress-Step step (Progress-Steps steps)

  -- x
  pub Steps-finished :
      (t t' : Tables)
      → Steps same c checking t (finished 0) t'
      → rows_for same c t' ≡ own_rows c c.hashes
  Steps-finished t t' steps = Progress-Steps steps refl

  Alone-finished :
      (t t' : Tables) → Alone same c t (finished 0) t' → rows_for same c t' ≡ own_rows c c.hashes
  Alone-finished t t' alone = alone.agree ∙ Steps-finished t alone.own alone.run

-- When two calls of updateFileData for different files have both returned 0, each file has exactly
-- the rows of its commit, in whatever order the statements of the two calls ran. Each statement
-- that ran was one of plain names and hashes with numbers below 2 ^ 31 (Step).
pub Reach-finished :
    (same : Text → Text → Bool) (C : IsCollation same) (a b : Commit) (t t' : Tables)
    → IsApart same a b
    → Reach same a b t (record { one = finished 0; two = finished 0; tables = t' })
    → (rows_for same a t' ≡ own_rows a a.hashes) × (rows_for same b t' ≡ own_rows b b.hashes)
Reach-finished same C a b t t' apart reach =
    let (one, two) = Reach-Alone same C a b apart t _ reach in
    (Alone-finished same C a t t' one, Alone-finished same C b t t' two)
