-- ===== src/Helper/Race.antt =====
-- Two calls of updateFileData for one file, whose version checks both come before the other's
-- deletion.
use balabox.Base.{
  ℕ, ◌+◌, ◌<◌, ◌≤◌, All, Bool, true, ◌≡◌, sym, subst, ap, ◌∙◌, Option, List, [], ◌∷◌, ◌++◌,
  append-nil, length, keep_if-append, arith,
}
use balabox.Base.Text.{Text}
use balabox.Sql.{FileBlock}
use balabox.Sql.Laws.{Tables, IsName, IsHash, IsCollation, of_file}
use balabox.Base.Decimal.{int_half}
use balabox.Sql.Files.{block, new_rows, keep_if-new_rows}
use balabox.Sql.Consistent.{IsNumbered, rows_of, IsConsistent}
use balabox.Helper.Version.{accepts}
use balabox.Helper.Phases.{
  Commit, Phase, inserting, finished, Seen, rows_for, accept, clear, finish, Steps, none_yet, next,
  grow, IsStored, inserts,
}
use balabox.Helper.Interleaved.{Reach, start, step_one, step_two, cleared, rows-cleared}

module _ (same : Text → Text → Bool) (a b : Commit) where
  Reach-one :
      {t t' : Tables} {p r : Phase} {q : Phase} {t'' : Tables}
      → Reach same a b t (record { one = p; two = r; tables = t' })
      → Steps same a p t' q t''
      → Reach same a b t (record { one = q; two = r; tables = t'' })
  Reach-one reach none_yet = reach
  Reach-one reach (next steps step) = step_one (Reach-one reach steps) step

  Reach-two :
      {t t' : Tables} {p r : Phase} {q : Phase} {t'' : Tables}
      → Reach same a b t (record { one = r; two = p; tables = t' })
      → Steps same b p t' q t''
      → Reach same a b t (record { one = r; two = q; tables = t'' })
  Reach-two reach none_yet = reach
  Reach-two reach (next steps step) = step_two (Reach-two reach steps) step

-- The insertions of a call, and its return.
insert_all :
    (same : Text → Text → Bool) (c : Commit) (t : Tables)
    → IsStored same c
    → All IsHash c.hashes
    → length c.hashes ≤ int_half
    → Steps same c (inserting 0 c.hashes) t (finished 0) (grow same c 0 c.hashes t)
insert_all same c t stored plain few =
    next
      (inserts same c 0 c.hashes [] t stored plain (omega arith) (
        subst (λ hs. Steps same c (inserting 0 c.hashes) t (inserting 0 hs) t)
          (sym (append-nil c.hashes)) none_yet))
      finish

rows-grow :
    (same : Text → Text → Bool) (C : IsCollation same) (c : Commit) (hs : List Text) (t : Tables)
    → rows_for same c (grow same c 0 hs t)
      ≡ rows_for same c t ++ new_rows c.user_id c.file_name c.version 0 hs
rows-grow same C c hs t =
    keep_if-append (of_file same c.user_id c.file_name) t.files
      (new_rows c.user_id c.file_name c.version 0 hs)
    ∙ rw (
      keep_if-new_rows same C c.user_id c.file_name c.user_id c.file_name c.version 0 hs,
      C.same_refl c.user_id,
      C.same_refl c.file_name,
    )

-- A row in a numbered list has the number of its place.
number_at :
    (w i : ℕ) (before after : List FileBlock) (r : FileBlock)
    → IsNumbered w i (before ++ r ∷ after)
    → r.block_number ≡ i + length before
number_at w i [] after r (_, e, _) = omega arith
number_at w i (q ∷ before) after r (_, _, h) = omega (arith, number_at w (i + 1) before after r h)

module _ (same : Text → Text → Bool) (C : IsCollation same) (u f h h' : Text) (hs hs' : List Text)
    (v v' : ℕ) where
  abbrev one_call : Commit
  one_call = record { user_id = u; file_name = f; hashes = h ∷ hs; version = v }

  abbrev two_call : Commit
  two_call = record { user_id = u; file_name = f; hashes = h' ∷ hs'; version = v' }

  -- The tables when both have cleared the file and then inserted their blocks in turn.
  abbrev emptied : Tables → Tables
  emptied t = cleared same C two_call (cleared same C one_call t)

  abbrev raced : Tables → Tables
  raced t = grow same two_call 0 (h' ∷ hs') (grow same one_call 0 (h ∷ hs) (emptied t))

  rows-raced :
      (t : Tables)
      → rows_of same u f (raced t) ≡ new_rows u f v 0 (h ∷ hs) ++ new_rows u f v' 0 (h' ∷ hs')
  rows-raced t =
      let first : rows_of same u f (grow same one_call 0 (h ∷ hs) (emptied t))
          ≡ new_rows u f v 0 (h ∷ hs) =
        rows-grow same C one_call (h ∷ hs) (emptied t)
        ∙ rw (rows-cleared same C two_call (cleared same C one_call t)) in
      rows-grow same C two_call (h' ∷ hs') (grow same one_call 0 (h ∷ hs) (emptied t))
      ∙ ap (λ rows. rows ++ new_rows u f v' 0 (h' ∷ hs')) first

  raced-inconsistent : (t : Tables) → ¬ (IsConsistent same (raced t))
  raced-inconsistent t consistent =
      let (w, _, numbered) = consistent u f in
      let place : 0 ≡ 0 + length (new_rows u f v 0 (h ∷ hs)) =
        number_at w 0 (new_rows u f v 0 (h ∷ hs)) (new_rows u f v' 1 hs') (block u f v' 0 h')
          (subst (IsNumbered w 0) (rows-raced t) numbered) in
      omega arith

  -- The statements of two calls of updateFileData for one file with some blocks each, whose
  -- versions are both accepted, can run in an order in which both calls return 0 and leave the rows
  -- of both commits together, so that the tables are not consistent. The names and hashes are
  -- plain, the versions below 2 ^ 31, and each call has at most 2 ^ 31 blocks.
  pub commits_race :
      (t : Tables) (w : Option ℕ)
      → IsName u
      → IsName f
      → (v < int_half) × (v' < int_half)
      → All IsHash (h ∷ hs) × All IsHash (h' ∷ hs')
      → (length (h ∷ hs) ≤ int_half) × (length (h' ∷ hs') ≤ int_half)
      → Seen w (rows_of same u f t)
      → accepts w v ≡ true
      → accepts w v' ≡ true
      → (t' : Tables) × Reach same one_call two_call t
          (record { one = finished 0; two = finished 0; tables = t' })
        × (rows_of same u f t' ≡ new_rows u f v 0 (h ∷ hs) ++ new_rows u f v' 0 (h' ∷ hs'))
        × ¬ (IsConsistent same t')
  commits_race t w user file (small, small') (plain, plain') (few, few') seen new new' =
      let one_stored : IsStored same one_call = record {
        user = user;
        file = file;
        version = small;
      } in
      let two_stored : IsStored same two_call = record {
        user = user;
        file = file;
        version = small';
      } in
      let checked =
        step_two (step_one start (accept w ((user, file), small) seen new))
          (accept w ((user, file), small') seen new') in
      let both = step_two (step_one checked (clear (user, file))) (clear (user, file)) in
      (
        raced t,
        Reach-two same one_call two_call
            (Reach-one same one_call two_call both
              (insert_all same one_call (emptied t) one_stored plain few))
            (insert_all same two_call (grow same one_call 0 (h ∷ hs) (emptied t)) two_stored plain'
              few'),
        rows-raced t,
        raced-inconsistent t,
      )
