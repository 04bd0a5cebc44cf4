-- ===== src/Helper/Insert.antt =====
-- The insertions of updateFileData.
use balabox.Base.{
  ℕ, suc, ◌+◌, ◌<◌, ◌≤◌, true, ◌≡◌, refl, sym, ap, ◌∙◌, inl, inr, List, [], ◌∷◌, ◌++◌, append_assoc,
  append-nil, length, take, All, arith,
}
use balabox.Base.Text.{Text}
use balabox.Base.Decimal.{int_half}
use balabox.Exec.{ok, ◌>>=◌}
use balabox.Sql.{MySql}
use balabox.Sql
use balabox.Sql.Laws.{Tables, IsName, IsHash, IsSql, insert_block, effect}
use balabox.Sql.Files.{new_rows}
use balabox.Helper.{query, errno, insert_loop}
use balabox.Helper.Steps.{query_lem}

module _ (M : MySql) (L : IsSql M) (u f : Text) (v : ℕ) where
  abbrev pub grown : ℕ → List Text → Tables → Tables
  grown i hs t = record t { files = t.files ++ new_rows u f v i hs }

  grown-nil : (i : ℕ) (t : Tables) → grown i [] t ≡ t
  grown-nil i t = rw append-nil

  grown-cons :
      (i : ℕ) (h : Text) (hs : List Text) (t : Tables)
      → grown (i + 1) hs (effect L.same (insert_block u f h i v) t) ≡ grown i (h ∷ hs) t
  grown-cons i h hs t = rw append_assoc

  -- The insertions of a commit: all of them, or those before one that failed.
  pub data Inserted (i : ℕ) (hs : List Text) (s : M.State) : Type 0 where
    all :
        (s' : M.State)
        → insert_loop M u f v i hs s ≡ (ok 0, s')
        → L.tables s' ≡ grown i hs (L.tables s)
        → (L.Healthy s → L.Healthy s')
        → Inserted i hs s
    some_of :
        (e k : ℕ) (s' : M.State)
        → insert_loop M u f v i hs s ≡ (ok e, s')
        → 999 < e
        → k < length hs
        → L.tables s' ≡ grown i (take k hs) (L.tables s)
        → ¬ (L.Healthy s)
        → Inserted i hs s

  pub insert_loop_lem :
      (i : ℕ) (hs : List Text) (s : M.State)
      → IsName u
      → IsName f
      → All IsHash hs
      → v < int_half
      → i + length hs ≤ int_half
      → Inserted i hs s
  unfolding insert_loop ◌>>=◌ errno
  insert_loop_lem i [] s nu nf hh lv li = all s refl (sym (grown-nil i (L.tables s))) (λ h. h)
  insert_loop_lem i (h ∷ hs) s nu nf (hash, hh) lv li =
      elim (query_lem M L (insert_block u f h i v) s (nu, nf, hash, omega arith, lv)) [
        | inl (s', run, same, high, sick) ↦
            some_of (M.errno s') 0 s' (rw run) high (omega arith)
              (same ∙ sym (grown-nil i (L.tables s))) sick
        | inr (s', run, done, well) ↦
            after s' run done well (insert_loop_lem (i + 1) hs s' nu nf hh lv (omega arith))
      ]
    where
      after :
          (s' : M.State)
          → query M (Sql.insert_stmt u f h i v) s ≡ (ok true, s')
          → L.tables s' ≡ effect L.same (insert_block u f h i v) (L.tables s)
          → (L.Healthy s → L.Healthy s')
          → Inserted (i + 1) hs s'
          → Inserted i (h ∷ hs) s
      after s' run done well (all s'' rest grew well') =
          all s'' (rw run rest) (grew ∙ ap (grown (i + 1) hs) done ∙ grown-cons i h hs (L.tables s))
            (λ x. well' (well x))
      after s' run done well (some_of e k s'' rest high lt grew sick) =
          some_of e (suc k) s'' (rw run rest) high (omega arith)
            (grew ∙ ap (grown (i + 1) (take k hs)) done ∙ grown-cons i h (take k hs) (L.tables s))
            (λ x. sick (well x))
