-- ===== src/Helper/Version.antt =====
-- The version check of updateFileData, against the version that the tables hold.
use mathlib.Core.List.{Perm, Mem, map, mem-cons, not-mem-nil}
use mathlib.Core.List.Perm
use mathlib.Core.Logic.Or
use balabox.Base.{
  ℕ, ◌+◌, ◌<◌, Bool, not, ◌≡◌, refl, ap, ◌∙◌, Option, none, some, List, [], ◌∷◌, ltb, ◌==◌, All,
  arith,
}
use balabox.Base.Text.{Text}
use balabox.Base.Decimal.{decimal, int_half}
use balabox.Base.Decimal.RoundTrip.{atoi-decimal}
use balabox.Exec.{ok, ◌>>=◌}
use balabox.Sql.{FileBlock, MySql, Row}
use balabox.Sql.Laws.{Tables, version_row}
use balabox.Sql.Consistent.{IsNumbered, rows_of}
use balabox.Helper.{column, is_stale}

abbrev pub head_version : List FileBlock → Option ℕ
head_version [] = none
head_version (r ∷ rs) = some r.version

-- The version that the database has for a file.
abbrev pub file_version : (Text → Text → Bool) → Text → Text → Tables → Option ℕ
file_version same u f t = head_version (rows_of same u f t)

-- A new file starts at version 0, and a known one goes up.
abbrev pub accepts : Option ℕ → ℕ → Bool
accepts none v = v == 0
accepts (some w) v = ltb w v

pub mem_same {ℓ} :
    {A : Type ℓ} (sA : IsSet A) (a c : A) (l : List A) → All (λ x. x ≡ c) l → Mem a l → a ≡ c
mem_same sA a c [] h m = absurd (not-mem-nil m)
mem_same sA a c (x ∷ l) (e, h) m =
    Or.elim (sA a c) (mem-cons.0 m) (λ p. p ∙ e) (mem_same sA a c l h)

Row-set : IsSet Row
Row-set = hlevel

version_rows_same :
    (w i : ℕ) (rs : List FileBlock)
    → IsNumbered w i rs
    → All (λ row. row ≡ some (decimal w) ∷ []) (map version_row rs)
version_rows_same w i [] h = tt
version_rows_same w i (r ∷ rs) (e, _, h) =
    (ap (λ n. some (decimal n) ∷ []) e, version_rows_same w (i + 1) rs h)

module _ (M : MySql) where
  pub is_stale_lem :
      (w v : ℕ) (rs : List FileBlock) (rows : List Row) (s : M.State)
      → w < int_half
      → IsNumbered w 0 rs
      → Perm rows (map version_row rs)
      → is_stale M rows v s ≡ (ok (not (accepts (head_version rs) v)), s)
  unfolding is_stale column ◌>>=◌
  is_stale_lem w v [] [] s lt n p = refl
  is_stale_lem w v (r ∷ rs) [] s lt n p = cc (Perm.nil-eq p)
  is_stale_lem w v [] (row ∷ rows) s lt n p = cc (Perm.eq-nil p)
  is_stale_lem w v (r ∷ rs) (row ∷ rows) s lt n p =
      let e : row ≡ some (decimal w) ∷ [] =
        mem_same Row-set row (some (decimal w) ∷ []) (map version_row (r ∷ rs))
          (version_rows_same w 0 (r ∷ rs) n) ((Perm.mem_iff p).0 (mem-cons.1 (Or.inl refl))) in
      rw e (ground (arith, atoi-decimal w (omega arith)))
