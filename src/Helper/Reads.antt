-- ===== src/Helper/Reads.antt =====
-- getFileBlockList: the rows come back in order, so the answer is the one that the tables hold.
use mathlib.Core.List.{Perm, Mem, map, mem-cons, mem-cons_self, not-mem-nil, perm-cons}
use mathlib.Core.List.Perm
use mathlib.Core.Logic.Or
use native.Mathlib.Bridge.{le_prop}
use balabox.Base.{
  ℕ, ◌+◌, ◌<◌, ◌≤◌, ◌≡◌, refl, ap, ap₂, subst, ◌⊎◌, inl, inr, List, [], ◌∷◌, All, arith,
}
use balabox.Base.Text.{Text}
use balabox.Base.Decimal.{decimal, atoi, int_half}
use balabox.Base.Decimal.RoundTrip.{atoi-decimal}
use balabox.Exec.{ok, ◌>>=◌}
use balabox.Sql.{FileBlock, MySql}
use balabox.Sql.Laws.{IsName, IsSql, Ordered, block_row, blocks_of}
use balabox.Sql.Consistent.{IsNumbered, rows_of, IsConsistent}
use balabox.Helper.{column, blocks_loop, get_file_block_list}
use balabox.Helper.Steps.{select_lem}

FileBlock-set : IsSet FileBlock
FileBlock-set = hlevel

IsNumbered-le :
    (w i : ℕ) (x : FileBlock) (rs : List FileBlock)
    → IsNumbered w i rs
    → Mem x rs
    → i ≤ x.block_number
IsNumbered-le w i x [] n m = absurd (not-mem-nil m)
IsNumbered-le w i x (r ∷ rs) (_, e, n) m =
    Or.elim le_prop (mem-cons.0 m) (λ p. omega (arith, ap (λ (q : FileBlock). q.block_number) p))
      (λ later. omega (arith, IsNumbered-le w (i + 1) x rs n later))

least_first :
    (x q : FileBlock) (l : List FileBlock)
    → All (λ q. x.block_number ≤ q.block_number) l
    → Mem q (x ∷ l)
    → x.block_number ≤ q.block_number
least_first x q [] h m =
    Or.elim le_prop (mem-cons.0 m) (λ p. omega (arith, ap (λ (q : FileBlock). q.block_number) p))
      (λ m'. absurd (not-mem-nil m'))
least_first x q (y ∷ l) (le, h) m =
    Or.elim le_prop (mem-cons.0 m) (λ p. omega (arith, ap (λ (q : FileBlock). q.block_number) p))
      (λ m'.
        Or.elim le_prop (mem-cons.0 m')
          (λ p. omega (arith, ap (λ (q : FileBlock). q.block_number) p))
          (λ m''. least_first x q l h (mem-cons.1 (Or.inr m''))))

-- Numbered rows have only one order.
Ordered-eq : (w i : ℕ) (l rs : List FileBlock) → IsNumbered w i rs → Ordered l → Perm l rs → l ≡ rs
Ordered-eq w i [] [] n o p = refl
Ordered-eq w i [] (r ∷ rs) n o p = cc (Perm.nil-eq p)
Ordered-eq w i (x ∷ l) [] n o p = cc (Perm.eq-nil p)
Ordered-eq w i (x ∷ l) (r ∷ rs) (v, e, n) (least, o) p =
    ap₂ ◌∷◌ first
      (Ordered-eq w (i + 1) l rs n o ((perm-cons r).0 (subst (λ q. Perm (q ∷ l) (r ∷ rs)) first p)))
  where
    first : x ≡ r
    first =
        Or.elim (FileBlock-set x r) (mem-cons.0 ((Perm.mem_iff p).0 mem-cons_self)) (λ q. q)
          (λ later. absurd (
            omega (
              arith,
              IsNumbered-le w (i + 1) x rs n later,
              least_first x r l least ((Perm.mem_iff p).1 mem-cons_self),
            )))

-- The version of the rows, or `v` if there is none.
abbrev pub version_or : ℕ → List FileBlock → ℕ
version_or v [] = v
version_or v (r ∷ rs) = r.version

version_or-IsNumbered : (w i : ℕ) (rs : List FileBlock) → IsNumbered w i rs → version_or w rs ≡ w
version_or-IsNumbered w i [] n = refl
version_or-IsNumbered w i (r ∷ rs) (e, _, _) = e

module _ (M : MySql) where
  blocks_loop_lem :
      (w i v : ℕ) (rs : List FileBlock) (s : M.State)
      → w < int_half
      → IsNumbered w i rs
      → blocks_loop M (map block_row rs) v s ≡ (ok (map (λ r. r.block_hash) rs, version_or v rs), s)
  unfolding blocks_loop column ◌>>=◌
  blocks_loop_lem w i v [] s lt n = refl
  blocks_loop_lem w i v (r ∷ rs) s lt (e, _, n) =
      rw (blocks_loop_lem w (i + 1) (atoi (decimal r.version)) rs s lt n)
        (rw (e, atoi-decimal w (omega arith), version_or-IsNumbered w (i + 1) rs n) refl)

module _ (M : MySql) (L : IsSql M) (u f : Text) (v : ℕ) (s : M.State) where
  -- For plain names and consistent tables getFileBlockList gives a file's hashes in block order and
  -- its version, and for a file with no row no hash and the version that it was given; or it fails
  -- with an error number above 999. The tables stay as they are, and a healthy server does not
  -- fail.
  pub get_file_block_list_lem :
      IsName u
      → IsName f
      → IsConsistent L.same (L.tables s)
      → ((s' : M.State) × (get_file_block_list M u f v s ≡ (
        ok (
          0,
          map (λ r. r.block_hash) (rows_of L.same u f (L.tables s)),
          version_or v (rows_of L.same u f (L.tables s)),
        ),
        s',
      ))
          × (L.tables s' ≡ L.tables s))
        ⊎ ((e : ℕ) × (s' : M.State) × (get_file_block_list M u f v s ≡ (ok (e, [], v), s'))
            × (999 < e)
            × (L.tables s' ≡ L.tables s)
            × ¬ (L.Healthy s))
  unfolding get_file_block_list ◌>>=◌
  get_file_block_list_lem nu nf inv = elim (select_lem M L (blocks_of u f) s (nu, nf) refl) [
    | inl (e, s', run, same, high, sick) ↦ inr (e, s', rw run, high, same, sick)
    | inr (rows, s', run, same, (l, p, o, given), well) ↦
        let (w, lw, n) = inv u f in
        inl (
          s',
          rw (
            run,
            given,
            Ordered-eq w 0 l (rows_of L.same u f (L.tables s)) n o p,
            blocks_loop_lem M w 0 v (rows_of L.same u f (L.tables s)) s' lw n,
          ),
          same,
        )
  ]
