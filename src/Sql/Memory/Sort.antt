-- ===== src/Sql/Memory/Sort.antt =====
-- Sorting by block number.
use mathlib.Core.List.{Perm}
use mathlib.Core.List.Perm
use balabox.Base.{◌≤◌, inl, inr, List, [], ◌∷◌, leb, if◌then◌else◌, All, Bool-cases, arith}
use balabox.Sql.{FileBlock}
use balabox.Sql.Laws.{Ordered}

insert : FileBlock → List FileBlock → List FileBlock
insert r [] = r ∷ []
insert r (q ∷ l) =
    let rest = insert r l in if leb r.block_number q.block_number then r ∷ q ∷ l else q ∷ rest

unfoldable pub sort : List FileBlock → List FileBlock
unfolding insert
sort [] = []
sort (r ∷ l) = insert r (sort l)

insert-perm : (r : FileBlock) (l : List FileBlock) → Perm (insert r l) (r ∷ l)
unfolding insert
insert-perm r [] = Perm.refl (r ∷ [])
insert-perm r (q ∷ l) = elim (Bool-cases (leb r.block_number q.block_number)) [
  | inl le ↦ rw le (Perm.refl (r ∷ q ∷ l))
  | inr gt ↦ rw gt (Perm.trans (Perm.cons q (insert-perm r l)) (Perm.swap r q l))
]

pub sort-perm : (l : List FileBlock) → Perm (sort l) l
unfolding sort
sort-perm [] = Perm.refl []
sort-perm (r ∷ l) = Perm.trans (insert-perm r (sort l)) (Perm.cons r (sort-perm l))

All-insert :
    (r q : FileBlock) (l : List FileBlock)
    → q.block_number ≤ r.block_number
    → All (λ p. q.block_number ≤ p.block_number) l
    → All (λ p. q.block_number ≤ p.block_number) (insert r l)
unfolding insert
All-insert r q [] h a = (h, tt)
All-insert r q (p ∷ l) h (le, a) = ground (arith, All-insert r q l h a)

All-weaken :
    (r q : FileBlock) (l : List FileBlock)
    → r.block_number ≤ q.block_number
    → All (λ p. q.block_number ≤ p.block_number) l
    → All (λ p. r.block_number ≤ p.block_number) l
All-weaken r q [] h a = tt
All-weaken r q (p ∷ l) h (le, a) = (omega arith, All-weaken r q l h a)

insert-Ordered : (r : FileBlock) (l : List FileBlock) → Ordered l → Ordered (insert r l)
unfolding insert
insert-Ordered r [] o = (tt, tt)
insert-Ordered r (q ∷ l) (least, o) = elim (Bool-cases (leb r.block_number q.block_number)) [
  | inl le ↦ rw le ((ground arith, All-weaken r q l (ground arith) least), (least, o))
  | inr gt ↦ rw gt (All-insert r q l (ground arith) least, insert-Ordered r l o)
]

pub sort-Ordered : (l : List FileBlock) → Ordered (sort l)
unfolding sort
sort-Ordered [] = tt
sort-Ordered (r ∷ l) = insert-Ordered r (sort l) (sort-Ordered l)
