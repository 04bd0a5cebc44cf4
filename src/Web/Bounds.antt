-- ===== src/Web/Bounds.antt =====
-- How much of a request body is read.
use balabox.Base.{ℕ, zero, suc, ◌≤◌, Option, none, some, [], ◌∷◌, length, take, arith}
use balabox.Base.Text.{Text}
use balabox.Base.Decimal.{strtol}
use balabox.Web.{Request, capped_size, read_size, gstdin, content_size}

pub capped_size-le : (max : ℕ) (parsed : ℕ × Text) → capped_size max parsed ≤ max
unfolding capped_size
capped_size-le max (clen, []) = ground arith
capped_size-le max (clen, c ∷ rest) = ground arith

pub length-take_le : (n : ℕ) (s : Text) → (length (take n s) ≤ n) × (length (take n s) ≤ length s)
length-take_le zero s = (omega arith, omega arith)
length-take_le (suc n) [] = (omega arith, omega arith)
length-take_le (suc n) (c ∷ s) = let (le, le') = length-take_le n s in (omega arith, omega arith)

-- x
pub content_size-gstdin :
    (max : ℕ) (r : Request)
    → (content_size (gstdin max r) ≤ max) × (content_size (gstdin max r) ≤ length r.body)
unfolding content_size gstdin read_size
content_size-gstdin max r = bounds r.content_length
  where
    bounds :
        (o : Option Text)
        → (content_size
              (elim o [ none ↦ none | some s ↦ some (take (capped_size max (strtol s)) r.body) ])
            ≤ max)
          × (content_size
                (elim o [ none ↦ none | some s ↦ some (take (capped_size max (strtol s)) r.body) ])
              ≤ length r.body)
    bounds none = (omega arith, omega arith)
    bounds (some s) =
        let (le, le') = length-take_le (capped_size max (strtol s)) r.body in
        (omega (arith, capped_size-le max (strtol s)), le')
