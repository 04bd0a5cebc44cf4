-- ===== src/Base/Decimal/RoundTrip.antt =====
-- What `intToStr` writes, `atoi` reads back.
use Prim.Native.Nat.{ℕ, zero, suc, ◌+◌, ◌-◌, ◌/◌, ◌%◌, ◌≤◌, ◌<◌}
use mathlib.Core.Path.{◌≡◌, refl, sym, ap, subst, ◌∙◌}
use mathlib.Core.Logic.{◌≢◌, inl, inr}
use mathlib.Core.Bool.{true}
use mathlib.Core.List.{[], ◌∷◌, ◌++◌, append-nil, append_assoc}
use native.Mathlib.Omega.{arith}
use balabox.Base.Tests.{ltb, Bool-cases}
use balabox.Base.Lists.{All}
use balabox.Base.Text.{Text}
use balabox.Base.Decimal.{
  int_mod, int_half, decimal_loop, decimal, int_to_str, digits_value, atoi, positive, negative,
}

digits_value-decimal_loop :
    (f n : ℕ) (rest : Text)
    → n < f
    → digits_value 0 (decimal_loop f n ++ rest) ≡ digits_value n rest
unfolding digits_value decimal_loop
digits_value-decimal_loop zero n rest h = absurd (omega arith)
digits_value-decimal_loop (suc f) n rest h = elim (Bool-cases (ltb n 10)) [
  | inl small ↦ rw small (ground arith)
  | inr big ↦
      rw (big, append_assoc)
        (digits_value-decimal_loop f (n / 10) ((b'0' + n % 10) ∷ rest) (ground arith)
          ∙ ground arith)
]

-- A digit stands first.
abbrev pub StartsWithDigit : Text → Type 0
StartsWithDigit s = (c : ℕ) × (t : Text) × (s ≡ c ∷ t) × (b'0' ≤ c) × (c ≤ b'9')

decimal_loop-StartsWithDigit :
    (f n : ℕ) (rest : Text) → n < f → StartsWithDigit (decimal_loop f n ++ rest)
unfolding decimal_loop
decimal_loop-StartsWithDigit zero n rest h = absurd (omega arith)
decimal_loop-StartsWithDigit (suc f) n rest h = elim (Bool-cases (ltb n 10)) [
  | inl small ↦ rw small (b'0' + n, rest, refl, ground arith, ground arith)
  | inr big ↦
      rw (big, append_assoc)
        (decimal_loop-StartsWithDigit f (n / 10) ((b'0' + n % 10) ∷ rest) (ground arith))
]

atoi-StartsWithDigit : (s : Text) → StartsWithDigit s → atoi s ≡ positive (digits_value 0 s)
unfolding atoi
atoi-StartsWithDigit s (c, t, e, lo, hi) = rw e (ground arith)

pub digits_value-decimal : (n : ℕ) → digits_value 0 (decimal n) ≡ n
unfolding decimal digits_value
digits_value-decimal n =
    ap (digits_value 0) (sym (append-nil (decimal n)))
    ∙ digits_value-decimal_loop (suc n) n [] (omega arith)

pub decimal-StartsWithDigit : (n : ℕ) → StartsWithDigit (decimal n)
unfolding decimal
decimal-StartsWithDigit n =
    subst StartsWithDigit (append-nil (decimal n))
      (decimal_loop-StartsWithDigit (suc n) n [] (omega arith))

positive-small : (n : ℕ) → n < int_mod → positive n ≡ n
unfolding positive
positive-small n h = omega arith

negative-small : (n : ℕ) → 0 < n → n ≤ int_half → negative n ≡ int_mod - n
unfolding negative
negative-small n p h = omega arith

atoi_minus : (s : Text) → atoi (b'-' ∷ s) ≡ negative (digits_value 0 s)
unfolding atoi
atoi_minus s = refl

-- A number that fits in 32 bits is read back from its decimal text.
pub atoi-decimal : (n : ℕ) → n < int_mod → atoi (decimal n) ≡ n
atoi-decimal n h =
    atoi-StartsWithDigit (decimal n) (decimal-StartsWithDigit n)
    ∙ ap positive (digits_value-decimal n)
    ∙ positive-small n h

-- atoi reads back what intToStr prints, for every 32-bit pattern.
pub atoi-int_to_str : (i : ℕ) → i < int_mod → atoi (int_to_str i) ≡ i
unfolding int_to_str
atoi-int_to_str i h = elim (Bool-cases (ltb i int_half)) [
  | inl small ↦ rw small (atoi-decimal i h)
  | inr big ↦ rw big (
      atoi_minus (decimal (int_mod - i))
      ∙ ap negative (digits_value-decimal (int_mod - i))
      ∙ negative-small (int_mod - i) (ground arith) (ground arith)
      ∙ ground arith)
]

-- The text of a number that is not negative holds digits only, so no byte below '0'.
All-decimal_loop :
    (b f n : ℕ) (rest : Text)
    → b < b'0'
    → All (λ c. c ≢ b) rest
    → All (λ c. c ≢ b) (decimal_loop f n ++ rest)
unfolding decimal_loop
All-decimal_loop b zero n rest h a = a
All-decimal_loop b (suc f) n rest h a = elim (Bool-cases (ltb n 10)) [
  | inl small ↦ rw small (omega arith, a)
  | inr big ↦
      rw (big, append_assoc)
        (All-decimal_loop b f (n / 10) ((b'0' + n % 10) ∷ rest) h (omega arith, a))
]

pub All-int_to_str : (b i : ℕ) → b < b'0' → i < int_half → All (λ c. c ≢ b) (int_to_str i)
unfolding int_to_str decimal
All-int_to_str b i h lt =
    let small : ltb i int_half ≡ true = ground arith in
    rw small
      (subst (All (λ c. c ≢ b)) (append-nil (decimal i)) (All-decimal_loop b (suc i) i [] h tt))
