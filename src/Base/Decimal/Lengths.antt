-- ===== src/Base/Decimal/Lengths.antt =====
-- `strtol` and `strtoul` on the decimal text of a length, which is what CONTENT_LENGTH holds.
use Prim.Native.Nat.{ℕ, zero, suc, ◌+◌, ◌-◌, ◌/◌, ◌%◌, ◌^◌, ◌<◌, min}
use mathlib.Core.Path.{◌≡◌, sym, ap, ◌∙◌}
use mathlib.Core.Logic.{inl, inr}
use mathlib.Core.List.{[], ◌∷◌, ◌++◌, append-nil, append_assoc}
use native.Mathlib.Omega.{arith}
use balabox.Base.Tests.{ltb, Bool-cases}
use balabox.Base.Text.{Text}
use balabox.Base.Decimal.{decimal_loop, decimal, digits_value, after_digits, strtol, strtoul}
use balabox.Base.Decimal.RoundTrip.{StartsWithDigit, decimal-StartsWithDigit, digits_value-decimal}

after_digits-decimal_loop :
    (f n : ℕ) (rest : Text) → n < f → after_digits (decimal_loop f n ++ rest) ≡ after_digits rest
unfolding after_digits decimal_loop
after_digits-decimal_loop zero n rest h = absurd (omega arith)
after_digits-decimal_loop (suc f) n rest h = elim (Bool-cases (ltb n 10)) [
  | inl small ↦ rw small (ground arith)
  | inr big ↦
      rw (big, append_assoc)
        (after_digits-decimal_loop f (n / 10) ((b'0' + n % 10) ∷ rest) (ground arith)
          ∙ ground arith)
]

after_digits-decimal : (n : ℕ) → after_digits (decimal n) ≡ []
unfolding decimal after_digits
after_digits-decimal n =
    ap after_digits (sym (append-nil (decimal n)))
    ∙ after_digits-decimal_loop (suc n) n [] (omega arith)

strtoul-StartsWithDigit :
    (s : Text)
    → StartsWithDigit s
    → strtoul s ≡ (min (digits_value 0 s) (2 ^ 64 - 1), after_digits s)
unfolding strtoul
strtoul-StartsWithDigit s (c, t, e, lo, hi) = rw e (ground arith)

strtol-StartsWithDigit :
    (s : Text)
    → StartsWithDigit s
    → strtol s ≡ (min (digits_value 0 s) (2 ^ 63 - 1), after_digits s)
unfolding strtol
strtol-StartsWithDigit s (c, t, e, lo, hi) = rw e (ground arith)

-- A length is read back from its decimal text, with nothing left.
pub strtoul-decimal : (n : ℕ) → n < 2 ^ 64 → strtoul (decimal n) ≡ (n, [])
strtoul-decimal n h =
    let small : min n (2 ^ 64 - 1) ≡ n = omega arith in
    rw (
      strtoul-StartsWithDigit (decimal n) (decimal-StartsWithDigit n),
      digits_value-decimal n,
      after_digits-decimal n,
      small,
    )

pub strtol-decimal : (n : ℕ) → n < 2 ^ 63 → strtol (decimal n) ≡ (n, [])
strtol-decimal n h =
    let small : min n (2 ^ 63 - 1) ≡ n = omega arith in
    rw (
      strtol-StartsWithDigit (decimal n) (decimal-StartsWithDigit n),
      digits_value-decimal n,
      after_digits-decimal n,
      small,
    )
