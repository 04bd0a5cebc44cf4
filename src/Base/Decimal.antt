-- ===== src/Base/Decimal.antt =====
-- C integers as bit patterns, and the decimal texts that the program writes and reads:
-- `ostream << int` behind `intToStr` of metadata/src/fcgi_util.cc, and the C library's `atoi`.
pub mod RoundTrip
pub mod Lengths
use Prim.Native.Nat.{ℕ, zero, suc, ◌+◌, ◌-◌, ◌*◌, ◌/◌, ◌%◌, ◌^◌, min}
use mathlib.Core.Bool.{Bool, true, false, ◌&&◌, ◌||◌}
use mathlib.Core.Path.{◌≡◌, refl}
use mathlib.Core.List.{List, [], ◌∷◌, ◌++◌}
use balabox.Base.Tests.{ltb, leb, ◌==◌, if◌then◌else◌}
use balabox.Base.Text.{Text, text}

-- An `int` or `unsigned int` is its 32-bit pattern, a number below `int_mod`.
abbrev pub int_mod : ℕ
int_mod = 2 ^ 32

abbrev pub int_half : ℕ
int_half = 2 ^ 31

-- The digits of a number, with fuel above the number.
decimal_loop : ℕ → ℕ → Text
decimal_loop zero n = []
decimal_loop (suc f) n =
    let front = decimal_loop f (n / 10) in
    if ltb n 10 then (b'0' + n) ∷ [] else front ++ (b'0' + n % 10) ∷ []

unfoldable pub decimal : ℕ → Text
unfolding decimal_loop
decimal n = decimal_loop (suc n) n

-- `intToStr`: the pattern is printed as a signed number.
unfoldable pub int_to_str : ℕ → Text
unfolding decimal
int_to_str i = if ltb i int_half then decimal i else b'-' ∷ decimal (int_mod - i)

is_digit : ℕ → Bool
is_digit c = leb b'0' c && leb c b'9'

is_space : ℕ → Bool
is_space c = c == 32 || leb 9 c && leb c 13

skip_space : Text → Text
unfolding is_space
skip_space [] = []
skip_space (c ∷ s) = let rest = skip_space s in if is_space c then rest else c ∷ s

-- The digits at the front, read onto what was read before.
pub digits_value : ℕ → Text → ℕ
unfolding is_digit
digits_value n [] = n
digits_value n (c ∷ s) =
    let more = digits_value (n * 10 + (c - b'0')) s in if is_digit c then more else n

-- `strtol` clamps to a 64-bit `long`, and `atoi` keeps the low 32 bits.
positive : ℕ → ℕ
positive m = min m (2 ^ 63 - 1) % int_mod

negative : ℕ → ℕ
negative m = (2 ^ 64 - min m (2 ^ 63)) % int_mod

after_space : Text → ℕ
unfolding digits_value positive negative
after_space [] = 0
after_space (c ∷ s) =
    if c == b'-'
    then negative (digits_value 0 s)
    else if c == b'+'
    then positive (digits_value 0 s)
    else positive (digits_value 0 (c ∷ s))

unfoldable pub atoi : Text → ℕ
unfolding after_space skip_space
atoi s = after_space (skip_space s)

int_to_str_runs : int_to_str 4294967295 ≡ text "-1"
unfolding int_to_str text
int_to_str_runs = refl

atoi_runs : atoi (text "  -12x") ≡ 4294967284
unfolding atoi text
atoi_runs = refl

-- The bytes behind the digits at the front.
after_digits : Text → Text
unfolding is_digit
after_digits [] = []
after_digits (c ∷ s) = let rest = after_digits s in if is_digit c then rest else c ∷ s

starts_with_digit : Text → Bool
unfolding is_digit
starts_with_digit [] = false
starts_with_digit (c ∷ s) = is_digit c

-- `strtol(s, &end, 10)` as the 64-bit pattern of the result, with the bytes from `end` on. Without
-- digits the result is 0 and `end` is the start.
strtol_digits : Text → (ℕ → ℕ) → Text → ℕ × Text
unfolding starts_with_digit digits_value after_digits
strtol_digits whole sign s =
    if starts_with_digit s then (sign (digits_value 0 s), after_digits s) else (0, whole)

strtol_from : Text → Text → ℕ × Text
unfolding strtol_digits
strtol_from whole [] = (0, whole)
strtol_from whole (c ∷ s) =
    if c == b'-'
    then strtol_digits whole (λ m. (2 ^ 64 - min m (2 ^ 63)) % 2 ^ 64) s
    else if c == b'+'
    then strtol_digits whole (λ m. min m (2 ^ 63 - 1)) s
    else strtol_digits whole (λ m. min m (2 ^ 63 - 1)) (c ∷ s)

unfoldable pub strtol : Text → ℕ × Text
unfolding strtol_from skip_space
strtol s = strtol_from s (skip_space s)

strtol_runs : strtol (text " 40x") ≡ (40, text "x")
unfolding strtol text
strtol_runs = refl

-- `strtoul(s, &end, 10)` clamps to 64 bits and negates after a minus sign, unless it clamped.
strtoul_negated : ℕ → ℕ
strtoul_negated m = if ltb m (2 ^ 64) then (2 ^ 64 - m) % 2 ^ 64 else 2 ^ 64 - 1

strtoul_from : Text → Text → ℕ × Text
unfolding strtol_digits strtoul_negated
strtoul_from whole [] = (0, whole)
strtoul_from whole (c ∷ s) =
    if c == b'-'
    then strtol_digits whole strtoul_negated s
    else if c == b'+'
    then strtol_digits whole (λ m. min m (2 ^ 64 - 1)) s
    else strtol_digits whole (λ m. min m (2 ^ 64 - 1)) (c ∷ s)

unfoldable pub strtoul : Text → ℕ × Text
unfolding strtoul_from skip_space
strtoul s = strtoul_from s (skip_space s)

strtoul_runs : strtoul (text "-1") ≡ (18446744073709551615, [])
unfolding strtoul text
strtoul_runs = refl
