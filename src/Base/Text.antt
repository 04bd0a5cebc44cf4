-- ===== src/Base/Text.antt =====
-- Byte strings, and what the program uses of `std::string`: equality, `find`, `substr`, and the
-- constructor from a `char *`.
use Prim.Native.Nat.{ℕ, suc, ◌+◌}
use Prim.Native.Char.{code}
use Prim.Native.String.{String}
use mathlib.Core.Path.{◌≡◌, refl}
use mathlib.Core.Logic.{◌↔◌}
use mathlib.Core.Bool.{Bool, true, false, ◌&&◌}
use mathlib.Core.Option
use mathlib.Core.Option.{Option, none, some}
use mathlib.Core.List.{List, [], ◌∷◌}
use native.Mathlib.Omega.{arith}
use balabox.Base.Tests.{◌==◌, if◌then◌else◌}
use balabox.Base.Lists.{take, drop}

abbrev pub Text : Type 0
Text = List ℕ

-- The bytes of an ASCII literal.
unfoldable pub text : String → Text
text String.[] = []
text (String.◌∷◌ c s) = code c ∷ text s

-- `a == b` on strings.
unfoldable pub text_eq : Text → Text → Bool
text_eq [] [] = true
text_eq (x ∷ xs) (y ∷ ys) = x == y && text_eq xs ys
text_eq _ _ = false

pub text_eq_iff : (s t : Text) → (text_eq s t ≡ true) ↔ (s ≡ t)
unfolding text_eq
text_eq_iff [] [] = (λ _. refl, λ _. refl)
text_eq_iff [] (y ∷ ys) = ground arith
text_eq_iff (x ∷ xs) [] = ground arith
text_eq_iff (x ∷ xs) (y ∷ ys) = ground (arith, text_eq_iff xs ys)

unfoldable pub is_prefix : Text → Text → Bool
is_prefix [] s = true
is_prefix (x ∷ xs) [] = false
is_prefix (x ∷ xs) (y ∷ ys) = x == y && is_prefix xs ys

-- `s.find(n)`; `none` is `npos`.
unfoldable pub find : Text → Text → Option ℕ
unfolding is_prefix
find n [] = if is_prefix n [] then some 0 else none
find n (c ∷ s) =
    let later = Option.map suc (find n s) in if is_prefix n (c ∷ s) then some 0 else later

-- `s.find(n, pos)` for a needle that is not empty.
unfoldable pub find_at : Text → Text → ℕ → Option ℕ
unfolding find
find_at n s pos = Option.map (λ i. pos + i) (find n (drop pos s))

-- `s.substr(pos, len)` for `pos` inside the string.
unfoldable pub substr : Text → ℕ → ℕ → Text
substr s pos len = take len (drop pos s)

-- The bytes before the first NUL: what `std::string(char *)` reads.
unfoldable pub c_string : Text → Text
c_string [] = []
c_string (c ∷ s) = let rest = c_string s in if c == 0 then [] else c ∷ rest
