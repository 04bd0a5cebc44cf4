-- ===== src/Base/Dict.antt =====
-- Python's dicts with strings as keys, in the order of insertion.
use mathlib.Core.Path.{◌≡◌, refl}
use mathlib.Core.Bool.{true}
use mathlib.Core.Option.{Option, none, some}
use mathlib.Core.List.{List, [], ◌∷◌}
use native.Mathlib.Omega.{arith}
use balabox.Base.Tests.{if◌then◌else◌}
use balabox.Base.Text.{Text, text_eq, text_eq_iff}

abbrev pub Dict {ℓ} : Type ℓ → Type ℓ
Dict A = List (Text × A)

pub text_eq_refl : (k : Text) → text_eq k k ≡ true
text_eq_refl k = (text_eq_iff k k).1 refl

module _ {ℓ} {A : Type ℓ} where
  unfoldable pub lookup : Text → Dict A → Option A
  lookup k [] = none
  lookup k ((j, a) ∷ d) = let later = lookup k d in if text_eq k j then some a else later

  -- d[k] = a
  unfoldable pub insert : Text → A → Dict A → Dict A
  insert k a [] = (k, a) ∷ []
  insert k a ((j, b) ∷ d) =
      let later = insert k a d in if text_eq k j then (k, a) ∷ d else (j, b) ∷ later

  -- del d[k]
  unfoldable pub erase : Text → Dict A → Dict A
  erase k [] = []
  erase k ((j, b) ∷ d) = let later = erase k d in if text_eq k j then later else (j, b) ∷ later

  pub lookup-insert :
      (j k : Text) (a : A) (d : Dict A)
      → lookup j (insert k a d) ≡ (if text_eq j k then some a else lookup j d)
  unfolding lookup insert
  lookup-insert j k a [] = refl
  lookup-insert j k a ((i, b) ∷ d) =
      ground (arith, lookup-insert j k a d, text_eq_iff j k, text_eq_iff k i, text_eq_iff j i)

  pub lookup-insert_self : (k : Text) (a : A) (d : Dict A) → lookup k (insert k a d) ≡ some a
  lookup-insert_self k a d = rw (lookup-insert, text_eq_refl)

  pub lookup-erase :
      (j k : Text) (d : Dict A) → lookup j (erase k d) ≡ (if text_eq j k then none else lookup j d)
  unfolding lookup erase
  lookup-erase j k [] = ground arith
  lookup-erase j k ((i, b) ∷ d) =
      ground (arith, lookup-erase j k d, text_eq_iff j k, text_eq_iff k i, text_eq_iff j i)
