-- ===== src/Exec.antt =====
-- Code that changes a state and may end its process: an exception that nothing catches, or
-- undefined behaviour such as the use of a null or indeterminate pointer. What was written before
-- a crash stays written.
pub mod Keeps
pub mod Maintains
use balabox.Base.{Option, none, some}

pub data Result {ℓ} (A : Type ℓ) : Type ℓ where
  ok : A → Result A
  crash : Result A

abbrev pub Exec {ℓ} : Type ℓ → Type ℓ → Type ℓ
Exec S A = S → Result A × S

module _ {ℓ} {S A : Type ℓ} where
  unfoldable pub pure : A → Exec S A
  pure a s = (ok a, s)

  unfoldable pub die : Exec S A
  die s = (crash, s)

  -- A value that may be missing because its computation throws.
  unfoldable pub demand : Option A → Exec S A
  demand none s = (crash, s)
  demand (some a) s = (ok a, s)

module _ {ℓ} {S A B : Type ℓ} where
  abbrev pub continue : Result A → (A → Exec S B) → Exec S B
  continue (ok a) f s = f a s
  continue crash f s = (crash, s)

  infixl 10 ◌>>=◌ ◌>>◌
  -- Opening this opens `pure`, `die` and `demand` too.
  unfoldable pub ◌>>=◌ : Exec S A → (A → Exec S B) → Exec S B
  unfolding pure die demand
  ◌>>=◌ m f s = let (r, s') = m s in continue r f s'

  abbrev pub ◌>>◌ : Exec S A → Exec S B → Exec S B
  m >> n = m >>= λ _. n
