-- ===== src/Exec/Keeps.antt =====
-- Actions that leave a part of the state as it is, however they end.
use balabox.Base.{Bool, true, false, Option, none, some, ◌≡◌, refl, ◌∙◌, if◌then◌else◌}
use balabox.Exec.{Result, ok, crash, Exec, pure, die, demand, continue, ◌>>=◌}

module _ {S V : Type 0} (view : S → V) where
  abbrev pub Keeps : {A : Type 0} → Exec S A → Type 0
  Keeps m = (s : S) → view (m s).1 ≡ view s

  pub Keeps-pure : {A : Type 0} (a : A) → Keeps (pure a)
  unfolding pure
  Keeps-pure a s = refl

  pub Keeps-demand : {A : Type 0} (o : Option A) → Keeps (demand o)
  unfolding demand
  Keeps-demand none s = refl
  Keeps-demand (some a) s = refl

  pub Keeps-die : (A : Type 0) → Keeps (die {A = A})
  unfolding die
  Keeps-die A s = refl

  pub Keeps-bind :
      {A B : Type 0} (m : Exec S A) (f : A → Exec S B)
      → Keeps m
      → ((a : A) → Keeps (f a))
      → Keeps (m >>= f)
  unfolding ◌>>=◌
  Keeps-bind {A = A} {B = B} m f km kf s = rest (m s).0 (m s).1 ∙ km s
    where
      rest : (r : Result A) (s' : S) → view (continue r f s').1 ≡ view s'
      rest (ok a) s' = kf a s'
      rest crash s' = refl

  pub Keeps-if :
      {A : Type 0} (b : Bool) (m n : Exec S A) → Keeps m → Keeps n → Keeps (if b then m else n)
  Keeps-if true m n km kn = km
  Keeps-if false m n km kn = kn

  pub Keeps-option :
      {A B : Type 0} (o : Option A) (m : Exec S B) (f : A → Exec S B)
      → Keeps m
      → ((a : A) → o ≡ some a → Keeps (f a))
      → Keeps (elim o [ none ↦ m | some a ↦ f a ])
  Keeps-option none m f km kf = km
  Keeps-option (some a) m f km kf = kf a refl
