-- ===== src/Exec/Maintains.antt =====
-- Actions after which a property of a part of the state holds if it held before, however they end.
use balabox.Base.{Bool, true, false, subst, sym, if◌then◌else◌}
use balabox.Exec.{Result, ok, crash, Exec, continue, ◌>>=◌}
use balabox.Exec.Keeps.{Keeps}

module _ {S V : Type 0} (view : S → V) (P : V → Type 0) where
  abbrev pub Maintains : {A : Type 0} → Exec S A → Type 0
  Maintains m = (s : S) → P (view s) → P (view (m s).1)

  pub Maintains-Keeps : {A : Type 0} (m : Exec S A) → Keeps view m → Maintains m
  Maintains-Keeps m k s h = subst P (sym (k s)) h

  pub Maintains-bind :
      {A B : Type 0} (m : Exec S A) (f : A → Exec S B)
      → Maintains m
      → ((a : A) → Maintains (f a))
      → Maintains (m >>= f)
  unfolding ◌>>=◌
  Maintains-bind {A = A} {B = B} m f km kf s h = rest (m s).0 (m s).1 (km s h)
    where
      rest : (r : Result A) (s' : S) → P (view s') → P (view (continue r f s').1)
      rest (ok a) s' h' = kf a s' h'
      rest crash s' h' = h'

  pub Maintains-if :
      {A : Type 0} (b : Bool) (m n : Exec S A)
      → Maintains m
      → Maintains n
      → Maintains (if b then m else n)
  Maintains-if true m n km kn = km
  Maintains-if false m n km kn = kn
