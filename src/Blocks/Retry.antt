-- ===== src/Blocks/Retry.antt =====
-- The loops that repeat an attempt until it succeeds.
use balabox.Base.{
  ℕ, zero, suc, ◌≡◌, ◌⊎◌, inl, inr, refl, ◌∙◌, Bool, true, false, if◌then◌else◌, Bool-cases,
}
use balabox.Exec.{ok, ◌>>=◌}
use balabox.Blocks.{retry}

module _ {S : Type 0} (attempt : S → Bool × S) where
  -- One of the next `n` attempts succeeds.
  abbrev pub Succeeds : ℕ → S → Type 0
  Succeeds zero s = ⊥
  Succeeds (suc n) s = ((attempt s).0 ≡ true) ⊎ (((attempt s).0 ≡ false) × Succeeds n (attempt s).1)

  -- The state behind the first attempt that succeeds.
  abbrev pub settled : ℕ → S → S
  settled zero s = s
  settled (suc n) s =
      let later = settled n (attempt s).1 in if (attempt s).0 then (attempt s).1 else later

  pub retry_lem : (n : ℕ) (s : S) → Succeeds n s → retry n attempt s ≡ (ok tt, settled n s)
  unfolding retry ◌>>=◌
  retry_lem zero s h = absurd h
  retry_lem (suc n) s (inl now) = rw now
  retry_lem (suc n) s (inr (failed, h)) = rw failed (retry_lem n (attempt s).1 h)

  -- What every attempt keeps, the loop keeps.
  pub settled-keeps :
      {V : Type 0} (view : S → V)
      → ((s : S) → view (attempt s).1 ≡ view s)
      → (n : ℕ) (s : S) → view (settled n s) ≡ view s
  settled-keeps view k zero s = refl
  settled-keeps view k (suc n) s = elim (Bool-cases (attempt s).0) [
    | inl now ↦ rw now (k s)
    | inr failed ↦ rw failed (settled-keeps view k n (attempt s).1 ∙ k s)
  ]

  -- What a success brings about holds in the end.
  pub settled-holds :
      (P : S → Type 0)
      → ((s : S) → (attempt s).0 ≡ true → P (attempt s).1)
      → (n : ℕ) (s : S) → Succeeds n s
      → P (settled n s)
  settled-holds P k zero s h = absurd h
  settled-holds P k (suc n) s (inl now) = rw now (k s now)
  settled-holds P k (suc n) s (inr (failed, h)) = rw failed (settled-holds P k n (attempt s).1 h)

  -- The loop ends only by an attempt that succeeds.
  pub retry-Succeeds : (n : ℕ) (s : S) → (retry n attempt s).0 ≡ ok tt → Succeeds n s
  unfolding retry ◌>>=◌
  retry-Succeeds zero s e = cc
  retry-Succeeds (suc n) s e = elim (Bool-cases (attempt s).0) [
    | inl now ↦ inl now
    | inr failed ↦ inr (failed, retry-Succeeds n (attempt s).1 (rw failed at e))
  ]
