-- ===== src/Helper/Missing.antt =====
-- getMissingBlockHashes: exactly the hashes that no row holds.
use balabox.Base.{
  ℕ, suc, ◌<◌, ◌≤◌, Bool, not, ◌≡◌, refl, ◌∙◌, ◌⊎◌, inl, inr, List, [], ◌∷◌, length, take, All, any,
  keep_if, ◌==◌, arith,
}
use balabox.Base.Text.{Text}
use balabox.Base.Decimal.{decimal, atoi, int_mod}
use balabox.Base.Decimal.RoundTrip.{atoi-decimal}
use balabox.Exec.{ok, ◌>>=◌}
use balabox.Sql.{MySql}
use balabox.Sql.Laws.{Tables, IsHash, IsSql, count_hash, of_hash}
use balabox.Helper.{column, counts_none, missing_loop, get_missing_block_hashes}
use balabox.Helper.Steps.{select_lem}

-- Some row of some file has the hash.
abbrev pub stored : (Text → Text → Bool) → Tables → Text → Bool
stored same t h = any (of_hash same h) t.files

length-keep_if-le {ℓ} : {A : Type ℓ} (p : A → Bool) (l : List A) → length (keep_if p l) ≤ length l
length-keep_if-le p [] = omega arith
length-keep_if-le p (x ∷ l) = ground (arith, length-keep_if-le p l)

count-eq-zero {ℓ} :
    {A : Type ℓ} (p : A → Bool) (l : List A) → (length (keep_if p l) == 0) ≡ not (any p l)
count-eq-zero p [] = refl
count-eq-zero p (x ∷ l) = ground (arith, count-eq-zero p l)

module _ (M : MySql) (L : IsSql M) where
  abbrev pub absent : Tables → List Text → List Text
  absent t hs = keep_if (λ h. not (stored L.same t h)) hs

  -- The loop finds every missing hash, or stops at a failed statement with those before it.
  data Found (hs : List Text) (t : Tables) (s : M.State) : Type 0 where
    all_missing :
        (s' : M.State)
        → missing_loop M hs s ≡ (ok (0, absent t hs), s')
        → L.tables s' ≡ t
        → Found hs t s
    stopped :
        (e k : ℕ) (s' : M.State)
        → missing_loop M hs s ≡ (ok (e, absent t (take k hs)), s')
        → 999 < e
        → k < length hs
        → L.tables s' ≡ t
        → ¬ (L.Healthy s)
        → Found hs t s

  count_row :
      (t : Tables) (h : Text)
      → length t.files < int_mod
      → (atoi (decimal (length (keep_if (of_hash L.same h) t.files))) == 0)
        ≡ not (stored L.same t h)
  count_row t h few =
      rw
        (atoi-decimal (length (keep_if (of_hash L.same h) t.files))
          (omega (arith, length-keep_if-le (of_hash L.same h) t.files)))
        (count-eq-zero (of_hash L.same h) t.files)

  missing_loop_lem :
      (hs : List Text) (t : Tables) (s : M.State)
      → L.tables s ≡ t
      → All IsHash hs
      → length t.files < int_mod
      → Found hs t s
  unfolding missing_loop counts_none column ◌>>=◌
  missing_loop_lem [] t s now hh few = all_missing s refl now
  missing_loop_lem (h ∷ hs) t s now (hash, hh) few =
      elim (select_lem M L (count_hash h) s hash refl) [
        | inl (e, s', run, same, high, sick) ↦
            stopped e 0 s' (rw run) high (omega arith) (same ∙ now) sick
        | inr (rows, s', run, same, given, well) ↦
            elim (missing_loop_lem hs t s' (same ∙ now) hh few) [
              | all_missing s'' rest kept ↦
                  all_missing s'' (rw (run, given, now, count_row t h few, rest)) kept
              | stopped e k s'' rest high lt kept sick ↦
                  stopped e (suc k) s'' (rw (run, given, now, count_row t h few, rest)) high
                    (omega arith) kept (λ x. sick (well x))
            ]
      ]

  -- For one plain hash or more and fewer than 2 ^ 32 rows, getMissingBlockHashes gives exactly the
  -- hashes that no row holds, in the order of the request; or an error number above 999 with those
  -- among the first few that no row holds. The tables stay as they are, and a healthy server does
  -- not fail.
  pub get_missing_block_hashes_lem :
      (h : Text) (hs : List Text) (s : M.State)
      → All IsHash (h ∷ hs)
      → length (L.tables s).files < int_mod
      → ((s' : M.State) × (get_missing_block_hashes M (h ∷ hs) s
            ≡ (ok (0, absent (L.tables s) (h ∷ hs)), s'))
          × (L.tables s' ≡ L.tables s))
        ⊎ ((e k : ℕ) × (s' : M.State) × (get_missing_block_hashes M (h ∷ hs) s
              ≡ (ok (e, absent (L.tables s) (take k (h ∷ hs))), s'))
            × (999 < e)
            × (L.tables s' ≡ L.tables s)
            × ¬ (L.Healthy s))
  unfolding get_missing_block_hashes
  get_missing_block_hashes_lem h hs s hh few =
      elim (missing_loop_lem (h ∷ hs) (L.tables s) s refl hh few) [
        | all_missing s' run same ↦ inl (s', run, same)
        | stopped e k s' run high lt same sick ↦ inr (e, k, s', run, high, same, sick)
      ]
