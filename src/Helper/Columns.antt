-- ===== src/Helper/Columns.antt =====
-- getCaches and getRecentFirstHashes, which give the first column of the rows that a SELECT finds.
use mathlib.Core.List.{Perm, map}
use balabox.Base.{ℕ, ◌<◌, ◌≡◌, refl, ◌⊎◌, inl, inr, some, List, [], ◌∷◌, take, keep_if}
use balabox.Base.Text.{Text}
use balabox.Base.Decimal.{int_half}
use balabox.Exec.{ok, ◌>>=◌}
use balabox.Sql.{FileBlock, UserCache, MySql}
use balabox.Sql.Laws.{IsSql, IsName, Ordered, of_user, recent_of, caches_of}
use balabox.Helper.{column, first_columns, get_column, get_caches, get_recent_first_hashes}
use balabox.Helper.Steps.{select_lem}

module _ (M : MySql) where
  first_columns_lem :
      {A : Type 0} (value : A → Text) (l : List A) (s : M.State)
      → first_columns M (map (λ a. some (value a) ∷ []) l) s ≡ (ok (map value l), s)
  unfolding first_columns column ◌>>=◌
  first_columns_lem value [] s = refl
  first_columns_lem value (a ∷ l) s = rw (first_columns_lem value l s)

module _ (M : MySql) (L : IsSql M) where
  -- For a plain name and a maximum below 2 ^ 31 getCaches returns 0 with as many addresses of the
  -- user, in some order, as there are and the maximum allows, or an error number above 999 and no
  -- address. The tables stay as they are, and a healthy server does not fail.
  pub get_caches_lem :
      (u : Text) (n : ℕ) (s : M.State)
      → IsName u
      → n < int_half
      → ((l : List UserCache) × (s' : M.State) × Perm l
            (keep_if (λ c. L.same c.user_id u) ((L.tables s).caches))
          × (get_caches M u n s ≡ (ok (0, map (λ c. c.cache_server_ip) (take n l)), s'))
          × (L.tables s' ≡ L.tables s))
        ⊎ ((e : ℕ) × (s' : M.State) × (get_caches M u n s ≡ (ok (e, []), s'))
            × (999 < e)
            × (L.tables s' ≡ L.tables s)
            × ¬ (L.Healthy s))
  unfolding get_caches get_column ◌>>=◌
  get_caches_lem u n s nu lt = elim (select_lem M L (caches_of u n) s (nu, lt) refl) [
    | inl (e, s', run, same, high, sick) ↦ inr (e, s', rw run, high, same, sick)
    | inr (rows, s', run, same, (l, p, given), well) ↦ inl (
      l,
      s',
      p,
      rw (run, given, first_columns_lem M (λ (c : UserCache). c.cache_server_ip) (take n l) s'),
      same,
    )
  ]

  -- For a plain name and a maximum below 2 ^ 31 getRecentFirstHashes returns 0 with the hashes of
  -- the rows of the user, those with the least block numbers first, as many as there are and the
  -- maximum allows, or an error number above 999 and no hash. The tables stay as they are, and a
  -- healthy server does not fail.
  pub get_recent_first_hashes_lem :
      (u : Text) (n : ℕ) (s : M.State)
      → IsName u
      → n < int_half
      → ((l : List FileBlock) × (s' : M.State) × Perm l
            (keep_if (of_user L.same u) ((L.tables s).files))
          × Ordered l
          × (get_recent_first_hashes M u n s ≡ (ok (0, map (λ r. r.block_hash) (take n l)), s'))
          × (L.tables s' ≡ L.tables s))
        ⊎ ((e : ℕ) × (s' : M.State) × (get_recent_first_hashes M u n s ≡ (ok (e, []), s'))
            × (999 < e)
            × (L.tables s' ≡ L.tables s)
            × ¬ (L.Healthy s))
  unfolding get_recent_first_hashes get_column ◌>>=◌
  get_recent_first_hashes_lem u n s nu lt = elim (select_lem M L (recent_of u n) s (nu, lt) refl) [
    | inl (e, s', run, same, high, sick) ↦ inr (e, s', rw run, high, same, sick)
    | inr (rows, s', run, same, (l, p, o, given), well) ↦ inl (
      l,
      s',
      p,
      o,
      rw (run, given, first_columns_lem M (λ (r : FileBlock). r.block_hash) (take n l) s'),
      same,
    )
  ]
