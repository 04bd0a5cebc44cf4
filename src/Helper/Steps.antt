-- ===== src/Helper/Steps.antt =====
-- How one statement of the helper ends, under the laws of the server.
use balabox.Base.{ℕ, ◌<◌, ◌≡◌, ◌⊎◌, inl, inr, true, false, List, Bool-cases, Option-cases}
use balabox.Exec.{ok, ◌>>=◌}
use balabox.Sql.{MySql, Row}
use balabox.Sql.Laws.{Statement, render, IsSafe, is_select, effect, Answers, IsSql}
use balabox.Helper.{failed, fetched, query, select, command, errno, store_result}

module _ (M : MySql) (L : IsSql M) (st : Statement) (s : M.State) (safe : IsSafe st) where
  abbrev QueryFails : Type 0
  QueryFails =
      (s' : M.State) × (query M (render st) s ≡ (ok false, s'))
      × (L.tables s' ≡ L.tables s)
      × (999 < M.errno s')
      × ¬ (L.Healthy s)

  abbrev QueryRuns : Type 0
  QueryRuns =
      (s' : M.State) × (query M (render st) s ≡ (ok true, s'))
      × (L.tables s' ≡ effect L.same st (L.tables s))
      × (L.Healthy s → L.Healthy s')

  pub query_lem : QueryFails ⊎ QueryRuns
  unfolding query ◌>>=◌
  query_lem = elim (Bool-cases (M.query (render st) s).0) [
    | inl done ↦ inr (
      (M.query (render st) s).1,
      rw done,
      L.query_true st s safe done,
      λ h. (L.query_healthy st s safe h).1,
    )
    | inr undone ↦ inl (
      (M.query (render st) s).1,
      rw undone,
      (L.query_false st s safe undone).0,
      (L.query_false st s safe undone).1,
      λ h. cc (undone, (L.query_healthy st s safe h).0),
    )
  ]

  abbrev SelectFails : Type 0
  SelectFails =
      (e : ℕ) × (s' : M.State) × (select M (render st) s ≡ (ok (failed e), s'))
      × (L.tables s' ≡ L.tables s)
      × (999 < e)
      × ¬ (L.Healthy s)

  abbrev SelectRuns : Type 0
  SelectRuns =
      (rows : List Row) × (s' : M.State) × (select M (render st) s ≡ (ok (fetched rows), s'))
      × (L.tables s' ≡ L.tables s)
      × Answers L.same st (L.tables s) rows
      × (L.Healthy s → L.Healthy s')

  pub select_lem : is_select st ≡ true → SelectFails ⊎ SelectRuns
  unfolding select ◌>>=◌
  select_lem sel = elim (Bool-cases (M.query (render st) s).0) [
    | inr undone ↦ inl (
      M.errno (M.query (render st) s).1,
      (M.query (render st) s).1,
      rw undone,
      (L.query_false st s safe undone).0,
      (L.query_false st s safe undone).1,
      λ h. cc (undone, (L.query_healthy st s safe h).0),
    )
    | inl done ↦ elim (Option-cases (M.store_result (M.query (render st) s).1).0) [
      | inl null ↦
          let s' = (M.store_result (M.query (render st) s).1).1 in
          inl (
            M.errno s',
            s',
            rw (done, null, store_result),
            (L.store_none st s safe sel done null).0,
            (L.store_none st s safe sel done null).1,
            λ h. cc (null, (L.store_healthy st s safe sel h).1),
          )
      | inr (rows, found) ↦ inr (
        rows,
        (M.store_result (M.query (render st) s).1).1,
        rw (done, found, store_result),
        (L.store_some st s rows safe sel done found).0,
        (L.store_some st s rows safe sel done found).1,
        λ h. (L.store_healthy st s safe sel h).2,
      )
    ]
  ]

  -- A statement without rows: 0 with its effect, or an error number with the tables as they were.
  pub command_lem :
      ((s' : M.State) × (command M (render st) s ≡ (ok 0, s'))
        × (L.tables s' ≡ effect L.same st (L.tables s))
        × (L.Healthy s → L.Healthy s'))
      ⊎ ((e : ℕ) × (s' : M.State) × (command M (render st) s ≡ (ok e, s'))
          × (L.tables s' ≡ L.tables s)
          × (999 < e)
          × ¬ (L.Healthy s))
  unfolding command ◌>>=◌ errno
  command_lem = elim query_lem [
    | inl (s', run, same, high, sick) ↦ inr (M.errno s', s', rw run, same, high, sick)
    | inr (s', run, done, well) ↦ inl (s', rw run, done, well)
  ]
