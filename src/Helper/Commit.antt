-- ===== src/Helper/Commit.antt =====
-- updateFileData: what a commit does on each of its paths.
use balabox.Base.{
  ℕ, ◌<◌, ◌≤◌, true, false, ◌≡◌, refl, ap, ◌∙◌, inl, inr, List, length, take, All, Bool-cases,
  arith,
}
use balabox.Base.Text.{Text}
use balabox.Base.Decimal.{int_half}
use balabox.Exec.{ok, ◌>>=◌}
use balabox.Sql.{MySql}
use balabox.Sql.Laws.{IsName, IsHash, IsSql, version_of, delete_file, effect}
use balabox.Sql.Consistent.{rows_of, IsConsistent, replaced}
use balabox.Helper.{evers, errno, update_file_data}
use balabox.Helper.Steps.{query_lem, select_lem}
use balabox.Helper.Version.{file_version, accepts, is_stale_lem}
use balabox.Helper.Insert.{grown, all, some_of, insert_loop_lem}

module _ (M : MySql) (L : IsSql M) (u f : Text) (hs : List Text) (v : ℕ) where
  -- The ways a commit can end, each with the tables that it leaves.
  pub data Committed (s : M.State) : Type 0 where
    refused :
        (e : ℕ) (s' : M.State)
        → update_file_data M u f hs v s ≡ (ok e, s')
        → 999 < e
        → L.tables s' ≡ L.tables s
        → ¬ (L.Healthy s)
        → Committed s
    stale :
        (s' : M.State)
        → update_file_data M u f hs v s ≡ (ok evers, s')
        → accepts (file_version L.same u f (L.tables s)) v ≡ false
        → L.tables s' ≡ L.tables s
        → (L.Healthy s → L.Healthy s')
        → Committed s
    cut_short :
        (e k : ℕ) (s' : M.State)
        → update_file_data M u f hs v s ≡ (ok e, s')
        → 999 < e
        → k < length hs
        → accepts (file_version L.same u f (L.tables s)) v ≡ true
        → L.tables s' ≡ replaced L.same u f v (take k hs) (L.tables s)
        → ¬ (L.Healthy s)
        → Committed s
    done :
        (s' : M.State)
        → update_file_data M u f hs v s ≡ (ok 0, s')
        → accepts (file_version L.same u f (L.tables s)) v ≡ true
        → L.tables s' ≡ replaced L.same u f v hs (L.tables s)
        → (L.Healthy s → L.Healthy s')
        → Committed s

  -- What a client sends and the server stores as it is.
  pub record IsCommit : Type 0 where
    pub user : IsName u
    pub file : IsName f
    pub blocks : All IsHash hs
    pub version : v < int_half
    pub few : length hs ≤ int_half

  pub update_file_data-Committed :
      (s : M.State) → IsCommit → IsConsistent L.same (L.tables s) → Committed s
  unfolding update_file_data ◌>>=◌ errno
  update_file_data-Committed s c inv =
      elim (select_lem M L (version_of u f) s (c.user, c.file) refl) [
        | inl (e, s1, run, same, high, sick) ↦ refused e s1 (rw run) high same sick
        | inr (rows, s1, run, same, found, well) ↦
            let (w, lw, numbered) = inv u f in
            let check =
              is_stale_lem M w v (rows_of L.same u f (L.tables s)) rows s1 lw numbered found in
            elim (Bool-cases (accepts (file_version L.same u f (L.tables s)) v)) [
              | inr old ↦ stale s1 (rw (run, check, old)) old same well
              | inl new ↦ elim (query_lem M L (delete_file u f) s1 (c.user, c.file)) [
                | inl (s2, del, kept, high, sick) ↦
                    refused (M.errno s2) s2 (rw (run, check, new, del)) high (kept ∙ same)
                      (λ h. sick (well h))
                | inr (s2, del, gone, well2) ↦
                    let base = gone ∙ ap (effect L.same (delete_file u f)) same in
                    elim (insert_loop_lem M L u f v 0 hs s2 c.user c.file c.blocks c.version
                      (omega arith)) [
                        | all s3 ins grew well3 ↦
                            done s3 (rw (run, check, new, del) ins) new
                              (grew ∙ ap (grown M L u f v 0 hs) base) (λ h. well3 (well2 (well h)))
                        | some_of e k s3 ins high lt grew sick ↦
                            cut_short e k s3 (rw (run, check, new, del) ins) high lt new
                              (grew ∙ ap (grown M L u f v 0 (take k hs)) base)
                              (λ h. sick (well2 (well h)))
                      ]
              ]
            ]
      ]
