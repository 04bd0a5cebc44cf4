-- ===== src/Helper/Suite/Laws.antt =====
-- When test_file_update passes.
use balabox.Base.{◌≡◌, inl, inr, Bool-cases}
use balabox.Exec.{ok, ◌>>=◌}
use balabox.Sql.{MySql}
use balabox.Sql.Laws.{IsSql}
use balabox.Sql.Consistent.{IsConsistent}
use balabox.Helper.{update_file_data}
use balabox.Helper.Commit.{IsCommit}
use balabox.Helper.Version.{file_version, accepts}
use balabox.Helper.Outcome.{update_file_data_healthy, update_file_data-IsConsistent}
use balabox.Helper.Reads.{get_file_block_list_lem}
use balabox.Helper.Suite.{steven, newfile, new_hashes, test_file_update}

module _ (M : MySql) (L : IsSql M) where
  -- On a healthy server with consistent tables test_file_update passes exactly if the version 0 is
  -- accepted, which is if the file has no rows: the test passes once.
  pub test_file_update_lem :
      (s : M.State)
      → IsCommit M L steven newfile new_hashes 0
      → IsConsistent L.same (L.tables s)
      → L.Healthy s
      → (test_file_update M s).0 ≡ ok (accepts (file_version L.same steven newfile (L.tables s)) 0)
  unfolding test_file_update ◌>>=◌
  test_file_update_lem s commit inv h =
      let (code, stored, h1) =
        update_file_data_healthy M L steven newfile new_hashes 0 s commit inv h in
      let s1 = (update_file_data M steven newfile new_hashes 0 s).1 in
      let inv1 = update_file_data-IsConsistent M L steven newfile new_hashes 0 s commit inv in
      elim (Bool-cases (accepts (file_version L.same steven newfile (L.tables s)) 0)) [
        | inr stale ↦ let code' = rw stale at code in rw (code', stale)
        | inl new ↦
            let code' = rw new at code in
            elim (get_file_block_list_lem M L steven newfile 0 s1 commit.user commit.file inv1) [
              | inl (s2, run, same) ↦ rw (code', new, run)
              | inr (_, _, _, _, _, sick) ↦ absurd (sick h1)
            ]
      ]
