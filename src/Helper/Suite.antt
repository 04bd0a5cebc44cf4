-- ===== src/Helper/Suite.antt =====
-- metadata/test/mysql_helper_test.cc, without what it prints: a test gives whether it returned 0, and
-- the program the number of failures.
pub mod Laws
use balabox.Base.{ℕ, suc, ◌+◌, Bool, true, false, not, List, [], ◌∷◌, ◌==◌, if◌then◌else◌, length}
use balabox.Base.Text.{Text, text}
use balabox.Exec.{Exec, pure, ◌>>=◌}
use balabox.Sql.{MySql}
use balabox.Helper.{
  connect, close, get_file_block_list, update_file_data, get_missing_block_hashes,
  get_recent_first_hashes, get_user_file_names, get_caches, remove_cache, remove_file, add_cache,
}

unfoldable pub steven : Text
unfolding text
steven = text "steven"

unfoldable pub newfile : Text
unfolding text
newfile = text "newfile"

-- The blocks that test_file_update commits.
unfoldable pub new_hashes : List Text
unfolding text
new_hashes =
    text "aaf02993af40bf0c8ab083519af47b0d3c5af5110b72d4a3eaea2df0c765264d"
    ∷ text "4a8d881b5d8f7fed33b1f5a6cd0e289ed6d801bd32dbb74bc3feeef8b2eceb3e"
    ∷ []

module _ (M : MySql) where
  unfoldable pub test_file_list : Exec M.State Bool
  test_file_list = do
    (code, hashes, version) ← get_file_block_list M steven (text "testfile") 0
    pure (code == 0)

  unfoldable pub test_file_update : Exec M.State Bool
  test_file_update = do
    updated ← update_file_data M steven newfile new_hashes 0
    if not (updated == 0)
        then pure false
        else do (code, hashes, version) ← get_file_block_list M steven newfile 0; pure (code == 0)

  unfoldable pub test_missing_block_hashes : Exec M.State Bool
  test_missing_block_hashes = do
    (code, missing) ← get_missing_block_hashes M (
        text "c7c084318b6f1bece6f74ffce1ea53596070345272dee8040037497c7d4cbffe"
        ∷ text "9f86d081884c7d659a2feaa0c55ad015a3bf4f1b2b0b822cd15d6c15b0f00a08"
        ∷ text "ffa63583dfa6706b87d284b86b0d693a161e4840aad2c5cf6b5d27c3b9621f7d"
        ∷ [])
    pure (if not (code == 0) then false else length missing == 1)

  unfoldable pub test_get_recent_first_hashes : Exec M.State Bool
  test_get_recent_first_hashes = do
    (code, hashes) ← get_recent_first_hashes M steven 4
    pure (code == 0)

  unfoldable pub test_get_user_file_names : Exec M.State Bool
  test_get_user_file_names = do
    (code, names, versions) ← get_user_file_names M steven
    pure (code == 0)

  unfoldable pub test_get_caches : Exec M.State Bool
  test_get_caches = do (code, caches) ← get_caches M steven 10; pure (code == 0)

  -- The code of getCaches is not read, here and below.
  unfoldable pub test_remove_cache : Exec M.State Bool
  test_remove_cache = do
    removed ← remove_cache M steven (text "10.1.1.1")
    if not (removed == 0)
        then pure false
        else do (code, caches) ← get_caches M steven 10; pure (length caches == 0)

  unfoldable pub test_remove_file : Exec M.State Bool
  test_remove_file = do
    removed ← remove_file M steven (text "testfile")
    if not (removed == 0) then pure false else do
      (code, hashes, version) ← get_file_block_list M steven (text "testfile") 0
      pure (length hashes == 0)

  unfoldable pub test_add_cache : Exec M.State Bool
  test_add_cache = do
    added ← add_cache M (text "testuser") (text "127.0.0.1")
    if not (added == 0)
        then pure false
        else do (code, caches) ← get_caches M (text "testuser") 10; pure (not (length caches == 0))

  -- The tests in turn.
  unfoldable pub failures : List (Exec M.State Bool) → Exec M.State ℕ
  failures [] = pure 0
  failures (test ∷ tests) = do
    passed ← test
    failed ← failures tests
    pure (if passed then failed else suc failed)

  -- main: the number of failures
  unfoldable pub test_main : Exec M.State ℕ
  test_main = do
    connected ← connect M
    if not (connected == 0) then pure 1 else do
      failed ← failures (
          test_file_list ∷ test_file_update ∷ test_missing_block_hashes
          ∷ test_get_recent_first_hashes ∷ test_get_user_file_names ∷ test_get_caches
          ∷ test_remove_cache ∷ test_remove_file ∷ test_add_cache ∷ [])
      closed ← close M
      pure (if closed == 0 then failed else suc failed)
