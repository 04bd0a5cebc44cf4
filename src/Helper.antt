-- ===== src/Helper.antt =====
-- metadata/src/mysql_helper.cc: each method is an action on the state of the client library.
-- A method returns its `int` code and, where it has one, the vector that it fills.
pub mod Steps
pub mod Version
pub mod Insert
pub mod Commit
pub mod Outcome
pub mod Reads
pub mod RoundTrip
pub mod Missing
pub mod Phases
pub mod Interleaved
pub mod Finished
pub mod Race
pub mod Columns
pub mod Suite
use balabox.Base.{
  ℕ, zero, suc, ◌+◌, Bool, false, not, Option, none, some, List, [], ◌∷◌, leb, ◌==◌, if◌then◌else◌,
}
use balabox.Base.Text.{Text, text}
use balabox.Base.Decimal.{atoi}
use balabox.Exec.{Exec, pure, die, demand, ◌>>=◌}
use balabox.Sql.{MySql, Row}
use balabox.Sql

-- EVERS of metadata/src/mysql_helper.hpp
abbrev pub evers : ℕ
evers = 1

-- DBHOST, PORT, USER, PASSWORD and DATABASE of metadata/src/mysql_helper.cc
unfoldable pub dbhost : Text
unfolding text
dbhost = text "127.0.0.1"

abbrev pub port : ℕ
port = 3306

unfoldable pub db_user : Text
unfolding text
db_user = text "cs188"

abbrev pub password : Text
password = []

unfoldable pub database : Text
unfolding text
database = text "test"

-- `row[i]` where it is used as a C string: a null column ends the process.
unfoldable pub column : {S : Type 0} → Row → ℕ → Exec S Text
column [] i = die
column (c ∷ r) zero = demand c
column (c ∷ r) (suc i) = column r i

-- What a SELECT gives: the error number to return, or the rows.
pub data Fetched : Type 0 where
  failed : ℕ → Fetched
  fetched : List Row → Fetched

module _ (M : MySql) where
  unfoldable pub query : Text → Exec M.State Bool
  query stmt s = let (done, s') = M.query stmt s in pure done s'

  unfoldable pub store_result : Exec M.State (Option (List Row))
  store_result s = let (res, s') = M.store_result s in pure res s'

  unfoldable pub errno : Exec M.State ℕ
  errno s = pure (M.errno s) s

  -- mysql_query and mysql_store_result, each with its early return.
  unfoldable pub select : Text → Exec M.State Fetched
  unfolding query store_result errno
  select stmt = do
    done ← query stmt
    if not done then (do e ← errno; pure (failed e)) else do
      res ← store_result
      elim res [ none ↦ do e ← errno; pure (failed e) | some rows ↦ pure (fetched rows) ]

  unfoldable pub init : Exec M.State Bool
  init s = let (made, s') = M.init s in pure made s'

  unfoldable pub real_connect : Text → Text → Text → Text → ℕ → Exec M.State Bool
  real_connect host user pass db p s =
      let (done, s') = M.real_connect host user pass db p s in pure done s'

  -- connect(host, port, db, user, pass)
  unfoldable pub connect_to : Text → ℕ → Text → Text → Text → Exec M.State ℕ
  connect_to host p db user pass = do
    made ← init
    if not made
        then errno
        else do done ← real_connect host user pass db p; if not done then errno else pure 0

  -- connect()
  unfoldable pub connect : Exec M.State ℕ
  connect = connect_to dbhost port database db_user password

  unfoldable pub close : Exec M.State ℕ
  close s = pure 0 (M.close s)

  -- `row && atoi(row[0]) == 0`, for the first row if there is one
  unfoldable pub counts_none : List Row → Exec M.State Bool
  unfolding column
  counts_none [] = pure false
  counts_none (row ∷ rows) = do count ← column row 0; pure (atoi count == 0)

  -- The loop of getMissingBlockHashes, with the code that it returns.
  unfoldable pub missing_loop : List Text → Exec M.State (ℕ × List Text)
  missing_loop [] = pure (0, [])
  missing_loop (hash ∷ hashes) = do
    res ← select (Sql.count_stmt hash)
    elim res [
      | failed e ↦ pure (e, [])
      | fetched rows ↦ do
        absent ← counts_none rows
        (code, missing) ← missing_loop hashes
        pure (code, if absent then hash ∷ missing else missing)
    ]

  -- getMissingBlockHashes. With no hashes `mysql_free_result` is given an indeterminate pointer.
  unfoldable pub get_missing_block_hashes : List Text → Exec M.State (ℕ × List Text)
  get_missing_block_hashes [] = die
  get_missing_block_hashes (hash ∷ hashes) = missing_loop (hash ∷ hashes)

  -- The version check of updateFileData: a file with no row wants version 0, and a file with rows
  -- a version above that of the first row. `int >= unsigned` compares the patterns.
  unfoldable pub is_stale : List Row → ℕ → Exec M.State Bool
  unfolding column
  is_stale [] version = pure (not (version == 0))
  is_stale (row ∷ rows) version = do current ← column row 0; pure (leb version (atoi current))

  -- The loop that inserts block `i` and those after it.
  unfoldable pub insert_loop : Text → Text → ℕ → ℕ → List Text → Exec M.State ℕ
  insert_loop user_id file_name version i [] = pure 0
  insert_loop user_id file_name version i (hash ∷ hashes) = do
    done ← query (Sql.insert_stmt user_id file_name hash i version)
    if not done then errno else insert_loop user_id file_name version (i + 1) hashes

  unfoldable pub update_file_data : Text → Text → List Text → ℕ → Exec M.State ℕ
  update_file_data user_id file_name hashes version = do
    res ← select (Sql.version_stmt user_id file_name)
    elim res [
      | failed e ↦ pure e
      | fetched rows ↦ do
        stale ← is_stale rows version
        if stale then pure evers else do
          done ← query (Sql.delete_stmt user_id file_name)
          if not done then errno else insert_loop user_id file_name version 0 hashes
    ]

  -- A statement that gives no rows: 0, or the error number.
  unfoldable pub command : Text → Exec M.State ℕ
  command stmt = do done ← query stmt; if not done then errno else pure 0

  unfoldable pub remove_file : Text → Text → Exec M.State ℕ
  remove_file user_id file_name = command (Sql.delete_stmt user_id file_name)

  -- The fetch loop of getFileBlockList; the version is that of the last row.
  unfoldable pub blocks_loop : List Row → ℕ → Exec M.State (List Text × ℕ)
  unfolding column
  blocks_loop [] version = pure ([], version)
  blocks_loop (row ∷ rows) version = do
    hash ← column row 0
    number ← column row 1
    (hashes, last) ← blocks_loop rows (atoi number)
    pure (hash ∷ hashes, last)

  -- getFileBlockList: the code, the hashes, and the version, which starts as `version`.
  unfoldable pub get_file_block_list : Text → Text → ℕ → Exec M.State (ℕ × List Text × ℕ)
  get_file_block_list user_id file_name version = do
    res ← select (Sql.blocks_stmt user_id file_name)
    elim res [
      | failed e ↦ pure (e, [], version)
      | fetched rows ↦ do (hashes, last) ← blocks_loop rows version; pure (0, hashes, last)
    ]

  -- The fetch loop of getUserFileNames.
  unfoldable pub names_loop : List Row → Exec M.State (List Text × List Text)
  unfolding column
  names_loop [] = pure ([], [])
  names_loop (row ∷ rows) = do
    name ← column row 0
    version ← column row 1
    (names, versions) ← names_loop rows
    pure (name ∷ names, version ∷ versions)

  unfoldable pub get_user_file_names : Text → Exec M.State (ℕ × List Text × List Text)
  get_user_file_names user_id = do
    res ← select (Sql.files_stmt user_id)
    elim res [
      | failed e ↦ pure (e, [], [])
      | fetched rows ↦ do (names, versions) ← names_loop rows; pure (0, names, versions)
    ]

  -- The fetch loop of getRecentFirstHashes and of getCaches: the first column of each row.
  unfoldable pub first_columns : List Row → Exec M.State (List Text)
  unfolding column
  first_columns [] = pure []
  first_columns (row ∷ rows) = do
    value ← column row 0
    values ← first_columns rows
    pure (value ∷ values)

  unfoldable pub get_column : Text → Exec M.State (ℕ × List Text)
  get_column stmt = do
    res ← select stmt
    elim res [
      | failed e ↦ pure (e, [])
      | fetched rows ↦ do values ← first_columns rows; pure (0, values)
    ]

  unfoldable pub get_recent_first_hashes : Text → ℕ → Exec M.State (ℕ × List Text)
  get_recent_first_hashes user_id max_hashes = get_column (Sql.recent_stmt user_id max_hashes)

  unfoldable pub get_caches : Text → ℕ → Exec M.State (ℕ × List Text)
  get_caches user_id max_caches = get_column (Sql.caches_stmt user_id max_caches)

  unfoldable pub add_cache : Text → Text → Exec M.State ℕ
  add_cache user_id ip = command (Sql.add_cache_stmt user_id ip)

  unfoldable pub remove_cache : Text → Text → Exec M.State ℕ
  remove_cache user_id ip = command (Sql.remove_cache_stmt user_id ip)
