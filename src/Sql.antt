-- ===== src/Sql.antt =====
-- The metadata database as the program sees it: the tables of metadata/scripts/create.sql, the
-- statement texts that metadata/src/mysql_helper.cc concatenates, and the client library that it
-- sends them to. The library and the server are a parameter.
pub mod Laws
pub mod Files
pub mod Consistent
pub mod Memory
use balabox.Base.{ℕ, Bool, Option, List, ◌++◌}
use balabox.Base.Decimal.{int_to_str}
use balabox.Base.Text.{Text, text}

-- A row of FileBlock, without its time stamp, by which one statement orders rows.
pub record FileBlock : Type 0 where
  pub user_id : Text
  pub file_name : Text
  pub block_hash : Text
  pub block_number : ℕ
  pub version : ℕ

-- A row of UserCache.
pub record UserCache : Type 0 where
  pub user_id : Text
  pub cache_server_ip : Text

-- The client library and the server behind it, with the connection that `m_conn` names.
-- A column of a result row is a `char *`, null for an SQL NULL.
pub record MySql : Type 1 where
  pub State : Type 0
  -- mysql_init(NULL) gives a connection
  pub init : State → Bool × State
  -- mysql_real_connect(m_conn, host, user, password, database, port, NULL, 0) succeeds
  pub real_connect : Text → Text → Text → Text → ℕ → State → Bool × State
  -- mysql_query(m_conn, statement) returns 0
  pub query : Text → State → Bool × State
  -- mysql_store_result(m_conn), with the rows that mysql_fetch_row gives in turn
  pub store_result : State → Option (List (List (Option Text))) × State
  -- mysql_errno(m_conn)
  pub errno : State → ℕ
  -- mysql_close(m_conn)
  pub close : State → State

abbrev pub Row : Type 0
Row = List (Option Text)

unfoldable pub by_file : Text → Text → Text
by_file user_id file_name =
    text " WHERE user_id='" ++ (user_id ++ (text "' AND file_name='" ++ (file_name ++ text "'")))

unfoldable pub count_stmt : Text → Text
count_stmt hash = text "SELECT COUNT(*) FROM FileBlock WHERE block_hash='" ++ (hash ++ text "'")

unfoldable pub version_stmt : Text → Text → Text
unfolding by_file
version_stmt user_id file_name = text "SELECT version FROM FileBlock" ++ by_file user_id file_name

unfoldable pub delete_stmt : Text → Text → Text
unfolding by_file
delete_stmt user_id file_name = text "DELETE FROM FileBlock" ++ by_file user_id file_name

unfoldable pub insert_stmt : Text → Text → Text → ℕ → ℕ → Text
insert_stmt user_id file_name hash i version =
    text "INSERT INTO FileBlock(user_id, file_name, block_hash, block_number, version) VALUES('"
    ++ (user_id
        ++ (text "','"
            ++ (file_name
                ++ (text "','"
                    ++ (hash
                        ++ (text "',"
                            ++ (int_to_str i
                                ++ (text "," ++ (int_to_str version ++ text ")")))))))))

unfoldable pub blocks_stmt : Text → Text → Text
blocks_stmt user_id file_name =
    text "SELECT block_hash,version FROM FileBlock WHERE user_id='"
    ++ (user_id ++ (text "' AND file_name='" ++ (file_name ++ text "' ORDER BY block_number ASC")))

unfoldable pub files_stmt : Text → Text
files_stmt user_id =
    text "SELECT DISTINCT file_name,version FROM FileBlock WHERE user_id='" ++ (user_id ++ text "'")

unfoldable pub recent_stmt : Text → ℕ → Text
recent_stmt user_id max_hashes =
    text "SELECT block_hash FROM FileBlock WHERE user_id='"
    ++ (user_id
        ++ (text "' ORDER BY block_number ASC,time_last_accessed DESC LIMIT "
            ++ int_to_str max_hashes))

unfoldable pub caches_stmt : Text → ℕ → Text
caches_stmt user_id max_caches =
    text "SELECT cache_server_ip FROM UserCache WHERE user_id='"
    ++ (user_id ++ (text "' LIMIT " ++ int_to_str max_caches))

unfoldable pub add_cache_stmt : Text → Text → Text
add_cache_stmt user_id ip =
    text "INSERT INTO UserCache(user_id, cache_server_ip) VALUES('"
    ++ (user_id ++ (text "','" ++ (ip ++ text "')")))

unfoldable pub remove_cache_stmt : Text → Text → Text
remove_cache_stmt user_id ip =
    text "DELETE FROM UserCache WHERE user_id='"
    ++ (user_id ++ (text "' AND cache_server_ip='" ++ (ip ++ text "'")))
