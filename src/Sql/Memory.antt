-- ===== src/Sql/Memory.antt =====
-- A server that keeps the tables in memory and reads the statement texts back. It shows that the
-- laws of the server can be met, and the tests run on it. It can be told to fail after a number of
-- statements.
pub mod Parse
pub mod Sort
pub mod Lawful
use mathlib.Core.List.{map}
use balabox.Base.{
  ℕ, zero, suc, Bool, true, false, ◌&&◌, Option, none, some, List, [], ◌∷◌, length, take, keep_if,
}
use balabox.Base.Text.{Text, text_eq}
use balabox.Base.Decimal.{decimal}
use balabox.Sql.{MySql, Row}
use balabox.Sql.Laws.{
  Tables, Statement, count_hash, version_of, blocks_of, files_of, recent_of, caches_of, effect,
  of_file, of_user, of_hash, version_row, block_row, file_row, hash_row, cache_row,
}
use balabox.Sql.Memory.Parse.{parse}
use balabox.Sql.Memory.Sort.{sort}

-- `left` is the number of statements before one fails, if one is to fail.
pub record Server : Type 0 where
  pub tables : Tables
  pub result : Option (List Row)
  pub left : Option ℕ
  pub last_error : ℕ

abbrev pub answer : Statement → Tables → Option (List Row)
answer (count_hash h) t =
    some ((some (decimal (length (keep_if (of_hash text_eq h) t.files))) ∷ []) ∷ [])
answer (version_of u f) t = some (map version_row (keep_if (of_file text_eq u f) t.files))
answer (blocks_of u f) t = some (map block_row (sort (keep_if (of_file text_eq u f) t.files)))
answer (files_of u) t = some (map file_row (keep_if (of_user text_eq u) t.files))
answer (recent_of u n) t = some (map hash_row (take n (sort (keep_if (of_user text_eq u) t.files))))
answer (caches_of u n) t =
    some (map cache_row (take n (keep_if (λ c. text_eq c.user_id u) t.caches)))
answer _ t = none

unfoldable pub refuse : Server → Bool × Server
refuse s = (false, record s { last_error = 1205 })

unfoldable pub perform : Option Statement → Server → Bool × Server
unfolding refuse
perform none s = refuse s
perform (some st) s =
    (true, record s { tables = effect text_eq st s.tables; result = answer st s.tables })

unfoldable pub spend : Option ℕ → Option Statement → Server → Bool × Server
unfolding perform
spend none st s = perform st s
spend (some zero) st s = refuse s
spend (some (suc n)) st s = perform st (record s { left = some n })

abbrev pub memory : MySql
memory = record {
  State = Server;
  init = λ s. (true, s);
  real_connect = λ host user pass db port s. (true, s);
  query = λ stmt s. spend s.left (parse stmt) s;
  store_result = λ s. (s.result, s);
  errno = λ s. s.last_error;
  close = λ s. s;
}
