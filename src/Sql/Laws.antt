-- ===== src/Sql/Laws.antt =====
-- What the program relies on of the MySQL server, for the statements that it sends.
use mathlib.Core.List.{Perm, Mem, map}
use balabox.Base.{
  ℕ, ◌<◌, ◌≤◌, Bool, true, false, ◌&&◌, not, ◌≡◌, none, some, List, [], ◌∷◌, ◌++◌, ltb, leb, ◌==◌,
  length, take, keep_if, All,
}
use balabox.Base.Decimal.{decimal, int_half}
use balabox.Base.Text.{Text}
use balabox.Sql.{FileBlock, UserCache, MySql, Row}
use balabox.Sql

pub record Tables : Type 0 where
  pub files : List FileBlock
  pub caches : List UserCache

pub data Statement : Type 0 where
  count_hash : Text → Statement
  version_of : Text → Text → Statement
  delete_file : Text → Text → Statement
  insert_block : Text → Text → Text → ℕ → ℕ → Statement
  blocks_of : Text → Text → Statement
  files_of : Text → Statement
  recent_of : Text → ℕ → Statement
  caches_of : Text → ℕ → Statement
  insert_cache : Text → Text → Statement
  delete_cache : Text → Text → Statement

-- The texts of the source.
abbrev pub render : Statement → Text
render (count_hash h) = Sql.count_stmt h
render (version_of u f) = Sql.version_stmt u f
render (delete_file u f) = Sql.delete_stmt u f
render (insert_block u f h i v) = Sql.insert_stmt u f h i v
render (blocks_of u f) = Sql.blocks_stmt u f
render (files_of u) = Sql.files_stmt u
render (recent_of u n) = Sql.recent_stmt u n
render (caches_of u n) = Sql.caches_stmt u n
render (insert_cache u ip) = Sql.add_cache_stmt u ip
render (delete_cache u ip) = Sql.remove_cache_stmt u ip

-- A byte that an SQL literal holds as it is: printable ASCII, no quote and no backslash.
unfoldable pub is_plain : ℕ → Bool
is_plain c = leb 32 c && ltb c 127 && not (c == 39) && not (c == 92)

-- A name that fits VARCHAR(100) and stands for itself in a literal.
pub record IsName (s : Text) : Type 0 where
  pub plain : All (λ c. is_plain c ≡ true) s
  pub fits : length s ≤ 100

-- A hash that fits CHAR(64), which drops trailing spaces.
pub record IsHash (s : Text) : Type 0 where
  pub plain : All (λ c. is_plain c ≡ true) s
  pub no_space : All (λ c. 32 < c) s
  pub fits : length s ≤ 64

abbrev pub IsSafe : Statement → Type 0
IsSafe (count_hash h) = IsHash h
IsSafe (version_of u f) = IsName u × IsName f
IsSafe (delete_file u f) = IsName u × IsName f
IsSafe (insert_block u f h i v) = IsName u × IsName f × IsHash h × (i < int_half) × (v < int_half)
IsSafe (blocks_of u f) = IsName u × IsName f
IsSafe (files_of u) = IsName u
IsSafe (recent_of u n) = IsName u × (n < int_half)
IsSafe (caches_of u n) = IsName u × (n < int_half)
IsSafe (insert_cache u ip) = IsName u × IsName ip
IsSafe (delete_cache u ip) = IsName u × IsName ip

abbrev pub is_select : Statement → Bool
is_select (count_hash h) = true
is_select (version_of u f) = true
is_select (blocks_of u f) = true
is_select (files_of u) = true
is_select (recent_of u n) = true
is_select (caches_of u n) = true
is_select _ = false

-- The rows in the order of their block numbers.
abbrev pub Ordered : List FileBlock → Type 0
Ordered [] = Unit
Ordered (r ∷ rs) = All (λ q. r.block_number ≤ q.block_number) rs × Ordered rs

abbrev pub version_row : FileBlock → Row
version_row r = some (decimal r.version) ∷ []

abbrev pub block_row : FileBlock → Row
block_row r = some r.block_hash ∷ some (decimal r.version) ∷ []

abbrev pub file_row : FileBlock → Row
file_row r = some r.file_name ∷ some (decimal r.version) ∷ []

abbrev pub hash_row : FileBlock → Row
hash_row r = some r.block_hash ∷ []

abbrev pub cache_row : UserCache → Row
cache_row c = some c.cache_server_ip ∷ []

pub record IsCollation (same : Text → Text → Bool) : Type 0 where
  pub same_refl : (s : Text) → same s s ≡ true
  pub same_symm : (s t : Text) → same s t ≡ true → same t s ≡ true
  pub same_trans : (s t r : Text) → same s t ≡ true → same t r ≡ true → same s r ≡ true

-- `same` is equality under the collation of the server, which may ignore case.
module _ (same : Text → Text → Bool) where
  abbrev pub of_file : Text → Text → FileBlock → Bool
  of_file u f r = same r.user_id u && same r.file_name f

  abbrev pub of_user : Text → FileBlock → Bool
  of_user u r = same r.user_id u

  abbrev pub of_hash : Text → FileBlock → Bool
  of_hash h r = same r.block_hash h

  abbrev pub of_pair : Text → Text → UserCache → Bool
  of_pair u ip c = same c.user_id u && same c.cache_server_ip ip

  -- What a statement does to the tables.
  abbrev pub effect : Statement → Tables → Tables
  effect (delete_file u f) t = record t { files = keep_if (λ r. not (of_file u f r)) t.files }
  effect (insert_block u f h i v) t = record t {
    files =
        t.files
        ++ record { user_id = u; file_name = f; block_hash = h; block_number = i; version = v }
          ∷ [];
  }
  effect (insert_cache u ip) t = record t {
    caches = t.caches ++ record { user_id = u; cache_server_ip = ip } ∷ [];
  }
  effect (delete_cache u ip) t = record t { caches = keep_if (λ c. not (of_pair u ip c)) t.caches }
  effect _ t = t

  -- The rows that a SELECT may give. Where the statement fixes no order, any order may come.
  abbrev pub Answers : Statement → Tables → List Row → Type 0
  Answers (count_hash h) t rows =
      rows ≡ (some (decimal (length (keep_if (of_hash h) t.files))) ∷ []) ∷ []
  Answers (version_of u f) t rows = Perm rows (map version_row (keep_if (of_file u f) t.files))
  Answers (blocks_of u f) t rows =
      (l : List FileBlock) × Perm l (keep_if (of_file u f) t.files)
      × Ordered l
      × (rows ≡ map block_row l)
  Answers (files_of u) t rows =
      ((row : Row) → Mem row rows → Mem row (map file_row (keep_if (of_user u) t.files)))
      × ((r : FileBlock)
          → Mem r (keep_if (of_user u) t.files)
          → ∥ (
              (q : FileBlock) × (same q.file_name r.file_name ≡ true)
              × (q.version ≡ r.version)
              × Mem (file_row q) rows) ∥₁)
  Answers (recent_of u n) t rows =
      (l : List FileBlock) × Perm l (keep_if (of_user u) t.files)
      × Ordered l
      × (rows ≡ map hash_row (take n l))
  Answers (caches_of u n) t rows =
      (l : List UserCache) × Perm l (keep_if (λ c. same c.user_id u) t.caches)
      × (rows ≡ map cache_row (take n l))
  Answers _ t rows = Unit

-- The server runs each such statement as a whole or not at all, a failure has a number of its own
-- above 999, and while the server is healthy no statement fails.
pub record IsSql (M : MySql) : Type 1 where
  pub tables : M.State → Tables
  pub same : Text → Text → Bool
  pub collation : IsCollation same
  pub Healthy : M.State → Type 0
  pub query_true :
      (st : Statement) (s : M.State)
      → IsSafe st
      → (M.query (render st) s).0 ≡ true
      → tables (M.query (render st) s).1 ≡ effect same st (tables s)
  pub query_false :
      (st : Statement) (s : M.State)
      → IsSafe st
      → (M.query (render st) s).0 ≡ false
      → (tables (M.query (render st) s).1 ≡ tables s) × (999 < M.errno (M.query (render st) s).1)
  pub store_some :
      (st : Statement) (s : M.State) (rows : List Row)
      → IsSafe st
      → is_select st ≡ true
      → (M.query (render st) s).0 ≡ true
      → (M.store_result (M.query (render st) s).1).0 ≡ some rows
      → (tables (M.store_result (M.query (render st) s).1).1 ≡ tables s)
        × Answers same st (tables s) rows
  pub store_none :
      (st : Statement) (s : M.State)
      → IsSafe st
      → is_select st ≡ true
      → (M.query (render st) s).0 ≡ true
      → (M.store_result (M.query (render st) s).1).0 ≡ none
      → (tables (M.store_result (M.query (render st) s).1).1 ≡ tables s)
        × (999 < M.errno (M.store_result (M.query (render st) s).1).1)
  pub query_healthy :
      (st : Statement) (s : M.State)
      → IsSafe st
      → Healthy s
      → ((M.query (render st) s).0 ≡ true) × Healthy (M.query (render st) s).1
  pub store_healthy :
      (st : Statement) (s : M.State)
      → IsSafe st
      → is_select st ≡ true
      → Healthy s
      → (rows : List Row) × ((M.store_result (M.query (render st) s).1).0 ≡ some rows)
        × Healthy (M.store_result (M.query (render st) s).1).1
