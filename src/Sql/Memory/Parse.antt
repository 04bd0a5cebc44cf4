-- ===== src/Sql/Memory/Parse.antt =====
-- Reading the statement texts back.
use balabox.Base.{
  ℕ, ◌≡◌, ◌≢◌, true, Option, none, some, List, [], ◌∷◌, ◌++◌, ◌==◌, if◌then◌else◌, All, arith,
}
use balabox.Base.Text.{Text, text}
use balabox.Base.Decimal.{atoi, int_to_str}
use balabox.Base.Decimal.RoundTrip.{atoi-int_to_str, All-int_to_str}
use balabox.Sql
use balabox.Sql.Laws.{
  Statement, count_hash, version_of, delete_file, insert_block, blocks_of, files_of, recent_of,
  caches_of, insert_cache, delete_cache, render, is_plain, IsSafe,
}

infixl 10 ◌>>=◌
abbrev ◌>>=◌ : {A B : Type 0} → Option A → (A → Option B) → Option B
none >>= f = none
some a >>= f = f a

expect : Text → Text → Option Text
expect [] s = some s
expect (x ∷ xs) [] = none
expect (x ∷ xs) (c ∷ s) = if x == c then expect xs s else none

-- The bytes before the first `b`, and those behind it.
unfoldable pub until : ℕ → Text → Option (Text × Text)
until b [] = none
until b (c ∷ s) =
    let rest = until b s in if c == b then some ([], s) else rest >>= λ (u, t). some (c ∷ u, t)

until-append : (b : ℕ) (u t : Text) → All (λ c. c ≢ b) u → until b (u ++ b ∷ t) ≡ some (u, t)
unfolding until
until-append b [] t h = ground arith
until-append b (c ∷ u) t (ne, h) = ground (arith, until-append b u t h)

All-plain : (u : Text) → All (λ c. is_plain c ≡ true) u → All (λ c. c ≢ 39) u
unfolding is_plain
All-plain [] h = tt
All-plain (c ∷ u) (p, h) = (ground arith, All-plain u h)

-- The text behind a prefix, with what reads it.
abbrev Alternative : Type 0
Alternative = Text × (Text → Option Statement)

try_all : Text → List Alternative → Option Statement
unfolding expect
try_all s [] = none
try_all s ((p, k) ∷ more) = elim (expect p s) [ none ↦ try_all s more | some r ↦ k r ]

one_name : (Text → Statement) → Text → Option Statement
one_name f s = do (u, r) ← until 39 s; some (f u)

two_names : Text → (Text → Text → Statement) → Text → Option Statement
unfolding expect
two_names between f s = do
  (u, r) ← until 39 s
  r' ← expect between r
  (n, r'') ← until 39 r'
  some (f u n)

name_and_number : Text → (Text → ℕ → Statement) → Text → Option Statement
unfolding expect
name_and_number between f s = do (u, r) ← until 39 s; r' ← expect between r; some (f u (atoi r'))

block_values : Text → Option Statement
unfolding expect text
block_values s = do
  (u, r) ← until 39 s
  r1 ← expect (text ",'") r
  (f, r2) ← until 39 r1
  r3 ← expect (text ",'") r2
  (h, r4) ← until 39 r3
  r5 ← expect (text ",") r4
  (i, r6) ← until b',' r5
  (v, r7) ← until b')' r6
  some (insert_block u f h (atoi i) (atoi v))

alternatives : List Alternative
unfolding one_name two_names name_and_number block_values text
alternatives =
    (text "SELECT COUNT(*) FROM FileBlock WHERE block_hash='", one_name count_hash)
    ∷ (
      text "SELECT version FROM FileBlock WHERE user_id='",
      two_names (text " AND file_name='") version_of,
    )
    ∷ (
      text "DELETE FROM FileBlock WHERE user_id='",
      two_names (text " AND file_name='") delete_file,
    )
    ∷ (
      text "INSERT INTO FileBlock(user_id, file_name, block_hash, block_number, version) VALUES('",
      block_values,
    )
    ∷ (
      text "SELECT block_hash,version FROM FileBlock WHERE user_id='",
      two_names (text " AND file_name='") blocks_of,
    )
    ∷ (text "SELECT DISTINCT file_name,version FROM FileBlock WHERE user_id='", one_name files_of)
    ∷ (
      text "SELECT block_hash FROM FileBlock WHERE user_id='",
      name_and_number (text " ORDER BY block_number ASC,time_last_accessed DESC LIMIT ") recent_of,
    )
    ∷ (
      text "SELECT cache_server_ip FROM UserCache WHERE user_id='",
      name_and_number (text " LIMIT ") caches_of,
    )
    ∷ (
      text "INSERT INTO UserCache(user_id, cache_server_ip) VALUES('",
      two_names (text ",'") insert_cache,
    )
    ∷ (
      text "DELETE FROM UserCache WHERE user_id='",
      two_names (text " AND cache_server_ip='") delete_cache,
    )
    ∷ []

unfoldable pub parse : Text → Option Statement
unfolding try_all alternatives
parse s = try_all s alternatives

parse-count :
    (h : Text) → IsSafe (count_hash h) → parse (render (count_hash h)) ≡ some (count_hash h)
unfolding parse Sql.count_stmt
parse-count h safe = rw (until-append 39 h [] (All-plain h safe.plain))

parse-insert :
    (u f h : Text) (i v : ℕ)
    → IsSafe (insert_block u f h i v)
    → parse (render (insert_block u f h i v)) ≡ some (insert_block u f h i v)
unfolding parse Sql.insert_stmt
parse-insert u f h i v (nu, nf, nh, li, lv) = rw (
  until-append 39 u _ (All-plain u nu.plain),
  until-append 39 f _ (All-plain f nf.plain),
  until-append 39 h _ (All-plain h nh.plain),
  until-append b',' (int_to_str i) _ (All-int_to_str b',' i (omega arith) li),
  until-append b')' (int_to_str v) [] (All-int_to_str b')' v (omega arith) lv),
  atoi-int_to_str i (omega arith),
  atoi-int_to_str v (omega arith),
)

-- Every statement that the program sends is read back.
pub parse-render : (st : Statement) → IsSafe st → parse (render st) ≡ some st
unfolding parse Sql.version_stmt Sql.delete_stmt Sql.blocks_stmt Sql.files_stmt Sql.recent_stmt
    Sql.caches_stmt Sql.add_cache_stmt Sql.remove_cache_stmt
parse-render (count_hash h) safe = parse-count h safe
parse-render (version_of u f) (nu, nf) =
    rw (until-append 39 u _ (All-plain u nu.plain), until-append 39 f [] (All-plain f nf.plain))
parse-render (delete_file u f) (nu, nf) =
    rw (until-append 39 u _ (All-plain u nu.plain), until-append 39 f [] (All-plain f nf.plain))
parse-render (insert_block u f h i v) safe = parse-insert u f h i v safe
parse-render (blocks_of u f) (nu, nf) =
    rw (until-append 39 u _ (All-plain u nu.plain), until-append 39 f _ (All-plain f nf.plain))
parse-render (files_of u) nu = rw (until-append 39 u [] (All-plain u nu.plain))
parse-render (recent_of u n) (nu, lt) =
    rw (until-append 39 u _ (All-plain u nu.plain), atoi-int_to_str n (omega arith))
parse-render (caches_of u n) (nu, lt) =
    rw (until-append 39 u _ (All-plain u nu.plain), atoi-int_to_str n (omega arith))
parse-render (insert_cache u ip) (nu, ni) =
    rw (until-append 39 u _ (All-plain u nu.plain), until-append 39 ip _ (All-plain ip ni.plain))
parse-render (delete_cache u ip) (nu, ni) =
    rw (until-append 39 u _ (All-plain u nu.plain), until-append 39 ip [] (All-plain ip ni.plain))
