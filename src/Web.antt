-- ===== src/Web.antt =====
-- A FastCGI request as the handlers of metadata/src see it, and `gstdin`, which every one of them
-- begins with. The FastCGI library is what fills the request and takes the output.
pub mod Bounds
use balabox.Base.{ℕ, Option, none, some, List, [], ◌∷◌, ◌++◌, ltb, if◌then◌else◌, length, take}
use balabox.Base.Text.{Text, c_string}
use balabox.Base.Decimal.{strtol}
use balabox.Exec.{Exec, ok, crash, pure, die}
use balabox.Sql.{MySql}

pub record Request : Type 0 where
  -- FCGX_GetParam("CONTENT_LENGTH"), FCGX_GetParam("QUERY_STRING")
  pub content_length : Option Text
  pub query_string : Option Text
  -- what can be read from `cin`
  pub body : Text
  -- the memory behind the bytes that `gstdin` reads: nothing puts a NUL there
  pub beyond : Text

-- STDIN_MAX of metadata/src/fcgi_util.hpp
abbrev pub stdin_max : ℕ
stdin_max = 10000000

-- The number of bytes to read: what cannot be parsed, or is too large, counts as the maximum.
unfoldable pub capped_size : ℕ → ℕ × Text → ℕ
capped_size max (clen, end) =
    let parsed : ℕ = elim end [ [] ↦ clen | c ∷ rest ↦ max ] in
    if ltb max parsed then max else parsed

unfoldable pub read_size : ℕ → Text → ℕ
unfolding capped_size
read_size max clenstr = capped_size max (strtol clenstr)

-- gstdin: the buffer, null without CONTENT_LENGTH, holds the bytes that were read. Their number is
-- what the function returns.
unfoldable pub gstdin : ℕ → Request → Option Text
unfolding read_size
gstdin max r = elim r.content_length [
  | none ↦ none
  | some clenstr ↦ some (take (read_size max clenstr) r.body)
]

unfoldable pub content_size : Option Text → ℕ
content_size none = 0
content_size (some content) = length content

-- `string response_body = content`: a null pointer ends the process, and the string goes on to the
-- first NUL in memory.
unfoldable pub response_body : {S : Type 0} → Request → Option Text → Exec S Text
response_body r none = die
response_body r (some content) = pure (c_string (content ++ r.beyond))

module _ (M : MySql) where
  -- The database, and the output of the request at hand.
  pub record World : Type 0 where
    pub db : M.State
    pub out : Text

  unfoldable pub emit : Text → Exec World (Unit {0})
  emit t w = pure tt (record w { out = w.out ++ t })

  unfoldable pub on_db : {A : Type 0} → Exec M.State A → Exec World A
  on_db m w = let (res, s) = m w.db in (res, record w { db = s })

  -- The accept loop: the answer to each request, until a crash ends the process.
  unfoldable pub serve :
      (Request → Exec World (Unit {0})) → List Request → M.State → List Text × M.State
  serve handle [] s = ([], s)
  serve handle (r ∷ requests) s =
      let (res, w) = handle r (record { db = s; out = [] }) in
      elim res [
        | crash ↦ (w.out ∷ [], w.db)
        | ok _ ↦ let (outs, s') = serve handle requests w.db in (w.out ∷ outs, s')
      ]
