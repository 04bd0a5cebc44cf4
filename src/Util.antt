-- ===== src/Util.antt =====
-- metadata/src/fcgi_util.cc: the pages, the query string, and lists as JSON arrays.
pub mod Query
pub mod Params
pub mod Arrays
use balabox.Base.{ℕ, zero, suc, ◌+◌, ◌-◌, Option, none, some, List, [], ◌∷◌, ◌++◌, drop, ◌≡◌, refl}
use balabox.Base.Text.{Text, text, find, find_at, substr}
use balabox.Exec.{Exec, pure, demand, ◌>>=◌}
use balabox.Json.{Json}

-- outputErrorMessage
unfoldable pub error_page : Text
unfolding text
error_page =
    text "Status: 400\r\nContent-type: text/html\r\n\r\n<html><p>400 INVALID INPUT</p></html>\r\n"

-- outputNoEntryMessage
unfoldable pub no_entry_page : Text
unfolding text
no_entry_page =
    text
      "Status: 400\r\nContent-type: text/html\r\n\r\n<html><p>400 NO ENTRY FOR USER</p></html>\r\n"

-- outputNormalMessage
unfoldable pub normal_head : Text
unfolding text
normal_head = text "Content-type: application/json\r\n\r\n"

-- `find("=", pos) + 1`, where `npos + 1` is 0.
unfoldable pub behind : Option ℕ → ℕ
behind none = 0
behind (some i) = i + 1

-- The value from `value_pos` up to the next parameter.
unfoldable pub value_from : Text → ℕ → Text
unfolding find_at substr
value_from query value_pos = elim (find_at (b'&' ∷ []) query value_pos) [
  | none ↦ drop value_pos query
  | some next ↦ substr query value_pos (next - value_pos)
]

-- getQueryParam: `none` for the return code 1, which leaves `value` as it was.
unfoldable pub get_query_param : Text → Text → Option Text
unfolding find find_at behind value_from
get_query_param query param = elim (find (param ++ b'=' ∷ []) query) [
  | none ↦ none
  | some param_pos ↦ some (value_from query (behind (find_at (b'=' ∷ []) query param_pos)))
]

-- A `string` that a failed getQueryParam leaves empty.
abbrev pub or_empty : Option Text → Text
or_empty none = []
or_empty (some s) = s

module _ (J : Json) {S : Type 0} where
  -- stringToJson, from index `i` on
  unfoldable pub string_to_json : ℕ → List Text → J.Value → Exec S J.Value
  string_to_json i [] v = pure v
  string_to_json i (s ∷ more) v = do
    v' ← demand (J.set_index v i (J.of_string s))
    string_to_json (i + 1) more v'

  -- jsonToString, for the `n` elements from index `i` on
  unfoldable pub json_to_string : ℕ → ℕ → J.Value → Exec S (List Text)
  json_to_string zero i v = pure []
  json_to_string (suc n) i v = do
    element ← demand (J.get_index v i)
    s ← demand (J.as_string element)
    more ← json_to_string n (i + 1) v
    pure (s ∷ more)

get_query_param_runs :
    get_query_param (text "user_id=ann&file_name=a.c") (text "file_name") ≡ some (text "a.c")
unfolding get_query_param text
get_query_param_runs = refl

-- The name of a parameter is looked for inside other names too.
get_query_param_inside :
    get_query_param (text "x_user_id=bob&user_id=ann") (text "user_id") ≡ some (text "bob")
unfolding get_query_param text
get_query_param_inside = refl
