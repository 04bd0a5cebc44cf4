-- ===== src/Json.antt =====
-- JsonCpp, which the repository does not hold, as a parameter. Where the library throws, or stops
-- on an assertion, the operation gives `none`.
use balabox.Base.{ℕ, Bool, Option}
use balabox.Base.Text.{Text}

pub record Json : Type 1 where
  pub Value : Type 0
  -- Json::Value()
  pub null : Value
  pub of_string : Text → Value
  pub of_bool : Bool → Value
  -- from an `int`, by its pattern
  pub of_int : ℕ → Value
  -- from an `unsigned int`
  pub of_uint : ℕ → Value
  -- v == Json::Value::null, v.isNull()
  pub is_null : Value → Bool
  -- v[i] and v["key"] where they are read; a missing one is null
  pub get_index : Value → ℕ → Option Value
  pub get_member : Value → Text → Option Value
  -- v.get("key", default), with the default for a missing one
  pub member_or : Value → Text → Value → Option Value
  -- v[i] = w and v["key"] = w, on a null value or one of that kind
  pub set_index : Value → ℕ → Value → Option Value
  pub set_member : Value → Text → Value → Option Value
  pub size : Value → ℕ
  pub as_string : Value → Option Text
  -- Reader::parse(text, root, false): whether it succeeds, and the root
  pub parse : Text → Bool × Value
  -- StyledWriter::write
  pub write : Value → Text
