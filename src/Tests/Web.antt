-- ===== src/Tests/Web.antt =====
-- The theorems on query strings, at a request of ann's.
use balabox.Base.{◌≡◌, some, [], ◌∷◌, arith}
use balabox.Base.Text.{Text, text_eq}
use balabox.Util.{get_query_param}
use balabox.Util.Params.{encode, ends_with, lookup_ending, get_query_param-encode}
use balabox.Tests.Data.{ann, code_file}

-- "id" and "xid"
abbrev id_name : Text
id_name = b'i' ∷ b'd' ∷ []

abbrev longer_name : Text
longer_name = b'x' ∷ id_name

get_query_param-encode_example :
    get_query_param (encode ((longer_name, code_file) ∷ (id_name, ann) ∷ [])) id_name
    ≡ some code_file
unfolding lookup_ending ends_with text_eq
get_query_param-encode_example =
    get_query_param-encode id_name ((longer_name, code_file) ∷ (id_name, ann) ∷ [])
      ((omega arith, omega arith), ((omega arith, omega arith), tt))
      (
        (
          (
            (omega arith, omega arith),
            ((omega arith, omega arith), ((omega arith, omega arith), tt)),
          ),
          (
            (omega arith, omega arith),
            ((omega arith, omega arith), ((omega arith, omega arith), tt)),
          ),
        ),
        (
          (
            ((omega arith, omega arith), ((omega arith, omega arith), tt)),
            (
              (omega arith, omega arith),
              ((omega arith, omega arith), ((omega arith, omega arith), tt)),
            ),
          ),
          tt,
        ),
      )
