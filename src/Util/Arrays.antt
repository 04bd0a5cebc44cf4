-- ===== src/Util/Arrays.antt =====
-- stringToJson and jsonToString under the laws of the JSON library.
use balabox.Base.{
  suc, ◌+◌, ◌≡◌, ◌≢◌, refl, subst, ap, ◌∙◌, some, List, [], ◌∷◌, ◌++◌, append_assoc, append-nil,
  length, length-append, All, arith,
}
use balabox.Base.Text.{Text}
use balabox.Exec.{ok, ◌>>=◌}
use balabox.Json.{Json}
use balabox.Util.{string_to_json, json_to_string}

-- A string that is held whole: it has no NUL.
abbrev pub IsString : Text → Type 0
IsString s = All (λ c. c ≢ 0) s

-- What the program relies on of JsonCpp, for arrays and objects that are built up from null.
pub record IsJson (J : Json) : Type 1 where
  -- null for no elements, and else the array of them
  pub items : List J.Value → J.Value
  pub items-nil : items [] ≡ J.null
  pub size-items : (vs : List J.Value) → J.size (items vs) ≡ length vs
  pub get_index-items :
      (vs : List J.Value) (v : J.Value) (more : List J.Value)
      → J.get_index (items (vs ++ v ∷ more)) (length vs) ≡ some v
  pub set_index-items :
      (vs : List J.Value) (v : J.Value)
      → J.set_index (items vs) (length vs) v ≡ some (items (vs ++ v ∷ []))
  pub as_string-of_string : (s : Text) → IsString s → J.as_string (J.of_string s) ≡ some s
  -- null, or an object
  pub IsObject : J.Value → Type 0
  pub null-IsObject : IsObject J.null
  pub set_member-IsObject :
      (v : J.Value) (k : Text) (x : J.Value)
      → IsObject v
      → (o : J.Value) × (J.set_member v k x ≡ some o)
        × IsObject o
        × (J.get_member o k ≡ some x)
        × ((j : Text) → j ≢ k → J.get_member o j ≡ J.get_member v j)

module _ (J : Json) where
  abbrev pub strings : List Text → List J.Value
  strings [] = []
  strings (s ∷ more) = J.of_string s ∷ strings more

  length-strings : (l : List Text) → length (strings l) ≡ length l
  length-strings [] = refl
  length-strings (s ∷ l) = ap suc (length-strings l)

module _ (J : Json) (L : IsJson J) {S : Type 0} where
  string_to_json-items :
      (vs : List J.Value) (l : List Text) (s : S)
      → string_to_json J (length vs) l (L.items vs) s ≡ (ok (L.items (vs ++ strings J l)), s)
  unfolding string_to_json ◌>>=◌
  string_to_json-items vs [] s = rw append-nil
  string_to_json-items vs (t ∷ l) s =
      let count : length vs + 1 ≡ length (vs ++ J.of_string t ∷ []) =
        omega (arith, length-append vs (J.of_string t ∷ [])) in
      let split : (vs ++ J.of_string t ∷ []) ++ strings J l ≡ vs ++ strings J (t ∷ l) =
        append_assoc vs (J.of_string t ∷ []) (strings J l) in
      rw (L.set_index-items vs (J.of_string t), count)
        (string_to_json-items (vs ++ J.of_string t ∷ []) l s ∙ ap (λ v. (ok (L.items v), s)) split)

  pub string_to_json_lem :
      (l : List Text) (s : S) → string_to_json J 0 l J.null s ≡ (ok (L.items (strings J l)), s)
  string_to_json_lem l s =
      subst (λ v. string_to_json J 0 l v s ≡ (ok (L.items (strings J l)), s)) L.items-nil
        (string_to_json-items [] l s)

  json_to_string-items :
      (vs : List J.Value) (l : List Text) (s : S)
      → All IsString l
      → json_to_string J (length l) (length vs) (L.items (vs ++ strings J l)) s ≡ (ok l, s)
  unfolding json_to_string ◌>>=◌
  json_to_string-items vs [] s h = refl
  json_to_string-items vs (t ∷ l) s (plain, h) =
      let count : length vs + 1 ≡ length (vs ++ J.of_string t ∷ []) =
        omega (arith, length-append vs (J.of_string t ∷ [])) in
      let split : (vs ++ J.of_string t ∷ []) ++ strings J l ≡ vs ++ strings J (t ∷ l) =
        append_assoc vs (J.of_string t ∷ []) (strings J l) in
      rw
        (
          L.get_index-items vs (J.of_string t) (strings J l),
          L.as_string-of_string t plain,
          count,
          ← split,
        )
        (rw (json_to_string-items (vs ++ J.of_string t ∷ []) l s h))

  pub json_to_string-strings :
      (l : List Text) (s : S)
      → All IsString l
      → json_to_string J (J.size (L.items (strings J l))) 0 (L.items (strings J l)) s ≡ (ok l, s)
  json_to_string-strings l s h =
      rw (L.size-items (strings J l), length-strings J l) (json_to_string-items [] l s h)

  -- What stringToJson makes of a list of strings without NUL, jsonToString reads back as the same
  -- list, if the JSON library meets IsJson.
  pub json_to_string-string_to_json :
      (l : List Text) (s : S)
      → All IsString l
      → (v : J.Value) × (string_to_json J 0 l J.null s ≡ (ok v, s))
        × (json_to_string J (J.size v) 0 v s ≡ (ok l, s))
  json_to_string-string_to_json l s h =
      (L.items (strings J l), string_to_json_lem l s, json_to_string-strings l s h)
