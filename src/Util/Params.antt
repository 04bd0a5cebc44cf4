-- ===== src/Util/Params.antt =====
-- getQueryParam on a query string that is made of names and values.
use mathlib.Core.Option
use balabox.Base.{
  ◌≡◌, refl, ap, ◌∙◌, inl, inr, Bool, true, false, Option, none, some, List, [], ◌∷◌, ◌++◌, drop,
  length, All, drop-append, append_assoc, if◌then◌else◌, arith, Bool-cases,
}
use balabox.Base.Text.{Text, text_eq, text_eq_iff, is_prefix}
use balabox.Util.{get_query_param}
use balabox.Util.Query.{IsFree, until_amp, after, get_query_param-after}

-- A query string made of names and values.
unfoldable pub encode : List (Text × Text) → Text
encode [] = []
encode ((name, value) ∷ []) = name ++ b'=' ∷ value
encode ((name, value) ∷ p ∷ more) = name ++ b'=' ∷ (value ++ b'&' ∷ encode (p ∷ more))

unfoldable pub ends_with : Text → Text → Bool
ends_with k [] = text_eq k []
ends_with k (c ∷ a) = let later = ends_with k a in if text_eq k (c ∷ a) then true else later

-- The value of the first parameter whose name ends with `k`.
unfoldable pub lookup_ending : Text → List (Text × Text) → Option Text
lookup_ending k [] = none
lookup_ending k ((name, value) ∷ more) =
    let later = lookup_ending k more in if ends_with k name then some value else later

is_prefix-name :
    (k a t : Text) → IsFree k → IsFree a → is_prefix (k ++ b'=' ∷ []) (a ++ b'=' ∷ t) ≡ text_eq k a
unfolding is_prefix text_eq
is_prefix-name [] [] t hk ha = ground arith
is_prefix-name [] (c ∷ a) t hk ((ne, _), ha) = ground arith
is_prefix-name (x ∷ k) [] t ((ne, _), hk) ha = ground arith
is_prefix-name (x ∷ k) (c ∷ a) t (_, hk) (_, ha) = ground (arith, is_prefix-name k a t hk ha)

is_prefix-value :
    (k v r : Text) → IsFree k → IsFree v → is_prefix (k ++ b'=' ∷ []) (v ++ b'&' ∷ r) ≡ false
unfolding is_prefix
is_prefix-value [] [] r hk hv = ground arith
is_prefix-value [] (c ∷ v) r hk ((ne, _), hv) = ground arith
is_prefix-value (x ∷ k) [] r ((_, ne), hk) hv = ground arith
is_prefix-value (x ∷ k) (c ∷ v) r (_, hk) (_, hv) = ground (arith, is_prefix-value k v r hk hv)

is_prefix-last : (k v : Text) → IsFree v → is_prefix (k ++ b'=' ∷ []) v ≡ false
unfolding is_prefix
is_prefix-last [] [] hv = refl
is_prefix-last [] (c ∷ v) ((ne, _), hv) = ground arith
is_prefix-last (x ∷ k) [] hv = refl
is_prefix-last (x ∷ k) (c ∷ v) (_, hv) = ground (arith, is_prefix-last k v hv)

drop-name : (k t : Text) → drop (length (k ++ b'=' ∷ [])) (k ++ b'=' ∷ t) ≡ t
drop-name k t =
    let split : k ++ b'=' ∷ t ≡ (k ++ b'=' ∷ []) ++ t = simp append_assoc in
    rw split (drop-append (k ++ b'=' ∷ []) t)

after-name :
    (k a t : Text)
    → IsFree k
    → IsFree a
    → after (k ++ b'=' ∷ []) (a ++ b'=' ∷ t)
      ≡ (if ends_with k a then some t else after (k ++ b'=' ∷ []) t)
unfolding after ends_with
after-name k [] t hk ha = elim (Bool-cases (text_eq k [])) [
  | inl same ↦ rw (is_prefix-name k [] t hk tt, same, (text_eq_iff k []).0 same)
  | inr other ↦ rw (is_prefix-name k [] t hk tt, other)
]
after-name k (c ∷ a) t hk ha = elim (Bool-cases (text_eq k (c ∷ a))) [
  | inl same ↦
      rw (is_prefix-name k (c ∷ a) t hk ha, same)
        (rw ((text_eq_iff k (c ∷ a)).0 same) (ap some (drop-name (c ∷ a) t)))
  | inr other ↦ rw (is_prefix-name k (c ∷ a) t hk ha, other) (after-name k a t hk ha.1)
]

after-value :
    (k v r : Text)
    → IsFree k
    → IsFree v
    → after (k ++ b'=' ∷ []) (v ++ b'&' ∷ r) ≡ after (k ++ b'=' ∷ []) r
unfolding after
after-value k [] r hk hv = rw (is_prefix-value k [] r hk tt)
after-value k (c ∷ v) r hk hv = rw (is_prefix-value k (c ∷ v) r hk hv) (after-value k v r hk hv.1)

after-last : (k v : Text) → IsFree v → after (k ++ b'=' ∷ []) v ≡ none
unfolding after
after-last k [] hv = rw (is_prefix-last k [] tt)
after-last k (c ∷ v) hv = rw (is_prefix-last k (c ∷ v) hv) (after-last k v hv.1)

until_amp-value : (v r : Text) → IsFree v → until_amp (v ++ b'&' ∷ r) ≡ v
until_amp-value [] r h = refl
until_amp-value (c ∷ v) r ((_, ne), h) = ground (arith, until_amp-value v r h)

until_amp-last : (v : Text) → IsFree v → until_amp v ≡ v
until_amp-last [] h = refl
until_amp-last (c ∷ v) ((_, ne), h) = ground (arith, until_amp-last v h)

abbrev pub AreFree : List (Text × Text) → Type 0
AreFree ps = All (λ p. IsFree p.0 × IsFree p.1) ps

after-encode :
    (k : Text) (ps : List (Text × Text))
    → IsFree k
    → AreFree ps
    → Option.map until_amp (after (k ++ b'=' ∷ []) (encode ps)) ≡ lookup_ending k ps
unfolding encode lookup_ending
after-encode k [] hk h = rw (after-last k [] tt)
after-encode k ((a, v) ∷ []) hk ((ha, hv), _) =
    rw (after-name k a v hk ha, after-last k v hv)
      (elim (Bool-cases (ends_with k a)) [
        | inl yes_ends ↦ rw yes_ends (ap some (until_amp-last v hv))
        | inr no_ends ↦ rw no_ends
      ])
after-encode k ((a, v) ∷ p ∷ ps) hk ((ha, hv), h) =
    rw (after-name k a (v ++ b'&' ∷ encode (p ∷ ps)) hk ha, after-value k v (encode (p ∷ ps)) hk hv)
      (elim (Bool-cases (ends_with k a)) [
        | inl yes_ends ↦ rw yes_ends (ap some (until_amp-value v (encode (p ∷ ps)) hv))
        | inr no_ends ↦ rw no_ends (after-encode k (p ∷ ps) hk h)
      ])

-- On a query string of names and values in which '=' and '&' stand only between them, getQueryParam
-- gives the value of the first parameter whose name ends with the name that is asked for, and fails
-- exactly when there is none.
pub get_query_param-encode :
    (k : Text) (ps : List (Text × Text))
    → IsFree k
    → AreFree ps
    → get_query_param (encode ps) k ≡ lookup_ending k ps
get_query_param-encode k ps hk h = get_query_param-after (encode ps) k hk ∙ after-encode k ps hk h
