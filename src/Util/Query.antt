-- ===== src/Util/Query.antt =====
-- getQueryParam on a query string that is made of parameters.
use mathlib.Core.Option
use mathlib.Core.Option.{some-injective}
use balabox.Base.{
  ℕ, suc, ◌+◌, ◌-◌, ◌≡◌, ◌≢◌, refl, sym, ap, ◌∙◌, inl, inr, true, Option, none, some, [], ◌∷◌, ◌++◌,
  drop, take, length, All, length-append, drop-append, append_assoc, subst, ◌==◌, if◌then◌else◌,
  arith, Bool-cases, Option-cases,
}
use balabox.Base.Text.{Text, is_prefix, find, find_at}
use balabox.Util.{behind, value_from, get_query_param}

-- The bytes before the first '&'.
abbrev pub until_amp : Text → Text
until_amp [] = []
until_amp (c ∷ s) = let rest = until_amp s in if c == b'&' then [] else c ∷ rest

-- What stands behind the first occurrence of a text.
unfoldable pub after : Text → Text → Option Text
after n [] = if is_prefix n [] then some [] else none
after n (c ∷ s) =
    let later = after n s in if is_prefix n (c ∷ s) then some (drop (length n) (c ∷ s)) else later

-- Neither '=' nor '&'.
abbrev pub IsFree : Text → Type 0
IsFree s = All (λ c. (c ≢ b'=') × (c ≢ b'&')) s

is_prefix-append : (n s : Text) → is_prefix n s ≡ true → s ≡ n ++ drop (length n) s
unfolding is_prefix
is_prefix-append [] s h = refl
is_prefix-append (x ∷ n) [] h = cc
is_prefix-append (x ∷ n) (c ∷ s) h = ground (arith, is_prefix-append n s)

Option-map-eq-none {ℓ κ} :
    {A : Type ℓ} {B : Type κ} (f : A → B) (o : Option A) → Option.map f o ≡ none → o ≡ none
Option-map-eq-none f none h = refl
Option-map-eq-none f (some a) h = cc

-- The place that `find` gives, as a split of the text.
record Split (n s : Text) (i : ℕ) : Type 0 where
  before : Text
  rest : Text
  whole : s ≡ before ++ (n ++ rest)
  place : length before ≡ i
  found : after n s ≡ some rest

Option-map-eq-some {ℓ κ} :
    {A : Type ℓ} {B : Type κ} (f : A → B) (o : Option A) {b : B}
    → Option.map f o ≡ some b
    → (a : A) × (o ≡ some a) × (f a ≡ b)
Option-map-eq-some f none h = cc
Option-map-eq-some f (some a) h = (a, refl, some-injective _ _ h)

find-Split : (n s : Text) (i : ℕ) → find n s ≡ some i → Split n s i
unfolding find after
find-Split [] [] i h = record {
  before = [];
  rest = [];
  whole = refl;
  place = some-injective _ _ h;
  found = refl;
}
find-Split (x ∷ n) [] i h = cc
find-Split n (c ∷ s) i h = elim (Bool-cases (is_prefix n (c ∷ s))) [
  | inl here ↦ record {
    before = [];
    rest = drop (length n) (c ∷ s);
    whole = is_prefix-append n (c ∷ s) here;
    place = some-injective _ _ (rw here at h);
    found = rw here;
  }
  | inr later ↦
      let (j, e, step) = Option-map-eq-some suc (find n s) (rw later at h) in
      let tail = find-Split n s j e in
      record {
        before = c ∷ tail.before;
        rest = tail.rest;
        whole = ap (λ l. c ∷ l) tail.whole;
        place = ap suc tail.place ∙ step;
        found = rw later tail.found;
      }
]

find-none : (n s : Text) → find n s ≡ none → after n s ≡ none
unfolding find after
find-none n [] h = ground arith
find-none n (c ∷ s) h = elim (Bool-cases (is_prefix n (c ∷ s))) [
  | inl here ↦ cc (rw here at h)
  | inr later ↦ rw later (find-none n s (Option-map-eq-none suc (find n s) (rw later at h)))
]

find_equals : (k t : Text) → IsFree k → find (b'=' ∷ []) (k ++ b'=' ∷ t) ≡ some (length k)
unfolding find
find_equals [] t h = ground arith
find_equals (c ∷ k) t ((ne, _), h) = ground (arith, find_equals k t h)

until_amp-find :
    (t : Text) → until_amp t ≡ elim (find (b'&' ∷ []) t) [ none ↦ t | some j ↦ take j t ]
unfolding find
until_amp-find [] = ground arith
until_amp-find (c ∷ t) = ground (arith, until_amp-find t)

sub_place : (p j : ℕ) → p + j - p ≡ j
sub_place p j = omega arith

pub value_from-drop : (s t : Text) (p : ℕ) → drop p s ≡ t → value_from s p ≡ until_amp t
unfolding value_from
value_from-drop s t p h = elim (Option-cases (find (b'&' ∷ []) t)) [
  | inl last ↦ rw (until_amp-find t, last, value_from, h, last) h
  | inr (j, e) ↦ rw (until_amp-find t, e, value_from, h, e, sub_place p j) (ap (take j) h)
]

drop_through : (pre k t : Text) → drop (length pre + length k + 1) (pre ++ (k ++ b'=' ∷ t)) ≡ t
drop_through pre k t =
    let size : length pre + length k + 1 ≡ length (pre ++ (k ++ b'=' ∷ [])) =
      omega (arith, length-append pre (k ++ b'=' ∷ []), length-append k (b'=' ∷ [])) in
    let split : pre ++ (k ++ b'=' ∷ t) ≡ (pre ++ (k ++ b'=' ∷ [])) ++ t = simp append_assoc in
    rw (size, split) (drop-append (pre ++ (k ++ b'=' ∷ [])) t)

value_place :
    (pre k t : Text)
    → IsFree k
    → drop
        (behind (find_at (b'=' ∷ []) (pre ++ (k ++ b'=' ∷ t)) (length pre)))
        (pre ++ (k ++ b'=' ∷ t))
      ≡ t
unfolding find_at behind
value_place pre k t free =
    rw (drop-append pre (k ++ b'=' ∷ t), find_equals k t free) (drop_through pre k t)

-- getQueryParam takes what follows the first occurrence of the name and '=', up to the next '&'.
pub get_query_param-after :
    (q k : Text) → IsFree k → get_query_param q k ≡ Option.map until_amp (after (k ++ b'=' ∷ []) q)
unfolding get_query_param
get_query_param-after q k free = elim (Option-cases (find (k ++ b'=' ∷ []) q)) [
  | inl absent ↦ rw (absent, get_query_param, find-none (k ++ b'=' ∷ []) q absent)
  | inr (i, e) ↦
      let sp = find-Split (k ++ b'=' ∷ []) q i e in
      let whole : q ≡ sp.before ++ (k ++ b'=' ∷ sp.rest) =
        sp.whole ∙ ap (λ l. sp.before ++ l) (append_assoc k (b'=' ∷ []) sp.rest) in
      rw (e, get_query_param, sp.found)
        (ap some (
          value_from-drop q sp.rest (behind (find_at (b'=' ∷ []) q i)) (
            subst (λ s. drop (behind (find_at (b'=' ∷ []) s i)) s ≡ sp.rest) (sym whole)
              (subst
                (λ j.
                  drop (behind (find_at (b'=' ∷ []) (sp.before ++ (k ++ b'=' ∷ sp.rest)) j))
                    (sp.before ++ (k ++ b'=' ∷ sp.rest))
                  ≡ sp.rest)
                sp.place (value_place sp.before k sp.rest free)))))
]
