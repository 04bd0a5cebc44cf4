-- ===== src/Tests/Trees.antt =====
-- A JSON library of trees, which meets the laws.
use balabox.Base.{
  ℕ, suc, ◌+◌, ◌<◌, ◌≡◌, refl, sym, ◌∙◌, Bool, true, false, Option, none, some, List, [], ◌∷◌, ◌++◌,
  ◌==◌, if◌then◌else◌, length, arith,
}
use balabox.Base.Text.{Text, text_eq, text_eq_iff}
use balabox.Json.{Json}
use balabox.Util.Arrays.{IsJson}
use balabox.Tests.Database.{text_eq-ne}

pub data Tree : Type 0 where
  null : Tree
  str : Text → Tree
  bool : Bool → Tree
  int uint : ℕ → Tree
  -- an array with one more element, and an object with one more member
  element : Tree → Tree → Tree
  member : Tree → Text → Tree → Tree

unfoldable pub size_of : Tree → ℕ
size_of (element v x) = suc (size_of v)
size_of _ = 0

unfoldable pub element_at : Tree → ℕ → Option Tree
element_at (element v x) i =
    let earlier = element_at v i in if i == size_of v then some x else earlier
element_at _ i = none

unfoldable pub member_at : Tree → Text → Option Tree
member_at (member v k x) j = let earlier = member_at v j in if text_eq k j then some x else earlier
member_at _ j = some null

unfoldable pub string_of : Tree → Option Text
string_of (str s) = some s
string_of _ = none

unfoldable pub is_null_tree : Tree → Bool
is_null_tree null = true
is_null_tree _ = false

abbrev pub trees : Json
trees = record {
  Value = Tree;
  null = null;
  of_string = str;
  of_bool = bool;
  of_int = int;
  of_uint = uint;
  is_null = is_null_tree;
  get_index = element_at;
  get_member = member_at;
  member_or = λ v k d. member_at v k;
  set_index = λ v i x. if i == size_of v then some (element v x) else none;
  set_member = λ v k x. some (member v k x);
  size = size_of;
  as_string = string_of;
  parse = λ t. (true, str t);
  write = λ v. [];
}

unfoldable pub with_elements : Tree → List Tree → Tree
with_elements v [] = v
with_elements v (x ∷ xs) = with_elements (element v x) xs

size-with_elements :
    (v : Tree) (xs : List Tree) → size_of (with_elements v xs) ≡ size_of v + length xs
unfolding with_elements size_of
size-with_elements v [] = omega arith
size-with_elements v (x ∷ xs) = omega (arith, size-with_elements (element v x) xs)

with_elements-last :
    (v x : Tree) (xs : List Tree) → with_elements v (xs ++ x ∷ []) ≡ element (with_elements v xs) x
unfolding with_elements
with_elements-last v x [] = refl
with_elements-last v x (y ∷ xs) = with_elements-last (element v y) x xs

element_at-with_elements :
    (v : Tree) (i : ℕ) (xs : List Tree)
    → i < size_of v
    → element_at (with_elements v xs) i ≡ element_at v i
unfolding with_elements size_of element_at
element_at-with_elements v i [] lt = refl
element_at-with_elements v i (x ∷ xs) lt =
    element_at-with_elements (element v x) i xs (omega arith) ∙ ground arith

element_at-place :
    (v x : Tree) (xs more : List Tree)
    → element_at (with_elements v (xs ++ x ∷ more)) (size_of v + length xs) ≡ some x
unfolding with_elements size_of element_at
element_at-place v x [] more =
    let place : size_of v + 0 ≡ size_of v = omega arith in
    rw place (element_at-with_elements (element v x) (size_of v) more (omega arith) ∙ ground arith)
element_at-place v x (y ∷ xs) more =
    let place : size_of v + suc (length xs) ≡ size_of (element v y) + length xs = omega arith in
    rw place (element_at-place (element v y) x xs more)

abbrev pub IsObject : Tree → Type 0
IsObject null = Unit
IsObject (member v k x) = IsObject v
IsObject _ = ⊥

pub trees-IsJson : IsJson trees
unfolding with_elements size_of element_at member_at string_of
trees-IsJson = record {
  items = with_elements null;
  items-nil = refl;
  size-items = λ xs.
      let start : 0 + length xs ≡ length xs = omega arith in size-with_elements null xs ∙ start;
  get_index-items = λ xs x more.
      let start : length xs ≡ 0 + length xs = omega arith in
      rw start (element_at-place null x xs more);
  set_index-items = λ xs x.
      let place : (length xs == size_of (with_elements null xs)) ≡ true =
        ground (arith, size-with_elements null xs) in
      rw (place, with_elements-last null x xs);
  as_string-of_string = λ s plain. refl;
  IsObject = IsObject;
  null-IsObject = tt;
  set_member-IsObject = λ v k x object. (
    member v k x,
    refl,
    object,
    rw ((text_eq_iff k k).1 refl),
    λ j ne. rw (text_eq-ne k j (λ e. ne (sym e))),
  );
}
