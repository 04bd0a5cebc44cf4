-- ===== src/Sql/Memory/Lawful.antt =====
-- The server in memory meets the laws.
use mathlib.Core.List.{Perm, Mem, map, mem-map_of_mem}
use mathlib.Core.List.Perm
use mathlib.Core.Option.{some-injective}
use balabox.Base.{
  ℕ, zero, suc, ◌<◌, true, false, ◌≡◌, ◌≢◌, refl, sym, subst, ◌∙◌, inl, inr, Option, none, some,
  List, keep_if, Option-cases, arith,
}
use balabox.Base.Text.{text_eq, text_eq_iff}
use balabox.Sql.{Row}
use balabox.Sql.Laws.{
  Tables, Statement, count_hash, version_of, blocks_of, files_of, recent_of, caches_of, render,
  IsSafe, is_select, effect, Answers, IsCollation, IsSql, file_row, of_user, of_file, version_row,
}
use balabox.Sql.Memory.{Server, answer, spend, memory}
use balabox.Sql.Memory.Parse.{parse, parse-render}
use balabox.Sql.Memory.Sort.{sort, sort-perm, sort-Ordered}

pub text_eq-IsCollation : IsCollation text_eq
text_eq-IsCollation = record {
  same_refl = λ s. (text_eq_iff s s).1 refl;
  same_symm = λ s t e. rw ((text_eq_iff s t).0 e) ((text_eq_iff t t).1 refl);
  same_trans = λ s t r e f. rw ((text_eq_iff s t).0 e) f;
}

-- The answer of each SELECT is one that the laws allow.
pub answer-Answers :
    (st : Statement) (t : Tables) (rows : List Row)
    → is_select st ≡ true
    → answer st t ≡ some rows
    → Answers text_eq st t rows
answer-Answers (count_hash h) t rows sel e = cc
answer-Answers (version_of u f) t rows sel e =
    subst (λ l. Perm l (map version_row (keep_if (of_file text_eq u f) t.files)))
      (some-injective _ _ e) (Perm.refl _)
answer-Answers (blocks_of u f) t rows sel e = (
  sort (keep_if (of_file text_eq u f) t.files),
  sort-perm _,
  sort-Ordered _,
  sym (some-injective _ _ e),
)
answer-Answers (files_of u) t rows sel e = (
  λ row m. subst (Mem row) (sym (some-injective _ _ e)) m,
  λ r m. ∣ (
    r,
    (text_eq_iff r.file_name r.file_name).1 refl,
    refl,
    subst (Mem (file_row r)) (some-injective _ _ e) (mem-map_of_mem file_row m),
  ) ∣₁,
)
answer-Answers (recent_of u n) t rows sel e = (
  sort (keep_if (of_user text_eq u) t.files),
  sort-perm _,
  sort-Ordered _,
  sym (some-injective _ _ e),
)
answer-Answers (caches_of u n) t rows sel e =
    (keep_if (λ c. text_eq c.user_id u) t.caches, Perm.refl _, sym (some-injective _ _ e))
answer-Answers _ t rows sel e = cc

pub sends :
    (st : Statement) (s : Server)
    → IsSafe st
    → memory.query (render st) s ≡ spend s.left (some st) s
unfolding spend parse
sends st s safe = rw (parse-render st safe)

pub spend-true :
    (left : Option ℕ) (st : Statement) (s : Server)
    → (spend left (some st) s).0 ≡ true
    → ((spend left (some st) s).1.tables ≡ effect text_eq st s.tables)
      × ((spend left (some st) s).1.result ≡ answer st s.tables)
unfolding spend
spend-true none st s h = (refl, refl)
spend-true (some zero) st s h = cc
spend-true (some (suc n)) st s h = (refl, refl)

pub spend-false :
    (left : Option ℕ) (st : Statement) (s : Server)
    → (spend left (some st) s).0 ≡ false
    → ((spend left (some st) s).1.tables ≡ s.tables) × (999 < (spend left (some st) s).1.last_error)
unfolding spend
spend-false none st s h = cc
spend-false (some zero) st s h = (refl, omega arith)
spend-false (some (suc n)) st s h = cc

abbrev pub IsHealthy : Server → Type 0
IsHealthy s = s.left ≡ none

pub spend-IsHealthy :
    (left : Option ℕ) (st : Statement) (s : Server)
    → left ≡ none
    → s.left ≡ none
    → ((spend left (some st) s).0 ≡ true) × IsHealthy (spend left (some st) s).1
unfolding spend
spend-IsHealthy left st s e h = rw e (refl, h)

-- A SELECT that was run has rows.
pub select_answer : (st : Statement) (t : Tables) → is_select st ≡ true → answer st t ≢ none
select_answer st t h e = ground arith

pub answer_rows :
    (st : Statement) (t : Tables)
    → is_select st ≡ true
    → (rows : List Row) × (answer st t ≡ some rows)
answer_rows st t h = elim (Option-cases (answer st t)) [
  | inl null ↦ absurd (select_answer st t h null)
  | inr (rows, e) ↦ (rows, e)
]

pub effect_select : (st : Statement) (t : Tables) → is_select st ≡ true → effect text_eq st t ≡ t
effect_select st t h = ground arith

abbrev pub memory-IsSql : IsSql memory
memory-IsSql = record {
  tables = λ s. s.tables;
  same = text_eq;
  collation = text_eq-IsCollation;
  Healthy = IsHealthy;
  query_true = λ st s safe. rw (sends st s safe) (λ h. (spend-true s.left st s h).0);
  query_false = λ st s safe. rw (sends st s safe) (spend-false s.left st s);
  store_some = λ st s rows safe sel. rw (sends st s safe) (λ done found. (
    (spend-true s.left st s done).0 ∙ effect_select st s.tables sel,
    answer-Answers st s.tables rows sel (sym (spend-true s.left st s done).1 ∙ found),
  ));
  store_none = λ st s safe sel. rw (sends st s safe) (λ done null.
      absurd (select_answer st s.tables sel (sym (spend-true s.left st s done).1 ∙ null)));
  query_healthy = λ st s safe h. rw (sends st s safe) (spend-IsHealthy s.left st s h h);
  store_healthy = λ st s safe sel h. rw (sends st s safe) (
      let (rows, e) = answer_rows st s.tables sel in
      (
        rows,
        (spend-true s.left st s (spend-IsHealthy s.left st s h h).0).1 ∙ e,
        (spend-IsHealthy s.left st s h h).1,
      ));
}
