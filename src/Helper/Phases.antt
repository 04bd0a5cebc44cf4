-- ===== src/Helper/Phases.antt =====
-- updateFileData statement by statement, as another client of the database sees it: each statement
-- runs as a whole, and those of other clients may come between two of them.
use mathlib.Core.List.{Mem, mem-cons}
use mathlib.Core.Logic.Or
use balabox.Base.{
  ℕ, zero, suc, ◌+◌, ◌<◌, ◌≤◌, ◌≡◌, refl, sym, subst, ap, Bool, true, false, Option, none, some,
  List, [], ◌∷◌, ◌++◌, append_assoc, append-nil, length, take, All, arith,
}
use balabox.Base.Text.{Text}
use balabox.Exec.{Result, ok}
use balabox.Sql.{FileBlock, MySql}
use balabox.Sql.Laws.{
  Tables, IsName, IsHash, IsSafe, IsSql, version_of, delete_file, insert_block, effect,
}
use balabox.Base.Decimal.{int_half}
use balabox.Sql.Files.{new_rows}
use balabox.Sql.Consistent.{rows_of, IsConsistent, replaced}
use balabox.Helper.{evers, update_file_data}
use balabox.Helper.Version.{file_version, head_version, accepts}
use balabox.Helper.Commit.{refused, stale, cut_short, done, IsCommit, update_file_data-Committed}

-- The arguments of updateFileData.
pub record Commit : Type 0 where
  pub user_id : Text
  pub file_name : Text
  pub hashes : List Text
  pub version : ℕ

-- Where a call stands: the statement that comes next, or the code that it returned.
pub data Phase : Type 0 where
  checking clearing : Phase
  inserting : ℕ → List Text → Phase
  finished : ℕ → Phase

-- What the first row of the version check can hold: the server may give the rows in any order.
abbrev pub Seen : Option ℕ → List FileBlock → Type 0
Seen none rows = rows ≡ []
Seen (some w) rows = (r : FileBlock) × Mem r rows × (r.version ≡ w)

take-cons :
    (k : ℕ) (hs : List Text)
    → k < length hs
    → (h : Text) × (rest : List Text) × (hs ≡ take k hs ++ h ∷ rest)
take-cons k [] lt = absurd (omega arith)
take-cons zero (h ∷ hs) lt = (h, hs, refl)
take-cons (suc k) (h ∷ hs) lt =
    let (h', rest, split) = take-cons k hs (omega arith) in (h', rest, ap (λ l. h ∷ l) split)

All-take : (k : ℕ) (hs : List Text) → All IsHash hs → All IsHash (take k hs)
All-take zero hs h = tt
All-take (suc k) [] h = tt
All-take (suc k) (s ∷ hs) (hash, h) = (hash, All-take k hs h)

length-take_all : (k : ℕ) (hs : List Text) → length (take k hs) ≤ length hs
length-take_all zero hs = omega arith
length-take_all (suc k) [] = omega arith
length-take_all (suc k) (s ∷ hs) = omega (arith, length-take_all k hs)

module _ (same : Text → Text → Bool) (c : Commit) where
  abbrev pub rows_for : Tables → List FileBlock
  rows_for t = rows_of same c.user_id c.file_name t

  -- The version check reads the rows of this file and compares the version as it is.
  abbrev pub IsChecked : Type 0
  IsChecked = IsSafe (version_of c.user_id c.file_name) × (c.version < int_half)

  -- One statement, or the return behind the last. A statement that runs is one that the server
  -- takes for what it is meant to be.
  pub data Step : Phase → Tables → Phase → Tables → Type 0 where
    check_fails : {t : Tables} {e : ℕ} → 999 < e → Step checking t (finished e) t
    refuse :
        {t : Tables} (w : Option ℕ)
        → IsChecked
        → Seen w (rows_for t)
        → accepts w c.version ≡ false
        → Step checking t (finished evers) t
    accept :
        {t : Tables} (w : Option ℕ)
        → IsChecked
        → Seen w (rows_for t)
        → accepts w c.version ≡ true
        → Step checking t clearing t
    clear_fails : {t : Tables} {e : ℕ} → 999 < e → Step clearing t (finished e) t
    clear :
        {t : Tables}
        → IsSafe (delete_file c.user_id c.file_name)
        → Step clearing t (inserting 0 c.hashes) (effect same (delete_file c.user_id c.file_name) t)
    insert_fails :
        {t : Tables} {e i : ℕ} {h : Text} {hs : List Text}
        → 999 < e
        → Step (inserting i (h ∷ hs)) t (finished e) t
    insert :
        {t : Tables} {i : ℕ} {h : Text} {hs : List Text}
        → IsSafe (insert_block c.user_id c.file_name h i c.version)
        → Step
            (inserting i (h ∷ hs))
            t
            (inserting (i + 1) hs)
            (effect same (insert_block c.user_id c.file_name h i c.version) t)
    finish : {t : Tables} {i : ℕ} → Step (inserting i []) t (finished 0) t

  -- Some steps of one call.
  pub data Steps (p : Phase) (t : Tables) : Phase → Tables → Type 0 where
    none_yet : Steps p t p t
    next : {q r : Phase} {t' t'' : Tables} → Steps p t q t' → Step q t' r t'' → Steps p t r t''

  abbrev pub grow : ℕ → List Text → Tables → Tables
  grow i hs t = record t { files = t.files ++ new_rows c.user_id c.file_name c.version i hs }

  -- The names and the version of the call are stored as they are.
  pub record IsStored : Type 0 where
    pub user : IsName c.user_id
    pub file : IsName c.file_name
    pub version : c.version < int_half

  -- The insertions of the first few blocks that are left.
  pub inserts :
      {p : Phase} {t : Tables} (i : ℕ) (hs rest : List Text) (t' : Tables)
      → IsStored
      → All IsHash hs
      → i + length hs ≤ int_half
      → Steps p t (inserting i (hs ++ rest)) t'
      → Steps p t (inserting (i + length hs) rest) (grow i hs t')
  inserts {p} {t} i [] rest t' stored plain few steps =
      let same_tables : t' ≡ grow i [] t' = rw append-nil in
      let same_count : i ≡ i + 0 = omega arith in
      subst (λ n. Steps p t (inserting n rest) (grow i [] t')) same_count
        (subst (λ t''. Steps p t (inserting i rest) t'') same_tables steps)
  inserts {p} {t} i (h ∷ hs) rest t' stored (hash, plain) few steps =
      let t'' = effect same (insert_block c.user_id c.file_name h i c.version) t' in
      let same_tables : grow (i + 1) hs t'' ≡ grow i (h ∷ hs) t' = rw append_assoc in
      let same_count : i + 1 + length hs ≡ i + length (h ∷ hs) = omega arith in
      subst (λ n. Steps p t (inserting n rest) (grow i (h ∷ hs) t')) same_count
        (subst (λ x. Steps p t (inserting (i + 1 + length hs) rest) x) same_tables
          (inserts (i + 1) hs rest t'' stored plain (omega arith)
            (next steps (insert (stored.user, stored.file, hash, (omega arith), stored.version)))))

module _ (M : MySql) (L : IsSql M) (c : Commit) (s : M.State) where
  abbrev before : Tables
  before = L.tables s

  abbrev updated : Result ℕ × M.State
  updated = update_file_data M c.user_id c.file_name c.hashes c.version s

  abbrev Run : ℕ → Tables → Type 0
  Run e t = Steps L.same c checking before (finished e) t

  module _ (inv : IsConsistent L.same before)
      (commit : IsCommit M L c.user_id c.file_name c.hashes c.version) where
    stored : IsStored L.same c
    stored = record { user = commit.user; file = commit.file; version = commit.version }

    seen : Seen (file_version L.same c.user_id c.file_name before) (rows_for L.same c before)
    seen = go (rows_for L.same c before)
      where
        go : (rows : List FileBlock) → Seen (head_version rows) rows
        go [] = refl
        go (r ∷ rows) = (r, mem-cons.1 (Or.inl refl), refl)

    cleared :
        accepts (file_version L.same c.user_id c.file_name before) c.version ≡ true
        → Steps L.same c checking before
            (inserting 0 c.hashes)
            (effect L.same (delete_file c.user_id c.file_name) before)
    cleared new =
        next
          (next none_yet (
            accept (file_version L.same c.user_id c.file_name before)
              ((commit.user, commit.file), commit.version) seen new))
          (clear (commit.user, commit.file))

    abbrev inserted : List Text → Tables
    inserted hs = replaced L.same c.user_id c.file_name c.version hs before

    cut_run :
        (k : ℕ)
        → k < length c.hashes
        → accepts (file_version L.same c.user_id c.file_name before) c.version ≡ true
        → (i : ℕ) × (h : Text) × (rest : List Text) × Steps L.same c checking before
            (inserting i (h ∷ rest))
            (inserted (take k c.hashes))
    cut_run k lt new =
        let (h, rest, split) = take-cons k c.hashes lt in
        (
          0 + length (take k c.hashes),
          h,
          rest,
          inserts L.same c 0 (take k c.hashes) (h ∷ rest)
              (effect L.same (delete_file c.user_id c.file_name) before) stored
              (All-take k c.hashes commit.blocks)
              (omega (arith, length-take_all k c.hashes, commit.few))
              (subst
                (λ hs.
                  Steps L.same c checking before (inserting 0 hs)
                    (effect L.same (delete_file c.user_id c.file_name) before))
                split (cleared new)),
        )

    all_run :
        accepts (file_version L.same c.user_id c.file_name before) c.version ≡ true
        → Steps L.same c checking before (inserting (0 + length c.hashes) []) (inserted c.hashes)
    all_run new =
        inserts L.same c 0 c.hashes [] (effect L.same (delete_file c.user_id c.file_name) before)
          stored commit.blocks (omega (arith, commit.few))
          (subst
            (λ hs.
              Steps L.same c checking before (inserting 0 hs)
                (effect L.same (delete_file c.user_id c.file_name) before))
            (sym (append-nil c.hashes)) (cleared new))

    -- For a commit of plain names and hashes with a version below 2 ^ 31 on consistent tables,
    -- updateFileData returns a code, and the tables that it leaves are those of a run, statement by
    -- statement, of the version check, the deletion and the insertions, that returns this code.
    pub update_file_data-Steps :
        (e : ℕ) × (updated.0 ≡ ok e)
        × Steps L.same c checking before (finished e) (L.tables updated.1)
    update_file_data-Steps =
        elim (update_file_data-Committed M L c.user_id c.file_name c.hashes c.version s commit
          inv) [
            | refused e s' run high kept _ ↦
                (e, ap (λ r. r.0) run, rw (run, kept) (next none_yet (check_fails high)))
            | stale s' run old kept _ ↦ (
              evers,
              ap (λ r. r.0) run,
              rw (run, kept)
                  (next none_yet (
                    refuse (file_version L.same c.user_id c.file_name before)
                      ((commit.user, commit.file), commit.version) seen old)),
            )
            | cut_short e k s' run high lt new cut _ ↦ (
              e,
              ap (λ r. r.0) run,
              rw (run, cut) (next (cut_run k lt new).3 (insert_fails high)),
            )
            | done s' run new all_in _ ↦
                (0, ap (λ r. r.0) run, rw (run, all_in) (next (all_run new) finish))
          ]
