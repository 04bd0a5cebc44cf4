-- ===== src/Tests/Database.antt =====
-- Databases of blocks that are lists: one behind the cache's process, and one in a directory that
-- other processes hold open for some time.
use balabox.Base.{
  ℕ, zero, suc, ◌≡◌, ◌≢◌, refl, ap, Bool, true, false, inl, inr, Option, none, some, List, [], ◌∷◌,
  if◌then◌else◌, Bool-cases,
}
use balabox.Base.Text.{Text, text_eq, text_eq_iff}
use balabox.Cache.Server.{LevelDb}
use balabox.Cache.Server.Laws.{IsLevelDb}
use balabox.Blocks.{Directory}
use balabox.Blocks.Laws.{IsDirectory}

unfoldable pub value_of : Text → List (Text × Text) → Option Text
value_of k [] = none
value_of k ((j, v) ∷ s) = let later = value_of k s in if text_eq j k then some v else later

abbrev pub list_db : LevelDb
list_db = record {
  State = List (Text × Text);
  put = λ k v s. (true, (k, v) ∷ s);
  get = value_of;
  seek = λ k s. s;
}

pub text_eq-ne : (a b : Text) → a ≢ b → text_eq a b ≡ false
text_eq-ne a b ne = elim (Bool-cases (text_eq a b)) [
  | inl same ↦ absurd (ne ((text_eq_iff a b).0 same))
  | inr other ↦ other
]

pub list_db-IsLevelDb : IsLevelDb list_db
unfolding value_of
list_db-IsLevelDb = record {
  get-put_self = λ k v s done. rw ((text_eq_iff k k).1 refl);
  get-put_ne = λ k j v s ne. rw (text_eq-ne k j ne);
  get-put_failed = λ k v s e. cc;
}

-- `busy` is the number of times that opening still fails.
pub record Held : Type 0 where
  pub rows : List (Text × Text)
  pub busy : ℕ

unfoldable pub try_open : Held → Bool × Held
try_open s = elim s.busy [ zero ↦ (true, s) | suc n ↦ (false, record s { busy = n }) ]

abbrev pub held_db : LevelDb
held_db = record {
  State = Held;
  put = λ k v s. (true, record s { rows = (k, v) ∷ s.rows });
  get = λ k s. value_of k s.rows;
  seek = λ k s. s.rows;
}

abbrev pub directory : Directory
directory = record { db = held_db; open_db = λ create s. try_open s }

held_db-IsLevelDb : IsLevelDb held_db
unfolding value_of
held_db-IsLevelDb = record {
  get-put_self = λ k v s done. rw ((text_eq_iff k k).1 refl);
  get-put_ne = λ k j v s ne. rw (text_eq-ne k j ne);
  get-put_failed = λ k v s e. cc;
}

rows-try_open : (s : Held) → (try_open s).1.rows ≡ s.rows
unfolding try_open
rows-try_open s = go s.busy s.rows
  where
    go :
        (n : ℕ) (rows : List (Text × Text))
        → (try_open (record { rows = rows; busy = n })).1.rows ≡ rows
    go zero rows = refl
    go (suc n) rows = refl

pub directory-IsDirectory : IsDirectory directory
directory-IsDirectory = record {
  level_db = held_db-IsLevelDb;
  get-open_db = λ create k s. ap (value_of k) (rows-try_open s);
}
