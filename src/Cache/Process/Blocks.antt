-- ===== src/Cache/Process/Blocks.antt =====
-- The cache as a map from hashes to blocks, and the requests for it.
use balabox.Base.{
  ℕ, ◌+◌, ◌≤◌, ◌≡◌, ◌≢◌, ap, ◌∙◌, true, inl, inr, Bool-cases, Option, some, if◌then◌else◌, length,
  arith,
}
use balabox.Base.Text.{Text, text_eq, text_eq_iff}
use balabox.Cache.Server.{LevelDb}
use balabox.Cache.Server.Laws.{IsLevelDb, IsKey, put_command, get_command, length-put_command}

pub data Call : Type 0 where
  put_block : Text → Text → Call
  get_block : Text → Call

-- The abstract cache.
abbrev pub Store : Type 0
Store = Text → Option Text

abbrev pub with_block : Text → Text → Store → Store
with_block k v store j = let old = store j in if text_eq k j then some v else old

-- A key without a comma, in a command that fits a buffer.
abbrev pub IsCall : ℕ → Call → Type 0
IsCall m (put_block k v) = IsKey k × (4 + length (put_command k v) ≤ m)
IsCall m (get_block k) = IsKey k × (4 + length (get_command k) ≤ m)

-- The database holds the blocks of the abstract cache, and each fits a buffer.
pub record Holds (D : LevelDb) (m : ℕ) (store : Store) (s : D.State) : Type 0 where
  pub same : (k : Text) → D.get k s ≡ store k
  pub small : (k v : Text) → store k ≡ some v → 4 + length v ≤ m

module _ (D : LevelDb) (m : ℕ) (laws : IsLevelDb D)
    (takes : (k v : Text) (s : D.State) → (D.put k v s).0 ≡ true) where
  pub put-Holds :
      (k v : Text) (store : Store) (s : D.State)
      → 4 + length (put_command k v) ≤ m
      → Holds D m store s
      → Holds D m (with_block k v store) (D.put k v s).1
  put-Holds k v store s fits h = record {
    same = λ j. elim (Bool-cases (text_eq k j)) [
      | inl hit ↦
          let one : k ≡ j = (text_eq_iff k j).0 hit in
          rw (hit, ← one) (laws.get-put_self k v s (takes k v s))
      | inr miss ↦
          let ne : k ≢ j = λ one. let hit : text_eq k j ≡ true = (text_eq_iff k j).1 one in cc in
          rw miss (laws.get-put_ne k j v s ne ∙ h.same j)
    ];
    small = λ j w e. elim (Bool-cases (text_eq k j)) [
      | inl hit ↦
          let held : some v ≡ some w = rw hit at e in
          let one : v ≡ w = cc in omega (arith, length-put_command k v, ap length one)
      | inr miss ↦ let held : store j ≡ some w = rw miss at e in h.small j w held
    ];
  }
