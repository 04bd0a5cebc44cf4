-- ===== src/Tests/Data.antt =====
-- The names, hashes and database states that the tests share.
use balabox.Base.{ℕ, ◌<◌, refl, none, List, [], ◌∷◌, All, arith}
use balabox.Base.Text.{Text}
use balabox.Base.Decimal.{int_half}
use balabox.Sql.Laws.{Tables, IsName, IsHash, is_plain}
use balabox.Sql.Consistent.{IsConsistent}
use balabox.Sql.Files.{block}
use balabox.Sql.Memory.{Server, memory}
use balabox.Sql.Memory.Lawful.{memory-IsSql}
use balabox.Helper.Commit.{IsCommit}

-- "ann"
abbrev pub ann : Text
ann = b'a' ∷ b'n' ∷ b'n' ∷ []

-- "a.c"
abbrev pub code_file : Text
code_file = b'a' ∷ b'.' ∷ b'c' ∷ []

-- "b.c"
abbrev pub other_file : Text
other_file = b'b' ∷ b'.' ∷ b'c' ∷ []

-- "e0" and "f1" stand for hashes.
abbrev pub hash_a : Text
hash_a = b'e' ∷ b'0' ∷ []

abbrev pub hash_b : Text
hash_b = b'f' ∷ b'1' ∷ []

abbrev pub hashes : List Text
hashes = hash_a ∷ hash_b ∷ []

abbrev pub server : Tables → Server
server t = record { tables = t; result = none; left = none; last_error = 0 }

abbrev pub empty : Tables
empty = record { files = []; caches = [] }

-- ann's a.c at version 3, with one block.
abbrev pub one_file : Tables
one_file = record { files = block ann code_file 3 0 hash_b ∷ []; caches = [] }

pub ann-IsName : IsName ann
unfolding is_plain
ann-IsName = record { plain = (refl, (refl, (refl, tt))); fits = omega arith }

pub code_file-IsName : IsName code_file
unfolding is_plain
code_file-IsName = record { plain = (refl, (refl, (refl, tt))); fits = omega arith }

pub other_file-IsName : IsName other_file
unfolding is_plain
other_file-IsName = record { plain = (refl, (refl, (refl, tt))); fits = omega arith }

pub hashes-IsHash : All IsHash hashes
unfolding is_plain
hashes-IsHash = (
  record {
    plain = (refl, (refl, tt));
    no_space = (omega arith, (omega arith, tt));
    fits = omega arith;
  },
  (
    record {
      plain = (refl, (refl, tt));
      no_space = (omega arith, (omega arith, tt));
      fits = omega arith;
    },
    tt,
  ),
)

pub commit : (v : ℕ) → v < int_half → IsCommit memory memory-IsSql ann code_file hashes v
commit v lt = record {
  user = ann-IsName;
  file = code_file-IsName;
  blocks = hashes-IsHash;
  version = lt;
  few = omega arith;
}

pub empty-IsConsistent : IsConsistent memory-IsSql.same empty
empty-IsConsistent u f = (0, omega arith, tt)

pub one_file-IsConsistent : IsConsistent memory-IsSql.same one_file
one_file-IsConsistent u f = (3, omega arith, ground arith)
