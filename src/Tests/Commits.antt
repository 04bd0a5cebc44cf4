-- ===== src/Tests/Commits.antt =====
-- The theorems on commits statement by statement, alone and interleaved.
use mathlib.Core.List.{mem-cons}
use mathlib.Core.Logic.Or
use balabox.Base.{ℕ, ◌≡◌, refl, some, none, [], ◌∷◌, ◌++◌, arith}
use balabox.Base.Text.{text_eq}
use balabox.Exec.{ok}
use balabox.Sql.Laws.{Tables, IsHash, IsSql}
use balabox.Sql.Files.{block, new_rows}
use balabox.Sql.Consistent.{rows_of, IsConsistent}
use balabox.Sql.Memory.{memory}
use balabox.Sql.Memory.Lawful.{memory-IsSql}
use balabox.Helper.{update_file_data}
use balabox.Helper.Phases.{
  Commit, checking, finished, Seen, rows_for, accept, clear, insert, finish, Steps,
  update_file_data-Steps,
}
use balabox.Helper.Interleaved.{Reach, start, step_one, step_two, IsApart}
use balabox.Helper.Finished.{Reach-finished}
use balabox.Helper.Race.{commits_race}
use balabox.Tests.Data.{
  ann, code_file, other_file, hash_a, hash_b, hashes, server, one_file, commit,
  one_file-IsConsistent, ann-IsName, code_file-IsName, other_file-IsName, hashes-IsHash,
}

hash_a-IsHash : IsHash hash_a
hash_a-IsHash = hashes-IsHash.0

hash_b-IsHash : IsHash hash_b
hash_b-IsHash = hashes-IsHash.1.0

abbrev L : IsSql memory
L = memory-IsSql

abbrev whole : Commit
whole = record { user_id = ann; file_name = code_file; hashes = hashes; version = 4 }

update_file_data-Steps_example :
    (e : ℕ) × ((update_file_data memory ann code_file hashes 4 (server one_file)).0 ≡ ok e)
    × Steps L.same whole checking one_file
        (finished e)
        (L.tables (update_file_data memory ann code_file hashes 4 (server one_file)).1)
update_file_data-Steps_example =
    update_file_data-Steps memory L whole (server one_file) one_file-IsConsistent
      (commit 4 (omega arith))

abbrev newer : Commit
newer = record { user_id = ann; file_name = code_file; hashes = hash_a ∷ []; version = 4 }

abbrev fresh : Commit
fresh = record { user_id = ann; file_name = other_file; hashes = hash_b ∷ []; version = 0 }

abbrev both_in : Tables
both_in = record {
  files = block ann code_file 4 0 hash_a ∷ block ann other_file 0 0 hash_b ∷ [];
  caches = [];
}

newer-Seen : Seen (some 3) (rows_for L.same newer one_file)
unfolding text_eq
newer-Seen = (block ann code_file 3 0 hash_b, mem-cons.1 (Or.inl refl), refl)

apart : IsApart L.same newer fresh
unfolding text_eq
apart = (refl, refl)

interleaved :
    Reach L.same newer fresh one_file
      (record { one = finished 0; two = finished 0; tables = both_in })
unfolding text_eq
interleaved =
    let checks =
      step_two
        (step_one start
          (accept (some 3) ((ann-IsName, code_file-IsName), omega arith) newer-Seen refl))
        (accept none ((ann-IsName, other_file-IsName), omega arith) refl refl) in
    let clears =
      step_one (step_two checks (clear (ann-IsName, other_file-IsName)))
        (clear (ann-IsName, code_file-IsName)) in
    let inserts =
      step_two
        (step_one clears
          (insert (ann-IsName, code_file-IsName, hash_a-IsHash, omega arith, omega arith)))
        (insert (ann-IsName, other_file-IsName, hash_b-IsHash, omega arith, omega arith)) in
    step_one (step_two inserts finish) finish

Reach-finished_example :
    (rows_for L.same newer both_in ≡ new_rows ann code_file 4 0 (hash_a ∷ []))
    × (rows_for L.same fresh both_in ≡ new_rows ann other_file 0 0 (hash_b ∷ []))
Reach-finished_example =
    Reach-finished L.same L.collation newer fresh one_file both_in apart interleaved

abbrev rival : Commit
rival = record { user_id = ann; file_name = code_file; hashes = hash_b ∷ []; version = 4 }

commits_race_example :
    (t : Tables) × Reach L.same newer rival one_file
      (record { one = finished 0; two = finished 0; tables = t })
    × (rows_of L.same ann code_file t
        ≡ new_rows ann code_file 4 0 (hash_a ∷ []) ++ new_rows ann code_file 4 0 (hash_b ∷ []))
    × ¬ (IsConsistent L.same t)
commits_race_example =
    commits_race L.same L.collation ann code_file hash_a hash_b [] [] 4 4 one_file (some 3)
      ann-IsName code_file-IsName (omega arith, omega arith)
      ((hash_a-IsHash, tt), (hash_b-IsHash, tt)) (omega arith, omega arith) newer-Seen refl refl
