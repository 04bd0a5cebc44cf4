-- ===== src/Tests/Metadata.antt =====
-- The theorems on the metadata helper, at the server in memory.
use balabox.Base.{ℕ, ◌<◌, ◌≡◌, ◌⊎◌, refl, some, [], ◌∷◌, List, keep_if, take, arith}
use balabox.Base.Text.{text_eq}
use mathlib.Core.List.{Perm, map}
use balabox.Sql.Files.{block}
use balabox.Helper.Columns.{get_caches_lem, get_recent_first_hashes_lem}
use balabox.Sql.{FileBlock, UserCache, version_stmt, delete_stmt, insert_stmt}
use balabox.Base.Decimal.{decimal, int_to_str, atoi}
use balabox.Exec.{ok, ◌>>=◌}
use balabox.Sql.Laws.{Tables, IsSql, Ordered, of_user}
use balabox.Sql.Consistent.{rows_of, replaced}
use balabox.Sql.Memory.{Server, memory, spend}
use balabox.Sql.Memory.Parse.{parse, until}
use balabox.Sql.Memory.Lawful.{memory-IsSql}
use balabox.Helper.{
  evers, select, is_stale, insert_loop, update_file_data, get_caches, get_recent_first_hashes,
}
use balabox.Helper.Outcome.{
  rows_of-update_file_data_ne, update_file_data_healthy, update_file_data_error,
}
use balabox.Tests.Data.{
  ann, code_file, other_file, hash_a, hash_b, hashes, server, one_file, ann-IsName, commit,
  one_file-IsConsistent,
}

abbrev L : IsSql memory
L = memory-IsSql

rows_of-update_file_data_ne_example :
    rows_of L.same ann other_file
      (L.tables (update_file_data memory ann code_file hashes 4 (server one_file)).1)
    ≡ rows_of L.same ann other_file one_file
unfolding text_eq
rows_of-update_file_data_ne_example =
    rows_of-update_file_data_ne memory L ann code_file hashes 4 (server one_file)
      (commit 4 (omega arith)) one_file-IsConsistent ann other_file refl

update_file_data_healthy_example :
    ((update_file_data memory ann code_file hashes 3 (server one_file)).0 ≡ ok evers)
    × (L.tables (update_file_data memory ann code_file hashes 3 (server one_file)).1 ≡ one_file)
    × L.Healthy (update_file_data memory ann code_file hashes 3 (server one_file)).1
unfolding text_eq
update_file_data_healthy_example =
    update_file_data_healthy memory L ann code_file hashes 3 (server one_file)
      (commit 3 (omega arith)) one_file-IsConsistent refl

-- The third statement that is an insertion fails, when one of two rows is in.
abbrev breaking : Server
breaking = record (server one_file) { left = some 3 }

breaks : (update_file_data memory ann code_file hashes 4 breaking).0 ≡ ok 1205
unfolding update_file_data text_eq ◌>>=◌ select spend parse version_stmt until is_stale atoi decimal
    delete_stmt insert_loop insert_stmt int_to_str
breaks = refl

update_file_data_error_example :
    (L.tables (update_file_data memory ann code_file hashes 4 breaking).1 ≡ one_file)
    ⊎ ((999 < 1205)
        × (k : ℕ) × (k < 2)
        × (L.tables (update_file_data memory ann code_file hashes 4 breaking).1
            ≡ replaced L.same ann code_file 4 (take k hashes) one_file))
unfolding text_eq
update_file_data_error_example =
    update_file_data_error memory L ann code_file hashes 4 breaking (commit 4 (omega arith))
      one_file-IsConsistent 1205 breaks (omega arith)

abbrev two_caches : Tables
two_caches = record {
  files = block ann other_file 1 1 hash_a ∷ block ann code_file 3 0 hash_b ∷ [];
  caches = record { user_id = ann; cache_server_ip = code_file } ∷ [];
}

get_caches_lem_example :
    ((l : List UserCache) × (s' : Server) × Perm l
        (keep_if (λ c. L.same c.user_id ann) two_caches.caches)
      × (get_caches memory ann 5 (server two_caches)
          ≡ (ok (0, map (λ c. c.cache_server_ip) (take 5 l)), s'))
      × (L.tables s' ≡ two_caches))
    ⊎ ((e : ℕ) × (s' : Server) × (get_caches memory ann 5 (server two_caches) ≡ (ok (e, []), s'))
        × (999 < e)
        × (L.tables s' ≡ two_caches)
        × ¬ (L.Healthy (server two_caches)))
get_caches_lem_example = get_caches_lem memory L ann 5 (server two_caches) ann-IsName (omega arith)

get_recent_first_hashes_lem_example :
    ((l : List FileBlock) × (s' : Server) × Perm l (keep_if (of_user L.same ann) two_caches.files)
      × Ordered l
      × (get_recent_first_hashes memory ann 1 (server two_caches)
          ≡ (ok (0, map (λ r. r.block_hash) (take 1 l)), s'))
      × (L.tables s' ≡ two_caches))
    ⊎ ((e : ℕ) × (s' : Server) × (get_recent_first_hashes memory ann 1 (server two_caches)
          ≡ (ok (e, []), s'))
        × (999 < e)
        × (L.tables s' ≡ two_caches)
        × ¬ (L.Healthy (server two_caches)))
get_recent_first_hashes_lem_example =
    get_recent_first_hashes_lem memory L ann 1 (server two_caches) ann-IsName (omega arith)
