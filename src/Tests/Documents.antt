-- ===== src/Tests/Documents.antt =====
-- The theorems on documents, at the JSON library of trees.
use balabox.Base.{◌&&◌, ◌≡◌, refl, [], ◌∷◌, ◌++◌, if◌then◌else◌, arith}
use balabox.Base.Text.{Text, text_eq}
use balabox.Base.Decimal.{atoi}
use balabox.Exec.{ok}
use balabox.Sql.Memory.{memory}
use balabox.Sql.Memory.Lawful.{memory-IsSql}
use balabox.Util.{error_page, normal_head, string_to_json, json_to_string}
use balabox.Util.Arrays.{json_to_string-string_to_json}
use balabox.Web.{World}
use balabox.Handlers.Commits.{file_commit_of, block_query_of}
use balabox.Handlers.Deletion.{Deleted, Unlisted, block_list_of-file_delete_of}
use balabox.Sql.Consistent.{rows_of}
use balabox.Handlers.Files.{file_delete_of, block_list_of}
use balabox.Handlers.Service.{IsService, Updated, Blocks, block_list_of-file_commit_of}
use balabox.Handlers.Answers.{Needed, Refused, block_query_of_lem, file_commit_of-stale}
use balabox.Handlers.Keeps.{tables_of}
use balabox.Tests.Data.{
  ann-IsName, code_file-IsName, hash_a, hash_b, hashes-IsHash, one_file, ann, code_file, hashes,
  commit, one_file-IsConsistent,
}
use balabox.Tests.Requests.{memory-IsConnection, world, nine, atoi-nine}
use balabox.Tests.Trees.{Tree, null, str, size_of, string_of, trees, trees-IsJson}

json_to_string-string_to_json_example :
    (v : Tree) × (string_to_json trees 0 hashes null tt ≡ (ok v, tt))
    × (json_to_string trees (size_of v) 0 v tt ≡ (ok hashes, tt))
json_to_string-string_to_json_example =
    json_to_string-string_to_json trees trees-IsJson hashes tt
      ((omega arith, (omega arith, tt)), ((omega arith, (omega arith, tt)), tt))

memory-IsService : IsService memory memory-IsSql
memory-IsService = record {
  connection = memory-IsConnection;
  init_healthy = λ s h. (refl, h);
  connect_healthy = λ host user pass db p s h. (refl, h);
  close_healthy = λ s h. h;
}

block_list_of-file_commit_of_example :
    (w1 w2 : World memory) × (updated listed : Tree) × (file_commit_of memory trees
        (str ann)
        (str code_file)
        hashes
        (str nine)
        world
      ≡ (ok tt, w1))
    × (w1.out ≡ normal_head ++ [])
    × Updated memory trees updated
    × (block_list_of memory trees ann code_file w1 ≡ (ok tt, w2))
    × (w2.out ≡ (w1.out ++ normal_head) ++ [])
    × Blocks memory trees listed hashes (atoi nine)
unfolding text_eq string_of
block_list_of-file_commit_of_example =
    block_list_of-file_commit_of memory memory-IsSql memory-IsService trees trees-IsJson (str ann)
      (str code_file) (str nine) nine ann code_file hashes world refl refl refl
      (commit (atoi nine) (omega (arith, atoi-nine))) one_file-IsConsistent refl (rw atoi-nine)

block_query_of_lem_example :
    (w : World memory) × (doc : Tree) × (block_query_of memory trees hashes world ≡ (ok tt, w))
    × (w.out ≡ [] ++ [])
    × Needed memory trees doc (hash_a ∷ [])
    × (tables_of memory memory-IsSql w ≡ one_file)
unfolding text_eq
block_query_of_lem_example =
    block_query_of_lem memory memory-IsSql memory-IsService trees trees-IsJson hash_a (hash_b ∷ [])
      world hashes-IsHash (omega arith) refl

-- "2"
abbrev two : Text
two = b'2' ∷ []

atoi-two : atoi two ≡ 2
unfolding atoi
atoi-two = refl

file_commit_of-stale_example :
    (w : World memory) × (doc : Tree) × (file_commit_of memory trees
        (str ann)
        (str code_file)
        hashes
        (str two)
        world
      ≡ (ok tt, w))
    × (w.out ≡ error_page ++ [])
    × Refused memory trees doc
    × (tables_of memory memory-IsSql w ≡ one_file)
unfolding text_eq string_of
file_commit_of-stale_example =
    file_commit_of-stale memory memory-IsSql memory-IsService trees trees-IsJson (str ann)
      (str code_file) (str two) two ann code_file hashes world refl refl refl
      (commit (atoi two) (omega (arith, atoi-two))) one_file-IsConsistent refl (rw atoi-two)

block_list_of-file_delete_of_example :
    (w1 w2 : World memory) × (deleted listed : Tree) × (file_delete_of memory trees ann code_file
        world
      ≡ (ok tt, w1))
    × (w1.out ≡ normal_head ++ [])
    × Deleted trees deleted
    × (block_list_of memory trees ann code_file w1 ≡ (ok tt, w2))
    × (w2.out ≡ (w1.out ++ normal_head) ++ [])
    × Unlisted trees listed
    × ((u f : Text)
        → rows_of text_eq u f (tables_of memory memory-IsSql w1)
          ≡ (if text_eq ann u && text_eq code_file f then [] else rows_of text_eq u f one_file))
block_list_of-file_delete_of_example =
    block_list_of-file_delete_of memory memory-IsSql memory-IsService trees trees-IsJson ann
      code_file world ann-IsName code_file-IsName one_file-IsConsistent refl
