-- ===== src/Tests/Requests.antt =====
-- The theorems on the handlers, at requests of ann's and the server in memory.
use balabox.Base.{◌≡◌, refl, subst, true, false, some, [], ◌∷◌, ◌++◌, length, arith}
use balabox.Base.Text.{Text, text}
use balabox.Base.Decimal.{atoi}
use balabox.Sql.Memory.{memory}
use balabox.Sql.Memory.Lawful.{memory-IsSql}
use balabox.Json.{Json}
use balabox.Util.{get_query_param}
use balabox.Web.{Request, World}
use balabox.Handlers.Keeps.{IsConnection, tables_of}
use balabox.Sql.Consistent.{IsConsistent}
use balabox.Helper.Commit.{IsCommit}
use balabox.Handlers.Commits.{file_commit_of}
use balabox.Handlers.Invariant.{file_commit_of-IsConsistent}
use balabox.Tests.Data.{ann, code_file, hashes, server, one_file, commit, one_file-IsConsistent}

-- A JSON library that keeps no more of a document than its strings.
abbrev strings : Json
strings = record {
  Value = Text;
  null = [];
  of_string = λ s. s;
  of_bool = λ b. [];
  of_int = λ n. [];
  of_uint = λ n. [];
  is_null = λ v. false;
  get_index = λ v i. some v;
  get_member = λ v k. some v;
  member_or = λ v k d. some v;
  set_index = λ v i x. some (v ++ x);
  set_member = λ v k x. some (v ++ x);
  size = λ v. length v;
  as_string = λ v. some v;
  parse = λ t. (true, t);
  write = λ v. v;
}

pub memory-IsConnection : IsConnection memory memory-IsSql
memory-IsConnection = record {
  init_same = λ s. refl;
  connect_same = λ host user pass db p s. refl;
  close_same = λ s. refl;
}

-- "7"
abbrev seven : Text
seven = b'7' ∷ []

abbrev query_string : Text
query_string = text "user_id=ann&file_name=a.c&max_hashes=7"

abbrev request : Request
request = record {
  content_length = some (b'0' ∷ []);
  query_string = some query_string;
  body = [];
  beyond = 0 ∷ [];
}

abbrev pub world : World memory
world = record { db = server one_file; out = [] }

asked_user : get_query_param query_string (text "user_id") ≡ some ann
unfolding get_query_param text
asked_user = refl

asked_file : get_query_param query_string (text "file_name") ≡ some code_file
unfolding get_query_param text
asked_file = refl

asked_number : get_query_param query_string (text "max_hashes") ≡ some seven
unfolding get_query_param text
asked_number = refl

atoi-seven : atoi seven ≡ 7
unfolding atoi
atoi-seven = refl

file_commit_of-IsConsistent_example : IsConsistent memory-IsSql.same (
    tables_of memory memory-IsSql
      (file_commit_of memory strings ann code_file hashes seven world).1)
file_commit_of-IsConsistent_example =
    file_commit_of-IsConsistent memory memory-IsSql strings memory-IsConnection ann code_file seven
      hashes world
      (λ number user name en eu ef.
        let same_number : seven ≡ number = cc in
        let same_user : ann ≡ user = cc in
        let same_name : code_file ≡ name = cc in
        subst (λ n. IsCommit memory memory-IsSql user name hashes (atoi n)) same_number
          (subst (λ u. IsCommit memory memory-IsSql u name hashes (atoi seven)) same_user
            (subst (λ f. IsCommit memory memory-IsSql ann f hashes (atoi seven)) same_name
              (commit (atoi seven) (omega (arith, atoi-seven))))))
      one_file-IsConsistent

-- "9"
abbrev pub nine : Text
nine = b'9' ∷ []

pub atoi-nine : atoi nine ≡ 9
unfolding atoi
atoi-nine = refl

abbrev caches_query : Text
caches_query = text "user_id=ann&max=9"

caches_user : get_query_param caches_query (text "user_id") ≡ some ann
unfolding get_query_param text
caches_user = refl

caches_max : get_query_param caches_query (text "max") ≡ some nine
unfolding get_query_param text
caches_max = refl

abbrev caches_request : Request
caches_request = record request { query_string = some caches_query }
