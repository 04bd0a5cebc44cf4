-- ===== src/Handlers/Invariant.antt =====
-- The handler of a commit leaves consistent tables.
use balabox.Base.{ℕ, Option, none, some, List, ◌≡◌, ◌==◌, refl}
use balabox.Base.Text.{Text}
use balabox.Base.Decimal.{atoi}
use balabox.Exec.{Exec, demand, ◌>>=◌}
use balabox.Exec.Keeps.{Keeps, Keeps-demand, Keeps-bind, Keeps-if}
use balabox.Exec.Maintains.{Maintains, Maintains-Keeps, Maintains-bind, Maintains-if}
use balabox.Sql.{MySql}
use balabox.Sql.Laws.{IsSql}
use balabox.Sql.Consistent.{IsConsistent}
use balabox.Helper.{connect, update_file_data}
use balabox.Helper.Commit.{IsCommit}
use balabox.Helper.Outcome.{update_file_data-IsConsistent}
use balabox.Json.{Json}
use balabox.Util.{error_page, normal_head}
use balabox.Web.{World, emit, on_db}
use balabox.Handlers.Commits.{commit_response, file_commit_of}
use balabox.Handlers.Files.{reply}
use balabox.Handlers.Keeps.{IsConnection, tables_of, Keeps-on_db, Keeps-emit, Keeps-connect}
use balabox.Handlers.Reads.{Still-reply}

module _ (M : MySql) (L : IsSql M) (J : Json) (c : IsConnection M L) where
  abbrev Holds : {A : Type 0} → Exec (World M) A → Type 0
  Holds m = Maintains (tables_of M L) (IsConsistent L.same) m

  Holds-Keeps : {A : Type 0} (m : Exec (World M) A) → Keeps (tables_of M L) m → Holds m
  Holds-Keeps m k = Maintains-Keeps (tables_of M L) (IsConsistent L.same) m k

  Keeps-commit_response : (code : ℕ) → Keeps (tables_of M L) (commit_response M J code)
  unfolding commit_response
  Keeps-commit_response code =
      Keeps-if (tables_of M L) (code == 0) _ _
        (Keeps-bind (tables_of M L) (emit M normal_head) _ (Keeps-emit M L normal_head)
          (λ _. Keeps-demand (tables_of M L) _))
        (Keeps-bind (tables_of M L) (emit M error_page) _ (Keeps-emit M L error_page) (λ _.
          Keeps-bind (tables_of M L) (demand _) _ (Keeps-demand (tables_of M L) _)
            (λ response. Keeps-demand (tables_of M L) _)))

  Holds-demand :
      {B : Type 0} (o : Option Text) (f : Text → Exec (World M) B)
      → ((a : Text) → o ≡ some a → Holds (f a))
      → Holds (demand o >>= f)
  unfolding ◌>>=◌
  Holds-demand none f k w h = h
  Holds-demand (some a) f k w h = k a refl w h

  Holds-update_file_data :
      (user name number : Text) (hashes : List Text)
      → IsCommit M L user name hashes (atoi number)
      → Holds (on_db M (update_file_data M user name hashes (atoi number)))
  unfolding on_db
  Holds-update_file_data user name number hashes good w h =
      update_file_data-IsConsistent M L user name hashes (atoi number) w.db good h

  -- However the handler of a commit request goes on from the values of its document, every file in
  -- the tables has one version and block numbers that count up from 0 if it did before: when
  -- connecting and closing leave the tables and the values make a commit that the server stores as
  -- it is.
  pub file_commit_of-IsConsistent :
      (user_id file_name version : J.Value) (hashes : List Text) (w : World M)
      → ((number user name : Text)
          → J.as_string version ≡ some number
          → J.as_string user_id ≡ some user
          → J.as_string file_name ≡ some name
          → IsCommit M L user name hashes (atoi number))
      → IsConsistent L.same (tables_of M L w)
      → IsConsistent L.same
          (tables_of M L (file_commit_of M J user_id file_name hashes version w).1)
  unfolding file_commit_of
  file_commit_of-IsConsistent user_id file_name version hashes w good =
      Maintains-bind (tables_of M L) (IsConsistent L.same) (on_db M (connect M)) _
        (Holds-Keeps (on_db M (connect M)) (Keeps-on_db M L (connect M) (Keeps-connect M L c)))
        (λ connected.
          Maintains-if (tables_of M L) (IsConsistent L.same) (connected == 0) _ _
            (Holds-demand (J.as_string version) _ (λ number en.
              Holds-demand (J.as_string user_id) _ (λ user eu.
                Holds-demand (J.as_string file_name) _ (λ name ef.
                  Maintains-bind (tables_of M L) (IsConsistent L.same)
                    (on_db M (update_file_data M user name hashes (atoi number))) _
                    (Holds-update_file_data user name number hashes
                      (good number user name en eu ef))
                    (λ code. Holds-Keeps (commit_response M J code >>= reply M J) (
                      Keeps-bind (tables_of M L) (commit_response M J code) _
                        (Keeps-commit_response code) (Still-reply M L J c)))))))
            (Holds-Keeps (emit M error_page) (Keeps-emit M L error_page)))
        w
