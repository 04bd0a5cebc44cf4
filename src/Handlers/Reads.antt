-- ===== src/Handlers/Reads.antt =====
-- The handlers that answer a GET request change no table.
use balabox.Base.{ℕ, ◌+◌, ◌<◌, Option, some, List, [], ◌∷◌, ◌≡◌, ◌==◌, refl}
use balabox.Base.Text.{Text, text}
use balabox.Base.Decimal.{atoi, int_half}
use balabox.Exec.{Exec, demand, ◌>>=◌}
use balabox.Exec.Keeps.{
  Keeps, Keeps-pure, Keeps-demand, Keeps-die, Keeps-bind, Keeps-if, Keeps-option,
}
use balabox.Sql.{MySql}
use balabox.Sql.Laws.{IsName, IsSql, recent_of}
use balabox.Helper.{
  connect, close, get_file_block_list, get_user_file_names, get_recent_first_hashes,
}
use balabox.Json.{Json}
use balabox.Util.{error_page, normal_head, get_query_param, string_to_json}
use balabox.Web.{Request, World, emit, on_db, gstdin, stdin_max, response_body}
use balabox.Handlers.Files.{
  with_query, with_params, reply, block_list_of, block_list, file_pairs, file_list_of, file_list,
  recent_hashes_of, recent_hashes,
}
use balabox.Handlers.Keeps.{
  IsConnection, tables_of, Keeps-on_db, Keeps-emit, Keeps-connect, Keeps-close,
  Keeps-string_to_json, Keeps-response_body, Keeps-get_file_block_list, Keeps-get_user_file_names,
  Keeps-get_column,
}

module _ (M : MySql) (L : IsSql M) where
  abbrev Still : {A : Type 0} → Exec (World M) A → Type 0
  Still m = Keeps (tables_of M L) m

  pub Still-page : (t : Text) → Still (emit M t)
  Still-page t = Keeps-emit M L t

  pub Still-db :
      {A B : Type 0} (m : Exec M.State A) (f : A → Exec (World M) B)
      → Keeps L.tables m
      → ((a : A) → Still (f a))
      → Still (on_db M m >>= f)
  Still-db m f km kf = Keeps-bind (tables_of M L) (on_db M m) f (Keeps-on_db M L m km) kf

  pub Still-emit :
      {B : Type 0} (t : Text) (f : Unit {0} → Exec (World M) B)
      → ((a : Unit {0}) → Still (f a))
      → Still (emit M t >>= f)
  Still-emit t f kf = Keeps-bind (tables_of M L) (emit M t) f (Still-page t) kf

  pub Still-demand :
      {A B : Type 0} (o : Option A) (f : A → Exec (World M) B)
      → ((a : A) → Still (f a))
      → Still (demand o >>= f)
  Still-demand o f kf = Keeps-bind (tables_of M L) (demand o) f (Keeps-demand (tables_of M L) o) kf

  pub Still-with_query :
      (r : Request) (handle : Text → Exec (World M) (Unit {0}))
      → ((q : Text) → r.query_string ≡ some q → Still (handle q))
      → Still (with_query M r handle)
  unfolding with_query
  Still-with_query r handle k =
      Keeps-bind (tables_of M L) (response_body r (gstdin stdin_max r)) _
        (Keeps-response_body (tables_of M L) r (gstdin stdin_max r))
        (λ body.
          Keeps-option (tables_of M L) r.query_string (emit M error_page) handle
            (Still-page error_page) k)

  Still-with_params :
      (query p q : Text) (handle : Text → Text → Exec (World M) (Unit {0}))
      → ((a b : Text)
          → get_query_param query p ≡ some a
          → get_query_param query q ≡ some b
          → Still (handle a b))
      → Still (with_params M query p q handle)
  unfolding with_params
  Still-with_params query p q handle k =
      Keeps-option (tables_of M L) (get_query_param query p) (emit M error_page) _
        (Still-page error_page)
        (λ a e.
          Keeps-option (tables_of M L) (get_query_param query q) (emit M error_page) (handle a)
            (Still-page error_page) (λ b e'. k a b e e'))

  module _ (J : Json) (c : IsConnection M L) where
    pub Still-reply : (response : J.Value) → Still (reply M J response)
    unfolding reply
    Still-reply response =
        Keeps-bind (tables_of M L) (on_db M (close M)) _
          (Keeps-on_db M L (close M) (Keeps-close M L c)) (λ _. Still-page (J.write response))

    pub Still-list :
        {B : Type 0} (l : List Text) (f : J.Value → Exec (World M) B)
        → ((v : J.Value) → Still (f v))
        → Still (string_to_json J 0 l J.null >>= f)
    Still-list l f kf =
        Keeps-bind (tables_of M L) (string_to_json J 0 l J.null) f
          (Keeps-string_to_json (tables_of M L) J 0 l J.null) kf

    Still-block_list_of : (u f : Text) → IsName u → IsName f → Still (block_list_of M J u f)
    unfolding block_list_of
    Still-block_list_of u f nu nf = Still-db (connect M) _ (Keeps-connect M L c) (λ connected.
        Keeps-if (tables_of M L) (connected == 0) _ (emit M error_page)
          (Still-db (get_file_block_list M u f 0) _ (Keeps-get_file_block_list M L u f 0 nu nf)
            (λ r.
              Keeps-if (tables_of M L) (r.0 == 0) _ (emit M error_page)
                (Still-emit normal_head _ (λ _. Still-list r.1 _ (λ list.
                  Still-demand (J.set_member J.null (text "block_list") list) _ (λ v.
                    Still-demand (J.set_member v (text "version") (J.of_uint r.2)) _ Still-reply))))
                (Still-page error_page)))
          (Still-page error_page))

    Still-file_pairs :
        (i : ℕ) (names versions : List Text) (files : J.Value)
        → Still (file_pairs M J i names versions files)
    unfolding file_pairs
    Still-file_pairs i [] versions files = Keeps-pure (tables_of M L) files
    Still-file_pairs i (name ∷ names) [] files = Keeps-die (tables_of M L) J.Value
    Still-file_pairs i (name ∷ names) (version ∷ versions) files =
        Still-demand (J.set_index J.null 0 (J.of_string name)) _ (λ pair.
          Still-demand (J.set_index pair 1 (J.of_int (atoi version))) _ (λ pair'.
            Still-demand (J.set_index files i pair') _
              (λ files'. Still-file_pairs (i + 1) names versions files')))

    Still-file_list_of : (u : Text) → IsName u → Still (file_list_of M J u)
    unfolding file_list_of
    Still-file_list_of u nu = Still-db (connect M) _ (Keeps-connect M L c) (λ _.
        Still-db (get_user_file_names M u) _ (Keeps-get_user_file_names M L u nu) (λ r.
          Keeps-if (tables_of M L) (r.0 == 0) _ (emit M error_page)
            (Still-emit normal_head _ (λ _.
              Keeps-bind (tables_of M L) (file_pairs M J 0 r.1 r.2 J.null) _
                (Still-file_pairs 0 r.1 r.2 J.null)
                (λ files. Still-demand (J.set_member J.null (text "files") files) _ Still-reply)))
            (Still-page error_page)))

    Still-recent_hashes_of :
        (u n : Text) → IsName u → atoi n < int_half → Still (recent_hashes_of M J u n)
    unfolding recent_hashes_of get_recent_first_hashes
    Still-recent_hashes_of u n nu lt = Still-db (connect M) _ (Keeps-connect M L c) (λ _.
        Still-db (get_recent_first_hashes M u (atoi n)) _
          (Keeps-get_column M L (recent_of u (atoi n)) (nu, lt) refl)
          (λ r.
            Keeps-if (tables_of M L) (r.0 == 0) _ (emit M error_page)
              (Still-emit normal_head _ (λ _. Still-list r.1 _ (λ list.
                Still-demand (J.set_member J.null (text "block_list") list) _ Still-reply)))
              (Still-page error_page)))

    -- However a request to block_list ends, the tables stay as they were, if connecting and closing
    -- leave them and the parameters of the request are plain names.
    pub tables_of-block_list :
        (r : Request) (w : World M)
        → ((q u f : Text)
            → r.query_string ≡ some q
            → get_query_param q (text "user_id") ≡ some u
            → get_query_param q (text "file_name") ≡ some f
            → IsName u × IsName f)
        → tables_of M L (block_list M J r w).1 ≡ tables_of M L w
    unfolding block_list
    tables_of-block_list r w names =
        Still-with_query r _
          (λ q e.
            Still-with_params q (text "user_id") (text "file_name") (block_list_of M J)
              (λ u f eu ef. let (nu, nf) = names q u f e eu ef in Still-block_list_of u f nu nf))
          w

    -- However a request to file_list ends, the tables stay as they were, if connecting and closing
    -- leave them and the user of the request is a plain name.
    pub tables_of-file_list :
        (r : Request) (w : World M)
        → ((q u : Text)
            → r.query_string ≡ some q
            → get_query_param q (text "user_id") ≡ some u
            → IsName u)
        → tables_of M L (file_list M J r w).1 ≡ tables_of M L w
    unfolding file_list
    tables_of-file_list r w names =
        Still-with_query r _
          (λ q e.
            Keeps-option (tables_of M L) (get_query_param q (text "user_id")) (emit M error_page)
              (file_list_of M J) (Still-page error_page)
              (λ u eu. Still-file_list_of u (names q u e eu)))
          w

    -- However a request to recent_hashes ends, the tables stay as they were, if connecting and
    -- closing leave them, the user of the request is a plain name and the number is not negative.
    pub tables_of-recent_hashes :
        (r : Request) (w : World M)
        → ((q u n : Text)
            → r.query_string ≡ some q
            → get_query_param q (text "user_id") ≡ some u
            → get_query_param q (text "max_hashes") ≡ some n
            → IsName u × (atoi n < int_half))
        → tables_of M L (recent_hashes M J r w).1 ≡ tables_of M L w
    unfolding recent_hashes
    tables_of-recent_hashes r w names =
        Still-with_query r _
          (λ q e.
            Still-with_params q (text "user_id") (text "max_hashes") (recent_hashes_of M J)
              (λ u n eu en. let (nu, lt) = names q u n e eu en in Still-recent_hashes_of u n nu lt))
          w
