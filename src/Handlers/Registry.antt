-- ===== src/Handlers/Registry.antt =====
-- The handler user_caches changes no table.
use balabox.Base.{◌<◌, Option, none, some, [], ◌≡◌, ◌==◌, refl}
use balabox.Base.Text.{Text, text}
use balabox.Base.Decimal.{atoi, int_half}
use balabox.Exec.Keeps.{Keeps, Keeps-if}
use balabox.Sql.{MySql}
use balabox.Sql.Laws.{IsName, IsSql, caches_of}
use balabox.Helper.{connect, get_caches}
use balabox.Json.{Json}
use balabox.Util.{error_page, no_entry_page, normal_head, get_query_param, or_empty}
use balabox.Web.{Request, World, emit}
use balabox.Handlers.Caches.{user_caches_of, choose_caches, user_caches}
use balabox.Handlers.Keeps.{IsConnection, tables_of, Keeps-connect, Keeps-get_column}
use balabox.Handlers.Reads.{
  Still-with_query, Still-db, Still-emit, Still-page, Still-demand, Still-list, Still-reply,
}

module _ (M : MySql) (L : IsSql M) (J : Json) (c : IsConnection M L) where
  Still-user_caches_of :
      (u n : Text) → IsName u → atoi n < int_half → Keeps (tables_of M L) (user_caches_of M J u n)
  unfolding user_caches_of get_caches
  Still-user_caches_of u n nu lt = Still-db M L (connect M) _ (Keeps-connect M L c) (λ _.
      Still-db M L (get_caches M u (atoi n)) _
        (Keeps-get_column M L (caches_of u (atoi n)) (nu, lt) refl)
        (λ r.
          Keeps-if (tables_of M L) (r.0 == 0) _ (emit M no_entry_page)
            (Still-emit M L normal_head _ (λ _. Still-list M L J c r.1 _ (λ list.
              Still-demand M L (J.set_member J.null (text "caches") list) _ (Still-reply M L J c))))
            (Still-page M L no_entry_page)))

  Still-choose_caches :
      (user max : Option Text)
      → IsName (or_empty user)
      → atoi (or_empty max) < int_half
      → Keeps (tables_of M L) (choose_caches M J user max)
  unfolding choose_caches
  Still-choose_caches none none nu lt = Still-page M L error_page
  Still-choose_caches none (some n) nu lt = Still-user_caches_of [] n nu lt
  Still-choose_caches (some u) max nu lt = Still-user_caches_of u (or_empty max) nu lt

  -- However a request to user_caches ends, the tables stay as they were, if connecting and closing
  -- leave them, and the user of the request, the empty string if it is missing, is a plain name and
  -- the number is not negative.
  pub tables_of-user_caches :
      (r : Request) (w : World M)
      → ((q : Text)
          → r.query_string ≡ some q
          → IsName (or_empty (get_query_param q (text "user_id")))
            × (atoi (or_empty (get_query_param q (text "max"))) < int_half))
      → tables_of M L (user_caches M J r w).1 ≡ tables_of M L w
  unfolding user_caches
  tables_of-user_caches r w good =
      Still-with_query M L r _
        (λ q e.
          let (nu, lt) = good q e in
          Still-choose_caches (get_query_param q (text "user_id")) (get_query_param q (text "max"))
            nu lt)
        w
