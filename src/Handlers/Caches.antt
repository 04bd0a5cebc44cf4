-- ===== src/Handlers/Caches.antt =====
-- metadata/src/user_caches.cc, user_cache_add.cc and user_cache_remove.cc.
use balabox.Base.{Option, none, ◌==◌, if◌then◌else◌}
use balabox.Base.Text.{Text, text}
use balabox.Base.Decimal.{atoi}
use balabox.Exec.{Exec, pure, demand, ◌>>=◌, ◌>>◌}
use balabox.Sql.{MySql}
use balabox.Json.{Json}
use balabox.Helper.{connect, close, get_caches, add_cache, remove_cache}
use balabox.Util.{error_page, no_entry_page, normal_head, get_query_param, or_empty, string_to_json}
use balabox.Web.{Request, World, emit, on_db}
use balabox.Handlers.Files.{with_query, with_params, reply}

module _ (M : MySql) where
  unfoldable pub user_cache_add_of : Text → Text → Exec (World M) (Unit {0})
  user_cache_add_of user_id cache_ip = do
    on_db M (connect M)
    code ← on_db M (add_cache M user_id cache_ip)
    emit M (if code == 0 then normal_head else error_page)
    on_db M (close M)
    pure tt

  unfoldable pub user_cache_add : Request → Exec (World M) (Unit {0})
  user_cache_add r =
      with_query M r
        (λ query. with_params M query (text "user_id") (text "cache_ip") user_cache_add_of)

  unfoldable pub user_cache_remove_of : Text → Text → Exec (World M) (Unit {0})
  user_cache_remove_of user_id cache_ip = do
    on_db M (connect M)
    code ← on_db M (remove_cache M user_id cache_ip)
    emit M (if code == 0 then normal_head else error_page)
    on_db M (close M)
    pure tt

  unfoldable pub user_cache_remove : Request → Exec (World M) (Unit {0})
  user_cache_remove r =
      with_query M r
        (λ query. with_params M query (text "user_id") (text "cache_ip") user_cache_remove_of)

module _ (M : MySql) (J : Json) where
  unfoldable pub user_caches_of : Text → Text → Exec (World M) (Unit {0})
  user_caches_of user_id max = do
    on_db M (connect M)
    (code, addresses) ← on_db M (get_caches M user_id (atoi max))
    if code == 0
        then (do
          emit M normal_head
          list ← string_to_json J 0 addresses J.null
          response ← demand (J.set_member J.null (text "caches") list)
          reply M J response)
        else emit M no_entry_page

  -- The test is `s1 != 0 && s2 != 0`: one parameter that is missing is an empty string.
  unfoldable pub choose_caches : Option Text → Option Text → Exec (World M) (Unit {0})
  choose_caches none none = emit M error_page
  choose_caches user_id max = user_caches_of (or_empty user_id) (or_empty max)

  unfoldable pub user_caches : Request → Exec (World M) (Unit {0})
  unfolding choose_caches
  user_caches r = with_query M r (λ query.
      choose_caches (get_query_param query (text "user_id")) (get_query_param query (text "max")))
