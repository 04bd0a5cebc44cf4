-- ===== src/Handlers/Keeps.antt =====
-- The parts of a handler that leave the tables as they are.
use balabox.Base.{
  ℕ, zero, suc, ◌+◌, true, Option, none, some, List, [], ◌∷◌, ◌≡◌, refl, inl, inr, not,
}
use balabox.Base.Text.{Text}
use balabox.Base.Decimal.{atoi}
use balabox.Exec.{Exec, pure, demand}
use balabox.Exec.Keeps.{Keeps, Keeps-pure, Keeps-demand, Keeps-die, Keeps-bind, Keeps-if}
use balabox.Sql.{MySql, Row}
use balabox.Sql.Laws.{
  Tables, Statement, render, IsSafe, IsName, is_select, IsSql, blocks_of, files_of,
}
use balabox.Helper.{
  Fetched, failed, fetched, column, select, init, real_connect, errno, connect, connect_to, close,
  dbhost, port, db_user, password, database, blocks_loop, names_loop, first_columns, get_column,
  get_file_block_list, get_user_file_names,
}
use balabox.Helper.Steps.{select_lem}
use balabox.Json.{Json}
use balabox.Util.{string_to_json}
use balabox.Web.{Request, World, emit, on_db, response_body}

-- Connecting and closing do not touch the tables.
pub record IsConnection (M : MySql) (L : IsSql M) : Type 0 where
  pub init_same : (s : M.State) → L.tables (M.init s).1 ≡ L.tables s
  pub connect_same :
      (host user pass db : Text) (p : ℕ) (s : M.State)
      → L.tables (M.real_connect host user pass db p s).1 ≡ L.tables s
  pub close_same : (s : M.State) → L.tables (M.close s) ≡ L.tables s

module _ {S V : Type 0} (view : S → V) where
  Keeps-fetched :
      {B : Type 0} (x : Fetched) (f : ℕ → Exec S B) (g : List Row → Exec S B)
      → ((e : ℕ) → Keeps view (f e))
      → ((rows : List Row) → Keeps view (g rows))
      → Keeps view (elim x [ failed e ↦ f e | fetched rows ↦ g rows ])
  Keeps-fetched (failed e) f g kf kg = kf e
  Keeps-fetched (fetched rows) f g kf kg = kg rows

  Keeps-column : (r : Row) (i : ℕ) → Keeps view (column r i)
  unfolding column
  Keeps-column [] i = Keeps-die view Text
  Keeps-column (c ∷ r) zero = Keeps-demand view c
  Keeps-column (c ∷ r) (suc i) = Keeps-column r i

  pub Keeps-string_to_json :
      (J : Json) (i : ℕ) (l : List Text) (v : J.Value) → Keeps view (string_to_json J i l v)
  unfolding string_to_json
  Keeps-string_to_json J i [] v = Keeps-pure view v
  Keeps-string_to_json J i (s ∷ l) v =
      Keeps-bind view (demand (J.set_index v i (J.of_string s))) _
        (Keeps-demand view (J.set_index v i (J.of_string s)))
        (λ v'. Keeps-string_to_json J (i + 1) l v')

  pub Keeps-response_body :
      (r : Request) (content : Option Text) → Keeps view (response_body r content)
  unfolding response_body
  Keeps-response_body r none = Keeps-die view Text
  Keeps-response_body r (some content) = Keeps-pure view _

module _ (M : MySql) (L : IsSql M) where
  Keeps-select :
      (st : Statement) → IsSafe st → is_select st ≡ true → Keeps L.tables (select M (render st))
  Keeps-select st safe sel s = elim (select_lem M L st s safe sel) [
    | inl (e, s', run, same, _, _) ↦ rw run same
    | inr (rows, s', run, same, _, _) ↦ rw run same
  ]

  Keeps-blocks_loop : (rows : List Row) (v : ℕ) → Keeps L.tables (blocks_loop M rows v)
  unfolding blocks_loop
  Keeps-blocks_loop [] v = Keeps-pure L.tables ([], v)
  Keeps-blocks_loop (row ∷ rows) v =
      Keeps-bind L.tables (column row 0) _ (Keeps-column L.tables row 0) (λ hash.
        Keeps-bind L.tables (column row 1) _ (Keeps-column L.tables row 1) (λ number.
          Keeps-bind L.tables (blocks_loop M rows (atoi number)) _
            (Keeps-blocks_loop rows (atoi number)) (λ r. Keeps-pure L.tables _)))

  pub Keeps-get_file_block_list :
      (u f : Text) (v : ℕ) → IsName u → IsName f → Keeps L.tables (get_file_block_list M u f v)
  unfolding get_file_block_list
  Keeps-get_file_block_list u f v nu nf =
      Keeps-bind L.tables (select M (render (blocks_of u f))) _
        (Keeps-select (blocks_of u f) (nu, nf) refl)
        (λ x.
          Keeps-fetched L.tables x _ _ (λ e. Keeps-pure L.tables (e, [], v))
            (λ rows.
              Keeps-bind L.tables (blocks_loop M rows v) _ (Keeps-blocks_loop rows v)
                (λ r. Keeps-pure L.tables _)))

  Keeps-names_loop : (rows : List Row) → Keeps L.tables (names_loop M rows)
  unfolding names_loop
  Keeps-names_loop [] = Keeps-pure L.tables ([], [])
  Keeps-names_loop (row ∷ rows) =
      Keeps-bind L.tables (column row 0) _ (Keeps-column L.tables row 0) (λ name.
        Keeps-bind L.tables (column row 1) _ (Keeps-column L.tables row 1) (λ version.
          Keeps-bind L.tables (names_loop M rows) _ (Keeps-names_loop rows)
            (λ r. Keeps-pure L.tables _)))

  pub Keeps-get_user_file_names : (u : Text) → IsName u → Keeps L.tables (get_user_file_names M u)
  unfolding get_user_file_names
  Keeps-get_user_file_names u nu =
      Keeps-bind L.tables (select M (render (files_of u))) _ (Keeps-select (files_of u) nu refl)
        (λ x.
          Keeps-fetched L.tables x _ _ (λ e. Keeps-pure L.tables (e, [], []))
            (λ rows.
              Keeps-bind L.tables (names_loop M rows) _ (Keeps-names_loop rows)
                (λ r. Keeps-pure L.tables _)))

  Keeps-first_columns : (rows : List Row) → Keeps L.tables (first_columns M rows)
  unfolding first_columns
  Keeps-first_columns [] = Keeps-pure L.tables []
  Keeps-first_columns (row ∷ rows) =
      Keeps-bind L.tables (column row 0) _ (Keeps-column L.tables row 0) (λ value.
        Keeps-bind L.tables (first_columns M rows) _ (Keeps-first_columns rows)
          (λ r. Keeps-pure L.tables _))

  pub Keeps-get_column :
      (st : Statement) → IsSafe st → is_select st ≡ true → Keeps L.tables (get_column M (render st))
  unfolding get_column
  Keeps-get_column st safe sel =
      Keeps-bind L.tables (select M (render st)) _ (Keeps-select st safe sel) (λ x.
        Keeps-fetched L.tables x _ _ (λ e. Keeps-pure L.tables (e, []))
          (λ rows.
            Keeps-bind L.tables (first_columns M rows) _ (Keeps-first_columns rows)
              (λ r. Keeps-pure L.tables _)))

  Keeps-init : IsConnection M L → Keeps L.tables (init M)
  unfolding init pure
  Keeps-init c s = c.init_same s

  Keeps-real_connect :
      IsConnection M L
      → (host user pass db : Text) (p : ℕ) → Keeps L.tables (real_connect M host user pass db p)
  unfolding real_connect pure
  Keeps-real_connect c host user pass db p s = c.connect_same host user pass db p s

  Keeps-errno : Keeps L.tables (errno M)
  unfolding errno pure
  Keeps-errno s = refl

  pub Keeps-connect : IsConnection M L → Keeps L.tables (connect M)
  unfolding connect connect_to
  Keeps-connect c = Keeps-bind L.tables (init M) _ (Keeps-init c) (λ made.
      Keeps-if L.tables (not made) (errno M) _ Keeps-errno (
        Keeps-bind L.tables (real_connect M dbhost db_user password database port) _
          (Keeps-real_connect c dbhost db_user password database port)
          (λ done. Keeps-if L.tables (not done) (errno M) _ Keeps-errno (Keeps-pure L.tables 0))))

  pub Keeps-close : IsConnection M L → Keeps L.tables (close M)
  unfolding close pure
  Keeps-close c s = c.close_same s

  abbrev pub tables_of : World M → Tables
  tables_of w = L.tables w.db

  pub Keeps-on_db :
      {A : Type 0} (m : Exec M.State A) → Keeps L.tables m → Keeps tables_of (on_db M m)
  unfolding on_db
  Keeps-on_db m k w = k w.db

  pub Keeps-emit : (t : Text) → Keeps tables_of (emit M t)
  unfolding emit pure
  Keeps-emit t w = refl
