-- ===== src/Blocks/Safety.antt =====
-- What block_store leaves alone, whatever the request.
use balabox.Base.{
  ℕ, zero, suc, Bool, true, false, Option, none, some, ◌≡◌, ◌≢◌, refl, leb, length, ◌+◌,
}
use balabox.Base.Text.{Text, text, find}
use balabox.Exec.{Exec, pure, die}
use balabox.Exec.Keeps.{Keeps, Keeps-pure, Keeps-die, Keeps-bind, Keeps-if, Keeps-option}
use balabox.Web.{Request}
use balabox.Blocks.{
  Directory, BlockWorld, retry, get_ip_address, get_block_hash, print, on_directory,
}
use balabox.Blocks.Laws.{IsDirectory}
use balabox.Blocks.Store.{
  get_request_body, store_max, store_error, success_page, store_block, block_store_of, block_store,
}

module _ {S V : Type 0} (view : S → V) where
  Keeps-elim :
      {A : Type 0} (b : Bool) (m n : Exec S A)
      → Keeps view m
      → Keeps view n
      → Keeps view (elim b [ true ↦ m | false ↦ n ])
  Keeps-elim true m n km kn = km
  Keeps-elim false m n km kn = kn

  Keeps-retry :
      (n : ℕ) (attempt : S → Bool × S)
      → ((s : S) → view (attempt s).1 ≡ view s)
      → Keeps view (retry n attempt)
  unfolding retry pure
  Keeps-retry zero attempt k = Keeps-die view (Unit {0})
  Keeps-retry (suc n) attempt k =
      Keeps-bind view (λ s. pure (attempt s).0 (attempt s).1) _ k
        (λ done.
          Keeps-elim done (pure tt) (retry n attempt) (Keeps-pure view tt)
            (Keeps-retry n attempt k))

  Keeps-get_ip_address : (eth0 : Text) → Keeps view (get_ip_address eth0)
  unfolding get_ip_address
  Keeps-get_ip_address eth0 =
      Keeps-option view (find (text "inet addr") eth0) (pure none) _ (Keeps-pure view none)
        (λ begin_pos _.
          Keeps-if view (leb (begin_pos + 9 + 1) (length eth0)) _ die (Keeps-pure view _)
            (Keeps-die view (Option Text)))

module _ (D : Directory) (I : IsDirectory D) (fuel : ℕ) (k : Text) where
  abbrev block_of : BlockWorld D → Option Text
  block_of w = D.db.get k w.db

  Keeps-print : (t : Text) → Keeps block_of (print D t)
  unfolding print pure
  Keeps-print t w = refl

  Keeps-on_directory :
      {A : Type 0} (m : Exec D.db.State A)
      → Keeps (D.db.get k) m
      → Keeps block_of (on_directory D m)
  unfolding on_directory
  Keeps-on_directory m h w = h w.db

  Keeps-store_block : (h content : Text) → h ≢ k → Keeps (D.db.get k) (store_block D fuel h content)
  unfolding store_block
  Keeps-store_block h content ne =
      Keeps-bind (D.db.get k) (retry fuel (D.open_db true)) _
        (Keeps-retry (D.db.get k) fuel (D.open_db true) (I.get-open_db true k))
        (λ _.
          Keeps-retry (D.db.get k) fuel (D.db.put h content)
            (λ s. I.level_db.get-put_ne h k content s ne))

  Keeps-block_store_of :
      (eth0 h content : Text) → h ≢ k → Keeps block_of (block_store_of D fuel eth0 h content)
  unfolding block_store_of
  Keeps-block_store_of eth0 h content ne =
      Keeps-bind block_of (on_directory D (store_block D fuel h content)) _
        (Keeps-on_directory (store_block D fuel h content) (Keeps-store_block h content ne))
        (λ _.
          Keeps-bind block_of (get_ip_address eth0) _ (Keeps-get_ip_address block_of eth0)
            (λ address.
              Keeps-option block_of address
                (print D (store_error (text "Unable to retrieve IP address"))) _ (Keeps-print _)
                (λ ip _. Keeps-print (success_page h ip))))

  -- However block_store ends, and whatever the request, the block under a hash other than the one
  -- of the query string is as it was.
  pub block_of-block_store :
      (eth0 : Text) (r : Request) (w : BlockWorld D)
      → ((q h : Text) → r.query_string ≡ some q → get_block_hash q ≡ some h → h ≢ k)
      → D.db.get k (block_store D fuel eth0 r w).1.db ≡ D.db.get k w.db
  unfolding block_store
  block_of-block_store eth0 r w ne =
      Keeps-option block_of r.query_string (print D (store_error (text "No parameters"))) _
        (Keeps-print _)
        (λ q e.
          Keeps-option block_of (get_block_hash q) (print D (store_error (text "Invalid Input")))
            (λ h. block_store_of D fuel eth0 h (get_request_body store_max r)) (Keeps-print _)
            (λ h e'. Keeps-block_store_of eth0 h (get_request_body store_max r) (ne q h e e')))
        w
