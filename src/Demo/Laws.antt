-- ===== src/Demo/Laws.antt =====
-- What read.cc gives of what write.cc stored, and why the assertions of leveldb_helper_test.cc hold.
use balabox.Base.{
  ℕ, ◌≡◌, ◌≢◌, ap, ◌∙◌, true, Option, none, some, [], ◌∷◌, ◌++◌, length, append_assoc, append-nil,
  arith,
}
use balabox.Base.Text.{Text, text, text_eq}
use balabox.Exec.{ok, ◌>>=◌}
use balabox.Cache.Server.{LevelDb, db_put, db_get}
use balabox.Cache.Server.Laws.{IsLevelDb, IsKey, length-put_command, length-get_command}
use balabox.Cache.Client.{Network, failed}
use balabox.Cache.Client.Laws.{IsNetwork, IsSized, helper_put_lem, helper_get_lem}
use balabox.Demo.{
  read_chars, read_file, construct_kv, convert_string, write_chars, write_file, listing, write_main,
  read_main, assert, leveldb_helper_test,
}

read_chars-append : (bytes file : Text) → read_chars bytes file ≡ bytes ++ file
unfolding read_chars
read_chars-append bytes [] = rw append-nil
read_chars-append bytes (c ∷ file) =
    read_chars-append (bytes ++ c ∷ []) file ∙ append_assoc bytes (c ∷ []) file

convert_string-append : (done value : Text) → convert_string done value ≡ done ++ value
unfolding convert_string
convert_string-append done [] = rw append-nil
convert_string-append done (c ∷ value) =
    convert_string-append (done ++ c ∷ []) value ∙ append_assoc done (c ∷ []) value

write_chars-append : (file bytes : Text) → write_chars file bytes ≡ file ++ bytes
unfolding write_chars
write_chars-append file [] = rw append-nil
write_chars-append file (c ∷ bytes) =
    write_chars-append (file ++ c ∷ []) bytes ∙ append_assoc file (c ∷ []) bytes

module _ (D : LevelDb) (laws : IsLevelDb D)
    (takes : (k v : Text) (s : D.State) → (D.put k v s).0 ≡ true) where
  -- What write.cc stores of small.gif, read.cc writes to test.out byte by byte, and the database
  -- stays as it is, if the database opens in both and takes every value and test.out can be
  -- written.
  pub read_main-write_main :
      (gif : Text) (test_out : Option Text) (s : D.State)
      → (s' : D.State) × (printed : Text) × (write_main D true (some gif) s ≡ (ok tt, s'))
        × (read_main D true true test_out s' ≡ (ok (printed, some gif), s'))
  unfolding write_main read_main construct_kv read_file write_file db_put db_get ◌>>=◌
  read_main-write_main gif test_out s =
      let s1 = (D.put (text "hello") (text "World") s).1 in
      let s2 = (D.put (text "test") gif s1).1 in
      (
        s2,
        listing (D.seek [] s2),
        rw (read_chars-append [] gif),
        rw (
          laws.get-put_self (text "test") gif s1 (takes (text "test") gif s1),
          convert_string-append [] gif,
          write_chars-append [] gif,
        ),
      )

module _ (N : Network) (D : LevelDb) (m p : ℕ) where
  box-ne : text "bala" ≢ text "box"
  unfolding text
  box-ne e = cc

  bala-IsKey : IsKey (text "bala")
  unfolding text
  bala-IsKey = ground arith

  box-IsKey : IsKey (text "box")
  unfolding text
  box-IsKey = ground arith

  -- x
  pub leveldb_helper_test_lem :
      (s : D.State)
      → IsNetwork N
      → IsSized m p
      → IsLevelDb D
      → ((k v : Text) (s' : D.State) → (D.put k v s').0 ≡ true)
      → D.get (text "box") s ≡ none
      → leveldb_helper_test N D m p s ≡ (ok tt, (D.put (text "bala") (text "box") s).1)
  unfolding leveldb_helper_test assert text text_eq failed ◌>>=◌
  leveldb_helper_test_lem s net sized laws takes absent =
      let s1 = (D.put (text "bala") (text "box") s).1 in
      let stored = laws.get-put_self (text "bala") (text "box") s (takes _ _ s) in
      let other = laws.get-put_ne (text "bala") (text "box") (text "box") s box-ne ∙ absent in
      let put_run =
        helper_put_lem N D m p net sized (text "bala") (text "box") s bala-IsKey
          (omega (arith, length-put_command (text "bala") (text "box"), sized.fits_failure)) in
      let get_run =
        helper_get_lem N D m p net sized (text "bala") [] s1 bala-IsKey
          (omega (arith, length-get_command (text "bala"), sized.fits_failure))
          (λ v e.
            let same : text "box" ≡ v = cc in omega (arith, ap length same, sized.fits_failure)) in
      let get_run' =
        helper_get_lem N D m p net sized (text "box") (text "box") s1 box-IsKey
          (omega (arith, length-get_command (text "box"), sized.fits_failure)) (λ v e. cc) in
      rw (put_run, takes, get_run, stored, get_run', other)
