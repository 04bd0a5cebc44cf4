-- ===== src/Demo.antt =====
-- blockcache/write.cc and read.cc, which put a file into a database in the directory `temp` and get
-- it out again, and leveldb_helper_test.cc. An uninitialised `db` that is used is a crash.
pub mod Laws
pub mod Echo
use balabox.Base.{
  ℕ, ◌+◌, Bool, true, false, not, Option, none, some, List, [], ◌∷◌, ◌++◌, ◌==◌, ltb, if◌then◌else◌,
  length, take, drop,
}
use balabox.Base.Text.{Text, text, text_eq, c_string}
use balabox.Exec.{Exec, pure, die, ◌>>=◌, ◌>>◌}
use balabox.Cache.Server.{LevelDb, db_put, db_get}
use balabox.Cache.Client.{Network, helper_get, helper_put}

-- The loop of readFile, which pushes back what `get` gives until the end of the file.
unfoldable pub read_chars : Text → Text → Text
read_chars bytes [] = bytes
read_chars bytes (c ∷ file) = read_chars (bytes ++ c ∷ []) file

-- readFile of write.cc: a file that is not found is an empty one.
unfoldable pub read_file : Option Text → Text
unfolding read_chars
read_file none = []
read_file (some file) = read_chars [] file

-- constructKV
unfoldable pub construct_kv : Text → Text → Text × Text
construct_kv hash file_data = (hash, file_data)

-- convertString of read.cc, from what was pushed back on
unfoldable pub convert_string : Text → Text → Text
convert_string done [] = done
convert_string done (c ∷ value) = convert_string (done ++ c ∷ []) value

-- The loop of writeFile: what stands in the file, after the bytes before.
unfoldable pub write_chars : Text → Text → Text
write_chars file [] = file
write_chars file (c ∷ bytes) = write_chars (file ++ c ∷ []) bytes

-- writeFile: `test.out` as it was, if it cannot be opened.
unfoldable pub write_file : Bool → Text → Option Text → Option Text
unfolding write_chars
write_file false bytes old = old
write_file true bytes old = some (write_chars [] bytes)

-- The lines that read.cc prints for the entries of the database.
unfoldable pub listing : List (Text × Text) → Text
listing [] = []
listing ((k, v) ∷ entries) = (k ++ b':' ∷ v) ++ 10 ∷ listing entries

module _ (D : LevelDb) where
  -- The main of write.cc, for whether the database opens and what small.gif holds.
  unfoldable pub write_main : Bool → Option Text → Exec D.State (Unit {0})
  unfolding text
  write_main opens small_gif = if not opens then die else do
    db_put D true (text "hello") (text "World")
    let test = construct_kv (text "test") (read_file small_gif)
    db_put D true test.0 test.1
    pure tt

  -- The main of read.cc, for whether the database and test.out open and what test.out held before:
  -- what it prints, and what test.out holds.
  unfoldable pub read_main : Bool → Bool → Option Text → Exec D.State (Text × Option Text)
  unfolding text listing
  read_main opens writable test_out = if not opens then die else do
    entries ← (λ s. pure (D.seek [] s) s)
    found ← db_get D true (text "test")
    let value : Text = elim found [ none ↦ [] | some v ↦ v ]
    pure (listing entries, write_file writable (convert_string [] value) test_out)

-- assert
unfoldable pub assert : {S : Type 0} → Bool → Exec S (Unit {0})
assert holds = if holds then pure tt else die

-- The main of leveldb_helper_test.cc.
unfoldable pub leveldb_helper_test : (N : Network) (D : LevelDb) → ℕ → ℕ → Exec D.State (Unit {0})
unfolding text assert
leveldb_helper_test N D msg_size packet_size = do
  status ← helper_put N D msg_size packet_size (text "bala") (text "box")
  assert (status == 0)
  (status', value) ← helper_get N D msg_size packet_size (text "bala") []
  assert (status' == 0)
  assert (text_eq value (text "box"))
  (status'', value') ← helper_get N D msg_size packet_size (text "box") value
  assert (status'' == 1)
  assert (text_eq value' (text "box"))
