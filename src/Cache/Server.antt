-- ===== src/Cache/Server.antt =====
-- blockcache/leveldb_server.cpp: the process that owns the database of the cache. LevelDB, which
-- the repository does not hold, is a parameter.
pub mod Laws
use balabox.Base.{
  ℕ, ◌+◌, ◌-◌, Bool, true, false, Option, none, some, List, [], ◌∷◌, ◌++◌, ◌==◌, leb, if◌then◌else◌,
  length, drop,
}
use balabox.Base.Text.{Text, text, text_eq}
use balabox.Exec.{Exec, pure, die, demand, ◌>>=◌}

pub record LevelDb : Type 1 where
  pub State : Type 0
  -- DB::Put(WriteOptions(), key, value) is ok
  pub put : Text → Text → State → Bool × State
  -- DB::Get(ReadOptions(), key, &value), with the value if it is ok
  pub get : Text → State → Option Text
  -- the entries from Seek(key) on, in the order of Next
  pub seek : Text → State → List (Text × Text)

-- `std::getline(ss, part, ',')`: the part before the first comma, and what is left in the stream,
-- `none` once its end was reached.
unfoldable pub get_line : Text → Text × Option Text
get_line [] = ([], none)
get_line (c ∷ s) =
    let (part, rest) = get_line s in if c == b',' then ([], some s) else (c ∷ part, rest)

-- The key: the second `getline`, which leaves it empty at the end of the stream.
unfoldable pub next_line : Option Text → Text
unfolding get_line
next_line none = []
next_line (some s) = (get_line s).0

pub data OperationType : Type 0 where
  error get put mget : OperationType

-- What do_operation leaves in its Operation: the type that it set, if it set one, and the value.
pub record Operation : Type 0 where
  pub kind : Option OperationType
  pub status : Bool
  pub value : Text

module _ (D : LevelDb) where
  -- The calls through `db`, which is null where create_db could not open the database.
  unfoldable pub db_put : Bool → Text → Text → Exec D.State Bool
  db_put false key value = die
  db_put true key value = λ s. let (done, s') = D.put key value s in pure done s'

  unfoldable pub db_get : Bool → Text → Exec D.State (Option Text)
  db_get false key = die
  db_get true key = λ s. pure (D.get key s) s

  -- The loop of multi_get: each value with the key replaces the one before it.
  unfoldable pub last_value : Text → List (Text × Text) → Text → Text
  last_value key [] value = value
  last_value key ((k, v) ∷ entries) value =
      let next = last_value key entries (v ++ b':' ∷ []) in if text_eq k key then next else value

  -- multi_get
  unfoldable pub multi_get : Bool → Text → Exec D.State (Option Text)
  unfolding last_value
  multi_get false key = die
  multi_get true key = λ s. elim (D.seek key s) [
    | [] ↦ pure none s
    | e ∷ entries ↦ pure (some (last_value key (e ∷ entries) [])) s
  ]

  abbrev failure : Option OperationType → Operation
  failure kind = record { kind = kind; status = false; value = [] }

  abbrev found : OperationType → Option Text → Operation
  found kind none = failure (some kind)
  found kind (some value) = record { kind = some kind; status = true; value = value }

  -- The "put" branch: `substr` throws if the command ends before the value can begin.
  unfoldable pub put_operation : Bool → Text → Text → Text → Exec D.State Operation
  put_operation opened command action key =
      let index = length action + length key + 2 in
      if leb index (length command)
      then (do
        done ← db_put opened key (drop index command)
        pure (record { kind = some put; status = done; value = drop index command }))
      else die

  unfoldable pub do_operation : Bool → Text → Exec D.State Operation
  do_operation opened [] = pure (failure none)
  do_operation opened (c ∷ command) =
      let (action, rest) = get_line (c ∷ command) in
      let key = next_line rest in
      if text_eq action (text "put")
      then put_operation opened (c ∷ command) action key
      else if text_eq action (text "get")
      then (do value ← db_get opened key; pure (found get value))
      else if text_eq action (text "mget")
      then (do value ← multi_get opened key; pure (found mget value))
      else pure (failure none)

  -- The answer that run_mono_thread sends for an operation.
  unfoldable pub answer : Operation → Text
  answer o =
      if o.status
      then elim o.kind [
        | none ↦ text "Wrong action"
        | some kind ↦ elim kind [ get ↦ o.value | put ↦ text "OK" | _ ↦ text "Wrong action" ]
      ]
      else text "Operation failed"

  -- One round of run_mono_thread on the request that a client sent, with `db` as create_db left it.
  unfoldable pub serve_command : Bool → Text → Exec D.State Text
  serve_command opened request = do o ← do_operation opened request; pure (answer o)
