-- ===== src/Sync.antt =====
-- client/sync.py: the state of one client, the servers and the programs that it calls, and its
-- requests. What an action raises and nothing catches is a crash.
pub mod Transfer
pub mod Run
pub mod Keeps
pub mod Modified
pub mod Answers
pub mod Fetched
pub mod Stored
pub mod Sent
pub mod Versions
pub mod Present
use balabox.Base.{ℕ, Bool, true, false, ◌||◌, Option, none, some, List, [], ◌==◌, if◌then◌else◌}
use balabox.Base.Text.{Text, text, text_eq, find}
use balabox.Base.Dict.{Dict, lookup, insert, erase}
use balabox.Exec.{Exec, pure, die, demand, ◌>>=◌, ◌>>◌}

-- A response of `requests`: the status, and what the body holds, `none` where reading it raises.
pub record Response (A : Type 0) : Type 0 where
  pub status_code : ℕ
  pub content : Option A

-- The answers to block_list, a null list being `none`, and to block_query.
pub record Listed : Type 0 where
  pub block_list : Option (List Text)
  pub version : ℕ

pub record Queried : Type 0 where
  pub nb : Bool
  pub needed_blocks : Option (List Text)

-- What lies outside the script: the servers, as one user reaches them, the clock, and the programs.
pub record Outside : Type 1 where
  pub State : Type 0
  -- the local time in seconds
  pub now : State → ℕ
  -- the metadata server
  pub block_list : Text → Exec State (Response Listed)
  pub block_query : Text → List Text → Exec State (Response Queried)
  pub file_commit : Text → List Text → ℕ → Exec State (Response Bool)
  pub file_list : Exec State (Response (Option (List Text)))
  pub file_delete : Text → Exec State (Response Bool)
  -- the cache server: what curl prints for a hash and a block, and the block of a hash
  pub block_store : Text → Text → Exec State Text
  pub block_fetch : Text → Exec State (Response Text)
  -- `split -b`, by its files in the order of their names, and the hexadecimal digest
  pub split : ℕ → Text → List Text
  pub sha256 : Text → Text

pub record File : Type 0 where
  pub bytes : Text
  pub mtime : ℕ

-- An entry of versions.json. Its time is in seconds too.
pub record Saved : Type 0 where
  pub version : ℕ
  pub mod_time : ℕ

-- requestOK
unfoldable pub request_ok : {A : Type 0} → Response A → Bool
request_ok r = r.status_code == 200

module _ (O : Outside) where
  pub record Client : Type 0 where
    -- the directory, but for versions.json
    pub files : Dict File
    -- what versions.json holds
    pub versions : Dict Saved
    pub local_failed_files : List Text
    pub meta_failed_files : List Text
    pub outside : O.State

  unfoldable pub ask : {A : Type 0} → Exec O.State A → Exec Client A
  ask m c = let (res, s) = m c.outside in (res, record c { outside = s })

  -- A request that reads the body of a response that is OK, and gives `none` for another.
  unfoldable pub get_ok : {A : Type 0} → Exec O.State (Response A) → Exec Client (Option A)
  unfolding request_ok
  get_ok m = do
    r ← ask m
    if request_ok r then (do a ← demand r.content; pure (some a)) else pure none

  unfoldable pub get_block_list : Text → Exec Client (Option Listed)
  get_block_list fi = get_ok (O.block_list fi)

  unfoldable pub get_block_query : Text → List Text → Exec Client (Option Queried)
  get_block_query fi block_list = get_ok (O.block_query fi block_list)

  unfoldable pub get_file_list : Exec Client (Option (Option (List Text)))
  get_file_list = get_ok O.file_list

  unfoldable pub post_file_delete : Text → Exec Client (Option Bool)
  post_file_delete fi = get_ok (O.file_delete fi)

  -- getBlockFetch: the bytes that it writes to the file of the block.
  unfoldable pub get_block_fetch : Text → Exec Client (Option Text)
  get_block_fetch block_hash = get_ok (O.block_fetch block_hash)

  unfoldable pub post_file_commit : Text → List Text → ℕ → Exec Client Bool
  post_file_commit fi block_list version = do
    updated ← get_ok (O.file_commit fi block_list version)
    pure (elim updated [ none ↦ false | some metadata_updated ↦ metadata_updated ])

  -- postBlockStore, which looks for "200 OK" in what curl prints.
  unfoldable pub post_block_store : Text → Text → Exec Client Bool
  unfolding text find
  post_block_store block_hash block = do
    response ← ask (O.block_store block_hash block)
    pure (elim (find (text "200 OK") response) [ none ↦ false | some _ ↦ true ])

  -- addToVersionFile
  unfoldable pub add_to_version_file : Text → ℕ → Exec Client (Unit {0})
  add_to_version_file fi version c =
      let entry : Saved = record { version = version; mod_time = O.now c.outside } in
      pure tt (record c { versions = insert fi entry c.versions })

  -- `del json_data[fi]`, for a file that has an entry
  unfoldable pub drop_version : Text → Exec Client (Unit {0})
  drop_version fi c = pure tt (record c { versions = erase fi c.versions })

  unfoldable pub saved_of : Text → Exec Client (Option Saved)
  saved_of fi c = pure (lookup fi c.versions) c

  unfoldable pub look : Text → Exec Client (Option File)
  look fi c = pure (lookup fi c.files) c

  unfoldable pub write_local : Text → Text → Exec Client (Unit {0})
  write_local fi bytes c =
      let file : File = record { bytes = bytes; mtime = O.now c.outside } in
      pure tt (record c { files = insert fi file c.files })

  -- os.path.isfile: versions.json is there from the start of the script.
  unfoldable pub is_file : Text → Exec Client Bool
  unfolding text text_eq
  is_file fi = do
    found ← look fi
    pure (text_eq fi (text "versions.json") || elim found [ none ↦ false | some _ ↦ true ])

  -- os.remove, which raises if the file is not there
  unfoldable pub remove_local : Text → Exec Client (Unit {0})
  remove_local fi c = elim (lookup fi c.files) [
    | none ↦ die c
    | some _ ↦ pure tt (record c { files = erase fi c.files })
  ]
