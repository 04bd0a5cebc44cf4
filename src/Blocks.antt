-- ===== src/Blocks.antt =====
-- The block server, blockcache/block_store.cc and blockcache/block_fetch.cc: what both programs
-- hold a copy of. Each request opens the LevelDB directory, which one process at a time can do.
pub mod Retry
pub mod Bounds
pub mod Store
pub mod Fetch
pub mod Laws
pub mod Safety
use balabox.Base.{
  ℕ, zero, suc, ◌+◌, ◌-◌, Bool, true, false, Option, none, some, [], ◌∷◌, ◌++◌, ◌≡◌, refl, drop,
  leb, if◌then◌else◌, length,
}
use balabox.Base.Text.{Text, text, find, substr}
use balabox.Exec.{Exec, pure, die, ◌>>=◌, ◌>>◌}
use balabox.Util.{behind}
use balabox.Cache.Server.{LevelDb}

-- The directory of the block server.
pub record Directory : Type 1 where
  pub db : LevelDb
  -- DB::Open is ok, with create_if_missing or without
  pub open_db : Bool → db.State → Bool × db.State

-- The directory, and the output of the request at hand.
pub record BlockWorld (D : Directory) : Type 0 where
  pub db : D.db.State
  pub out : Text

module _ {S : Type 0} where
  -- `do { … } while (!status.ok())`, with fuel; the end of the fuel counts as a crash.
  unfoldable pub retry : ℕ → (S → Bool × S) → Exec S (Unit {0})
  retry zero attempt = die
  retry (suc fuel) attempt = (λ s. pure (attempt s).0 (attempt s).1) >>= λ done. elim done [
    | true ↦ pure tt
    | false ↦ retry fuel attempt
  ]

  -- getIPAddress on what it reads from ifconfig: `none` for the return code 1. `substr` throws
  -- behind the end of the string.
  unfoldable pub get_ip_address : Text → Exec S (Option Text)
  unfolding find substr
  get_ip_address eth0 = elim (find (text "inet addr") eth0) [
    | none ↦ pure none
    | some begin_pos ↦
        if leb (begin_pos + 9 + 1) (length eth0)
        then pure (some (substr eth0 (begin_pos + 9 + 1) 13))
        else die
  ]

-- getBlockHash: what stands behind the first '=', or the whole query string if there is none.
unfoldable pub get_block_hash : Text → Option Text
unfolding find behind text
get_block_hash param = elim (find (text "hash") param) [
  | none ↦ none
  | some _ ↦ some (drop (behind (find (b'=' ∷ []) param)) param)
]

module _ (D : Directory) where
  unfoldable pub print : Text → Exec (BlockWorld D) (Unit {0})
  print t w = pure tt (record w { out = w.out ++ t })

  unfoldable pub on_directory : {A : Type 0} → Exec D.db.State A → Exec (BlockWorld D) A
  on_directory m w = let (res, s) = m w.db in (res, record w { db = s })

get_block_hash_runs : get_block_hash (text "hash=f1&user=ann") ≡ some (text "f1&user=ann")
unfolding get_block_hash text
get_block_hash_runs = refl
