-- ===== src/Sync/Transfer.antt =====
-- upFile and downFile of client/sync.py. The directory of the blocks, which both empty before they
-- use it, is not part of the state.
use mathlib.Core.List.{map, flatten}
use balabox.Base.{ℕ, Bool, true, false, Option, none, some, List, [], ◌∷◌, if◌then◌else◌}
use balabox.Base.Text.{Text}
use balabox.Base.Dict.{Dict, lookup, insert}
use balabox.Exec.{Exec, pure, die, demand, ◌>>=◌, ◌>>◌}
use balabox.Sync.{
  Outside, Client, get_block_query, get_block_fetch, post_file_commit, post_block_store, look,
  write_local,
}

-- split -b 4m
abbrev pub block_size : ℕ
block_size = 4194304

module _ (O : Outside) where
  -- hash_to_file: a later block with the same hash replaces an earlier one.
  unfoldable pub hash_to_file : Dict Text → List Text → Dict Text
  hash_to_file d [] = d
  hash_to_file d (b ∷ blocks) = hash_to_file (insert (O.sha256 b) b d) blocks

  unfoldable pub store_blocks : Dict Text → List Text → Exec (Client O) Bool
  store_blocks d [] = pure true
  store_blocks d (h ∷ needed) = do
    block ← demand (lookup h d)
    stored ← post_block_store O h block
    if stored then store_blocks d needed else pure false

  -- The part behind block_query. The two branches end with the same commit.
  unfoldable pub send_blocks : List Text → Bool → Option (List Text) → Exec (Client O) Bool
  unfolding hash_to_file
  send_blocks blocks nb needed_blocks =
      if nb
      then (do needed ← demand needed_blocks; store_blocks (hash_to_file [] blocks) needed)
      else pure true

  -- upFile, for a file of the directory
  unfoldable pub up_file : Text → ℕ → Exec (Client O) Bool
  up_file fi version = do
    found ← look O fi
    file ← demand found
    let blocks = O.split block_size file.bytes
    let file_hashes = map O.sha256 blocks
    query ← get_block_query O fi file_hashes
    elim query [
      | none ↦ pure false
      | some q ↦ do
        sent ← send_blocks blocks q.nb q.needed_blocks
        if sent then post_file_commit O fi file_hashes version else pure false
    ]

  unfoldable pub fetch_blocks : List Text → Exec (Client O) (Option (List Text))
  fetch_blocks [] = pure (some [])
  fetch_blocks (h ∷ hashes) = do
    fetched ← get_block_fetch O h
    elim fetched [
      | none ↦ pure none
      | some b ↦ do
        rest ← fetch_blocks hashes
        pure (elim rest [ none ↦ none | some blocks ↦ some (b ∷ blocks) ])
    ]

  -- downFile, which cannot go over a null list. `cat` joins the files in the order of their names,
  -- which is that of their numbers.
  unfoldable pub down_file : Text → Option (List Text) → Exec (Client O) Bool
  down_file fi none = die
  down_file fi (some block_list) = do
    fetched ← fetch_blocks block_list
    elim fetched [
      | none ↦ pure false
      | some blocks ↦ do write_local O fi (flatten blocks); pure true
    ]
