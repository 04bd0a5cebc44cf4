-- ===== src/Sync/Run.antt =====
-- The loops of client/sync.py over the files of the directory and over those that the metadata
-- server lists, and the option --download.
use balabox.Base.{
  ℕ, ◌+◌, Bool, ◌||◌, Option, none, some, List, [], ◌∷◌, ◌++◌, leb, ltb, if◌then◌else◌,
}
use balabox.Base.Text.{Text, text, text_eq}
use balabox.Exec.{Exec, pure, die, demand, ◌>>=◌, ◌>>◌}
use balabox.Sync.{
  Outside, Client, Listed, Saved, get_block_list, get_file_list, post_file_delete,
  add_to_version_file, drop_version, saved_of, look, is_file, remove_local,
}
use balabox.Sync.Transfer.{up_file, down_file}

-- The files that the first loop passes over.
unfoldable pub is_own : Text → Bool
unfolding text text_eq
is_own fi = text_eq fi (text "sync.py") || text_eq fi (text "versions.json")

module _ (O : Outside) where
  unfoldable pub fail_local : Text → Exec (Client O) (Unit {0})
  fail_local fi c = pure tt (record c { local_failed_files = c.local_failed_files ++ fi ∷ [] })

  unfoldable pub fail_meta : Text → Exec (Client O) (Unit {0})
  fail_meta f c = pure tt (record c { meta_failed_files = c.meta_failed_files ++ f ∷ [] })

  -- The calls of upFile and downFile of the first loop, with what stands around them.
  unfoldable pub upload : Text → ℕ → Exec (Client O) (Unit {0})
  upload fi version = do
    done ← up_file O fi version
    if done then add_to_version_file O fi version else fail_local fi

  unfoldable pub download : Text → Option (List Text) → ℕ → Exec (Client O) (Unit {0})
  download fi block_list version = do
    done ← down_file O fi block_list
    if done then add_to_version_file O fi version else fail_local fi

  -- A file without an entry in versions.json.
  unfoldable pub sync_new : Text → Listed → Exec (Client O) (Unit {0})
  sync_new fi l = elim l.block_list [
    | none ↦ upload fi 0
    | some block_list ↦ download fi (some block_list) l.version
  ]

  -- A file with an entry, and blocks on the metadata server.
  unfoldable pub sync_known : Text → Saved → List Text → ℕ → Exec (Client O) (Unit {0})
  sync_known fi saved block_list meta_version = do
    found ← look O fi
    file ← demand found
    if leb file.mtime saved.mod_time
        then (if ltb saved.version meta_version
            then download fi (some block_list) meta_version
            else pure tt)
        else (if ltb saved.version meta_version
            then upload fi (meta_version + 1)
            else upload fi (saved.version + 1))

  -- A file with an entry. Without blocks on the metadata server it is deleted.
  unfoldable pub sync_saved : Text → Saved → Listed → Exec (Client O) (Unit {0})
  sync_saved fi saved l = elim l.block_list [
    | some block_list ↦ sync_known fi saved block_list l.version
    | none ↦ do remove_local O fi; drop_version O fi
  ]

  unfoldable pub sync_answer : Text → Listed → Exec (Client O) (Unit {0})
  sync_answer fi l = do
    entry ← saved_of O fi
    elim entry [ none ↦ sync_new fi l | some saved ↦ sync_saved fi saved l ]

  -- The body of the first loop.
  unfoldable pub sync_file : Text → Exec (Client O) (Unit {0})
  sync_file fi = do
    listed ← get_block_list O fi
    elim listed [ none ↦ pure tt | some l ↦ sync_answer fi l ]

  unfoldable pub sync_files : List Text → Exec (Client O) (Unit {0})
  unfolding is_own
  sync_files [] = pure tt
  sync_files (fi ∷ files) = do if is_own fi then pure tt else sync_file fi; sync_files files

  -- The body of the second loop. A deletion that fails gives `None`, which has no item.
  unfoldable pub sync_listed : Text → Exec (Client O) (Unit {0})
  sync_listed f = do
    there ← is_file O f
    if there then pure tt else (do
      entry ← saved_of O f
      elim entry [
        | none ↦ do
          listed ← get_block_list O f
          elim listed [
            | none ↦ pure tt
            | some l ↦ do
              done ← down_file O f l.block_list
              if done then add_to_version_file O f l.version else fail_meta f
          ]
        | some _ ↦ do
          deleted ← post_file_delete O f
          is_delete ← demand deleted
          if is_delete then drop_version O f else fail_meta f
      ])

  unfoldable pub sync_listing : List Text → Exec (Client O) (Unit {0})
  sync_listing [] = pure tt
  sync_listing (f ∷ file_list) = do sync_listed f; sync_listing file_list

  -- The script without --download, for what `os.listdir` gives.
  unfoldable pub sync : List Text → Exec (Client O) (Unit {0})
  sync files = do
    sync_files files
    listed ← get_file_list O
    elim listed [
      | none ↦ pure tt
      | some names ↦ elim names [ none ↦ pure tt | some file_list ↦ sync_listing file_list ]
    ]

  -- A file that is there, with --download: where it is to be fetched, `fi` has no value yet.
  unfoldable pub download_newer : Saved → ℕ → ℕ → Exec (Client O) (Unit {0})
  download_newer saved mtime version =
      if leb mtime saved.mod_time
      then (if ltb saved.version version then die else pure tt)
      else pure tt

  -- The script with --download. `meta_version` has no value where a file with an entry is fetched.
  unfoldable pub download_file : Text → Exec (Client O) (Unit {0})
  download_file f = do
    listed ← get_block_list O f
    elim listed [
      | none ↦ pure tt
      | some l ↦ elim l.block_list [
        | none ↦ pure tt
        | some block_list ↦ do
          entry ← saved_of O f
          found ← look O f
          elim entry [
            | none ↦ do
              done ← down_file O f (some block_list)
              if done then add_to_version_file O f l.version else pure tt
            | some saved ↦ elim found [
              | some file ↦ download_newer saved file.mtime l.version
              | none ↦ do done ← down_file O f (some block_list); if done then die else pure tt
            ]
          ]
      ]
    ]
