-- ===== src/Sync/Modified.antt =====
-- A file that was changed since its last synchronization.
use balabox.Base.{
  ℕ, ◌+◌, ◌<◌, ◌≡◌, ◌≢◌, refl, ap, ◌∙◌, false, inl, inr, Option, none, some, List, leb, ltb,
  Option-cases, arith,
}
use balabox.Base.Text.{Text}
use balabox.Base.Dict.{lookup}
use balabox.Exec.{Result, ok, crash, pure, demand, continue, ◌>>=◌}
use balabox.Exec.Keeps.{Keeps, Keeps-if}
use balabox.Sync.{
  Outside, Client, File, Saved, Listed, get_block_list, add_to_version_file, saved_of, look,
}
use balabox.Sync.Run.{fail_local, upload, sync_known, sync_saved, sync_answer, sync_file}
use balabox.Sync.Keeps.{get_ok-Keeps, upload-Keeps}

module _ (O : Outside) where
  upload-files : (fi : Text) (version : ℕ) → Keeps (λ c. c.files) (upload O fi version)
  unfolding add_to_version_file fail_local pure
  upload-files fi version =
      upload-Keeps O (λ c. c.files) (λ d s. refl) fi version (λ v d. refl) (λ d. refl)

  sync_known-files :
      (fi : Text) (file : File) (saved : Saved) (hs : List Text) (version : ℕ) (c : Client O)
      → lookup fi c.files ≡ some file
      → saved.mod_time < file.mtime
      → (sync_known O fi saved hs version c).1.files ≡ c.files
  unfolding sync_known look demand pure ◌>>=◌
  sync_known-files fi file saved hs version c found newer =
      let stale : leb file.mtime saved.mod_time ≡ false = ground arith in
      rw (found, stale)
        (Keeps-if (λ d. d.files) (ltb saved.version version) _ _ (upload-files fi (version + 1))
          (upload-files fi (saved.version + 1)) c)

  sync_answer-files :
      (fi : Text) (file : File) (saved : Saved) (l : Listed) (c : Client O)
      → lookup fi c.files ≡ some file
      → lookup fi c.versions ≡ some saved
      → saved.mod_time < file.mtime
      → l.block_list ≢ none
      → (sync_answer O fi l c).1.files ≡ c.files
  unfolding sync_answer sync_saved saved_of pure ◌>>=◌
  sync_answer-files fi file saved l c found entry newer some_list =
      elim (Option-cases l.block_list) [
        | inl null ↦ absurd (some_list null)
        | inr (hs, list) ↦
            rw (entry, sync_saved, list) (sync_known-files fi file saved hs l.version c found newer)
      ]

  -- Whatever the servers answer, a round of the loop for a file that was modified after its entry
  -- in versions.json was written leaves the directory as it is, unless the metadata server answers
  -- that it lists no blocks for it.
  pub sync_file-modified :
      (fi : Text) (file : File) (saved : Saved) (c : Client O)
      → lookup fi c.files ≡ some file
      → lookup fi c.versions ≡ some saved
      → saved.mod_time < file.mtime
      → ((l : Listed) → (get_block_list O fi c).0 ≡ ok (some l) → l.block_list ≢ none)
      → (sync_file O fi c).1.files ≡ c.files
  unfolding sync_file get_block_list pure ◌>>=◌
  sync_file-modified fi file saved c found entry newer listed =
      rest (get_block_list O fi c).0 (get_block_list O fi c).1 listed
        (get_ok-Keeps O (λ d. d.files) (λ d s. refl) (O.block_list fi) c)
        (get_ok-Keeps O (λ d. d.versions) (λ d s. refl) (O.block_list fi) c)
    where
      rest :
          (r : Result (Option Listed)) (d : Client O)
          → ((l : Listed) → r ≡ ok (some l) → l.block_list ≢ none)
          → d.files ≡ c.files
          → d.versions ≡ c.versions
          → (continue r (λ o. elim o [ none ↦ pure tt | some l ↦ sync_answer O fi l ]) d).1.files
            ≡ c.files
      rest crash d answers same same' = same
      rest (ok none) d answers same same' = same
      rest (ok (some l)) d answers same same' =
          sync_answer-files fi file saved l d (ap (lookup fi) same ∙ found)
            (ap (lookup fi) same' ∙ entry) newer (answers l refl)
          ∙ same
