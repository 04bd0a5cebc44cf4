-- ===== src/Sync/Versions.antt =====
-- The version of a file in versions.json over a round of the loop.
use balabox.Base.{
  ℕ, ◌+◌, ◌≤◌, ◌≡◌, refl, subst, ap, ◌∙◌, inl, inr, Option, none, some, List, leb, ltb,
  if◌then◌else◌, Bool-cases, Option-cases, arith,
}
use balabox.Base.Text.{Text}
use balabox.Base.Dict.{lookup, lookup-insert_self, lookup-erase, text_eq_refl}
use balabox.Exec.{Result, ok, crash, pure, die, demand, continue, ◌>>=◌}
use balabox.Exec.Keeps.{Keeps}
use balabox.Exec.Maintains.{Maintains, Maintains-Keeps, Maintains-bind, Maintains-if}
use balabox.Sync.{
  Outside, Client, Saved, Listed, get_block_list, add_to_version_file, drop_version, saved_of, look,
  write_local, remove_local,
}
use balabox.Sync.Transfer.{up_file, down_file}
use balabox.Sync.Run.{fail_local, upload, download, sync_known, sync_saved, sync_answer, sync_file}
use balabox.Sync.Keeps.{get_ok-Keeps, up_file-Keeps, down_file-Keeps}

-- There is no entry, or one whose version is not below this one.
abbrev pub IsFrom : ℕ → Option Saved → Type 0
IsFrom v none = Unit
IsFrom v (some saved) = v ≤ saved.version

module _ (O : Outside) (fi : Text) (v : ℕ) where
  abbrev entry : Client O → Option Saved
  entry c = lookup fi c.versions

  abbrev NoLess : {A : Type 0} → (Client O → Result A × Client O) → Type 0
  NoLess m = Maintains entry (IsFrom v) m

  add-NoLess : (w : ℕ) → v ≤ w → NoLess (add_to_version_file O fi w)
  unfolding add_to_version_file pure
  add-NoLess w le c h = rw lookup-insert_self le

  fail-NoLess : NoLess (fail_local O fi)
  unfolding fail_local pure
  fail-NoLess c h = h

  upload-NoLess : (w : ℕ) → v ≤ w → NoLess (upload O fi w)
  unfolding upload
  upload-NoLess w le =
      Maintains-bind entry (IsFrom v) _ _
        (Maintains-Keeps entry (IsFrom v) (up_file O fi w)
          (up_file-Keeps O entry (λ d s. refl) fi w))
        λ done. Maintains-if entry (IsFrom v) done _ _ (add-NoLess w le) fail-NoLess

  download-NoLess : (hs : Option (List Text)) (w : ℕ) → v ≤ w → NoLess (download O fi hs w)
  unfolding download write_local pure
  download-NoLess hs w le =
      Maintains-bind entry (IsFrom v) _ _
        (Maintains-Keeps entry (IsFrom v) (down_file O fi hs)
          (down_file-Keeps O entry (λ d s. refl) fi (λ b d. refl) hs))
        λ done. Maintains-if entry (IsFrom v) done _ _ (add-NoLess w le) fail-NoLess

  remove-entry : Keeps entry (remove_local O fi)
  unfolding pure die remove_local
  remove-entry c = elim (Option-cases (lookup fi c.files)) [
    | inl gone ↦ rw (remove_local, gone)
    | inr (file, found) ↦ rw (remove_local, found)
  ]

  drop-NoLess : NoLess (drop_version O fi)
  unfolding drop_version pure
  drop-NoLess c h = rw (lookup-erase, text_eq_refl) tt

  -- The versions that a known file can be given.
  older-NoLess :
      (saved : Saved) (hs : List Text) (w : ℕ)
      → v ≤ saved.version
      → NoLess (if ltb saved.version w then download O fi (some hs) w else pure tt)
  unfolding pure
  older-NoLess saved hs w le c h = elim (Bool-cases (ltb saved.version w)) [
    | inl newer ↦ rw newer (download-NoLess (some hs) w (ground arith) c h)
    | inr same ↦ rw same h
  ]

  newer-NoLess :
      (saved : Saved) (w : ℕ)
      → v ≤ saved.version
      → NoLess
          (if ltb saved.version w then upload O fi (w + 1) else upload O fi (saved.version + 1))
  newer-NoLess saved w le c h = elim (Bool-cases (ltb saved.version w)) [
    | inl newer ↦ rw newer (upload-NoLess (w + 1) (ground arith) c h)
    | inr same ↦ rw same (upload-NoLess (saved.version + 1) (omega arith) c h)
  ]

  sync_known-NoLess :
      (saved : Saved) (hs : List Text) (w : ℕ)
      → v ≤ saved.version
      → NoLess (sync_known O fi saved hs w)
  unfolding sync_known look demand pure ◌>>=◌
  sync_known-NoLess saved hs w le c h = elim (Option-cases (lookup fi c.files)) [
    | inl gone ↦ rw gone h
    | inr (file, found) ↦ rw found (
        Maintains-if entry (IsFrom v) (leb file.mtime saved.mod_time) _ _
          (older-NoLess saved hs w le) (newer-NoLess saved w le) c h)
  ]

  sync_saved-NoLess :
      (saved : Saved) (l : Listed) → v ≤ saved.version → NoLess (sync_saved O fi saved l)
  unfolding sync_saved
  sync_saved-NoLess saved l le c h = elim (Option-cases l.block_list) [
    | inl null ↦ rw null (
        Maintains-bind entry (IsFrom v) _ _
          (Maintains-Keeps entry (IsFrom v) (remove_local O fi) remove-entry) (λ _. drop-NoLess) c
          h)
    | inr (hs, list) ↦ rw list (sync_known-NoLess saved hs l.version le c h)
  ]

module _ (O : Outside) where
  round-IsFrom :
      (fi : Text) (saved : Saved) (c : Client O)
      → lookup fi c.versions ≡ some saved
      → IsFrom saved.version (lookup fi (sync_file O fi c).1.versions)
  unfolding sync_file sync_answer saved_of get_block_list pure ◌>>=◌
  round-IsFrom fi saved c e =
      rest (get_block_list O fi c).0 (get_block_list O fi c).1
        (ap (lookup fi) (get_ok-Keeps O (λ d. d.versions) (λ d s. refl) (O.block_list fi) c) ∙ e)
    where
      rest :
          (r : Result (Option Listed)) (d : Client O)
          → lookup fi d.versions ≡ some saved
          → IsFrom saved.version (
              entry O fi saved.version
                (continue r (λ o. elim o [ none ↦ pure tt | some l ↦ sync_answer O fi l ]) d).1)
      rest crash d here = rw here (omega arith)
      rest (ok none) d here = rw here (omega arith)
      rest (ok (some l)) d here =
          rw here
            (sync_saved-NoLess O fi saved.version saved l (omega arith) d (rw here (omega arith)))

  -- Whatever the servers answer and however it ends, a round of the first loop for a file that has
  -- an entry in versions.json, and has one after it, does not lower the version of the entry.
  pub sync_file-version :
      (fi : Text) (saved after : Saved) (c : Client O)
      → lookup fi c.versions ≡ some saved
      → lookup fi (sync_file O fi c).1.versions ≡ some after
      → saved.version ≤ after.version
  sync_file-version fi saved after c before now =
      subst (IsFrom saved.version) now (round-IsFrom fi saved c before)
