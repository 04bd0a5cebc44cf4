-- ===== src/Sync/Keeps.antt =====
-- What the actions of client/sync.py leave as it was, whatever the servers answer.
use mathlib.Core.List.{flatten}
use balabox.Base.{
  ◌⊎◌, All, if◌then◌else◌, ℕ, ◌≡◌, refl, ap, Bool, true, false, inl, inr, Option, none, some, List,
  [], ◌∷◌, leb, ltb, Option-cases,
}
use balabox.Base.Text.{Text, text, text_eq}
use balabox.Base.Dict.{lookup, lookup-insert, lookup-erase}
use balabox.Exec.{Exec, pure, die}
use balabox.Exec.Keeps.{
  Keeps, Keeps-pure, Keeps-demand, Keeps-die, Keeps-bind, Keeps-if, Keeps-option,
}
use balabox.Sync.{
  Outside, Client, File, Saved, Listed, Response, ask, request_ok, get_ok, get_block_list,
  get_block_query, get_block_fetch, post_file_commit, post_block_store, add_to_version_file,
  drop_version, saved_of, look, write_local, remove_local,
}
use balabox.Sync.Transfer.{
  hash_to_file, store_blocks, send_blocks, up_file, fetch_blocks, down_file,
}
use balabox.Sync.Run.{
  fail_local, upload, download, sync_new, sync_known, sync_saved, sync_answer, is_own, sync_files,
  sync_file,
}

-- A view of the client that what lies outside does not change.
module _ (O : Outside) {V : Type 0} (view : Client O → V)
    (local : (c : Client O) (s : O.State) → view (record c { outside = s }) ≡ view c) where
  ask-Keeps : {A : Type 0} (m : Exec O.State A) → Keeps view (ask O m)
  unfolding ask
  ask-Keeps m c = local c (m c.outside).1

  pub get_ok-Keeps : {A : Type 0} (m : Exec O.State (Response A)) → Keeps view (get_ok O m)
  unfolding get_ok
  get_ok-Keeps m = Keeps-bind view _ _ (ask-Keeps m) λ r.
      Keeps-if view (request_ok r) _ _
        (Keeps-bind view _ _ (Keeps-demand view r.content) λ a. Keeps-pure view (some a))
        (Keeps-pure view none)

  look-Keeps : (fi : Text) → Keeps view (look O fi)
  unfolding look pure
  look-Keeps fi c = refl

  saved_of-Keeps : (fi : Text) → Keeps view (saved_of O fi)
  unfolding saved_of pure
  saved_of-Keeps fi c = refl

  post_file_commit-Keeps :
      (fi : Text) (hashes : List Text) (version : ℕ)
      → Keeps view (post_file_commit O fi hashes version)
  unfolding post_file_commit
  post_file_commit-Keeps fi hashes version =
      Keeps-bind view _ _ (get_ok-Keeps (O.file_commit fi hashes version)) λ u. Keeps-pure view _

  post_block_store-Keeps : (h b : Text) → Keeps view (post_block_store O h b)
  unfolding post_block_store
  post_block_store-Keeps h b =
      Keeps-bind view _ _ (ask-Keeps (O.block_store h b)) λ r. Keeps-pure view _

  store_blocks-Keeps :
      (d : List (Text × Text)) (needed : List Text) → Keeps view (store_blocks O d needed)
  unfolding store_blocks
  store_blocks-Keeps d [] = Keeps-pure view true
  store_blocks-Keeps d (h ∷ needed) = Keeps-bind view _ _ (Keeps-demand view (lookup h d)) λ block.
      Keeps-bind view _ _ (post_block_store-Keeps h block)
        λ stored. Keeps-if view stored _ _ (store_blocks-Keeps d needed) (Keeps-pure view false)

  send_blocks-Keeps :
      (blocks : List Text) (nb : Bool) (needed : Option (List Text))
      → Keeps view (send_blocks O blocks nb needed)
  unfolding send_blocks
  send_blocks-Keeps blocks nb needed =
      Keeps-if view nb _ _
        (Keeps-bind view _ _ (Keeps-demand view needed)
          λ hs. store_blocks-Keeps (hash_to_file O [] blocks) hs)
        (Keeps-pure view true)

  pub up_file-Keeps : (fi : Text) (version : ℕ) → Keeps view (up_file O fi version)
  unfolding up_file get_block_query
  up_file-Keeps fi version = Keeps-bind view _ _ (look-Keeps fi) λ found.
      Keeps-bind view _ _ (Keeps-demand view found) λ file.
        Keeps-bind view _ _ (get_ok-Keeps _) λ query.
          Keeps-option view query _ _ (Keeps-pure view false) λ q _.
            Keeps-bind view _ _ (send_blocks-Keeps _ q.nb q.needed_blocks) λ sent.
              Keeps-if view sent _ _ (post_file_commit-Keeps fi _ version) (Keeps-pure view false)

  fetch_blocks-Keeps : (hashes : List Text) → Keeps view (fetch_blocks O hashes)
  unfolding fetch_blocks get_block_fetch
  fetch_blocks-Keeps [] = Keeps-pure view (some [])
  fetch_blocks-Keeps (h ∷ hashes) = Keeps-bind view _ _ (get_ok-Keeps (O.block_fetch h)) λ fetched.
      Keeps-option view fetched _ _ (Keeps-pure view none)
        λ b _. Keeps-bind view _ _ (fetch_blocks-Keeps hashes) λ rest. Keeps-pure view _

  pub upload-Keeps :
      (fi : Text) (version : ℕ)
      → ((v : ℕ) → Keeps view (add_to_version_file O fi v))
      → Keeps view (fail_local O fi)
      → Keeps view (upload O fi version)
  unfolding upload
  upload-Keeps fi version adds fails =
      Keeps-bind view _ _ (up_file-Keeps fi version)
        λ done. Keeps-if view done _ _ (adds version) fails

  pub down_file-Keeps :
      (fi : Text)
      → ((bytes : Text) → Keeps view (write_local O fi bytes))
      → (block_list : Option (List Text)) → Keeps view (down_file O fi block_list)
  unfolding down_file
  down_file-Keeps fi writes none = Keeps-die view Bool
  down_file-Keeps fi writes (some hs) = Keeps-bind view _ _ (fetch_blocks-Keeps hs) λ fetched.
      Keeps-option view fetched _ _ (Keeps-pure view false)
        λ blocks _. Keeps-bind view _ _ (writes (flatten blocks)) λ _. Keeps-pure view true

  -- Everything that the body of the loop does with the directory and versions.json.
  pub record Ignores (fi : Text) : Type 0 where
    pub writes : (bytes : Text) → Keeps view (write_local O fi bytes)
    pub removes : Keeps view (remove_local O fi)
    pub adds : (version : ℕ) → Keeps view (add_to_version_file O fi version)
    pub drops : Keeps view (drop_version O fi)
    pub fails : Keeps view (fail_local O fi)

  module _ (fi : Text) (ignores : Ignores fi) where
    download-Keeps :
        (block_list : Option (List Text)) (version : ℕ)
        → Keeps view (download O fi block_list version)
    unfolding download
    download-Keeps block_list version =
        Keeps-bind view _ _ (down_file-Keeps fi ignores.writes block_list)
          λ done. Keeps-if view done _ _ (ignores.adds version) ignores.fails

    sync_new-Keeps : (l : Listed) → Keeps view (sync_new O fi l)
    unfolding sync_new
    sync_new-Keeps l =
        Keeps-option view l.block_list _ _ (upload-Keeps fi 0 ignores.adds ignores.fails)
          λ hs _. download-Keeps (some hs) l.version

    sync_known-Keeps :
        (saved : Saved) (hs : List Text) (version : ℕ)
        → Keeps view (sync_known O fi saved hs version)
    unfolding sync_known
    sync_known-Keeps saved hs version = Keeps-bind view _ _ (look-Keeps fi) λ found.
        Keeps-bind view _ _ (Keeps-demand view found) λ file.
          Keeps-if view (leb file.mtime saved.mod_time) _ _
            (Keeps-if view (ltb saved.version version) _ _ (download-Keeps (some hs) version)
              (Keeps-pure view tt))
            (Keeps-if view (ltb saved.version version) _ _
              (upload-Keeps fi _ ignores.adds ignores.fails)
              (upload-Keeps fi _ ignores.adds ignores.fails))

    sync_saved-Keeps : (saved : Saved) (l : Listed) → Keeps view (sync_saved O fi saved l)
    unfolding sync_saved
    sync_saved-Keeps saved l = elim (Option-cases l.block_list) [
      | inl null ↦ rw null (Keeps-bind view _ _ ignores.removes λ _. ignores.drops)
      | inr (hs, list) ↦ rw list (sync_known-Keeps saved hs l.version)
    ]

    pub sync_file-Keeps : Keeps view (sync_file O fi)
    unfolding sync_file sync_answer get_block_list
    sync_file-Keeps = Keeps-bind view _ _ (get_ok-Keeps (O.block_list fi)) λ listed.
        Keeps-option view listed _ _ (Keeps-pure view tt) λ l _.
          Keeps-bind view _ _ (saved_of-Keeps fi) λ entry.
            Keeps-option view entry _ _ (sync_new-Keeps l) λ saved _. sync_saved-Keeps saved l

module _ (O : Outside) where
  abbrev pub about : Text → Client O → Option File × Option Saved
  about g c = (lookup g c.files, lookup g c.versions)

  sync_file-about : (fi g : Text) → text_eq g fi ≡ false → Keeps (about g) (sync_file O fi)
  unfolding write_local remove_local add_to_version_file drop_version fail_local pure lookup die
  sync_file-about fi g other = sync_file-Keeps O (about g) (λ d s. refl) fi others
    where
      removes : Keeps (about g) (remove_local O fi)
      removes d = elim (Option-cases (lookup fi d.files)) [
        | inl gone ↦ rw (remove_local, gone)
        | inr (file, found) ↦ rw (remove_local, found, lookup-erase, other)
      ]

      others : Ignores O (about g) (λ d s. refl) fi
      others = record {
        writes = λ bytes d. rw (lookup-insert, other);
        removes = removes;
        adds = λ version d. rw (lookup-insert, other);
        drops = λ d. rw (lookup-erase, other);
        fails = λ d. refl;
      }

  -- The name of another file, or of the script, which the loop passes over.
  abbrev pub IsOther : Text → Text → Type 0
  IsOther g fi = (text_eq g fi ≡ false) ⊎ (text_eq fi (text "sync.py") ≡ true)

  own_name : (fi : Text) → text_eq fi (text "sync.py") ≡ true → is_own fi ≡ true
  unfolding is_own
  own_name fi e = rw e

  sync_files-Keeps :
      (fs : List Text) (g : Text) → All (IsOther g) fs → Keeps (about g) (sync_files O fs)
  unfolding sync_files
  sync_files-Keeps [] g others = Keeps-pure (about g) tt
  sync_files-Keeps (fi ∷ fs) g (first, others) =
      Keeps-bind (about g) _ _ (round first) λ _. sync_files-Keeps fs g others
    where
      round : IsOther g fi → Keeps (about g) (if is_own fi then pure tt else sync_file O fi)
      round (inl other) =
          Keeps-if (about g) (is_own fi) _ _ (Keeps-pure (about g) tt) (sync_file-about fi g other)
      round (inr own) = rw (own_name fi own) (Keeps-pure (about g) tt)

  -- Whatever the servers answer and however it ends, the first loop leaves every file of the
  -- directory other than versions.json, and its entry in versions.json, as they were if its name is
  -- not in the list that the loop goes over, or is there only as that of the script, which the loop
  -- passes over.
  pub sync_files-about :
      (fs : List Text) (g : Text) (c : Client O)
      → text_eq g (text "versions.json") ≡ false
      → All (IsOther g) fs
      → (lookup g (sync_files O fs c).1.files ≡ lookup g c.files)
        × (lookup g (sync_files O fs c).1.versions ≡ lookup g c.versions)
  sync_files-about fs g c user_file others =
      let same = sync_files-Keeps fs g others c in (ap (λ p. p.0) same, ap (λ p. p.1) same)
