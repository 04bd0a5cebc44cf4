-- ===== src/Tests/Sync.antt =====
-- The theorems on the client, at servers that are dicts.
use balabox.Base.{◌≤◌, ◌≡◌, ◌≢◌, inl, inr, refl, ap, true, Option, none, some, List, [], ◌∷◌, arith}
use balabox.Base.Text.{Text, text, text_eq, find, is_prefix}
use balabox.Base.Dict.{Dict, lookup, insert}
use balabox.Exec.{Result, ok, pure, demand, ◌>>=◌}
use balabox.Sync.{
  Listed, File, Saved, Client, get_block_list, get_block_query, post_block_store, post_file_commit,
  add_to_version_file, look, saved_of, get_ok, request_ok, ask, get_block_fetch, write_local,
}
use balabox.Sync.Transfer.{
  send_blocks, hash_to_file, store_blocks, up_file, fetch_blocks, down_file,
}
use balabox.Sync.Run.{
  is_own, sync_files, sync_file, sync_listing, sync_answer, sync_new, sync_saved, sync_known,
  upload,
}
use mathlib.Core.List.{flatten}
use balabox.Sync.Keeps.{sync_files-about}
use balabox.Sync.Modified.{sync_file-modified}
use balabox.Sync.Sent.{Sent, up_file-Sent}
use balabox.Sync.Fetched.{Fetched, down_file-Fetched}
use balabox.Sync.Versions.{sync_file-version}
use balabox.Sync.Present.{sync_listing-files}
use balabox.Tests.Cache.{bytes}
use balabox.Tests.Data.{hash_a}
use balabox.Tests.Servers.{Held, is_known, commit, fetch, memory}

abbrev note : Text
note = b'n' ∷ []

abbrev draft : File
draft = record { bytes = 1 ∷ 2 ∷ 1 ∷ []; mtime = 3 }

abbrev empty_servers : Held
empty_servers = record { clock = 5; listings = []; blocks = [] }

abbrev with_files : Dict File → Dict Saved → Held → Client memory
with_files files versions outside = record {
  files = files;
  versions = versions;
  local_failed_files = [];
  meta_failed_files = [];
  outside = outside;
}

-- A client with a file that it never synchronized.
abbrev writer : Client memory
writer = with_files ((note, draft) ∷ []) [] empty_servers

writer_file : lookup note writer.files ≡ some draft
unfolding lookup text_eq
writer_file = refl

-- After the synchronization.
abbrev done : Saved
done = record { version = 0; mod_time = 5 }

abbrev full_servers : Held
full_servers = record {
  clock = 5;
  listings = (note, ((1 ∷ []) ∷ (2 ∷ []) ∷ (1 ∷ []) ∷ [], 0)) ∷ [];
  blocks = (1 ∷ [], 1 ∷ []) ∷ (2 ∷ [], 2 ∷ []) ∷ [];
}

abbrev synced : Client memory
synced = with_files ((note, draft) ∷ []) ((note, done) ∷ []) full_servers

writer_runs : sync_file memory note writer ≡ (ok tt, synced)
unfolding sync_file get_block_list sync_answer sync_new upload up_file get_block_query send_blocks
    hash_to_file store_blocks post_block_store post_file_commit add_to_version_file get_ok
    request_ok ask look saved_of commit is_known bytes lookup insert text_eq find is_prefix text
    demand pure ◌>>=◌
writer_runs = refl

-- The same file, written again after that.
abbrev edited : File
edited = record { bytes = 7 ∷ []; mtime = 9 }

abbrev ahead : Client memory
ahead = with_files ((note, edited) ∷ []) ((note, done) ∷ []) full_servers

ahead_file : lookup note ahead.files ≡ some edited
unfolding lookup text_eq
ahead_file = refl

ahead_entry : lookup note ahead.versions ≡ some done
unfolding lookup text_eq
ahead_entry = refl

abbrev list_in : Result (Option Listed) → Option (List Text)
list_in (ok (some l)) = l.block_list
list_in _ = none

full_list : (l : Listed) → (get_block_list memory note ahead).0 ≡ ok (some l) → l.block_list ≢ none
unfolding get_block_list get_ok request_ok ask lookup text_eq demand pure ◌>>=◌
full_list l e null =
    let list : some ((1 ∷ []) ∷ (2 ∷ []) ∷ (1 ∷ []) ∷ []) ≡ l.block_list = ap list_in e in cc

sync_file-modified_example : (sync_file memory note ahead).1.files ≡ (note, edited) ∷ []
sync_file-modified_example =
    sync_file-modified memory note edited done ahead ahead_file ahead_entry (omega arith) full_list

sync_files-about_example :
    (lookup hash_a (sync_files memory (note ∷ text "sync.py" ∷ []) ahead).1.files
      ≡ lookup hash_a ahead.files)
    × (lookup hash_a (sync_files memory (note ∷ text "sync.py" ∷ []) ahead).1.versions
        ≡ lookup hash_a ahead.versions)
unfolding text_eq text is_own
sync_files-about_example =
    sync_files-about memory (note ∷ text "sync.py" ∷ []) hash_a ahead refl
      (inl refl, (inr refl, tt))

abbrev uploaded : Client memory
uploaded = record writer { outside = full_servers }

writer_sends : up_file memory note 0 writer ≡ (ok true, uploaded)
unfolding up_file get_block_query send_blocks hash_to_file store_blocks post_block_store
    post_file_commit get_ok request_ok ask look commit is_known bytes lookup insert text_eq find
    is_prefix text demand pure ◌>>=◌
writer_sends = refl

up_file-Sent_example :
    (file : File) × (lookup note writer.files ≡ some file)
    × Sent memory note file.bytes 0 empty_servers full_servers
    × (uploaded ≡ record writer { outside = full_servers })
up_file-Sent_example = up_file-Sent memory note 0 writer uploaded writer_sends

-- Another client, which has no file.
abbrev reader : Client memory
reader = with_files [] [] full_servers

abbrev loaded : Client memory
loaded = with_files ((note, record { bytes = 1 ∷ 2 ∷ []; mtime = 5 }) ∷ []) [] full_servers

reader_fetches : down_file memory note (some ((1 ∷ []) ∷ (2 ∷ []) ∷ [])) reader ≡ (ok true, loaded)
unfolding down_file fetch_blocks get_block_fetch get_ok request_ok ask write_local fetch lookup
    insert text_eq flatten demand pure ◌>>=◌
reader_fetches = refl

down_file-Fetched_example :
    (bs : List Text) × Fetched memory ((1 ∷ []) ∷ (2 ∷ []) ∷ []) bs full_servers full_servers
    × (loaded ≡ record reader {
      files = insert note (record { bytes = flatten bs; mtime = 5 }) [];
      outside = full_servers;
    })
down_file-Fetched_example =
    down_file-Fetched memory note ((1 ∷ []) ∷ (2 ∷ []) ∷ []) reader loaded reader_fetches

-- The edited file is uploaded with the next version.
abbrev next_entry : Saved
next_entry = record { version = 1; mod_time = 5 }

ahead_after : lookup note (sync_file memory note ahead).1.versions ≡ some next_entry
unfolding sync_file get_block_list sync_answer sync_saved sync_known upload up_file get_block_query
    send_blocks hash_to_file store_blocks post_block_store post_file_commit add_to_version_file
    get_ok request_ok ask look saved_of commit is_known bytes lookup insert text_eq find is_prefix
    text demand pure ◌>>=◌
ahead_after = refl

sync_file-version_example : 0 ≤ 1
sync_file-version_example =
    sync_file-version memory note done next_entry ahead ahead_entry ahead_after

sync_listing-files_example :
    lookup note (sync_listing memory (note ∷ hash_a ∷ []) ahead).1.files ≡ some edited
sync_listing-files_example =
    sync_listing-files memory (note ∷ hash_a ∷ []) note edited ahead ahead_file
