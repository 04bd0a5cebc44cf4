-- ===== src/Tests/Process.antt =====
-- The theorems on the process of the cache server, at a database that is a list.
use mathlib.Core.List.{map}
use balabox.Base.{
  All, ap, ◌+◌, ◌-◌, ◌≡◌, refl, sym, ◌∙◌, true, false, some, List, [], ◌∷◌, ◌++◌, length, arith,
}
use balabox.Base.Text.{Text, text, text_eq}
use balabox.Cache.Frame.{int_bytes, zeros, create_buffer}
use balabox.Cache.Process.{Startup, waiting, crashed, run_mono_thread}
use balabox.Cache.Process.Blocks.{Call, get_block}
use balabox.Cache.Process.Laws.{
  command_of, answers, AreFrames, IsFrame, IsClient, run_mono_thread_lem, run_mono_thread-closed,
}
use balabox.Cache.Server.Laws.{put_command, get_command}
use balabox.Tests.Database.{list_db, list_db-IsLevelDb}
use balabox.Tests.Data.{hash_a, hash_b}
use balabox.Tests.Cache.{
  comma, bytes, flatten-bytes, bytes-some, sized, nothing, calls, calls-IsCall, nothing-Holds,
}

abbrev ready : Startup
ready = record { opens = true; listens = true }

abbrev without_db : Startup
without_db = record { opens = false; listens = true }

-- The frame of a message, one byte at a time.
abbrev framed : Text → List Text
framed msg = bytes (int_bytes (length msg) ++ (msg ++ zeros (60 - (4 + length msg))))

abbrev clients : List (Call × List Text)
clients = map (λ c. (c, framed (command_of c))) calls

framed-IsFrame :
    (msg : Text)
    → create_buffer 60 msg ≡ some (int_bytes (length msg) ++ (msg ++ zeros (60 - (4 + length msg))))
    → IsFrame 60 msg (framed msg)
framed-IsFrame msg e = e ∙ ap some (sym (flatten-bytes _))

clients-IsClient : All (IsClient 60) clients
unfolding create_buffer put_command get_command text
clients-IsClient =
    let (put_good, (get_good, (other_good, _))) = calls-IsCall in
    (
      (put_good, framed-IsFrame (put_command hash_a comma) refl, bytes-some _),
      (
        (get_good, framed-IsFrame (get_command hash_a) refl, bytes-some _),
        ((other_good, framed-IsFrame (get_command hash_b) refl, bytes-some _), tt),
      ),
    )

run_mono_thread_lem_example :
    (replies : List (List Text)) × (s : list_db.State) × (run_mono_thread list_db 60 7 ready
        (map (λ c. some c.1) clients)
        []
      ≡ (replies, waiting, s))
    × AreFrames 60 (answers nothing (map (λ c. c.0) clients)) replies
run_mono_thread_lem_example =
    run_mono_thread_lem list_db 60 7 sized list_db-IsLevelDb (λ k v s. refl) ready clients nothing
      [] refl refl clients-IsClient nothing-Holds

answers-calls : answers nothing calls ≡ text "OK" ∷ comma ∷ text "Operation failed" ∷ []
unfolding text text_eq
answers-calls = refl

run_mono_thread-closed_example :
    run_mono_thread list_db 60 7 without_db (some (framed (get_command hash_a)) ∷ []) []
    ≡ ([], crashed, [])
unfolding create_buffer get_command text
run_mono_thread-closed_example =
    let (_, (get_good, _)) = calls-IsCall in
    run_mono_thread-closed list_db 60 7 without_db (get_block hash_a) (framed (get_command hash_a))
      [] [] refl refl (omega arith)
      (get_good, framed-IsFrame (get_command hash_a) refl, bytes-some _)
