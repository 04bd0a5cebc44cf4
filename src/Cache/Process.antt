-- ===== src/Cache/Process.antt =====
-- blockcache/leveldb_server.cpp: `run_mono_thread` with `create_db`, the loop that serves one client
-- after the other. What the sockets of the system give is an argument.
pub mod Blocks
pub mod Laws
use balabox.Base.{
  ℕ, Bool, true, false, ◌&&◌, ◌||◌, not, Option, none, some, List, [], ◌∷◌, if◌then◌else◌,
}
use balabox.Base.Text.{Text, text, text_eq}
use balabox.Exec.{Exec, Result, ok, crash, die, demand, pure, ◌>>=◌}
use balabox.Cache.Frame.{create_buffer, extract_buffer, packets, receive_buffer}
use balabox.Cache.Server.{LevelDb, serve_command}

-- What the system gives the process at its start.
pub record Startup : Type 0 where
  -- DB::Open is ok; if not, `db` stays null
  pub opens : Bool
  -- socket, bind, listen and malloc succeed
  pub listens : Bool

-- How the process stands after the clients that came.
pub data Ending : Type 0 where
  waiting exited crashed : Ending

module _ (D : LevelDb) (msg_size packet_size : ℕ) where
  -- sendLevelDBMsg: the packets that it hands to `send`. It only prints that one failed.
  unfoldable pub send_leveldb_msg : Text → Exec D.State (List Text)
  send_leveldb_msg msg = do
    buffer ← demand (create_buffer msg_size msg)
    pure (packets packet_size msg_size msg_size buffer)

  -- The body of the loop, for what `recv` gives. The buffer is all zeros before it.
  unfoldable pub serve_client : Bool → List Text → Exec D.State (List Text)
  serve_client opened chunks = do
    buffer ← demand (receive_buffer msg_size chunks)
    request ← demand (extract_buffer msg_size buffer)
    reply ← serve_command D opened request
    send_leveldb_msg reply

  -- The loop over what `accept` gives: a client, or a failure, which ends the process.
  unfoldable pub serve_clients :
      Bool → List (Option (List Text)) → D.State → List (List Text) × Ending × D.State
  serve_clients opened [] s = ([], waiting, s)
  serve_clients opened (none ∷ clients) s = ([], exited, s)
  serve_clients opened (some chunks ∷ clients) s =
      let (answered, s') = serve_client opened chunks s in
      let (later, ending, last) = serve_clients opened clients s' in
      elim answered [ crash ↦ ([], crashed, s') | ok reply ↦ (reply ∷ later, ending, last) ]

  unfoldable pub run_mono_thread :
      Startup → List (Option (List Text)) → D.State → List (List Text) × Ending × D.State
  run_mono_thread start clients s =
      if start.listens then serve_clients start.opens clients s else ([], exited, s)
