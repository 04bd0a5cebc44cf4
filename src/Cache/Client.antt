-- ===== src/Cache/Client.antt =====
-- blockcache/leveldb_helper.cc, and `sendLocalMsg` of blockcache/http_helper.cpp with the round of
-- the database's process, with its database open, that answers it. The sockets between the two are a parameter. A crash is
-- one of either process.
pub mod Laws
pub mod Traces
use balabox.Base.{ℕ, Bool, true, false, not, List, [], ◌==◌, if◌then◌else◌}
use balabox.Base.Text.{Text, text, text_eq}
use balabox.Exec.{Exec, pure, die, demand, ◌>>=◌}
use balabox.Cache.Frame.{create_buffer, extract_buffer, packets, receive_buffer}
use balabox.Cache.Server.{LevelDb}
use balabox.Cache.Process.{serve_client}
use balabox.Cache.Server.Laws.{put_command, get_command}

pub record Network : Type 0 where
  -- the socket is made and connected
  pub connects : Bool
  -- whether `send` took every packet, and what `recv` gives at the other end, in turn
  pub send : List Text → Bool × List Text

-- The message that stands for a failure.
unfoldable pub failed : Text → Bool
unfolding text_eq
failed response_data = text_eq response_data (text "Operation failed")

module _ (N : Network) (D : LevelDb) (msg_size packet_size : ℕ) where
  -- sendLocalMsg with getResp. A `send` that fails leaves the response empty.
  unfoldable pub send_local_msg : Text → Exec D.State Text
  send_local_msg msg = if not N.connects then die else do
    buffer ← demand (create_buffer msg_size msg)
    let sent = N.send (packets packet_size msg_size msg_size buffer)
    replies ← serve_client D msg_size packet_size true sent.1
    if not sent.0 then pure [] else do
      response ← demand (receive_buffer msg_size (N.send replies).1)
      demand (extract_buffer msg_size response)

  -- LevelDBHelper::get, with the code and `data`, which a failure leaves as it was, `old`.
  unfoldable pub helper_get : Text → Text → Exec D.State (ℕ × Text)
  unfolding failed
  helper_get block_hash old = do
    response_data ← send_local_msg (get_command block_hash)
    pure (if failed response_data then (1, old) else (0, response_data))

  -- LevelDBHelper::put
  unfoldable pub helper_put : Text → Text → Exec D.State ℕ
  unfolding failed
  helper_put block_hash block = do
    response_data ← send_local_msg (put_command block_hash block)
    pure (if failed response_data then 1 else 0)

  unfoldable pub already_exists : Text → Exec D.State Bool
  already_exists block_hash = do (code, dummy) ← helper_get block_hash []; pure (code == 0)
