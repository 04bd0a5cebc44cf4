-- ===== src/Cache/Process/Laws.antt =====
-- The answers of the process to any sequence of clients.
use mathlib.Core.List.{map, flatten}
use balabox.Base.Decimal.{int_mod}
use balabox.Base.{
  ℕ, ◌+◌, ◌≤◌, ◌<◌, ◌≡◌, ◌≢◌, refl, sym, ap, ◌∙◌, Bool, true, false, Option, none, some, List, [],
  ◌∷◌, length, All, arith,
}
use balabox.Base.Text.{Text, text}
use balabox.Exec.{ok, crash, ◌>>=◌}
use balabox.Cache.Frame.{create_buffer, packets}
use balabox.Cache.Frame.RoundTrip.{
  extract_buffer-create_buffer, flatten-packets_whole, receive_buffer-flatten,
}
use balabox.Cache.Server.{LevelDb, serve_command}
use balabox.Cache.Client.Laws.{IsSized}
use balabox.Cache.Server.Laws.{
  IsLevelDb, reply_of, length-reply_of, put_command, get_command, serve_command-put,
  serve_command-get, serve_command-put_closed, serve_command-get_closed,
}
use balabox.Cache.Process.Blocks.{
  Call, put_block, get_block, Store, with_block, IsCall, Holds, put-Holds,
}
use balabox.Cache.Process.{
  Startup, Ending, waiting, crashed, send_leveldb_msg, serve_client, serve_clients, run_mono_thread,
}

-- What a request asks, and what a map from hashes to blocks answers.
abbrev pub command_of : Call → Text
command_of (put_block k v) = put_command k v
command_of (get_block k) = get_command k

abbrev pub answers : Store → List Call → List Text
answers store [] = []
answers store (put_block k v ∷ calls) = text "OK" ∷ answers (with_block k v store) calls
answers store (get_block k ∷ calls) =
    elim (store k) [ none ↦ text "Operation failed" | some v ↦ v ] ∷ answers store calls

-- The bytes of the pieces are the frame of the message.
abbrev pub IsFrame : ℕ → Text → List Text → Type 0
IsFrame m msg chunks = create_buffer m msg ≡ some (flatten chunks)

abbrev pub AreFrames : ℕ → List Text → List (List Text) → Type 0
AreFrames m [] [] = Unit
AreFrames m (msg ∷ msgs) (chunks ∷ replies) = IsFrame m msg chunks × AreFrames m msgs replies
AreFrames m _ _ = ⊥

-- A client that sends one request, in pieces of any size, none of them empty.
abbrev pub IsClient : ℕ → Call × List Text → Type 0
IsClient m (call, chunks) =
    IsCall m call × IsFrame m (command_of call) chunks × All (λ c. c ≢ []) chunks

module _ (D : LevelDb) (m p : ℕ) (sized : IsSized m p) where
  serve_client_lem :
      (msg reply : Text) (chunks : List Text) (s s' : D.State)
      → 4 + length msg ≤ m
      → 4 + length reply ≤ m
      → IsFrame m msg chunks
      → All (λ c. c ≢ []) chunks
      → serve_command D true msg s ≡ (ok reply, s')
      → (sent : List Text) × (serve_client D m p true chunks s ≡ (ok sent, s'))
        × IsFrame m reply sent
  unfolding serve_client send_leveldb_msg ◌>>=◌
  serve_client_lem msg reply chunks s s' fits fits' framed pieces run =
      let (b, made, full, back) = extract_buffer-create_buffer m msg fits sized.fits_int in
      let (b', made', full', _) = extract_buffer-create_buffer m reply fits' sized.fits_int in
      let same : flatten chunks ≡ b = cc in
      let whole : flatten (packets p m m b') ≡ b' =
        flatten-packets_whole p m b' sized.some_packet full' in
      (
        packets p m m b',
        rw (receive_buffer-flatten m chunks pieces (ap length same ∙ full), same, back, run, made'),
        made' ∙ ap some (sym whole),
      )

module _ (D : LevelDb) (m p : ℕ) (sized : IsSized m p) (laws : IsLevelDb D)
    (takes : (k v : Text) (s : D.State) → (D.put k v s).0 ≡ true) where
  serve_clients-cons :
      (chunks : List Text) (clients : List (Option (List Text))) (sent : List Text) (s s' : D.State)
      (replies : List (List Text)) (ending : Ending) (last : D.State)
      → serve_client D m p true chunks s ≡ (ok sent, s')
      → serve_clients D m p true clients s' ≡ (replies, ending, last)
      → serve_clients D m p true (some chunks ∷ clients) s ≡ (sent ∷ replies, ending, last)
  unfolding serve_clients
  serve_clients-cons chunks clients sent s s' replies ending last run later = ground arith

  serve_clients_lem :
      (clients : List (Call × List Text)) (store : Store) (s : D.State)
      → All (IsClient m) clients
      → Holds D m store s
      → (replies : List (List Text)) × (s' : D.State) × (serve_clients D m p true
            (map (λ c. some c.1) clients)
            s
          ≡ (replies, waiting, s'))
        × AreFrames m (answers store (map (λ c. c.0) clients)) replies
  unfolding serve_clients text
  serve_clients_lem [] store s good h = ([], s, refl, tt)
  serve_clients_lem ((put_block k v, chunks) ∷ clients) store s
        (((key, fits), framed, pieces), good) h =
      let (sent, run, frame) =
        serve_client_lem D m p sized (put_command k v) (text "OK") chunks s (D.put k v s).1 fits
          (omega (arith, sized.fits_failure)) framed pieces
          (serve_command-put D k v s key ∙ rw (takes k v s)) in
      let (replies, s', later, frames) =
        serve_clients_lem clients (with_block k v store) (D.put k v s).1 good
          (put-Holds D m laws takes k v store s fits h) in
      (
        sent ∷ replies,
        s',
        serve_clients-cons chunks _ sent s _ replies _ s' run later,
        (frame, frames),
      )
  serve_clients_lem ((get_block k, chunks) ∷ clients) store s (((key, fits), framed, pieces), good)
        h =
      let same = h.same k in
      let (sent, run, frame) =
        serve_client_lem D m p sized (get_command k) (reply_of (store k)) chunks s s fits
          (length-reply_of m (store k) sized.fits_failure (h.small k)) framed pieces
          (serve_command-get D k s key ∙ ap (λ o. (ok (reply_of o), s)) same) in
      let (replies, s', later, frames) = serve_clients_lem clients store s good h in
      (
        sent ∷ replies,
        s',
        serve_clients-cons chunks _ sent s _ replies _ s' run later,
        (frame, frames),
      )

  -- The process of the cache server, started with its database open, answers any sequence of
  -- clients, each of which sends one put or get command in pieces of any size, in their order with
  -- the frames of what a map from hashes to blocks answers, and then waits for the next one. The
  -- keys are without a comma, the commands and the blocks that are there fit a buffer, the database
  -- takes every block, and the sizes are sound (IsSized).
  pub run_mono_thread_lem :
      (start : Startup) (clients : List (Call × List Text)) (store : Store) (s : D.State)
      → start.opens ≡ true
      → start.listens ≡ true
      → All (IsClient m) clients
      → Holds D m store s
      → (replies : List (List Text)) × (s' : D.State) × (run_mono_thread D m p start
            (map (λ c. some c.1) clients)
            s
          ≡ (replies, waiting, s'))
        × AreFrames m (answers store (map (λ c. c.0) clients)) replies
  unfolding run_mono_thread
  run_mono_thread_lem start clients store s opens listens good h =
      rw (listens, opens) (serve_clients_lem clients store s good h)

module _ (D : LevelDb) (m p : ℕ) where
  serve_clients-crash :
      (opened : Bool) (chunks : List Text) (clients : List (Option (List Text))) (s : D.State)
      → serve_client D m p opened chunks s ≡ (crash, s)
      → serve_clients D m p opened (some chunks ∷ clients) s ≡ ([], crashed, s)
  unfolding serve_clients
  serve_clients-crash opened chunks clients s run = ground arith

  command_of-closed :
      (call : Call) (s : D.State)
      → IsCall m call
      → serve_command D false (command_of call) s ≡ (crash, s)
  command_of-closed (put_block k v) s (key, fits) = serve_command-put_closed D k v s key
  command_of-closed (get_block k) s (key, fits) = serve_command-get_closed D k s

  command_of-fits : (call : Call) → IsCall m call → 4 + length (command_of call) ≤ m
  command_of-fits (put_block k v) (key, fits) = fits
  command_of-fits (get_block k) (key, fits) = fits

  serve_client-closed :
      (call : Call) (chunks : List Text) (s : D.State)
      → m < int_mod
      → IsClient m (call, chunks)
      → serve_client D m p false chunks s ≡ (crash, s)
  unfolding serve_client ◌>>=◌
  serve_client-closed call chunks s small (good, framed, pieces) =
      let (b, made, full, back) =
        extract_buffer-create_buffer m (command_of call) (command_of-fits call good) small in
      let same : flatten chunks ≡ b = cc in
      rw (
        receive_buffer-flatten m chunks pieces (ap length same ∙ full),
        same,
        back,
        command_of-closed call s good,
      )

  pub run_mono_thread-closed :
      (start : Startup) (call : Call) (chunks : List Text) (clients : List (Option (List Text)))
      (s : D.State)
      → start.opens ≡ false
      → start.listens ≡ true
      → m < int_mod
      → IsClient m (call, chunks)
      → run_mono_thread D m p start (some chunks ∷ clients) s ≡ ([], crashed, s)
  unfolding run_mono_thread
  run_mono_thread-closed start call chunks clients s closed listens small client =
      rw (listens, closed)
        (serve_clients-crash false chunks clients s
          (serve_client-closed call chunks s small client))
