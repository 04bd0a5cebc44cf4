-- ===== src/Cache/Client/Laws.antt =====
-- What LevelDBHelper does over sockets that lose nothing: the database's own put and get.
use mathlib.Core.List.{flatten}
use balabox.Base.{
  ℕ, ◌+◌, ◌≤◌, ◌<◌, ◌≡◌, ◌≢◌, refl, ap, ◌∙◌, Bool, true, false, not, inl, inr, ◌==◌, Bool-cases,
  Option, none, some, List, [], if◌then◌else◌, length, All, arith,
}
use balabox.Base.Text.{Text, text, text_eq}
use balabox.Base.Decimal.{int_mod}
use balabox.Exec.{ok, ◌>>=◌}
use balabox.Cache.Frame.{packets, receive_buffer}
use balabox.Cache.Frame.RoundTrip.{
  extract_buffer-create_buffer, flatten-packets_whole, receive_buffer-flatten,
}
use balabox.Cache.Server.{LevelDb, serve_command}
use balabox.Cache.Server.Laws.{
  IsLevelDb, reply_of, length-reply_of, IsKey, put_command, get_command, length-put_command,
  length-get_command, serve_command-put, serve_command-get,
}
use balabox.Cache.Process.{send_leveldb_msg, serve_client}
use balabox.Cache.Client.{Network, failed, send_local_msg, helper_get, helper_put, already_exists}

-- The bytes arrive as they were sent, however they are cut, and no `recv` gives nothing early.
pub record IsNetwork (N : Network) : Type 0 where
  pub connected : N.connects ≡ true
  pub send_all : (ps : List Text) → (N.send ps).0 ≡ true
  pub send_same : (ps : List Text) → flatten (N.send ps).1 ≡ flatten ps
  pub send_some : (ps : List Text) → All (λ c. c ≢ []) (N.send ps).1

-- Sizes that fit an `int`, with room for the messages of the server itself.
pub record IsSized (msg_size packet_size : ℕ) : Type 0 where
  pub some_packet : 0 < packet_size
  pub fits_int : msg_size < int_mod
  pub fits_failure : 20 ≤ msg_size

-- There is a block, and it is not taken for a failure.
abbrev pub exists : Option Text → Bool
exists none = false
exists (some v) = not (failed v)

module _ (N : Network) (D : LevelDb) (m p : ℕ) (net : IsNetwork N) (sized : IsSized m p) where
  receive_buffer-send :
      (buffer : Text)
      → length buffer ≡ m
      → receive_buffer m (N.send (packets p m m buffer)).1 ≡ some buffer
  receive_buffer-send buffer e =
      let whole : flatten (packets p m m buffer) ≡ buffer =
        flatten-packets_whole p m buffer sized.some_packet e in
      let same : flatten (N.send (packets p m m buffer)).1 ≡ buffer =
        net.send_same (packets p m m buffer) ∙ whole in
      receive_buffer-flatten m (N.send (packets p m m buffer)).1
        (net.send_some (packets p m m buffer)) (ap length same ∙ e)
      ∙ ap some same

  send_local_msg_lem :
      (msg reply : Text) (s s' : D.State)
      → 4 + length msg ≤ m
      → 4 + length reply ≤ m
      → serve_command D true msg s ≡ (ok reply, s')
      → send_local_msg N D m p msg s ≡ (ok reply, s')
  unfolding send_local_msg serve_client send_leveldb_msg ◌>>=◌
  send_local_msg_lem msg reply s s' fits fits' run =
      let (b, made, full, back) = extract_buffer-create_buffer m msg fits sized.fits_int in
      let (b', made', full', back') = extract_buffer-create_buffer m reply fits' sized.fits_int in
      rw (
        net.connected,
        made,
        receive_buffer-send b full,
        back,
        run,
        made',
        net.send_all (packets p m m b),
        receive_buffer-send b' full',
        back',
      )

  abbrev outcome : Bool → Text
  outcome done = if done then text "OK" else text "Operation failed"

  length-outcome : (done : Bool) → 4 + length (outcome done) ≤ m
  unfolding text
  length-outcome true = omega (arith, sized.fits_failure)
  length-outcome false = omega (arith, sized.fits_failure)

  abbrev put_code : Bool → ℕ
  put_code fails = if fails then 1 else 0

  abbrev get_result : Text → Text → ℕ × Text
  get_result old v = if failed v then (1, old) else (0, v)

  code-exists :
      (o : Option Text)
      → ((elim o as (λ _. ℕ × Text) [ none ↦ (1, []) | some v ↦ get_result [] v ]).0 == 0)
        ≡ exists o
  code-exists none = refl
  code-exists (some v) = elim (Bool-cases (failed v)) [ inl bad ↦ rw bad | inr good ↦ rw good ]

  failed-outcome : (done : Bool) → put_code (failed (outcome done)) ≡ put_code (not done)
  unfolding failed text text_eq
  failed-outcome true = refl
  failed-outcome false = refl

  failed-reply_of :
      (old : Text) (o : Option Text)
      → get_result old (reply_of o) ≡ elim o [ none ↦ (1, old) | some v ↦ get_result old v ]
  unfolding failed text text_eq
  failed-reply_of old none = refl
  failed-reply_of old (some v) = refl

  -- LevelDBHelper::put with a key without a comma stores the block in the database and returns 0 if
  -- the database took it, and 1 if not, when the sockets lose nothing (IsNetwork) and the sizes are
  -- sound (IsSized) and the command fits a buffer.
  pub helper_put_lem :
      (k v : Text) (s : D.State)
      → IsKey k
      → 4 + length (put_command k v) ≤ m
      → helper_put N D m p k v s ≡ (ok (if not (D.put k v s).0 then 1 else 0), (D.put k v s).1)
  unfolding helper_put ◌>>=◌
  helper_put_lem k v s key fits =
      rw
        (send_local_msg_lem (put_command k v) (outcome (D.put k v s).0) s (D.put k v s).1 fits
          (length-outcome (D.put k v s).0) (serve_command-put D k v s key))
        (ap (λ c. (ok c, (D.put k v s).1)) (failed-outcome (D.put k v s).0))

  -- LevelDBHelper::get with a key without a comma gives the block of the database and 0, or leaves
  -- the string as it was and returns 1 if there is none or it is the message of a failure, when the
  -- sockets lose nothing (IsNetwork) and the sizes are sound (IsSized) and the command and the
  -- block fit a buffer. The database stays as it is.
  pub helper_get_lem :
      (k old : Text) (s : D.State)
      → IsKey k
      → 4 + length (get_command k) ≤ m
      → ((v : Text) → D.get k s ≡ some v → 4 + length v ≤ m)
      → helper_get N D m p k old s ≡ (
        ok (elim (D.get k s) [ none ↦ (1, old) | some v ↦ if failed v then (1, old) else (0, v) ]),
        s,
      )
  unfolding helper_get ◌>>=◌
  helper_get_lem k old s key fits small =
      rw
        (send_local_msg_lem (get_command k) (reply_of (D.get k s)) s s fits
          (length-reply_of m (D.get k s) sized.fits_failure small) (serve_command-get D k s key))
        (ap (λ r. (ok r, s)) (failed-reply_of old (D.get k s)))

  -- LevelDBHelper::alreadyExists with a key without a comma tells whether the database has a block
  -- for it that is not the message of a failure, when the sockets lose nothing (IsNetwork) and the
  -- sizes are sound (IsSized) and the command and the block fit a buffer. The database stays as it
  -- is.
  pub already_exists_lem :
      (k : Text) (s : D.State)
      → IsKey k
      → 4 + length (get_command k) ≤ m
      → ((v : Text) → D.get k s ≡ some v → 4 + length v ≤ m)
      → already_exists N D m p k s ≡ (ok (exists (D.get k s)), s)
  unfolding already_exists ◌>>=◌
  already_exists_lem k s key fits small =
      rw (helper_get_lem k [] s key fits small) (ap (λ b. (ok b, s)) (code-exists (D.get k s)))

  -- A block that LevelDBHelper::put stored, LevelDBHelper::get reads back with code 0: under a key
  -- without a comma, if the database took it, it fits a buffer and is not the message of a failure,
  -- and the sockets lose nothing (IsNetwork) and the sizes are sound (IsSized).
  pub helper_get-helper_put :
      (k v old : Text) (s : D.State)
      → IsLevelDb D
      → IsKey k
      → 4 + length (put_command k v) ≤ m
      → failed v ≡ false
      → (D.put k v s).0 ≡ true
      → helper_get N D m p k old (helper_put N D m p k v s).1 ≡ (ok (0, v), (D.put k v s).1)
  helper_get-helper_put k v old s laws key fits plain took =
      let short : 4 + length (get_command k) ≤ m =
        omega (arith, length-put_command k v, length-get_command k) in
      let small : (w : Text) → D.get k (D.put k v s).1 ≡ some w → 4 + length w ≤ m = λ w e.
        let reads : D.get k (D.put k v s).1 ≡ some v = laws.get-put_self k v s took in
        let same : v ≡ w = cc in omega (arith, length-put_command k v, ap length same) in
      rw (
        helper_put_lem k v s key fits,
        helper_get_lem k old (D.put k v s).1 key short small,
        laws.get-put_self k v s took,
        plain,
      )
