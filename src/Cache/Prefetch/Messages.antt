-- ===== src/Cache/Prefetch/Messages.antt =====
-- The messages that cache_block_fetch.cpp sends to the prefetcher.
use balabox.Base.{
  ℕ, suc, ◌-◌, ◌<◌, ◌≡◌, ◌≢◌, refl, ap, ◌∙◌, true, [], ◌∷◌, ◌++◌, ◌==◌, any, leb, length, All,
  length-append, append-nil, arith,
}
use balabox.Base.Text.{Text, c_string}
use balabox.Exec.{ok, pure}
use balabox.Cache.Frame.{zeros}
use balabox.Cache.Frame.RoundTrip.{length-zeros}
use balabox.Cache.Server.{LevelDb}
use balabox.Cache.Fetch.{Cached, prefetch_msg_size, send_msg}
use balabox.Cache.Prefetch.{message_of}

c_string-zeros : (msg : Text) (n : ℕ) → All (λ c. c ≢ 0) msg → c_string (msg ++ zeros (suc n)) ≡ msg
unfolding c_string zeros
c_string-zeros [] n h = refl
c_string-zeros (c ∷ msg) n (ne, h) = ground (arith, c_string-zeros msg n h)

any-zeros : (msg : Text) (n : ℕ) → any (λ c. c == 0) (msg ++ zeros (suc n)) ≡ true
unfolding zeros
any-zeros [] n = refl
any-zeros (c ∷ msg) n = ground (arith, any-zeros msg n)

-- The buffer that holds a message.
abbrev pub sent : Text → Text
sent msg = msg ++ zeros (prefetch_msg_size - length msg)

sent-suc :
    (msg : Text)
    → length msg < prefetch_msg_size
    → (n : ℕ) × (prefetch_msg_size - length msg ≡ suc n)
sent-suc msg lt = (prefetch_msg_size - length msg - 1, omega arith)

length-sent : (msg : Text) → length msg < prefetch_msg_size → length (sent msg) ≡ prefetch_msg_size
length-sent msg lt = omega (
  arith,
  length-append msg (zeros (prefetch_msg_size - length msg)),
  length-zeros (prefetch_msg_size - length msg),
)

-- A message is received as it was sent.
message_of-sent :
    {S : Type 0} (msg : Text) (s : S)
    → length msg < prefetch_msg_size
    → All (λ c. c ≢ 0) msg
    → message_of (sent msg) s ≡ (ok msg, s)
unfolding message_of zeros pure
message_of-sent msg s lt plain =
    let (n, e) = sent-suc msg lt in
    let full : prefetch_msg_size - length (sent msg) ≡ 0 = omega (arith, length-sent msg lt) in
    let whole : sent msg ++ zeros (prefetch_msg_size - length (sent msg)) ≡ msg ++ zeros (suc n) =
      rw full (append-nil (sent msg) ∙ ap (λ k. msg ++ zeros k) e) in
    rw (whole, any-zeros msg n, c_string-zeros msg n plain)

-- What cache_block_fetch sends to the prefetcher, a message of fewer than 1000 bytes without a NUL,
-- the prefetcher reads as it was.
pub message_of-send_msg :
    {S : Type 0} (D : LevelDb) (msg : Text) (w : Cached D) (s : S)
    → length msg < prefetch_msg_size
    → All (λ c. c ≢ 0) msg
    → (send_msg D msg w ≡ (ok tt, record w { prefetches = w.prefetches ++ sent msg ∷ [] }))
      × (message_of (sent msg) s ≡ (ok msg, s))
unfolding send_msg pure
message_of-send_msg D msg w s lt plain =
    let fits : leb (length msg) prefetch_msg_size ≡ true = ground arith in
    (rw fits, message_of-sent msg s lt plain)
