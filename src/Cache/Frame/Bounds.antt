-- ===== src/Cache/Frame/Bounds.antt =====
-- No packet is longer than the socket takes at once, and no message leaves its buffer.
use mathlib.Core.List.{flatten}
use balabox.Base.{
  ℕ, zero, suc, ◌+◌, ◌≤◌, ◌<◌, ◌≡◌, true, inl, inr, List, [], ◌∷◌, ◌++◌, ltb, if◌then◌else◌, length,
  take, drop, All, Bool-cases, length-append, arith,
}
use balabox.Base.Text.{Text}
use balabox.Web.Bounds.{length-take_le}
use balabox.Cache.Frame.{packets, received}
use balabox.Cache.Frame.RoundTrip.{length-drop}

length-take_pos : (n : ℕ) (s : Text) → 0 < n → 0 < length s → 0 < length (take n s)
length-take_pos (suc n) (c ∷ s) h h' = omega arith
length-take_pos zero s h h' = absurd (omega arith)
length-take_pos (suc n) [] h h' = absurd (omega arith)

abbrev pub IsPacket : ℕ → Text → Type 0
IsPacket size q = (0 < length q) × (length q ≤ size)

-- Every packet that the send loop hands to the socket is neither empty nor longer than the size of
-- a packet, if this is positive.
pub packets-IsPacket :
    (size fuel : ℕ) (buffer : Text)
    → 0 < size
    → All (IsPacket size) (packets size fuel (length buffer) buffer)
unfolding packets
packets-IsPacket size zero buffer pos = tt
packets-IsPacket size (suc fuel) [] pos = tt
packets-IsPacket size (suc fuel) (c ∷ buffer) pos =
    let more = packets-IsPacket size fuel (drop size (c ∷ buffer)) pos in
    let n = if ltb (length (c ∷ buffer)) size then length (c ∷ buffer) else size in
    let small : n ≤ size = ground arith in
    let some_left : 0 < n = ground arith in
    let (le, le') = length-take_le n (c ∷ buffer) in
    let going : ltb 0 (length (c ∷ buffer)) ≡ true = ground arith in
    rw going (
      (length-take_pos n (c ∷ buffer) some_left (omega arith), omega arith),
      rw (← length-drop size (c ∷ buffer)) more,
    )

received_below :
    (packet size : ℕ) (got : Text) (chunks : List Text)
    → length got < size + packet
    → All (IsPacket packet) chunks
    → length (received size got chunks) < size + packet
unfolding received
received_below packet size got [] small pieces = small
received_below packet size got ([] ∷ chunks) small (piece, pieces) = small
received_below packet size got ((c ∷ chunk) ∷ chunks) small ((some_byte, fits), pieces) =
    elim (Bool-cases (ltb (length got) size)) [
      | inl more ↦
          let below : length got < size = ground arith in
          rw more (
            received_below packet size (got ++ c ∷ chunk) chunks
              (omega (arith, length-append got (c ∷ chunk))) pieces)
      | inr whole ↦ rw whole small
    ]

received_reaches :
    (packet size : ℕ) (got : Text) (chunks : List Text)
    → All (IsPacket packet) chunks
    → size ≤ length got + length (flatten chunks)
    → size ≤ length (received size got chunks)
unfolding received flatten
received_reaches packet size got [] pieces enough = omega arith
received_reaches packet size got ([] ∷ chunks) ((some_byte, fits), pieces) enough =
    absurd (omega arith)
received_reaches packet size got ((c ∷ chunk) ∷ chunks) (piece, pieces) enough =
    elim (Bool-cases (ltb (length got) size)) [
      | inl more ↦ rw more (
          received_reaches packet size (got ++ c ∷ chunk) chunks pieces (
            omega
              (arith, length-append got (c ∷ chunk), length-append (c ∷ chunk) (flatten chunks))))
      | inr whole ↦ let above : size ≤ length got = ground arith in rw whole above
    ]

-- When the pieces that recv gives are neither empty nor longer than a packet and have together at
-- least the size of a message, the receive loop ends with at least this size, and with less than a
-- packet more.
pub received-bounds :
    (packet size : ℕ) (chunks : List Text)
    → 0 < packet
    → All (IsPacket packet) chunks
    → size ≤ length (flatten chunks)
    → (size ≤ length (received size [] chunks)) × (length (received size [] chunks) < size + packet)
received-bounds packet size chunks pos pieces enough = (
  received_reaches packet size [] chunks pieces (omega arith),
  received_below packet size [] chunks (omega arith) pieces,
)
