-- ===== src/Cache/Frame/RoundTrip.antt =====
-- What one process frames, the other reads back, however the bytes are cut on the way.
use mathlib.Core.List.{flatten}
use balabox.Base.{
  ℕ, zero, suc, ◌+◌, ◌-◌, ◌≤◌, ◌<◌, ◌≡◌, ◌≢◌, refl, subst, ap, ◌∙◌, inl, inr, some, List, [], ◌∷◌,
  ◌++◌, leb, ltb, if◌then◌else◌, length, take, drop, All, take-append, length-append, append_assoc,
  append-nil, arith, Bool-cases, true,
}
use balabox.Base.Text.{Text}
use balabox.Base.Decimal.{int_mod}
use balabox.Cache.Frame.{
  zeros, int_bytes, read_int, create_buffer, extract_buffer, packets, received, receive_buffer,
}

read_int-int_bytes : (n : ℕ) (s : Text) → n < int_mod → read_int (int_bytes n ++ s) ≡ n
unfolding read_int int_bytes
read_int-int_bytes n s h = omega arith

pub length-zeros : (n : ℕ) → length (zeros n) ≡ n
unfolding zeros
length-zeros zero = refl
length-zeros (suc n) = ap suc (length-zeros n)

-- A message that fits into a buffer of fewer than 2 ^ 32 bytes behind its four length bytes is read
-- back as it was, and the buffer has its full size.
pub extract_buffer-create_buffer :
    (size : ℕ) (msg : Text)
    → 4 + length msg ≤ size
    → size < int_mod
    → (buffer : Text) × (create_buffer size msg ≡ some buffer)
      × (length buffer ≡ size)
      × (extract_buffer size buffer ≡ some msg)
unfolding create_buffer extract_buffer
extract_buffer-create_buffer size msg fits lt =
    let padding = zeros (size - (4 + length msg)) in
    let fits' : leb (4 + length msg) size ≡ true = ground arith in
    (
      int_bytes (length msg) ++ (msg ++ padding),
      rw fits',
      omega (arith, length-append msg padding, length-zeros (size - (4 + length msg))),
      rw (read_int-int_bytes (length msg) (msg ++ padding) (omega arith), fits')
          (ap some (take-append msg padding)),
    )

take-append-drop : (n : ℕ) (s : Text) → take n s ++ drop n s ≡ s
take-append-drop zero s = refl
take-append-drop (suc n) [] = refl
take-append-drop (suc n) (c ∷ s) = ap (λ t. c ∷ t) (take-append-drop n s)

pub take_all : (n : ℕ) (s : Text) → length s ≤ n → take n s ≡ s
take_all zero [] h = refl
take_all zero (c ∷ s) h = absurd (omega arith)
take_all (suc n) [] h = refl
take_all (suc n) (c ∷ s) h = ap (λ t. c ∷ t) (take_all n s (omega arith))

pub drop_all : (n : ℕ) (s : Text) → length s ≤ n → drop n s ≡ []
drop_all zero [] h = refl
drop_all zero (c ∷ s) h = absurd (omega arith)
drop_all (suc n) [] h = refl
drop_all (suc n) (c ∷ s) h = drop_all n s (omega arith)

pub length-drop : (n : ℕ) (s : Text) → length (drop n s) ≡ length s - n
length-drop zero s = omega arith
length-drop (suc n) [] = omega arith
length-drop (suc n) (c ∷ s) = omega (arith, length-drop n s)

-- A packet is full or the last one.
packet-append-drop :
    (packet : ℕ) (s : Text)
    → take (if ltb (length s) packet then length s else packet) s ++ drop packet s ≡ s
packet-append-drop packet s = elim (Bool-cases (ltb (length s) packet)) [
  | inl last ↦
      rw (last, take_all (length s) s (omega arith), drop_all packet s (ground arith))
        (append-nil s)
  | inr full ↦ rw full (take-append-drop packet s)
]

-- The packets that are sent are the buffer, in order, whatever the positive size of a packet, with
-- as much fuel as the buffer is long.
pub flatten-packets :
    (packet fuel : ℕ) (buffer : Text)
    → 0 < packet
    → length buffer ≤ fuel
    → flatten (packets packet fuel (length buffer) buffer) ≡ buffer
unfolding packets flatten
flatten-packets packet zero [] pos le = refl
flatten-packets packet zero (c ∷ buffer) pos le = absurd (omega arith)
flatten-packets packet (suc fuel) [] pos le = refl
flatten-packets packet (suc fuel) (c ∷ buffer) pos le =
    let some_left : ltb 0 (length (c ∷ buffer)) ≡ true = ground arith in
    let tail : flatten
          (packets packet fuel (length (c ∷ buffer) - packet) (drop packet (c ∷ buffer)))
        ≡ drop packet (c ∷ buffer) =
      rw (← length-drop packet (c ∷ buffer)) (
        flatten-packets packet fuel (drop packet (c ∷ buffer)) pos
          (omega (arith, length-drop packet (c ∷ buffer)))) in
    rw (some_left, tail) (packet-append-drop packet (c ∷ buffer))

-- The same for a buffer of the size that is sent.
pub flatten-packets_whole :
    (packet size : ℕ) (buffer : Text)
    → 0 < packet
    → length buffer ≡ size
    → flatten (packets packet size size buffer) ≡ buffer
flatten-packets_whole packet size buffer pos e =
    subst (λ n. flatten (packets packet n n buffer) ≡ buffer) e
      (flatten-packets packet (length buffer) buffer pos (omega arith))

received-flatten :
    (size : ℕ) (got : Text) (chunks : List Text)
    → All (λ c. c ≢ []) chunks
    → length (got ++ flatten chunks) ≡ size
    → received size got chunks ≡ got ++ flatten chunks
unfolding received flatten
received-flatten size got [] h e = rw append-nil
received-flatten size got ([] ∷ chunks) (ne, h) e = absurd (ne refl)
received-flatten size got ((c ∷ chunk) ∷ chunks) (ne, h) e =
    let more : length got < size =
      omega (arith, length-append got (c ∷ (chunk ++ flatten chunks))) in
    let room : ltb (length got) size ≡ true = ground arith in
    rw room (
      received-flatten size (got ++ c ∷ chunk) chunks h
        (ap length (append_assoc got (c ∷ chunk) (flatten chunks)) ∙ e)
      ∙ append_assoc got (c ∷ chunk) (flatten chunks))

-- A buffer of the size that is expected, which arrives in pieces, none of them empty, is received
-- as it was sent.
pub receive_buffer-flatten :
    (size : ℕ) (chunks : List Text)
    → All (λ c. c ≢ []) chunks
    → length (flatten chunks) ≡ size
    → receive_buffer size chunks ≡ some (flatten chunks)
unfolding receive_buffer
receive_buffer-flatten size chunks h e =
    let fits : leb (length (flatten chunks)) size ≡ true = ground arith in
    let exact : size - length (flatten chunks) ≡ 0 = omega arith in
    rw (received-flatten size [] chunks h e, fits, exact) (ap some (append-nil (flatten chunks)))
