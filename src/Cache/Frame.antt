-- ===== src/Cache/Frame.antt =====
-- blockcache/http_helper.cpp: `createBuffer` and `extractBuffer`, and the loops that send and
-- receive a buffer. The size of a message, MSG_SIZE, and of a packet, PACKET_SIZE, are arguments.
pub mod RoundTrip
pub mod Bounds
use balabox.Base.{
  ℕ, zero, suc, ◌+◌, ◌-◌, ◌*◌, ◌/◌, ◌%◌, Option, none, some, List, [], ◌∷◌, ◌++◌, leb, ltb,
  if◌then◌else◌, length, take, drop,
}
use balabox.Base.Text.{Text}

-- MSG_SIZE and PACKET_SIZE
abbrev pub msg_size : ℕ
msg_size = 5000000

abbrev pub packet_size : ℕ
packet_size = 60000

-- bzero
unfoldable pub zeros : ℕ → Text
zeros zero = []
zeros (suc n) = 0 ∷ zeros n

-- An `int` in memory, low byte first.
unfoldable pub int_bytes : ℕ → Text
int_bytes n = n % 256 ∷ (n / 256) % 256 ∷ (n / 65536) % 256 ∷ (n / 16777216) % 256 ∷ []

unfoldable pub read_int : Text → ℕ
read_int (a ∷ b ∷ c ∷ d ∷ s) = a + 256 * b + 65536 * c + 16777216 * d
read_int s = 0

-- createBuffer: the length, the data, and zeros up to the size. `none` where `memcpy` would write
-- behind the buffer.
unfoldable pub create_buffer : ℕ → Text → Option Text
unfolding zeros int_bytes
create_buffer size msg =
    if leb (4 + length msg) size
    then some (int_bytes (length msg) ++ (msg ++ zeros (size - (4 + length msg))))
    else none

-- extractBuffer, and the string of its result. `none` where `memcpy` would read or write behind a
-- buffer; a negative length is a large one.
unfoldable pub extract_buffer : ℕ → Text → Option Text
unfolding read_int
extract_buffer size buffer =
    if leb (4 + read_int buffer) size then some (take (read_int buffer) (drop 4 buffer)) else none

-- The packets that a loop over `bytesLeft` hands to `send`.
unfoldable pub packets : ℕ → ℕ → ℕ → Text → List Text
packets packet zero left buffer = []
packets packet (suc fuel) left buffer =
    let size = if ltb left packet then left else packet in
    let more = packets packet fuel (left - packet) (drop packet buffer) in
    if ltb 0 left then take size buffer ∷ more else []

-- The receive loop: what `recv` gives, in turn, is appended until the message is whole or `recv`
-- gives nothing. Then the buffer of zeros holds it. `none` where it would be written behind its end.
unfoldable pub received : ℕ → Text → List Text → Text
received size got [] = got
received size got ([] ∷ chunks) = got
received size got ((c ∷ chunk) ∷ chunks) =
    let more = received size (got ++ c ∷ chunk) chunks in
    if ltb (length got) size then more else got

unfoldable pub receive_buffer : ℕ → List Text → Option Text
unfolding received zeros
receive_buffer size chunks =
    let got = received size [] chunks in
    if leb (length got) size then some (got ++ zeros (size - length got)) else none
