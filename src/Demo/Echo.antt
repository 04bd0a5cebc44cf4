-- ===== src/Demo/Echo.antt =====
-- blockcache/example.cpp, a program that prints the request that it gets, and blockcache/test.cpp,
-- which sends one message to the process of the cache server. A null string that is printed is a
-- crash.
use balabox.Base.{
  ℕ, zero, suc, ◌≡◌, ◌≢◌, ◌<◌, refl, ap, ◌∙◌, true, false, Option, [], ◌∷◌, ◌++◌, ltb,
  if◌then◌else◌, length, take, drop, All, append_assoc, append-nil, arith,
}
use balabox.Base.Text.{Text, text, c_string}
use balabox.Base.Decimal.{int_to_str}
use balabox.Exec.{Exec, pure, demand, ◌>>=◌, ◌>>◌}
use balabox.Json.{Json}
use balabox.Cache.Server.{LevelDb}
use balabox.Cache.Client.{Network, send_local_msg}
use balabox.Cache.Frame.RoundTrip.{take_all, drop_all}

-- BLOCK_SIZE
abbrev pub fread_size : ℕ
fread_size = 512

-- A request of example.cpp: its variables, its body, and the memory of the buffer and behind it.
pub record EchoRequest : Type 0 where
  pub server_name : Option Text
  pub request_method : Option Text
  pub query : Option Text
  pub body : Text
  pub buffer : Text
  pub beyond : Text

-- The loop over fread: each block is appended as a string, up to the first NUL in memory, and the
-- bytes of the block before that are not overwritten stay in the buffer. A short block ends the loop.
unfoldable pub read_blocks : ℕ → ℕ → Text → Text → Text → Text → Text
read_blocks zero size beyond buffer body done = done
read_blocks (suc fuel) size beyond buffer body done =
    let bytes = take size body in
    let buffer' = bytes ++ drop (length bytes) buffer in
    let done' = done ++ c_string (buffer' ++ beyond) in
    let rest = read_blocks fuel size beyond buffer' (drop size body) done' in
    if ltb (length bytes) size then done' else rest

-- The body as the program has it. Each round but the last takes a block.
unfoldable pub read_body : ℕ → EchoRequest → Text
unfolding read_blocks
read_body size r = read_blocks (suc (length r.body)) size r.beyond r.buffer r.body []

unfoldable pub print_text : Text → Exec Text (Unit {0})
print_text t out = pure tt (out ++ t)

module _ (J : Json) where
  -- One request of the accept loop, the `count`-th.
  unfoldable pub echo : ℕ → EchoRequest → Exec Text (Unit {0})
  unfolding text read_body
  echo count r = do
    host ← demand r.server_name
    print_text (
        text
          "Content-Type: text/html\r\n\r\n<title>FastCGI Hello!</title><h1>FastCGI Hello!</h1><p> this is a test! </p><p>Request number "
        ++ (int_to_str count ++ (text " running on host <i>" ++ (host ++ text "</i>\n</p>"))))
    request_method ← demand r.request_method
    print_text (text "<p>This is a " ++ (request_method ++ text " request</p>"))
    query ← demand r.query
    print_text (text "<p>Query string: \"" ++ (query ++ text "\"</p>"))
    print_text (text "<p>This is the request body: </p>")
    let response_body = read_body fread_size r
    print_text (response_body ++ text "\n")
    let parsed = J.parse response_body
    print_text (text "Correctly parsed: " ++ (text (if parsed.0 then "1" else "0") ++ text "\n"))
    print_text (text "Json pretty print:\n" ++ (c_string (J.write parsed.1) ++ text "\n "))

-- The main of test.cpp, by what it prints before the number of the last error.
unfoldable pub send_hello : (N : Network) (D : LevelDb) → ℕ → ℕ → Exec D.State Text
unfolding text
send_hello N D msg_size packet_size = send_local_msg N D msg_size packet_size (text "hello")

c_string-append : (s rest : Text) → All (λ c. c ≢ 0) s → c_string (s ++ 0 ∷ rest) ≡ s
unfolding c_string
c_string-append [] rest h = refl
c_string-append (c ∷ s) rest (ne, h) = ground (arith, c_string-append s rest h)

-- A body that is shorter than a block and without NUL is read as it is, if a NUL happens to stand in
-- the buffer right behind it.
pub read_body_short :
    (size : ℕ) (r : EchoRequest) (rest : Text)
    → length r.body < size
    → All (λ c. c ≢ 0) r.body
    → drop (length r.body) r.buffer ≡ 0 ∷ rest
    → read_body size r ≡ r.body
unfolding read_body read_blocks
read_body_short size r rest short plain lucky =
    let fits : ltb (length r.body) size ≡ true = ground arith in
    rw (take_all size r.body (omega arith), fits, lucky)
      (ap c_string (append_assoc r.body (0 ∷ rest) r.beyond)
        ∙ c_string-append r.body (rest ++ r.beyond) plain)

read_blocks_end :
    (fuel size : ℕ) (beyond buffer done : Text)
    → 0 < size
    → read_blocks (suc fuel) size beyond buffer [] done ≡ done ++ c_string (buffer ++ beyond)
unfolding read_blocks
read_blocks_end fuel size beyond buffer done pos =
    let fits : ltb 0 size ≡ true = ground arith in rw (take_all size [] (omega arith), fits)

read_blocks_twice :
    (size : ℕ) (body buffer rest : Text)
    → length body ≡ size
    → length buffer ≡ size
    → 0 < size
    → All (λ c. c ≢ 0) body
    → read_blocks (suc (length body)) size (0 ∷ rest) buffer body [] ≡ body ++ body
unfolding read_blocks
read_blocks_twice size [] buffer rest whole full pos plain = absurd (omega arith)
read_blocks_twice size (c ∷ body) buffer rest whole full pos plain =
    let large : ltb (length (c ∷ body)) size ≡ false = ground arith in
    let gone : drop (length (c ∷ body)) buffer ≡ [] =
      drop_all (length (c ∷ body)) buffer (omega arith) in
    let once = c_string-append (c ∷ body) rest plain in
    rw
      (
        take_all size (c ∷ body) (omega arith),
        large,
        gone,
        drop_all size (c ∷ body) (omega arith),
        append-nil body,
        once,
      )
      (read_blocks_end (length body) size (0 ∷ rest) (c ∷ body) (c ∷ body) pos
        ∙ ap (λ t. (c ∷ body) ++ t) once)

-- A body of exactly one block and without NUL is read twice, if a NUL stands behind the buffer: the
-- end of the file is seen only by a read that gives nothing, and the buffer is appended again.
pub read_body_twice :
    (size : ℕ) (r : EchoRequest) (rest : Text)
    → length r.body ≡ size
    → length r.buffer ≡ size
    → 0 < size
    → All (λ c. c ≢ 0) r.body
    → r.beyond ≡ 0 ∷ rest
    → read_body size r ≡ r.body ++ r.body
unfolding read_body read_blocks
read_body_twice size r rest whole full pos plain lucky =
    rw lucky (read_blocks_twice size r.body r.buffer rest whole full pos plain)
