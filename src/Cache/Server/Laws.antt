-- ===== src/Cache/Server/Laws.antt =====
-- What LevelDB promises, and what the commands of the helper do.
use balabox.Base.{
  ℕ, suc, ◌+◌, ◌≤◌, ◌≡◌, ◌≢◌, refl, ap, true, false, Option, none, some, [], ◌∷◌, ◌++◌, leb,
  if◌then◌else◌, length, drop, All, length-append, drop-append, append_assoc, arith,
}
use balabox.Base.Text.{Text, text, text_eq}
use balabox.Exec.{ok, crash, die, ◌>>=◌}
use balabox.Cache.Server.{
  LevelDb, Operation, put, get, found, get_line, next_line, db_put, db_get, put_operation,
  do_operation, answer, serve_command,
}

pub record IsLevelDb (D : LevelDb) : Type 0 where
  pub get-put_self :
      (k v : Text) (s : D.State) → (D.put k v s).0 ≡ true → D.get k (D.put k v s).1 ≡ some v
  pub get-put_ne : (k j v : Text) (s : D.State) → k ≢ j → D.get j (D.put k v s).1 ≡ D.get j s
  pub get-put_failed :
      (k v : Text) (s : D.State) → (D.put k v s).0 ≡ false → D.get k (D.put k v s).1 ≡ D.get k s

-- A key holds no comma.
abbrev pub IsKey : Text → Type 0
IsKey k = All (λ c. c ≢ b',') k

-- The commands that LevelDBHelper sends.
unfoldable pub put_command : Text → Text → Text
unfolding text
put_command key value = text "put," ++ (key ++ b',' ∷ value)

unfoldable pub get_command : Text → Text
unfolding text
get_command key = text "get," ++ key

get_line-key : (k v : Text) → IsKey k → get_line (k ++ b',' ∷ v) ≡ (k, some v)
unfolding get_line
get_line-key [] v h = refl
get_line-key (c ∷ k) v (ne, h) = ground (arith, get_line-key k v h)

get_line-last : (k : Text) → IsKey k → get_line k ≡ (k, none)
unfolding get_line
get_line-last [] h = refl
get_line-last (c ∷ k) (ne, h) = ground (arith, get_line-last k h)

drop-put_command : (k v : Text) → drop (3 + length k + 2) (put_command k v) ≡ v
unfolding put_command
drop-put_command k v =
    let size : 3 + length k + 2 ≡ suc (suc (suc (suc (length (k ++ b',' ∷ []))))) =
      omega (arith, length-append k (b',' ∷ [])) in
    let split : k ++ b',' ∷ v ≡ (k ++ b',' ∷ []) ++ v = simp append_assoc in
    rw (size, split) (drop-append (k ++ b',' ∷ []) v)

pub length-put_command : (k v : Text) → length (put_command k v) ≡ 5 + length k + length v
unfolding put_command
length-put_command k v = omega (arith, length-append k (b',' ∷ v))

pub length-get_command : (k : Text) → length (get_command k) ≡ 4 + length k
unfolding get_command
length-get_command k = omega arith

get_line-put_command :
    (k v : Text) → get_line (put_command k v) ≡ (text "put", some (k ++ b',' ∷ v))
unfolding get_line put_command text
get_line-put_command k v = refl

get_line-get_command : (k : Text) → get_line (get_command k) ≡ (text "get", some k)
unfolding get_line get_command text
get_line-get_command k = refl

next_line-key : (k v : Text) → IsKey k → next_line (some (k ++ b',' ∷ v)) ≡ k
unfolding next_line
next_line-key k v h = ap (λ p. p.0) (get_line-key k v h)

next_line-last : (k : Text) → IsKey k → next_line (some k) ≡ k
unfolding next_line
next_line-last k h = ap (λ p. p.0) (get_line-last k h)

leb-put_command : (k v : Text) → leb (3 + length k + 2) (length (put_command k v)) ≡ true
leb-put_command k v = ground (arith, length-put_command k v)

module _ (D : LevelDb) where
  abbrev stored_as : Text → Text → D.State → Operation
  stored_as k v s = record { kind = some put; status = (D.put k v s).0; value = v }

  put_operation-put_command :
      (k v : Text) (s : D.State)
      → put_operation D true (put_command k v) (text "put") k s
        ≡ (ok (stored_as k v s), (D.put k v s).1)
  unfolding put_operation db_put text ◌>>=◌
  put_operation-put_command k v s = rw (leb-put_command k v, drop-put_command k v)

  do_operation-put_command :
      (k v : Text) (s : D.State)
      → IsKey k
      → do_operation D true (put_command k v) s
        ≡ put_operation D true (put_command k v) (text "put") k s
  unfolding do_operation put_command text_eq text
  do_operation-put_command k v s h = rw (get_line-put_command k v, next_line-key k v h)

  do_operation-get_command :
      (k : Text) (s : D.State)
      → IsKey k
      → do_operation D true (get_command k) s ≡ (ok (found D get (D.get k s)), s)
  unfolding do_operation get_command text_eq text db_get ◌>>=◌
  do_operation-get_command k s h = rw (get_line-get_command k, next_line-last k h)

  -- A put or get command uses the null pointer of a database that is not open.
  pub serve_command-put_closed :
      (k v : Text) (s : D.State) → IsKey k → serve_command D false (put_command k v) s ≡ (crash, s)
  unfolding serve_command do_operation put_operation db_put put_command text_eq text die ◌>>=◌
  serve_command-put_closed k v s h =
      rw (get_line-put_command k v, next_line-key k v h, leb-put_command k v)

  pub serve_command-get_closed :
      (k : Text) (s : D.State) → serve_command D false (get_command k) s ≡ (crash, s)
  unfolding serve_command do_operation get_command text_eq text db_get die ◌>>=◌
  serve_command-get_closed k s = rw (get_line-get_command k)

  answer-found :
      (o : Option Text)
      → answer D (found D get o) ≡ elim o [ none ↦ text "Operation failed" | some v ↦ v ]
  unfolding answer
  answer-found none = refl
  answer-found (some v) = refl

  -- A put command with a key that holds no comma stores exactly its value, whatever characters this
  -- holds, and answers whether the database took it.
  pub serve_command-put :
      (k v : Text) (s : D.State)
      → IsKey k
      → serve_command D true (put_command k v) s
        ≡ (ok (if (D.put k v s).0 then text "OK" else text "Operation failed"), (D.put k v s).1)
  unfolding serve_command answer ◌>>=◌
  serve_command-put k v s h = rw (do_operation-put_command k v s h, put_operation-put_command k v s)

  -- A get command with a key that holds no comma answers the value of the key, or the message of a
  -- failure if the database has none, and changes nothing.
  pub serve_command-get :
      (k : Text) (s : D.State)
      → IsKey k
      → serve_command D true (get_command k) s
        ≡ (ok (elim (D.get k s) [ none ↦ text "Operation failed" | some v ↦ v ]), s)
  unfolding serve_command ◌>>=◌
  serve_command-get k s h = rw (do_operation-get_command k s h, answer-found (D.get k s))

  -- What a client stores in the cache server under a key that holds no comma, the next get command
  -- for this key reads, if the database took it.
  pub serve_command-get_put :
      (k v : Text) (s : D.State)
      → IsLevelDb D
      → IsKey k
      → (D.put k v s).0 ≡ true
      → serve_command D true (get_command k) (serve_command D true (put_command k v) s).1
        ≡ (ok v, (D.put k v s).1)
  serve_command-get_put k v s laws h done = rw (
    serve_command-put k v s h,
    serve_command-get k (D.put k v s).1 h,
    laws.get-put_self k v s done,
  )

-- What a get command answers.
abbrev pub reply_of : Option Text → Text
reply_of o = elim o [ none ↦ text "Operation failed" | some v ↦ v ]

pub length-reply_of :
    (m : ℕ) (o : Option Text)
    → 20 ≤ m
    → ((v : Text) → o ≡ some v → 4 + length v ≤ m)
    → 4 + length (reply_of o) ≤ m
unfolding text
length-reply_of m none room small = omega arith
length-reply_of m (some v) room small = small v refl
