-- ===== src/Sync/Sent.antt =====
-- What an upload of client/sync.py that succeeded sent.
use mathlib.Core.List.{map}
use balabox.Base.{
  ℕ, ◌≡◌, ap, ◌∙◌, Bool, true, false, inl, inr, Option, none, some, List, if◌then◌else◌,
  Option-cases,
}
use balabox.Base.Text.{Text}
use balabox.Base.Dict.{lookup}
use balabox.Exec.{Result, ok, crash, Exec, pure, ◌>>=◌}
use balabox.Sync.{Outside, Client, File, Queried, get_ok, get_block_query, post_file_commit, look}
use balabox.Sync.Transfer.{block_size, send_blocks, up_file}
use balabox.Sync.Answers.{bind-ok, crash-ok, false-true, Answered, get_ok-Answered}
use balabox.Sync.Stored.{Needs, send_blocks-Needs}

module _ (O : Outside) where
  -- The requests of an upload, in their order.
  pub record Sent (fi : Text) (bytes : Text) (version : ℕ) (s s' : O.State) : Type 0 where
    pub query : Queried
    pub asked : O.State
    pub stored : O.State
    pub block_query :
        Answered (O.block_query fi (map O.sha256 (O.split block_size bytes))) query s asked
    pub needs : Needs O (O.split block_size bytes) query asked stored
    pub file_commit :
        Answered (O.file_commit fi (map O.sha256 (O.split block_size bytes)) version) true stored s'

  post_file_commit-Answered :
      (fi : Text) (hs : List Text) (version : ℕ) (c c' : Client O)
      → post_file_commit O fi hs version c ≡ (ok true, c')
      → Answered (O.file_commit fi hs version) true c.outside c'.outside
        × (c' ≡ record c { outside = c'.outside })
  unfolding post_file_commit pure ◌>>=◌
  post_file_commit-Answered fi hs version c c' e =
      let (o, c1, run, rest) = bind-ok (get_ok O (O.file_commit fi hs version)) _ c c' true e in
      elim (Option-cases o) [
        | inl refused ↦ absurd (false-true (rw refused at rest))
        | inr (updated, answer) ↦
            let end : ◌≡◌ {A = Result Bool × Client O} (ok updated, c1) (ok true, c') =
              rw answer at rest in
            get_ok-Answered O (O.file_commit fi hs version) true c c'
              (run ∙ rw answer (ap (commit_of) end))
      ]
    where
      commit_of : Result Bool × Client O → Result (Option Bool) × Client O
      commit_of (ok b, d) = (ok (some b), d)
      commit_of (crash, d) = (crash, d)

  -- upFile from the answer of block_query on, and all of it for the bytes of the file.
  abbrev behind_query : Text → List Text → ℕ → Option Queried → Exec (Client O) Bool
  behind_query fi blocks version none = pure false
  behind_query fi blocks version (some q) = do
    sent ← send_blocks O blocks q.nb q.needed_blocks
    if sent then post_file_commit O fi (map O.sha256 blocks) version else pure false

  abbrev up_bytes : Text → List Text → ℕ → Exec (Client O) Bool
  up_bytes fi blocks version =
      get_block_query O fi (map O.sha256 blocks) >>= behind_query fi blocks version

  sent-Needs :
      (fi : Text) (blocks : List Text) (version : ℕ) (q : Queried) (c c' : Client O)
      → behind_query fi blocks version (some q) c ≡ (ok true, c')
      → (s : O.State) × Needs O blocks q c.outside s
        × Answered (O.file_commit fi (map O.sha256 blocks) version) true s c'.outside
        × (c' ≡ record c { outside = c'.outside })
  unfolding pure
  sent-Needs fi blocks version q c c' e =
      let (sent, c2, run, rest) =
        bind-ok (send_blocks O blocks q.nb q.needed_blocks) _ c c' true e in
      go sent c2 run rest
    where
      go :
          (sent : Bool) (c2 : Client O)
          → send_blocks O blocks q.nb q.needed_blocks c ≡ (ok sent, c2)
          → (if sent then post_file_commit O fi (map O.sha256 blocks) version else pure false) c2
            ≡ (ok true, c')
          → (s : O.State) × Needs O blocks q c.outside s
            × Answered (O.file_commit fi (map O.sha256 blocks) version) true s c'.outside
            × (c' ≡ record c { outside = c'.outside })
      go false c2 run rest = absurd (false-true rest)
      go true c2 run rest =
          let (needs, same) = send_blocks-Needs O blocks q c c2 run in
          let (commit, same') =
            post_file_commit-Answered fi (map O.sha256 blocks) version c2 c' rest in
          (
            c2.outside,
            needs,
            commit,
            same' ∙ ap {A = Client O} (λ x. record x { outside = c'.outside }) same,
          )

  query-Sent :
      (fi bytes : Text) (version : ℕ) (c c' : Client O)
      → up_bytes fi (O.split block_size bytes) version c ≡ (ok true, c')
      → Sent fi bytes version c.outside c'.outside × (c' ≡ record c { outside = c'.outside })
  unfolding get_block_query pure
  query-Sent fi bytes version c c' e =
      let (o, c1, run, rest) =
        bind-ok (get_ok O (O.block_query fi (map O.sha256 (O.split block_size bytes)))) _ c c' true
          e in
      go o c1 run rest
    where
      go :
          (o : Option Queried) (c1 : Client O)
          → get_ok O (O.block_query fi (map O.sha256 (O.split block_size bytes))) c ≡ (ok o, c1)
          → behind_query fi (O.split block_size bytes) version o c1 ≡ (ok true, c')
          → Sent fi bytes version c.outside c'.outside × (c' ≡ record c { outside = c'.outside })
      go none c1 run rest = absurd (false-true rest)
      go (some q) c1 run rest =
          let (query, same) = get_ok-Answered O _ q c c1 run in
          let (s, needs, commit, same') =
            sent-Needs fi (O.split block_size bytes) version q c1 c' rest in
          (
            record {
              query = q;
              asked = c1.outside;
              stored = s;
              block_query = query;
              needs = needs;
              file_commit = commit;
            },
            same' ∙ ap {A = Client O} (λ x. record x { outside = c'.outside }) same,
          )

  pub up_file-Sent :
      (fi : Text) (version : ℕ) (c c' : Client O)
      → up_file O fi version c ≡ (ok true, c')
      → (file : File) × (lookup fi c.files ≡ some file)
        × Sent fi file.bytes version c.outside c'.outside
        × (c' ≡ record c { outside = c'.outside })
  unfolding up_file look pure ◌>>=◌
  up_file-Sent fi version c c' e = elim (Option-cases (lookup fi c.files)) [
    | inl gone ↦ absurd (crash-ok (rw gone at e))
    | inr (file, held) ↦
        let run : up_bytes fi (O.split block_size file.bytes) version c ≡ (ok true, c') =
          rw held at e in
        let (sent, same) = query-Sent fi file.bytes version c c' run in (file, held, sent, same)
  ]
