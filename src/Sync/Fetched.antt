-- ===== src/Sync/Fetched.antt =====
-- What a download of client/sync.py that succeeded wrote.
use mathlib.Core.List.{flatten}
use balabox.Base.{◌≡◌, sym, ap, ◌∙◌, true, false, inl, inr, some, List, [], ◌∷◌, Option-cases}
use balabox.Base.Text.{Text}
use balabox.Base.Dict.{insert}
use balabox.Exec.{ok, pure, ◌>>=◌}
use balabox.Sync.{Outside, Client, File, get_block_fetch, write_local}
use balabox.Sync.Transfer.{fetch_blocks, down_file}
use balabox.Sync.Answers.{bind-ok, none-some, some-some, Answered, get_ok-Answered}

module _ (O : Outside) where
  -- The cache server answered for each hash in turn, with these blocks.
  abbrev pub Fetched : List Text → List Text → O.State → O.State → Type 0
  Fetched [] [] s s' = s ≡ s'
  Fetched (h ∷ hs) (b ∷ bs) s s' =
      (s1 : O.State) × Answered (O.block_fetch h) b s s1 × Fetched hs bs s1 s'
  Fetched _ _ s s' = ⊥

  fetch_blocks-Fetched :
      (hs bs : List Text) (c c' : Client O)
      → fetch_blocks O hs c ≡ (ok (some bs), c')
      → Fetched hs bs c.outside c'.outside × (c' ≡ record c { outside = c'.outside })
  unfolding fetch_blocks get_block_fetch pure
  fetch_blocks-Fetched [] [] c c' e = (ap (λ p. p.1.outside) e, cc)
  fetch_blocks-Fetched [] (b ∷ bs) c c' e = cc
  fetch_blocks-Fetched (h ∷ hs) bs c c' e =
      let (o, c1, run, rest) = bind-ok _ _ c c' (some bs) e in
      elim (Option-cases o) [
        | inl refused ↦ absurd (none-some (rw refused at rest))
        | inr (b, answer) ↦
            let (answered, same) = get_ok-Answered O (O.block_fetch h) b c c1 (run ∙ rw answer) in
            let (more, c2, run2, rest2) =
              bind-ok (fetch_blocks O hs) _ c1 c' (some bs) (rw answer at rest) in
            elim (Option-cases more) [
              | inl refused ↦ absurd (none-some (rw refused at rest2))
              | inr (blocks, all_in) ↦
                  let end : (ok (some (b ∷ blocks)), c2) ≡ (ok (some bs), c') =
                    rw all_in at rest2 in
                  let read : b ∷ blocks ≡ bs = some-some end in
                  let (got, same') =
                    fetch_blocks-Fetched hs blocks c1 c' (run2 ∙ rw (all_in, ap (λ p. p.1) end)) in
                  rw (← read) ((c1.outside, answered, got), same' ∙ rw same)
            ]
      ]

  -- Whatever the servers answer: if downFile returns True for a list of hashes, then each hash was
  -- requested from the cache server in its order and answered with status 200, and the file now
  -- holds what was answered, joined in this order, with the time after the last answer. The rest of
  -- the directory and versions.json are as they were.
  pub down_file-Fetched :
      (fi : Text) (hs : List Text) (c c' : Client O)
      → down_file O fi (some hs) c ≡ (ok true, c')
      → (bs : List Text) × Fetched hs bs c.outside c'.outside
        × (c' ≡ record c {
          files = insert fi (record { bytes = flatten bs; mtime = O.now c'.outside }) c.files;
          outside = c'.outside;
        })
  unfolding down_file write_local pure ◌>>=◌
  down_file-Fetched fi hs c c' e =
      let (o, c1, run, rest) = bind-ok (fetch_blocks O hs) _ c c' true e in
      elim (Option-cases o) [
        | inl refused ↦ let no_file : (ok false, c1) ≡ (ok true, c') = rw refused at rest in cc
        | inr (bs, all_in) ↦
            let (got, same) = fetch_blocks-Fetched hs bs c c1 (run ∙ rw all_in) in
            let file : O.State → File = λ s. record { bytes = flatten bs; mtime = O.now s } in
            let write : Client O → Client O =
              λ d. record d { files = insert fi (file d.outside) d.files } in
            let written : (ok true, write c1) ≡ (ok true, c') = rw all_in at rest in
            let now : c1.outside ≡ c'.outside = ap (λ p. p.1.outside) written in
            (
              bs,
              rw (← now) got,
              sym (ap (λ p. p.1) written)
                  ∙ ap write same
                  ∙ ap (λ s. write (record c { outside = s })) now,
            )
      ]
