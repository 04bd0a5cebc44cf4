-- ===== src/Sync/Stored.antt =====
-- The blocks that an upload of client/sync.py sent.
use mathlib.Core.List.{Mem, mem-cons}
use mathlib.Core.Logic.Or
use balabox.Base.{
  ◌≡◌, ◌≢◌, ◌⊎◌, refl, sym, ap, ◌∙◌, Bool, true, false, inl, inr, none, some, List, [], ◌∷◌,
  Bool-cases, Option-cases,
}
use balabox.Base.Text.{Text, text, text_eq, text_eq_iff, find}
use balabox.Base.Dict.{Dict, lookup, insert, lookup-insert}
use balabox.Exec.{Result, ok, pure, demand, ◌>>=◌}
use balabox.Sync.{Outside, Client, Queried, ask, post_block_store}
use balabox.Sync.Transfer.{hash_to_file, store_blocks, send_blocks}
use balabox.Sync.Answers.{bind-ok, false-true, none-ne-some, demand-ok, ask-ok}

module _ (O : Outside) where
  -- Some block of the file was sent under its hash, and the answer has "200 OK" in it.
  pub record Stored (blocks : List Text) (h : Text) (s s' : O.State) : Type 0 where
    pub block : Text
    pub own : Mem block blocks
    pub hash : O.sha256 block ≡ h
    pub page : Text
    pub run : O.block_store h block s ≡ (ok page, s')
    pub accepted : find (text "200 OK") page ≢ none

  abbrev pub AllStored : List Text → List Text → O.State → O.State → Type 0
  AllStored blocks [] s s' = s ≡ s'
  AllStored blocks (h ∷ hs) s s' = (s1 : O.State) × Stored blocks h s s1 × AllStored blocks hs s1 s'

  -- What block_query asked for was stored.
  abbrev pub Needs : List Text → Queried → O.State → O.State → Type 0
  Needs blocks q s s' =
      ((q.nb ≡ false) × (s ≡ s'))
      ⊎ ((hs : List Text) × (q.nb ≡ true) × (q.needed_blocks ≡ some hs) × AllStored blocks hs s s')

  -- Every entry is a block under its hash.
  Hashes : List Text → Dict Text → Type 0
  Hashes blocks d = (h b : Text) → lookup h d ≡ some b → Mem b blocks × (O.sha256 b ≡ h)

  some_same : {a b : Text} → some a ≡ some b → a ≡ b
  some_same e = cc

  insert-Hashes :
      (blocks : List Text) (b : Text) (d : Dict Text)
      → Mem b blocks
      → Hashes blocks d
      → Hashes blocks (insert (O.sha256 b) b d)
  unfolding Hashes
  insert-Hashes blocks b d member h j a found = elim (Bool-cases (text_eq j (O.sha256 b))) [
    | inl same ↦
        let e : some b ≡ some a = rw (← found, lookup-insert, same) in
        rw (← some_same e) (member, sym ((text_eq_iff j (O.sha256 b)).0 same))
    | inr other ↦ let e : lookup j d ≡ some a = rw (lookup-insert, other) at found in h j a e
  ]

  hash_to_file-Hashes :
      (blocks done : List Text) (d : Dict Text)
      → ((b : Text) → Mem b blocks → Mem b done)
      → Hashes done d
      → Hashes done (hash_to_file O d blocks)
  unfolding hash_to_file
  hash_to_file-Hashes [] done d sub h = h
  hash_to_file-Hashes (b ∷ blocks) done d sub h =
      hash_to_file-Hashes blocks done (insert (O.sha256 b) b d)
        (λ a m. sub a (mem-cons.1 (Or.inr m)))
        (insert-Hashes done b d (sub b (mem-cons.1 (Or.inl refl))) h)

  blocks-Hashes : (blocks : List Text) → Hashes blocks (hash_to_file O [] blocks)
  unfolding Hashes lookup
  blocks-Hashes blocks =
      hash_to_file-Hashes blocks blocks [] (λ b m. m) (λ h b found. absurd (none-ne-some found))

  post_block_store-Stored :
      (blocks : List Text) (d : Dict Text) (h b : Text) (c c' : Client O)
      → Hashes blocks d
      → lookup h d ≡ some b
      → post_block_store O h b c ≡ (ok true, c')
      → Stored blocks h c.outside c'.outside × (c' ≡ record c { outside = c'.outside })
  unfolding Hashes post_block_store pure ◌>>=◌
  post_block_store-Stored blocks d h b c c' hashes found e =
      let (page, c1, run, rest) = bind-ok (ask O (O.block_store h b)) _ c c' true e in
      elim (Option-cases (find (text "200 OK") page)) [
        | inl refused ↦ absurd (false-true (rw refused at rest))
        | inr (i, accepted) ↦
            let yes : ◌≡◌ {A = Result Bool × Client O} (ok true, c1) (ok true, c') =
              rw accepted at rest in
            let (run', same) =
              ask-ok O (O.block_store h b) page c c' (run ∙ ap (λ p. (ok page, p.1)) yes) in
            let (member, hash) = hashes h b found in
            (
              record {
                block = b;
                own = member;
                hash = hash;
                page = page;
                run = run';
                accepted = λ none_found. none-ne-some (sym none_found ∙ accepted);
              },
              same,
            )
      ]

  store_blocks-AllStored :
      (blocks : List Text) (d : Dict Text) (hs : List Text) (c c' : Client O)
      → Hashes blocks d
      → store_blocks O d hs c ≡ (ok true, c')
      → AllStored blocks hs c.outside c'.outside × (c' ≡ record c { outside = c'.outside })
  unfolding store_blocks pure ◌>>=◌
  store_blocks-AllStored blocks d [] c c' hashes e = (
    ap (λ p. p.1.outside) e,
    sym (ap (λ p. p.1) e) ∙ ap (λ p. record c { outside = p.1.outside }) e,
  )
  store_blocks-AllStored blocks d (h ∷ hs) c c' hashes e =
      let (b, c0, found, rest) = bind-ok (demand (lookup h d)) _ c c' true e in
      let (held, same0) = demand-ok (lookup h d) b c c0 found in
      let (stored, c1, run, rest') =
        bind-ok (post_block_store O h b) _ c c' true (rw same0 at rest) in
      elim (Bool-cases stored) [
        | inr refused ↦ absurd (false-true (rw refused at rest'))
        | inl done ↦
            let (first, same) =
              post_block_store-Stored blocks d h b c c1 hashes held (run ∙ rw done) in
            let (more, same') =
              store_blocks-AllStored blocks d hs c1 c' hashes (rw done at rest') in
            (
              (c1.outside, first, more),
              same' ∙ ap {A = Client O} (λ x. record x { outside = c'.outside }) same,
            )
      ]

  pub send_blocks-Needs :
      (blocks : List Text) (q : Queried) (c c' : Client O)
      → send_blocks O blocks q.nb q.needed_blocks c ≡ (ok true, c')
      → Needs blocks q c.outside c'.outside × (c' ≡ record c { outside = c'.outside })
  unfolding send_blocks pure ◌>>=◌
  send_blocks-Needs blocks q c c' e = elim (Bool-cases q.nb) [
    | inr nothing ↦
        let all_known : ◌≡◌ {A = Result Bool × Client O} (ok true, c) (ok true, c') =
          rw nothing at e in
        let same : c ≡ c' = ap (λ p. p.1) all_known in
        let state : c.outside ≡ c'.outside = ap (λ d. d.outside) same in
        (inl (nothing, state), sym same ∙ ap (λ s. record c { outside = s }) state)
    | inl some_needed ↦
        let (hs, c0, found, rest) =
          bind-ok (demand q.needed_blocks) _ c c' true (rw some_needed at e) in
        let (needed, same0) = demand-ok q.needed_blocks hs c c0 found in
        let (stored, same) =
          store_blocks-AllStored blocks (hash_to_file O [] blocks) hs c c' (blocks-Hashes blocks)
            (rw same0 at rest) in
        (inr (hs, some_needed, needed, stored), same)
  ]
