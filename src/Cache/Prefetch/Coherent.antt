-- ===== src/Cache/Prefetch/Coherent.antt =====
-- Over the rounds of the prefetcher: what is cached is what the block server has, and what it has
-- of the recent hashes is cached.
use balabox.Base.{
  ℕ, ◌≡◌, ◌≢◌, refl, sym, subst, ◌∙◌, true, false, not, inl, inr, Bool-cases, some, List, [], ◌∷◌,
  ◌++◌, All, keep_if-append, length,
}
use balabox.Base.Text.{Text, text_eq, text_eq_iff}
use balabox.Exec.{ok}
use balabox.Json.{Json}
use balabox.Cache.Server.{LevelDb}
use balabox.Cache.Server.Laws.{IsLevelDb}
use balabox.Cache.Client.{Network, failed}
use balabox.Cache.Client.Laws.{IsNetwork, IsSized, exists}
use balabox.Cache.Fetch.{Neon, Response}
use balabox.Cache.Prefetch.{is_block, prefetch_list}
use balabox.Cache.Prefetch.Laws.{
  Holds, put_answer, put_answers, absent, IsFetchable, IsSmall, prefetch_list_lem,
}

-- Every block that is cached is what the block server answers for its hash with code 200.
abbrev pub IsCoherent : (D : LevelDb) → (Text → Response) → D.State → Type 0
IsCoherent D answer s =
    (h v : Text) → D.get h s ≡ some v → (is_block (answer h) ≡ true) × (v ≡ (answer h).body)

-- A block is cached under a hash, and it is not taken for a failure.
abbrev pub IsCached : (D : LevelDb) → Text → D.State → Type 0
IsCached D h s = exists (D.get h s) ≡ true

module _ (D : LevelDb) (laws : IsLevelDb D) (answer : Text → Response) where
  put-IsCoherent :
      (h : Text) (s : D.State)
      → is_block (answer h) ≡ true
      → IsCoherent D answer s
      → IsCoherent D answer (D.put h (answer h).body s).1
  put-IsCoherent h s good coherent j v e = elim (Bool-cases (text_eq h j)) [
    | inl hit ↦
        let same : h ≡ j = (text_eq_iff h j).0 hit in
        elim (Bool-cases (D.put h (answer h).body s).0) [
          | inl took ↦
              let held : some (answer h).body ≡ some v =
                sym (laws.get-put_self h (answer h).body s took)
                ∙ subst (λ k. D.get k (D.put h (answer h).body s).1 ≡ some v) (sym same) e in
              let body : v ≡ (answer h).body = cc in
              subst (λ k. (is_block (answer k) ≡ true) × (v ≡ (answer k).body)) same (good, body)
          | inr refused ↦
              let before : D.get h (D.put h (answer h).body s).1 ≡ D.get h s =
                laws.get-put_failed h (answer h).body s refused in
              let old : D.get j s ≡ some v =
                subst (λ k. D.get k s ≡ D.get k (D.put h (answer h).body s).1) same (sym before)
                ∙ e in
              coherent j v old
        ]
    | inr miss ↦
        let ne : h ≢ j = λ same. let hit : text_eq h j ≡ true = (text_eq_iff h j).1 same in cc in
        coherent j v (sym (laws.get-put_ne h j (answer h).body s ne) ∙ e)
  ]

  put_answer-IsCoherent :
      (h : Text) (s : D.State)
      → IsCoherent D answer s
      → IsCoherent D answer (put_answer D answer h s)
  put_answer-IsCoherent h s coherent = elim (Bool-cases (is_block (answer h))) [
    | inl good ↦ rw good (put-IsCoherent h s good coherent)
    | inr bad ↦ rw bad coherent
  ]

  put_answers-IsCoherent :
      (hashes : List Text) (s : D.State)
      → IsCoherent D answer s
      → IsCoherent D answer (put_answers D answer hashes s)
  put_answers-IsCoherent [] s coherent = coherent
  put_answers-IsCoherent (h ∷ hashes) s coherent =
      put_answers-IsCoherent hashes (put_answer D answer h s) (put_answer-IsCoherent h s coherent)

  exists-put :
      (h : Text) (s : D.State)
      → failed (answer h).body ≡ false
      → (D.put h (answer h).body s).0 ≡ true
      → IsCached D h (D.put h (answer h).body s).1
  exists-put h s plain took = rw (laws.get-put_self h (answer h).body s took, plain)

  -- Another answer leaves a block cached, and so does a new one for the hash.
  put_answer-IsCached :
      (h j : Text) (s : D.State)
      → failed (answer j).body ≡ false
      → IsCached D j s
      → IsCached D j (put_answer D answer h s)
  put_answer-IsCached h j s plain cached = elim (Bool-cases (is_block (answer h))) [
    | inr bad ↦ rw bad cached
    | inl good ↦ rw good (elim (Bool-cases (text_eq h j)) [
      | inr miss ↦
          let ne : h ≢ j = λ same. let hit : text_eq h j ≡ true = (text_eq_iff h j).1 same in cc in
          rw (laws.get-put_ne h j (answer h).body s ne) cached
      | inl hit ↦
          let same : j ≡ h = sym ((text_eq_iff h j).0 hit) in
          subst (λ k. IsCached D j (D.put k (answer k).body s).1) same
            (elim (Bool-cases (D.put j (answer j).body s).0) [
              | inl took ↦ exists-put j s plain took
              | inr refused ↦ rw (laws.get-put_failed j (answer j).body s refused) cached
            ])
    ])
  ]

  put_answers-IsCached :
      (hashes : List Text) (j : Text) (s : D.State)
      → failed (answer j).body ≡ false
      → IsCached D j s
      → IsCached D j (put_answers D answer hashes s)
  put_answers-IsCached [] j s plain cached = cached
  put_answers-IsCached (h ∷ hashes) j s plain cached =
      put_answers-IsCached hashes j (put_answer D answer h s) plain
        (put_answer-IsCached h j s plain cached)

  -- A database that takes every block has those of the list in the end.
  put_answers-member :
      (hashes rest : List Text) (j : Text) (s : D.State)
      → ((k v : Text) (t : D.State) → (D.put k v t).0 ≡ true)
      → is_block (answer j) ≡ true
      → failed (answer j).body ≡ false
      → IsCached D j (put_answers D answer (hashes ++ j ∷ rest) s)
  put_answers-member [] rest j s takes good plain =
      put_answers-IsCached rest j (put_answer D answer j s) plain
        (rw good (exists-put j s plain (takes j (answer j).body s)))
  put_answers-member (h ∷ hashes) rest j s takes good plain =
      put_answers-member hashes rest j (put_answer D answer h s) takes good plain

  put_absent-IsCached :
      (hashes rest : List Text) (j : Text) (s : D.State)
      → ((k v : Text) (t : D.State) → (D.put k v t).0 ≡ true)
      → is_block (answer j) ≡ true
      → failed (answer j).body ≡ false
      → IsCached D j (put_answers D answer (absent D s (hashes ++ j ∷ rest)) s)
  put_absent-IsCached hashes rest j s takes good plain = elim (Bool-cases (exists (D.get j s))) [
    | inl cached ↦ put_answers-IsCached (absent D s (hashes ++ j ∷ rest)) j s plain cached
    | inr new ↦
        let split : absent D s (hashes ++ j ∷ rest) ≡ absent D s hashes ++ j ∷ absent D s rest =
          keep_if-append (λ h. not (exists (D.get h s))) hashes (j ∷ rest) ∙ rw new in
        rw split (put_answers-member (absent D s hashes) (absent D s rest) j s takes good plain)
  ]

module _ (N : Network) (D : LevelDb) (neon : Neon) (m p : ℕ) (net : IsNetwork N)
    (sized : IsSized m p) (answer : Text → Response) (laws : IsLevelDb D) (J : Json)
    (v : J.Value) where
  -- If all that is cached is what the block server answers for its hash with code 200, this holds
  -- after the prefetcher has handled a block list, whichever blocks the database refuses. The list
  -- is one of hashes without a comma that the block server answers, the answers and what is cached
  -- under them fit a buffer, the sockets lose nothing (IsNetwork) and the sizes are sound
  -- (IsSized).
  pub prefetch_list-IsCoherent :
      (hashes : List Text) (s : D.State)
      → J.is_null v ≡ false
      → J.size v ≡ length hashes
      → Holds J v 0 hashes
      → All (IsFetchable D neon m answer) hashes
      → All (IsSmall D neon m answer s) hashes
      → IsCoherent D answer s
      → IsCoherent D answer (prefetch_list N D neon m p J v s).1
  prefetch_list-IsCoherent hashes s there size holds fetch small coherent =
      rw (prefetch_list_lem N D neon m p net sized answer J v hashes s there size holds fetch small)
        (put_answers-IsCoherent D laws answer (absent D s hashes) s coherent)

  -- The prefetcher ends its work on a block list, and then a hash of the list is cached if the
  -- block server answers it with code 200 and a block that is not the message of a failure, and the
  -- database takes every block. The list is one of hashes without a comma that the block server
  -- answers, the answers and what is cached under them fit a buffer, the sockets lose nothing
  -- (IsNetwork) and the sizes are sound (IsSized).
  pub prefetch_list-IsCached :
      (hashes rest : List Text) (j : Text) (s : D.State)
      → J.is_null v ≡ false
      → J.size v ≡ length (hashes ++ j ∷ rest)
      → Holds J v 0 (hashes ++ j ∷ rest)
      → All (IsFetchable D neon m answer) (hashes ++ j ∷ rest)
      → All (IsSmall D neon m answer s) (hashes ++ j ∷ rest)
      → ((k b : Text) (t : D.State) → (D.put k b t).0 ≡ true)
      → is_block (answer j) ≡ true
      → failed (answer j).body ≡ false
      → ((prefetch_list N D neon m p J v s).0 ≡ ok tt)
        × IsCached D j (prefetch_list N D neon m p J v s).1
  prefetch_list-IsCached hashes rest j s there size holds fetch small takes good plain =
      rw
        (prefetch_list_lem N D neon m p net sized answer J v (hashes ++ j ∷ rest) s there size holds
          fetch small)
        (refl, put_absent-IsCached D laws answer hashes rest j s takes good plain)
