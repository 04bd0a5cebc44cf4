-- ===== src/Cache/Prefetch/Laws.antt =====
-- What the prefetcher does to the database: of the recent hashes, it puts the blocks that are not
-- cached and that the block server has.
use balabox.Base.{
  ℕ, ◌+◌, ◌≤◌, ◌≡◌, refl, false, not, inl, inr, Bool-cases, some, List, [], ◌∷◌, All, keep_if,
  All-keep_if, if◌then◌else◌, length, arith,
}
use balabox.Base.Text.{Text}
use balabox.Exec.{ok, ◌>>=◌}
use balabox.Json.{Json}
use balabox.Cache.Server.{LevelDb}
use balabox.Cache.Server.Laws.{IsKey, put_command, length-put_command, length-get_command}
use balabox.Cache.Client.{Network, already_exists}
use balabox.Cache.Client.Laws.{IsNetwork, IsSized, exists, helper_put_lem, already_exists_lem}
use balabox.Cache.Fetch.{Neon, Response, request_from_block_server}
use balabox.Cache.Prefetch.{is_block, pick_hashes, prefetch_hash, prefetch_hashes, prefetch_list}

-- The strings of a JSON array, from index `i` on.
abbrev pub Holds : (J : Json) → J.Value → ℕ → List Text → Type 0
Holds J v i [] = Unit
Holds J v i (h ∷ hashes) =
    ((e : J.Value) × (J.get_index v i ≡ some e) × (J.as_string e ≡ some h))
    × Holds J v (i + 1) hashes

-- Putting what the block server answers for a hash, if it is a block.
abbrev pub put_answer : (D : LevelDb) → (Text → Response) → Text → D.State → D.State
put_answer D answer h s = if is_block (answer h) then (D.put h (answer h).body s).1 else s

abbrev pub put_answers : (D : LevelDb) → (Text → Response) → List Text → D.State → D.State
put_answers D answer [] s = s
put_answers D answer (h ∷ hashes) s = put_answers D answer hashes (put_answer D answer h s)

-- The hashes of a list that are not cached.
abbrev pub absent : (D : LevelDb) → D.State → List Text → List Text
absent D s hashes = keep_if (λ h. not (exists (D.get h s))) hashes

module _ (D : LevelDb) (neon : Neon) (m : ℕ) (answer : Text → Response) where
  -- A hash without a comma that the block server answers, with an answer that fits a buffer.
  abbrev pub IsFetchable : Text → Type 0
  IsFetchable h =
      IsKey h
      × (4 + length (put_command h (answer h).body) ≤ m)
      × ((s : D.State) → request_from_block_server neon h s ≡ (ok (answer h), s))

  -- What is cached under a hash fits a buffer.
  abbrev pub IsSmall : D.State → Text → Type 0
  IsSmall s h = (v : Text) → D.get h s ≡ some v → 4 + length v ≤ m

module _ (N : Network) (D : LevelDb) (neon : Neon) (m p : ℕ) (net : IsNetwork N)
    (sized : IsSized m p) (answer : Text → Response) where
  known_lem :
      (h : Text) (s : D.State)
      → IsFetchable D neon m answer h
      → IsSmall D neon m answer s h
      → already_exists N D m p h s ≡ (ok (exists (D.get h s)), s)
  known_lem h s (key, fits, asks) small =
      already_exists_lem N D m p net sized h s key
        (omega (arith, length-put_command h (answer h).body, length-get_command h)) small

  pick_hashes_lem :
      (J : Json) (v : J.Value) (i : ℕ) (hashes : List Text) (s : D.State)
      → Holds J v i hashes
      → All (IsFetchable D neon m answer) hashes
      → All (IsSmall D neon m answer s) hashes
      → pick_hashes N D m p J (length hashes) i v s ≡ (ok (absent D s hashes), s)
  unfolding pick_hashes ◌>>=◌
  pick_hashes_lem J v i [] s holds fetch small = refl
  pick_hashes_lem J v i (h ∷ hashes) s ((e, at, is), holds) (f, fetch) (k, small) =
      elim (Bool-cases (exists (D.get h s))) [
        | inl there ↦ rw (
          at,
          is,
          known_lem h s f k,
          pick_hashes_lem J v (i + 1) hashes s holds fetch small,
          there,
        )
        | inr new ↦
            rw (
              at,
              is,
              known_lem h s f k,
              pick_hashes_lem J v (i + 1) hashes s holds fetch small,
              new,
            )
      ]

  prefetch_hash_lem :
      (h : Text) (s : D.State)
      → IsFetchable D neon m answer h
      → prefetch_hash N D neon m p h s ≡ (ok tt, put_answer D answer h s)
  unfolding prefetch_hash ◌>>=◌
  prefetch_hash_lem h s (key, fits, asks) = elim (Bool-cases (is_block (answer h))) [
    | inl good ↦ rw (asks s, good, helper_put_lem N D m p net sized h (answer h).body s key fits)
    | inr bad ↦ rw (asks s, bad)
  ]

  prefetch_hashes_lem :
      (hashes : List Text) (s : D.State)
      → All (IsFetchable D neon m answer) hashes
      → prefetch_hashes N D neon m p hashes s ≡ (ok tt, put_answers D answer hashes s)
  unfolding prefetch_hashes ◌>>=◌
  prefetch_hashes_lem [] s f = refl
  prefetch_hashes_lem (h ∷ hashes) s (f, fetch) =
      rw (prefetch_hash_lem h s f) (prefetch_hashes_lem hashes (put_answer D answer h s) fetch)

  -- For a block list, the prefetcher puts the answer of the block server for each hash that is not
  -- cached, in the order of the list, if its code is 200, and nothing else. The list is one of
  -- hashes without a comma that the block server answers, the answers and what is cached under them
  -- fit a buffer, the sockets lose nothing (IsNetwork) and the sizes are sound (IsSized).
  pub prefetch_list_lem :
      (J : Json) (v : J.Value) (hashes : List Text) (s : D.State)
      → J.is_null v ≡ false
      → J.size v ≡ length hashes
      → Holds J v 0 hashes
      → All (IsFetchable D neon m answer) hashes
      → All (IsSmall D neon m answer s) hashes
      → prefetch_list N D neon m p J v s ≡ (ok tt, put_answers D answer (absent D s hashes) s)
  unfolding prefetch_list ◌>>=◌
  prefetch_list_lem J v hashes s there size holds fetch small =
      rw (there, size, pick_hashes_lem J v 0 hashes s holds fetch small)
        (prefetch_hashes_lem (absent D s hashes) s
          (All-keep_if (IsFetchable D neon m answer) (λ h. not (exists (D.get h s))) hashes fetch))
