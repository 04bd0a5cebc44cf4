-- ===== src/Cache/Fetch/Laws.antt =====
-- What a client of the cache is given: a block that is stored, or what the block server answers.
use balabox.Base.{ℕ, ◌+◌, ◌≤◌, ◌≡◌, ap, ◌∙◌, true, false, some, [], ◌++◌, length, arith}
use balabox.Base.Text.{Text}
use balabox.Exec.{ok, ◌>>=◌}
use balabox.Cache.Server.{LevelDb}
use balabox.Cache.Server.Laws.{
  IsLevelDb, IsKey, put_command, get_command, length-put_command, length-get_command,
}
use balabox.Cache.Client.{Network, failed, helper_get, already_exists}
use balabox.Cache.Client.Laws.{
  IsNetwork, IsSized, exists, helper_get_lem, helper_put_lem, already_exists_lem,
}
use balabox.Cache.Fetch.{
  Neon, Response, Cached, request_from_block_server, cached_head, fetched_head, fetch_block,
  on_cache, put_out,
}

module _ (N : Network) (D : LevelDb) (neon : Neon) (m p : ℕ) (net : IsNetwork N)
    (sized : IsSized m p) where
  -- A block that the cache holds is served from it, and nothing else happens: under a hash without
  -- a comma, if the command and the block fit a buffer, the block is not the message of a failure,
  -- and the sockets lose nothing (IsNetwork) and the sizes are sound (IsSized).
  pub fetch_block-hit :
      (hash v : Text) (w : Cached D)
      → IsKey hash
      → 4 + length (get_command hash) ≤ m
      → 4 + length v ≤ m
      → D.get hash w.db ≡ some v
      → failed v ≡ false
      → fetch_block N D neon m p hash w ≡ (ok tt, record w { out = w.out ++ (cached_head ++ v) })
  unfolding fetch_block on_cache put_out ◌>>=◌
  fetch_block-hit hash v w key fits small there plain =
      let all_small : (u : Text) → D.get hash w.db ≡ some u → 4 + length u ≤ m =
        λ u e. let same : v ≡ u = cc in omega (arith, ap length same) in
      let known : already_exists N D m p hash w.db ≡ (ok true, w.db) =
        already_exists_lem N D m p net sized hash w.db key fits all_small ∙ rw (there, plain) in
      let read : helper_get N D m p hash [] w.db ≡ (ok (0, v), w.db) =
        helper_get_lem N D m p net sized hash [] w.db key fits all_small ∙ rw (there, plain) in
      rw (known, read)

  -- A block that the cache does not hold is requested from the block server, its answer is passed
  -- on with its code and type and put into the database, whatever its code: under a hash without a
  -- comma, if the commands and the value in the database fit a buffer, and the sockets lose nothing
  -- (IsNetwork) and the sizes are sound (IsSized).
  pub fetch_block-miss :
      (hash : Text) (r : Response) (w : Cached D)
      → IsKey hash
      → 4 + length (put_command hash r.body) ≤ m
      → ((v : Text) → D.get hash w.db ≡ some v → 4 + length v ≤ m)
      → exists (D.get hash w.db) ≡ false
      → request_from_block_server neon hash w ≡ (ok r, w)
      → fetch_block N D neon m p hash w ≡ (
        ok tt,
        record w { db = (D.put hash r.body w.db).1; out = w.out ++ (fetched_head r ++ r.body) },
      )
  unfolding fetch_block on_cache put_out ◌>>=◌
  fetch_block-miss hash r w key fits small unknown answer =
      let short : 4 + length (get_command hash) ≤ m =
        omega (arith, length-put_command hash r.body, length-get_command hash) in
      let known : already_exists N D m p hash w.db ≡ (ok false, w.db) =
        already_exists_lem N D m p net sized hash w.db key short small ∙ rw unknown in
      rw (known, answer, helper_put_lem N D m p net sized hash r.body w.db key fits)

  -- What the block server answers for a block that the cache does not hold, an error page included,
  -- is what the next request for the block is given, as a block of the cache with status 200: under
  -- a hash without a comma, if the database takes it, the commands and the value in the database
  -- fit a buffer, the answer is not the message of a failure, and the sockets lose nothing
  -- (IsNetwork) and the sizes are sound (IsSized).
  pub fetch_block-fetch_block :
      (hash : Text) (r : Response) (w : Cached D)
      → IsLevelDb D
      → IsKey hash
      → 4 + length (put_command hash r.body) ≤ m
      → ((v : Text) → D.get hash w.db ≡ some v → 4 + length v ≤ m)
      → exists (D.get hash w.db) ≡ false
      → request_from_block_server neon hash w ≡ (ok r, w)
      → (D.put hash r.body w.db).0 ≡ true
      → failed r.body ≡ false
      → fetch_block N D neon m p hash (fetch_block N D neon m p hash w).1 ≡ (
        ok tt,
        record w {
          db = (D.put hash r.body w.db).1;
          out = (w.out ++ (fetched_head r ++ r.body)) ++ (cached_head ++ r.body);
        },
      )
  fetch_block-fetch_block hash r w laws key fits small unknown answer took plain =
      let short : 4 + length (get_command hash) ≤ m =
        omega (arith, length-put_command hash r.body, length-get_command hash) in
      let fits' : 4 + length r.body ≤ m = omega (arith, length-put_command hash r.body) in
      rw (fetch_block-miss hash r w key fits small unknown answer) (
        fetch_block-hit hash r.body _ key short fits' (laws.get-put_self hash r.body w.db took)
          plain)
