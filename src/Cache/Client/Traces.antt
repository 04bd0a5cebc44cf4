-- ===== src/Cache/Client/Traces.antt =====
-- Any sequence of calls of LevelDBHelper: the cache is a map from hashes to blocks.
use balabox.Base.{
  ℕ, ◌≡◌, refl, sym, ap, ◌∙◌, true, Option, none, some, List, [], ◌∷◌, if◌then◌else◌, All,
}
use balabox.Base.Text.{Text}
use balabox.Exec.{Exec, ok, pure, ◌>>=◌}
use balabox.Cache.Server.{LevelDb}
use balabox.Cache.Server.Laws.{IsLevelDb}
use balabox.Cache.Process.Blocks.{
  Call, put_block, get_block, Store, with_block, IsCall, Holds, put-Holds,
}
use balabox.Cache.Client.{Network, failed, helper_get, helper_put}
use balabox.Cache.Client.Laws.{IsNetwork, IsSized, helper_put_lem, helper_get_lem}

abbrev result_of : Option Text → ℕ × Text
result_of none = (1, [])
result_of (some v) = if failed v then (1, []) else (0, v)

-- What the calls return, with an empty string where no block is given.
abbrev pub results : Store → List Call → List (ℕ × Text)
results store [] = []
results store (put_block k v ∷ calls) = (0, []) ∷ results (with_block k v store) calls
results store (get_block k ∷ calls) = result_of (store k) ∷ results store calls

module _ (N : Network) (D : LevelDb) (m p : ℕ) where
  -- The calls in turn, by whatever processes.
  unfoldable pub perform : List Call → Exec D.State (List (ℕ × Text))
  perform [] = pure []
  perform (put_block k v ∷ calls) = do
    code ← helper_put N D m p k v
    rest ← perform calls
    pure ((code, []) ∷ rest)
  perform (get_block k ∷ calls) = do
    result ← helper_get N D m p k []
    rest ← perform calls
    pure (result ∷ rest)

module _ (N : Network) (D : LevelDb) (m p : ℕ) (net : IsNetwork N) (sized : IsSized m p)
    (laws : IsLevelDb D) (takes : (k v : Text) (s : D.State) → (D.put k v s).0 ≡ true) where
  get_lem :
      (k : Text) (store : Store) (s : D.State)
      → IsCall m (get_block k)
      → Holds D m store s
      → helper_get N D m p k [] s ≡ (ok (result_of (store k)), s)
  get_lem k store s (key, fits) h =
      helper_get_lem N D m p net sized k [] s key fits (λ v e. h.small k v (sym (h.same k) ∙ e))
      ∙ rw (h.same k) (ap (λ r. (ok r, s)) (same_result (store k)))
    where
      same_result :
          (o : Option Text)
          → elim o as (λ _. ℕ × Text) [
            | none ↦ (1, [])
            | some v ↦ if failed v then (1, []) else (0, v)
          ]
            ≡ result_of o
      same_result none = refl
      same_result (some v) = refl

  -- Any sequence of calls of LevelDBHelper::put and get returns what a map from hashes to blocks
  -- gives: put returns 0, and get 0 with the block that was put last under the hash, or 1 if there
  -- is none or it is the message of a failure. The hashes are without a comma, the commands and the
  -- blocks that are there fit a buffer, the database takes every block, and the sockets lose
  -- nothing (IsNetwork) and the sizes are sound (IsSized).
  pub perform-results :
      (calls : List Call) (store : Store) (s : D.State)
      → All (IsCall m) calls
      → Holds D m store s
      → (perform N D m p calls s).0 ≡ ok (results store calls)
  unfolding perform ◌>>=◌
  perform-results [] store s good h = refl
  perform-results (put_block k v ∷ calls) store s ((key, fits), good) h =
      let later =
        perform-results calls (with_block k v store) (D.put k v s).1 good
          (put-Holds D m laws takes k v store s fits h) in
      rw (helper_put_lem N D m p net sized k v s key fits, takes k v s, later)
  perform-results (get_block k ∷ calls) store s (call, good) h =
      rw (get_lem k store s call h, perform-results calls store s good h)
