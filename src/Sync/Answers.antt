-- ===== src/Sync/Answers.antt =====
-- What an action of client/sync.py that succeeded was answered.
use balabox.Base.{
  ◌≡◌, refl, sym, ap, ◌∙◌, Bool, true, false, inl, inr, Option, none, some, ◌==◌, Bool-cases,
  Option-cases, if◌then◌else◌, arith,
}
use balabox.Exec.{Result, Exec, ok, crash, pure, demand, continue, ◌>>=◌}
use balabox.Sync.{Outside, Client, Response, ask, request_ok, get_ok}

-- An action that gave a value ran to its end, and so did what it runs first.
pub bind-ok :
    {S A B : Type 0} (m : Exec S A) (f : A → Exec S B) (s s' : S) (b : B)
    → (m >>= f) s ≡ (ok b, s')
    → (a : A) × (s1 : S) × (m s ≡ (ok a, s1)) × (f a s1 ≡ (ok b, s'))
unfolding ◌>>=◌
bind-ok {S} {A} {B} m f s s' b e = go (m s) refl e
  where
    go :
        (p : Result A × S)
        → m s ≡ p
        → continue p.0 f p.1 ≡ (ok b, s')
        → (a : A) × (s1 : S) × (m s ≡ (ok a, s1)) × (f a s1 ≡ (ok b, s'))
    go (ok a, s1) run rest = (a, s1, run, rest)
    go (crash, s1) run rest = cc

pub none-some :
    {S A : Type 0} {a : A} {s s' : S}
    → ◌≡◌ {A = Result (Option A) × S} (ok none, s) (ok (some a), s')
    → ⊥
none-some e = cc

pub some-some :
    {S A : Type 0} {a b : A} {s s' : S}
    → ◌≡◌ {A = Result (Option A) × S} (ok (some a), s) (ok (some b), s')
    → a ≡ b
some-some e = cc

pub none-ne-some : {A : Type 0} {a : A} → ◌≡◌ {A = Option A} none (some a) → ⊥
none-ne-some e = cc

pub crash-ok : {S A : Type 0} {a : A} {s s' : S} → ◌≡◌ {A = Result A × S} (crash, s) (ok a, s') → ⊥
crash-ok e = cc

pub demand-ok :
    {S A : Type 0} (o : Option A) (a : A) (s s' : S)
    → demand o s ≡ (ok a, s')
    → (o ≡ some a) × (s' ≡ s)
unfolding demand
demand-ok none a s s' e = cc
demand-ok (some b) a s s' e = (cc, cc)

pub false-true : {S : Type 0} {s s' : S} → ◌≡◌ {A = Result Bool × S} (ok false, s) (ok true, s') → ⊥
false-true e = cc

-- A request was answered with status 200 and a body.
pub record Answered {A : Type 0} {S : Type 0} (m : Exec S (Response A)) (a : A) (s s' : S)
    : Type 0 where
  pub response : Response A
  pub run : m s ≡ (ok response, s')
  pub status : response.status_code ≡ 200
  pub body : response.content ≡ some a

module _ (O : Outside) where
  pub ask-ok :
      {A : Type 0} (m : Exec O.State A) (a : A) (c c' : Client O)
      → ask O m c ≡ (ok a, c')
      → (m c.outside ≡ (ok a, c'.outside)) × (c' ≡ record c { outside = c'.outside })
  unfolding ask
  ask-ok m a c c' e = (
    ap (λ p. (p.0, p.1.outside)) e,
    sym (ap (λ p. p.1) e) ∙ ap (λ s. record c { outside = s }) (ap (λ p. p.1.outside) e),
  )

  pub get_ok-Answered :
      {A : Type 0} (m : Exec O.State (Response A)) (a : A) (c c' : Client O)
      → get_ok O m c ≡ (ok (some a), c')
      → Answered m a c.outside c'.outside × (c' ≡ record c { outside = c'.outside })
  unfolding get_ok ask demand pure request_ok ◌>>=◌
  get_ok-Answered {A} m a c c' e = go (m c.outside) refl e
    where
      go :
          (p : Result (Response A) × O.State)
          → m c.outside ≡ p
          → continue p.0
              (λ r. if request_ok r then (do b ← demand r.content; pure (some b)) else pure none)
              (record c { outside = p.1 })
            ≡ (ok (some a), c')
          → Answered m a c.outside c'.outside × (c' ≡ record c { outside = c'.outside })
      go (ok r, s1) run rest = elim (Bool-cases (r.status_code == 200)) [
        | inl good ↦ elim (Option-cases r.content) [
          | inl unread ↦
              let e' : (crash, record c { outside = s1 }) ≡ (ok (some a), c') =
                rw (good, unread) at rest in
              cc
          | inr (b, read) ↦
              let e' : (ok (some b), record c { outside = s1 }) ≡ (ok (some a), c') =
                rw (good, read) at rest in
              let same : record c { outside = s1 } ≡ c' = ap (λ p. p.1) e' in
              let value : some b ≡ some a = cc in
              let state : s1 ≡ c'.outside = ap (λ d. d.outside) same in
              (
                record {
                  response = r;
                  run = run ∙ ap (λ s. (ok r, s)) state;
                  status = ground arith;
                  body = read ∙ value;
                },
                sym same ∙ ap (λ s. record c { outside = s }) state,
              )
        ]
        | inr bad ↦
            let e' : (ok none, record c { outside = s1 }) ≡ (ok (some a), c') = rw bad at rest in cc
      ]
      go (crash, s1) run rest = cc
