-- ===== src/Release/Effects.antt =====
-- Effects of the release engine: an operation reads and changes the outside world, and returns or
-- fails. Beside the world a run keeps the trace of its calls, the latest first.
use internal.Prelude.{◌≡◌, refl, sym, ap, ◌∙◌, List, ◌∷◌, Failure, Result, ok, err}

pub record Run (Call World : Type 0) : Type 0 where
  pub world : World
  pub trace : List Call

abbrev pub Eff : Type 0 → Type 0 → Type 0 → Type 0
Eff Call World A = Run Call World → Result A × Run Call World

module _ {Call World A : Type 0} where
  abbrev pub pure : A → Eff Call World A
  pure a s = (ok a, s)

  -- A failure of the error channel; what was done before it stays done.
  abbrev pub fail : Failure → Eff Call World A
  fail e s = (err e, s)

  -- `lift`: a throw of synchronous code is a failure.
  abbrev pub lift : Result A → Eff Call World A
  lift r s = (r, s)

  -- A call of a port: the world answers, and the call is noted with the answer.
  abbrev pub call : (Result A → Call) → (World → Result A × World) → Eff Call World A
  call note port s =
      let (r, w) = port s.world in (r, record { world = w; trace = note r ∷ s.trace })

  -- `Effect.result`: the failure becomes a value.
  abbrev pub attempt : Eff Call World A → Eff Call World (Result A)
  attempt m s = let (r, s') = m s in (ok r, s')

module _ {Call World A B : Type 0} where
  abbrev pub continue : Result A → (A → Eff Call World B) → Eff Call World B
  continue (ok a) f s = f a s
  continue (err e) f s = (err e, s)

  infixl 5 ◌>>=◌ ◌>>◌
  abbrev pub ◌>>=◌ : Eff Call World A → (A → Eff Call World B) → Eff Call World B
  ◌>>=◌ m f s = let (r, s') = m s in continue r f s'

  abbrev pub ◌>>◌ : Eff Call World A → Eff Call World B → Eff Call World B
  m >> k = m >>= λ _. k

module _ {Call World A B : Type 0} where
  continue-ok :
      (r : Result A) (f : A → Eff Call World B) (t : Run Call World) {b : B} {s' : Run Call World}
      → continue r f t ≡ (ok b, s')
      → (a : A) × (r ≡ ok a) × (f a t ≡ (ok b, s'))
  continue-ok (ok a) f t h = (a, refl, h)
  continue-ok (err e) f t h = absurd (cc (ap (λ (p : Result B × Run Call World). p.0) h))

  -- A sequence that returns: its first part returned, and its second part went on from there.
  pub bind-ok :
      (m : Eff Call World A) (f : A → Eff Call World B) (s : Run Call World) {b : B}
      {s' : Run Call World}
      → (m >>= f) s ≡ (ok b, s')
      → (a : A) × (t : Run Call World) × (m s ≡ (ok a, t)) × (f a t ≡ (ok b, s'))
  bind-ok m f s h =
      let (a, returned, later) = continue-ok (m s).0 f (m s).1 h in
      (a, (m s).1, pair_path (m s) (ok a) returned, later)
    where
      pair_path : (p : Result A × Run Call World) (r : Result A) → p.0 ≡ r → p ≡ (r, p.1)
      pair_path p r e = λ i. (e i, p.1)

module _ {Call World A : Type 0} where
  -- What a call that returned has added to the trace.
  pub call-ok :
      (note : Result A → Call) (port : World → Result A × World) (s : Run Call World) {a : A}
      {s' : Run Call World}
      → call note port s ≡ (ok a, s')
      → s'.trace ≡ note (ok a) ∷ s.trace
  call-ok note port s {s' = s'} h =
      sym (ap (λ (p : Result A × Run Call World). p.1.trace) h)
      ∙ ap (λ (r : Result A). note r ∷ s.trace) (ap (λ (p : Result A × Run Call World). p.0) h)

  pub lift-ok :
      (r : Result A) (s : Run Call World) {a : A} {s' : Run Call World}
      → lift r s ≡ (ok a, s')
      → (r ≡ ok a) × (s ≡ s')
  lift-ok r s h = (ap (λ p. p.0) h, ap (λ p. p.1) h)

  -- An attempted call always returns, and notes the answer, failures included.
  pub attempt-call :
      (note : Result A → Call) (port : World → Result A × World) (s : Run Call World) {r : Result A}
      {s' : Run Call World}
      → attempt (call note port) s ≡ (ok r, s')
      → s'.trace ≡ note r ∷ s.trace
  attempt-call note port s {r = r} {s' = s'} h =
      sym (ap (λ (p : Result (Result A) × Run Call World). p.1.trace) h)
      ∙ ap (λ (x : Result A). note x ∷ s.trace)
          (ok-injective _ r (ap (λ (p : Result (Result A) × Run Call World). p.0) h))
    where
      ok-injective : (x y : Result A) → ◌≡◌ {A = Result (Result A)} (ok x) (ok y) → x ≡ y
      ok-injective x y e = cc

  pub fail-ne-ok :
      (e : Failure) (s : Run Call World) {a : A} {s' : Run Call World}
      → ◌≡◌ {A = Result A × Run Call World} (fail e s) (ok a, s')
      → ⊥
  fail-ne-ok e s h = cc (ap (λ (p : Result A × Run Call World). p.0) h)
