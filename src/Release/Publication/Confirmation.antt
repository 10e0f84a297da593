-- ===== src/Release/Publication/Confirmation.antt =====
-- `confirmRegistry`: what the polling returns, how often it reads, and that it only reads and waits.
use internal.Prelude.{
  ℕ, zero, suc, ◌+◌, ◌≤◌, ◌≡◌, refl, sym, ap, ◌∙◌, subst, Bool, true, false, Option, none, some,
  List, [], ◌∷◌, ◌++◌, append_assoc, All, All-append, Memᴰ, if◌then◌else◌, is_some, Result, ok,
  arith,
}
use internal.Release.Effects.{Run, Eff, pure, lift, ◌>>=◌, ◌>>◌, bind-ok, call-ok, lift-ok}
use internal.Release.Npm.{Registry}
use internal.Release.Publication.{
  Call, read_registry, npm_publish, npm_promote, sleep, PublicationDeps, confirmation_delay,
  confirmation_retries, read, wait, observe, confirm_registry,
}

-- The documented behaviour of `Effect.repeat` with a schedule of `n` delayed recurrences.
pub record IsRepeat {World : Type 0} (deps : PublicationDeps World) : Type 0 where
  pub no_recurrence :
      (delay : ℕ → Eff Call World (Unit {0})) (until : Option Registry → Bool)
      (m : Eff Call World (Option Registry))
      → deps.repeat zero delay until m ≡ m
  pub recurrence :
      (n : ℕ) (delay : ℕ → Eff Call World (Unit {0})) (until : Option Registry → Bool)
      (m : Eff Call World (Option Registry))
      → deps.repeat (suc n) delay until m ≡ (
          m >>= λ o.
          if until o then pure o else (delay 0 >> deps.repeat n (λ k. delay (suc k)) until m))

-- Reads of the registry that returned, and waits.
pub data IsPoll : Call → Type 0 where
  a_read : (r : Registry) → IsPoll (read_registry (ok r))
  a_wait : (delay : ℕ) (r : Result (Unit {0})) → IsPoll (sleep delay r)

-- The number of reads.
pub reads : List Call → ℕ
reads [] = 0
reads (read_registry r ∷ cs) = suc (reads cs)
reads (npm_publish a r ∷ cs) = reads cs
reads (npm_promote v t r ∷ cs) = reads cs
reads (sleep d r ∷ cs) = reads cs

reads-append : (xs ys : List Call) → reads (xs ++ ys) ≡ reads xs + reads ys
unfolding reads
reads-append [] ys = omega arith
reads-append (read_registry r ∷ cs) ys = omega (arith, reads-append cs ys)
reads-append (npm_publish a r ∷ cs) ys = reads-append cs ys
reads-append (npm_promote v t r ∷ cs) ys = reads-append cs ys
reads-append (sleep d r ∷ cs) ys = reads-append cs ys

ok_injective : (a b : Option Registry) → ◌≡◌ {A = Result (Option Registry)} (ok a) (ok b) → a ≡ b
ok_injective a b e = cc

module _ {World : Type 0} (deps : PublicationDeps World) (laws : IsRepeat deps) where
  -- A registry that the calls read shows what was looked for.
  abbrev pub Shown : (Registry → Result Bool) → List Call → Option Registry → Type 0
  Shown is_visible calls none = Unit {0}
  Shown is_visible calls (some r) = Memᴰ (read_registry (ok r)) calls × (is_visible r ≡ ok true)

  -- What polling that returned has done, with at most `most` reads.
  pub record Polled (is_visible : Registry → Result Bool) (most : ℕ) (s s' : Run Call World)
      (o : Option Registry) : Type 0 where
    pub calls : List Call
    pub added : s'.trace ≡ calls ++ s.trace
    pub polls : All IsPoll calls
    pub bounded : reads calls ≤ most
    pub shown : Shown is_visible calls o

  observe-Polled :
      (is_visible : Registry → Result Bool) (s : Run Call World) {s' : Run Call World}
      {o : Option Registry}
      → observe deps is_visible s ≡ (ok o, s')
      → Polled is_visible 1 s s' o
  unfolding observe read
  observe-Polled is_visible s {s' = s'} {o = o} h =
      let (r, t, returned, later) =
        bind-ok (read deps) (λ r. lift (is_visible r) >>= λ b. pure (if b then some r else none)) s
          h in
      let (b, u, seen, last) =
        bind-ok (lift (is_visible r)) (λ b. pure (if b then some r else none)) t later in
      let (visible, same) = lift-ok (is_visible r) t seen in
      let (result, end) = lift-ok (ok (if b then some r else none)) u last in
      subst (Polled is_visible 1 s s') (ok_injective _ o result) (record {
        calls = read_registry (ok r) ∷ [];
        added =
            sym (ap (λ (x : Run Call World). x.trace) (same ∙ end))
            ∙ call-ok read_registry deps.read s returned;
        polls = (a_read r, tt);
        bounded = unfold reads in omega arith;
        shown = shows b r visible;
      })
    where
      shows :
          (b : Bool) (r : Registry)
          → is_visible r ≡ ok b
          → Shown is_visible (read_registry (ok r) ∷ []) (if b then some r else none)
      shows true r e = (Memᴰ.head refl, e)
      shows false r e = tt

  Shown-append :
      (is_visible : Registry → Result Bool) (xs ys : List Call) (o : Option Registry)
      → Shown is_visible xs o
      → Shown is_visible (xs ++ ys) o
  Shown-append is_visible xs ys none h = tt
  Shown-append is_visible xs ys (some r) (m, e) = (mem_left xs m, e)
    where
      mem_left :
          (xs : List Call) → Memᴰ (read_registry (ok r)) xs → Memᴰ (read_registry (ok r)) (xs ++ ys)
      mem_left [] m = elim m [ ]
      mem_left (x ∷ xs) (Memᴰ.head e) = Memᴰ.head e
      mem_left (x ∷ xs) (Memᴰ.tail m) = Memᴰ.tail (mem_left xs m)

  -- More polling after a read that showed nothing.
  Polled-again :
      (is_visible : Registry → Result Bool) (n delay : ℕ) (r : Result (Unit {0}))
      (s t u s' : Run Call World) (o : Option Registry)
      → Polled is_visible 1 s t none
      → u.trace ≡ sleep delay r ∷ t.trace
      → Polled is_visible (suc n) u s' o
      → Polled is_visible (suc (suc n)) s s' o
  Polled-again is_visible n delay r s t u s' o first waited rest = record {
    calls = rest.calls ++ sleep delay r ∷ first.calls;
    added =
        rest.added
        ∙ ap (λ cs. rest.calls ++ cs) (waited ∙ ap (λ cs. sleep delay r ∷ cs) first.added)
        ∙ sym (append_assoc rest.calls (sleep delay r ∷ first.calls) s.trace);
    polls = All-append IsPoll rest.calls _ rest.polls (a_wait delay r, first.polls);
    bounded = bound;
    shown = Shown-append is_visible rest.calls (sleep delay r ∷ first.calls) o rest.shown;
  }
    where
      bound : reads (rest.calls ++ sleep delay r ∷ first.calls) ≤ suc (suc n)
      bound =
          let a = first.bounded in
          let b = rest.bounded in
          let c : reads (sleep delay r ∷ first.calls) ≡ reads first.calls = unfold reads in refl in
          omega (arith, reads-append rest.calls (sleep delay r ∷ first.calls))

  Polled-mono :
      (is_visible : Registry → Result Bool) (n : ℕ) (s s' : Run Call World) (o : Option Registry)
      → Polled is_visible 1 s s' o
      → Polled is_visible (suc n) s s' o
  Polled-mono is_visible n s s' o p = record {
    calls = p.calls;
    added = p.added;
    polls = p.polls;
    bounded = let b = p.bounded in omega arith;
    shown = p.shown;
  }

  wait-added :
      (delay : ℕ) (t u : Run Call World) (x : Unit {0})
      → wait deps delay t ≡ (ok x, u)
      → u.trace ≡ sleep delay (ok x) ∷ t.trace
  unfolding wait
  wait-added delay t u x h = call-ok (sleep delay) (deps.sleep delay) t h

  repeat-Polled :
      (is_visible : Registry → Result Bool) (n : ℕ) (delay : ℕ → ℕ) (s : Run Call World)
      {s' : Run Call World} {o : Option Registry}
      → deps.repeat n (λ k. wait deps (delay k)) is_some (observe deps is_visible) s ≡ (ok o, s')
      → Polled is_visible (suc n) s s' o
  repeat-Polled is_visible zero delay s {s'} {o} h = observe-Polled is_visible s (
      subst (λ (m : Eff Call World (Option Registry)). m s ≡ (ok o, s'))
        (laws.no_recurrence (λ k. wait deps (delay k)) is_some (observe deps is_visible)) h)
  repeat-Polled is_visible (suc n) delay s {s'} {o} h =
      let (first, t, observed, later) = bind-ok (observe deps is_visible) _ s (
        subst (λ (m : Eff Call World (Option Registry)). m s ≡ (ok o, s'))
          (laws.recurrence n (λ k. wait deps (delay k)) is_some (observe deps is_visible)) h) in
      next first t (λ u. repeat-Polled is_visible n (λ k. delay (suc k)) u) observed later
    where
      next :
          (first : Option Registry) (t : Run Call World)
          → ((u : Run Call World)
              → deps.repeat n (λ k. wait deps (delay (suc k))) is_some (observe deps is_visible) u
                ≡ (ok o, s')
              → Polled is_visible (suc n) u s' o)
          → observe deps is_visible s ≡ (ok first, t)
          → (if is_some first
                then pure first
                else (wait deps (delay 0)
                    >> deps.repeat n
                        (λ k. wait deps (delay (suc k)))
                        is_some
                        (observe deps is_visible)))
              t
            ≡ (ok o, s')
          → Polled is_visible (suc (suc n)) s s' o
      next (some r) t ih observed later =
          let (result, end) = lift-ok (ok (some r)) t later in
          Polled-mono is_visible (suc n) s s' o (
            subst (Polled is_visible 1 s s') (ok_injective _ o result) (
              subst (λ u. Polled is_visible 1 s u (some r)) end
                (observe-Polled is_visible s observed)))
      next none t ih observed later =
          let (x, u, waited, rest) =
            bind-ok (wait deps (delay 0))
              (λ _.
                deps.repeat n (λ k. wait deps (delay (suc k))) is_some (observe deps is_visible))
              t later in
          Polled-again is_visible n (delay 0) (ok x) s t u s' o
            (observe-Polled is_visible s observed) (wait-added (delay 0) t u x waited) (ih u rest)

  -- Polling that returns a registry has read that registry, and it shows what was looked for; it
  -- only reads and waits, and reads at most once more than the number of re-reads.
  pub confirm_registry-Polled :
      (is_visible : Registry → Result Bool) (s s' : Run Call World) (o : Option Registry)
      → confirm_registry deps is_visible s ≡ (ok o, s')
      → Polled is_visible
          (suc (confirmation_retries deps.confirmation_interval deps.confirmation_window))
          s
          s'
          o
  unfolding confirm_registry
  confirm_registry-Polled is_visible s s' o h =
      repeat-Polled is_visible
        (confirmation_retries deps.confirmation_interval deps.confirmation_window)
        (confirmation_delay deps.confirmation_interval) s h
