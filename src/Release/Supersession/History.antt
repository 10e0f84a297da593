-- ===== src/Release/Supersession/History.antt =====
-- `canaryHistory`: how each published canary stands to the commit.
use internal.Prelude.{
  ◌≡◌, ◌≢◌, refl, sym, subst, ◌∙◌, true, false, some, List, [], ◌∷◌, ◌++◌, ◌⊎◌, inl, inr,
  Bool-cases, Result-cases, Text, ◌===◌, ===_iff, All, Memᴰ, ok, arith,
}
use internal.Release.Supersession.{
  CommitAncestry, HistoryLoop, CanaryHistory, no_history, history_step, history_from,
  history_result, canary_history, published_canary_commits,
}
use internal.Release.Npm.{Registry}

mem_append_last : (w : Text) (ws : List Text) → Memᴰ w (ws ++ w ∷ [])
mem_append_last w [] = Memᴰ.head refl
mem_append_last w (x ∷ ws) = Memᴰ.tail (mem_append_last w ws)

mem_append_left : (w x : Text) (ws : List Text) → Memᴰ w ws → Memᴰ w (ws ++ x ∷ [])
mem_append_left w x [] m = elim m [ ]
mem_append_left w x (y ∷ ws) (Memᴰ.head e) = Memᴰ.head e
mem_append_left w x (y ∷ ws) (Memᴰ.tail m) = Memᴰ.tail (mem_append_left w x ws m)

-- The loop only adds.
record LoopLe (a b : HistoryLoop) : Type 0 where
  versions : (w : Text) → Memᴰ w a.versions_for_commit → Memᴰ w b.versions_for_commit
  diverged : a.diverged ≡ true → b.diverged ≡ true
  descendant : a.descendant ≡ true → b.descendant ≡ true

LoopLe-trans : {a b c : HistoryLoop} → LoopLe a b → LoopLe b c → LoopLe a c
LoopLe-trans p q = record {
  versions = λ w m. q.versions w (p.versions w m);
  diverged = λ h. q.diverged (p.diverged h);
  descendant = λ h. q.descendant (p.descendant h);
}

module _ (is_ancestor : CommitAncestry) (commit : Text) where
  -- What the loop has noted of one published canary.
  data Noted (loop : HistoryLoop) (w c : Text) : Type 0 where
    own : c ≡ commit → Memᴰ w loop.versions_for_commit → Noted loop w c
    newer : c ≢ commit → is_ancestor commit c ≡ ok true → loop.descendant ≡ true → Noted loop w c
    older :
        c ≢ commit
        → is_ancestor commit c ≡ ok false
        → is_ancestor c commit ≡ ok true
        → Noted loop w c
    diverging : loop.diverged ≡ true → Noted loop w c

  Noted-mono : {a b : HistoryLoop} {w c : Text} → LoopLe a b → Noted a w c → Noted b w c
  Noted-mono {w = w} le (own e m) = own e (le.versions w m)
  Noted-mono le (newer ne h d) = newer ne h (le.descendant d)
  Noted-mono le (older ne h k) = older ne h k
  Noted-mono le (diverging d) = diverging (le.diverged d)

  -- Where a note of the loop comes from.
  record Step (loop : HistoryLoop) (w c : Text) (next : HistoryLoop) : Type 0 where
    le : LoopLe loop next
    noted : Noted next w c
    descendant :
        (next.descendant ≡ loop.descendant) ⊎ ((c ≢ commit) × (is_ancestor commit c ≡ ok true))

  module _ (loop : HistoryLoop) (w c : Text) where
    abbrev with_own : HistoryLoop
    with_own = record loop { versions_for_commit = loop.versions_for_commit ++ w ∷ [] }

    Step-own : (c === commit) ≡ true → Step loop w c with_own
    Step-own same = record {
      le = record {
        versions = λ v m. mem_append_left v w loop.versions_for_commit m;
        diverged = λ d. d;
        descendant = λ d. d;
      };
      noted = own ((===_iff c commit).0 same) (mem_append_last w loop.versions_for_commit);
      descendant = inl refl;
    }

    other_commit : (c === commit) ≡ false → c ≢ commit
    other_commit other e = ground (arith, ===_iff c commit)

    Step-newer :
        (c === commit) ≡ false
        → is_ancestor commit c ≡ ok true
        → Step loop w c (record loop { descendant = true })
    Step-newer other n = record {
      le = record { versions = λ v m. m; diverged = λ d. d; descendant = λ d. refl };
      noted = newer (other_commit other) n refl;
      descendant = inr (other_commit other, n);
    }

    Step-older :
        (c === commit) ≡ false
        → is_ancestor commit c ≡ ok false
        → is_ancestor c commit ≡ ok true
        → Step loop w c loop
    Step-older other n o = record {
      le = record { versions = λ v m. m; diverged = λ d. d; descendant = λ d. d };
      noted = older (other_commit other) n o;
      descendant = inl refl;
    }

    Step-diverging : Step loop w c (record loop { diverged = true })
    Step-diverging = record {
      le = record { versions = λ v m. m; diverged = λ d. refl; descendant = λ d. d };
      noted = diverging refl;
      descendant = inl refl;
    }

    -- Whatever the round does, it ends in one of the four ways.
    history_step-Step :
        (next : HistoryLoop)
        → history_step is_ancestor commit loop w c ≡ ok next
        → Step loop w c next
    unfolding history_step
    history_step-Step next h = elim (Bool-cases (c === commit)) [
      | inl same ↦ let e : with_own ≡ next = ground arith in subst (Step loop w c) e (Step-own same)
      | inr other ↦ elim (Result-cases (is_ancestor commit c)) [
        | inr (f, failed) ↦ absurd (ground arith)
        | inl (true, n) ↦
            let e : record loop { descendant = true } ≡ next = ground arith in
            subst (Step loop w c) e (Step-newer other n)
        | inl (false, n) ↦ elim (Result-cases (is_ancestor c commit)) [
          | inr (f, failed) ↦ absurd (ground arith)
          | inl (true, o) ↦
              let e : loop ≡ next = ground arith in subst (Step loop w c) e (Step-older other n o)
          | inl (false, o) ↦
              let e : record loop { diverged = true } ≡ next = ground arith in
              subst (Step loop w c) e Step-diverging
        ]
      ]
    ]

  -- Some published canary stands on a strict descendant of the commit.
  abbrev pub HasDescendant : List (Text × Text) → Type 0
  HasDescendant entries =
      (w : Text) × (c : Text) × Memᴰ (w, c) entries
      × (c ≢ commit)
      × (is_ancestor commit c ≡ ok true)

  abbrev NotedEntry : HistoryLoop → Text × Text → Type 0
  NotedEntry loop entry = Noted loop entry.0 entry.1

  record Walked (loop : HistoryLoop) (entries : List (Text × Text)) (last : HistoryLoop)
      : Type 0 where
    le : LoopLe loop last
    noted : All (NotedEntry last) entries
    descendant : last.descendant ≡ true → (loop.descendant ≡ true) ⊎ HasDescendant entries

  Walked-cons :
      (loop next last : HistoryLoop) (w c : Text) (rest : List (Text × Text))
      → Step loop w c next
      → Walked next rest last
      → Walked loop ((w, c) ∷ rest) last
  Walked-cons loop next last w c rest s r = record {
    le = LoopLe-trans s.le r.le;
    noted = (Noted-mono r.le s.noted, r.noted);
    descendant = λ d. later (r.descendant d) s.descendant;
  }
    where
      later :
          (next.descendant ≡ true) ⊎ HasDescendant rest
          → (next.descendant ≡ loop.descendant) ⊎ ((c ≢ commit) × (is_ancestor commit c ≡ ok true))
          → (loop.descendant ≡ true) ⊎ HasDescendant ((w, c) ∷ rest)
      later (inr (v, d, m, ne, n)) k = inr (v, d, Memᴰ.tail m, ne, n)
      later (inl h) (inl same) = inl (sym same ∙ h)
      later (inl h) (inr (ne, n)) = inr (w, c, Memᴰ.head refl, ne, n)

  history_from-Walked :
      (loop last : HistoryLoop) (entries : List (Text × Text))
      → history_from is_ancestor commit loop entries ≡ ok last
      → Walked loop entries last
  unfolding history_from
  history_from-Walked loop last [] h =
      let e : loop ≡ last = cc in
      subst (Walked loop []) e (record {
        le = record { versions = λ v m. m; diverged = λ d. d; descendant = λ d. d };
        noted = tt;
        descendant = inl;
      })
  history_from-Walked loop last ((w, c) ∷ rest) h =
      elim (Result-cases (history_step is_ancestor commit loop w c)) [
        | inr (f, failed) ↦ absurd (cc (rw failed at h))
        | inl (next, stepped) ↦
            Walked-cons loop next last w c rest (history_step-Step loop w c next stepped)
              (history_from-Walked next last rest (rw stepped at h))
      ]

  -- How a published canary stands to the commit, in a history that was accepted.
  pub data Stands (history : CanaryHistory) (w c : Text) : Type 0 where
    own : c ≡ commit → history.published_version ≡ some w → Stands history w c
    newer :
        c ≢ commit → is_ancestor commit c ≡ ok true → history.superseded ≡ true → Stands history w c
    older :
        c ≢ commit
        → is_ancestor commit c ≡ ok false
        → is_ancestor c commit ≡ ok true
        → Stands history w c

  abbrev pub StandsEntry : CanaryHistory → Text × Text → Type 0
  StandsEntry history entry = Stands history entry.0 entry.1

  mem_single : (w v : Text) → Memᴰ w (v ∷ []) → w ≡ v
  mem_single w v (Memᴰ.head e) = e
  mem_single w v (Memᴰ.tail m) = elim m [ ]

  Stands-of_Noted :
      (loop : HistoryLoop) (history : CanaryHistory) (w c : Text)
      → loop.diverged ≡ false
      → history.superseded ≡ loop.descendant
      → (Memᴰ w loop.versions_for_commit → history.published_version ≡ some w)
      → Noted loop w c
      → Stands history w c
  Stands-of_Noted loop history w c d s p (own e m) = own e (p m)
  Stands-of_Noted loop history w c d s p (newer ne h k) = newer ne h (s ∙ k)
  Stands-of_Noted loop history w c d s p (older ne h k) = older ne h k
  Stands-of_Noted loop history w c d s p (diverging k) = absurd (cc)

  -- What the result of the loop says of the loop's variables.
  record Accepted (loop : HistoryLoop) (history : CanaryHistory) : Type 0 where
    diverged : loop.diverged ≡ false
    superseded : history.superseded ≡ loop.descendant
    published : (w : Text) → Memᴰ w loop.versions_for_commit → history.published_version ≡ some w

  history_result-Accepted :
      (loop : HistoryLoop) (vs : List Text) (history : CanaryHistory)
      → loop.versions_for_commit ≡ vs
      → history_result loop vs ≡ ok history
      → Accepted loop history
  unfolding history_result
  history_result-Accepted loop [] history same h = record {
    diverged = ground arith;
    superseded = ground arith;
    published = λ w m. absurd (elim (subst (Memᴰ w) same m) [ ]);
  }
  history_result-Accepted loop (v ∷ []) history same h = record {
    diverged = ground arith;
    superseded = ground arith;
    published = λ w m. let e = mem_single w v (subst (Memᴰ w) same m) in rw e (ground arith);
  }
  history_result-Accepted loop (v ∷ u ∷ vs) history same h = cc

  All-map :
      (P Q : Text × Text → Type 0) (xs : List (Text × Text))
      → ((x : Text × Text) → P x → Q x)
      → All P xs
      → All Q xs
  All-map P Q [] f h = tt
  All-map P Q (x ∷ xs) f (p, h) = (f x p, All-map P Q xs f h)

  -- An accepted history places every published canary, and is superseded only by a descendant.
  pub record History (registry : Registry) (history : CanaryHistory) : Type 0 where
    pub stands : All (StandsEntry history) (published_canary_commits registry)
    pub superseded : history.superseded ≡ true → HasDescendant (published_canary_commits registry)

  pub canary_history-History :
      (registry : Registry) (history : CanaryHistory)
      → canary_history is_ancestor commit registry ≡ ok history
      → History registry history
  unfolding canary_history
  canary_history-History registry history h =
      elim (Result-cases
        (history_from is_ancestor commit no_history (published_canary_commits registry))) [
          | inr (f, failed) ↦ absurd (cc (rw (failed, canary_history) at h))
          | inl (last, walked) ↦
              let w =
                history_from-Walked no_history last (published_canary_commits registry) walked in
              let a =
                history_result-Accepted last last.versions_for_commit history refl
                  (rw (walked, canary_history) at h) in
              record {
                stands =
                    All-map _ _ (published_canary_commits registry)
                      (λ e n.
                        Stands-of_Noted last history e.0 e.1 a.diverged a.superseded
                          (a.published e.0) n)
                      w.noted;
                superseded = λ s. descends (w.descendant (sym a.superseded ∙ s));
              }
        ]
    where
      descends :
          (false ≡ true) ⊎ HasDescendant (published_canary_commits registry)
          → HasDescendant (published_canary_commits registry)
      descends (inl e) = absurd (cc)
      descends (inr d) = d
