-- ===== src/Extractor/Matching/Tests.antt =====
-- Runs of `hasCompleteMatching`.
use internal.Prelude.{
  ℕ, zero, suc, ◌<◌, ◌≡◌, ◌↔◌, refl, true, false, Option, some, List, [], ◌∷◌, All-at, arith,
}
use internal.Extractor.Matching.{
  try_rights, try_owner, after_owner, augment, match_next, match_from, complete_matching,
  has_complete_matching,
}
use internal.Extractor.Matching.Augmenting.Steps.{InRange}
use internal.Extractor.Matching.Complete.{IsComplete, has_complete_matching_iff}

-- The left index 1 has to give up the right index 0.
abbrev shared : List (List ℕ)
shared = (0 ∷ 1 ∷ []) ∷ (0 ∷ []) ∷ []

-- Two left indices that need the same right index.
abbrev crowded : List (List ℕ)
crowded = (0 ∷ []) ∷ (0 ∷ []) ∷ []

shared_matches : has_complete_matching shared 2 ≡ true
unfolding has_complete_matching complete_matching match_from match_next augment try_rights try_owner
    after_owner
shared_matches = refl

crowded_fails : has_complete_matching crowded 2 ≡ false
unfolding has_complete_matching complete_matching match_from match_next augment try_rights try_owner
    after_owner
crowded_fails = refl

shared-InRange : InRange shared 2
shared-InRange zero right m = All-at (λ r. r < 2) m (omega arith, (omega arith, tt))
shared-InRange (suc zero) right m = All-at (λ r. r < 2) m (omega arith, tt)
shared-InRange (suc (suc left)) right m = All-at (λ r. r < 2) m tt

shared_example :
    (complete_matching shared 2 ≡ some (has_complete_matching shared 2))
    × ((has_complete_matching shared 2 ≡ true) ↔ ((m : List (Option ℕ)) × IsComplete shared 2 m))
shared_example = has_complete_matching_iff shared 2 shared-InRange
