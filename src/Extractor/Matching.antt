-- ===== src/Extractor/Matching.antt =====
-- packages/api-extractor/src/canonical/equivalence.ts: `hasCompleteMatching`, the search for a
-- complete matching by augmenting paths. The recursion of `augment` is on fuel.
pub mod Cells
pub mod Counting
pub mod Weights
pub mod Augmenting
pub mod Complete
pub mod InTurn
mod Tests
use internal.Prelude.{
  ℕ, zero, suc, ◌+◌, Bool, true, false, Option, none, some, List, [], ◌∷◌, if◌then◌else◌,
}
use internal.Extractor.Matching.Cells.{cell, put, fill}

-- The arrays `visited` and `matched`; `none` in `matched` is the source's -1.
pub record Search : Type 0 where
  pub visited : List Bool
  pub matched : List (Option ℕ)

abbrev pub mark : ℕ → Search → Search
mark right s = record s { visited = put s.visited right true }

abbrev pub assign : ℕ → ℕ → Search → Search
assign left right s = record s { matched = put s.matched right (some left) }

-- The rest of a round, once the owner of the right index was augmented.
pub after_owner :
    ℕ → ℕ → (Search → Option (Bool × Search)) → Option (Bool × Search) → Option (Bool × Search)
after_owner left right next none = none
after_owner left right next (some (true, s)) = some (true, assign left right s)
after_owner left right next (some (false, s)) = next s

-- The loop of `augment` over the right indices; `deeper` is the recursive call.
module _ (deeper : ℕ → Search → Option (Bool × Search)) (left : ℕ) where
  pub try_owner : ℕ → Option ℕ → (Search → Option (Bool × Search)) → Search → Option (Bool × Search)
  unfolding after_owner
  try_owner right none next s = some (true, assign left right s)
  try_owner right (some owner) next s = after_owner left right next (deeper owner s)

  pub try_rights : List ℕ → Search → Option (Bool × Search)
  unfolding try_owner
  try_rights [] s = some (false, s)
  try_rights (right ∷ rest) s =
      let next = try_rights rest in
      if cell s.visited right false
      then next s
      else try_owner right (cell s.matched right none) next (mark right s)

abbrev pub is_found : Option Bool → Bool
is_found none = false
is_found (some b) = b

module _ (adjacency : List (List ℕ)) where
  -- Out of fuel is `none`.
  pub augment : ℕ → ℕ → Search → Option (Bool × Search)
  unfolding try_rights
  augment zero left s = none
  augment (suc fuel) left s = try_rights (augment fuel) left (cell adjacency left []) s

  pub match_next : (List (Option ℕ) → Option Bool) → Option (Bool × Search) → Option Bool
  match_next later none = none
  match_next later (some (true, s)) = later s.matched
  match_next later (some (false, s)) = some false

  -- The loop over the left indices from `index` on, `count` of them.
  pub match_from : ℕ → ℕ → ℕ → List (Option ℕ) → Option Bool
  unfolding match_next
  match_from size zero index matched = some true
  match_from size (suc count) index matched =
      match_next (match_from size count (suc index))
        (augment (suc size) index (record { visited = fill size false; matched = matched }))

  pub complete_matching : ℕ → Option Bool
  unfolding match_from
  complete_matching size = match_from size size 0 (fill size none)

  pub has_complete_matching : ℕ → Bool
  unfolding complete_matching
  has_complete_matching size = is_found (complete_matching size)
