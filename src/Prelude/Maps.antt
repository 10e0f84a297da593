-- ===== src/Prelude/Maps.antt =====
-- A JavaScript `Map` with texts for keys: its entries in the order of insertion.
use mathlib.Core.Path.{◌≡◌, refl}
use mathlib.Core.Logic.{inl, inr}
use mathlib.Core.Bool.{true}
use mathlib.Core.Option.{Option, none, some}
use mathlib.Core.List.{List, [], ◌∷◌, Memᴰ}
use native.Mathlib.Omega.{arith}
use internal.Prelude.Tests.{Bool-cases, if◌then◌else◌}
use internal.Prelude.Texts.{Text, ◌===◌, ===_iff}

module _ {ℓ} {V : Type ℓ} where
  abbrev pub keys : List (Text × V) → List Text
  keys [] = []
  keys ((k, v) ∷ m) = k ∷ keys m

  -- `get`
  unfoldable pub get : Text → List (Text × V) → Option V
  get k [] = none
  get k ((j, v) ∷ m) = if j === k then some v else get k m

  -- `set`: a key that is there keeps its place.
  unfoldable pub set : Text → V → List (Text × V) → List (Text × V)
  set k v [] = (k, v) ∷ []
  set k v ((j, w) ∷ m) = if j === k then (k, v) ∷ m else (j, w) ∷ set k v m

  pub get-set :
      (k j : Text) (v : V) (m : List (Text × V))
      → get j (set k v m) ≡ (if k === j then some v else get j m)
  unfolding get set
  get-set k j v [] = refl
  get-set k j v ((i, w) ∷ m) =
      ground (arith, ===_iff i k, ===_iff i j, ===_iff k j, get-set k j v m)

  pub mem_of_get : (k : Text) (v : V) (m : List (Text × V)) → get k m ≡ some v → Memᴰ (k, v) m
  unfolding get
  mem_of_get k v [] h = cc
  mem_of_get k v ((j, w) ∷ m) h = elim (Bool-cases (j === k)) [
    | inl same ↦ Memᴰ.head (found same)
    | inr other ↦ Memᴰ.tail (mem_of_get k v m (ground arith))
  ]
    where
      found : (j === k) ≡ true → ◌≡◌ {A = Text × V} (k, v) (j, w)
      found same = ground (arith, ===_iff j k)
