-- ===== src/Prelude/Texts.antt =====
-- A JavaScript string is the list of its UTF-16 code units.
use Prim.Native.Char.{code}
use Prim.Native.Nat.{ℕ, suc, ◌+◌}
use Prim.Native.String.{String}
use mathlib.Core.Path.{◌≡◌, refl, sym, ap, ◌∙◌}
use mathlib.Core.Logic.{◌≢◌, ◌↔◌, inl, inr}
use mathlib.Core.Bool.{Bool, true, false, ◌&&◌}
use mathlib.Core.Option
use mathlib.Core.Option.{Option, none, some}
use mathlib.Core.List.{List, [], ◌∷◌, ◌++◌, append_assoc}
use native.Mathlib.Omega.{arith}
use internal.Prelude.Tests.{◌==◌, if◌then◌else◌, Bool-cases}
use internal.Prelude.Lists.{
  length, take, drop, All, take-length-append, drop-length-append, length-append,
}

abbrev pub Text : Type 0
Text = List ℕ

-- A literal.
abbrev pub text : String → Text
text String.[] = []
text (String.◌∷◌ c s) = code c ∷ text s

-- `===` on strings.
infix 50 ◌===◌
unfoldable pub ◌===◌ : Text → Text → Bool
[] === [] = true
(a ∷ s) === (b ∷ t) = (a == b) && (s === t)
_ === _ = false

pub ===_iff : (s t : Text) → ((s === t) ≡ true) ↔ (s ≡ t)
unfolding ◌===◌
===_iff [] [] = ground arith
===_iff (a ∷ s) (b ∷ t) = ground (arith, ===_iff s t)
===_iff [] (b ∷ t) = ground arith
===_iff (a ∷ s) [] = ground arith

pub ===_refl : (s : Text) → (s === s) ≡ true
===_refl s = (===_iff s s).1 refl

-- `startsWith`
unfoldable pub starts_with : Text → Text → Bool
starts_with s [] = true
starts_with [] (p ∷ ps) = false
starts_with (c ∷ s) (p ∷ ps) = (c == p) && starts_with s ps

pub starts_with-append : (p s : Text) → starts_with (p ++ s) p ≡ true
unfolding starts_with
starts_with-append [] s = refl
starts_with-append (c ∷ p) s = ground (arith, starts_with-append p s)

pub starts_with-drop : (s p : Text) → starts_with s p ≡ true → s ≡ p ++ drop (length p) s
unfolding starts_with
starts_with-drop s [] h = refl
starts_with-drop [] (p ∷ ps) h = cc
starts_with-drop (c ∷ s) (p ∷ ps) h = ground (arith, starts_with-drop s ps)

-- `indexOf`, with `none` for -1.
unfoldable pub index_of : Text → Text → Option ℕ
unfolding starts_with
index_of m [] = if starts_with [] m then some 0 else none
index_of m (c ∷ s) =
    let later = index_of m s in if starts_with (c ∷ s) m then some 0 else Option.map suc later

-- The occurrence that is found, with the texts on its two sides.
abbrev OccursAt : Text → Text → ℕ → Type 0
OccursAt m s k = (before after : Text) × (s ≡ before ++ m ++ after) × (length before ≡ k)

index_of_cons :
    (m : Text) (c : ℕ) (s : Text) (k : ℕ)
    → starts_with (c ∷ s) m ≡ false
    → index_of m (c ∷ s) ≡ some k
    → (j : ℕ) × (index_of m s ≡ some j) × (k ≡ suc j)
unfolding index_of
index_of_cons m c s k missed h = ground arith

index_of_here : (m s : Text) (k : ℕ) → starts_with s m ≡ true → index_of m s ≡ some k → k ≡ 0
unfolding index_of
index_of_here m [] k found h = ground arith
index_of_here m (c ∷ s) k found h = ground arith

index_of-OccursAt : (m s : Text) (k : ℕ) → index_of m s ≡ some k → OccursAt m s k
index_of-OccursAt m [] k h = elim (Bool-cases (starts_with [] m)) [
  | inl found ↦
      ([], drop (length m) [], starts_with-drop [] m found, sym (index_of_here m [] k found h))
  | inr missed ↦ unfold index_of in ground arith
]
index_of-OccursAt m (c ∷ s) k h = elim (Bool-cases (starts_with (c ∷ s) m)) [
  | inl found ↦
      ([], drop (length m) (c ∷ s), starts_with-drop _ m found, sym (index_of_here m _ k found h))
  | inr missed ↦
      let (j, e, next) = index_of_cons m c s k missed h in
      let (before, after, parts, at) = index_of-OccursAt m s j e in
      (c ∷ before, after, ap (λ t. c ∷ t) parts, omega arith)
]

slice_before : (m before after : Text) → take (length before) (before ++ m ++ after) ≡ before
slice_before m before after =
    ap (take (length before)) (append_assoc before m after) ∙ take-length-append before (m ++ after)

slice_after :
    (m before after : Text) → drop (length before + length m) (before ++ m ++ after) ≡ after
slice_after m before after =
    ap (λ (n : ℕ). drop n (before ++ m ++ after)) (sym (length-append before m))
    ∙ drop-length-append (before ++ m) after

-- The two slices beside the occurrence that is found make up the text with it.
pub index_of_slices :
    (m s : Text) (k : ℕ) → index_of m s ≡ some k → s ≡ take k s ++ m ++ drop (k + length m) s
index_of_slices m s k h =
    let (before, after, parts, at) = index_of-OccursAt m s k h in
    rw (← at, parts, slice_before m before after, slice_after m before after)

-- So they do where the pattern's first character stands nowhere before it.
pub slices-append :
    (m before after : Text)
    → (take (length before) (before ++ m ++ after) ≡ before)
      × (drop (length before + length m) (before ++ m ++ after) ≡ after)
slices-append m before after = (slice_before m before after, slice_after m before after)

abbrev pub Lacks : ℕ → Text → Type 0
Lacks c = All (λ d. d ≢ c)

-- The first occurrence, where the text before it lacks the pattern's first character.
pub index_of-append :
    (c : ℕ) (m before after : Text)
    → Lacks c before
    → index_of (c ∷ m) (before ++ (c ∷ m) ++ after) ≡ some (length before)
unfolding index_of starts_with
index_of-append c m [] after h = ground (arith, starts_with-append m after)
index_of-append c m (d ∷ before) after (ne, h) = ground (arith, index_of-append c m before after h)

-- `split` by one separator; the pieces are never none.
abbrev prepend : ℕ → List Text → List Text
prepend c [] = (c ∷ []) ∷ []
prepend c (piece ∷ pieces) = (c ∷ piece) ∷ pieces

unfoldable pub split : ℕ → Text → List Text
split sep [] = [] ∷ []
split sep (c ∷ s) = let pieces = split sep s in if c == sep then [] ∷ pieces else prepend c pieces

unfoldable pub join : ℕ → List Text → Text
join sep [] = []
join sep (p ∷ []) = p
join sep (p ∷ q ∷ ps) = p ++ sep ∷ join sep (q ∷ ps)

split-ne-nil : (sep : ℕ) (s : Text) → split sep s ≢ []
unfolding split
split-ne-nil sep [] e = cc
split-ne-nil sep (c ∷ s) e = ground arith

join-nil_cons : (sep : ℕ) (ps : List Text) → ps ≢ [] → join sep ([] ∷ ps) ≡ sep ∷ join sep ps
unfolding join
join-nil_cons sep [] h = absurd (h refl)
join-nil_cons sep (p ∷ ps) h = refl

join-prepend : (sep c : ℕ) (ps : List Text) → join sep (prepend c ps) ≡ c ∷ join sep ps
unfolding join
join-prepend sep c [] = refl
join-prepend sep c (p ∷ []) = refl
join-prepend sep c (p ∷ q ∷ ps) = refl

pub join-split : (sep : ℕ) (s : Text) → join sep (split sep s) ≡ s
unfolding split
join-split sep [] = unfold join in refl
join-split sep (c ∷ s) = ground (
  arith,
  join-nil_cons sep (split sep s) (split-ne-nil sep s),
  join-prepend sep c (split sep s),
  join-split sep s,
)

pub split_last : (sep : ℕ) (s : Text) → Lacks sep s → split sep s ≡ s ∷ []
unfolding split
split_last sep [] h = refl
split_last sep (c ∷ s) (ne, h) = ground (arith, split_last sep s h)

pub split-append :
    (sep : ℕ) (s rest : Text) → Lacks sep s → split sep (s ++ sep ∷ rest) ≡ s ∷ split sep rest
unfolding split
split-append sep [] rest h = ground arith
split-append sep (c ∷ s) rest (ne, h) = ground (arith, split-append sep s rest h)
