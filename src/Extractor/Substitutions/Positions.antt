-- ===== src/Extractor/Substitutions/Positions.antt =====
-- Arguments are paired with parameters by position.
use internal.Prelude.{
  ℕ, zero, suc, ◌+◌, ◌≡◌, ◌≢◌, refl, sym, ap, ◌∙◌, subst, Option, none, some, List, [], ◌∷◌, ◌==◌,
  ==_iff, if◌then◌else◌, Bool-cases, inl, inr, arith,
}
use internal.Extractor.Matching.Cells.{entry}
use internal.Extractor.Substitutions.{
  BindingOperations, Substitutions, get_symbol, set_symbol, or_else, argument_of, argument_at,
  default_at, resolved, types_at, authored_at, semantic_or_authored, alias_instantiation_arguments,
  Bound, bind_symbol, bind_from, unless_unbound, bind_alias_parameters, bound_or,
  bind_alias_instantiation,
}

get_symbol-set_symbol :
    (x y t : ℕ) (s : Substitutions)
    → get_symbol y (set_symbol x t s) ≡ (if x == y then some t else get_symbol y s)
unfolding get_symbol set_symbol
get_symbol-set_symbol x y t [] = refl
get_symbol-set_symbol x y t ((z, u) ∷ s) = ground (arith, get_symbol-set_symbol x y t s)

module _ (ops : BindingOperations) (args : List (Option ℕ)) where
  abbrev symbol_of : ℕ → Option ℕ
  symbol_of p = (ops.node_facts p).authored_symbol

  bind_symbol-get_symbol :
      (o : Option ℕ) (a : Option ℕ) (b : Bound) (x : ℕ)
      → o ≡ some x
      → get_symbol x (bind_symbol o a b).bound ≡ or_else a (get_symbol x b.bound)
  unfolding bind_symbol
  bind_symbol-get_symbol none a b x e = absurd (cc)
  bind_symbol-get_symbol (some y) none b x e = refl
  bind_symbol-get_symbol (some y) (some t) b x e =
      let same : y ≡ x = cc in get_symbol-set_symbol y x t b.bound ∙ rw ((==_iff y x).1 same) refl

  bind_symbol_other :
      (o : Option ℕ) (a : Option ℕ) (b : Bound) (x : ℕ)
      → o ≢ some x
      → get_symbol x (bind_symbol o a b).bound ≡ get_symbol x b.bound
  unfolding bind_symbol
  bind_symbol_other none a b x h = refl
  bind_symbol_other (some y) none b x h = refl
  bind_symbol_other (some y) (some t) b x h =
      get_symbol-set_symbol y x t b.bound ∙ elim (Bool-cases (y == x)) [
        | inl same ↦ absurd (h (ap some ((==_iff y x).0 same)))
        | inr other ↦ rw other refl
      ]

  bind_from_other :
      (ps : List ℕ) (i : ℕ) (b : Bound) (x : ℕ)
      → ((k p : ℕ) → entry ps k ≡ some p → symbol_of p ≢ some x)
      → get_symbol x (bind_from ops args ps i b).bound ≡ get_symbol x b.bound
  unfolding bind_from entry
  bind_from_other [] i b x h = refl
  bind_from_other (p ∷ ps) i b x h =
      bind_from_other ps (suc i) (bind_symbol (symbol_of p) (argument_of ops args i p) b) x
        (λ k. h (suc k))
      ∙ bind_symbol_other (symbol_of p) (argument_of ops args i p) b x (h 0 p refl)

  bind_from-at :
      (ps : List ℕ) (i : ℕ) (b : Bound) (x k p : ℕ)
      → entry ps k ≡ some p
      → symbol_of p ≡ some x
      → ((j q : ℕ) → entry ps j ≡ some q → symbol_of q ≡ some x → j ≡ k)
      → get_symbol x (bind_from ops args ps i b).bound
        ≡ or_else (argument_of ops args (i + k) p) (get_symbol x b.bound)
  unfolding bind_from entry
  bind_from-at [] i b x k p at own only = absurd (cc)
  bind_from-at (q ∷ ps) i b x zero p at own only =
      let same : q ≡ p = cc in
      let first = bind_symbol (symbol_of q) (argument_of ops args i q) b in
      let later =
        bind_from_other ps (suc i) first x
          (λ k r there has. absurd (omega (arith, only (suc k) r there has))) in
      let here =
        bind_symbol-get_symbol (symbol_of q) (argument_of ops args i q) b x
          (subst (λ r. symbol_of r ≡ some x) (sym same) own) in
      let place : i + 0 ≡ i = omega arith in
      later
      ∙ (here
          ∙ (ap (λ r. or_else (argument_of ops args i r) (get_symbol x b.bound)) same
              ∙ ap (λ j. or_else (argument_of ops args j p) (get_symbol x b.bound)) (sym place)))
  bind_from-at (q ∷ ps) i b x (suc k) p at own only =
      let first = bind_symbol (symbol_of q) (argument_of ops args i q) b in
      let later =
        bind_from-at ps (suc i) first x k p at own
          (λ j r there has. omega (arith, only (suc j) r there has)) in
      let kept =
        bind_symbol_other (symbol_of q) (argument_of ops args i q) b x
          (λ has. absurd (omega (arith, only 0 q refl has))) in
      let place : suc i + k ≡ i + suc k = omega arith in
      later
      ∙ (ap (λ found. or_else (argument_of ops args (suc i + k) p) found) kept
          ∙ ap (λ j. or_else (argument_of ops args j p) (get_symbol x b.bound)) place)

  unbound_symbol :
      (o a : Option ℕ) (b : Bound)
      → (bind_symbol o a b).bindings ≡ 0
      → ((bind_symbol o a b).bound ≡ b.bound) × (b.bindings ≡ 0)
  unfolding bind_symbol
  unbound_symbol none a b h = (refl, h)
  unbound_symbol (some x) none b h = (refl, h)
  unbound_symbol (some x) (some t) b h = absurd (omega (arith, h))

  unbound_same :
      (ps : List ℕ) (i : ℕ) (b : Bound)
      → (bind_from ops args ps i b).bindings ≡ 0
      → ((bind_from ops args ps i b).bound ≡ b.bound) × (b.bindings ≡ 0)
  unfolding bind_from
  unbound_same [] i b h = (refl, h)
  unbound_same (p ∷ ps) i b h =
      let (same, none_after) =
        unbound_same ps (suc i) (bind_symbol (symbol_of p) (argument_of ops args i p) b) h in
      let (bound, none_before) =
        unbound_symbol (symbol_of p) (argument_of ops args i p) b none_after in
      (same ∙ bound, none_before)

unbound_or :
    (b : Bound) (inherited : Substitutions)
    → (b.bindings ≡ 0 → b.bound ≡ inherited)
    → bound_or (unless_unbound b) inherited ≡ b.bound
unfolding bound_or unless_unbound
unbound_or b inherited h = elim (Bool-cases (b.bindings == 0)) [
  | inl empty ↦ rw empty (sym (h ((==_iff b.bindings 0).0 empty)))
  | inr some_bound ↦ rw some_bound refl
]

-- The type of an optional node.
abbrev pub type_of : BindingOperations → Option ℕ → Option ℕ
type_of ops none = none
type_of ops (some node) = ops.type_at_node node

-- The authored arguments of an optional reference.
abbrev pub authored_of : BindingOperations → Option ℕ → List ℕ
authored_of ops none = []
authored_of ops (some node) = (ops.node_facts node).authored_arguments

-- What stands at the place `k`: the alias's own type argument there, if it has type arguments, and
-- the type of the authored argument there if it has none.
abbrev pub given_at : BindingOperations → List ℕ → Option ℕ → ℕ → Option ℕ
given_at ops (t ∷ ts) source k = entry (t ∷ ts) k
given_at ops [] source k = type_of ops (entry (authored_of ops source) k)

argument_at-resolved : (ts : List ℕ) (k : ℕ) → argument_at (resolved ts) k ≡ entry ts k
unfolding argument_at resolved entry
argument_at-resolved [] k = refl
argument_at-resolved (t ∷ ts) zero = refl
argument_at-resolved (t ∷ ts) (suc k) = argument_at-resolved ts k

module _ (ops : BindingOperations) where
  argument_at-types_at :
      (ns : List ℕ) (k : ℕ) → argument_at (types_at ops ns) k ≡ type_of ops (entry ns k)
  unfolding argument_at types_at entry
  argument_at-types_at [] k = refl
  argument_at-types_at (n ∷ ns) zero = refl
  argument_at-types_at (n ∷ ns) (suc k) = argument_at-types_at ns k

  semantic_or_authored-given_at :
      (ts : List ℕ) (source : Option ℕ) (k : ℕ)
      → argument_at (semantic_or_authored ops ts source) k ≡ given_at ops ts source k
  unfolding semantic_or_authored authored_at
  semantic_or_authored-given_at (t ∷ ts) source k = argument_at-resolved (t ∷ ts) k
  semantic_or_authored-given_at [] none k = argument_at-types_at [] k
  semantic_or_authored-given_at [] (some node) k =
      argument_at-types_at (ops.node_facts node).authored_arguments k

  default-type_of : (o : Option ℕ) → default_at ops o ≡ type_of ops o
  unfolding default_at
  default-type_of none = refl
  default-type_of (some node) = refl

  argument_of-given_at :
      (type : ℕ) (source : Option ℕ) (k p : ℕ)
      → argument_of ops (alias_instantiation_arguments ops type source) k p
        ≡ or_else
            (given_at ops (ops.type_facts type).alias_type_arguments source k)
            (type_of ops (ops.node_facts p).default_type)
  unfolding argument_of alias_instantiation_arguments
  argument_of-given_at type source k p = rw (
    semantic_or_authored-given_at (ops.type_facts type).alias_type_arguments source k,
    default-type_of (ops.node_facts p).default_type,
  )

or_else_assoc : (a b c : Option ℕ) → or_else (or_else a b) c ≡ or_else a (or_else b c)
or_else_assoc (some a) b c = refl
or_else_assoc none b c = refl

-- The symbol of the `k`-th parameter of the declaration, if no other parameter has it, is bound to
-- the type that the instantiation gives at the place `k`: the alias's type argument there, or, for
-- a type without alias type arguments, the type of the reference's authored argument there. Where
-- no type is given, it is bound to the type of the parameter's default, and where that is missing
-- too, it keeps its binding. An authored argument without a type does not shift the others.
pub bind_alias_instantiation-given_at :
    (ops : BindingOperations) (declaration type : ℕ) (source : Option ℕ) (inherited : Substitutions)
    (k p x : ℕ)
    → entry (ops.node_facts declaration).type_parameters k ≡ some p
    → (ops.node_facts p).authored_symbol ≡ some x
    → ((j q : ℕ)
        → entry (ops.node_facts declaration).type_parameters j ≡ some q
        → (ops.node_facts q).authored_symbol ≡ some x
        → j ≡ k)
    → get_symbol x (bind_alias_instantiation ops declaration type source inherited)
      ≡ or_else
          (given_at ops (ops.type_facts type).alias_type_arguments source k)
          (or_else (type_of ops (ops.node_facts p).default_type) (get_symbol x inherited))
unfolding bind_alias_instantiation bind_alias_parameters
bind_alias_instantiation-given_at ops declaration type source inherited k p x at own only =
    let args = alias_instantiation_arguments ops type source in
    let ps = (ops.node_facts declaration).type_parameters in
    let start : Bound = record { bound = inherited; bindings = 0 } in
    let place : 0 + k ≡ k = omega arith in
    ap (get_symbol x) (
      unbound_or (bind_from ops args ps 0 start) inherited
        (λ h. (unbound_same ops args ps 0 start h).0))
    ∙ (bind_from-at ops args ps 0 start x k p at own only
        ∙ ap (λ j. or_else (argument_of ops args j p) (get_symbol x inherited)) place
        ∙ ap (λ a. or_else a (get_symbol x inherited)) (argument_of-given_at ops type source k p)
        ∙ or_else_assoc (given_at ops (ops.type_facts type).alias_type_arguments source k)
            (type_of ops (ops.node_facts p).default_type) (get_symbol x inherited))

-- A symbol that no parameter of the declaration has keeps its binding.
pub bind_alias_instantiation_other :
    (ops : BindingOperations) (declaration type : ℕ) (source : Option ℕ) (inherited : Substitutions)
    (x : ℕ)
    → ((k p : ℕ)
        → entry (ops.node_facts declaration).type_parameters k ≡ some p
        → (ops.node_facts p).authored_symbol ≢ some x)
    → get_symbol x (bind_alias_instantiation ops declaration type source inherited)
      ≡ get_symbol x inherited
unfolding bind_alias_instantiation bind_alias_parameters
bind_alias_instantiation_other ops declaration type source inherited x h =
    let args = alias_instantiation_arguments ops type source in
    let ps = (ops.node_facts declaration).type_parameters in
    let start : Bound = record { bound = inherited; bindings = 0 } in
    ap (get_symbol x) (
      unbound_or (bind_from ops args ps 0 start) inherited
        (λ same. (unbound_same ops args ps 0 start same).0))
    ∙ bind_from_other ops args ps 0 start x h
