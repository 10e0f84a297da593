-- ===== src/Extractor/Substitutions.antt =====
-- packages/api-extractor/src/parse/substitutions.ts: the bindings of an alias's type parameters. A handle
-- of a type, a node or a symbol is a number; an absent optional array is an empty one.
pub mod Positions
mod Tests
use internal.Prelude.{
  ℕ, zero, suc, Bool, true, false, Option, none, some, List, [], ◌∷◌, ◌==◌, if◌then◌else◌,
}

pub record NodeFacts : Type 0 where
  pub type_parameters : List ℕ
  pub authored_symbol : Option ℕ
  pub authored_arguments : List ℕ
  pub default_type : Option ℕ

pub record TypeFacts : Type 0 where
  pub type_symbol : Option ℕ
  pub alias_type_arguments : List ℕ

-- What the walk reads of the compiler: `BindingOperations`.
pub record BindingOperations : Type 0 where
  pub node_facts : ℕ → NodeFacts
  pub type_facts : ℕ → TypeFacts
  pub type_at_node : ℕ → Option ℕ

-- A `Map` from symbols to types.
abbrev pub Substitutions : Type 0
Substitutions = List (ℕ × ℕ)

unfoldable pub get_symbol : ℕ → Substitutions → Option ℕ
get_symbol x [] = none
get_symbol x ((y, t) ∷ s) = if y == x then some t else get_symbol x s

unfoldable pub set_symbol : ℕ → ℕ → Substitutions → Substitutions
set_symbol x t [] = (x, t) ∷ []
set_symbol x t ((y, u) ∷ s) = if y == x then (y, t) ∷ s else (y, u) ∷ set_symbol x t s

-- `a ?? b`
abbrev pub or_else : Option ℕ → Option ℕ → Option ℕ
or_else (some a) b = some a
or_else none b = b

unfoldable pub substituted : ℕ → Option ℕ → Substitutions → Option ℕ
unfolding get_symbol
substituted t none s = some t
substituted t (some x) s = or_else (get_symbol x s) (some t)

unfoldable pub apply_substitutions : BindingOperations → Option ℕ → Substitutions → Option ℕ
unfolding substituted
apply_substitutions ops none s = none
apply_substitutions ops (some t) [] = some t
apply_substitutions ops (some t) (b ∷ s) = substituted t (ops.type_facts t).type_symbol (b ∷ s)

unfoldable pub resolved : List ℕ → List (Option ℕ)
resolved [] = []
resolved (t ∷ ts) = some t ∷ resolved ts

unfoldable pub types_at : BindingOperations → List ℕ → List (Option ℕ)
types_at ops [] = []
types_at ops (n ∷ ns) = ops.type_at_node n ∷ types_at ops ns

unfoldable pub authored_at : BindingOperations → Option ℕ → List ℕ
authored_at ops none = []
authored_at ops (some node) = (ops.node_facts node).authored_arguments

unfoldable pub semantic_or_authored : BindingOperations → List ℕ → Option ℕ → List (Option ℕ)
unfolding resolved types_at authored_at
semantic_or_authored ops (t ∷ ts) source = resolved (t ∷ ts)
semantic_or_authored ops [] source = types_at ops (authored_at ops source)

unfoldable pub alias_instantiation_arguments : BindingOperations → ℕ → Option ℕ → List (Option ℕ)
unfolding semantic_or_authored
alias_instantiation_arguments ops type source =
    semantic_or_authored ops (ops.type_facts type).alias_type_arguments source

-- `args[index]`
unfoldable pub argument_at : List (Option ℕ) → ℕ → Option ℕ
argument_at [] i = none
argument_at (a ∷ args) zero = a
argument_at (a ∷ args) (suc i) = argument_at args i

unfoldable pub default_at : BindingOperations → Option ℕ → Option ℕ
default_at ops none = none
default_at ops (some node) = ops.type_at_node node

-- The argument at the parameter's place, or else the parameter's default.
unfoldable pub argument_of : BindingOperations → List (Option ℕ) → ℕ → ℕ → Option ℕ
unfolding argument_at default_at
argument_of ops args i parameter =
    or_else (argument_at args i) (default_at ops (ops.node_facts parameter).default_type)

pub record Bound : Type 0 where
  pub bound : Substitutions
  pub bindings : ℕ

unfoldable pub bind_symbol : Option ℕ → Option ℕ → Bound → Bound
unfolding set_symbol
bind_symbol (some x) (some t) b = record {
  bound = set_symbol x t b.bound;
  bindings = suc b.bindings;
}
bind_symbol _ _ b = b

-- The loop over the parameters, from the index `i` on.
unfoldable pub bind_from : BindingOperations → List (Option ℕ) → List ℕ → ℕ → Bound → Bound
unfolding bind_symbol argument_of
bind_from ops args [] i b = b
bind_from ops args (p ∷ ps) i b =
    bind_from ops args ps (suc i)
      (bind_symbol (ops.node_facts p).authored_symbol (argument_of ops args i p) b)

unfoldable pub unless_unbound : Bound → Option Substitutions
unless_unbound b = if b.bindings == 0 then none else some b.bound

unfoldable pub bind_alias_parameters :
    BindingOperations → ℕ → List (Option ℕ) → Substitutions → Option Substitutions
unfolding bind_from unless_unbound
bind_alias_parameters ops declaration args inherited = unless_unbound (
    bind_from ops args (ops.node_facts declaration).type_parameters 0
      (record { bound = inherited; bindings = 0 }))

unfoldable pub bound_or : Option Substitutions → Substitutions → Substitutions
bound_or none inherited = inherited
bound_or (some s) inherited = s

unfoldable pub bind_alias_instantiation :
    BindingOperations → ℕ → ℕ → Option ℕ → Substitutions → Substitutions
unfolding bind_alias_parameters alias_instantiation_arguments bound_or
bind_alias_instantiation ops declaration type source substitutions =
    bound_or
      (bind_alias_parameters ops declaration (alias_instantiation_arguments ops type source)
        substitutions)
      substitutions
