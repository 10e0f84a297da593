-- ===== src/Extractor/Equivalence/Bindings.antt =====
-- packages/api-extractor/src/canonical/equivalence.ts: the context of a comparison. An identity made
-- by `Symbol()` is the number of those that are made before it on the way to the comparison.
use internal.Prelude.{
  ℕ, suc, Bool, true, false, Option, none, some, List, [], ◌∷◌, Text, ◌===◌, ◌==◌, get, set, ◌||◌,
}
use internal.Extractor.Model.{TypeParameters, no_type_parameter, generic}

pub record Context : Type 0 where
  pub any_is_wildcard : Bool
  pub left_bindings : List (Text × ℕ)
  pub right_bindings : List (Text × ℕ)
  pub next_identity : ℕ

unfoldable pub empty_context : Bool → Context
empty_context wildcard = record {
  any_is_wildcard = wildcard;
  left_bindings = [];
  right_bindings = [];
  next_identity = 0;
}

unfoldable pub without_wildcard : Context → Context
without_wildcard ctx = record ctx { any_is_wildcard = false }

unfoldable pub is_bound : List (Text × ℕ) → Bool
is_bound [] = false
is_bound (_ ∷ _) = true

unfoldable pub has_active_bindings : Context → Bool
unfolding is_bound
has_active_bindings ctx = is_bound ctx.left_bindings || is_bound ctx.right_bindings

-- One step of the loop of `withSignatureBindings`.
unfoldable pub bind_pair : Text → Text → Context → Context
bind_pair left right ctx = record ctx {
  left_bindings = set left ctx.next_identity ctx.left_bindings;
  right_bindings = set right ctx.next_identity ctx.right_bindings;
  next_identity = suc ctx.next_identity;
}

unfoldable pub with_signature_bindings : Context → TypeParameters → TypeParameters → Option Context
unfolding bind_pair
with_signature_bindings ctx no_type_parameter no_type_parameter = some ctx
with_signature_bindings ctx (generic left _ _ lefts) (generic right _ _ rights) =
    with_signature_bindings (bind_pair left right ctx) lefts rights
with_signature_bindings ctx _ _ = none

unfoldable pub same_binding : Option ℕ → Option ℕ → Bool → Bool
same_binding (some i) (some j) same_name = i == j
same_binding none none same_name = same_name
same_binding _ _ same_name = false

unfoldable pub type_parameter_names_equivalent : Text → Text → Context → Bool
unfolding same_binding
type_parameter_names_equivalent left right ctx =
    same_binding (get left ctx.left_bindings) (get right ctx.right_bindings) (left === right)
