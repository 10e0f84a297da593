-- ===== src/Extractor/Substitutions/Tests.antt =====
-- A binding with an argument that is not resolved.
use internal.Prelude.{
  ℕ, zero, suc, ◌+◌, ◌≡◌, refl, Option, none, some, [], ◌∷◌, ◌==◌, if◌then◌else◌, arith,
}
use internal.Extractor.Matching.Cells.{entry}
use internal.Extractor.Substitutions.{
  BindingOperations, get_symbol, or_else, bind_alias_instantiation,
}
use internal.Extractor.Substitutions.Positions.{
  given_at, type_of, bind_alias_instantiation-given_at,
}

-- The declaration has the parameters 10 and 11; the reference was given two arguments, and only the
-- second, 41, is resolved.
abbrev two_parameters : BindingOperations
two_parameters = record {
  node_facts = λ n. record {
    type_parameters = 10 ∷ 11 ∷ [];
    authored_symbol = some (n + 90);
    authored_arguments = 40 ∷ 41 ∷ [];
    default_type = none;
  };
  type_facts = λ t. record { type_symbol = none; alias_type_arguments = [] };
  type_at_node = λ n. if n == 41 then some 7 else none;
}

second_bound :
    bind_alias_instantiation two_parameters 1 2 (some 3) ((100, 5) ∷ []) ≡ (100, 5) ∷ (101, 7) ∷ []
unfolding bind_alias_instantiation
second_bound = refl

only_second :
    (j q : ℕ)
    → entry {A = ℕ} (10 ∷ 11 ∷ []) j ≡ some q
    → ◌≡◌ {A = Option ℕ} (some (q + 90)) (some 101)
    → j ≡ 1
unfolding entry
only_second zero q at own = ground arith
only_second (suc zero) q at own = refl
only_second (suc (suc j)) q at own = absurd (cc)

entry_one : entry {A = ℕ} (10 ∷ 11 ∷ []) 1 ≡ some 11
unfolding entry
entry_one = refl

second_example :
    get_symbol 101 (bind_alias_instantiation two_parameters 1 2 (some 3) ((100, 5) ∷ []))
    ≡ or_else
        (given_at two_parameters [] (some 3) 1)
        (or_else (type_of two_parameters none) (get_symbol 101 ((100, 5) ∷ [])))
second_example =
    bind_alias_instantiation-given_at two_parameters 1 2 (some 3) ((100, 5) ∷ []) 1 11 101 entry_one
      refl only_second
