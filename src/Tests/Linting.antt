-- ===== src/Tests/Linting.antt =====
-- Examples of type aliases.
use inbox_saas.Prelude.{
  ℕ, zero, suc, ◌≤◌, ◌≡◌, refl, Bool, true, false, none, some, List, [], ◌∷◌, String,
}
use inbox_saas.Lint.Scopes.{
  Chain, Ancestor, program, block_statement, another_type, lexical_type_parameter_names,
}
use inbox_saas.Lint.Aliases.{
  TsType, reference, another, no_types, more_types, TypeAliasDeclaration, TypeAliasEnvironment,
  ts_type_alias, no_declaration, Tree, node, no_trees, more_trees, create_type_alias_environment,
  nearest_type_bindings, visible_type_alias, has_visible_type_binding,
}
use inbox_saas.Lint.Aliases.Nearest.{at_distance, least_distance, nearest_type_bindings_lem}
use inbox_saas.Lint.Aliases.Resolution.{expansion, evaluate, resolved_type_matches}
use inbox_saas.Lint.Aliases.Resolution.Termination.{resolved_type_matches_ends}
use inbox_saas.Lint.Dictionaries.Shapes.{TypeEnvironment, resolved_substitution_argument}
use inbox_saas.Lint.Dictionaries.{unsafe_direct_value, classify_unsafe_dictionary_value}
use inbox_saas.Lint.Dictionaries.Endless.{unsafe_direct_value_endless}
use inbox_saas.Lint.Dictionaries.Widening.{
  open_dictionary, classify_widening_target, classify_alias_broad_target, is_broad_mapped_key,
}
use inbox_saas.Lint.Rules.{resolves_to_unknown, resolves_to_unknown-AsksBelow}

-- type Id<T> = T; type Once = Id<unknown>; type Twice = Id<Id<unknown>>; { type Id = unknown }
abbrev root : Ancestor
root = record { id = 0; type = program; type_parameters = [] }

abbrev at_node : ℕ → List String → Ancestor
at_node i names = record { id = i; type = another_type; type_parameters = names }

abbrev unknown_type : TsType
unknown_type = another "TSUnknownKeyword" no_types

abbrev id_of : ℕ → TsType → TsType
id_of i t = reference (at_node i [] ∷ root ∷ []) (some "Id") (more_types t no_types)

abbrev id_alias : TypeAliasDeclaration
id_alias = record {
  id = 1;
  name = "Id";
  type_parameters = record { name = "T"; default = none } ∷ [];
  type_annotation = reference (at_node 2 [] ∷ at_node 1 ("T" ∷ []) ∷ root ∷ []) (some "T") no_types;
}

abbrev inner_alias : TypeAliasDeclaration
inner_alias = record { id = 8; name = "Id"; type_parameters = []; type_annotation = unknown_type }

abbrev source : Tree
source = node root no_declaration (
    more_trees (node (at_node 1 ("T" ∷ [])) (ts_type_alias id_alias) no_trees) (
      more_trees
        (node (record { id = 7; type = block_statement; type_parameters = [] }) no_declaration
          (more_trees (node (at_node 8 []) (ts_type_alias inner_alias) no_trees) no_trees))
        no_trees))

abbrev environment : TypeAliasEnvironment
environment = create_type_alias_environment source

-- What the examples compute with.
linting : Unit {0}
unfolding create_type_alias_environment nearest_type_bindings visible_type_alias
    lexical_type_parameter_names expansion evaluate resolved_type_matches
linting = tt

-- An alias inside a block hides the one outside of it there, and nowhere else.
visible_test :
    (visible_type_alias "Id"
        (at_node 9 [] ∷ record { id = 7; type = block_statement; type_parameters = [] } ∷ root ∷ [])
        environment
      ≡ some inner_alias)
    × (visible_type_alias "Id" (at_node 3 [] ∷ root ∷ []) environment ≡ some id_alias)
unfolding linting
visible_test = (refl, refl)

once_test :
    resolved_type_matches environment resolves_to_unknown 5 (id_of 3 unknown_type) ≡ some true
unfolding linting
once_test = refl

-- An alias within an argument of itself is not resolved, though the type is unknown.
twice_test :
    resolved_type_matches environment resolves_to_unknown 5 (id_of 3 (id_of 4 unknown_type))
    ≡ some false
unfolding linting
twice_test = refl

nearest_type_bindings_example :
    nearest_type_bindings "Id" (at_node 3 [] ∷ root ∷ []) environment
    ≡ at_distance
        (at_node 3 [] ∷ root ∷ [])
        (least_distance (at_node 3 [] ∷ root ∷ []) (environment.bindings_by_name "Id"))
        (environment.bindings_by_name "Id")
nearest_type_bindings_example =
    nearest_type_bindings_lem "Id" (at_node 3 [] ∷ root ∷ []) environment

resolved_type_matches_example :
    (n : ℕ) × (b : Bool) × ((m : ℕ)
      → n ≤ m
      → resolved_type_matches
          (create_type_alias_environment source)
          resolves_to_unknown
          m
          (id_of 3 (id_of 4 unknown_type))
        ≡ some b)
resolved_type_matches_example =
    resolved_type_matches_ends source resolves_to_unknown (id_of 3 (id_of 4 unknown_type))
      resolves_to_unknown-AsksBelow

-- `Id<Readonly<T>>`, as the values of a dictionary within a declaration that has a parameter `T`.
abbrev types : TypeEnvironment
types = record { interfaces = λ name. []; type_aliases = environment }

abbrev inside : Chain
inside = at_node 12 [] ∷ at_node 11 ("T" ∷ []) ∷ root ∷ []

abbrev wrapped_value : TsType
wrapped_value = reference inside (some "Id") (
    more_types
      (reference inside (some "Readonly")
        (more_types (reference inside (some "T") no_types) no_types))
      no_types)

-- The classification of those values does not end.
endless_test : (fuel : ℕ) → classify_unsafe_dictionary_value types fuel wrapped_value ≡ none
unfolding linting classify_unsafe_dictionary_value unsafe_direct_value
    resolved_substitution_argument has_visible_type_binding
endless_test zero = refl
endless_test (suc zero) = refl
endless_test (suc (suc fuel)) =
    (unsafe_direct_value_endless types inside refl (suc fuel) ("Id" ∷ [])).0
      (at_node 2 [] ∷ at_node 1 ("T" ∷ []) ∷ root ∷ [])

-- `Record<string, unknown>`
abbrev open_record : TsType
open_record =
    reference (at_node 13 [] ∷ root ∷ []) (some "Record")
      (more_types (another "TSStringKeyword" no_types) (more_types unknown_type no_types))

widening_test : classify_widening_target types 3 open_record ≡ some (some open_dictionary)
unfolding linting classify_widening_target classify_alias_broad_target is_broad_mapped_key
    has_visible_type_binding
widening_test = refl
