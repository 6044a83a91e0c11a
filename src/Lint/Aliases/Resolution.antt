-- ===== src/Lint/Aliases/Resolution.antt =====
-- tools/oxlint/anti-slop/shared/type-alias-resolution.ts: `resolvedTypeMatches`.
-- A matcher is what it does with the function that it is handed: it answers, or it asks of a type
-- and goes on with the answer. `evaluate` runs on fuel; `none` is running out of it.
pub mod Termination
use inbox_saas.Prelude.{
  ℕ, zero, suc, Bool, true, false, Option, none, some, List, [], ◌∷◌, ◌==◌, some_of, String, str_eq,
  if◌then◌else◌,
}
use inbox_saas.Lint.Aliases.{
  TsType, reference, type_literal, type_operator, mapped_type, another, TsTypes, no_types,
  more_types, TypeParameter, TypeAliasDeclaration, TypeAliasEnvironment, visible_type_alias,
}

-- A map from names to types with their own substitutions, the latest entry first.
pub data Substitutions : Type 0 where
  no_substitutions : Substitutions
  substitution :
      (name : String)
      → (type : TsType) → (substitutions : Substitutions) → (rest : Substitutions) → Substitutions

abbrev pub find_substitution : String → Substitutions → Option (TsType × Substitutions)
find_substitution name no_substitutions = none
find_substitution name (substitution n type s rest) =
    let found = find_substitution name rest in if str_eq name n then some (type, s) else found

-- The loop of `aliasSubstitutions`, with the arguments that are left.
abbrev pub substitute_each :
    List TypeParameter → TsTypes → Substitutions → Substitutions → Option Substitutions
substitute_each [] arguments base next = some next
substitute_each (p ∷ ps) (more_types t ts) base next =
    substitute_each ps ts base (substitution p.name t base next)
substitute_each (p ∷ ps) no_types base next = elim p.default [
  | none ↦ none
  | some t ↦ substitute_each ps no_types base (substitution p.name t next next)
]

abbrev pub alias_substitutions :
    TypeAliasDeclaration → TsTypes → Substitutions → Option Substitutions
alias_substitutions alias arguments base = substitute_each alias.type_parameters arguments base base

pub data Inquiry : Type 0 where
  answer : Bool → Inquiry
  ask : (child : TsType) → (Bool → Inquiry) → Inquiry

abbrev pub consult : Inquiry → (TsType → Option Bool) → Option Bool
consult (answer b) matches = some b
consult (ask child next) matches = elim (matches child) [
  | none ↦ none
  | some b ↦ consult (next b) matches
]

-- What the evaluation of a type goes on with, or `opaque` where it asks the matcher.
pub data Expansion : Type 0 where
  substitutes : (type : TsType) → Substitutions → Expansion
  resolves : (alias : TypeAliasDeclaration) → Substitutions → Expansion
  opaque_type : Expansion

abbrev pub is_resolving : ℕ → List ℕ → Bool
is_resolving alias resolving = some_of (λ i. i == alias) resolving

abbrev pub or_else : Option (TsType × Substitutions) → Expansion → Expansion
or_else none e = e
or_else (some (type, s)) e = substitutes type s

-- A substitution counts only for a reference without arguments.
abbrev pub substitution_for : String → TsTypes → Substitutions → Option (TsType × Substitutions)
substitution_for name no_types s = find_substitution name s
substitution_for name (more_types t ts) s = none

abbrev pub with_substitutions : TypeAliasDeclaration → Option Substitutions → Expansion
with_substitutions alias none = opaque_type
with_substitutions alias (some s) = resolves alias s

abbrev pub by_alias : Option TypeAliasDeclaration → TsTypes → Substitutions → List ℕ → Expansion
by_alias none arguments s resolving = opaque_type
by_alias (some alias) arguments s resolving =
    if is_resolving alias.id resolving
    then opaque_type
    else with_substitutions alias (alias_substitutions alias arguments s)

module _ (environment : TypeAliasEnvironment) where
  unfoldable pub expansion : TsType → Substitutions → List ℕ → Expansion
  expansion (another type children) s resolving = opaque_type
  expansion (type_literal ms) s resolving = opaque_type
  expansion (type_operator operator annotation) s resolving = opaque_type
  expansion (mapped_type constraint annotation) s resolving = opaque_type
  expansion (reference site none arguments) s resolving = opaque_type
  expansion (reference site (some name) arguments) s resolving =
      or_else (substitution_for name arguments s)
        (by_alias (visible_type_alias name site environment) arguments s resolving)

  module _ (matcher : TsType → Inquiry) where
    unfoldable pub evaluate : ℕ → TsType → Substitutions → List ℕ → Option Bool
    evaluate zero current s resolving = none
    evaluate (suc fuel) current s resolving = elim (expansion current s resolving) [
      | substitutes type s' ↦ evaluate fuel type s' resolving
      | resolves alias s' ↦ evaluate fuel alias.type_annotation s' (alias.id ∷ resolving)
      | opaque_type ↦ consult (matcher current) (λ child. evaluate fuel child s resolving)
    ]

    unfoldable pub resolved_type_matches : ℕ → TsType → Option Bool
    resolved_type_matches fuel type = evaluate fuel type no_substitutions []
