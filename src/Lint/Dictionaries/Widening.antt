-- ===== src/Lint/Dictionaries/Widening.antt =====
-- tools/oxlint/anti-slop/shared/dictionary-types.ts: what a type annotation widens a value to.
-- Following names runs on fuel, and the outer `none` is running out of it.
use inbox_saas.Prelude.{
  ℕ, zero, suc, Bool, true, false, Option, none, some, List, [], ◌∷◌, ◌&&◌, ◌||◌, String, str_eq,
  if◌then◌else◌,
}
use inbox_saas.Lint.Scopes.{Chain, has_name}
use inbox_saas.Lint.Aliases.{
  TsType, reference, type_literal, type_operator, mapped_type, another, TsTypes, no_types,
  more_types, property_signature, index_signature, another_member, Members, no_members,
  more_members, TypeParameter, TypeAliasDeclaration, visible_type_alias,
}
use inbox_saas.Lint.Dictionaries.Shapes.{
  TypeEnvironment, is_built_in, is_transparent, unwrap_transparent_type, is_unapplied_reference_to,
  Bindings, alias_substitution,
}

pub data WideningTarget : Type 0 where
  anonymous_object generic_container object_target open_dictionary unknown_target : WideningTarget

abbrev pub Target : Type 0
Target = Option (Option WideningTarget)

abbrev has_index : Members → Bool
has_index no_members = false
has_index (more_members (index_signature annotation) ms) = true
has_index (more_members (property_signature optional annotation) ms) = has_index ms
has_index (more_members another_member ms) = has_index ms

abbrev has_members : Members → Bool
has_members no_members = false
has_members (more_members m ms) = true

abbrev has_parameters : List TypeParameter → Bool
has_parameters [] = false
has_parameters (p ∷ ps) = true

-- `types.some(…)`
abbrev some_broad : (TsType → Option Bool) → TsTypes → Option Bool
some_broad broad no_types = some false
some_broad broad (more_types t ts) = elim (broad t) [
  | none ↦ none
  | some true ↦ some true
  | some false ↦ some_broad broad ts
]

abbrev first_target : (TsType → Target) → TsTypes → Target
first_target target no_types = some none
first_target target (more_types t ts) = target t

abbrev when : Bool → WideningTarget → Option WideningTarget
when b target = if b then some target else none

abbrev dictionary_if : Option Bool → Target
dictionary_if none = none
dictionary_if (some b) = some (when b open_dictionary)

abbrev keyword_target : String → Option WideningTarget
keyword_target type =
    if str_eq type "TSUnknownKeyword"
    then some unknown_target
    else when (str_eq type "TSObjectKeyword") object_target

-- A target found behind an alias with parameters.
abbrev generic : Option WideningTarget → Option WideningTarget
generic (some open_dictionary) = some generic_container
generic (some anonymous_object) = none
generic (some generic_container) = none
generic (some object_target) = none
generic (some unknown_target) = none
generic none = none

abbrev made_generic : Bool → Target → Target
made_generic many none = none
made_generic true (some target) = some (generic target)
made_generic false (some target) = some target

module _ (environment : TypeEnvironment) where
  abbrev broad_alias :
      (TsType → Bindings → List String → Option Bool)
      → String
      → Bindings
      → List String
      → Option TypeAliasDeclaration
      → Option Bool
  broad_alias broad name s visited none = some false
  broad_alias broad name s visited (some alias) =
      if has_parameters alias.type_parameters || has_name name visited
      then some false
      else broad alias.type_annotation s (name ∷ visited)

  abbrev broad_name :
      (TsType → Bindings → List String → Option Bool)
      → Chain
      → String
      → Bindings
      → List String
      → Option Bool
  broad_name broad site name s visited =
      if str_eq name "PropertyKey" && is_built_in name site environment
      then some true
      else broad_alias broad name s visited (visible_type_alias name site environment.type_aliases)

  abbrev broad_step :
      (TsType → Bindings → List String → Option Bool)
      → TsType
      → Bindings
      → List String
      → Option Bool
  broad_step broad (another type children) s visited =
      if str_eq type "TSStringKeyword"
        || str_eq type "TSNumberKeyword"
        || str_eq type "TSSymbolKeyword"
      then some true
      else (if str_eq type "TSUnionType"
          then some_broad (λ t. broad t s visited) children
          else some false)
  broad_step broad (type_literal ms) s visited = some false
  broad_step broad (type_operator operator annotation) s visited = some false
  broad_step broad (mapped_type constraint annotation) s visited = some false
  broad_step broad (reference site none arguments) s visited = some false
  broad_step broad (reference site (some name) arguments) s visited = elim (s name) [
    | none ↦ broad_name broad site name s visited
    | some bound ↦
        if is_unapplied_reference_to bound name
        then broad_name broad site name s visited
        else broad bound s visited
  ]

  unfoldable pub is_broad_mapped_key : ℕ → TsType → Bindings → List String → Option Bool
  is_broad_mapped_key zero t s visited = none
  is_broad_mapped_key (suc fuel) t s visited =
      broad_step (is_broad_mapped_key fuel) (unwrap_transparent_type t) s visited

  abbrev pub has_broad_record_key : ℕ → TsTypes → Bindings → Option Bool
  has_broad_record_key fuel no_types s = some true
  has_broad_record_key fuel (more_types key ts) s = is_broad_mapped_key fuel key s []

  abbrev target_of_alias :
      ℕ
      → (TsType → Bindings → List String → Target)
      → String
      → TsTypes
      → Bindings
      → List String
      → Option TypeAliasDeclaration
      → Target
  target_of_alias fuel target name arguments s resolving none = some none
  target_of_alias fuel target name arguments s resolving (some alias) =
      if has_name name resolving
      then some none
      else elim (alias_substitution fuel alias arguments s) [
        | none ↦ none
        | some none ↦ some none
        | some (some next) ↦ target alias.type_annotation next (name ∷ resolving)
      ]

  -- A name that stands for no parameter.
  abbrev broad_target_name :
      ℕ
      → (TsType → Bindings → List String → Target)
      → Chain
      → String
      → TsTypes
      → Bindings
      → List String
      → Target
  broad_target_name fuel target site name arguments s resolving =
      if is_transparent name site environment
      then first_target (λ t. target t s resolving) arguments
      else (if str_eq name "Record" && is_built_in name site environment
          then dictionary_if (has_broad_record_key fuel arguments s)
          else target_of_alias fuel target name arguments s resolving
              (visible_type_alias name site environment.type_aliases))

  abbrev broad_target_step :
      ℕ → (TsType → Bindings → List String → Target) → TsType → Bindings → List String → Target
  broad_target_step fuel target (another type children) s resolving = some (keyword_target type)
  broad_target_step fuel target (type_literal ms) s resolving =
      some (when (has_index ms) open_dictionary)
  broad_target_step fuel target (mapped_type constraint annotation) s resolving =
      dictionary_if (is_broad_mapped_key fuel constraint s [])
  broad_target_step fuel target (type_operator operator annotation) s resolving = some none
  broad_target_step fuel target (reference site none arguments) s resolving = some none
  broad_target_step fuel target (reference site (some name) arguments) s resolving = elim (s name) [
    | some bound ↦
        if is_unapplied_reference_to bound name then some none else target bound s resolving
    | none ↦ broad_target_name fuel target site name arguments s resolving
  ]

  unfoldable pub classify_alias_broad_target : ℕ → TsType → Bindings → List String → Target
  classify_alias_broad_target zero t s resolving = none
  classify_alias_broad_target (suc fuel) t s resolving =
      broad_target_step fuel (classify_alias_broad_target fuel) (unwrap_transparent_type t) s
        resolving

  abbrev widening_alias : ℕ → String → TsTypes → Option TypeAliasDeclaration → Target
  widening_alias fuel name arguments none = some none
  widening_alias fuel name arguments (some alias) =
      made_generic (has_parameters alias.type_parameters) (
        target_of_alias fuel (classify_alias_broad_target fuel) name arguments (λ n. none) []
          (some alias))

  abbrev widening_name : ℕ → (TsType → Target) → Chain → String → TsTypes → Target
  widening_name fuel target site name arguments =
      if is_transparent name site environment
      then first_target target arguments
      else (if str_eq name "Record" && is_built_in name site environment
          then dictionary_if (has_broad_record_key fuel arguments (λ n. none))
          else widening_alias fuel name arguments
              (visible_type_alias name site environment.type_aliases))

  abbrev widening_step : ℕ → (TsType → Target) → TsType → Target
  widening_step fuel target (another type children) = some (keyword_target type)
  widening_step fuel target (type_literal ms) =
      some (if has_index ms then some open_dictionary else when (has_members ms) anonymous_object)
  widening_step fuel target (mapped_type constraint annotation) = some (some open_dictionary)
  widening_step fuel target (type_operator operator annotation) = some none
  widening_step fuel target (reference site none arguments) = some none
  widening_step fuel target (reference site (some name) arguments) =
      widening_name fuel target site name arguments

  unfoldable pub classify_widening_target : ℕ → TsType → Target
  classify_widening_target zero t = none
  classify_widening_target (suc fuel) t =
      widening_step fuel (classify_widening_target fuel) (unwrap_transparent_type t)
