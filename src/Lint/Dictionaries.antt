-- ===== src/Lint/Dictionaries.antt =====
-- tools/oxlint/anti-slop/shared/dictionary-types.ts: when the values of a dictionary are unsafe, on
-- fuel.
pub mod Shapes
pub mod Endless
pub mod Widening
pub mod Evidence
use inbox_saas.Prelude.{
  ℕ, zero, suc, Bool, true, false, Option, none, some, List, [], ◌∷◌, ◌++◌, ◌==◌, ◌&&◌, ◌||◌, not,
  some_of, String, str_eq, if◌then◌else◌,
}
use inbox_saas.Lint.Scopes.{Chain, has_name}
use inbox_saas.Lint.Aliases.{
  TsType, reference, type_literal, type_operator, mapped_type, another, TsTypes, no_types,
  more_types, Member, property_signature, index_signature, another_member, Members, no_members,
  more_members, TypeParameter, TypeAliasDeclaration, TypeAliasEnvironment, visible_type_alias,
  has_visible_type_binding,
}
use inbox_saas.Lint.Dictionaries.Shapes.{
  UnsafeValue, any_value, empty_object, object_value, union_value, unknown_value, TypeEnvironment,
  is_built_in, is_transparent, unwrap_transparent_type, are_effectively_empty,
  is_effectively_empty_interface, is_unapplied_reference_to, Bindings, alias_substitution,
}

-- The outer `none` is running out of fuel, the inner one `null`.
abbrev pub Unsafe : Type 0
Unsafe = Option (Option UnsafeValue)

-- `types.some((member) => … !== null) ? "union" : null`
abbrev some_unsafe : (TsType → Unsafe) → TsTypes → Unsafe
some_unsafe value no_types = some none
some_unsafe value (more_types t ts) = elim (value t) [
  | none ↦ none
  | some none ↦ some_unsafe value ts
  | some (some v) ↦ some (some union_value)
]

abbrev values_of : (TsType → Unsafe) → TsTypes → Option (List (Option UnsafeValue))
values_of value no_types = some []
values_of value (more_types t ts) = elim (value t) [
  | none ↦ none
  | some v ↦ elim (values_of value ts) [ none ↦ none | some vs ↦ some (v ∷ vs) ]
]

abbrev is_any : Option UnsafeValue → Bool
is_any (some any_value) = true
is_any (some empty_object) = false
is_any (some object_value) = false
is_any (some union_value) = false
is_any (some unknown_value) = false
is_any none = false

abbrev is_safe : Option UnsafeValue → Bool
is_safe none = true
is_safe (some v) = false

-- Of an intersection: `any`, or the first value if all are unsafe.
abbrev intersected : List (Option UnsafeValue) → Option UnsafeValue
intersected [] = none
intersected (v ∷ vs) =
    if some_of is_any (v ∷ vs)
    then some any_value
    else (if some_of is_safe (v ∷ vs) then none else v)

abbrev first_unsafe : (TsType → Unsafe) → TsTypes → Unsafe
first_unsafe value no_types = some none
first_unsafe value (more_types t ts) = value t

module _ (environment : TypeEnvironment) where
  -- One step, for a type that is unwrapped; `value` is the recursive call.
  abbrev unsafe_keyword : (TsType → Unsafe) → String → TsTypes → Unsafe
  unsafe_keyword value type children =
      if str_eq type "TSUnknownKeyword"
      then some (some unknown_value)
      else (if str_eq type "TSAnyKeyword"
          then some (some any_value)
          else (if str_eq type "TSObjectKeyword"
              then some (some object_value)
              else (if str_eq type "TSUnionType"
                  then some_unsafe value children
                  else (if str_eq type "TSIntersectionType"
                      then elim (values_of value children) [
                        | none ↦ none
                        | some vs ↦ some (intersected vs)
                      ]
                      else some none))))

  abbrev unsafe_alias :
      ℕ
      → (TsType → Bindings → List String → Unsafe)
      → String
      → TsTypes
      → Bindings
      → List String
      → Option TypeAliasDeclaration
      → Unsafe
  unsafe_alias fuel value name arguments s resolving none = some none
  unsafe_alias fuel value name arguments s resolving (some alias) =
      if has_name name resolving
      then some none
      else elim (alias_substitution fuel alias arguments s) [
        | none ↦ none
        | some none ↦ some none
        | some (some next) ↦ value alias.type_annotation next (name ∷ resolving)
      ]

  -- A name that is bound, or declared as an interface, or an alias.
  abbrev unsafe_name :
      ℕ
      → (TsType → Bindings → List String → Unsafe)
      → Chain
      → String
      → TsTypes
      → Bindings
      → List String
      → Unsafe
  unsafe_name fuel value site name arguments s resolving = elim (s name) [
    | some bound ↦
        if is_unapplied_reference_to bound name then some none else value bound s resolving
    | none ↦ elim (environment.interfaces name) [
      | [] ↦
          unsafe_alias fuel value name arguments s resolving
            (visible_type_alias name site environment.type_aliases)
      | i ∷ is ↦ some (if is_effectively_empty_interface (i ∷ is) then some empty_object else none)
    ]
  ]

  abbrev unsafe_step :
      ℕ → (TsType → Bindings → List String → Unsafe) → TsType → Bindings → List String → Unsafe
  unsafe_step fuel value (another type children) s resolving =
      unsafe_keyword (λ t. value t s resolving) type children
  unsafe_step fuel value (type_literal ms) s resolving =
      some (if are_effectively_empty ms then some empty_object else none)
  unsafe_step fuel value (type_operator operator annotation) s resolving = some none
  unsafe_step fuel value (mapped_type constraint annotation) s resolving = some none
  unsafe_step fuel value (reference site none arguments) s resolving = some none
  unsafe_step fuel value (reference site (some name) arguments) s resolving =
      elim (is_transparent name site environment) [
        | true ↦ first_unsafe (λ t. value t s resolving) arguments
        | false ↦ unsafe_name fuel value site name arguments s resolving
      ]

  unfoldable pub unsafe_direct_value : ℕ → TsType → Bindings → List String → Unsafe
  unsafe_direct_value zero t s resolving = none
  unsafe_direct_value (suc fuel) t s resolving =
      unsafe_step fuel (unsafe_direct_value fuel) (unwrap_transparent_type t) s resolving

  unfoldable pub classify_unsafe_dictionary_value : ℕ → TsType → Unsafe
  classify_unsafe_dictionary_value fuel t = unsafe_direct_value fuel t (λ name. none) []

-- A value type with the substitutions that it is read under.
pub record ResolvedType : Type 0 where
  pub type : TsType
  pub substitutions : Bindings

abbrev annotated : TsTypes → Bindings → List ResolvedType
annotated no_types s = []
annotated (more_types t ts) s = record { type = t; substitutions = s } ∷ []

-- The types of the index signatures.
abbrev indexed : Members → Bindings → List ResolvedType
indexed no_members s = []
indexed (more_members (index_signature annotation) ms) s = annotated annotation s ++ indexed ms s
indexed (more_members (property_signature optional annotation) ms) s = indexed ms s
indexed (more_members another_member ms) s = indexed ms s

abbrev second_annotated : TsTypes → Bindings → List ResolvedType
second_annotated no_types s = []
second_annotated (more_types t ts) s = annotated ts s

abbrev pub Values : Type 0
Values = Option (List ResolvedType)

abbrev first_values : (TsType → Values) → TsTypes → Values
first_values values no_types = some []
first_values values (more_types t ts) = values t

module _ (environment : TypeEnvironment) where
  abbrev values_of_alias :
      ℕ
      → (TsType → Bindings → List String → Values)
      → String
      → TsTypes
      → Bindings
      → List String
      → Option TypeAliasDeclaration
      → Values
  values_of_alias fuel values name arguments s resolving none = some []
  values_of_alias fuel values name arguments s resolving (some alias) =
      if has_name name resolving
      then some []
      else elim (alias_substitution fuel alias arguments s) [
        | none ↦ none
        | some none ↦ some []
        | some (some next) ↦ values alias.type_annotation next (name ∷ resolving)
      ]

  abbrev values_of_name :
      ℕ
      → (TsType → Bindings → List String → Values)
      → Chain
      → String
      → TsTypes
      → Bindings
      → List String
      → Values
  values_of_name fuel values site name arguments s resolving =
      if is_transparent name site environment
      then first_values (λ t. values t s resolving) arguments
      else (if str_eq name "Record" && is_built_in name site environment
          then some (second_annotated arguments s)
          else (if (str_eq name "Pick" || str_eq name "Omit") && is_built_in name site environment
              then first_values (λ t. values t s resolving) arguments
              else values_of_alias fuel values name arguments s resolving
                  (visible_type_alias name site environment.type_aliases)))

  abbrev values_step :
      ℕ → (TsType → Bindings → List String → Values) → TsType → Bindings → List String → Values
  values_step fuel values (type_literal ms) s resolving = some (indexed ms s)
  values_step fuel values (another type children) s resolving = some []
  values_step fuel values (type_operator operator annotation) s resolving = some []
  values_step fuel values (mapped_type constraint annotation) s resolving =
      some (annotated annotation s)
  values_step fuel values (reference site none arguments) s resolving = some []
  values_step fuel values (reference site (some name) arguments) s resolving = elim (s name) [
    | some bound ↦
        if is_unapplied_reference_to bound name then some [] else values bound s resolving
    | none ↦ values_of_name fuel values site name arguments s resolving
  ]

  unfoldable pub dictionary_value_types : ℕ → TsType → Bindings → List String → Values
  dictionary_value_types zero t s resolving = none
  dictionary_value_types (suc fuel) t s resolving =
      values_step fuel (dictionary_value_types fuel) (unwrap_transparent_type t) s resolving

  -- The loop over the value types: the first unsafe one.
  abbrev first_unsafe_value : ℕ → List ResolvedType → Unsafe
  first_unsafe_value fuel [] = some none
  first_unsafe_value fuel (v ∷ vs) =
      elim (unsafe_direct_value environment fuel v.type v.substitutions []) [
        | none ↦ none
        | some none ↦ first_unsafe_value fuel vs
        | some (some value) ↦ some (some value)
      ]

  unfoldable pub classify_unsafe_dictionary : ℕ → TsType → Unsafe
  classify_unsafe_dictionary fuel t = elim (dictionary_value_types fuel t (λ name. none) []) [
    | none ↦ none
    | some vs ↦ first_unsafe_value fuel vs
  ]
