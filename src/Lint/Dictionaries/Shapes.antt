-- ===== src/Lint/Dictionaries/Shapes.antt =====
-- tools/oxlint/anti-slop/shared/dictionary-types.ts: what it reads of types, and its substitutions,
-- which are plain maps from names to types. A map is a function; an interface that no declaration
-- names has no declarations. Following substitutions runs on fuel, and `none` is running out of it.
use inbox_saas.Prelude.{
  ℕ, zero, suc, Bool, true, false, Option, none, some, List, [], ◌∷◌, ◌&&◌, not, String, str_eq,
  if◌then◌else◌,
}
use inbox_saas.Lint.Scopes.{Chain, has_name}
use inbox_saas.Lint.Aliases.{
  TsType, reference, type_literal, type_operator, mapped_type, another, TsTypes, no_types,
  more_types, Member, property_signature, index_signature, another_member, Members, no_members,
  more_members, TypeParameter, TypeAliasDeclaration, TypeAliasEnvironment, has_visible_type_binding,
}

abbrev built_ins : List String
built_ins =
    "Record" ∷ "Readonly" ∷ "Partial" ∷ "Required" ∷ "Pick" ∷ "Omit" ∷ "PropertyKey" ∷ "NonNullable"
    ∷ []

abbrev transparent_wrappers : List String
transparent_wrappers = "Readonly" ∷ "Partial" ∷ "Required" ∷ "NonNullable" ∷ []

pub data UnsafeValue : Type 0 where
  any_value empty_object object_value union_value unknown_value : UnsafeValue

-- What the file reads of an interface: whether it extends anything, and its members.
pub record InterfaceDeclaration : Type 0 where
  pub is_extension : Bool
  pub body : Members

pub record TypeEnvironment : Type 0 where
  pub interfaces : String → List InterfaceDeclaration
  pub type_aliases : TypeAliasEnvironment

abbrev pub is_built_in : String → Chain → TypeEnvironment → Bool
is_built_in name site environment =
    has_name name built_ins && not (has_visible_type_binding name site environment.type_aliases)

abbrev pub is_transparent : String → Chain → TypeEnvironment → Bool
is_transparent name site environment =
    has_name name transparent_wrappers && is_built_in name site environment

abbrev mutual
  pub unwrap_transparent_type : TsType → TsType
  unwrap_transparent_type (reference site name arguments) = reference site name arguments
  unwrap_transparent_type (type_literal ms) = type_literal ms
  unwrap_transparent_type (type_operator operator annotation) =
      let inside = unwrap_transparent_type annotation in
      if str_eq operator "readonly" then inside else type_operator operator annotation
  unwrap_transparent_type (mapped_type constraint annotation) = mapped_type constraint annotation
  unwrap_transparent_type (another type children) =
      let inside = unwrap_first (another type children) children in
      if str_eq type "TSParenthesizedType" then inside else another type children

  pub unwrap_first : TsType → TsTypes → TsType
  unwrap_first whole no_types = whole
  unwrap_first whole (more_types t ts) = unwrap_transparent_type t

abbrev is_keyword : String → TsType → Bool
is_keyword keyword (another type children) = str_eq type keyword
is_keyword keyword (reference site name arguments) = false
is_keyword keyword (type_literal ms) = false
is_keyword keyword (type_operator operator annotation) = false
is_keyword keyword (mapped_type constraint annotation) = false

abbrev pub is_never_type : TsType → Bool
is_never_type t = is_keyword "TSNeverKeyword" (unwrap_transparent_type t)

abbrev is_never_annotation : TsTypes → Bool
is_never_annotation no_types = false
is_never_annotation (more_types t ts) = is_never_type t

abbrev pub is_effectively_empty_member : Member → Bool
is_effectively_empty_member (property_signature optional annotation) =
    optional && is_never_annotation annotation
is_effectively_empty_member (index_signature annotation) = false
is_effectively_empty_member another_member = false

-- `members.length === 0 || members.every(isEffectivelyEmptyMember)`
abbrev pub are_effectively_empty : Members → Bool
are_effectively_empty no_members = true
are_effectively_empty (more_members m ms) =
    let rest = are_effectively_empty ms in is_effectively_empty_member m && rest

abbrev pub is_effectively_empty_interface : List InterfaceDeclaration → Bool
is_effectively_empty_interface [] = false
is_effectively_empty_interface (i ∷ []) = not i.is_extension && are_effectively_empty i.body
is_effectively_empty_interface (i ∷ j ∷ is) = false

abbrev is_unapplied : String → TsType → Bool
is_unapplied name (reference site (some n) no_types) = str_eq n name
is_unapplied name (reference site (some n) (more_types t ts)) = false
is_unapplied name (reference site none arguments) = false
is_unapplied name (type_literal ms) = false
is_unapplied name (type_operator operator annotation) = false
is_unapplied name (mapped_type constraint annotation) = false
is_unapplied name (another type children) = false

abbrev pub is_unapplied_reference_to : TsType → String → Bool
is_unapplied_reference_to t name = is_unapplied name (unwrap_transparent_type t)

abbrev pub Bindings : Type 0
Bindings = String → Option TsType

abbrev pub set_binding : String → TsType → Bindings → Bindings
set_binding name t base n = if str_eq n name then some t else base n

-- The name of a reference.
abbrev pub reference_name : TsType → Option String
reference_name (reference site name arguments) = name
reference_name (type_literal ms) = none
reference_name (type_operator operator annotation) = none
reference_name (mapped_type constraint annotation) = none
reference_name (another type children) = none

-- The argument's own name, and what it is bound to, or the argument as it is.
unfoldable pub resolved_substitution_argument : ℕ → TsType → Bindings → List String → Option TsType
resolved_substitution_argument zero t base resolving = none
resolved_substitution_argument (suc fuel) t base resolving =
    elim (reference_name (unwrap_transparent_type t)) [
      | none ↦ some t
      | some name ↦ elim (has_name name resolving) [
        | true ↦ some t
        | false ↦ elim (base name) [
          | none ↦ some t
          | some bound ↦ resolved_substitution_argument fuel bound base (name ∷ resolving)
        ]
      ]
    ]

abbrev bind_argument :
    (Bindings → Option (Option Bindings))
    → String
    → Bindings
    → Option TsType
    → Option (Option Bindings)
bind_argument next name base none = none
bind_argument next name base (some t) = next (set_binding name t base)

-- The inner `none` is `null`.
abbrev pub bind_each : ℕ → List TypeParameter → TsTypes → Bindings → Option (Option Bindings)
bind_each fuel [] arguments base = some (some base)
bind_each fuel (p ∷ ps) (more_types t ts) base =
    bind_argument (bind_each fuel ps ts) p.name base (resolved_substitution_argument fuel t base [])
bind_each fuel (p ∷ ps) no_types base = elim p.default [
  | none ↦ some none
  | some t ↦
      bind_argument (bind_each fuel ps no_types) p.name base
        (resolved_substitution_argument fuel t base [])
]

abbrev pub alias_substitution :
    ℕ → TypeAliasDeclaration → TsTypes → Bindings → Option (Option Bindings)
alias_substitution fuel alias arguments base = bind_each fuel alias.type_parameters arguments base
