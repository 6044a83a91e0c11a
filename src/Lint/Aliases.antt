-- ===== src/Lint/Aliases.antt =====
-- tools/oxlint/anti-slop/shared/type-alias-resolution.ts: the type bindings of a program, and the
-- alias that a name stands for at a node. The cache of environments is left out. A map is a
-- function; the set of aliases being resolved is the list of their ids.
pub mod Nearest
pub mod Listed
pub mod Resolution
use inbox_saas.Prelude.{
  ℕ, Bool, true, false, Option, none, some, List, [], ◌∷◌, ◌++◌, ◌==◌, ◌||◌, ltb, some_of, String,
  str_eq, if◌then◌else◌,
}
use inbox_saas.Lint.Scopes.{
  Ancestor, Chain, enclosing_from, lexical_type_parameter_names, has_name, ancestor_distance,
}

-- A type: a reference with its node, its name (`none` unless that is an identifier) and its
-- arguments, a literal with its members, an operator on a type, a mapped type, or another type with the types
-- that the rules read below it.
mutual
  pub data TsType : Type 0 where
    reference : (site : Chain) → (name : Option String) → (arguments : TsTypes) → TsType
    type_literal : (members : Members) → TsType
    type_operator : (operator : String) → (annotation : TsType) → TsType
    mapped_type : (constraint : TsType) → (annotation : TsTypes) → TsType
    another : (type : String) → (children : TsTypes) → TsType

  pub data TsTypes : Type 0 where
    no_types : TsTypes
    more_types : TsType → TsTypes → TsTypes

  -- An annotation that is missing is `no_types`.
  pub data Member : Type 0 where
    property_signature : (optional : Bool) → (annotation : TsTypes) → Member
    index_signature : (annotation : TsTypes) → Member
    another_member : Member

  pub data Members : Type 0 where
    no_members : Members
    more_members : Member → Members → Members

pub record TypeParameter : Type 0 where
  pub name : String
  pub default : Option TsType

pub record TypeAliasDeclaration : Type 0 where
  pub id : ℕ
  pub name : String
  pub type_parameters : List TypeParameter
  pub type_annotation : TsType

-- `scope` is the id of a node.
pub record TypeBinding : Type 0 where
  pub alias : Option TypeAliasDeclaration
  pub name : String
  pub scope : ℕ

pub record TypeAliasEnvironment : Type 0 where
  pub aliases : List TypeAliasDeclaration
  pub bindings_by_name : String → List TypeBinding

-- What a node declares; a class may have no name.
pub data Declaration : Type 0 where
  ts_type_alias : TypeAliasDeclaration → Declaration
  ts_interface ts_enum : (name : String) → Declaration
  class_declaration class_expression : (name : Option String) → Declaration
  import_specifier import_default_specifier import_namespace_specifier :
      (local_name : String) → Declaration
  no_declaration : Declaration

abbrev unnamed : Option String → Option (Option TypeAliasDeclaration × String)
unnamed none = none
unnamed (some name) = some (none, name)

abbrev pub declared_type_binding : Declaration → Option (Option TypeAliasDeclaration × String)
declared_type_binding (ts_type_alias a) = some (some a, a.name)
declared_type_binding (ts_interface name) = some (none, name)
declared_type_binding (ts_enum name) = some (none, name)
declared_type_binding (class_declaration name) = unnamed name
declared_type_binding (class_expression name) = unnamed name
declared_type_binding (import_specifier name) = some (none, name)
declared_type_binding (import_default_specifier name) = some (none, name)
declared_type_binding (import_namespace_specifier name) = some (none, name)
declared_type_binding no_declaration = none

-- A program, with the children of a node in the order of its visitor keys.
mutual
  pub data Tree : Type 0 where
    node : (self : Ancestor) → (declares : Declaration) → (children : Trees) → Tree

  pub data Trees : Type 0 where
    no_trees : Trees
    more_trees : Tree → Trees → Trees

abbrev pub push_binding : TypeBinding → (String → List TypeBinding) → String → List TypeBinding
push_binding b bindings name =
    if str_eq name b.name then bindings name ++ (b ∷ []) else bindings name

abbrev pub push_alias :
    Option TypeAliasDeclaration → List TypeAliasDeclaration → List TypeAliasDeclaration
push_alias none aliases = aliases
push_alias (some a) aliases = aliases ++ (a ∷ [])

abbrev pub declare :
    Option (Option TypeAliasDeclaration × String) → ℕ → TypeAliasEnvironment → TypeAliasEnvironment
declare none scope environment = environment
declare (some (alias, name)) scope environment = record {
  aliases = push_alias alias environment.aliases;
  bindings_by_name =
      push_binding (record { alias = alias; name = name; scope = scope })
        environment.bindings_by_name;
}

-- The node's parents come second.
abbrev mutual
  pub collect_type_bindings : Tree → Chain → TypeAliasEnvironment → TypeAliasEnvironment
  collect_type_bindings (node self declares children) parents environment =
      collect_each children (self ∷ parents)
        (declare (declared_type_binding declares) (enclosing_from self.id parents) environment)

  pub collect_each : Trees → Chain → TypeAliasEnvironment → TypeAliasEnvironment
  collect_each no_trees parents environment = environment
  collect_each (more_trees x xs) parents environment =
      collect_each xs parents (collect_type_bindings x parents environment)

unfoldable pub create_type_alias_environment : Tree → TypeAliasEnvironment
create_type_alias_environment tree =
    collect_type_bindings tree [] (record { aliases = []; bindings_by_name = λ name. [] })

-- `nearestDistance` and `nearest`; `none` is the distance from which the loop starts.
abbrev pub nearer : Option ℕ → ℕ → TypeBinding → List TypeBinding → Option ℕ × List TypeBinding
nearer none distance candidate nearest = (some distance, candidate ∷ [])
nearer (some d) distance candidate nearest =
    if ltb d distance
    then (some d, nearest)
    else (if distance == d
        then (some d, nearest ++ (candidate ∷ []))
        else (some distance, candidate ∷ []))

abbrev pub nearest_step :
    Chain → TypeBinding → Option ℕ × List TypeBinding → Option ℕ × List TypeBinding
nearest_step site candidate (found, nearest) = elim (ancestor_distance candidate.scope site) [
  | none ↦ (found, nearest)
  | some distance ↦ nearer found distance candidate nearest
]

abbrev pub nearest_each :
    Chain → List TypeBinding → Option ℕ × List TypeBinding → Option ℕ × List TypeBinding
nearest_each site [] best = best
nearest_each site (c ∷ cs) best = nearest_each site cs (nearest_step site c best)

unfoldable pub nearest_type_bindings : String → Chain → TypeAliasEnvironment → List TypeBinding
nearest_type_bindings name site environment =
    (nearest_each site (environment.bindings_by_name name) (none, [])).1

-- `bindings.length === 1 ? (bindings[0]?.alias ?? null) : null`
abbrev pub only_alias : List TypeBinding → Option TypeAliasDeclaration
only_alias [] = none
only_alias (b ∷ []) = b.alias
only_alias (b ∷ c ∷ bs) = none

unfoldable pub visible_type_alias :
    String → Chain → TypeAliasEnvironment → Option TypeAliasDeclaration
visible_type_alias name site environment =
    if has_name name (lexical_type_parameter_names site)
    then none
    else only_alias (nearest_type_bindings name site environment)

abbrev is_filled : List TypeBinding → Bool
is_filled [] = false
is_filled (b ∷ bs) = true

unfoldable pub has_visible_type_binding : String → Chain → TypeAliasEnvironment → Bool
has_visible_type_binding name site environment =
    has_name name (lexical_type_parameter_names site)
    || is_filled (nearest_type_bindings name site environment)
