-- ===== src/Lint/Scopes.antt =====
-- tools/oxlint/anti-slop/shared/lexical-type-parameters.ts and the scopes of
-- tools/oxlint/anti-slop/shared/type-alias-resolution.ts: which type binders a node sees.
-- A node is given with its parents, itself first, so that a loop along `parent` is recursion on
-- that list; nodes are compared by their ids. A set of names is a list.
use inbox_saas.Prelude.{
  ℕ, suc, Bool, true, false, Option, none, some, List, [], ◌∷◌, ◌++◌, ◌==◌, ◌||◌, opt_is, some_of,
  String, str_eq, if◌then◌else◌,
}

-- The nodes below a type, with the parameter's name at each `TSInferType`, in the order in which
-- the visitor keys name them.
mutual
  pub data Inner : Type 0 where
    inner : (infers : Option String) → (children : Inners) → Inner

  pub data Inners : Type 0 where
    no_inner : Inners
    more_inner : Inner → Inners → Inners

-- The type of a node, with what the two files read of it.
pub data NodeType : Type 0 where
  program block_statement ts_module_block static_block switch_statement : NodeType
  ts_mapped_type : (key : String) → (name_type type_annotation : Option ℕ) → NodeType
  ts_conditional_type : (true_type : ℕ) → (extends_type : Inner) → NodeType
  another_type : NodeType

pub record Ancestor : Type 0 where
  pub id : ℕ
  pub type : NodeType
  pub type_parameters : List String

abbrev pub Chain : Type 0
Chain = List Ancestor

abbrev pub is_program : NodeType → Bool
is_program program = true
is_program block_statement = false
is_program ts_module_block = false
is_program static_block = false
is_program switch_statement = false
is_program (ts_mapped_type k n a) = false
is_program (ts_conditional_type t e) = false
is_program another_type = false

abbrev pub is_type_scope : NodeType → Bool
is_type_scope program = true
is_type_scope block_statement = true
is_type_scope ts_module_block = true
is_type_scope static_block = true
is_type_scope switch_statement = true
is_type_scope (ts_mapped_type k n a) = false
is_type_scope (ts_conditional_type t e) = false
is_type_scope another_type = false

-- The innermost scope around a node, which is the first of its parents to be one; the node itself
-- where there is none. The node stands apart from its parents here.
abbrev pub enclosing_from : ℕ → Chain → ℕ
enclosing_from node [] = node
enclosing_from node (x ∷ xs) =
    let rest = enclosing_from node xs in if is_type_scope x.type then x.id else rest

abbrev named : Option String → List String
named none = []
named (some name) = name ∷ []

abbrev mutual
  pub infer_names : Inner → List String
  infer_names (inner infers children) = named infers ++ infer_names_each children

  pub infer_names_each : Inners → List String
  infer_names_each no_inner = []
  infer_names_each (more_inner x xs) = infer_names x ++ infer_names_each xs

-- What a node binds for the child that the walk came from.
abbrev pub bound_below : ℕ → NodeType → List String
bound_below descendant (ts_mapped_type key name_type annotation) =
    if opt_is name_type descendant || opt_is annotation descendant then key ∷ [] else []
bound_below descendant (ts_conditional_type true_type extends_type) =
    if descendant == true_type then infer_names extends_type else []
bound_below descendant program = []
bound_below descendant block_statement = []
bound_below descendant ts_module_block = []
bound_below descendant static_block = []
bound_below descendant switch_statement = []
bound_below descendant another_type = []

abbrev pub names_from : ℕ → Chain → List String
names_from descendant [] = []
names_from descendant (x ∷ xs) =
    let rest = names_from x.id xs in
    if is_program x.type then [] else x.type_parameters ++ bound_below descendant x.type ++ rest

unfoldable pub lexical_type_parameter_names : Chain → List String
lexical_type_parameter_names [] = []
lexical_type_parameter_names (x ∷ xs) = names_from x.id (x ∷ xs)

abbrev pub has_name : String → List String → Bool
has_name name names = some_of (str_eq name) names

-- `ancestorDistance`, from a distance on.
abbrev pub distance_from : ℕ → ℕ → Chain → Option ℕ
distance_from distance ancestor [] = none
distance_from distance ancestor (x ∷ xs) =
    let rest = distance_from (suc distance) ancestor xs in
    if x.id == ancestor then some distance else rest

abbrev pub ancestor_distance : ℕ → Chain → Option ℕ
ancestor_distance ancestor site = distance_from 0 ancestor site
