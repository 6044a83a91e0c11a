-- ===== src/Lint/Aliases/Listed.antt =====
-- tools/oxlint/anti-slop/shared/type-alias-resolution.ts, `createTypeAliasEnvironment`: the aliases
-- of the bindings are among the collected ones.
use inbox_saas.Prelude.{
  ℕ, ◌≡◌, inl, inr, Bool, true, Option, none, some, List, [], ◌∷◌, ◌++◌, ◌==◌, arith, All, some_of,
  String, str_eq, keep, Bool-cases, ==_refl,
}
use inbox_saas.Table.Links.{All-map}
use inbox_saas.Lint.Scopes.{Chain, enclosing_from}
use inbox_saas.Lint.Aliases.{
  TypeBinding, TypeAliasDeclaration, TypeAliasEnvironment, declared_type_binding, Tree, node, Trees,
  no_trees, more_trees, push_alias, declare, collect_type_bindings, collect_each,
  create_type_alias_environment, only_alias, visible_type_alias,
}
use inbox_saas.Lint.Scopes.{lexical_type_parameter_names, has_name}
use inbox_saas.Lint.Aliases.Nearest.{nearest_type_bindings_lem}

abbrev pub has_alias : ℕ → List TypeAliasDeclaration → Bool
has_alias i aliases = some_of (λ (a : TypeAliasDeclaration). a.id == i) aliases

abbrev pub IsAmong : List TypeAliasDeclaration → Option TypeAliasDeclaration → Type 0
IsAmong aliases none = Unit {0}
IsAmong aliases (some a) = has_alias a.id aliases ≡ true

abbrev AreAmong : List TypeAliasDeclaration → List TypeBinding → Type 0
AreAmong aliases bs = All (λ (b : TypeBinding). IsAmong aliases b.alias) bs

abbrev pub IsListed : TypeAliasEnvironment → Type 0
IsListed environment =
    (name : String) → AreAmong environment.aliases (environment.bindings_by_name name)

some_of-right :
    {A : Type 0} (p : A → Bool) (xs ys : List A) → some_of p xs ≡ true → some_of p (xs ++ ys) ≡ true
some_of-right p [] ys h = absurd (cc h)
some_of-right p (x ∷ xs) ys h = ground (arith, some_of-right p xs ys)

some_of-last :
    {A : Type 0} (p : A → Bool) (xs : List A) (y : A)
    → p y ≡ true
    → some_of p (xs ++ (y ∷ [])) ≡ true
some_of-last p [] y h = ground arith
some_of-last p (x ∷ xs) y h = ground (arith, some_of-last p xs y h)

All-append : {A : Type 0} (P : A → Type 0) (xs ys : List A) → All P xs → All P ys → All P (xs ++ ys)
All-append P [] ys a b = b
All-append P (x ∷ xs) ys a b = (a.0, All-append P xs ys a.1 b)

All-keep : {A : Type 0} (P : A → Type 0) (p : A → Bool) (xs : List A) → All P xs → All P (keep p xs)
All-keep P p [] a = tt
All-keep P p (x ∷ xs) a = elim (Bool-cases (p x)) [
  | inl e ↦ rw e (a.0, All-keep P p xs a.1)
  | inr e ↦ rw e (All-keep P p xs a.1)
]

pushed-IsAmong :
    (o : Option TypeAliasDeclaration) (aliases : List TypeAliasDeclaration)
    (x : Option TypeAliasDeclaration)
    → IsAmong aliases x
    → IsAmong (push_alias o aliases) x
pushed-IsAmong none aliases x h = h
pushed-IsAmong (some a) aliases none h = tt
pushed-IsAmong (some a) aliases (some x) h = some_of-right _ aliases (a ∷ []) h

last-IsAmong :
    (o : Option TypeAliasDeclaration) (aliases : List TypeAliasDeclaration)
    → IsAmong (push_alias o aliases) o
last-IsAmong none aliases = tt
last-IsAmong (some a) aliases = some_of-last _ aliases a (==_refl a.id)

declare-IsListed :
    (d : Option (Option TypeAliasDeclaration × String)) (scope : ℕ)
    (environment : TypeAliasEnvironment)
    → IsListed environment
    → IsListed (declare d scope environment)
declare-IsListed none scope environment h name = h name
declare-IsListed (some (o, given)) scope environment h name =
    let kept =
      All-map _ _ (environment.bindings_by_name name)
        (λ (b : TypeBinding). pushed-IsAmong o environment.aliases b.alias) (h name) in
    elim (Bool-cases (str_eq name given)) [
      | inl e ↦ rw e (
          All-append _ (environment.bindings_by_name name) _ kept
            (last-IsAmong o environment.aliases, tt))
      | inr e ↦ rw e kept
    ]

mutual
  collect_type_bindings-IsListed :
      (tree : Tree) (parents : Chain) (environment : TypeAliasEnvironment)
      → IsListed environment
      → IsListed (collect_type_bindings tree parents environment)
  collect_type_bindings-IsListed (node self declares children) parents environment h =
      collect_each-IsListed children _ _ (
        declare-IsListed (declared_type_binding declares) (enclosing_from self.id parents)
          environment h)

  collect_each-IsListed :
      (trees : Trees) (parents : Chain) (environment : TypeAliasEnvironment)
      → IsListed environment
      → IsListed (collect_each trees parents environment)
  collect_each-IsListed no_trees parents environment h = h
  collect_each-IsListed (more_trees x xs) parents environment h =
      collect_each-IsListed xs parents _ (collect_type_bindings-IsListed x parents environment h)

pub create_type_alias_environment-IsListed :
    (tree : Tree) → IsListed (create_type_alias_environment tree)
unfolding create_type_alias_environment
create_type_alias_environment-IsListed tree = collect_type_bindings-IsListed tree [] _ (λ name. tt)

only_alias-IsAmong :
    (aliases : List TypeAliasDeclaration) (bs : List TypeBinding)
    → AreAmong aliases bs
    → IsAmong aliases (only_alias bs)
only_alias-IsAmong aliases [] h = tt
only_alias-IsAmong aliases (b ∷ []) h = h.0
only_alias-IsAmong aliases (b ∷ c ∷ bs) h = tt

-- The alias that a name stands for is among the collected ones.
pub visible_type_alias-IsAmong :
    (environment : TypeAliasEnvironment) (name : String) (site : Chain)
    → IsListed environment
    → IsAmong environment.aliases (visible_type_alias name site environment)
unfolding visible_type_alias
visible_type_alias-IsAmong environment name site h =
    elim (Bool-cases (has_name name (lexical_type_parameter_names site))) [
      | inl e ↦ rw (visible_type_alias, e) tt
      | inr e ↦
          rw (visible_type_alias, e, nearest_type_bindings_lem name site environment)
            (only_alias-IsAmong environment.aliases _
              (All-keep _ _ (environment.bindings_by_name name) (h name)))
    ]
