-- ===== src/Lint/Aliases/Resolution/Termination.antt =====
-- tools/oxlint/anti-slop/shared/type-alias-resolution.ts, `resolvedTypeMatches`: the evaluation ends.
-- Every step resolves one alias more, or goes to a substitution within the current ones, or asks of
-- a smaller type.
use inbox_saas.Prelude.{
  ℕ, zero, suc, ◌+◌, ◌≤◌, ◌<◌, ◌≡◌, refl, ap, ◌∙◌, inl, inr, Bool, true, false, Option, none, some,
  List, [], ◌∷◌, ◌==◌, not, arith, count, String, str_eq, Bool-cases,
}
use inbox_saas.Lint.Aliases.{
  TsType, reference, type_literal, type_operator, mapped_type, another, TsTypes, no_types,
  more_types, TypeAliasDeclaration, TypeAliasEnvironment, Tree, create_type_alias_environment,
  visible_type_alias,
}
use inbox_saas.Lint.Aliases.Listed.{
  has_alias, IsAmong, IsListed, create_type_alias_environment-IsListed, visible_type_alias-IsAmong,
}
use inbox_saas.Lint.Aliases.Resolution.{
  Substitutions, no_substitutions, substitution, find_substitution, alias_substitutions, Inquiry,
  answer, ask, consult, Expansion, substitutes, resolves, opaque_type, is_resolving, or_else,
  substitution_for, with_substitutions, by_alias, expansion, evaluate, resolved_type_matches,
}

abbrev mutual
  pub size : TsType → ℕ
  size (reference site name arguments) = suc (size_each arguments)
  size (another type children) = suc (size_each children)
  size (type_literal ms) = 1
  size (type_operator operator annotation) = suc (size annotation)
  size (mapped_type constraint annotation) = suc (size constraint + size_each annotation)

  pub size_each : TsTypes → ℕ
  size_each no_types = 0
  size_each (more_types t ts) = size t + size_each ts

abbrev depth : Substitutions → ℕ
depth no_substitutions = 0
depth (substitution name type s rest) = suc (depth s + depth rest)

-- A matcher that asks only of types smaller than its own.
abbrev pub Asks : (TsType → Type 0) → Inquiry → Type 0
Asks P (answer b) = Unit {0}
Asks P (ask child next) = P child × ((b : Bool) → Asks P (next b))

abbrev pub AsksBelow : (TsType → Inquiry) → Type 0
AsksBelow matcher = (t : TsType) → Asks (λ child. size child < size t) (matcher t)

Asks-map : (P Q : TsType → Type 0) (q : Inquiry) → ((t : TsType) → P t → Q t) → Asks P q → Asks Q q
Asks-map P Q (answer b) f h = tt
Asks-map P Q (ask child next) f h = (f child h.0, λ b. Asks-map P Q (next b) f (h.1 b))

-- The aliases that are not being resolved.
abbrev unresolved : List ℕ → List TypeAliasDeclaration → ℕ
unresolved resolving aliases =
    count (λ (a : TypeAliasDeclaration). not (is_resolving a.id resolving)) aliases

unresolved_less :
    (i : ℕ) (resolving : List ℕ) (aliases : List TypeAliasDeclaration)
    → unresolved (i ∷ resolving) aliases ≤ unresolved resolving aliases
unresolved_less i resolving [] = omega arith
unresolved_less i resolving (a ∷ aliases) = ground (arith, unresolved_less i resolving aliases)

resolving_fewer :
    (i : ℕ) (resolving : List ℕ) (aliases : List TypeAliasDeclaration)
    → has_alias i aliases ≡ true
    → is_resolving i resolving ≡ false
    → unresolved (i ∷ resolving) aliases < unresolved resolving aliases
resolving_fewer i resolving [] h f = absurd (cc h)
resolving_fewer i resolving (a ∷ aliases) h f = elim (Bool-cases (a.id == i)) [
  | inl e ↦
      let same : a.id ≡ i = ground (arith, e) in
      let out : is_resolving a.id resolving ≡ false = ap (λ x. is_resolving x resolving) same ∙ f in
      let in_now : is_resolving a.id (i ∷ resolving) ≡ true = ground (arith, e) in
      rw (in_now, out) (omega (arith, unresolved_less i resolving aliases))
  | inr e ↦
      let rest : has_alias i aliases ≡ true = ground (arith, h, e) in
      let kept : is_resolving a.id (i ∷ resolving) ≡ is_resolving a.id resolving =
        ground (arith, e) in
      rw kept (ground (arith, resolving_fewer i resolving aliases rest f))
]

-- What is found in a map lies less deep than the map.
abbrev IsWithin : ℕ → Option (TsType × Substitutions) → Type 0
IsWithin d none = Unit {0}
IsWithin d (some (t, s)) = depth s < d

IsWithin-more :
    (m n : ℕ) (o : Option (TsType × Substitutions)) → m ≤ n → IsWithin m o → IsWithin n o
IsWithin-more m n none h w = tt
IsWithin-more m n (some (t, s)) h w = omega (arith, h, w)

find_substitution-IsWithin :
    (name : String) (s : Substitutions) → IsWithin (depth s) (find_substitution name s)
find_substitution-IsWithin name no_substitutions = tt
find_substitution-IsWithin name (substitution n type closure rest) =
    elim (Bool-cases (str_eq name n)) [
      | inl hit ↦ rw hit (omega arith)
      | inr miss ↦ rw miss (
          IsWithin-more (depth rest) (suc (depth closure + depth rest))
            (find_substitution name rest) (omega arith) (find_substitution-IsWithin name rest))
    ]

module _ (environment : TypeAliasEnvironment) (listed : IsListed environment) where
  -- Every expansion goes to less deep substitutions, or to an alias that is not being resolved yet.
  abbrev Advances : Substitutions → List ℕ → Expansion → Type 0
  Advances s resolving (substitutes t s') = depth s' < depth s
  Advances s resolving (resolves a s') =
      (has_alias a.id environment.aliases ≡ true) × (is_resolving a.id resolving ≡ false)
  Advances s resolving opaque_type = Unit {0}

  or_else-Advances :
      (s : Substitutions) (resolving : List ℕ) (o : Option (TsType × Substitutions)) (e : Expansion)
      → IsWithin (depth s) o
      → Advances s resolving e
      → Advances s resolving (or_else o e)
  or_else-Advances s resolving none e w h = h
  or_else-Advances s resolving (some (t, s')) e w h = w

  substitution_for-IsWithin :
      (name : String) (arguments : TsTypes) (s : Substitutions)
      → IsWithin (depth s) (substitution_for name arguments s)
  substitution_for-IsWithin name no_types s = find_substitution-IsWithin name s
  substitution_for-IsWithin name (more_types t ts) s = tt

  by_alias-Advances :
      (o : Option TypeAliasDeclaration) (arguments : TsTypes) (s : Substitutions)
      (resolving : List ℕ)
      → IsAmong environment.aliases o
      → Advances s resolving (by_alias o arguments s resolving)
  by_alias-Advances none arguments s resolving h = tt
  by_alias-Advances (some a) arguments s resolving h =
      elim (Bool-cases (is_resolving a.id resolving)) [
        | inl e ↦ rw e tt
        | inr e ↦ rw e (given (alias_substitutions a arguments s) e)
      ]
    where
      given :
          (o : Option Substitutions)
          → is_resolving a.id resolving ≡ false
          → Advances s resolving (with_substitutions a o)
      given none e = tt
      given (some s') e = (h, e)

  expansion-Advances :
      (t : TsType) (s : Substitutions) (resolving : List ℕ)
      → Advances s resolving (expansion environment t s resolving)
  unfolding expansion
  expansion-Advances (another type children) s resolving = tt
  expansion-Advances (type_literal ms) s resolving = tt
  expansion-Advances (type_operator operator annotation) s resolving = tt
  expansion-Advances (mapped_type constraint annotation) s resolving = tt
  expansion-Advances (reference site none arguments) s resolving = tt
  expansion-Advances (reference site (some name) arguments) s resolving =
      or_else-Advances s resolving (substitution_for name arguments s) _
        (substitution_for-IsWithin name arguments s)
        (by_alias-Advances (visible_type_alias name site environment) arguments s resolving
          (visible_type_alias-IsAmong environment name site listed))

  module _ (matcher : TsType → Inquiry) (below : AsksBelow matcher) where
    -- From some fuel on, the evaluation has one and the same answer.
    abbrev Halts : (ℕ → Option Bool) → Type 0
    Halts run = (n : ℕ) × (b : Bool) × ((m : ℕ) → n ≤ m → run m ≡ some b)

    abbrev Ends : Substitutions → List ℕ → TsType → Type 0
    Ends s resolving t = Halts (λ fuel. evaluate environment matcher fuel t s resolving)

    consult-Halts :
        (q : Inquiry) (run : ℕ → TsType → Option Bool)
        → Asks (λ child. Halts (λ fuel. run fuel child)) q
        → Halts (λ fuel. consult q (run fuel))
    consult-Halts (answer b) run h = (0, b, λ m l. refl)
    consult-Halts (ask child next) run h =
        let (n₁, b₁, e₁) = h.0 in
        let (n₂, b₂, e₂) = consult-Halts (next b₁) run (h.1 b₁) in
        (n₁ + n₂, b₂, λ m l. rw (consult, e₁ m (omega (arith, l))) (e₂ m (omega (arith, l))))

    -- One step more.
    stepped :
        (s : Substitutions) (resolving : List ℕ) (t : TsType) (run : ℕ → Option Bool)
        → ((fuel : ℕ) → evaluate environment matcher (suc fuel) t s resolving ≡ run fuel)
        → Halts run
        → Ends s resolving t
    stepped s resolving t run same (n, b, e) = (suc n, b, later)
      where
        later : (m : ℕ) → suc n ≤ m → evaluate environment matcher m t s resolving ≡ some b
        later zero l = absurd (omega (arith, l))
        later (suc m) l = same m ∙ e m (omega (arith, l))

    advance :
        (s : Substitutions) (resolving : List ℕ) (t : TsType) (e : Expansion)
        → expansion environment t s resolving ≡ e
        → Advances s resolving e
        → ((a : TypeAliasDeclaration) (s' : Substitutions)
            → has_alias a.id environment.aliases ≡ true
            → is_resolving a.id resolving ≡ false
            → Ends s' (a.id ∷ resolving) a.type_annotation)
        → ((t' : TsType) (s' : Substitutions) → depth s' < depth s → Ends s' resolving t')
        → ((t' : TsType) → size t' < size t → Ends s resolving t')
        → Ends s resolving t
    unfolding evaluate
    advance s resolving t (substitutes t' s') e h fewer shallower smaller =
        stepped s resolving t (λ fuel. evaluate environment matcher fuel t' s' resolving)
          (λ fuel. rw (evaluate, e) refl) (shallower t' s' h)
    advance s resolving t (resolves a s') e h fewer shallower smaller =
        stepped s resolving t
          (λ fuel. evaluate environment matcher fuel a.type_annotation s' (a.id ∷ resolving))
          (λ fuel. rw (evaluate, e) refl) (fewer a s' h.0 h.1)
    advance s resolving t opaque_type e h fewer shallower smaller =
        stepped s resolving t
          (λ fuel.
            consult (matcher t) (λ child. evaluate environment matcher fuel child s resolving))
          (λ fuel. rw (evaluate, e) refl)
          (consult-Halts (matcher t)
            (λ fuel child. evaluate environment matcher fuel child s resolving)
            (Asks-map (λ child. size child < size t) (Ends s resolving) (matcher t) smaller
              (below t)))

    ends :
        (k d z : ℕ) (s : Substitutions) (resolving : List ℕ) (t : TsType)
        → unresolved resolving environment.aliases < k
        → depth s < d
        → size t < z
        → Ends s resolving t
    ends zero d z s resolving t a b c = absurd (omega (arith, a))
    ends (suc k) zero z s resolving t a b c = absurd (omega (arith, b))
    ends (suc k) (suc d) zero s resolving t a b c = absurd (omega (arith, c))
    ends (suc k) (suc d) (suc z) s resolving t a b c =
        advance s resolving t (expansion environment t s resolving) refl
          (expansion-Advances t s resolving)
          (λ x s' listed_now fresh.
            ends k (suc (depth s')) (suc (size x.type_annotation)) s' (x.id ∷ resolving)
              x.type_annotation
              (omega
                (arith, a, resolving_fewer x.id resolving environment.aliases listed_now fresh))
              (omega arith) (omega arith))
          (λ t' s' less.
            ends (suc k) d (suc (size t')) s' resolving t' a (omega (arith, b, less)) (omega arith))
          (λ t' less. ends (suc k) (suc d) z s resolving t' a b (omega (arith, c, less)))

-- The match of a type ends, for every program and every matcher that asks only of types below the
-- one it is handed: from some fuel on, it has one and the same answer.
pub resolved_type_matches_ends :
    (tree : Tree) (matcher : TsType → Inquiry) (t : TsType)
    → AsksBelow matcher
    → (n : ℕ) × (b : Bool) × ((m : ℕ)
        → n ≤ m
        → resolved_type_matches (create_type_alias_environment tree) matcher m t ≡ some b)
unfolding resolved_type_matches
resolved_type_matches_ends tree matcher t below =
    let environment = create_type_alias_environment tree in
    ends environment (create_type_alias_environment-IsListed tree) matcher below
      (suc (unresolved [] environment.aliases)) 1 (suc (size t)) no_substitutions [] t (omega arith)
      (omega arith) (omega arith)
