-- ===== src/Lint/Rules.antt =====
-- tools/oxlint/anti-slop/rules/no-unknown-type-aliases.ts, no-unknown-returns.ts and
-- no-object-parameters.ts, and tools/oxlint/anti-slop/shared/function-parameters.ts: when a type is
-- unknown or an object, as the rules ask.
-- The children of a type are its annotation in parentheses, or the members of a union.
use inbox_saas.Prelude.{
  ℕ, suc, ◌<◌, inl, inr, Bool, true, false, Option, none, some, ◌||◌, String, str_eq, arith,
  if◌then◌else◌, Bool-cases,
}
use inbox_saas.Lint.Aliases.{
  TsType, reference, type_literal, type_operator, mapped_type, another, TsTypes, no_types,
  more_types,
}
use inbox_saas.Lint.Aliases.Resolution.{Inquiry, answer, ask}
use inbox_saas.Lint.Aliases.Resolution.Termination.{size, size_each, Asks, AsksBelow}

-- `types.some(matches)`
abbrev pub ask_some : TsTypes → Inquiry
ask_some no_types = answer false
ask_some (more_types t ts) =
    let rest = ask_some ts in ask t (λ found. if found then answer true else rest)

-- `matches` of the first child.
abbrev pub ask_first : TsTypes → Inquiry
ask_first no_types = answer false
ask_first (more_types t ts) = ask t (λ found. answer found)

abbrev keyword_below : String → String → TsTypes → Inquiry
keyword_below keyword type children =
    if str_eq type keyword
    then answer true
    else (if str_eq type "TSParenthesizedType"
        then ask_first children
        else (if str_eq type "TSUnionType" then ask_some children else answer false))

-- The matcher of no-unknown-type-aliases.
abbrev pub resolves_to_unknown : TsType → Inquiry
resolves_to_unknown (reference site name arguments) = answer false
resolves_to_unknown (type_literal ms) = answer false
resolves_to_unknown (type_operator operator annotation) = answer false
resolves_to_unknown (mapped_type constraint annotation) = answer false
resolves_to_unknown (another type children) = keyword_below "TSUnknownKeyword" type children

-- The matcher of no-object-parameters.
abbrev pub resolves_to_object : TsType → Inquiry
resolves_to_object (reference site name arguments) = answer false
resolves_to_object (type_literal ms) = answer false
resolves_to_object (type_operator operator annotation) = answer false
resolves_to_object (mapped_type constraint annotation) = answer false
resolves_to_object (another type children) = keyword_below "TSObjectKeyword" type children

abbrev is_promise : Option String → Bool
is_promise none = false
is_promise (some name) = str_eq name "Promise" || str_eq name "PromiseLike"

-- The matcher of no-unknown-returns.
abbrev pub returns_unknown : TsType → Inquiry
returns_unknown (reference site name arguments) =
    if is_promise name then ask_first arguments else answer false
returns_unknown (type_literal ms) = answer false
returns_unknown (type_operator operator annotation) = answer false
returns_unknown (mapped_type constraint annotation) = answer false
returns_unknown (another type children) = keyword_below "TSUnknownKeyword" type children

-- `containsUnknownType`
abbrev mutual
  pub contains_unknown_type : TsType → Bool
  contains_unknown_type (reference site name arguments) = false
  contains_unknown_type (type_literal ms) = false
  contains_unknown_type (type_operator operator annotation) = false
  contains_unknown_type (mapped_type constraint annotation) = false
  contains_unknown_type (another type children) =
      let first = first_contains_unknown children in
      let any = some_contains_unknown children in
      if str_eq type "TSUnknownKeyword"
      then true
      else (if str_eq type "TSParenthesizedType"
          then first
          else (if str_eq type "TSUnionType" then any else false))

  pub first_contains_unknown : TsTypes → Bool
  first_contains_unknown no_types = false
  first_contains_unknown (more_types t ts) = contains_unknown_type t

  pub some_contains_unknown : TsTypes → Bool
  some_contains_unknown no_types = false
  some_contains_unknown (more_types t ts) =
      let rest = some_contains_unknown ts in contains_unknown_type t || rest

until_found-Asks :
    (n : ℕ) (q : Inquiry) (b : Bool)
    → Asks (λ child. size child < n) q
    → Asks (λ child. size child < n) (if b then answer true else q)
until_found-Asks n q true h = tt
until_found-Asks n q false h = h

ask_some-Asks :
    (n : ℕ) (ts : TsTypes) → size_each ts < n → Asks (λ child. size child < n) (ask_some ts)
ask_some-Asks n no_types h = tt
ask_some-Asks n (more_types t ts) h = (
  omega (arith, h),
  λ b. until_found-Asks n (ask_some ts) b (ask_some-Asks n ts (omega (arith, h))),
)

ask_first-Asks :
    (n : ℕ) (ts : TsTypes) → size_each ts < n → Asks (λ child. size child < n) (ask_first ts)
ask_first-Asks n no_types h = tt
ask_first-Asks n (more_types t ts) h = (omega (arith, h), λ b. tt)

keyword_below-Asks :
    (keyword type : String) (children : TsTypes)
    → Asks (λ child. size child < suc (size_each children)) (keyword_below keyword type children)
keyword_below-Asks keyword type children = elim (Bool-cases (str_eq type keyword)) [
  | inl e ↦ rw e tt
  | inr e ↦ elim (Bool-cases (str_eq type "TSParenthesizedType")) [
    | inl f ↦ rw (e, f) (ask_first-Asks (suc (size_each children)) children (omega arith))
    | inr f ↦ elim (Bool-cases (str_eq type "TSUnionType")) [
      | inl g ↦ rw (e, f, g) (ask_some-Asks (suc (size_each children)) children (omega arith))
      | inr g ↦ rw (e, f, g) tt
    ]
  ]
]

-- The matchers of the rules ask only of types below the one that they are handed.
pub resolves_to_unknown-AsksBelow : AsksBelow resolves_to_unknown
resolves_to_unknown-AsksBelow (reference site name arguments) = tt
resolves_to_unknown-AsksBelow (type_literal ms) = tt
resolves_to_unknown-AsksBelow (type_operator operator annotation) = tt
resolves_to_unknown-AsksBelow (mapped_type constraint annotation) = tt
resolves_to_unknown-AsksBelow (another type children) = keyword_below-Asks _ type children

pub resolves_to_object-AsksBelow : AsksBelow resolves_to_object
resolves_to_object-AsksBelow (reference site name arguments) = tt
resolves_to_object-AsksBelow (type_literal ms) = tt
resolves_to_object-AsksBelow (type_operator operator annotation) = tt
resolves_to_object-AsksBelow (mapped_type constraint annotation) = tt
resolves_to_object-AsksBelow (another type children) = keyword_below-Asks _ type children

pub returns_unknown-AsksBelow : AsksBelow returns_unknown
returns_unknown-AsksBelow (reference site name arguments) = elim (Bool-cases (is_promise name)) [
  | inl e ↦ rw e (ask_first-Asks (suc (size_each arguments)) arguments (omega arith))
  | inr e ↦ rw e tt
]
returns_unknown-AsksBelow (type_literal ms) = tt
returns_unknown-AsksBelow (type_operator operator annotation) = tt
returns_unknown-AsksBelow (mapped_type constraint annotation) = tt
returns_unknown-AsksBelow (another type children) = keyword_below-Asks _ type children
