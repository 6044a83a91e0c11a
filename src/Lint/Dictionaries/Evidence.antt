-- ===== src/Lint/Dictionaries/Evidence.antt =====
-- tools/oxlint/anti-slop/shared/dictionary-types.ts: which expressions show what a value is.
use inbox_saas.Prelude.{Bool, true, false, List, [], ◌∷◌, String, if◌then◌else◌}
use inbox_saas.Lint.Scopes.{has_name}

-- An expression around another, an object with or without properties, or another expression.
pub data Expression : Type 0 where
  around : (type : String) → (expression : Expression) → Expression
  object_expression : (is_populated : Bool) → Expression
  another_expression : (type : String) → Expression

abbrev unwrap_expression : List String → Expression → Expression
unwrap_expression wrappers (around type e) =
    let inside = unwrap_expression wrappers e in
    if has_name type wrappers then inside else around type e
unwrap_expression wrappers (object_expression is_populated) = object_expression is_populated
unwrap_expression wrappers (another_expression type) = another_expression type

abbrev is_populated_object : Expression → Bool
is_populated_object (around type e) = false
is_populated_object (object_expression is_populated) = is_populated
is_populated_object (another_expression type) = false

abbrev pub is_populated_object_expression : Expression → Bool
is_populated_object_expression e = is_populated_object (
    unwrap_expression
      ("ParenthesizedExpression" ∷ "TSAsExpression" ∷ "TSTypeAssertion" ∷ "TSNonNullExpression"
        ∷ [])
      e)

abbrev evidence_types : List String
evidence_types =
    "ArrayExpression" ∷ "ArrowFunctionExpression" ∷ "ClassExpression" ∷ "FunctionExpression"
    ∷ "NewExpression" ∷ "Literal" ∷ "TemplateLiteral" ∷ "UnaryExpression" ∷ []

abbrev is_evidence : Expression → Bool
is_evidence (around type e) = has_name type evidence_types
is_evidence (object_expression is_populated) = true
is_evidence (another_expression type) = has_name type evidence_types

abbrev pub is_known_evidence_expression : Expression → Bool
is_known_evidence_expression e = is_evidence (
    unwrap_expression
      ("ParenthesizedExpression" ∷ "TSAsExpression" ∷ "TSTypeAssertion" ∷ "TSNonNullExpression"
        ∷ "TSSatisfiesExpression" ∷ [])
      e)
