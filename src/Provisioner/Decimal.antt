-- ===== src/Provisioner/Decimal.antt =====
-- The decimal text of a number, as `toString` gives it below 10 ^ 21, in code units. Every step
-- divides by ten, so one step more than the number itself is enough.
use inbox_saas.Prelude.{
  ℕ, zero, suc, ◌+◌, ◌-◌, ◌*◌, ◌/◌, ◌%◌, ◌<◌, ◌≤◌, ◌≡◌, refl, ap, sym, ◌∙◌, inl, inr, true, false,
  [], ◌∷◌, ltb, arith, All, Bool-cases,
}
use inbox_saas.Schema.{Characters}

unfoldable pub digits : ℕ → ℕ → Characters → Characters
digits zero n rest = rest
digits (suc steps) n rest = elim (ltb n 10) [
  | true ↦ (48 + n) ∷ rest
  | false ↦ digits steps (n / 10) ((48 + n % 10) ∷ rest)
]

unfoldable pub decimal : ℕ → Characters
decimal n = digits (suc n) n []

-- The number that a text of digits spells, after what is read already.
abbrev spelled : Characters → ℕ → ℕ
spelled [] read = read
spelled (c ∷ cs) read = spelled cs (read * 10 + (c - 48))

spelled-digits :
    (steps n : ℕ) (rest : Characters) → n < steps → spelled (digits steps n rest) 0 ≡ spelled rest n
unfolding digits
spelled-digits zero n rest h = absurd (omega (arith, h))
spelled-digits (suc steps) n rest h = elim (Bool-cases (ltb n 10)) [
  | inl small ↦ rw (digits, small) (ap (spelled rest) (omega arith))
  | inr large ↦
      let many : 10 ≤ n = ground arith in
      rw (digits, large)
        (spelled-digits steps (n / 10) ((48 + n % 10) ∷ rest) (omega (arith, h, many))
          ∙ ap (spelled rest) (omega arith))
]

pub decimal_injective : (m n : ℕ) → decimal m ≡ decimal n → m ≡ n
unfolding decimal
decimal_injective m n e =
    sym (spelled-digits (suc m) m [] (omega arith))
    ∙ ap (λ t. spelled t 0) e
    ∙ spelled-digits (suc n) n [] (omega arith)

abbrev pub IsDigit : ℕ → Type 0
IsDigit c = (48 ≤ c) × (c ≤ 57)

digits-IsDigit :
    (steps n : ℕ) (rest : Characters) → All IsDigit rest → All IsDigit (digits steps n rest)
unfolding digits
digits-IsDigit zero n rest h = h
digits-IsDigit (suc steps) n rest h = elim (Bool-cases (ltb n 10)) [
  | inl small ↦
      let few : n < 10 = ground arith in rw (digits, small) ((omega arith, omega (arith, few)), h)
  | inr large ↦
      rw (digits, large)
        (digits-IsDigit steps (n / 10) ((48 + n % 10) ∷ rest) ((omega arith, omega arith), h))
]

pub decimal-IsDigit : (n : ℕ) → All IsDigit (decimal n)
unfolding decimal
decimal-IsDigit n = digits-IsDigit (suc n) n [] tt

digits-cons :
    (steps n : ℕ) (rest : Characters)
    → n < steps
    → (c : ℕ) × (cs : Characters) × (digits steps n rest ≡ c ∷ cs)
unfolding digits
digits-cons zero n rest h = absurd (omega (arith, h))
digits-cons (suc steps) n rest h = elim (Bool-cases (ltb n 10)) [
  | inl small ↦ rw (digits, small) (48 + n, rest, refl)
  | inr large ↦
      let many : 10 ≤ n = ground arith in
      rw (digits, large)
        (digits-cons steps (n / 10) ((48 + n % 10) ∷ rest) (omega (arith, h, many)))
]

-- A number has at least one digit.
pub decimal-cons : (n : ℕ) → (c : ℕ) × (cs : Characters) × (decimal n ≡ c ∷ cs)
unfolding decimal
decimal-cons n = digits-cons (suc n) n [] (omega arith)
