-- ===== src/Errors.antt =====
-- Thrown values and results, and how packages/product/src/tenant-validation.ts recognises the
-- violation of a unique index in a chain of causes. Chains are finite here.
use inbox_saas.Prelude.{
  ◌≡◌, refl, Bool, false, Option, none, some, String, ◌||◌, ◌⊎◌, inl, inr, str_eq, if◌then◌else◌,
}

-- An error object: its message, its `code` if it has one, and its `cause` if that is an object.
pub data Error : Type 0 where
  plain : (message : String) → (code : Option String) → Error
  caused : (message : String) → (code : Option String) → (cause : Error) → Error

-- What an awaited call comes to: a value, or the error object that it threw.
pub data Result {ℓ} (T : Type ℓ) : Type ℓ where
  err : (thrown : Error) → Result T
  ok : (value : T) → Result T

infixl 5 ◌>>=◌
abbrev pub ◌>>=◌ {ℓ κ} : {T : Type ℓ} {U : Type κ} → Result T → (T → Result U) → Result U
err thrown >>= next = err thrown
ok value >>= next = next value

infixl 5 ◌>>◌
abbrev pub ◌>>◌ {ℓ} : {U : Type ℓ} → Result (Unit {0}) → Result U → Result U
err thrown >> next = err thrown
ok _ >> next = next

-- `throw new Error(message)`
abbrev pub throw {ℓ} : {A : Type ℓ} → String → Result A
throw message = err (plain message none)

abbrev pub throw_if : Bool → String → Result (Unit {0})
throw_if b message = if b then throw message else ok tt

-- `const [x] = rows; if (!x) throw new Error(message);`
abbrev pub or_throw {ℓ} : {A : Type ℓ} → Option A → String → Result A
or_throw none message = throw message
or_throw (some a) message = ok a

abbrev code_is : Option String → String → Bool
code_is none c = false
code_is (some d) c = str_eq d c

unfoldable pub is_unique_violation : Error → Bool
is_unique_violation (plain message code) = code_is code "23505"
is_unique_violation (caused message code cause) = code_is code "23505" || is_unique_violation cause

-- An error that the program throws itself has no code, and is never taken for a violation.
pub is_unique_violation-plain :
    (message : String) → is_unique_violation (plain message none) ≡ false
unfolding is_unique_violation
is_unique_violation-plain message = refl

pub Result-cases {ℓ} :
    {A : Type ℓ} (r : Result A) → ((a : A) × (r ≡ ok a)) ⊎ ((e : Error) × (r ≡ err e))
Result-cases (ok a) = inl (a, refl)
Result-cases (err e) = inr (e, refl)

-- A predicate of the value that a call comes to, if it comes to one.
abbrev pub OkHolds {ℓ κ} : {A : Type ℓ} → (A → Type κ) → Result A → Type κ
OkHolds P (err e) = Unit
OkHolds P (ok a) = P a

pub >>=-OkHolds :
    {A B : Type 0} (P : A → Type 0) (Q : B → Type 0) (m : Result A) (f : A → Result B)
    → OkHolds P m
    → ((a : A) → P a → OkHolds Q (f a))
    → OkHolds Q (m >>= f)
>>=-OkHolds P Q (err e) f h k = tt
>>=-OkHolds P Q (ok a) f h k = k a h

-- What follows from nothing but the value's being there.
pub any-OkHolds : {A : Type 0} (m : Result A) → OkHolds (λ a. m ≡ ok a) m
any-OkHolds (err e) = tt
any-OkHolds (ok a) = refl

pub all-OkHolds : {B : Type 0} (P : B → Type 0) (o : Result B) → ((b : B) → P b) → OkHolds P o
all-OkHolds P (err e) h = tt
all-OkHolds P (ok b) h = h b

pub map-OkHolds :
    {B : Type 0} (P Q : B → Type 0) (o : Result B)
    → ((b : B) → P b → Q b)
    → OkHolds P o
    → OkHolds Q o
map-OkHolds P Q (err e) h p = tt
map-OkHolds P Q (ok b) h p = h b p
