-- ===== src/Credentials/Encoding/Injective.antt =====
-- packages/product/src/tenant-credentials.ts: different contexts and payloads have different bytes,
-- and a cipher opens what it sealed.
use inbox_saas.Prelude.{
  ℕ, ◌≡◌, refl, ap, sym, ◌∙◌, false, some, List, [], ◌∷◌, ◌++◌, map, ◌/◌, ◌%◌, arith, ◌==◌, length,
  String, inl, inr, Bool-cases,
}
use inbox_saas.Errors.{ok}
use inbox_saas.Schema.{Bytes}
use inbox_saas.Credentials.{
  TenantCredentials, TenantCredentialContext, TenantCredentialFingerprintInput,
  TenantCredentialCipher,
}
use inbox_saas.Credentials.Encoding.{
  data_mark, payload_mark, four_bytes, operation_text, cipher_of, Primitives, validate_key,
  encoded_field, encoded_fields, additional_authenticated_data, payload_message,
  create_tenant_credential_cipher,
}

four_bytes_injective : (m n : ℕ) → four_bytes m ≡ four_bytes n → m ≡ n
four_bytes_injective m n h =
    let a : m / 16777216 ≡ n / 16777216 = ground arith in
    let b : m / 65536 % 256 ≡ n / 65536 % 256 = ground arith in
    let c : m / 256 % 256 ≡ n / 256 % 256 = ground arith in
    let d : m % 256 ≡ n % 256 = ground arith in omega (arith, a, b, c, d)

-- Texts of one length are told apart whatever follows them.
append_injective :
    (xs ys us vs : Bytes) → length xs ≡ length ys → xs ++ us ≡ ys ++ vs → (xs ≡ ys) × (us ≡ vs)
append_injective [] [] us vs l h = (refl, h)
append_injective [] (y ∷ ys) us vs l h = absurd (omega (arith, l))
append_injective (x ∷ xs) [] us vs l h = absurd (omega (arith, l))
append_injective (x ∷ xs) (y ∷ ys) us vs l h =
    let head : x ≡ y = cc h in
    let tail : xs ++ us ≡ ys ++ vs = cc h in
    let (same, rest) = append_injective xs ys us vs (omega (arith, l)) tail in
    (cc (head, same), rest)

mark_injective : (m us vs : Bytes) → m ++ us ≡ m ++ vs → us ≡ vs
mark_injective m us vs h = (append_injective m m us vs refl h).1

module _ (p : Primitives) where
  field_injective :
      (s t : String) (us vs : Bytes)
      → encoded_field p s ++ us ≡ encoded_field p t ++ vs
      → (p.utf8 s ≡ p.utf8 t) × (us ≡ vs)
  field_injective s t us vs h =
      let h' : four_bytes (length (p.utf8 s)) ++ (p.utf8 s ++ us)
          ≡ four_bytes (length (p.utf8 t)) ++ (p.utf8 t ++ vs) =
        h in
      let (sizes, rest) =
        append_injective (four_bytes (length (p.utf8 s))) (four_bytes (length (p.utf8 t))) _ _ refl
          h' in
      let (texts, after) =
        append_injective (p.utf8 s) (p.utf8 t) us vs (four_bytes_injective _ _ sizes) rest in
      (texts, after)

  -- Length-prefixed lists of as many fields are told apart.
  fields_injective :
      (ss ts : List String)
      → length ss ≡ length ts
      → encoded_fields p ss ≡ encoded_fields p ts
      → map p.utf8 ss ≡ map p.utf8 ts
  fields_injective [] [] l h = refl
  fields_injective [] (t ∷ ts) l h = absurd (omega (arith, l))
  fields_injective (s ∷ ss) [] l h = absurd (omega (arith, l))
  fields_injective (s ∷ ss) (t ∷ ts) l h =
      let (same, rest) = field_injective s t (encoded_fields p ss) (encoded_fields p ts) h in
      cc (same, fields_injective ss ts (omega (arith, l)) rest)

  abbrev context_fields : TenantCredentialContext → List String
  context_fields c = c.workspace_id ∷ operation_text c.operation ∷ []

  abbrev payload_fields : TenantCredentialFingerprintInput → List String
  payload_fields i =
      i.workspace_id
      ∷ operation_text i.operation
      ∷ i.credentials.email
      ∷ i.credentials.password
      ∷ []

  -- Two contexts with the same authenticated data name one workspace, to the byte.
  pub additional_authenticated_data_injective :
      (c d : TenantCredentialContext)
      → additional_authenticated_data p c ≡ additional_authenticated_data p d
      → p.utf8 c.workspace_id ≡ p.utf8 d.workspace_id
  unfolding additional_authenticated_data
  additional_authenticated_data_injective c d h =
      let same : map p.utf8 (context_fields c) ≡ map p.utf8 (context_fields d) =
        fields_injective (context_fields c) (context_fields d) refl (
          mark_injective (data_mark p) (encoded_fields p (context_fields c))
            (encoded_fields p (context_fields d)) h) in
      cc same

  -- Two payloads with the same hashed message have the same bytes in the workspace, in the email and
  -- in the password: no text that moves from one field to another goes unnoticed.
  pub payload_message_injective :
      (i j : TenantCredentialFingerprintInput)
      → payload_message p i ≡ payload_message p j
      → (p.utf8 i.workspace_id ≡ p.utf8 j.workspace_id)
        × (p.utf8 i.credentials.email ≡ p.utf8 j.credentials.email)
        × (p.utf8 i.credentials.password ≡ p.utf8 j.credentials.password)
  unfolding payload_message
  payload_message_injective i j h =
      let same : map p.utf8 (payload_fields i) ≡ map p.utf8 (payload_fields j) =
        fields_injective (payload_fields i) (payload_fields j) refl (
          mark_injective (payload_mark p) (encoded_fields p (payload_fields i))
            (encoded_fields p (payload_fields j)) h) in
      (cc same, cc same, cc same)

-- If decryption inverts encryption and the printed credentials are read back, a cipher that could be
-- made opens what it sealed in the same context, whatever the initialization vector, to exactly those
-- credentials; and it was made from a key of 32 bytes and a version that is not blank.
pub cipher_lem :
    (p : Primitives) (key : Bytes) (version : String) {cipher : TenantCredentialCipher}
    (c : TenantCredentials)
    → ((k iv a plain : Bytes)
        → p.unseal k iv a (p.seal k iv a plain).1 (p.seal k iv a plain).0 ≡ ok plain)
    → p.read (p.print c) ≡ ok (some c)
    → create_tenant_credential_cipher p key version ≡ ok cipher
    → (length key ≡ 32)
      × (p.is_blank version ≡ false)
      × ((iv : Bytes) (context : TenantCredentialContext)
          → cipher.decrypt (cipher.encrypt iv c context) context ≡ ok c)
unfolding create_tenant_credential_cipher validate_key
cipher_lem p key version {cipher} c opens reads h = elim (Bool-cases (length key == 32)) [
  | inr e ↦ absurd (cc (rw (create_tenant_credential_cipher, validate_key, e) at h))
  | inl e ↦ elim (Bool-cases (p.is_blank version)) [
    | inl b ↦ absurd (cc (rw (create_tenant_credential_cipher, validate_key, e, b) at h))
    | inr b ↦
        let made : ok (cipher_of p key version) ≡ ok cipher =
          rw (create_tenant_credential_cipher, validate_key, e, b) at h in
        let same : cipher_of p key version ≡ cipher = cc made in
        (
          ground arith,
          b,
          λ iv context.
              ap (λ (x : TenantCredentialCipher). x.decrypt (x.encrypt iv c context) context)
                (sym same)
              ∙ rw (opens key iv (additional_authenticated_data p context) (p.print c), reads) refl,
        )
  ]
]
