-- ===== src/Credentials/Encoding.antt =====
-- packages/product/src/tenant-credentials.ts: the bytes that are authenticated and hashed, and the
-- cipher over the primitives of node:crypto. A text of V8 has fewer than 2 ^ 30 code units, and its
-- UTF-8 form fewer than 2 ^ 32 bytes, so `writeUInt32BE` never throws.
pub mod Injective
use inbox_saas.Prelude.{
  ℕ, Bool, true, false, Option, none, some, List, [], ◌∷◌, ◌++◌, ◌/◌, ◌%◌, ◌==◌, not, length,
  String, if◌then◌else◌,
}
use inbox_saas.Errors.{Result, ok, err, throw, throw_if, or_throw, ◌>>=◌, ◌>>◌}
use inbox_saas.Schema.{Bytes, JobOperation, tenant_validation}
use inbox_saas.Credentials.{
  TenantCredentials, EncryptedTenantCredentials, TenantCredentialContext,
  TenantCredentialFingerprintInput, TenantCredentialCipher,
}

-- `writeUInt32BE`
abbrev pub four_bytes : ℕ → Bytes
four_bytes n = n / 16777216 ∷ n / 65536 % 256 ∷ n / 256 % 256 ∷ n % 256 ∷ []

abbrev pub operation_text : JobOperation → String
operation_text tenant_validation = "tenant_validation"

-- The primitives that the cipher calls: HMAC-SHA256 in hexadecimal, AES-256-GCM under a key, an
-- initialization vector and authenticated data, JSON of credentials, and `text.trim() === ""`.
-- `read` includes the schema's test; `none` where the text is JSON of another shape.
pub record Primitives : Type 0 where
  pub utf8 : String → Bytes
  pub hmac : Bytes → Bytes → String
  pub seal : (key iv associated plain : Bytes) → Bytes × Bytes
  pub unseal : (key iv associated tag sealed : Bytes) → Result Bytes
  pub print : TenantCredentials → Bytes
  pub read : Bytes → Result (Option TenantCredentials)
  pub is_blank : String → Bool

-- `validateKey`
unfoldable pub validate_key : Bytes → Result Bytes
validate_key key = do
  throw_if (not (length key == 32)) "Tenant credential cipher key must be exactly 32 bytes"
  ok key

module _ (p : Primitives) where
  -- `updateEncodedField`, and the body of the loop over the context's values.
  abbrev pub encoded_field : String → Bytes
  encoded_field value = four_bytes (length (p.utf8 value)) ++ p.utf8 value

  abbrev pub encoded_fields : List String → Bytes
  encoded_fields [] = []
  encoded_fields (v ∷ vs) = encoded_field v ++ encoded_fields vs

  abbrev pub data_mark : Bytes
  data_mark = p.utf8 "inbox-saas:tenant-credentials:v1" ++ (0 ∷ [])

  unfoldable pub additional_authenticated_data : TenantCredentialContext → Bytes
  additional_authenticated_data context =
      data_mark ++ encoded_fields (context.workspace_id ∷ operation_text context.operation ∷ [])

  abbrev pub payload_mark : Bytes
  payload_mark = p.utf8 "inbox-saas:tenant-validation-payload:v1" ++ (0 ∷ [])

  -- What `fingerprintTenantValidationPayload` feeds to the HMAC.
  unfoldable pub payload_message : TenantCredentialFingerprintInput → Bytes
  payload_message i =
      payload_mark
      ++ encoded_fields (
          i.workspace_id
          ∷ operation_text i.operation
          ∷ i.credentials.email
          ∷ i.credentials.password
          ∷ [])

  unfoldable pub fingerprint_payload : Bytes → TenantCredentialFingerprintInput → Result String
  fingerprint_payload key i = do k ← validate_key key; ok (p.hmac k (payload_message i))

  abbrev pub seal_credentials :
      Bytes
      → String
      → Bytes
      → TenantCredentials
      → TenantCredentialContext
      → EncryptedTenantCredentials
  seal_credentials key version iv c context =
      let sealed = p.seal key iv (additional_authenticated_data context) (p.print c) in
      record { ciphertext = sealed.0; iv = iv; auth_tag = sealed.1; key_version = version }

  abbrev pub open_credentials :
      Bytes → EncryptedTenantCredentials → TenantCredentialContext → Result TenantCredentials
  open_credentials key e context = do
    plain ← p.unseal key e.iv (additional_authenticated_data context) e.auth_tag e.ciphertext
    parsed ← p.read plain
    or_throw parsed "Tenant credential ciphertext is invalid"

  abbrev pub cipher_of : Bytes → String → TenantCredentialCipher
  cipher_of key version = record {
    encrypt = seal_credentials key version;
    decrypt = open_credentials key;
    fingerprint = λ i. p.hmac key (payload_message i);
  }

  unfoldable pub create_tenant_credential_cipher : Bytes → String → Result TenantCredentialCipher
  create_tenant_credential_cipher key version = do
    k ← validate_key key
    throw_if (p.is_blank version) "Tenant credential cipher key version is required"
    ok (cipher_of k version)
