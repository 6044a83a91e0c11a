-- ===== src/Tests/Sealing.antt =====
-- Examples of the credential cipher, over primitives that do not hide anything.
use inbox_saas.Prelude.{ℕ, zero, suc, ◌≡◌, refl, false, some, [], ◌∷◌, length}
use inbox_saas.Errors.{ok}
use inbox_saas.Schema.{Bytes, tenant_validation}
use inbox_saas.Credentials.{
  TenantCredentials, TenantCredentialContext, TenantCredentialFingerprintInput,
}
use inbox_saas.Credentials.Encoding.{
  Primitives, validate_key, cipher_of, create_tenant_credential_cipher,
}
use inbox_saas.Credentials.Encoding.Injective.{payload_message_injective, cipher_lem}
use inbox_saas.Tests.Fixtures.{admin}

abbrev pub zeros : ℕ → Bytes
zeros zero = []
zeros (suc n) = 0 ∷ zeros n

-- These know one pair of credentials, and texts as lists of their own number.
abbrev primitives : TenantCredentials → Primitives
primitives c = record {
  utf8 = λ t. 97 ∷ 98 ∷ [];
  hmac = λ k m. "digest";
  seal = λ k iv a plain. (plain, iv);
  unseal = λ k iv a tag sealed. ok sealed;
  print = λ x. 1 ∷ [];
  read = λ b. ok (some c);
  is_blank = λ t. false;
}

abbrev payload : TenantCredentialFingerprintInput
payload = record { credentials = admin; workspace_id = "aa"; operation = tenant_validation }

abbrev two_bytes : Bytes
two_bytes = 97 ∷ 98 ∷ []

payload_message_injective_example :
    (two_bytes ≡ two_bytes) × (two_bytes ≡ two_bytes) × (two_bytes ≡ two_bytes)
payload_message_injective_example =
    payload_message_injective (primitives admin) payload payload refl

made :
    create_tenant_credential_cipher (primitives admin) (zeros 32) "v1"
    ≡ ok (cipher_of (primitives admin) (zeros 32) "v1")
unfolding create_tenant_credential_cipher validate_key
made = refl

cipher_example :
    (length (zeros 32) ≡ 32)
    × (false ≡ false)
    × ((iv : Bytes) (context : TenantCredentialContext)
        → (cipher_of (primitives admin) (zeros 32) "v1").decrypt
            ((cipher_of (primitives admin) (zeros 32) "v1").encrypt iv admin context)
            context
          ≡ ok admin)
cipher_example =
    cipher_lem (primitives admin) (zeros 32) "v1"
      {cipher = cipher_of (primitives admin) (zeros 32) "v1"} admin (λ k iv a plain. refl) refl made
