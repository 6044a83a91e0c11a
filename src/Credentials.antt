-- ===== src/Credentials.antt =====
-- packages/product/src/tenant-credentials.ts: the credentials of a tenant administrator and the
-- interface of the cipher that protects them.
pub mod Encoding
use inbox_saas.Prelude.{String}
use inbox_saas.Errors.{Result}
use inbox_saas.Schema.{Bytes, JobOperation}

pub record TenantCredentials : Type 0 where
  pub email : String
  pub password : String

pub record EncryptedTenantCredentials : Type 0 where
  pub ciphertext : Bytes
  pub iv : Bytes
  pub auth_tag : Bytes
  pub key_version : String

pub record TenantCredentialContext : Type 0 where
  pub workspace_id : String
  pub operation : JobOperation

pub record TenantCredentialFingerprintInput : Type 0 where
  pub credentials : TenantCredentials
  pub workspace_id : String
  pub operation : JobOperation

-- The random bytes that `encrypt` draws are its first argument.
pub record TenantCredentialCipher : Type 0 where
  pub encrypt : Bytes → TenantCredentials → TenantCredentialContext → EncryptedTenantCredentials
  pub decrypt : EncryptedTenantCredentials → TenantCredentialContext → Result TenantCredentials
  pub fingerprint : TenantCredentialFingerprintInput → String
