-- ===== src/Contract.antt =====
-- packages/provisioner-contract/src/index.ts: what a provisioner is asked and what it returns.
-- `contractVersion` is the literal "v1" in every value and is left out.
use inbox_saas.Prelude.{ℕ, Bool, String}
use inbox_saas.Credentials.{TenantCredentials}

pub data FailureCode : Type 0 where
  invalid_credentials authentication_challenge microsoft_unavailable unexpected_failure :
      FailureCode

abbrev pub failure_text : FailureCode → String
failure_text invalid_credentials = "invalid_credentials"
failure_text authentication_challenge = "authentication_challenge"
failure_text microsoft_unavailable = "microsoft_unavailable"
failure_text unexpected_failure = "unexpected_failure"

pub data TenantValidationResult : Type 0 where
  success : (microsoft_tenant_id : String) → TenantValidationResult
  failure : (code : FailureCode) → (retryable : Bool) → TenantValidationResult

-- `credentials` go along in the clear: the transport encrypts them.
pub record TenantValidationRequest : Type 0 where
  pub job_id : ℕ
  pub tenant_connection_id : ℕ
  pub credentials : TenantCredentials
