-- ===== src/Provisioner.antt =====
-- apps/worker/src/provisioner-client.ts, provisioner-request-auth.ts and
-- provisioner-transport-encryption.ts: the call of the provisioner over HTTP.
-- `fetch`, the URL functions, JSON and node:crypto are parameters; the answer of `fetch` has passed
-- through `json` and the schema of results. A trace lists the requests that were posted.
pub mod Decimal
pub mod Signature
pub mod Exchange
pub mod Fake
use Prim.Native.String.{◌++◌ as append}
use inbox_saas.Prelude.{
  ℕ, Bool, true, false, Option, none, some, List, [], ◌∷◌, ◌++◌, ◌/◌, ◌==◌, ◌&&◌, ◌||◌, not, leb,
  length, String, str_eq, if◌then◌else◌,
}
use inbox_saas.Errors.{Result, ok, err, throw, throw_if, ◌>>=◌, ◌>>◌}
use inbox_saas.Schema.{Bytes, Characters}
use inbox_saas.Contract.{TenantValidationRequest, TenantValidationResult}
use inbox_saas.Config.{Url}
use inbox_saas.Provisioner.Decimal.{decimal}

-- The texts are base64.
pub record ProvisionerTransportEnvelope : Type 0 where
  pub iv : Characters
  pub ciphertext : Characters
  pub auth_tag : Characters

-- `parse_url` is `none` where `new URL` throws; `resolve` is `new URL(path, url).toString()`, `seal`
-- AES-256-GCM with its tag, `sha256` and `hmac` are in hexadecimal.
pub record Transport : Type 0 where
  pub parse_url : String → Option Url
  pub resolve : String → Url → String
  pub print_request : TenantValidationRequest → Bytes
  pub print_envelope : ProvisionerTransportEnvelope → Characters
  pub base64 : Bytes → Characters
  pub seal : (key iv plain : Bytes) → Bytes × Bytes
  pub sha256 : Characters → Characters
  pub hmac : Bytes → Characters → Characters
  pub string_of : Characters → String

pub record HttpTenantValidationProvisioner : Type 0 where
  pub endpoint : String
  pub service_secret : Bytes
  pub transport_encryption_key : Bytes

-- What goes out: the three headers and the body.
pub record Post : Type 0 where
  pub endpoint : String
  pub timestamp : Characters
  pub nonce : Characters
  pub signature : Characters
  pub body : Characters

-- `json` is `none` where the body is no JSON, `some none` where it is no result.
pub record Response : Type 0 where
  pub status : ℕ
  pub json : Option (Option TenantValidationResult)

abbrev pub newline : ℕ
newline = 10

abbrev is_empty : Characters → Bool
is_empty [] = true
is_empty (c ∷ cs) = false

unfoldable pub canonical_request : Characters → Characters → Characters → Characters
canonical_request timestamp nonce body_hash =
    timestamp ++ (newline ∷ nonce ++ (newline ∷ body_hash))

abbrev is_http : Url → Bool
is_http url = str_eq url.protocol "http:" || str_eq url.protocol "https:"

abbrev has_credentials : Url → Bool
has_credentials url = not (str_eq url.username "") || not (str_eq url.password "")

-- `response.ok`
abbrev pub is_ok : ℕ → Bool
is_ok status = leb 200 status && leb status 299

module _ (t : Transport) where
  unfoldable pub sign_provisioner_request :
      Bytes → Characters → Characters → Characters → Result Characters
  sign_provisioner_request secret timestamp nonce raw_body = do
    throw_if (not (length secret == 32)) "Provisioner service secret must be 32 bytes"
    throw_if (is_empty timestamp) "Provisioner request timestamp is required"
    throw_if (is_empty nonce) "Provisioner request nonce is required"
    throw_if (is_empty raw_body) "Provisioner request body is required"
    ok (t.hmac secret (canonical_request timestamp nonce (t.sha256 raw_body)))

  abbrev pub envelope_of : Bytes → Bytes → TenantValidationRequest → ProvisionerTransportEnvelope
  envelope_of key iv request =
      let sealed = t.seal key iv (t.print_request request) in
      record { iv = t.base64 iv; ciphertext = t.base64 sealed.0; auth_tag = t.base64 sealed.1 }

  -- `iv` is drawn by `randomBytes`.
  unfoldable pub encrypt_provisioner_request :
      Bytes → Bytes → TenantValidationRequest → Result ProvisionerTransportEnvelope
  encrypt_provisioner_request key iv request = do
    throw_if (not (length key == 32)) "Provisioner transport encryption key must be 32 bytes"
    ok (envelope_of key iv request)

  unfoldable pub create_tenant_validation_endpoint : String → Result String
  create_tenant_validation_endpoint base_url = elim (t.parse_url base_url) [
    | none ↦ throw "Provisioner base URL is invalid"
    | some url ↦ do
      throw_if (not (is_http url)) "Provisioner base URL must use HTTP or HTTPS"
      throw_if (has_credentials url) "Provisioner base URL must not include credentials"
      ok (t.resolve "/internal/v1/tenant-validations" url)
  ]

  unfoldable pub create_provisioner :
      String → Bytes → Bytes → Result HttpTenantValidationProvisioner
  create_provisioner base_url service_secret transport_encryption_key = do
    throw_if (not (length service_secret == 32)) "Provisioner service secret must be 32 bytes"
    throw_if (not (length transport_encryption_key == 32))
        "Provisioner transport encryption key must be 32 bytes"
    endpoint ← create_tenant_validation_endpoint base_url
    ok (record {
      endpoint = endpoint;
      service_secret = service_secret;
      transport_encryption_key = transport_encryption_key;
    })

  abbrev pub parsed : Option (Option TenantValidationResult) → Result TenantValidationResult
  parsed none = throw "Tenant validation provisioner returned invalid JSON"
  parsed (some none) = throw "Tenant validation provisioner returned an invalid result"
  parsed (some (some result)) = ok result

  -- `none` where `fetch` throws, at the latest after its time has run out.
  abbrev pub received : Option Response → Result TenantValidationResult
  received none = throw "Tenant validation provisioner request failed"
  received (some response) =
      if not (is_ok response.status)
      then throw (
          append "Tenant validation provisioner returned HTTP "
            (t.string_of (decimal response.status)))
      else parsed response.json

  -- What the call reads beside its argument: the bytes drawn for the cipher, the clock in
  -- milliseconds, and the nonce.
  module _ (c : HttpTenantValidationProvisioner) (iv : Bytes) (clock : ℕ) (nonce : Characters) where
    unfoldable pub prepare : TenantValidationRequest → Result Post
    prepare request = do
      envelope ← encrypt_provisioner_request c.transport_encryption_key iv request
      let body = t.print_envelope envelope
      let timestamp = decimal (clock / 1000)
      signature ← sign_provisioner_request c.service_secret timestamp nonce body
      ok (record {
        endpoint = c.endpoint;
        timestamp = timestamp;
        nonce = nonce;
        signature = signature;
        body = body;
      })

    abbrev pub exchange :
        (Post → Option Response) → Result Post → List Post × Result TenantValidationResult
    exchange fetch (err e) = ([], err e)
    exchange fetch (ok post) = (post ∷ [], received (fetch post))

    unfoldable pub validate_tenant :
        (Post → Option Response)
        → TenantValidationRequest
        → List Post × Result TenantValidationResult
    validate_tenant fetch request = exchange fetch (prepare request)
