-- ===== src/Config.antt =====
-- apps/worker/src/runtime-config.ts: the configuration of the workers, read from the environment.
-- `URL`, the base64 decoder of Buffer, `trim` and the characters of a text are parameters.
pub mod Checked
use Prim.Native.String.{◌++◌ as append}
use inbox_saas.Prelude.{
  ℕ, Bool, true, false, Option, none, some, List, [], ◌∷◌, ◌==◌, ◌&&◌, ◌||◌, not, leb, length,
  String, str_eq, if◌then◌else◌,
}
use inbox_saas.Errors.{Result, ok, err, throw, throw_if, ◌>>=◌, ◌>>◌}
use inbox_saas.Schema.{Bytes, Characters}

pub record Url : Type 0 where
  pub protocol : String
  pub username : String
  pub password : String

-- `parse_url` is `none` where `new URL` throws.
pub record Readers : Type 0 where
  pub is_blank : String → Bool
  pub parse_url : String → Option Url
  pub characters : String → Characters
  pub decode_base64 : String → Bytes

abbrev pub Environment : Type 0
Environment = String → Option String

pub record FakeTenantValidationWorkerConfig : Type 0 where
  pub database_url : String
  pub credential_key : Bytes
  pub credential_key_version : String
  pub microsoft_tenant_id : String

pub record TenantValidationWorkerConfig : Type 0 where
  pub database_url : String
  pub credential_key : Bytes
  pub credential_key_version : String
  pub provisioner_base_url : String
  pub provisioner_signing_secret : Bytes
  pub provisioner_transport_encryption_key : Bytes

-- `[A-Za-z0-9+/]`
abbrev is_base64 : ℕ → Bool
is_base64 c =
    (leb 65 c && leb c 90)
    || (leb 97 c && leb c 122)
    || (leb 48 c && leb c 57)
    || c == 43
    || c == 47

-- `={0,2}$`
abbrev is_padding : Characters → Bool
is_padding [] = true
is_padding (c ∷ []) = c == 61
is_padding (c ∷ d ∷ []) = c == 61 && d == 61
is_padding (c ∷ d ∷ e ∷ rest) = false

-- `[A-Za-z0-9+/]*={0,2}$`
abbrev is_base64_rest : Characters → Bool
is_base64_rest [] = true
is_base64_rest (c ∷ cs) = if is_base64 c then is_base64_rest cs else is_padding (c ∷ cs)

-- `/^[A-Za-z0-9+/]+={0,2}$/`
unfoldable pub is_base64_text : Characters → Bool
is_base64_text [] = false
is_base64_text (c ∷ cs) = is_base64 c && is_base64_rest cs

module _ (r : Readers) where
  abbrev checked_value : Option String → String → Result String
  checked_value none message = throw message
  checked_value (some value) message = if r.is_blank value then throw message else ok value

  unfoldable pub required_value : Environment → String → Result String
  required_value environment name =
      checked_value (environment name) (append name " must be configured")

  abbrev pub is_postgres : Url → Bool
  is_postgres url = str_eq url.protocol "postgres:" || str_eq url.protocol "postgresql:"

  abbrev pub is_plain_http : Url → Bool
  is_plain_http url =
      (str_eq url.protocol "http:" || str_eq url.protocol "https:")
      && str_eq url.username ""
      && str_eq url.password ""

  abbrev pub parse_with : (Url → Bool) → String → String → Result String
  parse_with fits message value = elim (r.parse_url value) [
    | none ↦ throw message
    | some url ↦ if fits url then ok value else throw message
  ]

  unfoldable pub parse_database_url : String → Result String
  parse_database_url value =
      parse_with is_postgres "DATABASE_URL must be a valid PostgreSQL URL" value

  unfoldable pub parse_provisioner_base_url : String → Result String
  parse_provisioner_base_url value =
      parse_with is_plain_http
        "PROVISIONER_BASE_URL must be a valid HTTP or HTTPS URL without credentials" value

  unfoldable pub parse_base64_key : String → String → Result Bytes
  parse_base64_key encoded message =
      if not (is_base64_text (r.characters encoded)) || not (length (r.decode_base64 encoded) == 32)
      then throw message
      else ok (r.decode_base64 encoded)

  unfoldable pub parse_tenant_validation_worker_config :
      Environment → Result TenantValidationWorkerConfig
  parse_tenant_validation_worker_config environment = do
    database ← required_value environment "DATABASE_URL"
    database_url ← parse_database_url database
    encoded_key ← required_value environment "TENANT_CREDENTIAL_ENCRYPTION_KEY"
    version ← required_value environment "TENANT_CREDENTIAL_ENCRYPTION_KEY_VERSION"
    base ← required_value environment "PROVISIONER_BASE_URL"
    base_url ← parse_provisioner_base_url base
    signing ← required_value environment "INBOX_PROVISIONER_SIGNING_SECRET"
    secret ←
        parse_base64_key signing
          "INBOX_PROVISIONER_SIGNING_SECRET must be a base64-encoded 32-byte key"
    transport ← required_value environment "INBOX_PROVISIONER_TRANSPORT_ENCRYPTION_KEY"
    transport_key ←
        parse_base64_key transport
          "INBOX_PROVISIONER_TRANSPORT_ENCRYPTION_KEY must be a base64-encoded 32-byte key"
    key ←
        parse_base64_key encoded_key
          "TENANT_CREDENTIAL_ENCRYPTION_KEY must be a base64-encoded 32-byte key and TENANT_CREDENTIAL_ENCRYPTION_KEY_VERSION must be non-empty"
    ok (record {
      database_url = database_url;
      credential_key = key;
      credential_key_version = version;
      provisioner_base_url = base_url;
      provisioner_signing_secret = secret;
      provisioner_transport_encryption_key = transport_key;
    })

  abbrev says : Environment → String → String → Bool
  says environment name value = elim (environment name) [ none ↦ false | some v ↦ str_eq v value ]

  unfoldable pub parse_fake_tenant_validation_worker_config :
      Environment → Result FakeTenantValidationWorkerConfig
  parse_fake_tenant_validation_worker_config environment = do
    throw_if (says environment "NODE_ENV" "production")
        "The fake tenant-validation worker cannot run in production"
    throw_if (not (says environment "TENANT_VALIDATION_PROVISIONER" "fake"))
        "TENANT_VALIDATION_PROVISIONER must be set to fake"
    database ← required_value environment "DATABASE_URL"
    database_url ← parse_database_url database
    encoded_key ← required_value environment "TENANT_CREDENTIAL_ENCRYPTION_KEY"
    version ← required_value environment "TENANT_CREDENTIAL_ENCRYPTION_KEY_VERSION"
    tenant ← required_value environment "FAKE_MICROSOFT_TENANT_ID"
    key ←
        parse_base64_key encoded_key
          "TENANT_CREDENTIAL_ENCRYPTION_KEY must be a base64-encoded 32-byte key and TENANT_CREDENTIAL_ENCRYPTION_KEY_VERSION must be non-empty"
    ok (record {
      database_url = database_url;
      credential_key = key;
      credential_key_version = version;
      microsoft_tenant_id = tenant;
    })
