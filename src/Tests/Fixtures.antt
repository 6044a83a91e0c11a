-- ===== src/Tests/Fixtures.antt =====
-- Concrete services, rows and inputs for the examples.
use Prim.Native.String.{◌++◌ as append}
use inbox_saas.Prelude.{ℕ, none, some, List, [], ◌∷◌, String, str_eq, if◌then◌else◌, Option}
use inbox_saas.Errors.{plain, caused, ok}
use inbox_saas.Access.{AccessGrant, organization, write}
use inbox_saas.Schema.{Organization, Workspace, Database}
use inbox_saas.Schema.Statements.{Driver}
use inbox_saas.Credentials.{TenantCredentials, TenantCredentialCipher}
use inbox_saas.Validation.Base.{Services}
use inbox_saas.Validation.Start.{StartInput, Fresh}

abbrev pub driver : Driver
driver = record {
  unique_violation = caused "Failed query" none (plain "duplicate key value" (some "23505"));
  foreign_key_violation = caused "Failed query" none (plain "no such key" (some "23503"));
  check_violation = caused "Failed query" none (plain "check failed" (some "23514"));
  out_of_range = caused "Failed query" none (plain "integer out of range" (some "22003"));
}

abbrev pub admin : TenantCredentials
admin = record { email = "admin@example.com"; password = "secret" }

-- A cipher for examples: its fingerprint joins the fields.
abbrev pub cipher : TenantCredentialCipher
cipher = record {
  encrypt =
      λ iv c context. record { ciphertext = 1 ∷ []; iv = iv; auth_tag = []; key_version = "v1" };
  decrypt = λ c context. ok admin;
  fingerprint = λ i. append i.workspace_id (append i.credentials.email i.credentials.password);
}

-- The two spellings of one uuid, and the uuid of a job.
abbrev pub uuid_of : String → Option ℕ
uuid_of t =
    if str_eq t "aa"
    then some 20
    else (if str_eq t "AA" then some 20 else (if str_eq t "job" then some 40 else none))

abbrev pub services : Services
services = record {
  driver = driver;
  cipher = cipher;
  uuid_of = uuid_of;
  uuid_text = λ i. "aa";
  invalid_uuid =
      caused "Failed query" none (plain "invalid input syntax for type uuid" (some "22P02"));
}

abbrev pub acme : Organization
acme = record { id = 10; name = "Acme"; created_at = 0; updated_at = 0 }

abbrev pub default_workspace : Workspace
default_workspace = record {
  id = 20;
  organization_id = 10;
  name = "Default";
  created_at = 0;
  updated_at = 0;
}

abbrev pub empty_database : Database
empty_database = record {
  users = "user-1" ∷ [];
  organizations = acme ∷ [];
  workspaces = default_workspace ∷ [];
  access_grants = [];
  api_keys = [];
  tenant_connections = [];
  jobs = [];
  idempotency_records = [];
  outbox_events = [];
}

abbrev pub grants : List AccessGrant
grants = record { scope = organization; organization_id = 10; permission = write } ∷ []

abbrev pub input : StartInput
input = record { workspace_id = "aa"; idempotency_key = "key-1"; credentials = admin }

abbrev pub draws : Fresh
draws = record { connection_id = 30; job_id = 40; record_id = 50; event_id = 60; iv = 7 ∷ [] }

abbrev pub later_draws : Fresh
later_draws = record { connection_id = 31; job_id = 41; record_id = 51; event_id = 61; iv = 8 ∷ [] }
