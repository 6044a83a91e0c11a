-- ===== src/Schema.antt =====
-- packages/db/src/schema/product.ts: the rows of the product tables, their unique indexes and
-- checks, and the database as a record of tables.
-- A uuid is a number of which only equality is used; a timestamp is a number of milliseconds.
pub mod Statements
use inbox_saas.Prelude.{
  ℕ, Bool, true, false, Option, none, some, List, [], ◌∷◌, ◌==◌, ◌&&◌, ◌||◌, String, str_eq, ltb,
}
use inbox_saas.Access.{Permission}
use inbox_saas.Table.{is_distinct}

-- `bytea`
abbrev pub Bytes : Type 0
Bytes = List ℕ

-- A text of which the program looks at the characters, as their codes.
abbrev pub Characters : Type 0
Characters = List ℕ

pub data AccessGrantScope : Type 0 where
  organization workspace : AccessGrantScope

pub data TenantConnectionState : Type 0 where
  validating active validation_failed detached : TenantConnectionState

pub data JobState : Type 0 where
  queued running completed failed cancelled : JobState

pub data JobOperation : Type 0 where
  tenant_validation : JobOperation

pub data OutboxEventType : Type 0 where
  tenant_validation_requested : OutboxEventType

pub record Organization : Type 0 where
  pub id : ℕ
  pub name : String
  pub created_at : ℕ
  pub updated_at : ℕ

pub record Workspace : Type 0 where
  pub id : ℕ
  pub organization_id : ℕ
  pub name : String
  pub created_at : ℕ
  pub updated_at : ℕ

pub record AccessGrantRow : Type 0 where
  pub id : ℕ
  pub user_id : String
  pub organization_id : ℕ
  pub workspace_id : Option ℕ
  pub permission : Permission
  pub scope : AccessGrantScope
  pub created_at : ℕ
  pub updated_at : ℕ

pub record ApiKey : Type 0 where
  pub id : ℕ
  pub prefix : Characters
  pub secret_hash : Characters
  pub creator_user_id : String
  pub organization_id : ℕ
  pub workspace_id : Option ℕ
  pub permission : Permission
  pub scope : AccessGrantScope
  pub expires_at : ℕ
  pub revoked_at : Option ℕ
  pub created_at : ℕ

pub record TenantConnection : Type 0 where
  pub id : ℕ
  pub organization_id : ℕ
  pub workspace_id : ℕ
  pub state : TenantConnectionState
  pub microsoft_tenant_id : Option String
  pub credential_ciphertext : Bytes
  pub credential_iv : Bytes
  pub credential_auth_tag : Bytes
  pub credential_key_version : String
  pub created_at : ℕ
  pub updated_at : ℕ

pub record Job : Type 0 where
  pub id : ℕ
  pub tenant_connection_id : ℕ
  pub state : JobState
  pub operation : JobOperation
  pub failure_code : Option String
  pub retryable : Option Bool
  pub attempt_count : ℕ
  pub available_at : ℕ
  pub lease_expires_at : Option ℕ
  pub lease_token : Option ℕ
  pub created_at : ℕ
  pub updated_at : ℕ

pub record IdempotencyRecord : Type 0 where
  pub id : ℕ
  pub organization_id : ℕ
  pub key : String
  pub operation : JobOperation
  pub payload_fingerprint : String
  pub job_id : ℕ
  pub created_at : ℕ

-- `payload` is the stored JSON object, whose one field is the job's id.
pub record OutboxEvent : Type 0 where
  pub id : ℕ
  pub job_id : ℕ
  pub type : OutboxEventType
  pub payload : ℕ
  pub dispatched_at : Option ℕ
  pub available_at : ℕ
  pub created_at : ℕ

-- `users` are the ids of the table `user`.
pub record Database : Type 0 where
  pub users : List String
  pub organizations : List Organization
  pub workspaces : List Workspace
  pub access_grants : List AccessGrantRow
  pub api_keys : List ApiKey
  pub tenant_connections : List TenantConnection
  pub jobs : List Job
  pub idempotency_records : List IdempotencyRecord
  pub outbox_events : List OutboxEvent

-- `state IN ('queued', 'running')`, the condition of `job_non_terminal_tenant_connection_uidx`.
abbrev pub is_non_terminal : JobState → Bool
is_non_terminal queued = true
is_non_terminal running = true
is_non_terminal completed = false
is_non_terminal failed = false
is_non_terminal cancelled = false

abbrev pub is_running : JobState → Bool
is_running running = true
is_running queued = false
is_running completed = false
is_running failed = false
is_running cancelled = false

abbrev pub is_queued : JobState → Bool
is_queued queued = true
is_queued running = false
is_queued completed = false
is_queued failed = false
is_queued cancelled = false

abbrev pub is_active : TenantConnectionState → Bool
is_active active = true
is_active validating = false
is_active validation_failed = false
is_active detached = false

-- Equality of nullable columns in an index: `NULL` equals nothing.
abbrev pub same_text : Option String → Option String → Bool
same_text none t = false
same_text (some s) none = false
same_text (some s) (some t) = str_eq s t

abbrev pub same_characters : Characters → Characters → Bool
same_characters [] [] = true
same_characters [] (d ∷ ds) = false
same_characters (c ∷ cs) [] = false
same_characters (c ∷ cs) (d ∷ ds) = c == d && same_characters cs ds

-- `job_non_terminal_tenant_connection_uidx`
unfoldable pub jobs_clash : Job → Job → Bool
jobs_clash a b =
    is_non_terminal a.state
    && is_non_terminal b.state
    && a.tenant_connection_id == b.tenant_connection_id

-- `tenant_connection_active_microsoft_tenant_uidx`
unfoldable pub connections_clash : TenantConnection → TenantConnection → Bool
connections_clash a b =
    is_active a.state && is_active b.state && same_text a.microsoft_tenant_id b.microsoft_tenant_id

-- `idempotency_record_organization_key_unique`
unfoldable pub records_clash : IdempotencyRecord → IdempotencyRecord → Bool
records_clash a b = a.organization_id == b.organization_id && str_eq a.key b.key

unfoldable pub jobs_valid : List Job → Bool
unfolding jobs_clash
jobs_valid js = is_distinct (λ a b. a.id == b.id) js && is_distinct jobs_clash js

unfoldable pub connections_valid : List TenantConnection → Bool
unfolding connections_clash
connections_valid cs = is_distinct (λ a b. a.id == b.id) cs && is_distinct connections_clash cs

unfoldable pub records_valid : List IdempotencyRecord → Bool
unfolding records_clash
records_valid rs = is_distinct (λ a b. a.id == b.id) rs && is_distinct records_clash rs

-- The unique columns `prefix` and `secret_hash`.
unfoldable pub api_keys_valid : List ApiKey → Bool
api_keys_valid ks =
    is_distinct (λ a b. a.id == b.id) ks
    && is_distinct (λ a b. same_characters a.prefix b.prefix) ks
    && is_distinct (λ a b. same_characters a.secret_hash b.secret_hash) ks

-- `api_key_scope_workspace_check`
abbrev scope_fits : AccessGrantScope → Option ℕ → Bool
scope_fits organization none = true
scope_fits organization (some w) = false
scope_fits workspace none = false
scope_fits workspace (some w) = true

-- That check and `api_key_expiry_check`.
unfoldable pub api_key_checks : ApiKey → Bool
api_key_checks k = scope_fits k.scope k.workspace_id && ltb k.created_at k.expires_at

unfoldable pub events_valid : List OutboxEvent → Bool
events_valid es = is_distinct (λ a b. a.id == b.id) es
