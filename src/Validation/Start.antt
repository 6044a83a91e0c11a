-- ===== src/Validation/Start.antt =====
-- packages/product/src/tenant-validation.ts: `startTenantValidation`.
pub mod Admission
pub mod Created
pub mod Replay
pub mod Race
pub mod Conflict
use inbox_saas.Prelude.{
  ℕ, Bool, true, false, Option, none, some, List, ◌==◌, ◌&&◌, ◌||◌, not, String, str_eq,
  if◌then◌else◌,
}
use inbox_saas.Errors.{
  Error, Result, ok, err, throw, throw_if, or_throw, ◌>>=◌, ◌>>◌, is_unique_violation,
}
use inbox_saas.Access.{AccessGrant, AccessRequest, write, workspace, is_authorized}
use inbox_saas.Entitlements.{get_organization_entitlement}
use inbox_saas.Table.{select_first}
use inbox_saas.Schema.{
  Bytes, Workspace, JobOperation, tenant_validation, validating, queued,
  tenant_validation_requested, TenantConnection, Job, IdempotencyRecord, OutboxEvent, Database,
}
use inbox_saas.Schema.Statements.{insert_connection, insert_job, insert_record, insert_event}
use inbox_saas.Credentials.{TenantCredentials, EncryptedTenantCredentials}
use inbox_saas.Validation.Base.{
  Services, TenantConnectionDto, to_tenant_connection_dto, find_job, connection_of,
  get_job_with_tenant, Outcome, settle,
}

pub record StartInput : Type 0 where
  pub workspace_id : String
  pub idempotency_key : String
  pub credentials : TenantCredentials

pub data StartResult : Type 0 where
  not_found : StartResult
  idempotency_conflict : StartResult
  accepted : (connection : TenantConnectionDto) → (job : Job) → (reused : Bool) → StartResult

-- The values that are drawn at random: the ids of the new rows and the bytes of the cipher.
pub record Fresh : Type 0 where
  pub connection_id : ℕ
  pub job_id : ℕ
  pub record_id : ℕ
  pub event_id : ℕ
  pub iv : Bytes

unfoldable pub assert_start_input : StartInput → Result (Unit {0})
assert_start_input input = do
  throw_if (str_eq input.idempotency_key "") "Idempotency key is required"
  throw_if (str_eq input.credentials.email "" || str_eq input.credentials.password "")
      "Tenant administrator email and password are required"

-- `eq(workspace.id, input.workspaceId)` makes PostgreSQL read the text as a uuid.
abbrev pub find_workspace : ℕ → Database → Option Workspace
find_workspace i db = select_first (λ w. w.id == i) db.workspaces

abbrev pub read_uuid : Services → String → Result ℕ
read_uuid s text = elim (s.uuid_of text) [ none ↦ err s.invalid_uuid | some i ↦ ok i ]

abbrev pub may_write : List AccessGrant → Workspace → Bool
may_write grants w =
    is_authorized grants
      (record { scope = workspace w.id; organization_id = w.organization_id; permission = write })

abbrev pub find_record : ℕ → String → Database → Option IdempotencyRecord
find_record organization_id key db =
    select_first (λ r. r.organization_id == organization_id && str_eq r.key key)
      db.idempotency_records

abbrev pub is_tenant_validation : JobOperation → Bool
is_tenant_validation tenant_validation = true

-- Neither `operation !== …` nor `payloadFingerprint !== …`.
abbrev pub same_request : IdempotencyRecord → String → Bool
same_request r fingerprint =
    is_tenant_validation r.operation && str_eq r.payload_fingerprint fingerprint

abbrev pub fingerprint_of : Services → StartInput → String
fingerprint_of s input = s.cipher.fingerprint (record {
  credentials = input.credentials;
  workspace_id = input.workspace_id;
  operation = tenant_validation;
})

module _ (s : Services) (input : StartInput) (fresh : Fresh) (clock : ℕ) where
  abbrev pub encrypted_for : Workspace → EncryptedTenantCredentials
  encrypted_for w =
      s.cipher.encrypt fresh.iv input.credentials
        (record { workspace_id = s.uuid_text w.id; operation = tenant_validation })

  abbrev pub new_connection : Workspace → TenantConnection
  new_connection w = record {
    id = fresh.connection_id;
    organization_id = w.organization_id;
    workspace_id = w.id;
    state = validating;
    microsoft_tenant_id = none;
    credential_ciphertext = (encrypted_for w).ciphertext;
    credential_iv = (encrypted_for w).iv;
    credential_auth_tag = (encrypted_for w).auth_tag;
    credential_key_version = (encrypted_for w).key_version;
    created_at = clock;
    updated_at = clock;
  }

  abbrev pub new_job : Job
  new_job = record {
    id = fresh.job_id;
    tenant_connection_id = fresh.connection_id;
    state = queued;
    operation = tenant_validation;
    failure_code = none;
    retryable = none;
    attempt_count = 0;
    available_at = clock;
    lease_expires_at = none;
    lease_token = none;
    created_at = clock;
    updated_at = clock;
  }

  abbrev pub new_record : Workspace → IdempotencyRecord
  new_record w = record {
    id = fresh.record_id;
    organization_id = w.organization_id;
    key = input.idempotency_key;
    operation = tenant_validation;
    payload_fingerprint = fingerprint_of s input;
    job_id = fresh.job_id;
    created_at = clock;
  }

  abbrev pub new_event : OutboxEvent
  new_event = record {
    id = fresh.event_id;
    job_id = fresh.job_id;
    type = tenant_validation_requested;
    payload = fresh.job_id;
    dispatched_at = none;
    available_at = clock;
    created_at = clock;
  }

  -- The four insertions of the transaction.
  unfoldable pub create : Workspace → Database → Result (StartResult × Database)
  create w db = do
    db₁ ← insert_connection s.driver (new_connection w) db
    db₂ ← insert_job s.driver new_job db₁
    db₃ ← insert_record s.driver (new_record w) db₂
    db₄ ← insert_event s.driver new_event db₃
    ok (accepted (to_tenant_connection_dto (new_connection w)) new_job false, db₄)

  -- The answer from a stored record: the same in the transaction and in the handler of a violation.
  unfoldable pub reuse : IdempotencyRecord → Database → Result StartResult
  reuse r db =
      if same_request r (fingerprint_of s input)
      then (do
        j ← or_throw (find_job r.job_id db) "Idempotency record has no job"
        c ← connection_of db j
        ok (accepted (to_tenant_connection_dto c) j true))
      else ok idempotency_conflict

  -- The handler of a unique violation: another session has won the race for the key, or the row
  -- that broke the index was another one.
  unfoldable pub recover_reuse : Workspace → Database → Result StartResult
  recover_reuse w db = elim (find_record w.organization_id input.idempotency_key db) [
    | none ↦ ok idempotency_conflict
    | some r ↦
        if same_request r (fingerprint_of s input)
        then (do
          existing ← get_job_with_tenant db r.job_id
          (j, c) ← or_throw existing "Idempotency record has no job"
          ok (accepted (to_tenant_connection_dto c) j true))
        else ok idempotency_conflict
  ]

  abbrev pub on_failure : Workspace → Database → Error → Outcome StartResult
  on_failure w db e = if is_unique_violation e then (recover_reuse w db, db) else (err e, db)

  abbrev pub catch_violation :
      Workspace → Database → Result (StartResult × Database) → Outcome StartResult
  catch_violation w db (ok (r, db')) = (ok r, db')
  catch_violation w db (err e) = on_failure w db e

  -- The transaction; the key is looked up before the other sessions commit, the rest happens after.
  unfoldable pub start_in_workspace :
      (Database → Database) → Workspace → Database → Outcome StartResult
  start_in_workspace others w db = elim (find_record w.organization_id input.idempotency_key db) [
    | some r ↦ settle (others db) (reuse r (others db) >>= λ a. ok (a, others db))
    | none ↦ catch_violation w (others db) (create w (others db))
  ]

  abbrev pub entitled_start : (Database → Database) → Workspace → Database → Outcome StartResult
  entitled_start others w db = elim (get_organization_entitlement (s.uuid_text w.organization_id)) [
    | err e ↦ (err e, db)
    | ok entitlement ↦
        if not entitlement.entitled
        then (throw "Organization is not entitled to validate tenants", db)
        else start_in_workspace others w db
  ]

  unfoldable pub start_tenant_validation :
      (Database → Database) → List AccessGrant → Database → Outcome StartResult
  unfolding start_in_workspace
  start_tenant_validation others grants db =
      elim (assert_start_input input >> read_uuid s input.workspace_id) [
        | err e ↦ (err e, db)
        | ok i ↦ elim (find_workspace i db) [
          | none ↦ (ok not_found, db)
          | some w ↦ if may_write grants w then entitled_start others w db else (ok not_found, db)
        ]
      ]
