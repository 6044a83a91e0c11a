-- ===== src/Validation/Apply.antt =====
-- packages/product/src/tenant-validation.ts: `applyTenantValidationResult`.
-- `others` is what other sessions commit in the first transaction after the job is read,
-- `afterwards` the same in the second one, which runs after a unique violation.
pub mod Connections
pub mod Writes
pub mod Fence
pub mod Held
pub mod Outcomes
use inbox_saas.Prelude.{
  ℕ, ◌+◌, Bool, true, false, Option, none, some, List, [], ◌∷◌, ◌==◌, ltb, leb, ◌&&◌, ◌||◌, not,
  opt_is, first, String, if◌then◌else◌,
}
use inbox_saas.Errors.{Error, Result, ok, err, or_throw, ◌>>=◌, is_unique_violation}
use inbox_saas.Contract.{TenantValidationResult, success, failure, failure_text}
use inbox_saas.Table.{update_where, returning}
use inbox_saas.Schema.{
  TenantConnection, validating, active, validation_failed, Job, queued, completed, failed,
  is_running, tenant_validation_requested, OutboxEvent, Database,
}
use inbox_saas.Schema.Statements.{Driver, store_jobs, store_connections, insert_event}
use inbox_saas.Validation.Base.{
  TenantConnectionDto, to_tenant_connection_dto, retry_available_at, find_job, connection_of,
  Outcome, settle,
}
use inbox_saas.Validation.Lease.{is_fenced}

pub data ApplyResult : Type 0 where
  not_found : ApplyResult
  stale : ApplyResult
  applied : (connection : TenantConnectionDto) → (job : Job) → (reused : Bool) → ApplyResult

-- `!leaseExpiresAt || leaseExpiresAt <= now`
abbrev pub is_over : Option ℕ → ℕ → Bool
is_over none now = true
is_over (some t) now = leb t now

abbrev pub is_stale : ℕ → ℕ → Job → Bool
is_stale token now j =
    not (is_running j.state) || not (opt_is j.lease_token token) || is_over j.lease_expires_at now

abbrev pub should_retry : TenantValidationResult → ℕ → Bool
should_retry (success t) attempts = false
should_retry (failure code retryable) attempts = retryable && ltb attempts 3

abbrev pub tenant_update : TenantValidationResult → Bool → ℕ → TenantConnection → TenantConnection
tenant_update (success t) retry clock c = record c {
  microsoft_tenant_id = some t;
  state = active;
  updated_at = clock;
}
tenant_update (failure code retryable) retry clock c = record c {
  state = if retry then validating else validation_failed;
  updated_at = clock;
}

abbrev pub job_update : TenantValidationResult → Bool → ℕ → ℕ → Job → Job
job_update (success t) retry available clock j = record j {
  available_at = available;
  failure_code = none;
  lease_expires_at = none;
  lease_token = none;
  retryable = none;
  state = completed;
  updated_at = clock;
}
job_update (failure code retryable) true available clock j = record j {
  available_at = available;
  failure_code = some (failure_text code);
  lease_expires_at = none;
  lease_token = none;
  retryable = some true;
  state = queued;
  updated_at = clock;
}
job_update (failure code retryable) false available clock j = record j {
  available_at = available;
  failure_code = some (failure_text code);
  lease_expires_at = none;
  lease_token = none;
  retryable = some retryable;
  state = failed;
  updated_at = clock;
}

abbrev pub collision_update : ℕ → ℕ → Job → Job
collision_update now clock j = record j {
  available_at = now;
  failure_code = some "tenant_already_connected";
  lease_expires_at = none;
  lease_token = none;
  retryable = some false;
  state = failed;
  updated_at = clock;
}

abbrev pub reject_connection : ℕ → TenantConnection → TenantConnection
reject_connection clock c = record c { state = validation_failed; updated_at = clock }

abbrev pub is_success : TenantValidationResult → Bool
is_success (success t) = true
is_success (failure code retryable) = false

module _ (d : Driver) (job_id token now clock event_id : ℕ) where
  abbrev pub retry_event : ℕ → ℕ → OutboxEvent
  retry_event i available = record {
    id = event_id;
    job_id = i;
    type = tenant_validation_requested;
    payload = i;
    dispatched_at = none;
    available_at = available;
    created_at = clock;
  }

  -- The fenced update of the job, then the update of its connection: what the two transactions
  -- share, for the updates that each makes and what it does last.
  unfoldable pub write_result :
      (Job → Job)
      → (TenantConnection → TenantConnection)
      → String
      → (Job → Database → Result Database)
      → Job
      → TenantConnection
      → Database
      → Result (ApplyResult × Database)
  write_result f g message finish j c db = do
    let p = is_fenced j.id token now
    db₁ ← store_jobs d (update_where p f db.jobs) db
    elim (first (returning p f db.jobs)) [
      | none ↦ ok (stale, db₁)
      | some j' ↦ do
        let q = λ (x : TenantConnection). x.id == c.id
        db₂ ← store_connections d (update_where q g db₁.tenant_connections) db₁
        c' ← or_throw (first (returning q g db₁.tenant_connections)) message
        db₃ ← finish j' db₂
        ok (applied (to_tenant_connection_dto c') j' false, db₃)
    ]

  abbrev pub retry_last : Bool → ℕ → Job → Database → Result Database
  retry_last retry available j db =
      if retry then insert_event d (retry_event j.id available) db else ok db

  abbrev pub available_after : Bool → ℕ → Result ℕ
  available_after retry attempts = if retry then retry_available_at attempts now else ok now

  unfoldable pub apply_held :
      TenantValidationResult → Job → Database → Result (ApplyResult × Database)
  apply_held result j db = do
    c ← connection_of db j
    let retry = should_retry result j.attempt_count
    available ← available_after retry j.attempt_count
    write_result (job_update result retry available clock) (tenant_update result retry clock)
        "Failed to apply tenant validation result" (retry_last retry available) j c db

  unfoldable pub collide_held : Job → Database → Result (ApplyResult × Database)
  collide_held j db = do
    c ← connection_of db j
    write_result (collision_update now clock) (reject_connection clock)
        "Failed to apply tenant validation collision result" (λ _ db'. ok db') j c db

  -- The reads of a transaction: the job as it stands, and the rest after the others' commits.
  abbrev pub with_lease :
      (Job → Database → Result (ApplyResult × Database))
      → Database
      → Database
      → Result (ApplyResult × Database)
  with_lease body db later = elim (find_job job_id db) [
    | none ↦ ok (not_found, later)
    | some j ↦ if is_stale token now j then ok (stale, later) else body j later
  ]

  abbrev pub catch_collision :
      (Database → Database)
      → TenantValidationResult
      → Database
      → Result (ApplyResult × Database)
      → Outcome ApplyResult
  catch_collision afterwards result db (ok (r, db')) = (ok r, db')
  catch_collision afterwards result db (err e) =
      if not (is_unique_violation e) || not (is_success result)
      then (err e, db)
      else settle (afterwards db) (with_lease collide_held db (afterwards db))

  unfoldable pub apply_tenant_validation_result :
      (others afterwards : Database → Database)
      → TenantValidationResult
      → Database
      → Outcome ApplyResult
  apply_tenant_validation_result others afterwards result db =
      catch_collision afterwards result (others db) (with_lease (apply_held result) db (others db))
