-- ===== src/Validation/Recovery.antt =====
-- packages/product/src/tenant-validation.ts: `recoverExpiredTenantValidationJobs`.
-- `fresh k` is the id drawn for the k-th event of the transaction.
pub mod Rows
pub mod Requeued
use inbox_saas.Prelude.{ℕ, suc, Bool, none, some, List, [], ◌∷◌, ◌==◌, ◌&&◌, keep, first}
use inbox_saas.Errors.{Result, ok, err}
use inbox_saas.Table.{update_where, returning}
use inbox_saas.Schema.{Job, queued, is_running, tenant_validation_requested, OutboxEvent, Database}
use inbox_saas.Schema.Statements.{Driver, store_jobs, insert_event}
use inbox_saas.Validation.Base.{is_due, Outcome, settle}
use inbox_saas.Validation.Start.{is_tenant_validation}

abbrev pub is_expired : ℕ → Job → Bool
is_expired now j = is_running j.state && is_due j.lease_expires_at now

-- The rows that the loop goes through.
abbrev pub expired_jobs : ℕ → Database → List Job
expired_jobs now db = keep (λ j. is_tenant_validation j.operation && is_expired now j) db.jobs

abbrev pub requeue_job : ℕ → ℕ → Job → Job
requeue_job now clock j = record j {
  available_at = now;
  lease_expires_at = none;
  lease_token = none;
  state = queued;
  updated_at = clock;
}

abbrev pub is_recoverable : ℕ → ℕ → Job → Bool
is_recoverable i now j = j.id == i && is_expired now j

module _ (d : Driver) (now clock : ℕ) (fresh : ℕ → ℕ) where
  abbrev pub recovery_event : ℕ → ℕ → OutboxEvent
  recovery_event event_id job_id = record {
    id = event_id;
    job_id = job_id;
    type = tenant_validation_requested;
    payload = job_id;
    dispatched_at = none;
    available_at = now;
    created_at = clock;
  }

  -- The loop over the expired jobs; `count` is `recoveredCount`.
  unfoldable pub recover_each : List Job → ℕ → Database → Result (ℕ × Database)
  recover_each [] count db = ok (count, db)
  recover_each (x ∷ xs) count db =
      let p = is_recoverable x.id now in
      let f = requeue_job now clock in
      elim (store_jobs d (update_where p f db.jobs) db) [
        | err e ↦ err e
        | ok db₁ ↦ elim (first (returning p f db.jobs)) [
          | none ↦ recover_each xs count db₁
          | some j ↦ elim (insert_event d (recovery_event (fresh count) j.id) db₁) [
            | err e ↦ err e
            | ok db₂ ↦ recover_each xs (suc count) db₂
          ]
        ]
      ]

  -- Other sessions commit between the selection and the updates.
  unfoldable pub recover_expired_tenant_validation_jobs :
      (Database → Database) → Database → Outcome ℕ
  recover_expired_tenant_validation_jobs others db =
      settle (others db) (recover_each (expired_jobs now db) 0 (others db))
