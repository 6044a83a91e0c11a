-- ===== src/Tests/Working.antt =====
-- Examples of leases and of delivered results.
use inbox_saas.Prelude.{
  ℕ, ◌≡◌, ◌↔◌, ◌+◌, ◌<◌, ◌⊎◌, refl, true, false, none, some, [], ◌∷◌, ◌++◌, length, arith,
}
use inbox_saas.Errors.{ok, is_unique_violation}
use inbox_saas.Contract.{success, failure, invalid_credentials, microsoft_unavailable}
use inbox_saas.Table.{is_distinct, select_first, insert_row}
use inbox_saas.Schema.{
  Database, Job, TenantConnection, queued, completed, failed, validating, validation_failed,
  tenant_validation_requested, active, jobs_clash, connections_clash, jobs_valid, connections_valid,
  events_valid,
}
use inbox_saas.Schema.Statements.{store_jobs, store_connections, insert_event}
use inbox_saas.Validation.Base.{millis, positive_duration, find_job}
use inbox_saas.Validation.Start.{new_connection}
use inbox_saas.Validation.Lease.{
  claimed, not_found, claim_job, holds_lease, claim_tenant_validation_job,
  renew_tenant_validation_job_lease,
}
use inbox_saas.Validation.Lease.Exclusion.{with_renewal, claim_exclusive, claim_holds, renew_fenced}
use inbox_saas.Validation.Apply.{apply_tenant_validation_result}
use inbox_saas.Validation.Apply.Fence.{ChangesNothing, apply_fenced}
use inbox_saas.Validation.Apply.Held.{IsHeld}
use inbox_saas.Validation.Apply.Outcomes.{
  IsApplied, apply_success, apply_failure, apply_retry, apply_collision,
}
use inbox_saas.Validation.Recovery.{recover_expired_tenant_validation_jobs}
use inbox_saas.Validation.Recovery.Rows.{left_jobs, run_out, requeued, events_from}
use inbox_saas.Validation.Recovery.Requeued.{recover_lem}
use inbox_saas.Tests.Fixtures.{driver, services, input, draws, default_workspace}
use inbox_saas.Tests.Starting.{started, dto, queued_job}

-- What claims, renewals and deliveries compute with.
working : Unit {0}
unfolding store_jobs store_connections insert_event jobs_clash connections_clash jobs_valid
    connections_valid events_valid is_distinct select_first is_unique_violation positive_duration
    claim_tenant_validation_job
working = tt

-- The job of the fixtures, claimed at time 5000 for a minute under token 70.
abbrev running_job : Job
running_job = claim_job 5000 65000 70 5000 queued_job

abbrev held_database : Database
held_database = record started { jobs = running_job ∷ [] }

abbrev pub connection : TenantConnection
connection = new_connection services input draws 1000 default_workspace

started_valid : jobs_valid started.jobs ≡ true
unfolding working
started_valid = refl

first_claim :
    claim_tenant_validation_job driver 40 5000 (millis 60000) 70 5000 started
    ≡ (ok (claimed dto running_job), held_database)
unfolding working
first_claim = refl

claim_exclusive_example :
    claim_tenant_validation_job driver 40 64999 (millis 1000) 71 64999 held_database
    ≡ (ok not_found, held_database)
claim_exclusive_example =
    claim_exclusive driver 40 5000 59999 70 5000 started held_database dto running_job started_valid
      first_claim 64999 999 71 64999 (omega arith)

claim_holds_example :
    (find_job 40 held_database ≡ some running_job)
    × ((k : Job) → find_job 40 started ≡ some k → 1 ≡ k.attempt_count + 1)
    × ((t at : ℕ) → (holds_lease t at running_job ≡ true) ↔ ((t ≡ 70) × (at < 65000)))
claim_holds_example =
    claim_holds driver 40 5000 59999 70 5000 started held_database dto running_job started_valid
      first_claim

held_valid : jobs_valid held_database.jobs ≡ true
unfolding working
held_valid = refl

held_found : find_job 40 held_database ≡ some running_job
unfolding working
held_found = refl

renew_fenced_example :
    ((holds_lease 70 30000 running_job ≡ true)
      × (renew_tenant_validation_job_lease driver 40 70 30000 (millis 60000) 30000 held_database
          ≡ (ok true, with_renewal driver 40 70 30000 59999 30000 held_database held_valid))
      × (find_job 40 (with_renewal driver 40 70 30000 59999 30000 held_database held_valid)
          ≡ some (record running_job { lease_expires_at = some 90000; updated_at = 30000 })))
    ⊎ ((holds_lease 70 30000 running_job ≡ false)
        × (renew_tenant_validation_job_lease driver 40 70 30000 (millis 60000) 30000 held_database
            ≡ (ok false, held_database)))
renew_fenced_example =
    renew_fenced driver 40 70 30000 59999 30000 held_database held_valid running_job held_found

-- Token 70 delivers after another worker has claimed the job under token 71.
abbrev reclaimed : Database
reclaimed = record started { jobs = claim_job 65000 125000 71 65000 running_job ∷ [] }

apply_fenced_example : ChangesNothing driver 40 70 65001 65001 80 (success "tenant-1") reclaimed (
    apply_tenant_validation_result driver 40 70 65001 65001 80
      (λ d. reclaimed)
      (λ d. d)
      (success "tenant-1")
      held_database)
unfolding working
apply_fenced_example =
    apply_fenced driver 40 70 65001 65001 80 (success "tenant-1") (λ d. reclaimed) (λ d. d)
      held_database refl (λ x e. ground arith)

held : IsHeld 40 70 6000 held_database held_database running_job connection
unfolding working
held = record {
  read = refl;
  still = refl;
  held = refl;
  connection = refl;
  jobs_hold = refl;
  connections_hold = refl;
}

apply_success_example :
    IsApplied 40
      (apply_tenant_validation_result driver 40 70 6000 6000 80
        (λ d. d)
        (λ d. d)
        (success "tenant-1")
        held_database)
      (record running_job {
        available_at = 6000;
        failure_code = none;
        lease_expires_at = none;
        lease_token = none;
        retryable = none;
        state = completed;
        updated_at = 6000;
      })
      (record connection {
        microsoft_tenant_id = some "tenant-1";
        state = active;
        updated_at = 6000;
      })
    × ((apply_tenant_validation_result driver 40 70 6000 6000 80
          (λ d. d)
          (λ d. d)
          (success "tenant-1")
          held_database).1.outbox_events
        ≡ started.outbox_events)
apply_success_example =
    apply_success driver 40 70 6000 6000 80 (λ d. d) (λ d. d) held_database running_job connection
      held "tenant-1" refl

apply_failure_example :
    IsApplied 40
      (apply_tenant_validation_result driver 40 70 6000 6000 80
        (λ d. d)
        (λ d. d)
        (failure invalid_credentials false)
        held_database)
      (record running_job {
        available_at = 6000;
        failure_code = some "invalid_credentials";
        lease_expires_at = none;
        lease_token = none;
        retryable = some false;
        state = failed;
        updated_at = 6000;
      })
      (record connection { state = validation_failed; updated_at = 6000 })
    × ((apply_tenant_validation_result driver 40 70 6000 6000 80
          (λ d. d)
          (λ d. d)
          (failure invalid_credentials false)
          held_database).1.outbox_events
        ≡ started.outbox_events)
apply_failure_example =
    apply_failure driver 40 70 6000 6000 80 (λ d. d) (λ d. d) held_database running_job connection
      held invalid_credentials false refl

apply_retry_example :
    IsApplied 40
      (apply_tenant_validation_result driver 40 70 6000 6000 80
        (λ d. d)
        (λ d. d)
        (failure microsoft_unavailable true)
        held_database)
      (record running_job {
        available_at = 66000;
        failure_code = some "microsoft_unavailable";
        lease_expires_at = none;
        lease_token = none;
        retryable = some true;
        state = queued;
        updated_at = 6000;
      })
      (record connection { state = validating; updated_at = 6000 })
    × ((apply_tenant_validation_result driver 40 70 6000 6000 80
          (λ d. d)
          (λ d. d)
          (failure microsoft_unavailable true)
          held_database).1.outbox_events
        ≡ insert_row
            (record {
              id = 80;
              job_id = 40;
              type = tenant_validation_requested;
              payload = 40;
              dispatched_at = none;
              available_at = 66000;
              created_at = 6000;
            })
            started.outbox_events)
unfolding working
apply_retry_example =
    apply_retry driver 40 70 6000 6000 80 (λ d. d) (λ d. d) held_database running_job connection
      held microsoft_unavailable (omega arith) (omega arith) refl

-- Another workspace's connection holds the Microsoft tenant.
abbrev contended : Database
contended = record held_database {
  tenant_connections =
      record connection { id = 39; microsoft_tenant_id = some "tenant-1"; state = active }
      ∷ connection
      ∷ [];
}

contended_held : IsHeld 40 70 6000 contended contended running_job connection
unfolding working
contended_held = record {
  read = refl;
  still = refl;
  held = refl;
  connection = refl;
  jobs_hold = refl;
  connections_hold = refl;
}

apply_collision_example :
    IsApplied 40
      (apply_tenant_validation_result driver 40 70 6000 6000 80
        (λ d. d)
        (λ d. d)
        (success "tenant-1")
        contended)
      (record running_job {
        available_at = 6000;
        failure_code = some "tenant_already_connected";
        lease_expires_at = none;
        lease_token = none;
        retryable = some false;
        state = failed;
        updated_at = 6000;
      })
      (record connection { state = validation_failed; updated_at = 6000 })
    × ((apply_tenant_validation_result driver 40 70 6000 6000 80
          (λ d. d)
          (λ d. d)
          (success "tenant-1")
          contended).1.outbox_events
        ≡ contended.outbox_events)
unfolding working
apply_collision_example =
    apply_collision driver 40 70 6000 6000 80 (λ d. d) (λ d. d) contended running_job connection
      contended_held "tenant-1" connection refl refl contended_held

-- A recovery at 70000, after the lease of the fixtures' job.
abbrev fresh_ids : ℕ → ℕ
fresh_ids k = 90 + k

recover_lem_example :
    recover_expired_tenant_validation_jobs driver 70000 70000 fresh_ids (λ d. d) held_database ≡ (
      ok (
          length
            (left_jobs driver 70000 70000 fresh_ids held_database (run_out 70000 held_database))),
      record held_database {
        jobs =
            requeued driver 70000 70000 fresh_ids (run_out 70000 held_database) held_database.jobs;
        outbox_events =
            held_database.outbox_events
            ++ events_from driver 70000 70000 fresh_ids 0 (
                left_jobs driver 70000 70000 fresh_ids held_database (run_out 70000 held_database));
      },
    )
unfolding working
recover_lem_example = recover_lem driver 70000 70000 fresh_ids (λ d. d) held_database refl refl refl

recovered_test :
    length (left_jobs driver 70000 70000 fresh_ids held_database (run_out 70000 held_database)) ≡ 1
unfolding working
recovered_test = refl
