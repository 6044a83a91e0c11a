-- ===== src/System/Completion.antt =====
-- apps/worker/src/tenant-validation-worker.ts: a run of the handler that nothing disturbs, from the
-- claim of a job to its completion.
use inbox_saas.Prelude.{
  ℕ, ◌+◌, ◌<◌, ◌≡◌, refl, ◌∙◌, inl, inr, true, false, none, some, [], ◌∷◌, String, str_eq, arith,
}
use inbox_saas.Errors.{Result, ok}
use inbox_saas.Contract.{TenantValidationRequest, success}
use inbox_saas.Table.Laws.{select_key}
use inbox_saas.Schema.{completed, active, Job, TenantConnection, tenant_validation, Database}
use inbox_saas.Credentials.{TenantCredentials}
use inbox_saas.Validation.Base.{
  Services, to_tenant_connection_dto, find_job, find_connection, millis,
}
use inbox_saas.Validation.Jobs.{move-jobs_valid}
use inbox_saas.Validation.Lease.{
  claimed, is_free, claim_job, claim_tenant_validation_job, renew_tenant_validation_job_lease,
}
use inbox_saas.Validation.Lease.Claims.{
  claim_granted, with_claim, with_claim_found, with_claim_valid, renew-IsMove,
}
use inbox_saas.Validation.Lease.Exclusion.{with_renewal, renew_fenced}
use inbox_saas.Validation.Apply.{ApplyResult, applied, apply_tenant_validation_result}
use inbox_saas.Validation.Apply.Held.{IsHeld}
use inbox_saas.Validation.Apply.Outcomes.{IsApplied, apply_success}
use inbox_saas.System.Leases.{Holds, LeavesAlone, left-Holds, relet, Keeps, Kept, Keeps-Kept}
use inbox_saas.Worker.Process.{
  acquired, asked, released, Round, finished, encrypted_of, request_of, load_credentials,
  with_permit, delivered, process_tenant_validation_job,
}

module _ (s : Services) (version : String) (i : ℕ) (r : Round) (db : Database) (j : Job)
    (c : TenantConnection) (t : String) (credentials : TenantCredentials) where
  abbrev pub claimed_job : Job
  claimed_job = claim_job r.claim_now (r.claim_now + 60000) r.token r.claim_clock j

  abbrev pub renewed_job : Job
  renewed_job = record claimed_job {
    lease_expires_at = some (r.renewal_now + 60000);
    updated_at = r.renewal_clock;
  }

  abbrev pub completed_job : Job
  completed_job = record j {
    attempt_count = j.attempt_count + 1;
    available_at = r.result_now;
    failure_code = none;
    lease_expires_at = none;
    lease_token = none;
    retryable = none;
    state = completed;
    updated_at = r.result_clock;
  }

  abbrev pub active_connection : TenantConnection
  active_connection = record c {
    microsoft_tenant_id = some t;
    state = active;
    updated_at = r.result_clock;
  }

  abbrev pub request : TenantValidationRequest
  request = request_of s version i r (to_tenant_connection_dto c) credentials

  -- A job that can be claimed, credentials that the worker can open, a provisioner that confirms the
  -- tenant, and others who keep to other rows. Before and after the renewal that follows the permit,
  -- the run's timer may renew the lease as often as it likes, until `waited_until` and
  -- `asked_until`; no renewal falls between the read and the write of the last transaction.
  pub record IsUndisturbed : Type 0 where
    pub loaded_until : ℕ
    pub waited_until : ℕ
    pub asked_until : ℕ
    pub rows : Holds i t j c db
    pub free : is_free r.claim_now j ≡ true
    pub few : j.attempt_count < 2147483647
    pub key : str_eq c.credential_key_version version ≡ true
    pub opens :
        s.cipher.decrypt
          (encrypted_of s version i r c)
          (record { workspace_id = s.uuid_text c.workspace_id; operation = tenant_validation })
        ≡ ok credentials
    pub kept : r.timer_lost ≡ false
    pub confirmed : r.provisioner request ≡ some (success t)
    pub after_claim :
        Keeps i j.tenant_connection_id t r.token (r.claim_now + 60000) loaded_until r.after_claim
    pub waiting : Keeps i j.tenant_connection_id t r.token loaded_until waited_until r.waiting
    pub renewed_in_time : r.renewal_now < waited_until
    pub asking :
        Keeps i j.tenant_connection_id t r.token (r.renewal_now + 60000) asked_until r.asking
    pub answered_in_time : r.result_now < asked_until
    pub others : LeavesAlone i j.tenant_connection_id t r.others

  module _ (h : IsUndisturbed) where
    abbrev with_claimed : Database
    with_claimed = with_claim s.driver i r.claim_now 59999 r.token r.claim_clock db h.rows.jobs_hold

    claimed-Holds : Holds i t claimed_job c with_claimed
    claimed-Holds = record {
      job =
          with_claim_found s.driver i r.claim_now 59999 r.token r.claim_clock db h.rows.jobs_hold j
            h.rows.job h.free;
      connection = h.rows.connection;
      free = h.rows.free;
      jobs_hold =
          with_claim_valid s.driver i r.claim_now 59999 r.token r.claim_clock db h.rows.jobs_hold;
      connections_hold = h.rows.connections_hold;
    }

    claims :
        claim_tenant_validation_job s.driver i r.claim_now (millis 60000) r.token r.claim_clock db
        ≡ (ok (claimed (to_tenant_connection_dto c) claimed_job), with_claimed)
    claims =
        claim_granted s.driver i r.claim_now 59999 r.token r.claim_clock db h.rows.jobs_hold j
          h.rows.job h.free (ground (arith, h.few))
        ∙ rw (h.rows.connection) refl

    claimed-Kept : Kept i t r.token (r.claim_now + 60000) claimed_job c with_claimed
    claimed-Kept = record {
      lease = some (r.claim_now + 60000);
      updated = r.claim_clock;
      holds = claimed-Holds;
      leased = λ at early. ground arith;
    }

    loaded-Kept : Kept i t r.token h.loaded_until claimed_job c (r.after_claim with_claimed)
    loaded-Kept = Keeps-Kept r.after_claim with_claimed h.after_claim claimed-Kept

    -- Before the renewal, and after it.
    abbrev waited : Database
    waited = r.waiting (r.after_claim with_claimed)

    waited-Kept : Kept i t r.token h.waited_until claimed_job c waited
    waited-Kept = Keeps-Kept r.waiting (r.after_claim with_claimed) h.waiting loaded-Kept

    abbrev with_renewed : Database
    with_renewed =
        with_renewal s.driver i r.token r.renewal_now 59999 r.renewal_clock waited
          waited-Kept.holds.jobs_hold

    renews :
        (renew_tenant_validation_job_lease s.driver i r.token r.renewal_now
            (millis 60000)
            r.renewal_clock
            waited
          ≡ (ok true, with_renewed))
        × (find_job i with_renewed ≡ some renewed_job)
    renews =
        elim (renew_fenced s.driver i r.token r.renewal_now 59999 r.renewal_clock waited
          waited-Kept.holds.jobs_hold (relet waited-Kept.lease waited-Kept.updated claimed_job)
          waited-Kept.holds.job) [
            | inl (held, done, row) ↦ (done, row)
            | inr (lost, done) ↦
                absurd (cc (lost, waited-Kept.leased r.renewal_now h.renewed_in_time))
          ]

    renewed-Holds : Holds i t renewed_job c with_renewed
    renewed-Holds = record {
      job = renews.1;
      connection = waited-Kept.holds.connection;
      free = waited-Kept.holds.free;
      jobs_hold =
          move-jobs_valid
            (renew-IsMove i r.token r.renewal_now (r.renewal_now + 60000) r.renewal_clock)
            waited.jobs waited-Kept.holds.jobs_hold;
      connections_hold = waited-Kept.holds.connections_hold;
    }

    renewed-Kept : Kept i t r.token (r.renewal_now + 60000) renewed_job c with_renewed
    renewed-Kept = record {
      lease = some (r.renewal_now + 60000);
      updated = r.renewal_clock;
      holds = renewed-Holds;
      leased = λ at early. ground arith;
    }

    abbrev asked_database : Database
    asked_database = r.asking with_renewed

    asked-Kept : Kept i t r.token h.asked_until renewed_job c asked_database
    asked-Kept = Keeps-Kept r.asking with_renewed h.asking renewed-Kept

    -- The job as the last transaction reads it.
    abbrev answered_job : Job
    answered_job = relet asked-Kept.lease asked-Kept.updated renewed_job

    later-Holds : Holds i t answered_job c (r.others asked_database)
    later-Holds = left-Holds r.others _ h.others asked-Kept.holds

    delivery-IsHeld :
        IsHeld i r.token r.result_now asked_database (r.others asked_database) answered_job c
    delivery-IsHeld = record {
      read = asked-Kept.holds.job;
      still = later-Holds.job;
      held = asked-Kept.leased r.result_now h.answered_in_time;
      connection = later-Holds.connection;
      jobs_hold = later-Holds.jobs_hold;
      connections_hold = later-Holds.connections_hold;
    }

    abbrev delivery : Result ApplyResult × Database
    delivery =
        apply_tenant_validation_result s.driver i r.token r.result_now r.result_clock r.event_id
          r.others r.afterwards (success t) asked_database

    connection_id : c.id ≡ j.tenant_connection_id
    connection_id =
        select_key (λ (x : TenantConnection). x.id) j.tenant_connection_id db.tenant_connections
          {r = c} h.rows.connection

    delivery-IsApplied : IsApplied i delivery completed_job active_connection
    delivery-IsApplied =
        (apply_success s.driver i r.token r.result_now r.result_clock r.event_id r.others
          r.afterwards asked_database answered_job c delivery-IsHeld t
          (rw connection_id later-Holds.free)).0

    loads : load_credentials s version i r c.id (r.after_claim with_claimed) ≡ ok credentials
    unfolding load_credentials
    loads = rw (load_credentials, connection_id, loaded-Kept.holds.connection, h.key, h.opens) refl

    -- The run up to its delivery.
    runs :
        process_tenant_validation_job s version i r db
        ≡ delivered s version i r
            (acquired c.organization_id ∷ asked request ∷ released c.organization_id ∷ [])
            delivery
    unfolding process_tenant_validation_job with_permit
    runs = rw (process_tenant_validation_job, claims, loads, h.kept, renews.0, h.confirmed) refl

    -- A run for a job that can be claimed, with less than 2147483647 attempts, in which the worker can open the stored credentials, the
    -- provisioner confirms the tenant `t`, the lease is kept by renewals, however many, until the
    -- answer is applied, none of them inside that last transaction, no other connection is active
    -- for `t`, and others keep to other rows, comes to its end: it answers that the result is
    -- applied, it leaves the job completed, with one more attempt, no lease and no failure, and its
    -- connection active for `t`, and it has given back the permit of the organization after one
    -- request.
    pub process_completes :
        ((process_tenant_validation_job s version i r db).answer
          ≡ ok
              (finished (applied (to_tenant_connection_dto active_connection) completed_job false)))
        × (find_job i (process_tenant_validation_job s version i r db).database
            ≡ some completed_job)
        × (find_connection c.id (process_tenant_validation_job s version i r db).database
            ≡ some active_connection)
        × ((process_tenant_validation_job s version i r db).calls
            ≡ acquired c.organization_id ∷ asked request ∷ released c.organization_id ∷ [])
    process_completes = rw runs (
        by_answer delivery.0 delivery.1 delivery-IsApplied.answer delivery-IsApplied.job_row
          delivery-IsApplied.connection_row)
      where
        by_answer :
            (o : Result ApplyResult) (db' : Database)
            → o ≡ ok (applied (to_tenant_connection_dto active_connection) completed_job false)
            → find_job i db' ≡ some completed_job
            → find_connection c.id db' ≡ some active_connection
            → let run =
                delivered s version i r
                  (acquired c.organization_id ∷ asked request ∷ released c.organization_id ∷ [])
                  (o, db') in
              (run.answer
                ≡ ok (
                    finished
                      (applied (to_tenant_connection_dto active_connection) completed_job false)))
              × (find_job i run.database ≡ some completed_job)
              × (find_connection c.id run.database ≡ some active_connection)
              × (run.calls
                  ≡ acquired c.organization_id ∷ asked request ∷ released c.organization_id ∷ [])
        by_answer o db' e p q = rw e (refl, p, q, refl)
