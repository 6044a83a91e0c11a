-- ===== src/System/Rounds.antt =====
-- apps/worker/src/tenant-validation-worker.ts: a run of the handler and a tick are sequences of the
-- operations.
use inbox_saas.Prelude.{ℕ, inl, inr, Bool, true, false, Option, none, some, String, Bool-cases}
use inbox_saas.Errors.{Result, ok, err}
use inbox_saas.Schema.{Characters, OutboxEvent, Database}
use inbox_saas.Credentials.{TenantCredentials}
use inbox_saas.Validation.Base.{Services, TenantConnectionDto, millis}
use inbox_saas.Validation.Lease.{
  ClaimResult, not_found, claimed, claim_tenant_validation_job, renew_tenant_validation_job_lease,
}
use inbox_saas.Validation.Apply.{ApplyResult, apply_tenant_validation_result}
use inbox_saas.Validation.Recovery.{recover_expired_tenant_validation_jobs}
use inbox_saas.Worker.Dispatch.{tick_after, run_tick}
use inbox_saas.Worker.Process.{
  Round, or_unexpected, request_of, load_credentials, with_permit, after_renewal, after_loading,
  hold, deliver, delivered, after_claiming, lease_duration_ms, process_tenant_validation_job,
}
use inbox_saas.System.Traces.{Reach, stays, joins, claims, renews, applies, recovers, dispatches}

module _ (s : Services) (hash : Characters → Characters) where
  -- What others commit during a run is made of the same operations.
  pub record IsShared (r : Round) : Type 0 where
    pub after_claim : (db : Database) → Reach s hash db (r.after_claim db)
    pub waiting : (db : Database) → Reach s hash db (r.waiting db)
    pub asking : (db : Database) → Reach s hash db (r.asking db)
    pub others : (db : Database) → Reach s hash db (r.others db)
    pub afterwards : (db : Database) → Reach s hash db (r.afterwards db)

  module _ (version : String) (i : ℕ) (r : Round) (h : IsShared r) where
    delivered-Reach :
        (a : Database) (calls : _) (o : Result ApplyResult) (b : Database)
        → Reach s hash a b
        → Reach s hash a (delivered s version i r calls (o, b)).database
    delivered-Reach a calls (err e) b p = p
    delivered-Reach a calls (ok x) b p = p

    deliver-Reach :
        (c : TenantConnectionDto) (token : ℕ) (credentials : TenantCredentials) (db : Database)
        → Reach s hash db (deliver s version i r c token credentials db).database
    deliver-Reach c token credentials db =
        let q = request_of s version i r c credentials in
        let a =
          apply_tenant_validation_result s.driver i token r.result_now r.result_clock r.event_id
            r.others r.afterwards (or_unexpected (r.provisioner q)) (r.asking db) in
        delivered-Reach db _ a.0 a.1 (
          joins (h.asking db) (
            applies i token r.result_now r.result_clock r.event_id r.others r.afterwards
              (or_unexpected (r.provisioner q)) (r.asking db) (h.others (r.asking db))
              (h.afterwards (r.others (r.asking db)))))

    renewed-Reach :
        (c : TenantConnectionDto) (token : ℕ) (credentials : TenantCredentials) (a : Database)
        (o : Result Bool) (db : Database)
        → Reach s hash a db
        → Reach s hash a (after_renewal s version i r c token credentials (o, db)).database
    renewed-Reach c token credentials a (err e) db p = p
    renewed-Reach c token credentials a (ok false) db p = p
    renewed-Reach c token credentials a (ok true) db p =
        joins p (deliver-Reach c token credentials db)

    permit-Reach :
        (c : TenantConnectionDto) (token : ℕ) (credentials : TenantCredentials) (db : Database)
        → Reach s hash db (with_permit s version i r c token credentials db).database
    unfolding with_permit
    permit-Reach c token credentials db = elim (Bool-cases r.timer_lost) [
      | inl e ↦ rw (e, with_permit) (stays db)
      | inr e ↦
          rw (e, with_permit)
            (let a =
                renew_tenant_validation_job_lease s.driver i token r.renewal_now
                  (millis lease_duration_ms) r.renewal_clock db in
              renewed-Reach c token credentials db a.0 a.1
                (renews i token r.renewal_now r.renewal_clock (millis lease_duration_ms) db))
    ]

    loaded-Reach :
        (c : TenantConnectionDto) (token : ℕ) (db : Database) (o : Result TenantCredentials)
        → Reach s hash db (after_loading s version i r c token db o).database
    loaded-Reach c token db (err e) = stays db
    loaded-Reach c token db (ok credentials) =
        joins (h.waiting db) (permit-Reach c token credentials (r.waiting db))

    hold-Reach :
        (c : TenantConnectionDto) (o : Option ℕ) (db : Database)
        → Reach s hash db (hold s version i r c o db).database
    hold-Reach c none db = stays db
    hold-Reach c (some token) db = loaded-Reach c token db (load_credentials s version i r c.id db)

    claimed-Reach :
        (a : Database) (o : Result ClaimResult) (db : Database)
        → Reach s hash a db
        → Reach s hash a (after_claiming s version i r (o, db)).database
    claimed-Reach a (err e) db p = p
    claimed-Reach a (ok not_found) db p = p
    claimed-Reach a (ok (claimed c j)) db p =
        joins p (joins (h.after_claim db) (hold-Reach c j.lease_token (r.after_claim db)))

    -- Whatever a run of the handler comes to, its database is reached by the operations alone: a
    -- claim, a renewal, the application of one result, and what others do in between.
    pub process-Reach :
        (db : Database) → Reach s hash db (process_tenant_validation_job s version i r db).database
    unfolding process_tenant_validation_job
    process-Reach db =
        let a =
          claim_tenant_validation_job s.driver i r.claim_now (millis lease_duration_ms) r.token
            r.claim_clock db in
        claimed-Reach db a.0 a.1
          (claims i r.claim_now r.token r.claim_clock (millis lease_duration_ms) db)

  -- A tick is a recovery and, if it does not throw, a dispatch.
  module _ (takes stands : OutboxEvent → Bool) (clock : ℕ → ℕ) (updated now : ℕ) (fresh : ℕ → ℕ)
      (others meanwhile : Database → Database) (db : Database) (gap : Reach s hash db (others db))
      (between : (x : Database) → Reach s hash x (meanwhile x)) where
    ticked-Reach :
        (a : Database) (o : Result ℕ) (db' : Database)
        → Reach s hash a db'
        → Reach s hash a (tick_after takes stands clock meanwhile now (o, db')).1
    ticked-Reach a (err e) db' p = p
    ticked-Reach a (ok n) db' p =
        joins p (dispatches takes stands clock meanwhile now db' (between db'))

    pub tick-Reach :
        Reach s hash db
          (run_tick takes stands clock s.driver fresh others meanwhile updated now db).1
    unfolding run_tick
    tick-Reach =
        let a = recover_expired_tenant_validation_jobs s.driver now updated fresh others db in
        ticked-Reach db a.0 a.1 (recovers now updated fresh others db gap)
