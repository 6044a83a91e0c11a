-- ===== src/Worker/Calls.antt =====
-- apps/worker/src/tenant-validation-worker.ts, `processTenantValidationJob`: what a run does outside
-- the database, and when.
use inbox_saas.Prelude.{
  ℕ, ◌+◌, ◌≡◌, refl, inl, inr, Bool, true, false, Option, none, some, List, [], ◌∷◌, String, first,
  some_of, arith, Bool-cases, subst, sym,
}
use inbox_saas.Errors.{Result, ok, err, Result-cases}
use inbox_saas.Table.{update_where, returning}
use inbox_saas.Schema.{Job, Database}
use inbox_saas.Schema.Statements.{Driver, store_jobs}
use inbox_saas.Credentials.{TenantCredentials}
use inbox_saas.Validation.Base.{
  Services, TenantConnectionDto, Duration, millis, connection_of, positive_duration,
}
use inbox_saas.Validation.Lease.{
  ClaimResult, not_found, claimed, claim_tenant_validation_job, is_claimable, claim_job, is_fenced,
  is_some, is_overflown, extend_job, renew_tenant_validation_job_lease, show_claimed,
}
use inbox_saas.Validation.Apply.{ApplyResult}
use inbox_saas.Contract.{TenantValidationRequest}
use inbox_saas.Worker.Process.{
  Call, acquired, released, asked, Round, lease_duration_ms, process_tenant_validation_job,
  after_renewal, with_permit, delivered, after_loading, after_claiming, load_credentials,
  request_of,
}

-- The traces that a run may leave: nothing; a permit that goes back; or a permit, under it one
-- request for this job at a moment when `db` has the job leased to `token` at `now`, and the return
-- of the permit.
pub data Fits (job_id token now : ℕ) (db : Database) : List Call → Type 0 where
  untouched : Fits job_id token now db []
  permitted :
      (organization_id : ℕ)
      → Fits job_id token now db (acquired organization_id ∷ released organization_id ∷ [])
  requested :
      (organization_id : ℕ) (q : TenantValidationRequest)
      → q.job_id ≡ job_id
      → some_of (is_fenced job_id token now) db.jobs ≡ true
      → Fits job_id token now db
          (acquired organization_id ∷ asked q ∷ released organization_id ∷ [])

-- An outcome that answers `true` has found the job leased to its token.
IsFound : ℕ → ℕ → ℕ → Database → Result Bool × Database → Type 0
IsFound i token now db (err e, db') = Unit
IsFound i token now db (ok false, db') = Unit
IsFound i token now db (ok true, db') = some_of (is_fenced i token now) db.jobs ≡ true

returned_some :
    (p : Job → Bool) (f : Job → Job) (rs : List Job)
    → is_some (first (returning p f rs)) ≡ some_of p rs
returned_some p f [] = refl
returned_some p f (r ∷ rs) = ground (arith, returned_some p f rs)

renew-IsFound :
    (d : Driver) (i token now clock : ℕ) (ms : Duration) (db : Database)
    → IsFound i token now db (renew_tenant_validation_job_lease d i token now ms clock db)
unfolding renew_tenant_validation_job_lease IsFound
renew-IsFound d i token now clock ms db = elim (Result-cases (positive_duration ms)) [
  | inr (t, e) ↦ rw (renew_tenant_validation_job_lease, e) tt
  | inl (n, e) ↦
      let p = is_fenced i token now in
      let f = extend_job (now + n) clock in
      elim (Result-cases (store_jobs d (update_where p f db.jobs) db)) [
        | inr (t, q) ↦ rw (renew_tenant_validation_job_lease, e, q) tt
        | inl (db', q) ↦
            rw (renew_tenant_validation_job_lease, e, q, returned_some p f db.jobs)
              (found db' (some_of p db.jobs) refl)
      ]
]
  where
    found :
        (db' : Database) (b : Bool)
        → some_of (is_fenced i token now) db.jobs ≡ b
        → IsFound i token now db (ok b, db')
    found db' false h = tt
    found db' true h = h

-- A claimed job carries the token of its claim.
HasToken : ℕ → Result ClaimResult × Database → Type 0
HasToken token (err e, db) = Unit
HasToken token (ok not_found, db) = Unit
HasToken token (ok (claimed c j), db) = j.lease_token ≡ some token

OptHasToken : ℕ → Option Job → Type 0
OptHasToken token none = Unit
OptHasToken token (some j) = j.lease_token ≡ some token

returned-OptHasToken :
    (token : ℕ) (p : Job → Bool) (f : Job → Job) (rs : List Job)
    → ((j : Job) → (f j).lease_token ≡ some token)
    → OptHasToken token (first (returning p f rs))
unfolding OptHasToken
returned-OptHasToken token p f [] h = tt
returned-OptHasToken token p f (r ∷ rs) h = elim (Bool-cases (p r)) [
  | inl e ↦ rw e (h r)
  | inr e ↦ rw e (returned-OptHasToken token p f rs h)
]

shown-HasToken :
    (token : ℕ) (db : Database) (o : Option Job)
    → OptHasToken token o
    → HasToken token (show_claimed db o)
unfolding HasToken OptHasToken
shown-HasToken token db none h = tt
shown-HasToken token db (some j) h = elim (Result-cases (connection_of db j)) [
  | inl (c, e) ↦ rw e h
  | inr (t, e) ↦ rw e tt
]

claim-HasToken :
    (d : Driver) (i now token clock : ℕ) (ms : Duration) (db : Database)
    → HasToken token (claim_tenant_validation_job d i now ms token clock db)
unfolding claim_tenant_validation_job HasToken
claim-HasToken d i now token clock ms db = elim (Result-cases (positive_duration ms)) [
  | inr (t, e) ↦ rw (claim_tenant_validation_job, e) tt
  | inl (n, e) ↦
      let p = is_claimable i now in
      let f = claim_job now (now + n) token clock in
      elim (Bool-cases (is_overflown (first (returning p f db.jobs)))) [
        | inl over ↦ rw (claim_tenant_validation_job, e, over) tt
        | inr fits ↦ elim (Result-cases (store_jobs d (update_where p f db.jobs) db)) [
          | inr (t, q) ↦ rw (claim_tenant_validation_job, e, fits, q) tt
          | inl (db', q) ↦
              rw (claim_tenant_validation_job, e, fits, q)
                (shown-HasToken token db' (first (returning p f db.jobs))
                  (returned-OptHasToken token p f db.jobs (λ j. refl)))
        ]
      ]
]

module _ (s : Services) (version : String) (job_id : ℕ) (r : Round) where
  -- The database at the moment of the renewal before the request.
  abbrev pub before_request : Database → Database
  before_request db = r.waiting (
      r.after_claim
        (claim_tenant_validation_job s.driver job_id r.claim_now (millis lease_duration_ms) r.token
          r.claim_clock db).1)

  delivered-calls :
      (calls : List Call) (o : Result ApplyResult × Database)
      → (delivered s version job_id r calls o).calls ≡ calls
  delivered-calls calls (err e, db) = refl
  delivered-calls calls (ok a, db) = refl

  after_renewal-Fits :
      (c : TenantConnectionDto) (credentials : TenantCredentials) (db : Database)
      (o : Result Bool × Database)
      → IsFound job_id r.token r.renewal_now db o
      → Fits job_id r.token r.renewal_now db
          (after_renewal s version job_id r c r.token credentials o).calls
  unfolding IsFound
  after_renewal-Fits c credentials db (err e, db') h = permitted c.organization_id
  after_renewal-Fits c credentials db (ok false, db') h = permitted c.organization_id
  after_renewal-Fits c credentials db (ok true, db') h =
      subst (Fits job_id r.token r.renewal_now db) (sym (delivered-calls _ _))
        (requested c.organization_id (request_of s version job_id r c credentials) refl h)

  with_permit-Fits :
      (c : TenantConnectionDto) (credentials : TenantCredentials) (db : Database)
      → Fits job_id r.token r.renewal_now db
          (with_permit s version job_id r c r.token credentials db).calls
  unfolding with_permit
  with_permit-Fits c credentials db = elim (Bool-cases r.timer_lost) [
    | inl e ↦ rw e (permitted c.organization_id)
    | inr e ↦ rw e (
        after_renewal-Fits c credentials db _ (
          renew-IsFound s.driver job_id r.token r.renewal_now r.renewal_clock
            (millis lease_duration_ms) db))
  ]

  loaded-Fits :
      (c : TenantConnectionDto) (db : Database) (o : Result TenantCredentials)
      → Fits job_id r.token r.renewal_now
          (r.waiting db)
          (after_loading s version job_id r c r.token db o).calls
  loaded-Fits c db (err e) = untouched
  loaded-Fits c db (ok credentials) = with_permit-Fits c credentials (r.waiting db)

  claimed-Fits :
      (o : Result ClaimResult × Database)
      → HasToken r.token o
      → Fits job_id r.token r.renewal_now
          (r.waiting (r.after_claim o.1))
          (after_claiming s version job_id r o).calls
  unfolding HasToken
  claimed-Fits (err e, db) h = untouched
  claimed-Fits (ok not_found, db) h = untouched
  claimed-Fits (ok (claimed c j), db) h = rw h (
      loaded-Fits c (r.after_claim db)
        (load_credentials s version job_id r c.id (r.after_claim db)))

  -- Whatever the rest of the system does meanwhile and however the run ends: it asks the provisioner
  -- at most once, only for its job and only while the database has the job leased to this run; it
  -- holds a permit while it asks; and each permit that it takes goes back exactly once.
  pub process-Fits :
      (db : Database)
      → Fits job_id r.token r.renewal_now
          (before_request db)
          (process_tenant_validation_job s version job_id r db).calls
  unfolding process_tenant_validation_job
  process-Fits db = claimed-Fits _ (
      claim-HasToken s.driver job_id r.claim_now r.token r.claim_clock (millis lease_duration_ms)
        db)
