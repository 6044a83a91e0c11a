-- ===== src/Validation/Lease.antt =====
-- packages/product/src/tenant-validation.ts: `claimTenantValidationJob` and
-- `renewTenantValidationJobLease`. The new lease token is an argument.
pub mod Claims
pub mod Exclusion
use inbox_saas.Prelude.{
  ℕ, ◌+◌, Bool, true, false, Option, none, some, List, [], ◌∷◌, ◌==◌, leb, ◌&&◌, ◌||◌, opt_is,
  first, if◌then◌else◌,
}
use inbox_saas.Errors.{Error, Result, ok, err, ◌>>=◌}
use inbox_saas.Table.{update_where, returning}
use inbox_saas.Schema.{Job, running, is_running, is_queued, Database}
use inbox_saas.Schema.Statements.{Driver, store_jobs}
use inbox_saas.Validation.Base.{
  TenantConnectionDto, to_tenant_connection_dto, connection_of, is_due, is_ahead, Duration,
  positive_duration, Outcome,
}

pub data ClaimResult : Type 0 where
  not_found : ClaimResult
  claimed : (connection : TenantConnectionDto) → (job : Job) → ClaimResult

-- The state and the times under which a job may be claimed.
abbrev pub is_free : ℕ → Job → Bool
is_free now j =
    (is_queued j.state && leb j.available_at now)
    || (is_running j.state && is_due j.lease_expires_at now)

abbrev pub is_claimable : ℕ → ℕ → Job → Bool
is_claimable i now j = j.id == i && is_free now j

abbrev pub claim_job : ℕ → ℕ → ℕ → ℕ → Job → Job
claim_job now expires token clock j = record j {
  attempt_count = j.attempt_count + 1;
  available_at = now;
  lease_expires_at = some expires;
  lease_token = some token;
  state = running;
  updated_at = clock;
}

abbrev pub show_claimed : Database → Option Job → Outcome ClaimResult
show_claimed db none = (ok not_found, db)
show_claimed db (some j) =
    ((connection_of db j >>= λ c. ok (claimed (to_tenant_connection_dto c) j)), db)

-- The attempts of the updated row, of which there is one at most, exceed their column, an `integer`.
abbrev pub is_overflown : Option Job → Bool
is_overflown none = false
is_overflown (some j) = leb 2147483648 j.attempt_count

-- The update is a statement of its own: a throw after it leaves it standing.
unfoldable pub claim_tenant_validation_job :
    Driver → (job_id now : ℕ) → Duration → (token clock : ℕ) → Database → Outcome ClaimResult
claim_tenant_validation_job d job_id now duration token clock db =
    elim (positive_duration duration) [
      | err e ↦ (err e, db)
      | ok ms ↦
          let p = is_claimable job_id now in
          let f = claim_job now (now + ms) token clock in
          if is_overflown (first (returning p f db.jobs))
          then (err d.out_of_range, db)
          else elim (store_jobs d (update_where p f db.jobs) db) [
            | err e ↦ (err e, db)
            | ok db' ↦ show_claimed db' (first (returning p f db.jobs))
          ]
    ]

-- `running`, under this token, with a lease that has not run out.
abbrev pub holds_lease : ℕ → ℕ → Job → Bool
holds_lease token now j =
    is_running j.state && opt_is j.lease_token token && is_ahead j.lease_expires_at now

abbrev pub is_fenced : ℕ → ℕ → ℕ → Job → Bool
is_fenced i token now j = j.id == i && holds_lease token now j

abbrev pub extend_job : ℕ → ℕ → Job → Job
extend_job expires clock j = record j { lease_expires_at = some expires; updated_at = clock }

abbrev pub is_some {ℓ} : {A : Type ℓ} → Option A → Bool
is_some none = false
is_some (some a) = true

unfoldable pub renew_tenant_validation_job_lease :
    Driver → (job_id token now : ℕ) → Duration → (clock : ℕ) → Database → Outcome Bool
renew_tenant_validation_job_lease d job_id token now duration clock db =
    elim (positive_duration duration) [
      | err e ↦ (err e, db)
      | ok ms ↦
          let p = is_fenced job_id token now in
          let f = extend_job (now + ms) clock in
          elim (store_jobs d (update_where p f db.jobs) db) [
            | err e ↦ (err e, db)
            | ok db' ↦ (ok (is_some (first (returning p f db.jobs))), db')
          ]
    ]
