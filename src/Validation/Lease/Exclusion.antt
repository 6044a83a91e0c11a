-- ===== src/Validation/Lease/Exclusion.antt =====
-- packages/product/src/tenant-validation.ts, `claimTenantValidationJob` and
-- `renewTenantValidationJobLease`: one holder at a time.
use inbox_saas.Prelude.{
  ℕ, suc, ◌+◌, ◌<◌, ◌≡◌, refl, ap, ◌∙◌, ◌↔◌, ◌⊎◌, ◌==◌, ◌&&◌, inl, inr, Bool, true, false, Option,
  none, some, arith, first, if◌then◌else◌, Bool-cases,
}
use inbox_saas.Errors.{Result, ok}
use inbox_saas.Table.{update_where, returning}
use inbox_saas.Table.Laws.{select_key}
use inbox_saas.Schema.{Job, jobs_valid, Database}
use inbox_saas.Schema.Statements.{Driver}
use inbox_saas.Validation.Base.{TenantConnectionDto, find_job, millis, positive_duration}
use inbox_saas.Validation.Jobs.{move_idle, move-store_jobs, move-returning, move-find_job}
use inbox_saas.Validation.Lease.{
  not_found, claimed, claim_tenant_validation_job, holds_lease, is_fenced, extend_job, is_some,
  renew_tenant_validation_job_lease,
}
use inbox_saas.Validation.Lease.Claims.{claim-IsClaimed, claim_refused, renew-IsMove}

module _ (d : Driver) (i now n token clock : ℕ) (db db' : Database) (c : TenantConnectionDto)
    (j : Job) (valid : jobs_valid db.jobs ≡ true)
    (e : claim_tenant_validation_job d i now (millis (suc n)) token clock db
      ≡ (ok (claimed c j), db')) where
  -- Until the lease of a successful claim runs out, no other claim of the job succeeds: it answers
  -- `not_found` and changes nothing, whoever makes it and for whatever lease.
  pub claim_exclusive :
      (now' n' token' clock' : ℕ)
      → now' < now + suc n
      → claim_tenant_validation_job d i now' (millis (suc n')) token' clock' db'
        ≡ (ok not_found, db')
  claim_exclusive now' n' token' clock' early =
      let k = claim-IsClaimed d i now n token clock db valid c j db' e in
      claim_refused d i now' n' token' clock' db' k.still_valid j k.now_found
        (rw (k.becomes) (ground arith))

  -- A claim counts one attempt, leaves the job running under its token until exactly the end of the
  -- lease, and shuts out every other token.
  pub claim_holds :
      (find_job i db' ≡ some j)
      × ((k : Job) → find_job i db ≡ some k → j.attempt_count ≡ k.attempt_count + 1)
      × ((t at : ℕ) → (holds_lease t at j ≡ true) ↔ ((t ≡ token) × (at < now + suc n)))
  claim_holds =
      let k = claim-IsClaimed d i now n token clock db valid c j db' e in
      (
        k.now_found,
        (λ x was. rw (k.becomes) (ground (arith, k.was))),
        λ t at. rw (k.becomes) (ground arith),
      )

module _ (d : Driver) (i token now n clock : ℕ) (db : Database)
    (valid : jobs_valid db.jobs ≡ true) where
  abbrev pub with_renewal : Database
  with_renewal = record db {
    jobs =
        update_where (λ x. x.id == i && holds_lease token now x)
          (λ x. record x { lease_expires_at = some (now + suc n); updated_at = clock }) db.jobs;
  }

  renew_result :
      (o : Option Job)
      → first (returning (is_fenced i token now) (extend_job (now + suc n) clock) db.jobs) ≡ o
      → renew_tenant_validation_job_lease d i token now (millis (suc n)) clock db
        ≡ (ok (is_some o), with_renewal)
  unfolding renew_tenant_validation_job_lease positive_duration
  renew_result o e =
      let m = renew-IsMove i token now (now + suc n) clock in
      rw (renew_tenant_validation_job_lease, move-store_jobs m d db valid, e) refl

  renewed_row :
      (j : Job)
      → find_job i db ≡ some j
      → first (returning (is_fenced i token now) (extend_job (now + suc n) clock) db.jobs)
        ≡ (if holds_lease token now j then some (extend_job (now + suc n) clock j) else none)
  renewed_row j found =
      move-returning (renew-IsMove i token now (now + suc n) clock) db.jobs valid
      ∙ rw found (ground (arith, select_key (λ (x : Job). x.id) i db.jobs {r = j} found))

  pub renewed_database :
      (renew_tenant_validation_job_lease d i token now (millis (suc n)) clock db).1 ≡ with_renewal
  renewed_database =
      ap (λ (x : Result Bool × Database). x.1)
        (renew_result
          (first (returning (is_fenced i token now) (extend_job (now + suc n) clock) db.jobs)) refl)

  -- A renewal of a stored job answers `true` exactly when the job is running under the given token
  -- and its lease has not run out. Then the lease, and no other column but `updatedAt`, is moved;
  -- otherwise nothing changes, so that a lease that has run out is never revived.
  pub renew_fenced :
      (j : Job)
      → find_job i db ≡ some j
      → ((holds_lease token now j ≡ true)
          × (renew_tenant_validation_job_lease d i token now (millis (suc n)) clock db
              ≡ (ok true, with_renewal))
          × (find_job i with_renewal
              ≡ some (record j { lease_expires_at = some (now + suc n); updated_at = clock })))
        ⊎ ((holds_lease token now j ≡ false)
            × (renew_tenant_validation_job_lease d i token now (millis (suc n)) clock db
                ≡ (ok false, db)))
  renew_fenced j found = elim (Bool-cases (holds_lease token now j)) [
    | inl held ↦
        let m = renew-IsMove i token now (now + suc n) clock in
        inl (
          held,
          renew_result (some (extend_job (now + suc n) clock j))
              (renewed_row j found ∙ rw held refl),
          move-find_job m i db
              ∙ rw found (ground (arith, select_key (λ (x : Job). x.id) i db.jobs {r = j} found)),
        )
    | inr lost ↦
        let m = renew-IsMove i token now (now + suc n) clock in
        let none_returned = renewed_row j found ∙ rw lost refl in
        inr (
          lost,
          renew_result none none_returned ∙ ap (λ x. (ok false, x)) (move_idle m db none_returned),
        )
  ]
