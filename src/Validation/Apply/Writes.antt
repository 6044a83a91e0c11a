-- ===== src/Validation/Apply/Writes.antt =====
-- packages/product/src/tenant-validation.ts, `applyTenantValidationResult`: its two updates of a
-- job row, and what the fenced statement does.
use inbox_saas.Prelude.{
  ℕ, ◌≡◌, refl, ap, ◌∙◌, inl, inr, Bool, true, false, not, none, some, arith, ◌==◌, first, String,
  Option-cases,
}
use inbox_saas.Errors.{Result, ok, or_throw, ◌>>=◌}
use inbox_saas.Contract.{TenantValidationResult, success, failure}
use inbox_saas.Table.{update_where, returning}
use inbox_saas.Table.Laws.{select_key}
use inbox_saas.Schema.{TenantConnection, Job, jobs_valid, Database}
use inbox_saas.Schema.Statements.{Driver, store_connections}
use inbox_saas.Validation.Base.{find_job, to_tenant_connection_dto}
use inbox_saas.Validation.Jobs.{IsMove, move_idle, move-store_jobs, move-returning}
use inbox_saas.Validation.Lease.{holds_lease, is_fenced}
use inbox_saas.Validation.Apply.{
  stale, applied, is_stale, job_update, collision_update, write_result,
}

pub apply-IsMove :
    (i token now : ℕ) (result : TenantValidationResult) (retry : Bool) (available clock : ℕ)
    → IsMove i (is_fenced i token now) (job_update result retry available clock)
apply-IsMove i token now (success t) retry available clock = record {
  only = λ j h. ground arith;
  id = λ j. refl;
  connection = λ j. refl;
  open_before = λ j h. ground arith;
}
apply-IsMove i token now (failure code retryable) true available clock = record {
  only = λ j h. ground arith;
  id = λ j. refl;
  connection = λ j. refl;
  open_before = λ j h. ground arith;
}
apply-IsMove i token now (failure code retryable) false available clock = record {
  only = λ j h. ground arith;
  id = λ j. refl;
  connection = λ j. refl;
  open_before = λ j h. ground arith;
}

pub collision-IsMove :
    (i token now clock : ℕ) → IsMove i (is_fenced i token now) (collision_update now clock)
collision-IsMove i token now clock = record {
  only = λ j h. ground arith;
  id = λ j. refl;
  connection = λ j. refl;
  open_before = λ j h. ground arith;
}

-- The guard in JavaScript and the `where` clause of the update are the same test.
pub stale-holds : (token now : ℕ) (j : Job) → is_stale token now j ≡ not (holds_lease token now j)
stale-holds token now j = ground arith

module _ (d : Driver) (job_id token now clock event_id : ℕ) (f : Job → Job)
    (g : TenantConnection → TenantConnection) (message : String)
    (finish : Job → Database → Result Database) (j : Job) (c : TenantConnection) (db : Database)
    (m : IsMove j.id (is_fenced j.id token now) f) (valid : jobs_valid db.jobs ≡ true) where
  abbrev pub written : Database
  written = record db { jobs = update_where (is_fenced j.id token now) f db.jobs }

  -- Without the lease nothing is written.
  pub write_result_unheld :
      ((x : Job) → find_job j.id db ≡ some x → holds_lease token now x ≡ false)
      → write_result d job_id token now clock event_id f g message finish j c db ≡ ok (stale, db)
  unfolding write_result
  write_result_unheld unheld =
      rw (write_result, move-store_jobs m d db valid, none_returned)
        (ap (λ x. ok (stale, x)) (move_idle m db none_returned))
    where
      none_returned : first (returning (is_fenced j.id token now) f db.jobs) ≡ none
      none_returned = elim (Option-cases (find_job j.id db)) [
        | inl gone ↦ move-returning m db.jobs valid ∙ rw gone refl
        | inr (x, found) ↦
            move-returning m db.jobs valid ∙ rw found (ground (arith, unheld x found))
      ]

  -- With the lease the job's row is updated, then its connection, then `finish` runs.
  pub write_result_held :
      (x : Job)
      → find_job j.id db ≡ some x
      → holds_lease token now x ≡ true
      → write_result d job_id token now clock event_id f g message finish j c db ≡ (
          store_connections d (update_where (λ y. y.id == c.id) g db.tenant_connections) written
          >>= λ db₂.
              or_throw (first (returning (λ y. y.id == c.id) g db.tenant_connections)) message
              >>= λ c'. finish (f x) db₂ >>= λ db₃.
                  ok (applied (to_tenant_connection_dto c') (f x) false, db₃))
  unfolding write_result
  write_result_held x found held =
      rw (write_result, move-store_jobs m d db valid, row_returned) refl
    where
      row_returned : first (returning (is_fenced j.id token now) f db.jobs) ≡ some (f x)
      row_returned =
          move-returning m db.jobs valid
          ∙ rw found (ground (arith, select_key (λ (y : Job). y.id) j.id db.jobs {r = x} found))
