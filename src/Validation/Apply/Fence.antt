-- ===== src/Validation/Apply/Fence.antt =====
-- packages/product/src/tenant-validation.ts, `applyTenantValidationResult`: a worker without the
-- lease changes nothing.
use inbox_saas.Prelude.{
  ℕ, zero, suc, ◌≡◌, refl, sym, subst, ◌⊎◌, inl, inr, Bool, true, false, Option, none, some, String,
  Bool-cases, Option-cases,
}
use inbox_saas.Errors.{plain, Result, ok, err, or_throw, ◌>>=◌, is_unique_violation-plain}
use inbox_saas.Contract.{TenantValidationResult}
use inbox_saas.Table.Laws.{select_key}
use inbox_saas.Schema.{Job, jobs_valid, Database}
use inbox_saas.Schema.Statements.{Driver}
use inbox_saas.Validation.Base.{find_job, find_connection, retry_available_at, Outcome}
use inbox_saas.Validation.Lease.{holds_lease}
use inbox_saas.Validation.Apply.{
  ApplyResult, not_found, stale, is_stale, should_retry, apply_held, available_after, with_lease,
  catch_collision, apply_tenant_validation_result,
}
use inbox_saas.Validation.Apply.Writes.{apply-IsMove, write_result_unheld}

-- An answer that reports nothing applied, with the database left alone, or the program's own throw.
data IsIdle (later : Database) : Result (ApplyResult × Database) → Type 0 where
  superseded : IsIdle later (ok (stale, later))
  missing : IsIdle later (ok (not_found, later))
  throws : (message : String) → IsIdle later (err (plain message none))

-- What fails, fails by the program's own throw.
data FailsPlainly {A : Type 0} : Result A → Type 0 where
  returns : (a : A) → FailsPlainly (ok a)
  throws : (message : String) → FailsPlainly (err (plain message none))

or_throw-FailsPlainly :
    {A : Type 0} (o : Option A) (message : String) → FailsPlainly (or_throw o message)
or_throw-FailsPlainly none message = FailsPlainly.throws message
or_throw-FailsPlainly (some a) message = returns a

bind-IsIdle :
    {A : Type 0} (later : Database) {m : Result A} (k : A → Result (ApplyResult × Database))
    → FailsPlainly m
    → ((a : A) → IsIdle later (k a))
    → IsIdle later (m >>= k)
bind-IsIdle later k (returns a) i = i a
bind-IsIdle later k (FailsPlainly.throws message) i = IsIdle.throws message

retry-FailsPlainly : (attempts now : ℕ) → FailsPlainly (retry_available_at attempts now)
unfolding retry_available_at
retry-FailsPlainly zero now = FailsPlainly.throws _
retry-FailsPlainly (suc zero) now = returns _
retry-FailsPlainly (suc (suc zero)) now = returns _
retry-FailsPlainly (suc (suc (suc n))) now = FailsPlainly.throws _

module _ (d : Driver) (i token now clock event_id : ℕ) (result : TenantValidationResult) where
  available-FailsPlainly :
      (retry : Bool) (attempts : ℕ)
      → FailsPlainly (available_after d i token now clock event_id retry attempts)
  available-FailsPlainly true attempts = retry-FailsPlainly attempts now
  available-FailsPlainly false attempts = returns now

  apply_held-IsIdle :
      (j : Job) (later : Database)
      → jobs_valid later.jobs ≡ true
      → ((x : Job) → find_job j.id later ≡ some x → holds_lease token now x ≡ false)
      → IsIdle later (apply_held d i token now clock event_id result j later)
  unfolding apply_held
  apply_held-IsIdle j later valid unheld =
      bind-IsIdle later _ (or_throw-FailsPlainly (find_connection j.tenant_connection_id later) _)
        λ c.
          bind-IsIdle later _
            (available-FailsPlainly (should_retry result j.attempt_count) j.attempt_count)
            λ available.
              subst (IsIdle later)
                (sym (
                  write_result_unheld d i token now clock event_id _ _ _ _ j c later
                    (apply-IsMove j.id token now result _ available clock) valid unheld))
                superseded

  with_lease-IsIdle :
      (db later : Database)
      → jobs_valid later.jobs ≡ true
      → ((x : Job) → find_job i later ≡ some x → holds_lease token now x ≡ false)
      → IsIdle later (
          with_lease d i token now clock event_id
            (apply_held d i token now clock event_id result)
            db
            later)
  with_lease-IsIdle db later valid unheld = elim (Option-cases (find_job i db)) [
    | inl gone ↦ rw (gone, with_lease) missing
    | inr (j, found) ↦ elim (Bool-cases (is_stale token now j)) [
      | inl old ↦ rw (found, with_lease, old) superseded
      | inr held ↦
          rw (found, with_lease, held)
            (apply_held-IsIdle j later valid
              (λ x e. unheld x (rw (select_key (λ (y : Job). y.id) i db.jobs {r = j} found) at e)))
    ]
  ]

  -- The outcome is a failure or one of the two answers that report nothing applied, and the
  -- database is the given one.
  abbrev pub ChangesNothing : Database → Outcome ApplyResult → Type 0
  ChangesNothing later (ok r, db') = ((r ≡ stale) ⊎ (r ≡ not_found)) × (db' ≡ later)
  ChangesNothing later (err e, db') = db' ≡ later

  caught-ChangesNothing :
      (afterwards : Database → Database) (later : Database) {m : Result (ApplyResult × Database)}
      → IsIdle later m
      → ChangesNothing later
          (catch_collision d i token now clock event_id afterwards result later m)
  caught-ChangesNothing afterwards later superseded = (inl refl, refl)
  caught-ChangesNothing afterwards later missing = (inr refl, refl)
  caught-ChangesNothing afterwards later (IsIdle.throws message) =
      rw (is_unique_violation-plain message) refl

  -- A result that is delivered for a job which is not running under the given token, or whose lease
  -- has run out, at the moment of writing, changes nothing at all: whatever the worker read before,
  -- whatever other sessions committed in between, and whatever the result is.
  pub apply_fenced :
      (others afterwards : Database → Database) (db : Database)
      → jobs_valid (others db).jobs ≡ true
      → ((x : Job) → find_job i (others db) ≡ some x → holds_lease token now x ≡ false)
      → ChangesNothing
          (others db)
          (apply_tenant_validation_result d i token now clock event_id others afterwards result db)
  unfolding apply_tenant_validation_result
  apply_fenced others afterwards db valid unheld =
      caught-ChangesNothing afterwards (others db) (with_lease-IsIdle db (others db) valid unheld)
