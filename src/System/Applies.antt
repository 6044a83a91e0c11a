-- ===== src/System/Applies.antt =====
-- packages/product/src/tenant-validation.ts: `applyTenantValidationResult` lets the database evolve.
use inbox_saas.Prelude.{
  ℕ, inl, inr, Bool, true, false, Option, none, some, not, ◌||◌, Bool-cases, if◌then◌else◌,
}
use inbox_saas.Errors.{Result, ok, err, OkHolds, >>=-OkHolds, all-OkHolds, is_unique_violation}
use inbox_saas.Contract.{TenantValidationResult}
use inbox_saas.Schema.{Job, TenantConnection, Database}
use inbox_saas.Schema.Statements.{Driver}
use inbox_saas.Validation.Base.{find_job, connection_of}
use inbox_saas.Validation.Apply.{
  ApplyResult, not_found, stale, is_stale, is_success, should_retry, job_update, tenant_update,
  collision_update, reject_connection, apply_held, collide_held, available_after, retry_last,
  retry_event, catch_collision, apply_tenant_validation_result,
}
use inbox_saas.System.Consistency.{Evolves, Evolves-refl, Evolves-trans}
use inbox_saas.System.Insertions.{insert_event-Evolves}
use inbox_saas.System.Operations.{settled-Evolves}
use inbox_saas.System.Results.{
  Moves, write_result-Evolves, apply-IsLifeStep, collision-IsLifeStep, tenant_update-Stays,
  reject-Stays,
}

module _ (d : Driver) (job_id token now clock event_id : ℕ) where
  retry_last-Evolves :
      (retry : Bool) (available : ℕ) (j : Job) (db : Database)
      → OkHolds (Evolves db) (retry_last d job_id token now clock event_id retry available j db)
  retry_last-Evolves true available j db =
      insert_event-Evolves d (retry_event d job_id token now clock event_id j.id available) db
  retry_last-Evolves false available j db = Evolves-refl db

  apply_held-Evolves :
      (result : TenantValidationResult) (j : Job) (db : Database)
      → Moves db (apply_held d job_id token now clock event_id result j db)
  unfolding apply_held
  apply_held-Evolves result j db =
      let retry = should_retry result j.attempt_count in
      >>=-OkHolds (λ (c : TenantConnection). Unit {0}) _ (connection_of db j) _
        (all-OkHolds _ (connection_of db j) (λ c. tt))
        (λ c u.
          >>=-OkHolds (λ (n : ℕ). Unit {0}) _
            (available_after d job_id token now clock event_id retry j.attempt_count) _
            (all-OkHolds _ (available_after d job_id token now clock event_id retry j.attempt_count)
              (λ n. tt))
            (λ n v.
              write_result-Evolves d job_id token now clock event_id
                (job_update result retry n clock) (tenant_update result retry clock) _ _ j c db
                (apply-IsLifeStep j.id token now result retry n clock)
                (tenant_update-Stays result retry clock) (retry_last-Evolves retry n)))

  collide_held-Evolves :
      (j : Job) (db : Database) → Moves db (collide_held d job_id token now clock event_id j db)
  unfolding collide_held
  collide_held-Evolves j db =
      >>=-OkHolds (λ (c : TenantConnection). Unit {0}) _ (connection_of db j) _
        (all-OkHolds _ (connection_of db j) (λ c. tt))
        (λ c u.
          write_result-Evolves d job_id token now clock event_id (collision_update now clock)
            (reject_connection clock) _ _ j c db (collision-IsLifeStep j.id token now clock)
            (reject-Stays clock) (λ x y. Evolves-refl y))

  with_lease-Evolves :
      (body : Job → Database → Result (ApplyResult × Database)) (later : Database)
      → ((j : Job) → Moves later (body j later))
      → (o : Option Job)
      → Moves later (
          let r : Result (ApplyResult × Database) = elim o [
            | none ↦ ok (not_found, later)
            | some j ↦ if is_stale token now j then ok (stale, later) else body j later
          ] in
          r)
  with_lease-Evolves body later h none = Evolves-refl later
  with_lease-Evolves body later h (some j) = elim (Bool-cases (is_stale token now j)) [
    | inl e ↦ rw e (Evolves-refl later)
    | inr e ↦ rw e (h j)
  ]

  -- What other sessions do meanwhile is between the reads and the writes of each transaction.
  module _ (others afterwards : Database → Database) (result : TenantValidationResult)
      (db : Database) (gap : Evolves db (others db))
      (gap_after : Evolves (others db) (afterwards (others db))) where
    caught-Evolves :
        (m : Result (ApplyResult × Database))
        → Moves (others db) m
        → Evolves
            (others db)
            (catch_collision d job_id token now clock event_id afterwards result (others db) m).1
    caught-Evolves (ok (r, db')) h = h
    caught-Evolves (err e) h =
        elim (Bool-cases (not (is_unique_violation e) || not (is_success result))) [
          | inl t ↦ rw t (Evolves-refl (others db))
          | inr t ↦ rw t (
              Evolves-trans (others db) (afterwards (others db)) _ gap_after (
                settled-Evolves (afterwards (others db)) _ (
                  with_lease-Evolves (collide_held d job_id token now clock event_id)
                    (afterwards (others db)) (λ j. collide_held-Evolves j (afterwards (others db)))
                    (find_job job_id (others db)))))
        ]

    pub apply-Evolves :
        Evolves db
          (apply_tenant_validation_result d job_id token now clock event_id others afterwards result
            db).1
    unfolding apply_tenant_validation_result
    apply-Evolves = Evolves-trans db (others db) _ gap (
        caught-Evolves _ (
          with_lease-Evolves (apply_held d job_id token now clock event_id result) (others db)
            (λ j. apply_held-Evolves result j (others db)) (find_job job_id db)))
