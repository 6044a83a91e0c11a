-- ===== src/Validation/Apply/Outcomes.antt =====
-- packages/product/src/tenant-validation.ts, `applyTenantValidationResult`: what a worker that
-- holds the lease brings about, for each kind of result.
use inbox_saas.Prelude.{
  ℕ, zero, suc, ◌+◌, ◌<◌, ◌≡◌, refl, ap, ◌∙◌, Bool, true, false, none, some, arith, ◌==◌, ltb,
  String, if◌then◌else◌,
}
use inbox_saas.Errors.{ok, is_unique_violation}
use inbox_saas.Contract.{TenantValidationResult, success, failure, failure_text, FailureCode}
use inbox_saas.Table.{update_where, insert_row}
use inbox_saas.Table.Laws.{select_key, some_of-some}
use inbox_saas.Schema.{
  tenant_validation_requested, active, validating, validation_failed, queued, completed, failed,
  TenantConnection, Job, connections_valid, events_valid, Database,
}
use inbox_saas.Schema.Statements.{Driver, insert_event}
use inbox_saas.Validation.Base.{
  find_job, find_connection, retry_available_at, Outcome, to_tenant_connection_dto,
}
use inbox_saas.Validation.Apply.{
  ApplyResult, applied, should_retry, job_update, tenant_update, collision_update,
  reject_connection, apply_held, collide_held, available_after, retry_last, retry_event,
  catch_collision, apply_tenant_validation_result, write_result,
}
use inbox_saas.Validation.Apply.Writes.{apply-IsMove, collision-IsMove}
use inbox_saas.Validation.Apply.Held.{
  IsHeld, settled, with_lease_held, connection_by_id, both_written, index_broken, settled_job,
  settled_connection,
}
use inbox_saas.Validation.Apply.Connections.{
  activate, is_taken, activate-connections_valid, idle-connections_valid,
}

-- The answer of a delivery, and the rows of its job and connection afterwards.
pub record IsApplied (i : ℕ) (o : Outcome ApplyResult) (j : Job) (c : TenantConnection)
    : Type 0 where
  pub answer : o.0 ≡ ok (applied (to_tenant_connection_dto c) j false)
  pub job_row : find_job i o.1 ≡ some j
  pub connection_row : find_connection c.id o.1 ≡ some c

module _ (d : Driver) (i token now clock event_id : ℕ) (others afterwards : Database → Database)
    (db : Database) (j : Job) (c : TenantConnection)
    (h : IsHeld i token now db (others db) j c) where
  abbrev apply_it : TenantValidationResult → Outcome ApplyResult
  apply_it result =
      apply_tenant_validation_result d i token now clock event_id others afterwards result db

  module _ (result : TenantValidationResult) (retry : Bool) (available : ℕ)
      (decided : should_retry result j.attempt_count ≡ retry)
      (delayed : available_after d i token now clock event_id retry j.attempt_count
        ≡ ok available) where
    -- The transaction up to its writes.
    apply_held_write :
        apply_it result
        ≡ catch_collision d i token now clock event_id afterwards result (others db) (
            write_result d i token now clock event_id
              (job_update result retry available clock)
              (tenant_update result retry clock)
              "Failed to apply tenant validation result"
              (retry_last d i token now clock event_id retry available)
              j
              c
              (others db))
    unfolding apply_tenant_validation_result apply_held
    apply_held_write =
        rw
          (
            with_lease_held d i token now clock event_id db (others db) j c h
                (apply_held d i token now clock event_id result),
            apply_held,
            h.connection,
            decided,
            delayed,
          )
          refl

    -- The same when both updates stand and the last step succeeds.
    apply_held_ok :
        (db₃ : Database)
        → connections_valid (
            update_where
              (λ y. y.id == c.id)
              (tenant_update result retry clock)
              (others db).tenant_connections)
          ≡ true
        → retry_last d i token now clock event_id retry available
            (job_update result retry available clock j)
            (settled j.id token now
              (job_update result retry available clock)
              c.id
              (tenant_update result retry clock)
              (others db))
          ≡ ok db₃
        → apply_it result ≡ (
          ok (
              applied
                (to_tenant_connection_dto (tenant_update result retry clock c))
                (job_update result retry available clock j)
                false),
          db₃,
        )
    apply_held_ok db₃ v last =
        apply_held_write
        ∙ ap (catch_collision d i token now clock event_id afterwards result (others db)) (
            both_written d i token now clock event_id db (others db) j c h _ _ _ _
              (apply-IsMove j.id token now result retry available clock) db₃ v last)

  -- A success whose Microsoft tenant no other connection holds as active: the job is completed with
  -- its failure columns cleared, the connection is active for that tenant, and no event is added.
  pub apply_success :
      (t : String)
      → is_taken t c.id (others db).tenant_connections ≡ false
      → IsApplied i
          (apply_it (success t))
          (record j {
            available_at = now;
            failure_code = none;
            lease_expires_at = none;
            lease_token = none;
            retryable = none;
            state = completed;
            updated_at = clock;
          })
          (record c { microsoft_tenant_id = some t; state = active; updated_at = clock })
        × ((apply_it (success t)).1.outbox_events ≡ (others db).outbox_events)
  apply_success t free =
      let v =
        activate-connections_valid t c.id clock (others db).tenant_connections c
          (connection_by_id d i token now clock event_id db (others db) j c h) h.connections_hold in
      let f = job_update (success t) false now clock in
      let m = apply-IsMove j.id token now (success t) false now clock in
      let e =
        apply_held_ok (success t) false now refl refl
          (settled j.id token now f c.id (activate t clock) (others db)) (v ∙ rw free refl) refl in
      rw e (
        record {
          answer = refl;
          job_row =
              settled_job d i token now clock event_id db (others db) j c h f (activate t clock) m;
          connection_row =
              settled_connection d i token now clock event_id db (others db) j c h f
                (activate t clock) m (λ x. refl);
        },
        refl,
      )

  -- A failure that is not retried, because it is not retryable or this was the third attempt: the
  -- job fails with the code and the retryability that were reported, the connection fails, and no
  -- event is added.
  pub apply_failure :
      (code : FailureCode) (retryable : Bool)
      → should_retry (failure code retryable) j.attempt_count ≡ false
      → IsApplied i
          (apply_it (failure code retryable))
          (record j {
            available_at = now;
            failure_code = some (failure_text code);
            lease_expires_at = none;
            lease_token = none;
            retryable = some retryable;
            state = failed;
            updated_at = clock;
          })
          (record c { state = validation_failed; updated_at = clock })
        × ((apply_it (failure code retryable)).1.outbox_events ≡ (others db).outbox_events)
  apply_failure code retryable last =
      let f = job_update (failure code retryable) false now clock in
      let g = reject_connection clock in
      let m = apply-IsMove j.id token now (failure code retryable) false now clock in
      let v =
        idle-connections_valid (λ y. y.id == c.id) g (others db).tenant_connections (λ x. refl)
          (λ x. refl) h.connections_hold in
      let e =
        apply_held_ok (failure code retryable) false now last refl
          (settled j.id token now f c.id g (others db)) v refl in
      rw e (
        record {
          answer = refl;
          job_row = settled_job d i token now clock event_id db (others db) j c h f g m;
          connection_row =
              settled_connection d i token now clock event_id db (others db) j c h f g m
                (λ x. refl);
        },
        refl,
      )

  -- The delay after the first and the second attempt, in milliseconds.
  abbrev pub retry_delay_of : ℕ → ℕ
  retry_delay_of attempts = if attempts == 1 then 60000 else 300000

  available_of :
      (attempts : ℕ)
      → 0 < attempts
      → ltb attempts 3 ≡ true
      → available_after d i token now clock event_id true attempts
        ≡ ok (now + retry_delay_of attempts)
  unfolding retry_available_at
  available_of zero p q = absurd (omega arith)
  available_of (suc zero) p q = refl
  available_of (suc (suc zero)) p q = refl
  available_of (suc (suc (suc n))) p q = absurd (ground arith)

  abbrev with_event : ℕ → Database → Database
  with_event available db₂ = record db₂ {
    outbox_events =
        insert_row (retry_event d i token now clock event_id j.id available) db₂.outbox_events;
  }

  -- A retryable failure of the first or second attempt: the job is queued again, to be available one
  -- minute or five minutes later, its connection is validating, and one event for the job, due at
  -- that same time, is added, provided the id drawn for the event is a new one.
  pub apply_retry :
      (code : FailureCode)
      → 0 < j.attempt_count
      → j.attempt_count < 3
      → events_valid (
          insert_row
            (record {
              id = event_id;
              job_id = j.id;
              type = tenant_validation_requested;
              payload = j.id;
              dispatched_at = none;
              available_at = now + retry_delay_of j.attempt_count;
              created_at = clock;
            })
            (others db).outbox_events)
        ≡ true
      → IsApplied i
          (apply_it (failure code true))
          (record j {
            available_at = now + retry_delay_of j.attempt_count;
            failure_code = some (failure_text code);
            lease_expires_at = none;
            lease_token = none;
            retryable = some true;
            state = queued;
            updated_at = clock;
          })
          (record c { state = validating; updated_at = clock })
        × ((apply_it (failure code true)).1.outbox_events
            ≡ insert_row
                (record {
                  id = event_id;
                  job_id = j.id;
                  type = tenant_validation_requested;
                  payload = j.id;
                  dispatched_at = none;
                  available_at = now + retry_delay_of j.attempt_count;
                  created_at = clock;
                })
                (others db).outbox_events)
  unfolding insert_event
  apply_retry code some_attempt few event_new =
      let at = now + retry_delay_of j.attempt_count in
      let f = job_update (failure code true) true at clock in
      let g = tenant_update (failure code true) true clock in
      let m = apply-IsMove j.id token now (failure code true) true at clock in
      let v =
        idle-connections_valid (λ y. y.id == c.id) g (others db).tenant_connections (λ x. refl)
          (λ x. refl) h.connections_hold in
      let after = settled j.id token now f c.id g (others db) in
      let row = settled_job d i token now clock event_id db (others db) j c h f g m in
      let own =
        ap (λ k. find_job k after)
          (select_key (λ (x : Job). x.id) i (others db).jobs {r = j} h.still) in
      let known = some_of-some (λ (x : Job). x.id == j.id) after.jobs {r = f j} (own ∙ row) in
      let e =
        apply_held_ok (failure code true) true at (ground arith)
          (available_of j.attempt_count some_attempt (ground arith)) (with_event at after) v
          (rw (known, event_new) refl) in
      rw e (
        record {
          answer = refl;
          job_row = row;
          connection_row =
              settled_connection d i token now clock event_id db (others db) j c h f g m
                (λ x. refl);
        },
        refl,
      )

  -- A success for a Microsoft tenant that another connection holds as active. If the driver reports
  -- the violated index as PostgreSQL does, and the lease still stands in the second transaction, the
  -- job fails for good as `tenant_already_connected`, and the connection fails without ever being
  -- bound to that tenant.
  pub apply_collision :
      (t : String) (c' : TenantConnection)
      → is_taken t c.id (others db).tenant_connections ≡ true
      → is_unique_violation d.unique_violation ≡ true
      → IsHeld i token now (others db) (afterwards (others db)) j c'
      → IsApplied i
          (apply_it (success t))
          (record j {
            available_at = now;
            failure_code = some "tenant_already_connected";
            lease_expires_at = none;
            lease_token = none;
            retryable = some false;
            state = failed;
            updated_at = clock;
          })
          (record c' { state = validation_failed; updated_at = clock })
        × ((apply_it (success t)).1.outbox_events ≡ (afterwards (others db)).outbox_events)
  unfolding collide_held
  apply_collision t c' taken coded h' =
      let later = afterwards (others db) in
      let f = collision_update now clock in
      let g = reject_connection clock in
      let m = collision-IsMove j.id token now clock in
      let v =
        activate-connections_valid t c.id clock (others db).tenant_connections c
          (connection_by_id d i token now clock event_id db (others db) j c h) h.connections_hold in
      let broken =
        index_broken d i token now clock event_id db (others db) j c h
          (job_update (success t) false now clock) (activate t clock)
          "Failed to apply tenant validation result"
          (retry_last d i token now clock event_id false now)
          (apply-IsMove j.id token now (success t) false now clock) (v ∙ rw taken refl) in
      let stands =
        idle-connections_valid (λ y. y.id == c'.id) g later.tenant_connections (λ x. refl)
          (λ x. refl) h'.connections_hold in
      let held_again =
        with_lease_held d i token now clock event_id (others db) later j c' h'
          (collide_held d i token now clock event_id) in
      let written_again =
        both_written d i token now clock event_id (others db) later j c' h' f g
          "Failed to apply tenant validation collision result" (λ _ x. ok x) m
          (settled j.id token now f c'.id g later) stands refl in
      let e : apply_it (success t) ≡ (
        ok (applied (to_tenant_connection_dto (g c')) (f j) false),
        settled j.id token now f c'.id g later,
      ) =
        apply_held_write (success t) false now refl refl
        ∙ rw (broken, coded, held_again, collide_held, h'.connection, written_again) refl in
      rw e (
        record {
          answer = refl;
          job_row = settled_job d i token now clock event_id (others db) later j c' h' f g m;
          connection_row =
              settled_connection d i token now clock event_id (others db) later j c' h' f g m
                (λ x. refl);
        },
        refl,
      )
