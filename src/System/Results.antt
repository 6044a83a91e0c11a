-- ===== src/System/Results.antt =====
-- packages/product/src/tenant-validation.ts, `applyTenantValidationResult`: the updates of a job and
-- its connection let the database evolve.
use inbox_saas.Prelude.{ℕ, refl, Bool, true, false, Option, none, some, arith, ◌==◌, first, String}
use inbox_saas.Errors.{Result, ok, OkHolds, >>=-OkHolds, map-OkHolds, all-OkHolds, ◌>>=◌, or_throw}
use inbox_saas.Contract.{TenantValidationResult, success, failure}
use inbox_saas.Table.{update_where, returning}
use inbox_saas.Schema.{Job, queued, completed, failed, TenantConnection, Database}
use inbox_saas.Schema.Statements.{Driver, store_jobs, store_connections}
use inbox_saas.Validation.Base.{to_tenant_connection_dto}
use inbox_saas.Validation.Lease.{is_fenced}
use inbox_saas.Validation.Apply.{
  ApplyResult, stale, applied, job_update, tenant_update, collision_update, reject_connection,
  write_result,
}
use inbox_saas.Validation.Apply.Writes.{apply-IsMove, collision-IsMove}
use inbox_saas.System.Life.{complete, requeue, fail, next, here, Stays}
use inbox_saas.System.Consistency.{Evolves, Evolves-trans}
use inbox_saas.System.Statements.{
  IsLifeStep, move-IsLifeStep, store_jobs-Evolves, store_connections-Evolves,
}
use inbox_saas.System.Moves.{running_path}

pub apply-IsLifeStep :
    (i token now : ℕ) (result : TenantValidationResult) (retry : Bool) (available clock : ℕ)
    → IsLifeStep i (is_fenced i token now) (job_update result retry available clock)
apply-IsLifeStep i token now (success t) retry available clock =
    move-IsLifeStep i _ _ (apply-IsMove i token now (success t) retry available clock) (λ j h. (
      running_path j completed (ground arith) (next complete here),
      refl,
      (refl, refl, refl, refl),
    ))
apply-IsLifeStep i token now (failure code retryable) true available clock =
    move-IsLifeStep i _ _ (apply-IsMove i token now (failure code retryable) true available clock)
      (λ j h. (running_path j queued (ground arith) (next requeue here), refl, (refl, refl)))
apply-IsLifeStep i token now (failure code retryable) false available clock =
    move-IsLifeStep i _ _ (apply-IsMove i token now (failure code retryable) false available clock)
      (λ j h.
        (running_path j failed (ground arith) (next fail here), refl, (refl, refl, refl, refl)))

pub collision-IsLifeStep :
    (i token now clock : ℕ) → IsLifeStep i (is_fenced i token now) (collision_update now clock)
collision-IsLifeStep i token now clock =
    move-IsLifeStep i _ _ (collision-IsMove i token now clock) (λ j h.
      (running_path j failed (ground arith) (next fail here), refl, (refl, refl, refl, refl)))

pub tenant_update-Stays :
    (result : TenantValidationResult) (retry : Bool) (clock : ℕ) (c : TenantConnection)
    → Stays c (tenant_update result retry clock c)
tenant_update-Stays (success t) retry clock c = ground arith
tenant_update-Stays (failure code retryable) retry clock c = ground arith

pub reject-Stays : (clock : ℕ) (c : TenantConnection) → Stays c (reject_connection clock c)
reject-Stays clock c = ground arith

abbrev pub Moves : {A : Type 0} → Database → Result (A × Database) → Type 0
Moves {A} db m = OkHolds (λ (x : A × Database). Evolves db x.1) m

module _ (d : Driver) (job_id token now clock event_id : ℕ) where
  module _ (f : Job → Job) (g : TenantConnection → TenantConnection) (message : String)
      (finish : Job → Database → Result Database) (j : Job) (c : TenantConnection)
      (db : Database) where
    finished-Evolves :
        (j' : Job) (db₁ : Database)
        → ((x : TenantConnection) → Stays x (g x))
        → ((x : Job) (y : Database) → OkHolds (Evolves y) (finish x y))
        → Moves db₁ (
            store_connections d
              (update_where (λ (x : TenantConnection). x.id == c.id) g db₁.tenant_connections)
              db₁
            >>= λ db₂.
                or_throw
                  (first
                    (returning (λ (x : TenantConnection). x.id == c.id) g db₁.tenant_connections))
                  message
                >>= λ c'. finish j' db₂ >>= λ db₃.
                    ok (applied (to_tenant_connection_dto c') j' false, db₃))
    finished-Evolves j' db₁ stays ends =
        >>=-OkHolds (Evolves db₁) _
          (store_connections d
            (update_where (λ (x : TenantConnection). x.id == c.id) g db₁.tenant_connections) db₁)
          _ (store_connections-Evolves d (λ (x : TenantConnection). x.id == c.id) g db₁ stays)
          (λ db₂ a.
            >>=-OkHolds (λ x. Unit {0}) _
              (or_throw
                (first
                  (returning (λ (x : TenantConnection). x.id == c.id) g db₁.tenant_connections))
                message)
              _
              (all-OkHolds (λ x. Unit {0})
                (or_throw
                  (first
                    (returning (λ (x : TenantConnection). x.id == c.id) g db₁.tenant_connections))
                  message)
                (λ x. tt))
              (λ c' u.
                >>=-OkHolds (Evolves db₂) _ (finish j' db₂) _ (ends j' db₂)
                  (λ db₃ b. Evolves-trans db₁ db₂ db₃ a b)))

    pub write_result-Evolves :
        IsLifeStep j.id (is_fenced j.id token now) f
        → ((x : TenantConnection) → Stays x (g x))
        → ((x : Job) (y : Database) → OkHolds (Evolves y) (finish x y))
        → Moves db (write_result d job_id token now clock event_id f g message finish j c db)
    unfolding write_result
    write_result-Evolves m stays ends =
        let p = is_fenced j.id token now in
        >>=-OkHolds (Evolves db) _ (store_jobs d (update_where p f db.jobs) db) _
          (store_jobs-Evolves d j.id p f db m)
          (λ db₁ a. returned db₁ a (first (returning p f db.jobs)))
      where
        returned :
            (db₁ : Database)
            → Evolves db db₁
            → (o : Option Job)
            → Moves db (
                let r : Result (ApplyResult × Database) = elim o [
                  | none ↦ ok (stale, db₁)
                  | some j' ↦
                      store_connections d
                        (update_where
                          (λ (x : TenantConnection). x.id == c.id)
                          g
                          db₁.tenant_connections)
                        db₁
                      >>= λ db₂.
                          or_throw
                            (first (
                              returning
                                (λ (x : TenantConnection). x.id == c.id)
                                g
                                db₁.tenant_connections))
                            message
                          >>= λ c'. finish j' db₂ >>= λ db₃.
                              ok (applied (to_tenant_connection_dto c') j' false, db₃)
                ] in
                r)
        returned db₁ a none = a
        returned db₁ a (some j') =
            map-OkHolds {B = ApplyResult × Database} (λ x. Evolves db₁ x.1) (λ x. Evolves db x.1) _
              (λ x e. Evolves-trans db db₁ x.1 a e) (finished-Evolves j' db₁ stays ends)
