-- ===== src/System/Traces.antt =====
-- packages/product/src/tenant-validation.ts, packages/product/src/api-keys.ts and
-- apps/worker/src/tenant-validation-worker.ts: what the operations make of a database in any order,
-- with the work of other sessions between the reads and the writes of each.
use inbox_saas.Prelude.{ℕ, ◌≡◌, Bool, some, List, subst}
use inbox_saas.Errors.{ok, OkHolds}
use inbox_saas.Access.{AccessGrant}
use inbox_saas.Contract.{TenantValidationResult}
use inbox_saas.Schema.{Characters, TenantConnection, OutboxEvent, Database}
use inbox_saas.Validation.Base.{Services, Duration, find_connection}
use inbox_saas.Validation.Start.{StartInput, Fresh, start_tenant_validation}
use inbox_saas.Validation.Lease.{claim_tenant_validation_job, renew_tenant_validation_job_lease}
use inbox_saas.Validation.Apply.{apply_tenant_validation_result}
use inbox_saas.Validation.Recovery.{recover_expired_tenant_validation_jobs}
use inbox_saas.Worker.Dispatch.{dispatch_pending_events}
use inbox_saas.ApiKeys.{IssueApiKeyInput, IssuedApiKey, Draws, issue_api_key, revoke_api_key}
use inbox_saas.System.Life.{Stays}
use inbox_saas.System.Consistency.{Evolves, Evolves-refl, Evolves-trans}
use inbox_saas.System.Operations.{claim-Evolves, renew-Evolves, recover-Evolves, start-Evolves}
use inbox_saas.System.Applies.{apply-Evolves}
use inbox_saas.System.Dispatches.{dispatch-Evolves, issue-Evolves, revoke-Evolves}

module _ (s : Services) (hash : Characters → Characters) where
  pub data Reach : Database → Database → Type 0 where
    stays : (db : Database) → Reach db db
    joins : {a b c : Database} → Reach a b → Reach b c → Reach a c
    starts :
        (input : StartInput) (fresh : Fresh) (clock : ℕ) (others : Database → Database)
        (grants : List AccessGrant) (db : Database)
        → Reach db (others db)
        → Reach db (start_tenant_validation s input fresh clock others grants db).1
    claims :
        (i now token clock : ℕ) (ms : Duration) (db : Database)
        → Reach db (claim_tenant_validation_job s.driver i now ms token clock db).1
    renews :
        (i token now clock : ℕ) (ms : Duration) (db : Database)
        → Reach db (renew_tenant_validation_job_lease s.driver i token now ms clock db).1
    applies :
        (i token now clock event_id : ℕ) (others afterwards : Database → Database)
        (result : TenantValidationResult) (db : Database)
        → Reach db (others db)
        → Reach (others db) (afterwards (others db))
        → Reach db
            (apply_tenant_validation_result s.driver i token now clock event_id others afterwards
              result db).1
    recovers :
        (now clock : ℕ) (fresh : ℕ → ℕ) (others : Database → Database) (db : Database)
        → Reach db (others db)
        → Reach db (recover_expired_tenant_validation_jobs s.driver now clock fresh others db).1
    dispatches :
        (takes stands : OutboxEvent → Bool) (clock : ℕ → ℕ) (others : Database → Database) (now : ℕ)
        (db : Database)
        → Reach db (others db)
        → Reach db (dispatch_pending_events takes stands clock others now db).1
    issues :
        (input : IssueApiKeyInput) (now : ℕ) (draws : Draws) (db db' : Database)
        (key : IssuedApiKey)
        → issue_api_key hash s.driver input now draws db ≡ ok (key, db')
        → Reach db db'
    revokes : (i now : ℕ) (db : Database) → Reach db (revoke_api_key i now db)

  pub Reach-Evolves : {a b : Database} → Reach a b → Evolves a b
  Reach-Evolves (stays db) = Evolves-refl db
  Reach-Evolves (joins {a} {b} {c} p q) = Evolves-trans a b c (Reach-Evolves p) (Reach-Evolves q)
  Reach-Evolves (starts input fresh clock others grants db gap) =
      start-Evolves s input fresh clock others db (Reach-Evolves gap) grants
  Reach-Evolves (claims i now token clock ms db) = claim-Evolves s.driver i now token clock ms db
  Reach-Evolves (renews i token now clock ms db) = renew-Evolves s.driver i token now clock ms db
  Reach-Evolves (applies i token now clock event_id others afterwards result db gap gap_after) =
      apply-Evolves s.driver i token now clock event_id others afterwards result db
        (Reach-Evolves gap) (Reach-Evolves gap_after)
  Reach-Evolves (recovers now clock fresh others db gap) =
      Evolves-trans db (others db) _ (Reach-Evolves gap)
        (recover-Evolves s.driver now clock fresh others db)
  Reach-Evolves (dispatches takes stands clock others now db gap) =
      Evolves-trans db (others db) _ (Reach-Evolves gap)
        (dispatch-Evolves takes stands clock others now db)
  Reach-Evolves (issues input now draws db db' key done) =
      subst (OkHolds (λ (x : IssuedApiKey × Database). Evolves db x.1)) done
        (issue-Evolves hash s.driver input now draws db)
  Reach-Evolves (revokes i now db) = revoke-Evolves i now db

  -- However the operations follow one another and overlap, a connection that is there stays there,
  -- in its organization and workspace and with the credentials it was stored with.
  pub Reach-Stays :
      {a b : Database}
      → Reach a b
      → (k : ℕ) (c : TenantConnection) → find_connection k a ≡ some c
      → (c' : TenantConnection) × (find_connection k b ≡ some c') × Stays c c'
  Reach-Stays r = (Reach-Evolves r).connections
