-- ===== src/Validation/Apply/Held.antt =====
-- packages/product/src/tenant-validation.ts, `applyTenantValidationResult`: the two updates of a
-- worker that holds the lease.
use inbox_saas.Prelude.{
  ℕ, ◌≡◌, refl, ap, ◌∙◌, true, false, some, arith, ◌==◌, ==_refl, first, String,
}
use inbox_saas.Errors.{Result, ok, err}
use inbox_saas.Table.{update_where, returning}
use inbox_saas.Table.Laws.{select_key, first-returning, select_first-update}
use inbox_saas.Schema.{TenantConnection, Job, jobs_valid, connections_valid, Database}
use inbox_saas.Schema.Statements.{Driver, store_connections}
use inbox_saas.Validation.Base.{find_job, find_connection, to_tenant_connection_dto}
use inbox_saas.Validation.Jobs.{IsMove}
use inbox_saas.Validation.Lease.{holds_lease, is_fenced}
use inbox_saas.Validation.Apply.{ApplyResult, applied, with_lease, write_result}
use inbox_saas.Validation.Apply.Writes.{stale-holds, write_result_held}

-- The job is the one that the transaction reads and finds again when it writes, under the worker's
-- lease, with its connection; the tables keep their indexes.
pub record IsHeld (i token now : ℕ) (db later : Database) (j : Job) (c : TenantConnection)
    : Type 0 where
  pub read : find_job i db ≡ some j
  pub still : find_job i later ≡ some j
  pub held : holds_lease token now j ≡ true
  pub connection : find_connection j.tenant_connection_id later ≡ some c
  pub jobs_hold : jobs_valid later.jobs ≡ true
  pub connections_hold : connections_valid later.tenant_connections ≡ true

-- The database after the two updates.
abbrev pub settled :
    ℕ → ℕ → ℕ → (Job → Job) → ℕ → (TenantConnection → TenantConnection) → Database → Database
settled i token now f k g db = record db {
  jobs = update_where (is_fenced i token now) f db.jobs;
  tenant_connections = update_where (λ x. x.id == k) g db.tenant_connections;
}

module _ (d : Driver) (i token now clock event_id : ℕ) (db later : Database) (j : Job)
    (c : TenantConnection) (h : IsHeld i token now db later j c) where
  pub with_lease_held :
      (body : Job → Database → Result (ApplyResult × Database))
      → with_lease d i token now clock event_id body db later ≡ body j later
  with_lease_held body = rw (h.read, with_lease, stale-holds token now j, h.held) refl

  pub connection_by_id : find_connection c.id later ≡ some c
  connection_by_id =
      ap (λ k. find_connection k later)
        (select_key (λ (x : TenantConnection). x.id) j.tenant_connection_id later.tenant_connections
          {r = c} h.connection)
      ∙ h.connection

  job_by_id : find_job j.id later ≡ some j
  job_by_id =
      ap (λ k. find_job k later) (select_key (λ (x : Job). x.id) i later.jobs {r = j} h.still)
      ∙ h.still

  -- `returning` of the connection's update.
  connection_returned :
      (g : TenantConnection → TenantConnection)
      → connections_valid later.tenant_connections ≡ true
      → first (returning (λ y. y.id == c.id) g later.tenant_connections) ≡ some (g c)
  unfolding connections_valid
  connection_returned g v =
      first-returning (λ (x : TenantConnection). x.id) c.id (λ y. y.id == c.id) g
        later.tenant_connections (λ r e. ground arith) (ground arith)
      ∙ rw (connection_by_id) (ground (arith, ==_refl c.id))

  module _ (f : Job → Job) (g : TenantConnection → TenantConnection) (message : String)
      (finish : Job → Database → Result Database)
      (m : IsMove j.id (is_fenced j.id token now) f) where
    pub both_written :
        (db₃ : Database)
        → connections_valid (update_where (λ y. y.id == c.id) g later.tenant_connections) ≡ true
        → finish (f j) (settled j.id token now f c.id g later) ≡ ok db₃
        → write_result d i token now clock event_id f g message finish j c later
          ≡ ok (applied (to_tenant_connection_dto (g c)) (f j) false, db₃)
    unfolding store_connections
    both_written db₃ v e =
        write_result_held d i token now clock event_id f g message finish j c later m h.jobs_hold j
          job_by_id h.held
        ∙ rw (v, connection_returned g h.connections_hold, e) refl

    pub index_broken :
        connections_valid (update_where (λ y. y.id == c.id) g later.tenant_connections) ≡ false
        → write_result d i token now clock event_id f g message finish j c later
          ≡ err d.unique_violation
    unfolding store_connections
    index_broken v =
        write_result_held d i token now clock event_id f g message finish j c later m h.jobs_hold j
          job_by_id h.held
        ∙ rw v refl

  module _ (f : Job → Job) (g : TenantConnection → TenantConnection)
      (m : IsMove j.id (is_fenced j.id token now) f) where
    pub settled_job : find_job i (settled j.id token now f c.id g later) ≡ some (f j)
    settled_job =
        select_first-update (λ (x : Job). x.id == i) (is_fenced j.id token now) f later.jobs
          (λ x. ground (arith, m.id x))
        ∙ rw (h.still) (ground (arith, ==_refl j.id, h.held))

    pub settled_connection :
        ((x : TenantConnection) → (g x).id ≡ x.id)
        → find_connection c.id (settled j.id token now f c.id g later) ≡ some (g c)
    settled_connection ids =
        select_first-update (λ (x : TenantConnection). x.id == c.id) (λ y. y.id == c.id) g
          later.tenant_connections (λ x. ground (arith, ids x))
        ∙ rw (connection_by_id) (ground (arith, ==_refl c.id))
