-- ===== src/System/Consistency.antt =====
-- packages/db/src/schema/product.ts: when the tables fit together, and what one database may become.
use inbox_saas.Prelude.{ℕ, ◌≡◌, Bool, true, some, List, ◌==◌, ◌&&◌, some_of, All, str_eq}
use inbox_saas.Schema.{
  Organization, ApiKey, api_keys_valid, api_key_checks, Job, TenantConnection, IdempotencyRecord,
  OutboxEvent, Database, jobs_valid, connections_valid, records_valid, events_valid,
}
use inbox_saas.Schema.Statements.{has_workspace, in_workspace}
use inbox_saas.Table.Links.{All-map}
use inbox_saas.Validation.Base.{find_job, find_connection}
use inbox_saas.System.Life.{
  IsShaped, Becomes, Becomes-refl, Becomes-trans, Stays, Stays-refl, Stays-trans,
}

abbrev pub has_job : Database → ℕ → Bool
has_job db i = some_of (λ (j : Job). j.id == i) db.jobs

abbrev pub has_connection : Database → ℕ → Bool
has_connection db k = some_of (λ (c : TenantConnection). c.id == k) db.tenant_connections

abbrev pub has_organization : Database → ℕ → Bool
has_organization db i = some_of (λ (o : Organization). o.id == i) db.organizations

-- What the row of a key refers to: its creator, its organization and, if it names one, a workspace
-- of that organization.
abbrev pub is_key_linked : Database → ApiKey → Bool
is_key_linked db k =
    some_of (str_eq k.creator_user_id) db.users
    && has_organization db k.organization_id
    && in_workspace k db.workspaces

-- The unique indexes and the checks hold, every job has the columns of its state, and no row refers
-- to a row that is not there.
pub record IsConsistent (db : Database) : Type 0 where
  pub jobs_hold : jobs_valid db.jobs ≡ true
  pub connections_hold : connections_valid db.tenant_connections ≡ true
  pub records_hold : records_valid db.idempotency_records ≡ true
  pub events_hold : events_valid db.outbox_events ≡ true
  pub keys_hold : api_keys_valid db.api_keys ≡ true
  pub keys_checked : All (λ (k : ApiKey). api_key_checks k ≡ true) db.api_keys
  pub keys_linked : All (λ (k : ApiKey). is_key_linked db k ≡ true) db.api_keys
  pub connections_linked :
      All
        (λ (c : TenantConnection). some_of (has_workspace c) db.workspaces ≡ true)
        db.tenant_connections
  pub shaped : All IsShaped db.jobs
  pub jobs_linked : All (λ (j : Job). has_connection db j.tenant_connection_id ≡ true) db.jobs
  pub records_linked :
      All (λ (r : IdempotencyRecord). has_job db r.job_id ≡ true) db.idempotency_records
  pub records_owned :
      All
        (λ (r : IdempotencyRecord). has_organization db r.organization_id ≡ true)
        db.idempotency_records
  pub events_linked : All (λ (e : OutboxEvent). has_job db e.job_id ≡ true) db.outbox_events

-- A database later: every job and connection is still there, as `Becomes` and `Stays` allow, and
-- consistency has not been lost.
pub record Evolves (db db' : Database) : Type 0 where
  pub jobs :
      (i : ℕ) (j : Job)
      → find_job i db ≡ some j
      → (j' : Job) × (find_job i db' ≡ some j') × Becomes j j'
  pub connections :
      (k : ℕ) (c : TenantConnection)
      → find_connection k db ≡ some c
      → (c' : TenantConnection) × (find_connection k db' ≡ some c') × Stays c c'
  pub consistent : IsConsistent db → IsConsistent db'

pub Evolves-refl : (db : Database) → Evolves db db
Evolves-refl db = record {
  jobs = λ i j h. (j, h, Becomes-refl j);
  connections = λ k c h. (c, h, Stays-refl c);
  consistent = λ h. h;
}

pub Evolves-trans : (a b c : Database) → Evolves a b → Evolves b c → Evolves a c
Evolves-trans a b c p q = record {
  jobs = λ i j h.
      let (j₁, h₁, e₁) = p.jobs i j h in
      let (j₂, h₂, e₂) = q.jobs i j₁ h₁ in (j₂, h₂, Becomes-trans j j₁ j₂ e₁ e₂);
  connections = λ k x h.
      let (x₁, h₁, e₁) = p.connections k x h in
      let (x₂, h₂, e₂) = q.connections k x₁ h₁ in (x₂, h₂, Stays-trans x x₁ x₂ e₁ e₂);
  consistent = λ h. q.consistent (p.consistent h);
}

-- A new table of jobs in which no job is missing.
pub with_jobs-IsConsistent :
    (db : Database) (js : List Job)
    → jobs_valid js ≡ true
    → All IsShaped js
    → All (λ (j : Job). has_connection db j.tenant_connection_id ≡ true) js
    → ((i : ℕ) → has_job db i ≡ true → some_of (λ (j : Job). j.id == i) js ≡ true)
    → IsConsistent db
    → IsConsistent (record db { jobs = js })
with_jobs-IsConsistent db js v s l keeps c = record {
  jobs_hold = v;
  connections_hold = c.connections_hold;
  records_hold = c.records_hold;
  events_hold = c.events_hold;
  keys_hold = c.keys_hold;
  keys_checked = c.keys_checked;
  keys_linked = c.keys_linked;
  connections_linked = c.connections_linked;
  shaped = s;
  jobs_linked = l;
  records_linked = All-map _ _ db.idempotency_records (λ r. keeps r.job_id) c.records_linked;
  records_owned = c.records_owned;
  events_linked = All-map _ _ db.outbox_events (λ e. keeps e.job_id) c.events_linked;
}

-- A new table of connections in which no connection is missing.
pub with_connections-IsConsistent :
    (db : Database) (cs : List TenantConnection)
    → connections_valid cs ≡ true
    → ((k : ℕ)
        → has_connection db k ≡ true
        → some_of (λ (c : TenantConnection). c.id == k) cs ≡ true)
    → All (λ (c : TenantConnection). some_of (has_workspace c) db.workspaces ≡ true) cs
    → IsConsistent db
    → IsConsistent (record db { tenant_connections = cs })
with_connections-IsConsistent db cs v keeps l c = record {
  jobs_hold = c.jobs_hold;
  connections_hold = v;
  records_hold = c.records_hold;
  events_hold = c.events_hold;
  keys_hold = c.keys_hold;
  keys_checked = c.keys_checked;
  keys_linked = c.keys_linked;
  connections_linked = l;
  shaped = c.shaped;
  jobs_linked = All-map _ _ db.jobs (λ j. keeps j.tenant_connection_id) c.jobs_linked;
  records_linked = c.records_linked;
  records_owned = c.records_owned;
  events_linked = c.events_linked;
}
