-- ===== src/Schema/Statements.antt =====
-- The writes of packages/product/src/tenant-validation.ts and api-keys.ts under the constraints of
-- packages/db/src/schema/product.ts: a statement that breaks a unique index, a foreign key or
-- a check throws and leaves no trace. The errors that PostgreSQL and drizzle-orm throw are parameters.
use inbox_saas.Prelude.{
  Bool, true, none, some, List, ◌==◌, ◌&&◌, not, some_of, str_eq, if◌then◌else◌,
}
use inbox_saas.Errors.{Error, Result, ok, err}
use inbox_saas.Table.{insert_row}
use inbox_saas.Schema.{
  Organization, Workspace, ApiKey, api_keys_valid, api_key_checks, TenantConnection, Job,
  IdempotencyRecord, OutboxEvent, Database, jobs_valid, connections_valid, records_valid,
  events_valid,
}

-- What a violated unique index, a violated foreign key, a violated check and a number that does not
-- fit its column throw.
pub record Driver : Type 0 where
  pub unique_violation : Error
  pub foreign_key_violation : Error
  pub check_violation : Error
  pub out_of_range : Error

abbrev check : Bool → Error → Database → Result Database
check b e db = if b then ok db else err e

-- `update(job)` and the index checks that follow it.
unfoldable pub store_jobs : Driver → List Job → Database → Result Database
store_jobs d js db = check (jobs_valid js) d.unique_violation (record db { jobs = js })

unfoldable pub store_connections : Driver → List TenantConnection → Database → Result Database
store_connections d cs db =
    check (connections_valid cs) d.unique_violation (record db { tenant_connections = cs })

abbrev pub has_workspace : TenantConnection → Workspace → Bool
has_workspace c w = w.id == c.workspace_id && w.organization_id == c.organization_id

unfoldable pub insert_connection : Driver → TenantConnection → Database → Result Database
insert_connection d c db =
    if some_of (has_workspace c) db.workspaces
    then store_connections d (insert_row c db.tenant_connections) db
    else err d.foreign_key_violation

unfoldable pub insert_job : Driver → Job → Database → Result Database
insert_job d j db =
    if some_of (λ (c : TenantConnection). c.id == j.tenant_connection_id) db.tenant_connections
    then store_jobs d (insert_row j db.jobs) db
    else err d.foreign_key_violation

unfoldable pub insert_record : Driver → IdempotencyRecord → Database → Result Database
insert_record d r db =
    if some_of (λ (o : Organization). o.id == r.organization_id) db.organizations
      && some_of (λ (j : Job). j.id == r.job_id) db.jobs
    then check (records_valid (insert_row r db.idempotency_records)) d.unique_violation
        (record db { idempotency_records = insert_row r db.idempotency_records })
    else err d.foreign_key_violation

unfoldable pub insert_event : Driver → OutboxEvent → Database → Result Database
insert_event d e db =
    if some_of (λ (j : Job). j.id == e.job_id) db.jobs
    then check (events_valid (insert_row e db.outbox_events)) d.unique_violation
        (record db { outbox_events = insert_row e db.outbox_events })
    else err d.foreign_key_violation

-- `api_key_workspace_organization_fk`: a null workspace matches.
abbrev pub in_workspace : ApiKey → List Workspace → Bool
in_workspace k ws = elim k.workspace_id [
  | none ↦ true
  | some w ↦ some_of (λ (x : Workspace). x.id == w && x.organization_id == k.organization_id) ws
]

unfoldable pub insert_api_key : Driver → ApiKey → Database → Result Database
insert_api_key d k db =
    if not (api_key_checks k)
    then err d.check_violation
    else (if some_of (str_eq k.creator_user_id) db.users
          && some_of (λ (o : Organization). o.id == k.organization_id) db.organizations
          && in_workspace k db.workspaces
        then check (api_keys_valid (insert_row k db.api_keys)) d.unique_violation
            (record db { api_keys = insert_row k db.api_keys })
        else err d.foreign_key_violation)
