-- ===== src/System/Insertions.antt =====
-- packages/product/src/tenant-validation.ts: each of its insertions lets the database evolve.
use inbox_saas.Prelude.{
  ◌≡◌, refl, ◌∙◌, Bool, true, false, some, List, ◌==◌, ◌&&◌, some_of, if◌then◌else◌,
}
use inbox_saas.Errors.{Error, Result, err, OkHolds}
use inbox_saas.Table.{insert_row, select_first}
use inbox_saas.Table.Laws.{select_first-append, All-insert}
use inbox_saas.Table.Links.{some_of-insert}
use inbox_saas.Schema.{
  Organization, Job, TenantConnection, IdempotencyRecord, OutboxEvent, Database,
}
use inbox_saas.Schema.Statements.{
  Driver, store_jobs, store_connections, insert_connection, insert_job, insert_record, insert_event,
}
use inbox_saas.System.Life.{IsShaped, Becomes-refl, Stays-refl}
use inbox_saas.System.Consistency.{
  Evolves, has_job, with_jobs-IsConsistent, with_connections-IsConsistent,
}
use inbox_saas.System.Statements.{checked}

-- A write behind a foreign key.
pub guarded :
    (P : Database → Type 0) (b : Bool) (m : Result Database) (e : Error)
    → (b ≡ true → OkHolds P m)
    → OkHolds P (if b then m else err e)
guarded P true m e h = h refl
guarded P false m e h = tt

second : (a b : Bool) → (a && b) ≡ true → b ≡ true
second true b h = h
second false b h = cc h

first_of : (a b : Bool) → (a && b) ≡ true → a ≡ true
first_of true b h = refl
first_of false b h = h

select_first-insert :
    {A : Type 0} (q : A → Bool) (rs : List A) (r : A) {x : A}
    → select_first q rs ≡ some x
    → select_first q (insert_row r rs) ≡ some x
select_first-insert q rs r {x} h = select_first-append q rs r ∙ rw h refl

pub insert_connection-Evolves :
    (d : Driver) (c : TenantConnection) (db : Database)
    → OkHolds (Evolves db) (insert_connection d c db)
unfolding insert_connection store_connections
insert_connection-Evolves d c db = guarded (Evolves db) _ _ d.foreign_key_violation (λ k.
    checked (Evolves db) _ d.unique_violation _ (λ v. record {
      jobs = λ i j h. (j, h, Becomes-refl j);
      connections = λ i x h. (
        x,
        select_first-insert (λ (y : TenantConnection). y.id == i) db.tenant_connections c h,
        Stays-refl x,
      );
      consistent = λ h.
          with_connections-IsConsistent db (insert_row c db.tenant_connections) v
            (λ i. some_of-insert (λ (y : TenantConnection). y.id == i) db.tenant_connections c)
            (All-insert _ db.tenant_connections c h.connections_linked k) h;
    }))

pub insert_job-Evolves :
    (d : Driver) (j : Job) (db : Database) → IsShaped j → OkHolds (Evolves db) (insert_job d j db)
unfolding insert_job store_jobs
insert_job-Evolves d j db s = guarded (Evolves db) _ _ d.foreign_key_violation (λ k.
    checked (Evolves db) _ d.unique_violation _ (λ v. record {
      jobs = λ i x h. (x, select_first-insert (λ (y : Job). y.id == i) db.jobs j h, Becomes-refl x);
      connections = λ i x h. (x, h, Stays-refl x);
      consistent = λ c.
          with_jobs-IsConsistent db (insert_row j db.jobs) v
            (All-insert IsShaped db.jobs j c.shaped s) (All-insert _ db.jobs j c.jobs_linked k)
            (λ i. some_of-insert (λ (y : Job). y.id == i) db.jobs j) c;
    }))

pub insert_record-Evolves :
    (d : Driver) (r : IdempotencyRecord) (db : Database)
    → OkHolds (Evolves db) (insert_record d r db)
unfolding insert_record
insert_record-Evolves d r db = guarded (Evolves db) _ _ d.foreign_key_violation (λ k.
    checked (Evolves db) _ d.unique_violation _ (λ v. record {
      jobs = λ i j h. (j, h, Becomes-refl j);
      connections = λ i c h. (c, h, Stays-refl c);
      consistent = λ c. record {
        jobs_hold = c.jobs_hold;
        connections_hold = c.connections_hold;
        records_hold = v;
        events_hold = c.events_hold;
        keys_hold = c.keys_hold;
        keys_checked = c.keys_checked;
        keys_linked = c.keys_linked;
        connections_linked = c.connections_linked;
        shaped = c.shaped;
        jobs_linked = c.jobs_linked;
        records_linked = All-insert _ db.idempotency_records r c.records_linked (
            second (some_of (λ (o : Organization). o.id == r.organization_id) db.organizations)
              (has_job db r.job_id) k);
        records_owned = All-insert _ db.idempotency_records r c.records_owned (
            first_of (some_of (λ (o : Organization). o.id == r.organization_id) db.organizations)
              (has_job db r.job_id) k);
        events_linked = c.events_linked;
      };
    }))

pub insert_event-Evolves :
    (d : Driver) (e : OutboxEvent) (db : Database) → OkHolds (Evolves db) (insert_event d e db)
unfolding insert_event
insert_event-Evolves d e db = guarded (Evolves db) _ _ d.foreign_key_violation (λ k.
    checked (Evolves db) _ d.unique_violation _ (λ v. record {
      jobs = λ i j h. (j, h, Becomes-refl j);
      connections = λ i c h. (c, h, Stays-refl c);
      consistent = λ c. record {
        jobs_hold = c.jobs_hold;
        connections_hold = c.connections_hold;
        records_hold = c.records_hold;
        events_hold = v;
        keys_hold = c.keys_hold;
        keys_checked = c.keys_checked;
        keys_linked = c.keys_linked;
        connections_linked = c.connections_linked;
        shaped = c.shaped;
        jobs_linked = c.jobs_linked;
        records_linked = c.records_linked;
        records_owned = c.records_owned;
        events_linked = All-insert _ db.outbox_events e c.events_linked k;
      };
    }))
