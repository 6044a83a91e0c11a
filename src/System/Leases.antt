-- ===== src/System/Leases.antt =====
-- apps/worker/src/tenant-validation-worker.ts: the rows that a run of the handler works on, and what
-- may happen to them between its steps, its own renewal timer included.
use inbox_saas.Prelude.{
  ℕ, suc, ◌+◌, ◌<◌, ◌≡◌, ap, ◌∙◌, inl, inr, true, false, Option, some, String, arith,
}
use inbox_saas.Schema.{Job, TenantConnection, Database, jobs_valid, connections_valid}
use inbox_saas.Schema.Statements.{Driver}
use inbox_saas.Validation.Base.{find_job, find_connection, millis}
use inbox_saas.Validation.Jobs.{move-jobs_valid}
use inbox_saas.Validation.Lease.{holds_lease, renew_tenant_validation_job_lease}
use inbox_saas.Validation.Lease.Claims.{renew-IsMove}
use inbox_saas.Validation.Lease.Exclusion.{renew_fenced, renewed_database}
use inbox_saas.Validation.Apply.Connections.{is_taken}

-- The rows that the run works on, and no other active connection of the Microsoft tenant `t`.
pub record Holds (i : ℕ) (t : String) (j : Job) (c : TenantConnection) (db : Database)
    : Type 0 where
  pub job : find_job i db ≡ some j
  pub connection : find_connection j.tenant_connection_id db ≡ some c
  pub free : is_taken t j.tenant_connection_id db.tenant_connections ≡ false
  pub jobs_hold : jobs_valid db.jobs ≡ true
  pub connections_hold : connections_valid db.tenant_connections ≡ true

-- What others do meanwhile with other jobs, connections and Microsoft tenants.
pub record LeavesAlone (i k : ℕ) (t : String) (f : Database → Database) : Type 0 where
  pub job : (db : Database) → find_job i (f db) ≡ find_job i db
  pub connection : (db : Database) → find_connection k (f db) ≡ find_connection k db
  pub tenant :
      (db : Database) → is_taken t k (f db).tenant_connections ≡ is_taken t k db.tenant_connections
  pub jobs_hold : (db : Database) → jobs_valid db.jobs ≡ true → jobs_valid (f db).jobs ≡ true
  pub connections_hold :
      (db : Database)
      → connections_valid db.tenant_connections ≡ true
      → connections_valid (f db).tenant_connections ≡ true

pub left-Holds :
    {i : ℕ} {t : String} {j : Job} {c : TenantConnection} (f : Database → Database) (db : Database)
    → LeavesAlone i j.tenant_connection_id t f
    → Holds i t j c db
    → Holds i t j c (f db)
left-Holds f db a h = record {
  job = a.job db ∙ h.job;
  connection = a.connection db ∙ h.connection;
  free = a.tenant db ∙ h.free;
  jobs_hold = a.jobs_hold db h.jobs_hold;
  connections_hold = a.connections_hold db h.connections_hold;
}

-- The job with another lease, as a renewal leaves it.
abbrev pub relet : Option ℕ → ℕ → Job → Job
relet lease updated j = record j { lease_expires_at = lease; updated_at = updated }

abbrev pub IsLeasedUntil : ℕ → ℕ → Job → Type 0
IsLeasedUntil token end j = (at : ℕ) → at < end → holds_lease token at j ≡ true

-- What happens between two steps of the run, its own renewals included: a job that is leased to it
-- until `from` is afterwards leased to it until `until`, and unchanged but for its lease.
pub record Keeps (i k : ℕ) (t : String) (token from until : ℕ) (f : Database → Database)
    : Type 0 where
  pub job :
      (db : Database) (j : Job)
      → jobs_valid db.jobs ≡ true
      → find_job i db ≡ some j
      → IsLeasedUntil token from j
      → (lease : Option ℕ) × (updated : ℕ) × (find_job i (f db) ≡ some (relet lease updated j))
        × IsLeasedUntil token until (relet lease updated j)
  pub connection :
      (db : Database) → jobs_valid db.jobs ≡ true → find_connection k (f db) ≡ find_connection k db
  pub tenant :
      (db : Database)
      → jobs_valid db.jobs ≡ true
      → is_taken t k (f db).tenant_connections ≡ is_taken t k db.tenant_connections
  pub jobs_hold : (db : Database) → jobs_valid db.jobs ≡ true → jobs_valid (f db).jobs ≡ true
  pub connections_hold :
      (db : Database)
      → jobs_valid db.jobs ≡ true
      → connections_valid db.tenant_connections ≡ true
      → connections_valid (f db).tenant_connections ≡ true

-- The rows of the run, with the job under some lease that runs until `until` at least.
pub record Kept (i : ℕ) (t : String) (token until : ℕ) (j : Job) (c : TenantConnection)
    (db : Database) : Type 0 where
  pub lease : Option ℕ
  pub updated : ℕ
  pub holds : Holds i t (relet lease updated j) c db
  pub leased : IsLeasedUntil token until (relet lease updated j)

pub Keeps-Kept :
    {i token from until : ℕ} {t : String} {j : Job} {c : TenantConnection} (f : Database → Database)
    (db : Database)
    → Keeps i j.tenant_connection_id t token from until f
    → Kept i t token from j c db
    → Kept i t token until j c (f db)
Keeps-Kept {j} f db a k =
    let v = k.holds.jobs_hold in
    let (lease, updated, found, leased) =
      a.job db (relet k.lease k.updated j) v k.holds.job k.leased in
    record {
      lease = lease;
      updated = updated;
      holds = record {
        job = found;
        connection = a.connection db v ∙ k.holds.connection;
        free = a.tenant db v ∙ k.holds.free;
        jobs_hold = a.jobs_hold db v;
        connections_hold = a.connections_hold db v k.holds.connections_hold;
      };
      leased = leased;
    }

-- Others who leave the job alone keep it leased as it was.
pub alone-Keeps :
    (i k token until : ℕ) (t : String) (f : Database → Database)
    → LeavesAlone i k t f
    → Keeps i k t token until until f
alone-Keeps i k token until t f a = record {
  job = λ db j v found leased. (j.lease_expires_at, j.updated_at, a.job db ∙ found, leased);
  connection = λ db v. a.connection db;
  tenant = λ db v. a.tenant db;
  jobs_hold = a.jobs_hold;
  connections_hold = λ db v. a.connections_hold db;
}

-- A renewal by the run's timer, before the lease runs out.
pub renewal-Keeps :
    (d : Driver) (i k token from now n clock : ℕ) (t : String)
    → now < from
    → Keeps i k t token from
        (now + suc n)
        (λ db. (renew_tenant_validation_job_lease d i token now (millis (suc n)) clock db).1)
renewal-Keeps d i k token from now n clock t early = record {
  job = λ db j v found leased. elim (renew_fenced d i token now n clock db v j found) [
    | inl (held, done, row) ↦ (
      some (now + suc n),
      clock,
      ap (λ (x : Database). find_job i x) (renewed_database d i token now n clock db v) ∙ row,
      λ at soon. ground (arith, held),
    )
    | inr (lost, done) ↦ absurd (cc (lost, leased now early))
  ];
  connection = λ db v.
      ap (λ (x : Database). find_connection k x) (renewed_database d i token now n clock db v);
  tenant = λ db v.
      ap (λ (x : Database). is_taken t k x.tenant_connections)
        (renewed_database d i token now n clock db v);
  jobs_hold = λ db v.
      ap (λ (x : Database). jobs_valid x.jobs) (renewed_database d i token now n clock db v)
      ∙ move-jobs_valid (renew-IsMove i token now (now + suc n) clock) db.jobs v;
  connections_hold = λ db v w.
      ap (λ (x : Database). connections_valid x.tenant_connections)
        (renewed_database d i token now n clock db v)
      ∙ w;
}
