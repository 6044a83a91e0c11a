-- ===== src/System/Answers.antt =====
-- packages/product/src/tenant-validation.ts: the lookup of a job in a consistent database.
use inbox_saas.Prelude.{
  ℕ, ◌≡◌, ◌⊎◌, refl, ap, ◌∙◌, inl, inr, true, Option, none, some, List, String, ◌==◌, Option-cases,
}
use inbox_saas.Errors.{ok, ◌>>=◌}
use inbox_saas.Access.{AccessGrant}
use inbox_saas.Table.Laws.{select_first-All, some_of-none}
use inbox_saas.Schema.{Job, TenantConnection, Database}
use inbox_saas.Validation.Base.{Services, find_job, find_connection, get_job_with_tenant}
use inbox_saas.Validation.Start.{read_uuid}
use inbox_saas.Validation.Lookup.{not_found, show_stored, get_tenant_validation_job}
use inbox_saas.System.Consistency.{IsConsistent, has_connection}

found_connection :
    (k : ℕ) (db : Database)
    → has_connection db k ≡ true
    → (c : TenantConnection) × (find_connection k db ≡ some c)
found_connection k db h = elim (Option-cases (find_connection k db)) [
  | inl e ↦
      absurd (cc (h, some_of-none (λ (c : TenantConnection). c.id == k) db.tenant_connections e))
  | inr (c, e) ↦ (c, e)
]

linked :
    (db : Database) (i : ℕ) (j : Job)
    → IsConsistent db
    → find_job i db ≡ some j
    → (c : TenantConnection) × (find_connection j.tenant_connection_id db ≡ some c)
linked db i j h found = found_connection j.tenant_connection_id db (
    select_first-All (λ (x : Job). has_connection db x.tenant_connection_id ≡ true)
      (λ (x : Job). x.id == i) db.jobs {r = j} h.jobs_linked found)

looked_up :
    (s : Services) (grants : List AccessGrant) (job_id : String) (i : ℕ) (db : Database)
    → s.uuid_of job_id ≡ some i
    → (o : Option (Job × TenantConnection)) → get_job_with_tenant db i ≡ ok o
    → get_tenant_validation_job s grants job_id db ≡ ok (show_stored grants o)
unfolding get_tenant_validation_job
looked_up s grants job_id i db reads o e =
    ap (λ m. m >>= λ x. get_job_with_tenant db x >>= λ y. ok (show_stored grants y)) read
    ∙ ap (λ m. m >>= λ y. ok (show_stored grants y)) e
  where
    read : read_uuid s job_id ≡ ok i
    read = rw (reads, read_uuid) refl

-- In a consistent database the lookup of a job, under any grants, throws nothing once its argument
-- reads as a uuid: it shows the stored job with its connection, or nothing where there is no such job.
pub get_tenant_validation_job_total :
    (s : Services) (grants : List AccessGrant) (job_id : String) (i : ℕ) (db : Database)
    → IsConsistent db
    → s.uuid_of job_id ≡ some i
    → ((find_job i db ≡ none) × (get_tenant_validation_job s grants job_id db ≡ ok not_found))
      ⊎ ((j : Job) × (c : TenantConnection) × (find_job i db ≡ some j)
          × (find_connection j.tenant_connection_id db ≡ some c)
          × (get_tenant_validation_job s grants job_id db ≡ ok (show_stored grants (some (j, c)))))
unfolding get_job_with_tenant
get_tenant_validation_job_total s grants job_id i db h reads = elim (Option-cases (find_job i db)) [
  | inl gone ↦
      inl (gone, looked_up s grants job_id i db reads none (rw (get_job_with_tenant, gone) refl))
  | inr (j, found) ↦
      let (c, connected) = linked db i j h found in
      inr (
        j,
        c,
        found,
        connected,
        looked_up s grants job_id i db reads (some (j, c))
            (rw (get_job_with_tenant, found, connected) refl),
      )
]
