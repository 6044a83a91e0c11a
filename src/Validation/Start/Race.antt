-- ===== src/Validation/Start/Race.antt =====
-- packages/product/src/tenant-validation.ts, `startTenantValidation`: a key that another
-- session takes while the call runs.
use inbox_saas.Prelude.{
  ℕ, ◌≡◌, refl, ◌∙◌, inl, inr, true, false, none, some, List, [], ◌∷◌, arith, ◌==◌, ◌&&◌, str_eq,
  some_of, Bool-cases,
}
use inbox_saas.Errors.{ok, err, is_unique_violation}
use inbox_saas.Access.{AccessGrant}
use inbox_saas.Table.{insert_row, select_first}
use inbox_saas.Table.Laws.{some_of-append, some_of-some, is_distinct-append}
use inbox_saas.Schema.{
  Organization, Workspace, TenantConnection, Job, IdempotencyRecord, Database, records_valid,
  records_clash,
}
use inbox_saas.Schema.Statements.{
  store_jobs, store_connections, insert_connection, insert_job, insert_record,
}
use inbox_saas.Validation.Base.{Services, TenantConnectionDto}
use inbox_saas.Validation.Start.{
  StartInput, accepted, Fresh, find_record, new_connection, new_job, new_record, create,
  start_in_workspace, start_tenant_validation,
}
use inbox_saas.Validation.Start.Admission.{IsAdmitted, start_admitted}
use inbox_saas.Validation.Start.Replay.{IsStored, recover_reuse_found, stored_reuse}

module _ (s : Services) (input : StartInput) (fresh : Fresh) (clock : ℕ) where
  taken_key :
      (w : Workspace) (db : Database) (r : IdempotencyRecord)
      → find_record w.organization_id input.idempotency_key db ≡ some r
      → records_valid (insert_row (new_record s input fresh clock w) db.idempotency_records) ≡ false
  unfolding records_valid
  taken_key w db r found = ground (
    arith,
    is_distinct-append records_clash db.idempotency_records (new_record s input fresh clock w),
    some_of-some (λ x. x.organization_id == w.organization_id && str_eq x.key input.idempotency_key)
        db.idempotency_records {r = r} found,
  )

  -- With the key taken the insertions fail on a unique index, at the record at the latest.
  create_taken :
      (w : Workspace) (db : Database) (r : IdempotencyRecord)
      → find_record w.organization_id input.idempotency_key db ≡ some r
      → some_of
          (λ (x : Workspace). x.id == w.id && x.organization_id == w.organization_id)
          db.workspaces
        ≡ true
      → some_of (λ (o : Organization). o.id == w.organization_id) db.organizations ≡ true
      → create s input fresh clock w db ≡ err s.driver.unique_violation
  unfolding create insert_connection insert_job insert_record store_jobs store_connections
  create_taken w db r found stored owned = ground (
    arith,
    taken_key w db r found,
    some_of-append (λ (c : TenantConnection). c.id == fresh.connection_id) db.tenant_connections
        (new_connection s input fresh clock w),
    some_of-append (λ (j : Job). j.id == fresh.job_id) db.jobs (new_job s input fresh clock),
  )

  found_workspace :
      (i : ℕ) (w : Workspace) (ws : List Workspace)
      → select_first (λ x. x.id == i) ws ≡ some w
      → some_of (λ (x : Workspace). x.id == w.id && x.organization_id == w.organization_id) ws
        ≡ true
  unfolding select_first
  found_workspace i w [] e = absurd (cc e)
  found_workspace i w (x ∷ ws) e = elim (Bool-cases (x.id == i)) [
    | inl hit ↦ ground arith
    | inr miss ↦ ground (arith, found_workspace i w ws)
  ]

  module _ (others : Database → Database) (grants : List AccessGrant) (w : Workspace)
      (db : Database) where
    -- A call whose look-up saw no record, while another session committed one for the same request
    -- before the insertions: if the driver reports a violated unique index as PostgreSQL does, the
    -- call rolls its own rows back and answers with the winner's connection and job.
    pub start_lost_race :
        (c : TenantConnectionDto) (j : Job)
        → IsAdmitted s input grants w db
        → find_record w.organization_id input.idempotency_key db ≡ none
        → (others db).workspaces ≡ db.workspaces
        → some_of (λ (o : Organization). o.id == w.organization_id) (others db).organizations ≡ true
        → is_unique_violation s.driver.unique_violation ≡ true
        → IsStored s input w (others db) c j
        → start_tenant_validation s input fresh clock others grants db
          ≡ (ok (accepted c j true), others db)
    unfolding start_in_workspace
    start_lost_race c j a unseen same owned coded k =
        start_admitted s input fresh clock others grants w db a
        ∙ rw
            (
              unseen,
              start_in_workspace,
              create_taken w (others db) k.stored k.by_key
                  (rw same (found_workspace a.workspace_id w db.workspaces a.found)) owned,
              coded,
              recover_reuse_found s input fresh clock w (others db) k.stored k.by_key,
              stored_reuse s input fresh clock w (others db) c j k,
            )
            refl
