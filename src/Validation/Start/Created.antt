-- ===== src/Validation/Start/Created.antt =====
-- packages/product/src/tenant-validation.ts, `startTenantValidation`: what it writes.
use inbox_saas.Prelude.{
  ℕ, ◌≡◌, refl, ap, ◌⊎◌, inl, inr, true, false, none, some, List, arith, str_eq, Bool-cases,
  Option-cases,
}
use inbox_saas.Errors.{
  Error, plain, Result, ok, err, ◌>>=◌, ◌>>◌, Result-cases, is_unique_violation,
}
use inbox_saas.Access.{AccessGrant}
use inbox_saas.Entitlements.{get_organization_entitlement}
use inbox_saas.Table.{insert_row}
use inbox_saas.Schema.{
  Workspace, IdempotencyRecord, Database, jobs_valid, connections_valid, records_valid,
}
use inbox_saas.Schema.Statements.{
  store_jobs, store_connections, insert_connection, insert_job, insert_record, insert_event,
}
use inbox_saas.Validation.Base.{
  Services, to_tenant_connection_dto, get_job_with_tenant, Outcome, settle,
}
use inbox_saas.Validation.Start.{
  StartInput, StartResult, not_found, idempotency_conflict, accepted, Fresh, find_workspace,
  find_record, may_write, read_uuid, assert_start_input, new_connection, new_job, new_record,
  new_event, create, reuse, recover_reuse, start_in_workspace, catch_violation, entitled_start,
  start_tenant_validation,
}

module _ (s : Services) (input : StartInput) (fresh : Fresh) (clock : ℕ) where
  -- The database with the four new rows, and with nothing else changed.
  abbrev pub with_rows : Workspace → Database → Database
  with_rows w db = record db {
    tenant_connections = insert_row (new_connection s input fresh clock w) db.tenant_connections;
    jobs = insert_row (new_job s input fresh clock) db.jobs;
    idempotency_records = insert_row (new_record s input fresh clock w) db.idempotency_records;
    outbox_events = insert_row (new_event s input fresh clock) db.outbox_events;
  }

  -- What the insertions have checked when they succeed.
  pub record IsCreated (w : Workspace) (db : Database) (r : StartResult) (db' : Database)
      : Type 0 where
    pub answer :
        r
        ≡ accepted
            (to_tenant_connection_dto (new_connection s input fresh clock w))
            (new_job s input fresh clock)
            false
    pub rows : db' ≡ with_rows w db
    pub connections_hold :
        connections_valid (insert_row (new_connection s input fresh clock w) db.tenant_connections)
        ≡ true
    pub jobs_hold : jobs_valid (insert_row (new_job s input fresh clock) db.jobs) ≡ true
    pub records_hold :
        records_valid (insert_row (new_record s input fresh clock w) db.idempotency_records) ≡ true

  pub create-IsCreated :
      (w : Workspace) (db : Database) (r : StartResult) (db' : Database)
      → create s input fresh clock w db ≡ ok (r, db')
      → IsCreated w db r db'
  unfolding create insert_connection insert_job insert_record insert_event store_jobs
      store_connections
  create-IsCreated w db r db' e = record {
    answer = ground arith;
    rows = ground arith;
    connections_hold = ground arith;
    jobs_hold = ground arith;
    records_hold = ground arith;
  }

  -- The answer of a call that created nothing: a failure, a refusal, or a stored job.
  abbrev pub IsReadOnly : Result StartResult → Type 0
  IsReadOnly (err e) = Unit {0}
  IsReadOnly (ok not_found) = Unit {0}
  IsReadOnly (ok idempotency_conflict) = Unit {0}
  IsReadOnly (ok (accepted c j reused)) = reused ≡ true

  reuse-IsReadOnly :
      (r : IdempotencyRecord) (db : Database) → IsReadOnly (reuse s input fresh clock r db)
  unfolding reuse
  reuse-IsReadOnly r db = ground arith

  recover_reuse-IsReadOnly :
      (w : Workspace) (db : Database) → IsReadOnly (recover_reuse s input fresh clock w db)
  unfolding recover_reuse get_job_with_tenant
  recover_reuse-IsReadOnly w db = ground arith

  -- Either the four rows at once, in the database that the other sessions left, or no row at all.
  abbrev pub AllOrNothing : Workspace → Database → Outcome StartResult → Type 0
  AllOrNothing w later (r, db') =
      (IsReadOnly r × (db' ≡ later))
      ⊎ ((r
            ≡ ok (
                accepted (to_tenant_connection_dto (new_connection s input fresh clock w))
                  (new_job s input fresh clock) false))
          × (db' ≡ with_rows w later))

  reused-AllOrNothing :
      (w : Workspace) (later : Database) (m : Result StartResult)
      → IsReadOnly m
      → AllOrNothing w later (settle later (m >>= λ a. ok (a, later)))
  reused-AllOrNothing w later (ok a) h = inl (h, refl)
  reused-AllOrNothing w later (err e) h = inl (tt, refl)

  caught-AllOrNothing :
      (w : Workspace) (later : Database) (m : Result (StartResult × Database))
      → create s input fresh clock w later ≡ m
      → AllOrNothing w later (catch_violation s input fresh clock w later m)
  caught-AllOrNothing w later (ok (r, db')) e =
      let c = create-IsCreated w later r db' e in inr (ap ok c.answer, c.rows)
  caught-AllOrNothing w later (err x) e = elim (Bool-cases (is_unique_violation x)) [
    | inl violated ↦ rw violated (inl (recover_reuse-IsReadOnly w later, refl))
    | inr other ↦ rw other (inl (tt, refl))
  ]

  start_in_workspace-AllOrNothing :
      (others : Database → Database) (w : Workspace) (db : Database)
      → AllOrNothing w (others db) (start_in_workspace s input fresh clock others w db)
  unfolding start_in_workspace
  start_in_workspace-AllOrNothing others w db =
      elim (Option-cases (find_record w.organization_id input.idempotency_key db)) [
        | inl e ↦ rw (e, start_in_workspace) (caught-AllOrNothing w (others db) _ refl)
        | inr (r, e) ↦
            rw (e, start_in_workspace)
              (reused-AllOrNothing w (others db) _ (reuse-IsReadOnly r (others db)))
      ]

  entitled_cases :
      (others : Database → Database) (w : Workspace) (db : Database)
      → ((e : Error) × (entitled_start s input fresh clock others w db ≡ (err e, db)))
        ⊎ (entitled_start s input fresh clock others w db
            ≡ start_in_workspace s input fresh clock others w db)
  unfolding get_organization_entitlement
  entitled_cases others w db = elim (Bool-cases (str_eq (s.uuid_text w.organization_id) "")) [
    | inl e ↦ inl (
      plain "Organization ID is required" none,
      rw (e, entitled_start, get_organization_entitlement) refl,
    )
    | inr e ↦ inr (rw (e, entitled_start, get_organization_entitlement) refl)
  ]

  pub read_uuid-some :
      (i : ℕ)
      → (assert_start_input input >> read_uuid s input.workspace_id) ≡ ok i
      → s.uuid_of input.workspace_id ≡ some i
  read_uuid-some i h = ground arith

  -- What a call may do: nothing at all, or, for a workspace that the grants may write to, what
  -- `AllOrNothing` says.
  abbrev pub StartEffect :
      (Database → Database) → List AccessGrant → Database → Outcome StartResult → Type 0
  StartEffect others grants db (r, db') =
      ((r ≡ ok not_found) × (db' ≡ db))
      ⊎ ((e : Error) × (r ≡ err e) × (db' ≡ db))
      ⊎ ((i : ℕ) × (w : Workspace) × (s.uuid_of input.workspace_id ≡ some i)
          × (find_workspace i db ≡ some w)
          × (may_write grants w ≡ true)
          × AllOrNothing w (others db) (r, db'))

  -- A call of `startTenantValidation` either changes nothing of its own, or, under write authority
  -- for the stored workspace, adds exactly one connection, job, idempotency record and outbox event
  -- that refer to one another, in one transaction on top of what other sessions committed; without
  -- that authority the answer is `not_found` or an error, and the database is as before.
  pub start_effect :
      (others : Database → Database) (grants : List AccessGrant) (db : Database)
      → StartEffect others grants db (start_tenant_validation s input fresh clock others grants db)
  unfolding start_tenant_validation
  start_effect others grants db =
      elim (Result-cases (assert_start_input input >> read_uuid s input.workspace_id)) [
        | inr (x, e) ↦ rw (e, start_tenant_validation) (inr (inl (x, refl, refl)))
        | inl (i, e) ↦ elim (Option-cases (find_workspace i db)) [
          | inl gone ↦ rw (e, gone, start_tenant_validation) (inl (refl, refl))
          | inr (w, found) ↦ elim (Bool-cases (may_write grants w)) [
            | inr refused ↦ rw (e, found, refused, start_tenant_validation) (inl (refl, refl))
            | inl allowed ↦
                rw (e, found, allowed, start_tenant_validation)
                  (elim (entitled_cases others w db) [
                    | inl (x, thrown) ↦ rw thrown (inr (inl (x, refl, refl)))
                    | inr same ↦ rw same (
                        inr (
                          inr (
                            i,
                            w,
                            read_uuid-some i e,
                            found,
                            allowed,
                            start_in_workspace-AllOrNothing others w db,
                          )))
                  ])
          ]
        ]
      ]
