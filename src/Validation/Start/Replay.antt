-- ===== src/Validation/Start/Replay.antt =====
-- packages/product/src/tenant-validation.ts, `startTenantValidation`: idempotency by key.
use text.Mathlib.TextPositions.{eq_refl as str_eq_refl}
use inbox_saas.Prelude.{
  ℕ, ◌≡◌, refl, ap, sym, ◌∙◌, ◌⊎◌, inl, inr, Bool, true, Option, none, some, List, arith, ◌==◌,
  ==_refl, String, Bool-cases, Option-cases,
}
use inbox_saas.Errors.{Result, ok, err, ◌>>=◌, or_throw, is_unique_violation}
use inbox_saas.Access.{AccessGrant}
use inbox_saas.Table.{insert_row}
use inbox_saas.Table.Laws.{inserted_first}
use inbox_saas.Schema.{
  Workspace, TenantConnection, Job, IdempotencyRecord, Database, jobs_valid, connections_valid,
  records_valid, records_clash,
}
use inbox_saas.Validation.Base.{
  Services, TenantConnectionDto, to_tenant_connection_dto, find_job, find_connection,
  get_job_with_tenant, settle,
}
use inbox_saas.Validation.Start.{
  StartInput, StartResult, idempotency_conflict, accepted, Fresh, find_record, same_request,
  fingerprint_of, new_connection, new_job, new_record, reuse, recover_reuse, catch_violation,
  start_in_workspace, start_tenant_validation,
}
use inbox_saas.Validation.Start.Admission.{
  IsAdmitted-workspaces, start_admitted, accepted-IsAdmitted,
}
use inbox_saas.Validation.Start.Created.{IsCreated, create-IsCreated, with_rows}

module _ (s : Services) (input : StartInput) where
  -- The key's record is for this very request, and leads to the job and its connection.
  pub record IsStored (w : Workspace) (db : Database) (c : TenantConnectionDto) (j : Job)
      : Type 0 where
    pub stored : IdempotencyRecord
    pub connection : TenantConnection
    pub by_key : find_record w.organization_id input.idempotency_key db ≡ some stored
    pub same : same_request stored (fingerprint_of s input) ≡ true
    pub job_found : find_job stored.job_id db ≡ some j
    pub connection_found : find_connection j.tenant_connection_id db ≡ some connection
    pub shown : to_tenant_connection_dto connection ≡ c

module _ (s : Services) (input : StartInput) (fresh : Fresh) (clock : ℕ) where
  stored_record :
      (w : Workspace) (db : Database)
      → records_valid (insert_row (new_record s input fresh clock w) db.idempotency_records) ≡ true
      → find_record w.organization_id input.idempotency_key (with_rows s input fresh clock w db)
        ≡ some (new_record s input fresh clock w)
  unfolding records_valid
  stored_record w db valid =
      inserted_first _ records_clash db.idempotency_records _ (λ x. refl)
        (simp (==_refl, str_eq_refl)) (ground arith)

  stored_job :
      (w : Workspace) (db : Database)
      → jobs_valid (insert_row (new_job s input fresh clock) db.jobs) ≡ true
      → find_job fresh.job_id (with_rows s input fresh clock w db)
        ≡ some (new_job s input fresh clock)
  unfolding jobs_valid
  stored_job w db valid =
      inserted_first _ (λ (a b : Job). a.id == b.id) db.jobs _ (λ x. refl) (==_refl fresh.job_id)
        (ground arith)

  stored_connection :
      (w : Workspace) (db : Database)
      → connections_valid (insert_row (new_connection s input fresh clock w) db.tenant_connections)
        ≡ true
      → find_connection fresh.connection_id (with_rows s input fresh clock w db)
        ≡ some (new_connection s input fresh clock w)
  unfolding connections_valid
  stored_connection w db valid =
      inserted_first _ (λ (a b : TenantConnection). a.id == b.id) db.tenant_connections _
        (λ x. refl) (==_refl fresh.connection_id) (ground arith)

  pub created-IsStored :
      (w : Workspace) (later db' : Database) (c : TenantConnectionDto) (j : Job) (b : Bool)
      → IsCreated s input fresh clock w later (accepted c j b) db'
      → IsStored s input w db' c j
  created-IsStored w later db' c j b k =
      let job_is : j ≡ new_job s input fresh clock = cc (k.answer) in
      rw (k.rows, job_is)
        (record {
          stored = new_record s input fresh clock w;
          connection = new_connection s input fresh clock w;
          by_key = stored_record w later k.records_hold;
          same = str_eq_refl (fingerprint_of s input);
          job_found = stored_job w later k.jobs_hold;
          connection_found = stored_connection w later k.connections_hold;
          shown = cc (k.answer);
        })

  -- A successful look-up of a row that must be there.
  or_throw-ok : {A : Type 0} (o : Option A) (m : String) {a : A} → or_throw o m ≡ ok a → o ≡ some a
  or_throw-ok o m e = ground arith

  reuse-IsStored :
      (w : Workspace) (db : Database) (r : IdempotencyRecord) (c : TenantConnectionDto) (j : Job)
      (b : Bool)
      → find_record w.organization_id input.idempotency_key db ≡ some r
      → reuse s input fresh clock r db ≡ ok (accepted c j b)
      → IsStored s input w db c j
  unfolding reuse
  reuse-IsStored w db r c j b found e = elim (Option-cases (find_job r.job_id db)) [
    | inl gone ↦ absurd (ground arith)
    | inr (j', job_found) ↦ elim (Option-cases (find_connection j'.tenant_connection_id db)) [
      | inl lost ↦ absurd (ground arith)
      | inr (c', connected) ↦
          let job_is : j' ≡ j = ground arith in
          record {
            stored = r;
            connection = c';
            by_key = found;
            same = ground arith;
            job_found = rw job_found (ap some job_is);
            connection_found = rw (← job_is) connected;
            shown = ground arith;
          }
    ]
  ]

  -- The handler of a violation answers as the transaction would have, had it seen the record.
  pub recover_reuse_found :
      (w : Workspace) (db : Database) (r : IdempotencyRecord)
      → find_record w.organization_id input.idempotency_key db ≡ some r
      → recover_reuse s input fresh clock w db ≡ reuse s input fresh clock r db
  unfolding recover_reuse reuse get_job_with_tenant
  recover_reuse_found w db r found = ground arith

  recover_reuse-none :
      (w : Workspace) (db : Database)
      → find_record w.organization_id input.idempotency_key db ≡ none
      → recover_reuse s input fresh clock w db ≡ ok idempotency_conflict
  unfolding recover_reuse
  recover_reuse-none w db gone = ground arith

  recover_reuse-IsStored :
      (w : Workspace) (db : Database) (c : TenantConnectionDto) (j : Job) (b : Bool)
      → recover_reuse s input fresh clock w db ≡ ok (accepted c j b)
      → IsStored s input w db c j
  recover_reuse-IsStored w db c j b e =
      elim (Option-cases (find_record w.organization_id input.idempotency_key db)) [
        | inl gone ↦ absurd (cc (sym (recover_reuse-none w db gone) ∙ e))
        | inr (r, found) ↦
            reuse-IsStored w db r c j b found (sym (recover_reuse_found w db r found) ∙ e)
      ]

  reused_of :
      (later db' : Database) (m : Result StartResult) (a : StartResult)
      → settle later (m >>= λ x. ok (x, later)) ≡ (ok a, db')
      → (m ≡ ok a) × (db' ≡ later)
  reused_of later db' (ok x) a e = (ground arith, ground arith)
  reused_of later db' (err x) a e = absurd (ground arith)

  caught_of :
      (w : Workspace) (later db' : Database) (m : Result (StartResult × Database)) (a : StartResult)
      → catch_violation s input fresh clock w later m ≡ (ok a, db')
      → (m ≡ ok (a, db')) ⊎ ((recover_reuse s input fresh clock w later ≡ ok a) × (db' ≡ later))
  caught_of w later db' (ok (r, db₁)) a e = inl (ground arith)
  caught_of w later db' (err x) a e = elim (Bool-cases (is_unique_violation x)) [
    | inl violated ↦ inr (ground arith, ground arith)
    | inr other ↦ absurd (ground arith)
  ]

  -- Whatever way an accepted answer came about, its record, job and connection are stored.
  pub accepted-IsStored :
      (others : Database → Database) (w : Workspace) (db db' : Database) (c : TenantConnectionDto)
      (j : Job) (b : Bool)
      → ((r : IdempotencyRecord)
          → find_record w.organization_id input.idempotency_key db ≡ some r
          → find_record w.organization_id input.idempotency_key (others db) ≡ some r)
      → start_in_workspace s input fresh clock others w db ≡ (ok (accepted c j b), db')
      → IsStored s input w db' c j × (db'.workspaces ≡ (others db).workspaces)
  unfolding start_in_workspace
  accepted-IsStored others w db db' c j b kept e =
      elim (Option-cases (find_record w.organization_id input.idempotency_key db)) [
        | inr (r, found) ↦
            let (answer, same) =
              reused_of (others db) db' _ _ (rw (found, start_in_workspace) at e) in
            rw same (reuse-IsStored w (others db) r c j b (kept r found) answer, refl)
        | inl fresh_key ↦
            elim (caught_of w (others db) db' _ _ (rw (fresh_key, start_in_workspace) at e)) [
              | inl made ↦
                  let k = create-IsCreated s input fresh clock w (others db) _ db' made in
                  (created-IsStored w (others db) db' c j b k, ap (λ d. d.workspaces) k.rows)
              | inr (answer, same) ↦
                  rw same (recover_reuse-IsStored w (others db) c j b answer, refl)
            ]
      ]

  -- A stored request is answered from the store, whatever is drawn at random and whatever the time.
  pub stored_reuse :
      (w : Workspace) (db : Database) (c : TenantConnectionDto) (j : Job)
      (k : IsStored s input w db c j)
      → reuse s input fresh clock k.stored db ≡ ok (accepted c j true)
  unfolding reuse
  stored_reuse w db c j k = rw (k.same, k.job_found, k.connection_found, k.shown) refl

  pub stored_start :
      (w : Workspace) (db : Database) (c : TenantConnectionDto) (j : Job)
      → IsStored s input w db c j
      → start_in_workspace s input fresh clock (λ d. d) w db ≡ (ok (accepted c j true), db)
  unfolding start_in_workspace
  stored_start w db c j k = rw (k.by_key, start_in_workspace, stored_reuse w db c j k) refl

-- What other sessions of the program may do meanwhile: they neither change the workspaces nor take
-- an idempotency record away.
pub record KeepsRecords (others : Database → Database) (db : Database) : Type 0 where
  pub workspaces : (others db).workspaces ≡ db.workspaces
  pub records :
      (organization_id : ℕ) (key : String) (r : IdempotencyRecord)
      → find_record organization_id key db ≡ some r
      → find_record organization_id key (others db) ≡ some r

-- An accepted call can be repeated: with the same input and grants, any new random values and any
-- clock, the second call returns the same connection and job, marked as reused, and changes
-- nothing. It holds also where the first call lost a race for its key to another session, as long
-- as other sessions keep the workspaces and the idempotency records.
pub start_replay :
    (s : Services) (input : StartInput) (fresh fresh' : Fresh) (clock clock' : ℕ)
    (others : Database → Database) (grants : List AccessGrant) (db db' : Database)
    (c : TenantConnectionDto) (j : Job) (b : Bool)
    → KeepsRecords others db
    → start_tenant_validation s input fresh clock others grants db ≡ (ok (accepted c j b), db')
    → start_tenant_validation s input fresh' clock' (λ d. d) grants db'
      ≡ (ok (accepted c j true), db')
start_replay s input fresh fresh' clock clock' others grants db db' c j b keeps e =
    let (w, admitted, started) =
      accepted-IsAdmitted s input fresh clock others grants db db' c j b e in
    let (k, same) =
      accepted-IsStored s input fresh clock others w db db' c j b
        (keeps.records w.organization_id input.idempotency_key) started in
    start_admitted s input fresh' clock' (λ d. d) grants w db'
      (IsAdmitted-workspaces s input grants w db db' (same ∙ keeps.workspaces) admitted)
    ∙ stored_start s input fresh' clock' w db' c j k
