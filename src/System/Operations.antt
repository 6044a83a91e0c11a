-- ===== src/System/Operations.antt =====
-- packages/product/src/tenant-validation.ts: starting, claiming, renewing and recovering let the
-- database evolve.
use inbox_saas.Prelude.{
  ℕ, suc, ◌+◌, refl, inl, inr, Option, none, some, List, [], ◌∷◌, first, Bool-cases, if◌then◌else◌,
}
use inbox_saas.Errors.{
  Result, ok, err, OkHolds, >>=-OkHolds, map-OkHolds, all-OkHolds, ◌>>=◌, ◌>>◌, is_unique_violation,
}
use inbox_saas.Access.{AccessGrant}
use inbox_saas.Entitlements.{get_organization_entitlement}
use inbox_saas.Table.{update_where, returning}
use inbox_saas.Schema.{Workspace, IdempotencyRecord, Job, Database}
use inbox_saas.Schema.Statements.{
  Driver, store_jobs, insert_event, insert_connection, insert_job, insert_record,
}
use inbox_saas.Validation.Base.{Services, Outcome, Duration, positive_duration, settle}
use inbox_saas.Validation.Lease.{
  is_overflown, is_claimable, claim_job, show_claimed, claim_tenant_validation_job, is_fenced,
  extend_job, renew_tenant_validation_job_lease,
}
use inbox_saas.Validation.Recovery.{
  is_recoverable, requeue_job, recovery_event, recover_each, expired_jobs,
  recover_expired_tenant_validation_jobs,
}
use inbox_saas.Validation.Start.{
  StartInput, StartResult, Fresh, new_connection, new_job, new_record, new_event, create,
  start_in_workspace, catch_violation, entitled_start, find_record, find_workspace, may_write,
  read_uuid, assert_start_input, start_tenant_validation, reuse,
}
use inbox_saas.System.Consistency.{Evolves, Evolves-refl, Evolves-trans}
use inbox_saas.System.Moves.{claim-IsLifeStep, renew-IsLifeStep, recover-IsLifeStep}
use inbox_saas.System.Statements.{store_jobs-Evolves}
use inbox_saas.System.Insertions.{
  insert_connection-Evolves, insert_job-Evolves, insert_record-Evolves, insert_event-Evolves,
}

pub settled-Evolves :
    {A : Type 0} (db : Database) (m : Result (A × Database))
    → OkHolds (λ (x : A × Database). Evolves db x.1) m
    → Evolves db (settle db m).1
settled-Evolves db (ok (a, db')) h = h
settled-Evolves db (err e) h = Evolves-refl db

-- A step that may throw before anything is written.
tried-Evolves :
    {A B : Type 0} (db : Database) (o : Result B) (k : B → Outcome A)
    → OkHolds (λ b. Evolves db (k b).1) o
    → Evolves db (let r : Outcome A = elim o [ err e ↦ (err e, db) | ok b ↦ k b ] in r.1)
tried-Evolves db (err e) k h = Evolves-refl db
tried-Evolves db (ok b) k h = h

passed :
    {A B : Type 0} (P : A → Type 0) (o : Result B) (k : B → Result A)
    → OkHolds (λ b. OkHolds P (k b)) o
    → OkHolds P (let r : Result A = elim o [ err e ↦ err e | ok b ↦ k b ] in r)
passed P (err e) k h = tt
passed P (ok b) k h = h

shown-Evolves :
    (db db' : Database) (o : Option Job) → Evolves db db' → Evolves db (show_claimed db' o).1
shown-Evolves db db' none h = h
shown-Evolves db db' (some j) h = h

pub claim-Evolves :
    (d : Driver) (i now token clock : ℕ) (ms : Duration) (db : Database)
    → Evolves db (claim_tenant_validation_job d i now ms token clock db).1
unfolding claim_tenant_validation_job
claim-Evolves d i now token clock ms db = tried-Evolves db (positive_duration ms) _ (
    all-OkHolds _ (positive_duration ms) (λ n.
      let p = is_claimable i now in
      let f = claim_job now (now + n) token clock in
      elim (Bool-cases (is_overflown (first (returning p f db.jobs)))) [
        | inl over ↦ rw over (Evolves-refl db)
        | inr fits ↦ rw fits (
            tried-Evolves db (store_jobs d (update_where p f db.jobs) db) _ (
              map-OkHolds (Evolves db) _ _ (λ db' h. shown-Evolves db db' _ h)
                (store_jobs-Evolves d i _ _ db (claim-IsLifeStep i now (now + n) token clock))))
      ]))

pub renew-Evolves :
    (d : Driver) (i token now clock : ℕ) (ms : Duration) (db : Database)
    → Evolves db (renew_tenant_validation_job_lease d i token now ms clock db).1
unfolding renew_tenant_validation_job_lease
renew-Evolves d i token now clock ms db = tried-Evolves db (positive_duration ms) _ (
    all-OkHolds _ (positive_duration ms) (λ n.
      tried-Evolves db
        (store_jobs d (update_where (is_fenced i token now) (extend_job (now + n) clock) db.jobs)
          db)
        _
        (map-OkHolds (Evolves db) _ _ (λ db' h. h)
          (store_jobs-Evolves d i _ _ db (renew-IsLifeStep i token now (now + n) clock)))))

module _ (d : Driver) (now clock : ℕ) (fresh : ℕ → ℕ) where
  after_update :
      (xs : List Job) (count : ℕ) (db db₁ : Database)
      → ((db' : Database)
          → OkHolds
              (λ (y : ℕ × Database). Evolves db' y.1)
              (recover_each d now clock fresh xs count db'))
      → ((db' : Database)
          → OkHolds
              (λ (y : ℕ × Database). Evolves db' y.1)
              (recover_each d now clock fresh xs (suc count) db'))
      → Evolves db db₁
      → (o : Option Job)
      → OkHolds
          (λ (y : ℕ × Database). Evolves db y.1)
          (let r : Result (ℕ × Database) = elim o [
            | none ↦ recover_each d now clock fresh xs count db₁
            | some j ↦
                elim (insert_event d (recovery_event d now clock fresh (fresh count) j.id) db₁) [
                  | err e ↦ err e
                  | ok db₂ ↦ recover_each d now clock fresh xs (suc count) db₂
                ]
          ] in
            r)
  after_update xs count db db₁ same more h none =
      map-OkHolds _ _ (recover_each d now clock fresh xs count db₁)
        (λ y e. Evolves-trans db db₁ y.1 h e) (same db₁)
  after_update xs count db db₁ same more h (some j) =
      let e = recovery_event d now clock fresh (fresh count) j.id in
      passed (λ (y : ℕ × Database). Evolves db y.1) (insert_event d e db₁) _
        (map-OkHolds (Evolves db₁) _ (insert_event d e db₁)
          (λ db₂ k.
            map-OkHolds _ _ (recover_each d now clock fresh xs (suc count) db₂)
              (λ y g. Evolves-trans db db₁ y.1 h (Evolves-trans db₁ db₂ y.1 k g)) (more db₂))
          (insert_event-Evolves d e db₁))

  recover_each-Evolves :
      (js : List Job) (count : ℕ) (db : Database)
      → OkHolds (λ (x : ℕ × Database). Evolves db x.1) (recover_each d now clock fresh js count db)
  unfolding recover_each
  recover_each-Evolves [] count db = Evolves-refl db
  recover_each-Evolves (x ∷ xs) count db =
      let p = is_recoverable x.id now in
      let f = requeue_job now clock in
      passed (λ (y : ℕ × Database). Evolves db y.1) (store_jobs d (update_where p f db.jobs) db) _
        (map-OkHolds (Evolves db) _ (store_jobs d (update_where p f db.jobs) db)
          (λ db₁ h.
            after_update xs count db db₁ (recover_each-Evolves xs count)
              (recover_each-Evolves xs (suc count)) h (first (returning p f db.jobs)))
          (store_jobs-Evolves d x.id p f db (recover-IsLifeStep x.id now clock)))

  pub recover-Evolves :
      (others : Database → Database) (db : Database)
      → Evolves (others db) (recover_expired_tenant_validation_jobs d now clock fresh others db).1
  unfolding recover_expired_tenant_validation_jobs
  recover-Evolves others db =
      settled-Evolves (others db) _ (recover_each-Evolves (expired_jobs now db) 0 (others db))

module _ (s : Services) (input : StartInput) (fresh : Fresh) (clock : ℕ) where
  create-Evolves :
      (w : Workspace) (db : Database)
      → OkHolds (λ (x : StartResult × Database). Evolves db x.1) (create s input fresh clock w db)
  unfolding create
  create-Evolves w db =
      let c = new_connection s input fresh clock w in
      let j = new_job s input fresh clock in
      let r = new_record s input fresh clock w in
      let e = new_event s input fresh clock in
      >>=-OkHolds (Evolves db) _ (insert_connection s.driver c db) _
        (insert_connection-Evolves s.driver c db)
        (λ db₁ a.
          >>=-OkHolds (Evolves db₁) _ (insert_job s.driver j db₁) _
            (insert_job-Evolves s.driver j db₁ (refl, refl))
            (λ db₂ b.
              >>=-OkHolds (Evolves db₂) _ (insert_record s.driver r db₂) _
                (insert_record-Evolves s.driver r db₂)
                (λ db₃ g.
                  >>=-OkHolds (Evolves db₃) _ (insert_event s.driver e db₃) _
                    (insert_event-Evolves s.driver e db₃)
                    (λ db₄ h.
                      Evolves-trans db db₁ db₄ a
                        (Evolves-trans db₁ db₂ db₄ b (Evolves-trans db₂ db₃ db₄ g h))))))

  caught-Evolves :
      (w : Workspace) (db : Database) (m : Result (StartResult × Database))
      → OkHolds (λ (x : StartResult × Database). Evolves db x.1) m
      → Evolves db (catch_violation s input fresh clock w db m).1
  caught-Evolves w db (ok (r, db')) h = h
  caught-Evolves w db (err e) h = elim (Bool-cases (is_unique_violation e)) [
    | inl v ↦ rw v (Evolves-refl db)
    | inr v ↦ rw v (Evolves-refl db)
  ]

  module _ (others : Database → Database) (db : Database) (gap : Evolves db (others db)) where
    looked_up-Evolves :
        (w : Workspace) (o : Option IdempotencyRecord)
        → Evolves db (
            let r : Outcome StartResult = elim o [
              | some r ↦
                  settle
                    (others db)
                    (reuse s input fresh clock r (others db) >>= λ a. ok (a, others db))
              | none ↦
                  catch_violation s input fresh clock w
                    (others db)
                    (create s input fresh clock w (others db))
            ] in
            r.1)
    looked_up-Evolves w (some r) = Evolves-trans db (others db) _ gap (
        settled-Evolves (others db) _ (
          >>=-OkHolds (λ a. Unit {0}) _ (reuse s input fresh clock r (others db)) _
            (all-OkHolds _ (reuse s input fresh clock r (others db)) (λ a. tt))
            (λ a u. Evolves-refl (others db))))
    looked_up-Evolves w none = Evolves-trans db (others db) _ gap (
        caught-Evolves w (others db) (create s input fresh clock w (others db))
          (create-Evolves w (others db)))

    entitled-Evolves :
        (w : Workspace) → Evolves db (entitled_start s input fresh clock others w db).1
    unfolding start_in_workspace
    entitled-Evolves w =
        tried-Evolves db (get_organization_entitlement (s.uuid_text w.organization_id)) _ (
          all-OkHolds _ (get_organization_entitlement (s.uuid_text w.organization_id)) (λ t.
            elim (Bool-cases t.entitled) [
              | inl e ↦
                  rw e
                    (looked_up-Evolves w (find_record w.organization_id input.idempotency_key db))
              | inr e ↦ rw e (Evolves-refl db)
            ]))

    permitted-Evolves :
        (grants : List AccessGrant) (o : Option Workspace)
        → Evolves db (
            let r : Outcome StartResult = elim o [
              | none ↦ (ok StartResult.not_found, db)
              | some w ↦
                  if may_write grants w
                  then entitled_start s input fresh clock others w db
                  else (ok StartResult.not_found, db)
            ] in
            r.1)
    permitted-Evolves grants none = Evolves-refl db
    permitted-Evolves grants (some w) = elim (Bool-cases (may_write grants w)) [
      | inl e ↦ rw e (entitled-Evolves w)
      | inr e ↦ rw e (Evolves-refl db)
    ]

    pub start-Evolves :
        (grants : List AccessGrant)
        → Evolves db (start_tenant_validation s input fresh clock others grants db).1
    unfolding start_tenant_validation
    start-Evolves grants =
        tried-Evolves db (assert_start_input input >> read_uuid s input.workspace_id) _ (
          all-OkHolds _ (assert_start_input input >> read_uuid s input.workspace_id)
            (λ i. permitted-Evolves grants (find_workspace i db)))
