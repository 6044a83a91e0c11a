-- ===== src/Validation/Recovery/Rows.antt =====
-- packages/product/src/tenant-validation.ts, `recoverExpiredTenantValidationJobs`: one turn of the
-- loop over the expired jobs.
use mathlib.Core.Option
use inbox_saas.Prelude.{
  ℕ, suc, ◌≡◌, refl, ap, sym, ◌∙◌, inl, inr, Bool, true, false, Option, none, some, List, [], ◌∷◌,
  ◌++◌, ◌==◌, ◌&&◌, arith, keep, first, some_of, Bool-cases, Option-cases, if◌then◌else◌,
}
use inbox_saas.Errors.{ok}
use inbox_saas.Table.{update_where, returning, insert_row, is_distinct}
use inbox_saas.Table.Laws.{select_key, some_of-some}
use inbox_saas.Schema.{
  is_running, queued, tenant_validation_requested, Job, OutboxEvent, Database, jobs_valid,
  events_valid,
}
use inbox_saas.Schema.Statements.{Driver, insert_event}
use inbox_saas.Validation.Base.{find_job, is_due}
use inbox_saas.Validation.Start.{is_tenant_validation}
use inbox_saas.Validation.Jobs.{IsMove, move-store_jobs, move-returning, move-find_job}
use inbox_saas.Validation.Recovery.{
  is_expired, requeue_job, is_recoverable, recovery_event, recover_each,
}

unset : (b : Bool) (u v : Job) → (if b && false then u else v) ≡ v
unset true u v = refl
unset false u v = refl

distinct_prefix :
    {A : Type 0} (clash : A → A → Bool) (xs ys : List A)
    → is_distinct clash (xs ++ ys) ≡ true
    → is_distinct clash xs ≡ true
unfolding is_distinct
distinct_prefix clash [] ys h = refl
distinct_prefix clash (x ∷ xs) ys h =
    ground (arith, some_of-prefix (clash x) xs ys, distinct_prefix clash xs ys)
  where
    some_of-prefix :
        {A : Type 0} (p : A → Bool) (xs ys : List A)
        → some_of p (xs ++ ys) ≡ false
        → some_of p xs ≡ false
    some_of-prefix p [] ys h = refl
    some_of-prefix p (x ∷ xs) ys h = ground (arith, some_of-prefix p xs ys)

pub events_valid-prefix :
    (xs ys : List OutboxEvent) → events_valid (xs ++ ys) ≡ true → events_valid xs ≡ true
unfolding events_valid
events_valid-prefix xs ys h = distinct_prefix (λ a b. a.id == b.id) xs ys h

abbrev pub same_id : Job → Job → Bool
same_id a b = a.id == b.id

-- The row is among the selected ones.
abbrev pub is_selected : List Job → Job → Bool
is_selected js j = some_of (λ (x : Job). j.id == x.id) js

pub recover-IsMove : (i now clock : ℕ) → IsMove i (is_recoverable i now) (requeue_job now clock)
recover-IsMove i now clock = record {
  only = λ j h. ground arith;
  id = λ j. refl;
  connection = λ j. refl;
  open_before = λ j h. ground arith;
}

-- The running jobs of a database whose lease has run out.
abbrev pub run_out : ℕ → Database → List Job
run_out now db =
    keep
      (λ j.
        is_tenant_validation j.operation && (is_running j.state && is_due j.lease_expires_at now))
      db.jobs

module _ (d : Driver) (now clock : ℕ) (fresh : ℕ → ℕ) where
  -- The lease of the stored job has run out.
  abbrev pub is_expired_row : Option Job → Bool
  is_expired_row none = false
  is_expired_row (some j) = is_running j.state && is_due j.lease_expires_at now

  abbrev pub is_left : Database → ℕ → Bool
  is_left db i = is_expired_row (find_job i db)

  -- The selected jobs that are still expired when the recovery comes to them.
  abbrev pub left_jobs : Database → List Job → List Job
  left_jobs db js = keep (λ (x : Job). is_left db x.id) js

  -- One event for each of some jobs, due now, with the ids drawn from the `count`-th on.
  abbrev pub events_from : ℕ → List Job → List OutboxEvent
  events_from count [] = []
  events_from count (x ∷ xs) =
      record {
        id = fresh count;
        job_id = x.id;
        type = tenant_validation_requested;
        payload = x.id;
        dispatched_at = none;
        available_at = now;
        created_at = clock;
      }
      ∷ events_from (suc count) xs

  -- The expired rows of the given jobs, back in the queue and available from now on.
  abbrev pub requeued : List Job → List Job → List Job
  requeued js table =
      update_where (λ j. is_selected js j && (is_running j.state && is_due j.lease_expires_at now))
        (λ j. record j {
          available_at = now;
          lease_expires_at = none;
          lease_token = none;
          state = queued;
          updated_at = clock;
        })
        table

  abbrev set_row : Bool → Job → Job
  set_row b r = if b then requeue_job now clock r else r

  both_steps :
      (x : Job) (xs : List Job) (r : Job)
      → set_row
          (is_selected xs (set_row (is_recoverable x.id now r) r)
            && is_expired now (set_row (is_recoverable x.id now r) r))
          (set_row (is_recoverable x.id now r) r)
        ≡ set_row (is_selected (x ∷ xs) r && is_expired now r) r
  both_steps x xs r = elim (Bool-cases (is_recoverable x.id now r)) [
    | inl e ↦
        let hit : (is_selected (x ∷ xs) r && is_expired now r) ≡ true = ground (arith, e) in
        rw (e, hit) (unset _ _ (requeue_job now clock r))
    | inr e ↦
        let same : (is_selected (x ∷ xs) r && is_expired now r)
            ≡ (is_selected xs r && is_expired now r) =
          ground (arith, e) in
        rw (e, same) refl
  ]

  -- The rows of the first job, then those of the others.
  pub requeued-cons :
      (x : Job) (xs table : List Job)
      → requeued xs (update_where (is_recoverable x.id now) (requeue_job now clock) table)
        ≡ requeued (x ∷ xs) table
  requeued-cons x xs [] = refl
  requeued-cons x xs (r ∷ table) = cc (both_steps x xs r, requeued-cons x xs table)

  module _ (x : Job) (db : Database) where
    abbrev pub first_requeued : Database
    first_requeued = record db {
      jobs = update_where (is_recoverable x.id now) (requeue_job now clock) db.jobs;
    }

    is_left-other : (i : ℕ) → (x.id == i) ≡ false → is_left first_requeued i ≡ is_left db i
    is_left-other i other =
        ap is_expired_row (move-find_job (recover-IsMove x.id now clock) i db)
        ∙ unmoved (find_job i db) refl
      where
        unmoved :
            (o : Option Job)
            → find_job i db ≡ o
            → is_expired_row (Option.map (λ j. set_row (is_recoverable x.id now j) j) o)
              ≡ is_expired_row o
        unmoved none found = refl
        unmoved (some j) found =
            let same : j.id ≡ i = select_key (λ (y : Job). y.id) i db.jobs {r = j} found in
            let apart : is_recoverable x.id now j ≡ false = ground (arith, same, other) in
            rw apart refl

    pub left_jobs-other :
        (xs : List Job)
        → some_of (same_id x) xs ≡ false
        → left_jobs first_requeued xs ≡ left_jobs db xs
    left_jobs-other [] h = refl
    left_jobs-other (y ∷ ys) h =
        rw (is_left-other y.id (ground arith), left_jobs-other ys (ground arith)) refl

    -- What the first job comes to: nothing if it is gone or no longer expired, and otherwise its row
    -- is requeued.
    returned :
        (o : Option Job)
        → find_job x.id db ≡ o
        → jobs_valid db.jobs ≡ true
        → first (returning (is_recoverable x.id now) (requeue_job now clock) db.jobs) ≡ elim o [
          | none ↦ none
          | some j ↦ if is_expired now j then some (requeue_job now clock j) else none
        ]
    returned o found valid =
        move-returning (recover-IsMove x.id now clock) db.jobs valid ∙ named o found
      where
        named :
            (o : Option Job)
            → find_job x.id db ≡ o
            → (elim (find_job x.id db) [
              | none ↦ none
              | some j ↦ if is_recoverable x.id now j then some (requeue_job now clock j) else none
            ])
              ≡ (elim o [
                | none ↦ none
                | some j ↦ if is_expired now j then some (requeue_job now clock j) else none
              ])
        named none gone = rw gone refl
        named (some j) found =
            let same : j.id ≡ x.id = select_key (λ (y : Job). y.id) x.id db.jobs {r = j} found in
            let reduced : is_recoverable x.id now j ≡ is_expired now j = ground (arith, same) in
            rw (found, reduced) refl

    -- The loop passes over a job that is gone or no longer expired.
    pub passes :
        (xs : List Job) (count : ℕ)
        → jobs_valid db.jobs ≡ true
        → is_left db x.id ≡ false
        → recover_each d now clock fresh (x ∷ xs) count db
          ≡ recover_each d now clock fresh xs count first_requeued
    unfolding recover_each
    passes xs count valid over = elim (Option-cases (find_job x.id db)) [
      | inl gone ↦
          rw
            (
              recover_each,
              move-store_jobs (recover-IsMove x.id now clock) d db valid,
              returned none gone valid,
            )
            refl
      | inr (j, found) ↦
          let fine : is_expired now j ≡ false = ap is_expired_row (sym found) ∙ over in
          let none_back = rw fine at (returned (some j) found valid) in
          rw (recover_each, move-store_jobs (recover-IsMove x.id now clock) d db valid, none_back)
            refl
    ]

    abbrev pub next_event : ℕ → OutboxEvent
    next_event count = recovery_event d now clock fresh (fresh count) x.id

    abbrev pub with_event : ℕ → Database
    with_event count = record first_requeued {
      outbox_events = insert_row (next_event count) db.outbox_events;
    }

    inserts :
        (count : ℕ)
        → some_of (λ (y : Job). y.id == x.id) first_requeued.jobs ≡ true
        → events_valid (insert_row (next_event count) db.outbox_events) ≡ true
        → insert_event d (next_event count) first_requeued ≡ ok (with_event count)
    unfolding insert_event
    inserts count there room = rw (insert_event, there, room) refl

    -- A job that is still expired is requeued, with an event.
    pub takes :
        (xs : List Job) (count : ℕ)
        → jobs_valid db.jobs ≡ true
        → events_valid (insert_row (next_event count) db.outbox_events) ≡ true
        → is_left db x.id ≡ true
        → recover_each d now clock fresh (x ∷ xs) count db
          ≡ recover_each d now clock fresh xs (suc count) (with_event count)
    unfolding recover_each
    takes xs count valid room due = elim (Option-cases (find_job x.id db)) [
      | inl gone ↦ absurd (cc (ap is_expired_row (sym gone) ∙ due))
      | inr (j, found) ↦
          let late : is_expired now j ≡ true = ap is_expired_row (sym found) ∙ due in
          let same : j.id ≡ x.id = select_key (λ (y : Job). y.id) x.id db.jobs {r = j} found in
          let back = rw late at (returned (some j) found valid) in
          let there : some_of (λ (y : Job). y.id == x.id) first_requeued.jobs ≡ true =
            some_of-some (λ (y : Job). y.id == x.id) first_requeued.jobs
              {r = set_row (is_recoverable x.id now j) j}
              (move-find_job (recover-IsMove x.id now clock) x.id db ∙ ap (Option.map _) found) in
          let inserted : insert_event d
                (recovery_event d now clock fresh (fresh count) (requeue_job now clock j).id)
                first_requeued
              ≡ ok (with_event count) =
            ap
              (λ i.
                insert_event d (recovery_event d now clock fresh (fresh count) i) first_requeued)
              same
            ∙ inserts count there room in
          rw
            (
              recover_each,
              move-store_jobs (recover-IsMove x.id now clock) d db valid,
              back,
              inserted,
            )
            refl
    ]
