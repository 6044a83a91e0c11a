-- ===== src/Validation/Recovery/Requeued.antt =====
-- packages/product/src/tenant-validation.ts, `recoverExpiredTenantValidationJobs`: what a recovery
-- does to the table of jobs and to the outbox.
use inbox_saas.Prelude.{
  ℕ, suc, ◌+◌, ◌≡◌, refl, ap, sym, ◌∙◌, inl, inr, Bool, true, false, List, [], ◌∷◌, ◌++◌, arith,
  keep, length, some_of, Bool-cases, append-nil, append_assoc,
}
use inbox_saas.Errors.{Result, ok}
use inbox_saas.Table.{insert_row, is_distinct}
use inbox_saas.Schema.{Job, OutboxEvent, Database, jobs_valid, events_valid}
use inbox_saas.Schema.Statements.{Driver}
use inbox_saas.Validation.Base.{settle}
use inbox_saas.Validation.Jobs.{move-jobs_valid}
use inbox_saas.Validation.Recovery.{
  expired_jobs, recover_each, recover_expired_tenant_validation_jobs,
}
use inbox_saas.Validation.Recovery.Rows.{
  same_id, is_left, left_jobs, run_out, events_from, requeued, recover-IsMove, requeued-cons,
  first_requeued, next_event, with_event, left_jobs-other, passes, takes, events_valid-prefix,
}

module _ (d : Driver) (now clock : ℕ) (fresh : ℕ → ℕ) where
  requeued-none : (table : List Job) → requeued d now clock fresh [] table ≡ table
  requeued-none [] = refl
  requeued-none (r ∷ table) = ap (λ xs. r ∷ xs) (requeued-none table)

  -- The table and the outbox after the loop, and its count.
  abbrev recovered : List Job → ℕ → Database → ℕ × Database
  recovered js count db = (
    count + length (left_jobs d now clock fresh db js),
    record db {
      jobs = requeued d now clock fresh js db.jobs;
      outbox_events =
          db.outbox_events
          ++ events_from d now clock fresh count (left_jobs d now clock fresh db js);
    },
  )

  abbrev pub has_room : List Job → ℕ → Database → Bool
  has_room js count db =
      events_valid (
        db.outbox_events ++ events_from d now clock fresh count (left_jobs d now clock fresh db js))

  abbrev outcome : Database → ℕ → List Job → List OutboxEvent → Result (ℕ × Database)
  outcome db n js es = ok (n, record db { jobs = js; outbox_events = es })

  recovered_as :
      (db : Database) {m n : ℕ} {js ks : List Job} {es fs : List OutboxEvent}
      → m ≡ n
      → js ≡ ks
      → es ≡ fs
      → outcome db m js es ≡ outcome db n ks fs
  recovered_as db {m} {n} {js} {ks} {es} {fs} a b c =
      ap (λ x. outcome db x js es) a ∙ ap (λ x. outcome db n x es) b ∙ ap (λ x. outcome db n ks x) c

  finished :
      (count : ℕ) (db : Database)
      → recover_each d now clock fresh [] count db ≡ ok (recovered [] count db)
  unfolding recover_each
  finished count db =
      recovered_as db {m = count} {n = count + 0} {js = db.jobs}
        {ks = requeued d now clock fresh [] db.jobs} {es = db.outbox_events}
        {fs = db.outbox_events ++ []} (omega arith) (sym (requeued-none db.jobs))
        (sym (append-nil db.outbox_events))

  loop :
      (js : List Job) (count : ℕ) (db : Database)
      → is_distinct same_id js ≡ true
      → jobs_valid db.jobs ≡ true
      → has_room js count db ≡ true
      → recover_each d now clock fresh js count db ≡ ok (recovered js count db)
  unfolding is_distinct
  loop [] count db apart valid room = finished count db
  loop (x ∷ xs) count db apart valid room =
      let still : jobs_valid (first_requeued d now clock fresh x db).jobs ≡ true =
        move-jobs_valid (recover-IsMove x.id now clock) db.jobs valid in
      let others : left_jobs d now clock fresh (first_requeued d now clock fresh x db) xs
          ≡ left_jobs d now clock fresh db xs =
        left_jobs-other d now clock fresh x db xs (ground arith) in
      let apart' : is_distinct same_id xs ≡ true = ground arith in
      elim (Bool-cases (is_left d now clock fresh db x.id)) [
        | inr over ↦
            let left : left_jobs d now clock fresh db (x ∷ xs) ≡ left_jobs d now clock fresh db xs =
              rw over refl in
            let kept : left_jobs d now clock fresh (first_requeued d now clock fresh x db) xs
                ≡ left_jobs d now clock fresh db (x ∷ xs) =
              others ∙ sym left in
            let room' : has_room xs count (first_requeued d now clock fresh x db) ≡ true =
              ap (λ ys. events_valid (db.outbox_events ++ events_from d now clock fresh count ys))
                kept
              ∙ room in
            passes d now clock fresh x db xs count valid over
            ∙ loop xs count (first_requeued d now clock fresh x db) apart' still room'
            ∙ recovered_as db (ap (λ ys. count + length ys) kept)
                (requeued-cons d now clock fresh x xs db.jobs)
                (ap (λ ys. db.outbox_events ++ events_from d now clock fresh count ys) kept)
        | inl due ↦
            let left : left_jobs d now clock fresh db (x ∷ xs)
                ≡ x ∷ left_jobs d now clock fresh db xs =
              rw due refl in
            let kept : x ∷ left_jobs d now clock fresh (first_requeued d now clock fresh x db) xs
                ≡ left_jobs d now clock fresh db (x ∷ xs) =
              ap (λ ys. x ∷ ys) others ∙ sym left in
            let split =
              append_assoc db.outbox_events (next_event d now clock fresh x db count ∷ []) (
                events_from d now clock fresh (suc count)
                  (left_jobs d now clock fresh (first_requeued d now clock fresh x db) xs)) in
            let all = ap (λ ys. db.outbox_events ++ events_from d now clock fresh count ys) kept in
            let room' : has_room xs (suc count) (with_event d now clock fresh x db count) ≡ true =
              ap events_valid (split ∙ all) ∙ room in
            takes d now clock fresh x db xs count valid
              (events_valid-prefix
                (insert_row (next_event d now clock fresh x db count) db.outbox_events)
                (events_from d now clock fresh (suc count)
                  (left_jobs d now clock fresh (first_requeued d now clock fresh x db) xs))
                room')
              due
            ∙ loop xs (suc count) (with_event d now clock fresh x db count) apart' still room'
            ∙ recovered_as db (omega arith ∙ ap (λ ys. count + length ys) kept)
                (requeued-cons d now clock fresh x xs db.jobs) (split ∙ all)
      ]

  -- The selected jobs are distinct, since those of the table are.
  some_of-keep :
      (p q : Job → Bool) (js : List Job) → some_of p js ≡ false → some_of p (keep q js) ≡ false
  some_of-keep p q [] h = refl
  some_of-keep p q (j ∷ js) h = ground (arith, some_of-keep p q js)

  keep_apart :
      (q : Job → Bool) (js : List Job)
      → is_distinct same_id js ≡ true
      → is_distinct same_id (keep q js) ≡ true
  unfolding is_distinct
  keep_apart q [] h = refl
  keep_apart q (j ∷ js) h = elim (Bool-cases (q j)) [
    | inl e ↦
        rw
          (
            e,
            is_distinct,
            some_of-keep (same_id j) q js (ground arith),
            keep_apart q js (ground arith),
          )
          refl
    | inr e ↦ rw e (keep_apart q js (ground arith))
  ]

  jobs_apart : (js : List Job) → jobs_valid js ≡ true → is_distinct same_id js ≡ true
  unfolding jobs_valid
  jobs_apart js v = ground arith

  -- A recovery selects the expired jobs and puts back into the queue those among them that are
  -- still expired when it comes to write, each with one event that is due now; it answers their
  -- number and leaves every other row alone. It runs over tables whose unique indexes hold, and
  -- draws ids of events that are not in use.
  pub recover_lem :
      (others : Database → Database) (db : Database)
      → jobs_valid db.jobs ≡ true
      → jobs_valid (others db).jobs ≡ true
      → has_room (run_out now db) 0 (others db) ≡ true
      → recover_expired_tenant_validation_jobs d now clock fresh others db ≡ (
        ok (length (left_jobs d now clock fresh (others db) (run_out now db))),
        record (others db) {
          jobs = requeued d now clock fresh (run_out now db) (others db).jobs;
          outbox_events =
              (others db).outbox_events
              ++ events_from d now clock fresh 0
                  (left_jobs d now clock fresh (others db) (run_out now db));
        },
      )
  unfolding recover_expired_tenant_validation_jobs
  recover_lem others db v w room = ap (settle (others db)) (
      loop (expired_jobs now db) 0 (others db) (keep_apart _ db.jobs (jobs_apart db.jobs v)) w room
      ∙ recovered_as (others db) (omega arith) refl refl)
