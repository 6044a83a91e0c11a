-- ===== src/Worker/Dispatch.antt =====
-- apps/worker/src/tenant-validation-worker.ts: `dispatchPendingTenantValidationOutboxEvents` and
-- `runTenantValidationWorkerTick`. `sent` lists the job ids that the queue has taken, oldest first;
-- `takes` says of each event whether the queue takes it (`enqueue` throws otherwise). Events created
-- at the same time go in the order of the table, which PostgreSQL leaves open.
pub mod Ordering
pub mod Sending
use inbox_saas.Prelude.{
  ℕ, Bool, true, false, Option, none, some, List, [], ◌∷◌, ◌++◌, map, ◌==◌, ◌&&◌, leb, keep,
  if◌then◌else◌,
}
use inbox_saas.Errors.{Result, ok, err}
use inbox_saas.Table.{update_where}
use inbox_saas.Schema.{OutboxEvent, Database}
use inbox_saas.Schema.Statements.{Driver}
use inbox_saas.Validation.Base.{Outcome}
use inbox_saas.Validation.Recovery.{recover_expired_tenant_validation_jobs}

abbrev is_undispatched : Option ℕ → Bool
is_undispatched none = true
is_undispatched (some t) = false

-- There is one type of event, so that test always passes.
abbrev pub is_pending : ℕ → OutboxEvent → Bool
is_pending now e = is_undispatched e.dispatched_at && leb e.available_at now

abbrev pub insert_event_by_time : OutboxEvent → List OutboxEvent → List OutboxEvent
insert_event_by_time e [] = e ∷ []
insert_event_by_time e (x ∷ xs) =
    let rest = insert_event_by_time e xs in
    if leb e.created_at x.created_at then e ∷ x ∷ xs else x ∷ rest

-- `orderBy(asc(createdAt))`
abbrev pub order_by_time : List OutboxEvent → List OutboxEvent
order_by_time [] = []
order_by_time (x ∷ xs) = insert_event_by_time x (order_by_time xs)

-- The rows that the loop goes through.
unfoldable pub pending_events : ℕ → Database → List OutboxEvent
pending_events now db = order_by_time (keep (is_pending now) db.outbox_events)

abbrev pub mark_dispatched : ℕ → OutboxEvent → OutboxEvent
mark_dispatched clock e = record e { dispatched_at = some clock }

abbrev pub mark_one : ℕ → OutboxEvent → Database → Database
mark_one clock e db = record db {
  outbox_events =
      update_where (λ (x : OutboxEvent). x.id == e.id) (mark_dispatched clock) db.outbox_events;
}

-- `stands` says of each event whether the update that marks it goes through, or throws; `clock`
-- gives the reading with which the event of an id is marked.
module _ (takes stands : OutboxEvent → Bool) (clock : ℕ → ℕ) where
  -- The body of the loop: an event that the queue does not take, or whose update throws after the
  -- queue has taken it, is logged and left.
  abbrev pub dispatch_one : OutboxEvent → List ℕ × Database → List ℕ × Database
  dispatch_one e (sent, db) =
      if takes e
      then (sent ++ (e.payload ∷ []), if stands e then mark_one (clock e.id) e db else db)
      else (sent, db)

  unfoldable pub dispatch_each : List OutboxEvent → List ℕ × Database → List ℕ × Database
  dispatch_each [] x = x
  dispatch_each (e ∷ es) x = dispatch_each es (dispatch_one e x)

  -- Other sessions commit between the selection and the marks.
  unfoldable pub dispatch_pending_events : (Database → Database) → ℕ → Database → List ℕ × Database
  dispatch_pending_events others now db = dispatch_each (pending_events now db) ([], others db)

  abbrev pub tick_after : (Database → Database) → ℕ → Outcome ℕ → Result (List ℕ) × Database
  tick_after meanwhile now (err e, db) = (err e, db)
  tick_after meanwhile now (ok n, db) =
      let (sent, db') = dispatch_pending_events meanwhile now db in (ok sent, db')

  -- A recovery that throws ends the tick before any dispatch. `updated` is what the clock shows to
  -- the recovery's rows.
  unfoldable pub run_tick :
      Driver
      → (fresh : ℕ → ℕ) → (others meanwhile : Database → Database) → (updated now : ℕ) → Database
      → Result (List ℕ) × Database
  run_tick d fresh others meanwhile updated now db =
      tick_after meanwhile now
        (recover_expired_tenant_validation_jobs d now updated fresh others db)
