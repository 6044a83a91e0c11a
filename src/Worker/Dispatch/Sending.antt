-- ===== src/Worker/Dispatch/Sending.antt =====
-- apps/worker/src/tenant-validation-worker.ts, `dispatchPendingTenantValidationOutboxEvents`: what
-- is sent, and which events are marked.
use inbox_saas.Prelude.{
  append-nil, append_assoc, ℕ, ◌≡◌, ◌⊎◌, refl, ap, sym, ◌∙◌, inl, inr, Bool, true, false, none,
  some, List, [], ◌∷◌, ◌++◌, map, arith, ◌==◌, ◌&&◌, leb, keep, some_of, if◌then◌else◌, Bool-cases,
}
use inbox_saas.Table.{update_where}
use inbox_saas.Schema.{OutboxEvent, Database}
use inbox_saas.Worker.Dispatch.Ordering.{
  some_of-order_by_time, some_of-keep, some_of-same, is_ordered, order_ordered, count, count-order,
  count-keep,
}
use inbox_saas.Worker.Dispatch.{
  is_pending, pending_events, mark_dispatched, mark_one, dispatch_one, dispatch_each,
  dispatch_pending_events,
}

cons_cong : {x y : OutboxEvent} {xs ys : List OutboxEvent} → x ≡ y → xs ≡ ys → (x ∷ xs) ≡ (y ∷ ys)
cons_cong e f = cc (e, f)

module _ (takes stands : OutboxEvent → Bool) (clock : ℕ → ℕ) where
  abbrev mark : OutboxEvent → OutboxEvent
  mark r = record r { dispatched_at = some (clock r.id) }

  taken :
      (e : OutboxEvent) (sent : List ℕ) (db : Database)
      → takes e ≡ true
      → dispatch_one takes stands clock e (sent, db)
        ≡ (sent ++ (e.payload ∷ []), if stands e then mark_one (clock e.id) e db else db)
  taken e sent db t = rw t refl

  refused :
      (e : OutboxEvent) (sent : List ℕ) (db : Database)
      → takes e ≡ false
      → dispatch_one takes stands clock e (sent, db) ≡ (sent, db)
  refused e sent db t = rw t refl

  abbrev payloads : List OutboxEvent → List ℕ
  payloads es = map (λ (e : OutboxEvent). e.payload) (keep takes es)

  sent_after :
      (es : List OutboxEvent) (sent : List ℕ) (db : Database)
      → (dispatch_each takes stands clock es (sent, db)).0 ≡ sent ++ payloads es
  unfolding dispatch_each
  sent_after [] sent db = sym (append-nil sent)
  sent_after (e ∷ es) sent db = elim (Bool-cases (takes e)) [
    | inl t ↦
        ap (λ x. (dispatch_each takes stands clock es x).0) (taken e sent db t)
        ∙ sent_after es (sent ++ (e.payload ∷ [])) _
        ∙ append_assoc sent (e.payload ∷ []) (payloads es)
        ∙ rw t refl
    | inr t ↦
        ap (λ x. (dispatch_each takes stands clock es x).0) (refused e sent db t)
        ∙ sent_after es sent db
        ∙ rw t refl
  ]

  unlisted : (rs : List OutboxEvent) → rs ≡ update_where (λ r. false) mark rs
  unlisted [] = refl
  unlisted (r ∷ rs) = cons_cong refl (unlisted rs)

  abbrev marks : OutboxEvent → Bool
  marks e = takes e && stands e

  -- The row is that of one of the given events that are marked.
  abbrev listed : List OutboxEvent → OutboxEvent → Bool
  listed es r = some_of (λ (e : OutboxEvent). marks e && e.id == r.id) es

  set_twice : (b : Bool) (r : OutboxEvent) → (if b then mark (mark r) else mark r) ≡ mark r
  set_twice true r = refl
  set_twice false r = refl

  marked_at : (e r : OutboxEvent) → r.id ≡ e.id → mark_dispatched (clock e.id) r ≡ mark r
  marked_at e r same = rw same refl

  marked_twice :
      (e : OutboxEvent) (es rs : List OutboxEvent)
      → marks e ≡ true
      → update_where
          (listed es)
          mark
          (update_where (λ (x : OutboxEvent). x.id == e.id) (mark_dispatched (clock e.id)) rs)
        ≡ update_where (listed (e ∷ es)) mark rs
  marked_twice e es [] t = refl
  marked_twice e es (r ∷ rs) t = elim (Bool-cases (r.id == e.id)) [
    | inl same ↦
        let back : (e.id == r.id) ≡ true = ground arith in
        let at : r.id ≡ e.id = ground arith in
        rw (same, t, back, marked_at e r at)
          (cons_cong (set_twice (listed es (mark r)) r) (marked_twice e es rs t))
    | inr other ↦
        let back : (e.id == r.id) ≡ false = ground arith in
        rw (other, t, back) (cons_cong refl (marked_twice e es rs t))
  ]

  skipped :
      (e : OutboxEvent) (es rs : List OutboxEvent)
      → marks e ≡ false
      → update_where (listed es) mark rs ≡ update_where (listed (e ∷ es)) mark rs
  skipped e es [] t = refl
  skipped e es (r ∷ rs) t = rw t (cons_cong refl (skipped e es rs t))

  marked_or_not :
      (e : OutboxEvent) (sent : List ℕ) (db : Database)
      → ((marks e ≡ true)
          × ((dispatch_one takes stands clock e (sent, db)).1 ≡ mark_one (clock e.id) e db))
        ⊎ ((marks e ≡ false) × ((dispatch_one takes stands clock e (sent, db)).1 ≡ db))
  marked_or_not e sent db = elim (Bool-cases (takes e)) [
    | inl t ↦ elim (Bool-cases (stands e)) [
      | inl u ↦ inl (rw (t, u) refl, rw (t, u) refl)
      | inr u ↦ inr (rw (t, u) refl, rw (t, u) refl)
    ]
    | inr t ↦ inr (rw t refl, rw t refl)
  ]

  events_after :
      (es : List OutboxEvent) (sent : List ℕ) (db : Database)
      → (dispatch_each takes stands clock es (sent, db)).1
        ≡ record db { outbox_events = update_where (listed es) mark db.outbox_events }
  unfolding dispatch_each
  events_after [] sent db = ap (λ xs. record db { outbox_events = xs }) (unlisted db.outbox_events)
  events_after (e ∷ es) sent db =
      let x = dispatch_one takes stands clock e (sent, db) in
      events_after es x.0 x.1 ∙ elim (marked_or_not e sent db) [
        | inl (t, after) ↦
            ap
              (λ (y : Database). record y {
                outbox_events = update_where (listed es) mark y.outbox_events;
              })
              after
            ∙ ap (λ xs. record db { outbox_events = xs }) (marked_twice e es db.outbox_events t)
        | inr (t, after) ↦
            ap
              (λ (y : Database). record y {
                outbox_events = update_where (listed es) mark y.outbox_events;
              })
              after
            ∙ ap (λ xs. record db { outbox_events = xs }) (skipped e es db.outbox_events t)
      ]

module _ (takes stands : OutboxEvent → Bool) (clock : ℕ → ℕ) (others : Database → Database)
    (now : ℕ) (db : Database) where
  -- Neither dispatched nor of a later time.
  abbrev pub is_open : OutboxEvent → Bool
  is_open e = elim e.dispatched_at [ none ↦ true | some t ↦ false ] && leb e.available_at now

  -- The row of an event that is due when the dispatch selects, that the queue takes and whose
  -- update goes through.
  abbrev pub is_marked : OutboxEvent → Bool
  is_marked r =
      some_of (λ (e : OutboxEvent). is_open e && ((takes e && stands e) && e.id == r.id))
        db.outbox_events

  listed-is_marked :
      (r : OutboxEvent) → listed takes stands clock (pending_events now db) r ≡ is_marked r
  unfolding pending_events
  listed-is_marked r =
      let p = λ (e : OutboxEvent). (takes e && stands e) && e.id == r.id in
      some_of-order_by_time p (keep (is_pending now) db.outbox_events)
      ∙ some_of-keep p (is_pending now) db.outbox_events
      ∙ some_of-same _ _ db.outbox_events (λ e. refl)

  update_marked :
      (rs : List OutboxEvent)
      → update_where
          (listed takes stands clock (pending_events now db))
          (mark takes stands clock)
          rs
        ≡ update_where is_marked (mark takes stands clock) rs
  update_marked [] = refl
  update_marked (r ∷ rs) = rw (listed-is_marked r) (cons_cong refl (update_marked rs))

  -- A dispatch goes through the due, undispatched events, each as often as it is in the table and
  -- none after a later one. Whichever of them the queue takes, and whichever of their updates go
  -- through, the queue is sent the job of each event that it takes, in that order; exactly the rows
  -- of the events that it takes and whose update goes through are marked with the time that the
  -- clock then shows, so that any other stays due; nothing else changes.
  pub dispatch_pending_events_lem :
      (is_ordered (pending_events now db) ≡ true)
      × ((p : OutboxEvent → Bool)
          → count p (pending_events now db) ≡ count (λ e. is_open e && p e) db.outbox_events)
      × ((dispatch_pending_events takes stands clock others now db).0
          ≡ map (λ (e : OutboxEvent). e.payload) (keep takes (pending_events now db)))
      × ((dispatch_pending_events takes stands clock others now db).1 ≡ record (others db) {
        outbox_events =
            update_where is_marked
              (λ r. record r { dispatched_at = some (clock r.id) })
              (others db).outbox_events;
      })
  unfolding dispatch_pending_events pending_events
  dispatch_pending_events_lem = (
    order_ordered (keep (is_pending now) db.outbox_events),
    (λ p.
        count-order p (keep (is_pending now) db.outbox_events)
        ∙ count-keep p (is_pending now) db.outbox_events),
    sent_after takes stands clock (pending_events now db) [] (others db),
    events_after takes stands clock (pending_events now db) [] (others db)
        ∙ ap (λ xs. record (others db) { outbox_events = xs })
            (update_marked (others db).outbox_events),
  )
