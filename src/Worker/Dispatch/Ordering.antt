-- ===== src/Worker/Dispatch/Ordering.antt =====
-- apps/worker/src/tenant-validation-worker.ts, `dispatchPendingTenantValidationOutboxEvents`: the
-- order of the selected events.
use inbox_saas.Prelude.{
  ℕ, ◌+◌, ◌≡◌, refl, ap, ◌∙◌, inl, inr, Bool, true, false, List, [], ◌∷◌, arith, ◌&&◌, ◌||◌, leb,
  ltb, not, keep, some_of, if◌then◌else◌, Bool-cases,
}
use inbox_saas.Schema.{OutboxEvent}
use inbox_saas.Worker.Dispatch.{insert_event_by_time, order_by_time}

some_of-insert_event_by_time :
    (p : OutboxEvent → Bool) (e : OutboxEvent) (xs : List OutboxEvent)
    → some_of p (insert_event_by_time e xs) ≡ (p e || some_of p xs)
some_of-insert_event_by_time p e [] = refl
some_of-insert_event_by_time p e (x ∷ xs) = ground (arith, some_of-insert_event_by_time p e xs)

pub some_of-order_by_time :
    (p : OutboxEvent → Bool) (xs : List OutboxEvent) → some_of p (order_by_time xs) ≡ some_of p xs
some_of-order_by_time p [] = refl
some_of-order_by_time p (x ∷ xs) =
    some_of-insert_event_by_time p x (order_by_time xs)
    ∙ ap (λ b. p x || b) (some_of-order_by_time p xs)

pub some_of-keep :
    (p q : OutboxEvent → Bool) (xs : List OutboxEvent)
    → some_of p (keep q xs) ≡ some_of (λ x. q x && p x) xs
some_of-keep p q [] = refl
some_of-keep p q (x ∷ xs) = ground (arith, some_of-keep p q xs)

pub some_of-same :
    (p q : OutboxEvent → Bool) (xs : List OutboxEvent)
    → ((x : OutboxEvent) → p x ≡ q x)
    → some_of p xs ≡ some_of q xs
some_of-same p q [] h = refl
some_of-same p q (x ∷ xs) h = rw (h x, some_of-same p q xs h) refl

-- No event stands after a later one.
abbrev pub is_ordered : List OutboxEvent → Bool
is_ordered [] = true
is_ordered (x ∷ xs) =
    not (some_of (λ (y : OutboxEvent). ltb y.created_at x.created_at) xs) && is_ordered xs

none_earlier :
    (e x : OutboxEvent) (xs : List OutboxEvent)
    → leb e.created_at x.created_at ≡ true
    → some_of (λ (y : OutboxEvent). ltb y.created_at x.created_at) xs ≡ false
    → some_of (λ (y : OutboxEvent). ltb y.created_at e.created_at) xs ≡ false
none_earlier e x [] h n = refl
none_earlier e x (y ∷ ys) h n = ground (arith, none_earlier e x ys h)

insert_ordered :
    (e : OutboxEvent) (xs : List OutboxEvent)
    → is_ordered xs ≡ true
    → is_ordered (insert_event_by_time e xs) ≡ true
insert_ordered e [] h = refl
insert_ordered e (x ∷ xs) h = elim (Bool-cases (leb e.created_at x.created_at)) [
  | inl early ↦ rw early (ground (arith, none_earlier e x xs early))
  | inr late ↦ rw late (
      ground (
        arith,
        insert_ordered e xs,
        some_of-insert_event_by_time (λ (y : OutboxEvent). ltb y.created_at x.created_at) e xs,
      ))
]

pub order_ordered : (xs : List OutboxEvent) → is_ordered (order_by_time xs) ≡ true
order_ordered [] = refl
order_ordered (x ∷ xs) = insert_ordered x (order_by_time xs) (order_ordered xs)

-- How many events pass a test.
abbrev pub count : (OutboxEvent → Bool) → List OutboxEvent → ℕ
count p [] = 0
count p (x ∷ xs) = (if p x then 1 else 0) + count p xs

count-insert :
    (p : OutboxEvent → Bool) (e : OutboxEvent) (xs : List OutboxEvent)
    → count p (insert_event_by_time e xs) ≡ (if p e then 1 else 0) + count p xs
count-insert p e [] = refl
count-insert p e (x ∷ xs) = ground (arith, count-insert p e xs)

pub count-order :
    (p : OutboxEvent → Bool) (xs : List OutboxEvent) → count p (order_by_time xs) ≡ count p xs
count-order p [] = refl
count-order p (x ∷ xs) =
    count-insert p x (order_by_time xs) ∙ ap (λ n. (if p x then 1 else 0) + n) (count-order p xs)

pub count-keep :
    (p q : OutboxEvent → Bool) (xs : List OutboxEvent)
    → count p (keep q xs) ≡ count (λ x. q x && p x) xs
count-keep p q [] = refl
count-keep p q (x ∷ xs) = ground (arith, count-keep p q xs)
