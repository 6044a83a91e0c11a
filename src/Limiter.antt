-- ===== src/Limiter.antt =====
-- apps/worker/src/microsoft-work-limiter.ts: the admission limiter of Microsoft work.
-- `resolved` is the trace of the permits that were handed out, oldest first; `held` lists the
-- permits whose release function has not run yet (its `released` flag is false).
pub mod Counts
pub mod Bounds
pub mod Order
use inbox_saas.Prelude.{
  ℕ, ◌+◌, ◌-◌, Bool, true, false, Option, none, some, List, [], ◌∷◌, ◌++◌, ◌==◌, ltb, if◌then◌else◌,
  ◌&&◌, not,
}
use Counts.{Counts as Tally, lookup, insert, erase}

-- An `acquire` call that was queued or granted; `call` tells two calls apart.
pub record Waiter : Type 0 where
  pub organization_id : ℕ
  pub call : ℕ

pub record Limiter : Type 0 where
  pub active_global : ℕ
  pub active_by_organization : Tally
  pub waiters : List Waiter
  pub held : List Waiter
  pub resolved : List Waiter

abbrev pub new_limiter : Limiter
new_limiter = record {
  active_global = 0;
  active_by_organization = [];
  waiters = [];
  held = [];
  resolved = [];
}

-- `map.get(k) ?? d`
abbrev pub value_or : Option ℕ → ℕ → ℕ
value_or none d = d
value_or (some n) d = n

abbrev pub active_for : Limiter → ℕ → ℕ
active_for l o = value_or (lookup o l.active_by_organization) 0

unfoldable pub has_capacity : Limiter → ℕ → Bool
has_capacity l o = ltb l.active_global 5 && ltb (active_for l o) 3

-- `#grant`, with the release function that it returns recorded under `held`.
unfoldable pub grant : Limiter → Waiter → Limiter
grant l w = record l {
  active_global = l.active_global + 1;
  active_by_organization =
      insert w.organization_id (active_for l w.organization_id + 1) l.active_by_organization;
  held = w ∷ l.held;
  resolved = l.resolved ++ (w ∷ []);
}

unfoldable pub acquire : Limiter → Waiter → Limiter
unfolding grant has_capacity
acquire l w =
    if has_capacity l w.organization_id
    then grant l w
    else record l { waiters = l.waiters ++ (w ∷ []) }

-- The loop of `#wakeWaiters`: `skipped` is `waiters[0 .. index)`, the list what stands from
-- `index` on. Each round either passes a waiter by, or splices it out and grants it.
unfoldable pub wake_from : Limiter → List Waiter → List Waiter → Limiter
wake_from l skipped [] = record l { waiters = skipped }
wake_from l skipped (w ∷ rest) =
    let passed = wake_from l (skipped ++ (w ∷ [])) rest in
    let woken = wake_from (grant l w) skipped rest in
    if ltb l.active_global 5
    then (if has_capacity l w.organization_id then woken else passed)
    else record l { waiters = skipped ++ (w ∷ rest) }

unfoldable pub wake_waiters : Limiter → Limiter
unfolding wake_from grant has_capacity
wake_waiters l = wake_from l [] l.waiters

abbrev pub is_call : ℕ → Waiter → Bool
is_call c w = w.call == c

abbrev pub find_call : ℕ → List Waiter → Option Waiter
find_call c [] = none
find_call c (w ∷ ws) = if is_call c w then some w else find_call c ws

abbrev pub remove_call : ℕ → List Waiter → List Waiter
remove_call c [] = []
remove_call c (w ∷ ws) = if is_call c w then ws else w ∷ remove_call c ws

-- `activeForOrganization === 0 ? delete : set`
abbrev lower : ℕ → ℕ → Tally → Tally
lower o n m = if n == 0 then erase o m else insert o n m

-- The counters after a release, before the waiters are woken.
unfoldable pub give_back : Limiter → Waiter → Limiter
give_back l w = record l {
  active_global = l.active_global - 1;
  active_by_organization =
      lower w.organization_id (value_or (lookup w.organization_id l.active_by_organization) 1 - 1)
        l.active_by_organization;
  held = remove_call w.call l.held;
}

-- The release function of the permit of `call`: it does nothing once it has run.
unfoldable pub release : Limiter → ℕ → Limiter
unfolding give_back wake_waiters
release l c = elim (find_call c l.held) [ none ↦ l | some w ↦ wake_waiters (give_back l w) ]

-- What callers do: ask for a permit, or run the release function of a call.
pub data Event : Type 0 where
  acquires : (organization_id : ℕ) → (call : ℕ) → Event
  releases : (call : ℕ) → Event

unfoldable pub step : Limiter → Event → Limiter
step l (acquires o c) = acquire l (record { organization_id = o; call = c })
step l (releases c) = release l c

unfoldable pub run : Limiter → List Event → Limiter
run l [] = l
run l (e ∷ es) = run (step l e) es
