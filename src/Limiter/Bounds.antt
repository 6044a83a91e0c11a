-- ===== src/Limiter/Bounds.antt =====
-- apps/worker/src/microsoft-work-limiter.ts: the counters are the permits that are out, they stay
-- within the two limits, and nobody waits for a permit that could be given.
use inbox_saas.Prelude.{
  ℕ, ◌+◌, ◌-◌, ◌≤◌, ◌≡◌, refl, ap, ◌∙◌, inl, inr, Bool, true, false, none, some, List, [], ◌∷◌,
  ◌++◌, arith, ◌==◌, ltb, if◌then◌else◌, length, count, All, Bool-cases, Option-cases,
}
use inbox_saas.Limiter.Counts.{lookup, lookup-insert, lookup-erase}
use inbox_saas.Limiter.{
  Waiter, Limiter, new_limiter, value_or, active_for, has_capacity, grant, acquire, wake_from,
  find_call, remove_call, give_back, release, Event, acquires, releases, step, run,
}

abbrev pub belongs : ℕ → Waiter → Bool
belongs o w = w.organization_id == o

-- The counters agree with the permits that are out, and the limits hold.
pub record IsSound (l : Limiter) : Type 0 where
  pub global_count : l.active_global ≡ length l.held
  pub organization_count : (o : ℕ) → active_for l o ≡ count (belongs o) l.held
  pub global_bound : l.active_global ≤ 5
  pub organization_bound : (o : ℕ) → active_for l o ≤ 3

-- Each of the waiters lacks capacity.
abbrev pub IsBlocked : Limiter → List Waiter → Type 0
IsBlocked l ws = All (λ w. has_capacity l w.organization_id ≡ false) ws

pub record Inv (l : Limiter) : Type 0 where
  pub sound : IsSound l
  pub blocked : IsBlocked l l.waiters

pub active_for-grant :
    (l : Limiter) (w : Waiter) (o : ℕ)
    → active_for (grant l w) o
      ≡ (if w.organization_id == o then active_for l o + 1 else active_for l o)
unfolding grant
active_for-grant l w o = ground (
  arith,
  lookup-insert w.organization_id o (active_for l w.organization_id + 1) l.active_by_organization,
)

pub grant-IsSound :
    (l : Limiter) (w : Waiter)
    → has_capacity l w.organization_id ≡ true
    → IsSound l
    → IsSound (grant l w)
unfolding grant has_capacity
grant-IsSound l w h s = record {
  global_count = ground (arith, s.global_count);
  organization_count =
      λ o. unfold grant in ground (arith, active_for-grant l w o, s.organization_count o);
  global_bound = ground arith;
  organization_bound = λ o. ground (arith, active_for-grant l w o, s.organization_bound o);
}

has_capacity-grant :
    (l : Limiter) (w : Waiter) (o : ℕ)
    → has_capacity l o ≡ false
    → has_capacity (grant l w) o ≡ false
unfolding grant has_capacity
has_capacity-grant l w o h = ground (arith, active_for-grant l w o)

pub IsBlocked-grant :
    (l : Limiter) (w : Waiter) (ws : List Waiter) → IsBlocked l ws → IsBlocked (grant l w) ws
IsBlocked-grant l w [] b = tt
IsBlocked-grant l w (v ∷ ws) b =
    (has_capacity-grant l w v.organization_id b.0, IsBlocked-grant l w ws b.1)

pub IsBlocked-append :
    (l : Limiter) (vs ws : List Waiter) → IsBlocked l vs → IsBlocked l ws → IsBlocked l (vs ++ ws)
IsBlocked-append l [] ws b c = c
IsBlocked-append l (v ∷ vs) ws b c = (b.0, IsBlocked-append l vs ws b.1 c)

full-IsBlocked : (l : Limiter) (ws : List Waiter) → ltb l.active_global 5 ≡ false → IsBlocked l ws
unfolding has_capacity
full-IsBlocked l [] h = tt
full-IsBlocked l (w ∷ ws) h = (rw h refl, full-IsBlocked l ws h)

wake_done :
    (l : Limiter) (ws : List Waiter) → IsSound l → IsBlocked l ws → Inv (record l { waiters = ws })
unfolding has_capacity
wake_done l ws s b = record {
  sound = record {
    global_count = s.global_count;
    organization_count = s.organization_count;
    global_bound = s.global_bound;
    organization_bound = s.organization_bound;
  };
  blocked = b;
}

wake_from-Inv :
    (l : Limiter) (skipped rest : List Waiter)
    → IsSound l
    → IsBlocked l skipped
    → Inv (wake_from l skipped rest)
unfolding wake_from
wake_from-Inv l skipped [] s b = wake_done l skipped s b
wake_from-Inv l skipped (w ∷ rest) s b = elim (Bool-cases (ltb l.active_global 5)) [
  | inr full ↦ rw full (
      wake_done l (skipped ++ (w ∷ rest)) s
        (IsBlocked-append l skipped (w ∷ rest) b (full-IsBlocked l (w ∷ rest) full)))
  | inl room ↦ elim (Bool-cases (has_capacity l w.organization_id)) [
    | inl free ↦
        rw (room, free)
          (wake_from-Inv (grant l w) skipped rest (grant-IsSound l w free s)
            (IsBlocked-grant l w skipped b))
    | inr taken ↦
        rw (room, taken)
          (wake_from-Inv l (skipped ++ (w ∷ [])) rest s
            (IsBlocked-append l skipped (w ∷ []) b (taken, tt)))
  ]
]

acquire-Inv : (l : Limiter) (w : Waiter) → Inv l → Inv (acquire l w)
unfolding acquire
acquire-Inv l w v = elim (Bool-cases (has_capacity l w.organization_id)) [
  | inl free ↦ rw free (record {
    sound = grant-IsSound l w free v.sound;
    blocked = IsBlocked-grant l w l.waiters v.blocked;
  })
  | inr taken ↦ rw taken (
      wake_done l (l.waiters ++ (w ∷ [])) v.sound
        (IsBlocked-append l l.waiters (w ∷ []) v.blocked (taken, tt)))
]

length-remove_call :
    (c : ℕ) (ws : List Waiter) {w : Waiter}
    → find_call c ws ≡ some w
    → length ws ≡ length (remove_call c ws) + 1
length-remove_call c [] h = absurd (cc h)
length-remove_call c (v ∷ ws) {w} h = ground (arith, length-remove_call c ws {w = w})

count-remove_call :
    (c o : ℕ) (ws : List Waiter) {w : Waiter}
    → find_call c ws ≡ some w
    → count (belongs o) ws ≡ count (belongs o) (remove_call c ws) + (if belongs o w then 1 else 0)
count-remove_call c o [] h = absurd (cc h)
count-remove_call c o (v ∷ ws) {w} h = ground (arith, count-remove_call c o ws {w = w})

pub find_call-call : (c : ℕ) (ws : List Waiter) {w : Waiter} → find_call c ws ≡ some w → w.call ≡ c
find_call-call c [] h = absurd (cc h)
find_call-call c (v ∷ ws) {w} h = ground (arith, find_call-call c ws {w = w})

active_for-give_back :
    (l : Limiter) (w : Waiter) (o : ℕ)
    → active_for (give_back l w) o
      ≡ (if w.organization_id == o then active_for l o - 1 else active_for l o)
unfolding give_back
active_for-give_back l w o = ground (
  arith,
  lookup-insert w.organization_id o
      (value_or (lookup w.organization_id l.active_by_organization) 1 - 1) l.active_by_organization,
  lookup-erase w.organization_id o l.active_by_organization,
)

pub give_back-IsSound :
    (l : Limiter) (w : Waiter)
    → find_call w.call l.held ≡ some w
    → IsSound l
    → IsSound (give_back l w)
unfolding give_back
give_back-IsSound l w h s = record {
  global_count = ground (arith, s.global_count, length-remove_call w.call l.held {w = w} h);
  organization_count = λ o.
      unfold give_back in
      ground (
        arith,
        active_for-give_back l w o,
        s.organization_count o,
        count-remove_call w.call o l.held {w = w} h,
      );
  global_bound = ground (arith, s.global_bound);
  organization_bound = λ o. ground (arith, active_for-give_back l w o, s.organization_bound o);
}

release-Inv : (l : Limiter) (c : ℕ) → Inv l → Inv (release l c)
unfolding release
release-Inv l c v = elim (Option-cases (find_call c l.held)) [
  | inl gone ↦ rw (gone, release) v
  | inr (w, e) ↦
      rw (e, release)
        (wake_from-Inv (give_back l w) [] (give_back l w).waiters
          (give_back-IsSound l w (ap (λ k. find_call k l.held) (find_call-call c l.held e) ∙ e)
            v.sound)
          tt)
]

pub step-Inv : (l : Limiter) (e : Event) → Inv l → Inv (step l e)
unfolding step
step-Inv l (acquires o c) v = acquire-Inv l (record { organization_id = o; call = c }) v
step-Inv l (releases c) v = release-Inv l c v

run-Inv_from : (l : Limiter) (es : List Event) → Inv l → Inv (run l es)
unfolding run
run-Inv_from l [] v = v
run-Inv_from l (e ∷ es) v = run-Inv_from (step l e) es (step-Inv l e v)

pub new_limiter-Inv : Inv new_limiter
unfolding lookup
new_limiter-Inv = record {
  sound = record {
    global_count = refl;
    organization_count = λ o. refl;
    global_bound = omega arith;
    organization_bound = λ o. omega arith;
  };
  blocked = tt;
}

-- After any history of acquires and releases, in any order and with any release repeated, the two
-- counters equal the permits that are out, at most five permits are out in all and at most three
-- for each organization, and each waiter that is still queued could not be given a permit.
pub run-Inv : (es : List Event) → Inv (run new_limiter es)
run-Inv es = run-Inv_from new_limiter es new_limiter-Inv

-- A release function that runs a second time, or of a call that holds no permit, changes nothing.
pub release_spent : (l : Limiter) (c : ℕ) → find_call c l.held ≡ none → release l c ≡ l
unfolding release
release_spent l c e = rw (e, release)
