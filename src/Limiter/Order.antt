-- ===== src/Limiter/Order.antt =====
-- apps/worker/src/microsoft-work-limiter.ts: the order in which permits are handed out.
use mathlib.Core.List.{append_assoc, append-nil}
use inbox_saas.Prelude.{
  ℕ, ◌≡◌, refl, ap, sym, ◌∙◌, inl, inr, true, List, [], ◌∷◌, ◌++◌, arith, ltb, keep, keep-append,
  Bool-cases, Option-cases,
}
use inbox_saas.Limiter.{
  Waiter, Limiter, new_limiter, has_capacity, grant, acquire, wake_from, find_call, give_back,
  release, Event, acquires, releases, step, run,
}
use inbox_saas.Limiter.Bounds.{
  Inv, IsBlocked, IsSound, belongs, give_back-IsSound, find_call-call, grant-IsSound,
  IsBlocked-grant, IsBlocked-append, step-Inv, new_limiter-Inv,
}

-- The calls of an organization that were granted, followed by those that still wait.
abbrev pub line_of : ℕ → Limiter → List Waiter
line_of o l = keep (belongs o) l.resolved ++ keep (belongs o) l.waiters

keep_blocked :
    (l : Limiter) (o : ℕ) (ws : List Waiter)
    → has_capacity l o ≡ true
    → IsBlocked l ws
    → keep (belongs o) ws ≡ []
keep_blocked l o [] h b = refl
keep_blocked l o (w ∷ ws) h b = elim (Bool-cases (belongs o w)) [
  | inl e ↦ absurd (ground arith)
  | inr e ↦ rw e (keep_blocked l o ws h b.1)
]

pass_over :
    (o : ℕ) (skipped rest : List Waiter) (w : Waiter)
    → keep (belongs o) (skipped ++ (w ∷ [])) ++ keep (belongs o) rest
      ≡ keep (belongs o) skipped ++ keep (belongs o) (w ∷ rest)
pass_over o skipped rest w = elim (Bool-cases (belongs o w)) [
  | inl e ↦ simp (keep-append, e, append_assoc)
  | inr e ↦ simp (keep-append, e, append_assoc, append-nil)
]

hand_out :
    (l : Limiter) (o : ℕ) (skipped rest : List Waiter) (w : Waiter)
    → has_capacity l w.organization_id ≡ true
    → IsBlocked l skipped
    → keep (belongs o) (l.resolved ++ (w ∷ []))
        ++ (keep (belongs o) skipped ++ keep (belongs o) rest)
      ≡ keep (belongs o) l.resolved ++ (keep (belongs o) skipped ++ keep (belongs o) (w ∷ rest))
hand_out l o skipped rest w h b = elim (Bool-cases (belongs o w)) [
  | inl e ↦
      let empty = keep_blocked l o skipped (ground (arith, h)) b in
      simp (keep-append, e, empty, append_assoc)
  | inr e ↦ simp (keep-append, e, append_assoc, append-nil)
]

wake_from-line :
    (l : Limiter) (o : ℕ) (skipped rest : List Waiter)
    → IsSound l
    → IsBlocked l skipped
    → line_of o (wake_from l skipped rest)
      ≡ keep (belongs o) l.resolved ++ (keep (belongs o) skipped ++ keep (belongs o) rest)
unfolding wake_from
wake_from-line l o skipped [] s b = simp append-nil
wake_from-line l o skipped (w ∷ rest) s b = elim (Bool-cases (ltb l.active_global 5)) [
  | inr full ↦
      rw full
        (ap (λ x. keep (belongs o) l.resolved ++ x) (keep-append (belongs o) skipped (w ∷ rest)))
  | inl room ↦ elim (Bool-cases (has_capacity l w.organization_id)) [
    | inl free ↦
        rw (room, free)
          (wake_from-line (grant l w) o skipped rest (grant-IsSound l w free s)
              (IsBlocked-grant l w skipped b)
            ∙ unfold grant in hand_out l o skipped rest w free b)
    | inr taken ↦
        rw (room, taken)
          (wake_from-line l o (skipped ++ (w ∷ [])) rest s
              (IsBlocked-append l skipped (w ∷ []) b (taken, tt))
            ∙ ap (λ x. keep (belongs o) l.resolved ++ x) (pass_over o skipped rest w))
  ]
]

-- The `acquire` calls of a history, oldest first.
abbrev pub requested : List Event → List Waiter
requested [] = []
requested (acquires o c ∷ es) = record { organization_id = o; call = c } ∷ requested es
requested (releases c ∷ es) = requested es

acquire-line :
    (l : Limiter) (o : ℕ) (w : Waiter)
    → Inv l
    → line_of o (acquire l w) ≡ line_of o l ++ keep (belongs o) (w ∷ [])
unfolding acquire
acquire-line l o w v = elim (Bool-cases (has_capacity l w.organization_id)) [
  | inl free ↦ rw free (hand_first free)
  | inr taken ↦ rw taken (simp (keep-append, append_assoc))
]
  where
    hand_first :
        has_capacity l w.organization_id ≡ true
        → line_of o (grant l w) ≡ line_of o l ++ keep (belongs o) (w ∷ [])
    hand_first free = elim (Bool-cases (belongs o w)) [
      | inl e ↦
          let empty = keep_blocked l o l.waiters (ground (arith, free)) v.blocked in
          unfold grant in simp (keep-append, e, empty, append-nil)
      | inr e ↦ unfold grant in simp (keep-append, e, append-nil)
    ]

release-line : (l : Limiter) (o c : ℕ) → Inv l → line_of o (release l c) ≡ line_of o l
unfolding release
release-line l o c v = elim (Option-cases (find_call c l.held)) [
  | inl gone ↦ rw (gone, release)
  | inr (w, e) ↦
      rw (e, release)
        (wake_from-line (give_back l w) o [] (give_back l w).waiters
            (give_back-IsSound l w (ap (λ k. find_call k l.held) (find_call-call c l.held e) ∙ e)
              v.sound)
            tt
          ∙ unfold give_back in refl)
]

step-line :
    (l : Limiter) (o : ℕ) (e : Event)
    → Inv l
    → line_of o (step l e) ≡ line_of o l ++ keep (belongs o) (requested (e ∷ []))
unfolding step
step-line l o (acquires p c) v = acquire-line l o (record { organization_id = p; call = c }) v
step-line l o (releases c) v = release-line l o c v ∙ sym (append-nil _)

requested-cons :
    (o : ℕ) (e : Event) (es : List Event)
    → keep (belongs o) (requested (e ∷ es))
      ≡ keep (belongs o) (requested (e ∷ [])) ++ keep (belongs o) (requested es)
requested-cons o (acquires p c) es =
    keep-append (belongs o) (record { organization_id = p; call = c } ∷ []) (requested es)
requested-cons o (releases c) es = refl

run-line :
    (l : Limiter) (o : ℕ) (es : List Event)
    → Inv l
    → line_of o (run l es) ≡ line_of o l ++ keep (belongs o) (requested es)
unfolding run
run-line l o [] v = sym (append-nil _)
run-line l o (e ∷ es) v =
    rw (run-line (step l e) o es (step-Inv l e v), step-line l o e v, requested-cons o e es)
      (append_assoc (line_of o l) _ _)

-- Within one organization permits are handed out in the order of the calls, and no call is lost:
-- after any history, the calls granted so far followed by those still queued are exactly the
-- `acquire` calls of that organization, in their order.
pub run-fifo :
    (o : ℕ) (es : List Event) → line_of o (run new_limiter es) ≡ keep (belongs o) (requested es)
run-fifo o es = run-line new_limiter o es new_limiter-Inv
