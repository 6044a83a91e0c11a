-- ===== src/System/Moves.antt =====
-- packages/product/src/tenant-validation.ts: the updates of job rows follow the diagram.
use inbox_saas.Prelude.{ℕ, ◌+◌, ◌≡◌, ◌⊎◌, refl, subst, sym, inl, inr, true, arith}
use inbox_saas.Schema.{Job, JobState, queued, running, completed, failed, cancelled, is_running}
use inbox_saas.Validation.Lease.{is_claimable, claim_job, is_fenced, extend_job}
use inbox_saas.Validation.Lease.Claims.{claim-IsMove, renew-IsMove}
use inbox_saas.Validation.Recovery.Rows.{recover-IsMove}
use inbox_saas.Validation.Recovery.{is_recoverable, requeue_job}
use inbox_saas.System.Life.{HasShape, ◌⟶*◌, claim, reclaim, requeue, here, next}
use inbox_saas.System.Statements.{IsLifeStep, move-IsLifeStep}

-- The life steps of the three updates.
free_path :
    (i now : ℕ) (j : Job)
    → is_claimable i now j ≡ true
    → (j.state, j.attempt_count) ⟶* (running, j.attempt_count + 1)
free_path i now j h = elim (free_state j h) [
  | inl e ↦
      subst (λ x. (x, j.attempt_count) ⟶* (running, j.attempt_count + 1)) (sym e) (next claim here)
  | inr e ↦
      subst (λ x. (x, j.attempt_count) ⟶* (running, j.attempt_count + 1)) (sym e)
        (next reclaim here)
]
  where
    free_state : (j : Job) → is_claimable i now j ≡ true → (j.state ≡ queued) ⊎ (j.state ≡ running)
    free_state j h = ground arith

pub claim-IsLifeStep :
    (i now expires token clock : ℕ)
    → IsLifeStep i (is_claimable i now) (claim_job now expires token clock)
claim-IsLifeStep i now expires token clock =
    move-IsLifeStep i _ _ (claim-IsMove i now expires token clock)
      (λ j h. (free_path i now j h, refl, (refl, refl, omega arith)))

pub running_path :
    (j : Job) (t : JobState)
    → is_running j.state ≡ true
    → (running, j.attempt_count) ⟶* (t, j.attempt_count)
    → (j.state, j.attempt_count) ⟶* (t, j.attempt_count)
running_path j t h q =
    let e : j.state ≡ running = ground arith in
    subst (λ x. (x, j.attempt_count) ⟶* (t, j.attempt_count)) (sym e) q

extended_shape :
    (j : Job) (expires clock : ℕ) (state : JobState)
    → is_running state ≡ true
    → HasShape state j
    → HasShape state (extend_job expires clock j)
extended_shape j expires clock running h s = (refl, s.1, s.2)
extended_shape j expires clock queued h s = cc
extended_shape j expires clock completed h s = cc
extended_shape j expires clock failed h s = cc
extended_shape j expires clock cancelled h s = cc

pub renew-IsLifeStep :
    (i token now expires clock : ℕ)
    → IsLifeStep i (is_fenced i token now) (extend_job expires clock)
renew-IsLifeStep i token now expires clock = record {
  move = renew-IsMove i token now expires clock;
  becomes = λ j h. record {
    path = here;
    attempts = omega arith;
    counted = λ q u. cc (q, u);
    id = refl;
    connection = refl;
    created = refl;
    frozen = λ t. absurd (ground arith);
  };
  shaped = λ j h s. extended_shape j expires clock j.state (ground arith) s;
}

pub recover-IsLifeStep :
    (i now clock : ℕ) → IsLifeStep i (is_recoverable i now) (requeue_job now clock)
recover-IsLifeStep i now clock =
    move-IsLifeStep i _ _ (recover-IsMove i now clock)
      (λ j h. (running_path j queued (ground arith) (next requeue here), refl, (refl, refl)))
