-- ===== src/Agent/Recovery.antt =====
-- What an abort and a disconnect leave behind.
use sai3_bench.Prelude.{◌≡◌, ◌⊎◌, inl, inr, refl, Bool, Bool-cases, true, false, none, some, arith}
use sai3_bench.Agent.{
  Stage, WorkloadState, idle, completed, failed, aborting, at_stage, can_transition, same_state,
  transition_to, try_transition, on_disconnect, abort_workload, abort_timer_first,
  abort_timer_retry,
}

-- A lost stream leaves the agent able to take the next workload: idle, or in a final state from
-- which it may become idle. The workload is told to stop only if a stage was executing.
pub disconnect_settles :
    (s : WorkloadState)
    → (try_transition idle (on_disconnect s).0 ≡ idle)
      × (((on_disconnect s).1 ≡ false)
          ⊎ ((t : Stage) × (s ≡ at_stage t)
              × (t.ready_for_next ≡ false)
              × ((on_disconnect s).0 ≡ idle)))
unfolding on_disconnect try_transition transition_to same_state can_transition
disconnect_settles idle = (refl, inl refl)
disconnect_settles completed = (refl, inl refl)
disconnect_settles failed = (refl, inl refl)
disconnect_settles aborting = (refl, inl refl)
disconnect_settles (at_stage s) = elim (Bool-cases s.ready_for_next) [
  | inl e ↦ ground arith
  | inr e ↦ (ground arith, inr (s, refl, e, ground arith))
]

-- An abort call never fails. Unless the agent is idle or has failed, it is aborting afterwards; and
-- both the first timer and the loss of the stream then lead to a state that may become idle.
abort_settles :
    (s : WorkloadState)
    → (t : WorkloadState) × (b : Bool) × (abort_workload s ≡ some (t, b))
      × ((t ≡ aborting) ⊎ ((t ≡ s) × ((s ≡ idle) ⊎ (s ≡ failed))))
      × (try_transition idle (abort_timer_first t) ≡ idle)
      × (try_transition idle (on_disconnect t).0 ≡ idle)
unfolding abort_workload abort_timer_first on_disconnect try_transition transition_to same_state
    can_transition
abort_settles idle = (idle, false, refl, inr (refl, inl refl), refl, refl)
abort_settles failed = (failed, false, refl, inr (refl, inr refl), refl, refl)
abort_settles aborting = (aborting, false, refl, inl refl, refl, refl)
abort_settles completed = (aborting, true, refl, inl refl, refl, refl)
abort_settles (at_stage s) = (aborting, true, refl, inl refl, refl, refl)

-- The retry of an abort makes an executing stage idle, which the state machine itself refuses.
pub abort_retry_cuts :
    (s : Stage)
    → s.ready_for_next ≡ false
    → (transition_to idle (at_stage s) ≡ none) × (abort_timer_retry (at_stage s) ≡ idle)
unfolding abort_timer_retry transition_to same_state can_transition
abort_retry_cuts s h = ground arith
