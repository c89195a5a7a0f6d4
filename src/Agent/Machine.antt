-- ===== src/Agent/Machine.antt =====
-- The transition table: what a stage may be followed by, and where an abort leads.
use text.Mathlib.TextEquality.{eq_iff}
use sai3_bench.Prelude.{
  List, [], ◌∷◌, Bool, not, ◌&&◌, ◌+◌, ◌≤◌, ◌≡◌, ◌⊎◌, inl, inr, refl, true, false, some, arith,
}
use sai3_bench.Agent.{
  Stage, WorkloadState, idle, completed, failed, aborting, at_stage, can_transition, same_state,
  transition_to, try_transition,
}

-- From one stage to another the index stays or grows by one. It grows only from a stage that is
-- ready, or from pre-flight; a stage that is entered is not ready yet, and one that becomes ready
-- keeps its index.
pub stage_order :
    (s t : Stage)
    → can_transition (at_stage s) (at_stage t) ≡ true
    → (s.stage_index ≤ t.stage_index)
      × (t.stage_index ≤ s.stage_index + 1)
      × ((t.ready_for_next ≡ false)
          ⊎ ((t.stage_index ≡ s.stage_index) × (s.ready_for_next ≡ false)))
      × ((s.ready_for_next ≡ true) ⊎ (t.stage_index ≡ s.stage_index) ⊎ (s.stage_name ≡ "preflight"))
unfolding can_transition
stage_order s t h = ground (arith, eq_iff s.stage_name "preflight")

pub abort_always : (s : WorkloadState) → transition_to aborting s ≡ some aborting
unfolding transition_to same_state can_transition
abort_always (at_stage s) = refl
abort_always _ = refl

aborting_step : (t : WorkloadState) → can_transition aborting t ≡ true → (t ≡ aborting) ⊎ (t ≡ idle)
unfolding can_transition
aborting_step idle h = inr refl
aborting_step aborting h = inl refl
aborting_step (at_stage s) h = cc
aborting_step completed h = cc
aborting_step failed h = cc

-- Any sequence of attempts, each of which may be refused.
pub attempts : List WorkloadState → WorkloadState → WorkloadState
attempts [] s = s
attempts (t ∷ ts) s = attempts ts (try_transition t s)

-- Before the machine has been idle again.
abbrev pub not_idle : List WorkloadState → WorkloadState → Bool
not_idle [] s = true
not_idle (t ∷ ts) s = not (same_state (try_transition t s) idle) && not_idle ts (try_transition t s)

try_aborting :
    (t : WorkloadState)
    → (try_transition t aborting ≡ aborting) ⊎ (try_transition t aborting ≡ idle)
unfolding try_transition transition_to same_state can_transition
try_aborting idle = inr refl
try_aborting aborting = inl refl
try_aborting (at_stage s) = inl refl
try_aborting completed = inl refl
try_aborting failed = inl refl

idle_seen :
    (t : WorkloadState) (ts : List WorkloadState)
    → try_transition t aborting ≡ idle
    → not_idle (t ∷ ts) aborting ≡ true
    → ⊥
unfolding same_state
idle_seen t ts e h = ground (arith, e)

try_abort : (s : WorkloadState) → try_transition aborting s ≡ aborting
unfolding try_transition
try_abort s = rw (abort_always s, try_transition) refl

stays_aborting :
    (ts : List WorkloadState) → not_idle ts aborting ≡ true → attempts ts aborting ≡ aborting
unfolding attempts
stays_aborting [] h = refl
stays_aborting (t ∷ ts) h = elim (try_aborting t) [
  | inl e ↦ rw e (stays_aborting ts (ground (arith, e)))
  | inr e ↦ absurd (idle_seen t ts e h)
]

-- Every state can be aborted, and whatever is attempted after that, the agent stays aborting until
-- it becomes idle: no stage goes on, and the run is recorded neither as completed nor as failed.
pub abort_holds :
    (s : WorkloadState) (ts : List WorkloadState)
    → not_idle ts (try_transition aborting s) ≡ true
    → attempts ts (try_transition aborting s) ≡ aborting
abort_holds s ts h = rw (try_abort s) (stays_aborting ts (rw (try_abort s) at h))
