-- ===== src/Agent/Workflow.antt =====
-- The states of a run of stages.
use sai3_bench.Prelude.{ℕ, ◌+◌, String, ◌≡◌, refl, true, false, List, [], ◌∷◌}
use sai3_bench.Agent.{
  WorkloadState, completed, at_stage, StageEnd, aborted_before, work_failed, not_released, released,
  WorkflowEnd, finished, stopped, aborted_by_user, stage_failed, barrier_failed, can_transition,
  same_state, transition_to, try_transition, execute_stages,
}

abbrev pub preflight : WorkloadState
preflight = at_stage (record { stage_index = 0; stage_name = "preflight"; ready_for_next = false })

abbrev pub running : ℕ → String → WorkloadState
running i name = at_stage (record { stage_index = i; stage_name = name; ready_for_next = false })

abbrev pub ready : ℕ → String → WorkloadState
ready i name = at_stage (record { stage_index = i; stage_name = name; ready_for_next = true })

-- How a run ends from the state `before` on, with `i` stages behind it: at the first stage that is not
-- released, with the error for its end, in the state before it, at its work or at its barrier; else
-- completed.
abbrev pub ending : ℕ → WorkloadState → List (String × StageEnd) → WorkflowEnd
ending i before [] = finished completed
ending i before ((name, aborted_before) ∷ stages) = stopped aborted_by_user before
ending i before ((name, work_failed) ∷ stages) = stopped stage_failed (running (i + 1) name)
ending i before ((name, not_released) ∷ stages) = stopped barrier_failed (ready (i + 1) name)
ending i before ((name, released) ∷ stages) = ending (i + 1) (ready (i + 1) name) stages

-- An empty list leaves the agent in pre-flight.
pub workflow_empty : execute_stages 0 [] preflight ≡ finished preflight
unfolding execute_stages try_transition transition_to same_state can_transition
workflow_empty = refl
