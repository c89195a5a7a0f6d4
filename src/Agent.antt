-- ===== src/Agent.antt =====
-- src/bin/agent.rs: the agent's workload state machine (`WorkloadState`, `AgentState`), the sequence
-- of states of a run, and what an abort and a disconnect do to it. Only the state and the abort
-- signal of `AgentState` are kept; the other fields are values that are stored and read back.
pub mod Machine
pub mod Workflow
pub mod Recovery
mod Tests
use sai3_bench.Prelude.{
  ℕ, suc, ◌+◌, String, Bool, true, false, ◌&&◌, ◌||◌, not, Option, none, some, List, [], ◌∷◌, ◌==◌,
  if◌then◌else◌,
}
use text.Mathlib.Text.{◌==◌ as str_eq}

infixl 5 ◌>>=◌
abbrev ◌>>=◌ {ℓ κ} : {A : Type ℓ} {B : Type κ} → Option A → (A → Option B) → Option B
none >>= f = none
some a >>= f = f a

pub record Stage : Type 0 where
  pub stage_index : ℕ
  pub stage_name : String
  pub ready_for_next : Bool

pub data WorkloadState : Type 0 where
  idle completed failed aborting : WorkloadState
  at_stage : Stage → WorkloadState

-- The arms of the source for two stages, by the two flags, with their guards.
stage_transition : Stage → Stage → Bool → Bool → Bool
stage_transition s t false true = s.stage_index == t.stage_index
stage_transition s t true false =
    t.stage_index == s.stage_index + 1
    || (s.stage_index == 0 && t.stage_index == 0 && str_eq s.stage_name "validated")
stage_transition s t false false =
    s.stage_index == 0 && t.stage_index == 1 && str_eq s.stage_name "preflight"
stage_transition s t true true = false

pub can_transition : WorkloadState → WorkloadState → Bool
unfolding stage_transition
can_transition (at_stage s) (at_stage t) = stage_transition s t s.ready_for_next t.ready_for_next
can_transition idle (at_stage t) = t.stage_index == 0
can_transition (at_stage s) completed = s.ready_for_next
can_transition (at_stage s) idle = s.ready_for_next
can_transition (at_stage s) failed = true
can_transition completed idle = true
can_transition failed idle = true
can_transition _ aborting = true
can_transition aborting idle = true
can_transition idle idle = true
can_transition failed failed = true
can_transition _ _ = false

-- The derived `==` of the source.
pub bool_eq : Bool → Bool → Bool
bool_eq true b = b
bool_eq false b = not b

pub same_state : WorkloadState → WorkloadState → Bool
unfolding bool_eq
same_state idle idle = true
same_state completed completed = true
same_state failed failed = true
same_state aborting aborting = true
same_state (at_stage s) (at_stage t) =
    s.stage_index == t.stage_index
    && str_eq s.stage_name t.stage_name
    && bool_eq s.ready_for_next t.ready_for_next
same_state _ _ = false

-- `none` is the error "Invalid state transition", which changes nothing.
pub transition_to : WorkloadState → WorkloadState → Option WorkloadState
transition_to new_state state =
    if same_state state new_state
    then some state
    else if can_transition state new_state
    then some new_state
    else none

-- `let _ = transition_to(..)`: the error is dropped.
pub try_transition : WorkloadState → WorkloadState → WorkloadState
try_transition new_state state = elim (transition_to new_state state) [
  | none ↦ state
  | some state' ↦ state'
]

-- How a stage of a run ends: the abort signal is there before it; its work fails; its barrier is not
-- released, after all retries; or its barrier is released.
pub data StageEnd : Type 0 where
  aborted_before work_failed not_released released : StageEnd

pub data WorkflowError : Type 0 where
  aborted_by_user transition_refused stage_failed barrier_failed : WorkflowError

pub data WorkflowEnd : Type 0 where
  finished : WorkloadState → WorkflowEnd
  stopped : WorkflowError → WorkloadState → WorkflowEnd

-- The states of `execute_stages_workflow`, with no other task changing them: each stage, by its name
-- and its end, is entered, completed, and left by the next transition. The transition to `completed`
-- may be refused, and is then only logged.
pub execute_stages : ℕ → List (String × StageEnd) → WorkloadState → WorkflowEnd
execute_stages i [] state = finished (try_transition completed state)
execute_stages i ((name, aborted_before) ∷ stages) state = stopped aborted_by_user state
execute_stages i ((name, end) ∷ stages) state =
    let running =
      at_stage (record { stage_index = i + 1; stage_name = name; ready_for_next = false }) in
    let ready =
      at_stage (record { stage_index = i + 1; stage_name = name; ready_for_next = true }) in
    elim (transition_to running state) [
      | none ↦ stopped transition_refused state
      | some at_work ↦ elim end [
        | aborted_before ↦ stopped aborted_by_user state
        | work_failed ↦ stopped stage_failed at_work
        | not_released ↦ elim (transition_to ready at_work) [
          | none ↦ stopped transition_refused at_work
          | some at_barrier ↦ stopped barrier_failed at_barrier
        ]
        | released ↦ elim (transition_to ready at_work) [
          | none ↦ stopped transition_refused at_work
          | some at_barrier ↦ execute_stages (i + 1) stages at_barrier
        ]
      ]
    ]

-- The control reader's reaction to the end of its stream: the state afterwards, and whether the
-- workload is sent the abort signal.
pub on_disconnect : WorkloadState → WorkloadState × Bool
on_disconnect idle = (idle, false)
on_disconnect aborting = (try_transition idle (try_transition failed aborting), false)
on_disconnect failed = (failed, false)
on_disconnect completed = (completed, false)
on_disconnect (at_stage s) =
    if s.ready_for_next
    then (try_transition idle (at_stage s), false)
    else (try_transition idle (try_transition failed (at_stage s)), true)

-- The AbortWorkload call: the state at once, and whether the abort signal is sent; `none` is an
-- internal error.
pub abort_workload : WorkloadState → Option (WorkloadState × Bool)
abort_workload aborting = some (aborting, false)
abort_workload idle = some (idle, false)
abort_workload failed = some (failed, false)
abort_workload state = do state' ← transition_to aborting state; some (state', true)

-- The two timers that an abort from a stage leaves behind, after 5 s and after 15 s.
pub abort_timer_first : WorkloadState → WorkloadState
abort_timer_first aborting = try_transition idle aborting
abort_timer_first state = state

pub abort_timer_retry : WorkloadState → WorkloadState
abort_timer_retry aborting = idle
abort_timer_retry (at_stage s) = idle
abort_timer_retry state = state
