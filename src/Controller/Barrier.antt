-- ===== src/Controller/Barrier.antt =====
-- `BarrierManager` of src/bin/controller.rs and the barrier types of src/config.rs. An `Instant` is
-- a number of milliseconds, handed to each operation that reads the clock.
pub mod Inv
pub mod Status
pub mod Liveness
mod Answers
mod GivenUp
mod Wait
mod LivenessTests
pub mod Release
pub mod Reports
pub mod Step
pub mod AllOrNothing
mod Tests
use mathlib.Core.Option
use sai3_bench.Prelude.{
  ℕ, ◌+◌, ◌*◌, ◌/◌, ◌-◌, String, Bool, true, false, ◌&&◌, ◌||◌, not, Option, none, some, List, [],
  ◌∷◌, ltb, leb, ◌==◌, if◌then◌else◌, checked_sub, length,
}
use sai3_bench.Prelude.Keys.{nat_key, string_key}
use sai3_bench.Prelude.Assoc.{contains, set_insert}
use sai3_bench.Prelude.Maps.{lookup, insert, update, keys, map_values}

pub data BarrierType : Type 0 where
  all_or_nothing majority best_effort : BarrierType

pub record PhaseBarrierConfig : Type 0 where
  pub barrier_type : BarrierType
  pub heartbeat_interval : ℕ
  pub missed_threshold : ℕ
  pub query_timeout : ℕ
  pub query_retries : ℕ
  pub agent_barrier_timeout : ℕ

-- The fields of the message that the barrier manager reads.
pub record PhaseProgress : Type 0 where
  pub current_phase : ℕ
  pub operations_completed : ℕ
  pub phase_completed : Bool
  pub at_barrier : Bool

pub record AgentHeartbeat : Type 0 where
  pub last_heartbeat : ℕ
  pub last_progress : Option PhaseProgress
  pub missed_count : ℕ
  pub is_alive : Bool
  pub query_in_progress : Bool

pub data BarrierStatus : Type 0 where
  ready waiting degraded failed : BarrierStatus

pub record BarrierState : Type 0 where
  pub ready_agents : List (String × ℕ)
  pub released : Bool

pub record BarrierReleaseInfo : Type 0 where
  pub barrier_index : ℕ
  pub ready_agents : List String

pub record BarrierManager : Type 0 where
  pub agents : List (String × AgentHeartbeat)
  pub config : PhaseBarrierConfig
  pub ready_agents : List String
  pub failed_agents : List String
  pub barrier_agents : List (ℕ × BarrierState)

abbrev pub fresh_heartbeat : ℕ → AgentHeartbeat
fresh_heartbeat now = record {
  last_heartbeat = now;
  last_progress = none;
  missed_count = 0;
  is_alive = true;
  query_in_progress = false;
}

pub insert_agents :
    ℕ → List String → List (String × AgentHeartbeat) → List (String × AgentHeartbeat)
insert_agents now [] agents = agents
insert_agents now (id ∷ ids) agents = insert_agents now ids (insert id (fresh_heartbeat now) agents)

pub new : ℕ → List String → PhaseBarrierConfig → BarrierManager
unfolding insert_agents
new now agent_ids config = record {
  agents = insert_agents now agent_ids [];
  config = config;
  ready_agents = [];
  failed_agents = [];
  barrier_agents = [];
}

beat : ℕ → PhaseProgress → AgentHeartbeat → AgentHeartbeat
beat now progress hb = record {
  last_heartbeat = now;
  last_progress = some progress;
  missed_count = 0;
  is_alive = true;
  query_in_progress = false;
}

pub process_heartbeat : ℕ → String → PhaseProgress → BarrierManager → BarrierManager
unfolding beat
process_heartbeat now agent_id progress bm = elim (lookup agent_id bm.agents) [
  | none ↦ bm
  | some hb ↦ record bm {
    agents = update agent_id (beat now progress) bm.agents;
    ready_agents =
        if progress.phase_completed || progress.at_barrier
        then set_insert agent_id bm.ready_agents
        else bm.ready_agents;
  }
]

module _ (ready_count total_count failed_count alive_count : ℕ) where
  all_or_nothing_status : Option BarrierStatus
  all_or_nothing_status =
      if ltb 0 failed_count
      then some failed
      else if ready_count == alive_count
      then some ready
      else some waiting

  -- The two subtractions of the last test but one are checked like the source's.
  stragglers_short : Option Bool
  stragglers_short = elim (checked_sub alive_count ready_count) [
    | none ↦ none
    | some left ↦ elim (checked_sub (total_count / 2 + 1) ready_count) [
      | none ↦ none
      | some needed ↦ some (ltb left needed)
    ]
  ]

  majority_status : Option BarrierStatus
  unfolding stragglers_short
  majority_status =
      if leb alive_count (total_count / 2)
      then some failed
      else if ready_count == alive_count && failed_count == 0
      then some ready
      else if ltb (total_count / 2) ready_count
      then some degraded
      else elim stragglers_short [
        | none ↦ none
        | some true ↦ some failed
        | some false ↦ some waiting
      ]

  best_effort_status : Option BarrierStatus
  best_effort_status =
      if alive_count == 0
      then some failed
      else if ready_count == alive_count && failed_count == 0
      then some ready
      else if ltb 0 ready_count
      then some degraded
      else some waiting

  status_of : BarrierType → Option BarrierStatus
  unfolding all_or_nothing_status majority_status best_effort_status
  status_of all_or_nothing = all_or_nothing_status
  status_of majority = majority_status
  status_of best_effort = best_effort_status

-- `none` is an unsigned subtraction that overflows.
pub check_barrier : BarrierManager → Option BarrierStatus
unfolding status_of
check_barrier bm = elim (checked_sub (length bm.agents) (length bm.failed_agents)) [
  | none ↦ none
  | some alive_count ↦
      status_of (length bm.ready_agents) (length bm.agents) (length bm.failed_agents) alive_count
        bm.config.barrier_type
]

-- entry(..).or_default()
pub entry_or_default : ℕ → List (ℕ × BarrierState) → BarrierState
entry_or_default index barriers = elim (lookup index barriers) [
  | none ↦ record { ready_agents = []; released = false }
  | some state ↦ state
]

pub mark_ready : String → ℕ → BarrierState → BarrierState
mark_ready agent_id barrier_sequence state = elim (lookup agent_id state.ready_agents) [
  | none ↦ record state { ready_agents = insert agent_id barrier_sequence state.ready_agents }
  | some existing_seq ↦
      if ltb existing_seq barrier_sequence
      then record state { ready_agents = insert agent_id barrier_sequence state.ready_agents }
      else state
]

pub agent_at_barrier : String → ℕ → ℕ → BarrierManager → BarrierManager
agent_at_barrier agent_id barrier_index barrier_sequence bm = record bm {
  barrier_agents =
      insert barrier_index
        (mark_ready agent_id barrier_sequence (entry_or_default barrier_index bm.barrier_agents))
        bm.barrier_agents;
}

pub can_release : BarrierType → ℕ → ℕ → ℕ → ℕ → Bool
can_release all_or_nothing ready_count total_count failed_count alive_count =
    failed_count == 0 && ready_count == alive_count
can_release majority ready_count total_count failed_count alive_count =
    ltb (total_count / 2) ready_count
can_release best_effort ready_count total_count failed_count alive_count =
    ready_count == alive_count && ltb 0 alive_count

-- The outer `none` is an unsigned subtraction that overflows, the inner one "not yet".
pub check_barrier_ready : BarrierManager → ℕ → Option (Option BarrierReleaseInfo)
unfolding can_release
check_barrier_ready bm barrier_index = elim (lookup barrier_index bm.barrier_agents) [
  | none ↦ some none
  | some state ↦
      if state.released
      then some none
      else elim (checked_sub (length bm.agents) (length bm.failed_agents)) [
        | none ↦ none
        | some alive_count ↦
            if can_release bm.config.barrier_type (length state.ready_agents) (length bm.agents)
              (length bm.failed_agents) alive_count
            then some (
                some (record {
                  barrier_index = barrier_index;
                  ready_agents = keys state.ready_agents;
                }))
            else some none
      ]
]

pub clear_barrier : ℕ → BarrierManager → BarrierManager
clear_barrier barrier_index bm = record bm {
  barrier_agents = update barrier_index (λ s. record s { released = true }) bm.barrier_agents;
}

pub reset_barrier_state : ℕ → BarrierManager → BarrierManager
reset_barrier_state now bm = record bm {
  agents = map_values (λ hb. fresh_heartbeat now) bm.agents;
  ready_agents = [];
  failed_agents = [];
  barrier_agents = [];
}

-- The controller's reaction to a message of an agent at a barrier: whom it sends RELEASE_BARRIER,
-- and the manager afterwards.
pub on_barrier_report :
    String → ℕ → BarrierManager → Option (Option BarrierReleaseInfo × BarrierManager)
on_barrier_report agent_id barrier_sequence bm =
    let bm' = agent_at_barrier agent_id barrier_sequence barrier_sequence bm in
    elim (check_barrier_ready bm' barrier_sequence) [
      | none ↦ none
      | some none ↦ some (none, bm')
      | some (some info) ↦ some (some info, clear_barrier barrier_sequence bm')
    ]

-- The messages of agents at barriers, one after the other: agent and stage index.
pub on_barrier_reports :
    List (String × ℕ) → BarrierManager → Option (List BarrierReleaseInfo × BarrierManager)
on_barrier_reports [] bm = some ([], bm)
on_barrier_reports ((agent_id, barrier_sequence) ∷ rest) bm =
    elim (on_barrier_report agent_id barrier_sequence bm) [
      | none ↦ none
      | some (none, bm') ↦ on_barrier_reports rest bm'
      | some (some info, bm') ↦
          Option.map (λ (infos, bm''). (info ∷ infos, bm'')) (on_barrier_reports rest bm')
    ]
