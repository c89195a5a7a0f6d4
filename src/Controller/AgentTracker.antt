-- ===== src/Controller/AgentTracker.antt =====
-- `ControllerAgentState` and `AgentTracker` of src/bin/controller.rs: what the controller knows of
-- one agent. An `Instant` is a number handed to each operation that reads the clock.
pub mod Paths
mod Tests
use sai3_bench.Prelude.{ℕ, ◌-◌, String, Bool, true, false, Option, none, some, if◌then◌else◌}

pub data ControllerAgentState : Type 0 where
  connecting validating ready preparing running cleaning completed failed disconnected aborting :
      ControllerAgentState

unfoldable pub can_transition : ControllerAgentState → ControllerAgentState → Bool
can_transition connecting validating = true
can_transition validating ready = true
can_transition validating failed = true
can_transition ready preparing = true
can_transition ready running = true
can_transition preparing running = true
can_transition preparing failed = true
can_transition running cleaning = true
can_transition running completed = true
can_transition cleaning completed = true
can_transition running failed = true
can_transition cleaning failed = true
can_transition connecting disconnected = true
can_transition validating disconnected = true
can_transition ready disconnected = true
can_transition preparing disconnected = true
can_transition running disconnected = true
can_transition cleaning disconnected = true
can_transition ready aborting = true
can_transition preparing aborting = true
can_transition running aborting = true
can_transition cleaning aborting = true
can_transition aborting completed = true
can_transition aborting failed = true
can_transition aborting disconnected = true
can_transition disconnected preparing = true
can_transition disconnected running = true
can_transition disconnected cleaning = true
can_transition disconnected completed = true
can_transition disconnected failed = true
can_transition completed completed = true
can_transition failed failed = true
can_transition disconnected disconnected = true
can_transition _ _ = false

-- The stats message of the agent is a parameter: the tracker only stores it.
pub record AgentTracker {ℓ} (LiveStats : Type ℓ) : Type ℓ where
  pub agent_id : String
  pub state : ControllerAgentState
  pub last_seen : ℕ
  pub error_message : Option String
  pub latest_stats : Option LiveStats
  pub reconnect_count : ℕ

module _ {ℓ} {LiveStats : Type ℓ} where
  pub new : ℕ → String → AgentTracker LiveStats
  new now agent_id = record {
    agent_id = agent_id;
    state = connecting;
    last_seen = now;
    error_message = none;
    latest_stats = none;
    reconnect_count = 0;
  }

  -- `none` is the error "Invalid agent state transition", which changes nothing.
  pub transition_to :
      ℕ → ControllerAgentState → AgentTracker LiveStats → Option (AgentTracker LiveStats)
  transition_to now new_state t =
      if can_transition t.state new_state
      then some (record t { state = new_state; last_seen = now })
      else none

  pub touch : ℕ → AgentTracker LiveStats → AgentTracker LiveStats
  touch now t = record t { last_seen = now }

  pub time_since_last_seen : ℕ → AgentTracker LiveStats → ℕ
  time_since_last_seen now t = now - t.last_seen

unfoldable pub is_terminal : ControllerAgentState → Bool
is_terminal completed = true
is_terminal failed = true
is_terminal _ = false

unfoldable pub is_active : ControllerAgentState → Bool
is_active preparing = true
is_active running = true
is_active _ = false
