-- ===== src/Controller/AgentTracker/Tests.antt =====
-- Witnesses for the agent tracker.
use sai3_bench.Prelude.{ℕ, ◌<◌, refl, none, List, [], ◌∷◌}
use sai3_bench.Controller.AgentTracker.{
  ControllerAgentState, preparing, running, completed, failed, disconnected, AgentTracker,
  can_transition,
}
use sai3_bench.Controller.AgentTracker.Paths.{rank, transition_forward}

abbrev finished : AgentTracker ℕ
finished = record {
  state = completed;
  agent_id = "a";
  error_message = none;
  last_seen = 3;
  latest_stats = none;
  reconnect_count = 0;
}

-- A late failure, a loss and a report of progress.
abbrev late : List (ℕ × ControllerAgentState)
late = (4, failed) ∷ (5, disconnected) ∷ (6, running) ∷ []

transition_forward_example : rank preparing < rank running
transition_forward_example =
    transition_forward preparing running (unfold can_transition in refl) (λ e. cc) (λ e. cc)
