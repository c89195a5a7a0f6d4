-- ===== src/Agent/Tests.antt =====
-- Witnesses for the agent's state machine.
use sai3_bench.Prelude.{true, false, List, [], ◌∷◌}
use sai3_bench.Agent.{Stage, WorkloadState, completed, failed, at_stage}

abbrev prepare_ready : Stage
prepare_ready = record { stage_index = 1; stage_name = "prepare"; ready_for_next = true }

abbrev executing : Stage
executing = record { stage_index = 2; stage_name = "execute"; ready_for_next = false }

-- The running stage reports its end, and the run its failure, after the abort.
abbrev attempted : List WorkloadState
attempted = at_stage (record executing { ready_for_next = true }) ∷ completed ∷ failed ∷ []
