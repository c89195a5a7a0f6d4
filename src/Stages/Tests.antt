-- ===== src/Stages/Tests.antt =====
-- Witnesses for the stages of a run.
use mathlib.Core.List.{Perm}
use sai3_bench.Prelude.{◌≡◌, ◌↔◌, refl, true, false, none, some, List, [], ◌∷◌, map}
use sai3_bench.Prelude.Keys.{nat_key, string_key}
use sai3_bench.Prelude.Assoc.{contains, set_insert}
use sai3_bench.Stages.{
  tasks_done, validation_passed, duration, execute, prepare, validation, StageConfig,
  BarrierSyncConfig, DistributedConfig, Config, ok, first_duplicate, first_unfit, completion_fits,
  validate_stages, get_sorted_stages,
}
use sai3_bench.Stages.Check.{IsValid, validate_stages_iff}
use sai3_bench.Stages.Sorted.{Ascending, runs_as, get_sorted_stages-ok}

abbrev check : StageConfig
check = record {
  name = "preflight";
  order = 1;
  completion = validation_passed;
  barrier = none;
  timeout_secs = some 300;
  optional = false;
  config = validation;
}

abbrev fill : StageConfig
fill = record check {
  name = "fill";
  order = 5;
  completion = tasks_done;
  config = prepare (some 1000);
}

abbrev run : StageConfig
run = record check { name = "run"; order = 7; completion = duration; config = execute 60 }

abbrev sync : BarrierSyncConfig
sync = record {
  enabled = true;
  default_heartbeat_interval = 30;
  default_missed_threshold = 3;
  default_query_timeout = 10;
  default_query_retries = 2;
  phase_validation = none;
  phase_prepare = none;
  phase_execute = none;
  phase_cleanup = none;
}

-- Not in the order of their execution.
abbrev given : DistributedConfig
given = record { barrier_sync = sync; stages = run ∷ check ∷ fill ∷ [] }

given_passes : validate_stages given.stages ≡ none
unfolding validate_stages first_duplicate first_unfit completion_fits contains set_insert
given_passes = refl

validate_stages_iff_example : (validate_stages given.stages ≡ none) ↔ IsValid given.stages
validate_stages_iff_example = validate_stages_iff given.stages

get_sorted_stages-ok_example :
    (sorted : List StageConfig) × (get_sorted_stages given ≡ ok sorted)
    × Ascending sorted
    × Perm sorted (map (runs_as given.barrier_sync) given.stages)
get_sorted_stages-ok_example = get_sorted_stages-ok given given_passes

abbrev older : Config
older = record {
  prepare_section = some (record { ensure_counts = 100 ∷ 20 ∷ []; cleanup_after = true });
  run_duration = 60;
}
