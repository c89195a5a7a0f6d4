-- ===== src/Stages.antt =====
-- The stages of a distributed run: `StageConfig`, `BarrierSyncConfig` and the checks of
-- `DistributedConfig` in src/config.rs, and `generate_stages` of src/config_converter.rs, which
-- turns an older configuration into stages. A duration is a number of nanoseconds; the warning on
-- gaps in the order, which changes nothing, is left out.
pub mod Check
pub mod Sorted
pub mod Generated
mod Tests
use sai3_bench.Prelude.{
  ℕ, ◌+◌, ◌%◌, String, Bool, true, false, Option, none, some, List, [], ◌∷◌, ◌++◌, map, leb,
  if◌then◌else◌, u64,
}
use sai3_bench.Prelude.Keys.{Key, key_eq, nat_key, string_key}
use sai3_bench.Prelude.Assoc.{contains, set_insert}
use sai3_bench.Controller.Barrier.{PhaseBarrierConfig, all_or_nothing}

pub data CompletionCriteria : Type 0 where
  duration tasks_done script_exit validation_passed duration_or_tasks : CompletionCriteria

pub data StageSpecificConfig : Type 0 where
  execute : ℕ → StageSpecificConfig
  prepare cleanup : Option ℕ → StageSpecificConfig
  custom : String → List String → StageSpecificConfig
  hybrid : Option ℕ → Option ℕ → StageSpecificConfig
  validation : StageSpecificConfig

pub record StageConfig : Type 0 where
  pub name : String
  pub order : ℕ
  pub completion : CompletionCriteria
  pub barrier : Option PhaseBarrierConfig
  pub timeout_secs : Option ℕ
  pub optional : Bool
  pub config : StageSpecificConfig

pub record BarrierSyncConfig : Type 0 where
  pub enabled : Bool
  pub default_heartbeat_interval : ℕ
  pub default_missed_threshold : ℕ
  pub default_query_timeout : ℕ
  pub default_query_retries : ℕ
  pub phase_validation : Option PhaseBarrierConfig
  pub phase_prepare : Option PhaseBarrierConfig
  pub phase_execute : Option PhaseBarrierConfig
  pub phase_cleanup : Option PhaseBarrierConfig

abbrev phase_override : BarrierSyncConfig → String → Option PhaseBarrierConfig
phase_override sync phase =
    if key_eq phase "validation"
    then sync.phase_validation
    else if key_eq phase "prepare"
    then sync.phase_prepare
    else if key_eq phase "execute"
    then sync.phase_execute
    else if key_eq phase "cleanup"
    then sync.phase_cleanup
    else none

-- The last number is default_agent_barrier_timeout().
pub get_phase_config : BarrierSyncConfig → String → PhaseBarrierConfig
get_phase_config sync phase = elim (phase_override sync phase) [
  | some config ↦ config
  | none ↦ record {
    barrier_type = all_or_nothing;
    heartbeat_interval = sync.default_heartbeat_interval;
    missed_threshold = sync.default_missed_threshold;
    query_timeout = sync.default_query_timeout;
    query_retries = sync.default_query_retries;
    agent_barrier_timeout = 120;
  }
]

-- The fields of the configuration that concern stages.
pub record DistributedConfig : Type 0 where
  pub barrier_sync : BarrierSyncConfig
  pub stages : List StageConfig

pub data StageError : Type 0 where
  empty_stages : StageError
  duplicate_stage_name : String → StageError
  duplicate_stage_order : ℕ → StageError
  wrong_completion : String → StageError

-- The first key that is already in the set, or comes twice.
module _ {ℓ} {K : Type ℓ} ⦃e : Key K⦄ where
  pub first_duplicate : List K → List K → Option K
  first_duplicate seen [] = none
  first_duplicate seen (k ∷ ks) =
      let rest = first_duplicate (set_insert k seen) ks in if contains k seen then some k else rest

pub completion_fits : StageSpecificConfig → CompletionCriteria → Bool
completion_fits (execute _) duration = true
completion_fits (execute _) duration_or_tasks = true
completion_fits (prepare _) tasks_done = true
completion_fits (prepare _) duration_or_tasks = true
completion_fits (cleanup _) tasks_done = true
completion_fits (cleanup _) duration_or_tasks = true
completion_fits (custom _ _) script_exit = true
completion_fits (custom _ _) duration_or_tasks = true
completion_fits (hybrid _ _) duration_or_tasks = true
completion_fits validation validation_passed = true
completion_fits _ _ = false

pub first_unfit : List StageConfig → Option String
first_unfit [] = none
first_unfit (stage ∷ rest) =
    let later = first_unfit rest in
    if completion_fits stage.config stage.completion then later else some stage.name

abbrev pub names : List StageConfig → List String
names = map (λ (s : StageConfig). s.name)

abbrev pub orders : List StageConfig → List ℕ
orders = map (λ (s : StageConfig). s.order)

-- `none` is Ok(()).
pub validate_stages : List StageConfig → Option StageError
validate_stages [] = some empty_stages
validate_stages (stage ∷ rest) =
    let stages = stage ∷ rest in
    elim (first_duplicate [] (names stages)) [
      | some name ↦ some (duplicate_stage_name name)
      | none ↦ elim (first_duplicate [] (orders stages)) [
        | some order ↦ some (duplicate_stage_order order)
        | none ↦ elim (first_unfit stages) [
          | some name ↦ some (wrong_completion name)
          | none ↦ none
        ]
      ]
    ]

-- sort_by_key(|s| s.order), which is stable.
pub insert_stage : StageConfig → List StageConfig → List StageConfig
insert_stage s [] = s ∷ []
insert_stage s (t ∷ ts) =
    let rest = insert_stage s ts in if leb s.order t.order then s ∷ t ∷ ts else t ∷ rest

pub sort_by_order : List StageConfig → List StageConfig
sort_by_order [] = []
sort_by_order (s ∷ ss) = insert_stage s (sort_by_order ss)

abbrev pub phase_name : StageSpecificConfig → String
phase_name validation = "validation"
phase_name (prepare _) = "prepare"
phase_name (cleanup _) = "cleanup"
phase_name (execute _) = "execute"
phase_name (custom _ _) = "execute"
phase_name (hybrid _ _) = "execute"

pub with_barrier : BarrierSyncConfig → StageConfig → StageConfig
with_barrier sync stage = elim stage.barrier [
  | some config ↦ stage
  | none ↦ record stage { barrier = some (get_phase_config sync (phase_name stage.config)) }
]

pub data Checked : Type 0 where
  ok : List StageConfig → Checked
  err : StageError → Checked

pub get_sorted_stages : DistributedConfig → Checked
get_sorted_stages config = elim (validate_stages config.stages) [
  | some e ↦ err e
  | none ↦
      let sorted = sort_by_order config.stages in
      ok (
        if config.barrier_sync.enabled
        then map (with_barrier config.barrier_sync) sorted
        else sorted)
]

-- The fields of the older configuration that stages are made from.
pub record PrepareConfig : Type 0 where
  pub ensure_counts : List ℕ
  pub cleanup_after : Bool

pub record Config : Type 0 where
  pub prepare_section : Option PrepareConfig
  pub run_duration : ℕ

pub sum_counts : List ℕ → ℕ
sum_counts [] = 0
sum_counts (n ∷ ns) = (n + sum_counts ns) % u64

pub expected_objects : PrepareConfig → Option ℕ
expected_objects p = elim p.ensure_counts [ [] ↦ none | n ∷ ns ↦ some (sum_counts (n ∷ ns)) ]

abbrev stage_of : String → ℕ → CompletionCriteria → Option ℕ → StageSpecificConfig → StageConfig
stage_of name order completion timeout_secs config = record {
  name = name;
  order = order;
  completion = completion;
  barrier = none;
  timeout_secs = timeout_secs;
  optional = false;
  config = config;
}

pub generate_stages : Config → List StageConfig
generate_stages c =
    let preflight = stage_of "preflight" 1 validation_passed (some 300) validation in
    elim c.prepare_section [
      | none ↦ preflight ∷ stage_of "execute" 2 duration none (execute c.run_duration) ∷ []
      | some p ↦
          let before = stage_of "prepare" 2 tasks_done none (prepare (expected_objects p)) in
          let run = stage_of "execute" 3 duration none (execute c.run_duration) in
          let after = stage_of "cleanup" 4 tasks_done none (cleanup (expected_objects p)) in
          if p.cleanup_after
          then preflight ∷ before ∷ run ∷ after ∷ []
          else preflight ∷ before ∷ run ∷ []
    ]
