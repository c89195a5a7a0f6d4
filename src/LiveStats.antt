-- ===== src/LiveStats.antt =====
-- The counters behind the progress reports of an agent: `WorkloadStage`, `LiveStatsTracker` and
-- its snapshots of src/live_stats.rs. Threads share the counters, each of which is one atomic
-- number, so that a run is a sequence of calls. The histograms are another package's and left out,
-- as are the clocks.
mod History
mod Legacy
mod Tests
use sai3_bench.Prelude.{
  ℕ, ◌+◌, ◌%◌, ◌^◌, String, Bool, not, List, [], ◌∷◌, ◌==◌, if◌then◌else◌, u64,
}

pub data WorkloadStage : Type 0 where
  unknown prepare workload cleanup listing custom : WorkloadStage

-- `stage as u64`, which is also to_proto_i32.
pub to_proto : WorkloadStage → ℕ
to_proto unknown = 0
to_proto prepare = 1
to_proto workload = 2
to_proto cleanup = 3
to_proto listing = 4
to_proto custom = 10

pub from_i32 : ℕ → WorkloadStage
from_i32 value =
    if value == 1
    then prepare
    else if value == 2
    then workload
    else if value == 3
    then cleanup
    else if value == 4
    then listing
    else if value == 10
    then custom
    else unknown

pub default_name : WorkloadStage → String
default_name unknown = "Unknown"
default_name prepare = "Prepare"
default_name workload = "Workload"
default_name cleanup = "Cleanup"
default_name listing = "Listing"
default_name custom = "Custom"

pub record LiveStatsTracker : Type 0 where
  pub get_ops : ℕ
  pub get_bytes : ℕ
  pub put_ops : ℕ
  pub put_bytes : ℕ
  pub meta_ops : ℕ
  pub in_prepare_phase : ℕ
  pub prepare_objects_created : ℕ
  pub prepare_objects_total : ℕ
  pub current_stage : ℕ
  pub stage_name : String
  pub stage_progress_current : ℕ
  pub stage_progress_total : ℕ
  pub concurrency : ℕ

pub new_with_concurrency : ℕ → LiveStatsTracker
new_with_concurrency concurrency = record {
  get_ops = 0;
  get_bytes = 0;
  put_ops = 0;
  put_bytes = 0;
  meta_ops = 0;
  in_prepare_phase = 0;
  prepare_objects_created = 0;
  prepare_objects_total = 0;
  current_stage = to_proto unknown;
  stage_name = "";
  stage_progress_current = 0;
  stage_progress_total = 0;
  concurrency = concurrency;
}

pub record_get : ℕ → LiveStatsTracker → LiveStatsTracker
record_get bytes s = record s {
  get_ops = (s.get_ops + 1) % u64;
  get_bytes = (s.get_bytes + bytes) % u64;
}

pub record_put : ℕ → LiveStatsTracker → LiveStatsTracker
record_put bytes s = record s {
  put_ops = (s.put_ops + 1) % u64;
  put_bytes = (s.put_bytes + bytes) % u64;
}

pub record_meta : LiveStatsTracker → LiveStatsTracker
record_meta s = record s { meta_ops = (s.meta_ops + 1) % u64 }

-- The older fields for the prepare phase, which set_stage keeps up to date.
pub set_legacy : WorkloadStage → ℕ → LiveStatsTracker → LiveStatsTracker
set_legacy stage total s =
    if to_proto stage == to_proto prepare
    then record s {
      in_prepare_phase = 1;
      prepare_objects_total = total;
      prepare_objects_created = 0;
    }
    else record s { in_prepare_phase = 0 }

pub set_stage : WorkloadStage → ℕ → LiveStatsTracker → LiveStatsTracker
set_stage stage total s = set_legacy stage total (record s {
  current_stage = to_proto stage;
  stage_name = default_name stage;
  stage_progress_current = 0;
  stage_progress_total = total;
})

pub set_stage_with_name : WorkloadStage → String → ℕ → LiveStatsTracker → LiveStatsTracker
set_stage_with_name stage name total s = record (set_stage stage total s) { stage_name = name }

pub set_stage_progress : ℕ → LiveStatsTracker → LiveStatsTracker
set_stage_progress current s =
    if s.current_stage == to_proto prepare
    then record s { stage_progress_current = current; prepare_objects_created = current }
    else record s { stage_progress_current = current }

pub increment_stage_progress : LiveStatsTracker → LiveStatsTracker
increment_stage_progress s =
    let next = (s.stage_progress_current + 1) % u64 in
    if s.current_stage == to_proto prepare
    then record s {
      stage_progress_current = next;
      prepare_objects_created = (s.prepare_objects_created + 1) % u64;
    }
    else record s { stage_progress_current = next }

-- It has no case for 4.
pub get_stage : LiveStatsTracker → WorkloadStage
get_stage s =
    if s.current_stage == 1
    then prepare
    else if s.current_stage == 2
    then workload
    else if s.current_stage == 3
    then cleanup
    else if s.current_stage == 10
    then custom
    else unknown

pub set_prepare_progress : ℕ → ℕ → LiveStatsTracker → LiveStatsTracker
set_prepare_progress created total s = record s {
  in_prepare_phase = 1;
  prepare_objects_created = created;
  prepare_objects_total = total;
  current_stage = to_proto prepare;
  stage_progress_current = created;
  stage_progress_total = total;
}

pub set_prepare_complete : LiveStatsTracker → LiveStatsTracker
set_prepare_complete s = record s { in_prepare_phase = 0 }

pub reset_for_workload : LiveStatsTracker → LiveStatsTracker
reset_for_workload s = record s {
  get_ops = 0;
  get_bytes = 0;
  put_ops = 0;
  put_bytes = 0;
  meta_ops = 0;
}

pub reset_for_stage : String → WorkloadStage → LiveStatsTracker → LiveStatsTracker
reset_for_stage name stage s = record s {
  get_ops = 0;
  get_bytes = 0;
  put_ops = 0;
  put_bytes = 0;
  meta_ops = 0;
  stage_progress_current = 0;
  stage_progress_total = 0;
  current_stage = to_proto stage;
  stage_name = name;
}

pub record LiveStatsSnapshot : Type 0 where
  pub get_ops : ℕ
  pub get_bytes : ℕ
  pub put_ops : ℕ
  pub put_bytes : ℕ
  pub meta_ops : ℕ
  pub in_prepare_phase : Bool
  pub prepare_objects_created : ℕ
  pub prepare_objects_total : ℕ
  pub current_stage : WorkloadStage
  pub stage_name : String
  pub stage_progress_current : ℕ
  pub stage_progress_total : ℕ
  pub concurrency : ℕ

-- `as i32` keeps the low 32 bits; negative numbers stand for no stage, as large ones do.
pub snapshot : LiveStatsTracker → LiveStatsSnapshot
snapshot s = record {
  get_ops = s.get_ops;
  get_bytes = s.get_bytes;
  put_ops = s.put_ops;
  put_bytes = s.put_bytes;
  meta_ops = s.meta_ops;
  in_prepare_phase = not (s.in_prepare_phase == 0);
  prepare_objects_created = s.prepare_objects_created;
  prepare_objects_total = s.prepare_objects_total;
  current_stage = from_i32 (s.current_stage % 2 ^ 32);
  stage_name = s.stage_name;
  stage_progress_current = s.stage_progress_current;
  stage_progress_total = s.stage_progress_total;
  concurrency = s.concurrency;
}

-- The methods of the tracker that change it, and their arguments.
pub data Update : Type 0 where
  got : ℕ → Update
  put : ℕ → Update
  meta : Update
  enter : WorkloadStage → ℕ → Update
  enter_named : WorkloadStage → String → ℕ → Update
  progress : ℕ → Update
  increment : Update
  prepare_progress : ℕ → ℕ → Update
  prepare_complete : Update
  workload_reset : Update
  stage_reset : String → WorkloadStage → Update

pub update : Update → LiveStatsTracker → LiveStatsTracker
update (got bytes) s = record_get bytes s
update (put bytes) s = record_put bytes s
update meta s = record_meta s
update (enter stage total) s = set_stage stage total s
update (enter_named stage name total) s = set_stage_with_name stage name total s
update (progress current) s = set_stage_progress current s
update increment s = increment_stage_progress s
update (prepare_progress created total) s = set_prepare_progress created total s
update prepare_complete s = set_prepare_complete s
update workload_reset s = reset_for_workload s
update (stage_reset name stage) s = reset_for_stage name stage s

-- The tracker after a history of updates, the last update first.
pub after : List Update → LiveStatsTracker → LiveStatsTracker
after [] s = s
after (u ∷ history) s = update u (after history s)
