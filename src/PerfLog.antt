-- ===== src/PerfLog.antt =====
-- src/perf_log.rs: how the performance log turns the counters of an agent into numbers per interval.
-- Rates, percentages and the copied percentiles are left out; an `Instant` is a number of
-- milliseconds.
mod Losses
mod Tests
use sai3_bench.Prelude.{ℕ, ◌+◌, ◌-◌, String, Bool, false, Option, none, some, ltb}
use sai3_bench.LiveStats.{WorkloadStage}

pub record PerfMetrics : Type 0 where
  pub get_ops : ℕ
  pub get_bytes : ℕ
  pub put_ops : ℕ
  pub put_bytes : ℕ
  pub meta_ops : ℕ
  pub errors : ℕ

pub record PerfLogEntry : Type 0 where
  pub agent_id : String
  pub elapsed : ℕ
  pub stage : WorkloadStage
  pub stage_name : String
  pub get_ops : ℕ
  pub get_bytes : ℕ
  pub put_ops : ℕ
  pub put_bytes : ℕ
  pub meta_ops : ℕ
  pub errors : ℕ

pub record PerfLogDeltaTracker : Type 0 where
  pub prev_get_ops : ℕ
  pub prev_get_bytes : ℕ
  pub prev_put_ops : ℕ
  pub prev_put_bytes : ℕ
  pub prev_meta_ops : ℕ
  pub prev_errors : ℕ
  pub prev_timestamp : Option ℕ
  pub workload_start : Option ℕ
  pub warmup_end : Option ℕ

abbrev pub new : PerfLogDeltaTracker
new = record {
  prev_get_ops = 0;
  prev_get_bytes = 0;
  prev_put_ops = 0;
  prev_put_bytes = 0;
  prev_meta_ops = 0;
  prev_errors = 0;
  prev_timestamp = none;
  workload_start = none;
  warmup_end = none;
}

-- The end of a warmup that begins now.
abbrev pub warmup_from : ℕ → Option ℕ → Option ℕ
warmup_from now none = none
warmup_from now (some duration) = some (now + duration)

unfoldable pub start : ℕ → Option ℕ → PerfLogDeltaTracker → PerfLogDeltaTracker
start now warmup_duration t = record t {
  workload_start = some now;
  prev_timestamp = some now;
  warmup_end = warmup_from now warmup_duration;
}

unfoldable pub reset_warmup_for_workload : ℕ → Option ℕ → PerfLogDeltaTracker → PerfLogDeltaTracker
reset_warmup_for_workload now warmup_duration t = record t {
  workload_start = some now;
  prev_timestamp = some now;
  warmup_end = warmup_from now warmup_duration;
}

unfoldable pub reset_for_stage : ℕ → PerfLogDeltaTracker → PerfLogDeltaTracker
reset_for_stage now t = record t { workload_start = some now; prev_timestamp = some now }

-- Instant::now() - start, which is at most `now`.
abbrev pub elapsed : ℕ → PerfLogDeltaTracker → ℕ
elapsed now t = elim t.workload_start [ none ↦ 0 | some start ↦ now - start ]

pub is_warmup : ℕ → PerfLogDeltaTracker → Bool
is_warmup now t = elim t.warmup_end [ none ↦ false | some end ↦ ltb now end ]

unfoldable pub compute_delta :
    ℕ
    → String
    → PerfMetrics
    → WorkloadStage
    → String
    → PerfLogDeltaTracker
    → PerfLogDeltaTracker × PerfLogEntry
compute_delta now agent_id metrics stage stage_name t = (
  record t {
    prev_get_ops = metrics.get_ops;
    prev_get_bytes = metrics.get_bytes;
    prev_put_ops = metrics.put_ops;
    prev_put_bytes = metrics.put_bytes;
    prev_meta_ops = metrics.meta_ops;
    prev_errors = metrics.errors;
    prev_timestamp = some now;
  },
  record {
    agent_id = agent_id;
    elapsed = elapsed now t;
    stage = stage;
    stage_name = stage_name;
    get_ops = metrics.get_ops - t.prev_get_ops;
    get_bytes = metrics.get_bytes - t.prev_get_bytes;
    put_ops = metrics.put_ops - t.prev_put_ops;
    put_bytes = metrics.put_bytes - t.prev_put_bytes;
    meta_ops = metrics.meta_ops - t.prev_meta_ops;
    errors = metrics.errors - t.prev_errors;
  },
)
