-- ===== src/PerfLog/Tests.antt =====
-- src/perf_log.rs: a log of two stages.
use sai3_bench.Prelude.{ℕ, ◌+◌, ◌≡◌, refl, some, true, false, List, [], ◌∷◌, sum_by, arith}
use sai3_bench.LiveStats.{WorkloadStage, prepare, workload}
use sai3_bench.PerfLog.{PerfMetrics, new, start, reset_for_stage, compute_delta, is_warmup}
use sai3_bench.PerfLog.Losses.{
  put_ops, logged, Call, sampled, started, stage_reset, restarted, entries, counted, lost,
  entries-counted,
}

abbrev metrics : ℕ → PerfMetrics
metrics n = record {
  get_ops = 0;
  get_bytes = 0;
  put_ops = n;
  put_bytes = 4096;
  meta_ops = 0;
  errors = 0;
}

abbrev sample : ℕ → ℕ → WorkloadStage → Call
sample now n stage = sampled now "agent-1" (metrics n) stage "stage"

-- The second stage makes 40 objects before its first sample.
abbrev two_stages : List Call
two_stages =
    started 0 (some 1500)
    ∷ sample 1000 30 prepare
    ∷ sample 2000 90 prepare
    ∷ restarted
    ∷ stage_reset 2100
    ∷ sample 3000 40 workload
    ∷ sample 4000 100 workload
    ∷ []

-- 150 of the 190 objects are logged.
logged_test : sum_by (logged put_ops) (entries two_stages new) ≡ 150
unfolding entries sum_by compute_delta start reset_for_stage
logged_test = refl

warmup_test : is_warmup 1499 (start 0 (some 1500) new) ≡ true
unfolding is_warmup start
warmup_test = refl

entries-counted_example :
    sum_by (logged put_ops) (entries two_stages new) + lost put_ops 0 false two_stages
    ≡ counted put_ops 0 two_stages
entries-counted_example = entries-counted put_ops two_stages (ground arith)
