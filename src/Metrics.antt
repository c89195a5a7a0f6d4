-- ===== src/Metrics.antt =====
-- What a run counts: src/metrics.rs, the size bins and the worker statistics of src/workload.rs,
-- their merging over workers, over processes (src/multiprocess.rs) and over runtimes
-- (src/multiruntime.rs), and the way of the bins from an agent to the controller (src/bin/agent.rs,
-- src/bin/controller.rs). Histograms are another package's and left out, as is floating point.
mod Bins
mod Counting
mod Totals
mod Runtimes
mod Tests
use sai3_bench.Prelude.{
  ℕ, ◌+◌, ◌*◌, ◌%◌, ◌^◌, Option, none, some, List, [], ◌∷◌, map, leb, ◌==◌, if◌then◌else◌,
  unwrap_or, u32, u64,
}
use sai3_bench.Prelude.Keys.{nat_key}
use sai3_bench.Prelude.Maps.{lookup, insert}

pub bucket_index : ℕ → ℕ
bucket_index nbytes =
    if nbytes == 0
    then 0
    else if leb nbytes (8 * 1024)
    then 1
    else if leb nbytes (64 * 1024)
    then 2
    else if leb nbytes (512 * 1024)
    then 3
    else if leb nbytes (4 * 1024 * 1024)
    then 4
    else if leb nbytes (32 * 1024 * 1024)
    then 5
    else if leb nbytes (256 * 1024 * 1024)
    then 6
    else if leb nbytes (2 * 1024 * 1024 * 1024)
    then 7
    else 8

abbrev pub num_buckets : ℕ
num_buckets = 9

-- The operations and the bytes of each bucket.
abbrev pub SizeBins : Type 0
SizeBins = List (ℕ × (ℕ × ℕ))

abbrev pub bin : ℕ → SizeBins → ℕ × ℕ
bin b bins = unwrap_or (lookup b bins) (0, 0)

-- entry(b).or_insert((0, 0)), and additions to both parts.
abbrev pub grow : ℕ → ℕ → ℕ → SizeBins → SizeBins
grow b ops bytes bins = insert b (((bin b bins).0 + ops) % u64, ((bin b bins).1 + bytes) % u64) bins

pub add : ℕ → SizeBins → SizeBins
add size_bytes bins = grow (bucket_index size_bytes) 1 size_bytes bins

pub merge_from : SizeBins → SizeBins → SizeBins
merge_from bins [] = bins
merge_from bins ((k, (ops, bytes)) ∷ other) = merge_from (grow k ops bytes bins) other

-- Operations of one kind, their bytes and their size bins.
pub record OpStats : Type 0 where
  pub ops : ℕ
  pub bytes : ℕ
  pub bins : SizeBins

pub record WorkerStats : Type 0 where
  pub get : OpStats
  pub put : OpStats
  pub meta : OpStats

abbrev pub no_ops : OpStats
no_ops = record { ops = 0; bytes = 0; bins = [] }

abbrev pub no_stats : WorkerStats
no_stats = record { get = no_ops; put = no_ops; meta = no_ops }

-- An operation that succeeded, with the size of its object.
pub data Operation : Type 0 where
  did_get did_put : ℕ → Operation
  did_meta : Operation

pub count_op : ℕ → OpStats → OpStats
count_op size s = record {
  ops = (s.ops + 1) % u64;
  bytes = (s.bytes + size) % u64;
  bins = add size s.bins;
}

-- What a worker does with its statistics after an operation.
pub count_operation : Operation → WorkerStats → WorkerStats
count_operation (did_get size) ws = record ws { get = count_op size ws.get }
count_operation (did_put size) ws = record ws { put = count_op size ws.put }
count_operation did_meta ws = record ws {
  meta = record ws.meta { ops = (ws.meta.ops + 1) % u64; bins = add 0 ws.meta.bins };
}

pub count_operations : List Operation → WorkerStats → WorkerStats
count_operations [] ws = ws
count_operations (op ∷ ops) ws = count_operations ops (count_operation op ws)

pub merge_ops : OpStats → OpStats → OpStats
merge_ops a b = record {
  ops = (a.ops + b.ops) % u64;
  bytes = (a.bytes + b.bytes) % u64;
  bins = merge_from a.bins b.bins;
}

pub merge_stats : WorkerStats → WorkerStats → WorkerStats
merge_stats a b = record {
  get = merge_ops a.get b.get;
  put = merge_ops a.put b.put;
  meta = merge_ops a.meta b.meta;
}

-- How the join of a worker's task ends.
pub data JoinOutcome : Type 0 where
  completed : WorkerStats → JoinOutcome
  failed panicked timed_out : JoinOutcome

-- The loop that joins the workers: `none` where the workload ends with an error.
pub join_workers : List JoinOutcome → WorkerStats → Option WorkerStats
join_workers [] merged = some merged
join_workers (completed ws ∷ rest) merged = join_workers rest (merge_stats merged ws)
join_workers (failed ∷ rest) merged = none
join_workers (panicked ∷ rest) merged = none
join_workers (timed_out ∷ rest) merged = none

pub record Summary : Type 0 where
  pub total_bytes : ℕ
  pub total_ops : ℕ
  pub stats : WorkerStats
  pub total_errors : ℕ

pub summarise : WorkerStats → ℕ → Summary
summarise ws errors = record {
  total_bytes = (ws.get.bytes + ws.put.bytes + ws.meta.bytes) % u64;
  total_ops = (ws.get.ops + ws.put.ops + ws.meta.ops) % u64;
  stats = ws;
  total_errors = errors;
}

abbrev pub no_summary : Summary
no_summary = record { total_bytes = 0; total_ops = 0; stats = no_stats; total_errors = 0 }

pub merge_summary : Summary → Summary → Summary
merge_summary a b = record {
  total_bytes = (a.total_bytes + b.total_bytes) % u64;
  total_ops = (a.total_ops + b.total_ops) % u64;
  stats = merge_stats a.stats b.stats;
  total_errors = (a.total_errors + b.total_errors) % u64;
}

pub merge_into : Summary → List Summary → Summary
merge_into merged [] = merged
merge_into merged (s ∷ rest) = merge_into (merge_summary merged s) rest

-- `merge_summaries` over processes: `none` is its error.
pub merge_processes : List Summary → Option Summary
merge_processes [] = none
merge_processes (s ∷ rest) = some (merge_into no_summary (s ∷ rest))

-- One round of the loop of `merge_summaries` over runtimes.
pub merge_runtime : Summary → Summary → Summary
merge_runtime a b = record a {
  total_ops = (a.total_ops + b.total_ops) % u64;
  total_bytes = (a.total_bytes + b.total_bytes) % u64;
  stats = record {
    get = merge_ops a.stats.get b.stats.get;
    put = merge_ops a.stats.put b.stats.put;
    meta = record a.stats.meta {
      ops = (a.stats.meta.ops + b.stats.meta.ops) % u64;
      bins = merge_from a.stats.meta.bins b.stats.meta.bins;
    };
  };
}

pub merge_runtimes_into : Summary → List Summary → Summary
merge_runtimes_into merged [] = merged
merge_runtimes_into merged (s ∷ rest) = merge_runtimes_into (merge_runtime merged s) rest

-- `merge_summaries` over runtimes: `none` is its error.
pub merge_runtimes : List Summary → Option Summary
merge_runtimes [] = none
merge_runtimes (s ∷ rest) = some (merge_runtimes_into s rest)

pub record SizeBucketData : Type 0 where
  pub bucket_idx : ℕ
  pub bucket_ops : ℕ
  pub bucket_bytes : ℕ

pub size_bins_to_proto : SizeBins → List SizeBucketData
size_bins_to_proto [] = []
size_bins_to_proto ((b, (ops, bytes)) ∷ bins) =
    record { bucket_idx = b % u32; bucket_ops = ops; bucket_bytes = bytes }
    ∷ size_bins_to_proto bins

abbrev collect_bins : List SizeBucketData → SizeBins → SizeBins
collect_bins [] bins = bins
collect_bins (d ∷ data_left) bins =
    collect_bins data_left (insert d.bucket_idx (d.bucket_ops, d.bucket_bytes) bins)

pub proto_to_size_bins : List SizeBucketData → SizeBins
proto_to_size_bins buckets = collect_bins buckets []

pub merge_all_bins : List SizeBins → SizeBins → SizeBins
merge_all_bins [] merged = merged
merge_all_bins (bins ∷ rest) merged = merge_all_bins rest (merge_from merged bins)

pub merge_size_bins : List SizeBins → SizeBins
merge_size_bins bins_list = merge_all_bins bins_list []
