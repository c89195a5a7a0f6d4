-- ===== src/Metrics/Tests.antt =====
-- Sizes, workers and processes at which the theorems of Metrics are used.
use sai3_bench.Prelude.{ℕ, ◌%◌, ◌≡◌, refl, some, List, [], ◌∷◌, map, u64, sum_by}
use sai3_bench.Prelude.Keys.{nat_key}
use sai3_bench.Metrics.{
  bucket_index, SizeBins, Operation, did_get, did_put, did_meta, WorkerStats, no_stats,
  count_operations, join_workers, Summary, summarise, merge_processes, merge_runtimes,
}
use sai3_bench.Metrics.Counting.{CountsAll}
use sai3_bench.Metrics.Totals.{
  done, join_workers-CountsAll, Accounts, Run, summary_of, summarise-Accounts,
  merge_processes-Accounts, done-CountsAll,
}
use sai3_bench.Metrics.Runtimes.{merge_runtimes-Accounts}

bucket_index_test :
    map bucket_index (0 ∷ 8192 ∷ 8193 ∷ 4194304 ∷ 3000000000 ∷ []) ≡ 0 ∷ 1 ∷ 2 ∷ 4 ∷ 8 ∷ []
unfolding bucket_index
bucket_index_test = refl

abbrev first : List Operation
first = did_get 4096 ∷ did_put 100000 ∷ did_meta ∷ []

abbrev second : List Operation
second = did_get 0 ∷ did_get 9000 ∷ []

abbrev bins : SizeBins
bins = (1, (2, 5000)) ∷ (4, (1, 1000000)) ∷ []

abbrev run_of : List Operation → ℕ → Run
run_of ops errors = (ops, summarise (count_operations ops no_stats) errors)

run_of-Accounts : (ops : List Operation) (errors : ℕ) → Accounts ops (run_of ops errors).1
run_of-Accounts ops errors =
    summarise-Accounts ops (count_operations ops no_stats) errors (done-CountsAll ops)

join_workers-CountsAll_example :
    (ws : WorkerStats) × (join_workers (done first ∷ done second ∷ []) no_stats ≡ some ws)
    × CountsAll (did_get 4096 ∷ did_put 100000 ∷ did_meta ∷ did_get 0 ∷ did_get 9000 ∷ []) ws
join_workers-CountsAll_example = join_workers-CountsAll (first ∷ second ∷ [])

merge_processes-Accounts_example :
    (s : Summary) × (merge_processes (map summary_of (run_of first 2 ∷ run_of second 3 ∷ []))
      ≡ some s)
    × Accounts (did_get 4096 ∷ did_put 100000 ∷ did_meta ∷ did_get 0 ∷ did_get 9000 ∷ []) s
    × (s.total_errors % u64 ≡ 5)
unfolding sum_by summarise
merge_processes-Accounts_example =
    merge_processes-Accounts (run_of first 2) (run_of second 3 ∷ [])
      (run_of-Accounts first 2, (run_of-Accounts second 3, tt))

merge_runtimes-Accounts_example :
    (s : Summary) × (merge_runtimes (map summary_of (run_of first 2 ∷ run_of second 3 ∷ []))
      ≡ some s)
    × Accounts (did_get 4096 ∷ did_put 100000 ∷ did_meta ∷ did_get 0 ∷ did_get 9000 ∷ []) s
    × (s.total_errors ≡ 2)
unfolding summarise
merge_runtimes-Accounts_example =
    merge_runtimes-Accounts (run_of first 2) (run_of second 3 ∷ [])
      (run_of-Accounts first 2, (run_of-Accounts second 3, tt))
