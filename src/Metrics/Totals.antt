-- ===== src/Metrics/Totals.antt =====
-- src/workload.rs and src/multiprocess.rs: no operation is lost or counted twice between the
-- workers' statistics and the merged summary.
use mathlib.Core.List.{append-nil, append_assoc}
use sai3_bench.Prelude.{
  ℕ, ◌+◌, ◌%◌, ◌≡◌, refl, sym, ap, subst, some, List, [], ◌∷◌, ◌++◌, map, length, All, u64, sum_by,
  sum_by-append, length-append, arith,
}
use sai3_bench.Metrics.{
  WorkerStats, no_stats, Operation, did_get, did_put, did_meta, count_operations, merge_ops,
  merge_stats, JoinOutcome, completed, join_workers, Summary, summarise, no_summary, merge_summary,
  merge_into, merge_processes,
}
use sai3_bench.Metrics.Counting.{
  Counts, CountsAll, gets, puts, metas, size_of, merge_ops-Counts, count_operations-Counts,
  no_stats-CountsAll,
}

pub gets-append : (xs ys : List Operation) → gets (xs ++ ys) ≡ gets xs ++ gets ys
gets-append [] ys = refl
gets-append (did_get n ∷ xs) ys = ap (λ ns. n ∷ ns) (gets-append xs ys)
gets-append (did_put n ∷ xs) ys = gets-append xs ys
gets-append (did_meta ∷ xs) ys = gets-append xs ys

pub puts-append : (xs ys : List Operation) → puts (xs ++ ys) ≡ puts xs ++ puts ys
puts-append [] ys = refl
puts-append (did_get n ∷ xs) ys = puts-append xs ys
puts-append (did_put n ∷ xs) ys = ap (λ ns. n ∷ ns) (puts-append xs ys)
puts-append (did_meta ∷ xs) ys = puts-append xs ys

pub metas-append : (xs ys : List Operation) → metas (xs ++ ys) ≡ metas xs ++ metas ys
metas-append [] ys = refl
metas-append (did_get n ∷ xs) ys = metas-append xs ys
metas-append (did_put n ∷ xs) ys = metas-append xs ys
metas-append (did_meta ∷ xs) ys = ap (λ ns. 0 ∷ ns) (metas-append xs ys)

pub no_meta_bytes : (ops : List Operation) → sum_by size_of (metas ops) ≡ 0
unfolding sum_by
no_meta_bytes [] = refl
no_meta_bytes (did_get n ∷ ops) = no_meta_bytes ops
no_meta_bytes (did_put n ∷ ops) = no_meta_bytes ops
no_meta_bytes (did_meta ∷ ops) = omega (arith, no_meta_bytes ops)

kinds :
    (ops : List Operation) → length (gets ops) + length (puts ops) + length (metas ops) ≡ length ops
kinds [] = refl
kinds (did_get n ∷ ops) = omega (arith, kinds ops)
kinds (did_put n ∷ ops) = omega (arith, kinds ops)
kinds (did_meta ∷ ops) = omega (arith, kinds ops)

merge_stats-CountsAll :
    (xs ys : List Operation) (s t : WorkerStats)
    → CountsAll xs s
    → CountsAll ys t
    → CountsAll (xs ++ ys) (merge_stats s t)
unfolding merge_stats
merge_stats-CountsAll xs ys s t c d = record {
  counts_gets =
      subst (λ ns. Counts ns (merge_ops s.get t.get)) (sym (gets-append xs ys))
        (merge_ops-Counts (gets xs) (gets ys) s.get t.get c.counts_gets d.counts_gets);
  counts_puts =
      subst (λ ns. Counts ns (merge_ops s.put t.put)) (sym (puts-append xs ys))
        (merge_ops-Counts (puts xs) (puts ys) s.put t.put c.counts_puts d.counts_puts);
  counts_metas =
      subst (λ ns. Counts ns (merge_ops s.meta t.meta)) (sym (metas-append xs ys))
        (merge_ops-Counts (metas xs) (metas ys) s.meta t.meta c.counts_metas d.counts_metas);
}

-- A worker that performed the operations, from its start, and was joined.
abbrev pub done : List Operation → JoinOutcome
done ops = completed (count_operations ops no_stats)

pub done-CountsAll : (ops : List Operation) → CountsAll ops (count_operations ops no_stats)
done-CountsAll ops =
    let none_yet = no_stats-CountsAll in
    let (g, p, m) =
      count_operations-Counts ops [] [] [] no_stats none_yet.counts_gets none_yet.counts_puts
        none_yet.counts_metas in
    let after = count_operations ops no_stats in
    record {
      counts_gets = subst (λ ns. Counts ns after.get) (append-nil (gets ops)) g;
      counts_puts = subst (λ ns. Counts ns after.put) (append-nil (puts ops)) p;
      counts_metas = subst (λ ns. Counts ns after.meta) (append-nil (metas ops)) m;
    }

abbrev pub all_of : List (List Operation) → List Operation
all_of [] = []
all_of (ops ∷ workers) = ops ++ all_of workers

join_lem :
    (before : List Operation) (workers : List (List Operation)) (merged : WorkerStats)
    → CountsAll before merged
    → (ws : WorkerStats) × (join_workers (map done workers) merged ≡ some ws)
      × CountsAll (before ++ all_of workers) ws
unfolding join_workers
join_lem before [] merged c =
    (merged, refl, subst (λ ops. CountsAll ops merged) (sym (append-nil before)) c)
join_lem before (ops ∷ workers) merged c =
    let ws' = merge_stats merged (count_operations ops no_stats) in
    let (ws, run, d) = join_lem (before ++ ops) workers ws' (
      merge_stats-CountsAll before ops merged (count_operations ops no_stats) c
        (done-CountsAll ops)) in
    (ws, run, subst (λ os. CountsAll os ws) (append_assoc before ops (all_of workers)) d)

-- When every worker is joined, the statistics of the workload count the operations of all workers,
-- each once: their number, their bytes, and the numbers and bytes in every size bin, of every kind
-- of operation, modulo 2^64.
pub join_workers-CountsAll :
    (workers : List (List Operation))
    → (ws : WorkerStats) × (join_workers (map done workers) no_stats ≡ some ws)
      × CountsAll (all_of workers) ws
join_workers-CountsAll workers = join_lem [] workers no_stats no_stats-CountsAll

-- The summary is that of the operations.
pub record Accounts (ops : List Operation) (s : Summary) : Type 0 where
  pub stats_CountsAll : CountsAll ops s.stats
  pub sum_ops : s.total_ops ≡ length ops % u64
  pub sum_bytes : s.total_bytes ≡ (sum_by size_of (gets ops) + sum_by size_of (puts ops)) % u64

pub summarise-Accounts :
    (ops : List Operation) (ws : WorkerStats) (errors : ℕ)
    → CountsAll ops ws
    → Accounts ops (summarise ws errors)
unfolding summarise
summarise-Accounts ops ws errors c = record {
  stats_CountsAll = c;
  sum_ops =
      omega
        (arith, kinds ops, c.counts_gets.all_ops, c.counts_puts.all_ops, c.counts_metas.all_ops);
  sum_bytes = omega (
    arith,
    no_meta_bytes ops,
    c.counts_gets.all_bytes,
    c.counts_puts.all_bytes,
    c.counts_metas.all_bytes,
  );
}

-- The sums of two lists of operations.
pub bytes-append :
    (xs ys : List Operation)
    → sum_by size_of (gets (xs ++ ys)) + sum_by size_of (puts (xs ++ ys))
      ≡ sum_by size_of (gets xs)
        + sum_by size_of (puts xs)
        + (sum_by size_of (gets ys) + sum_by size_of (puts ys))
bytes-append xs ys = omega (
  arith,
  ap (sum_by size_of) (gets-append xs ys),
  ap (sum_by size_of) (puts-append xs ys),
  sum_by-append size_of (gets xs) (gets ys),
  sum_by-append size_of (puts xs) (puts ys),
)

merge_summary-Accounts :
    (xs ys : List Operation) (s t : Summary)
    → Accounts xs s
    → Accounts ys t
    → Accounts (xs ++ ys) (merge_summary s t)
unfolding merge_summary
merge_summary-Accounts xs ys s t c d = record {
  stats_CountsAll = merge_stats-CountsAll xs ys s.stats t.stats c.stats_CountsAll d.stats_CountsAll;
  sum_ops = omega (arith, length-append xs ys, c.sum_ops, d.sum_ops);
  sum_bytes = omega (arith, bytes-append xs ys, c.sum_bytes, d.sum_bytes);
}

-- A process, by its operations and its summary.
abbrev pub Run : Type 0
Run = List Operation × Summary

abbrev pub run_ops : List Run → List Operation
run_ops [] = []
run_ops (r ∷ runs) = r.0 ++ run_ops runs

abbrev pub AllAccount : List Run → Type 0
AllAccount = All (λ r. Accounts r.0 r.1)

abbrev pub summary_of : Run → Summary
summary_of r = r.1

abbrev pub errors_of : Run → ℕ
errors_of r = r.1.total_errors

merge_into_lem :
    (before : List Operation) (runs : List Run) (s : Summary)
    → Accounts before s
    → AllAccount runs
    → Accounts (before ++ run_ops runs) (merge_into s (map summary_of runs))
unfolding merge_into
merge_into_lem before [] s c h = subst (λ ops. Accounts ops s) (sym (append-nil before)) c
merge_into_lem before (r ∷ runs) s c h =
    subst (λ ops. Accounts ops (merge_into (merge_summary s r.1) (map summary_of runs)))
      (append_assoc before r.0 (run_ops runs))
      (merge_into_lem (before ++ r.0) runs (merge_summary s r.1)
        (merge_summary-Accounts before r.0 s r.1 c h.0) h.1)

merge_into_errors :
    (runs : List Run) (s : Summary)
    → (merge_into s (map summary_of runs)).total_errors % u64
      ≡ (s.total_errors + sum_by errors_of runs) % u64
unfolding merge_into merge_summary sum_by
merge_into_errors [] s = omega arith
merge_into_errors (r ∷ runs) s = omega (arith, merge_into_errors runs (merge_summary s r.1))

-- When the summary of every process is that of its operations, the merged summary is that of the
-- operations of all processes, each counted once, and its errors are the sum of theirs modulo 2^64.
pub merge_processes-Accounts :
    (run : Run) (runs : List Run)
    → AllAccount (run ∷ runs)
    → (s : Summary) × (merge_processes (map summary_of (run ∷ runs)) ≡ some s)
      × Accounts (run_ops (run ∷ runs)) s
      × (s.total_errors % u64 ≡ sum_by errors_of (run ∷ runs) % u64)
unfolding merge_processes summarise
merge_processes-Accounts run runs h =
    let whole =
      merge_into_lem [] (run ∷ runs) no_summary
        (summarise-Accounts [] no_stats 0 no_stats-CountsAll) h in
    (
      merge_into no_summary (map summary_of (run ∷ runs)),
      refl,
      whole,
      omega (arith, merge_into_errors (run ∷ runs) no_summary),
    )
