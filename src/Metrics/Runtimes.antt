-- ===== src/Metrics/Runtimes.antt =====
-- src/multiruntime.rs: the summaries of several runtimes merged onto the first.
use mathlib.Core.List.{append-nil, append_assoc}
use sai3_bench.Prelude.{
  ◌+◌, ◌%◌, ◌≡◌, refl, sym, subst, some, List, [], ◌∷◌, ◌++◌, map, u64, length-append, arith,
}
use sai3_bench.Metrics.{
  OpStats, Operation, merge_ops, Summary, merge_runtime, merge_runtimes_into, merge_runtimes,
  merge_from,
}
use sai3_bench.Metrics.Counting.{Counts, gets, puts, metas, merge_ops-Counts}
use sai3_bench.Metrics.Totals.{
  Accounts, Run, run_ops, AllAccount, summary_of, gets-append, puts-append, metas-append,
  no_meta_bytes, bytes-append,
}

merge_metas-Counts :
    (xs ys : List Operation) (s t : OpStats)
    → Counts (metas xs) s
    → Counts (metas ys) t
    → Counts
        (metas (xs ++ ys))
        (record s { ops = (s.ops + t.ops) % u64; bins = merge_from s.bins t.bins })
unfolding merge_ops
merge_metas-Counts xs ys s t c d =
    let both =
      subst (λ ns. Counts ns (merge_ops s t)) (sym (metas-append xs ys))
        (merge_ops-Counts (metas xs) (metas ys) s t c d) in
    record {
      all_ops = both.all_ops;
      all_bytes = omega (arith, no_meta_bytes xs, no_meta_bytes (xs ++ ys), c.all_bytes);
      in_bins = both.in_bins;
      bins_IsNodup = both.bins_IsNodup;
    }

merge_runtime-Accounts :
    (xs ys : List Operation) (s t : Summary)
    → Accounts xs s
    → Accounts ys t
    → Accounts (xs ++ ys) (merge_runtime s t)
unfolding merge_runtime
merge_runtime-Accounts xs ys s t c d =
    let a = c.stats_CountsAll in
    let b = d.stats_CountsAll in
    record {
      stats_CountsAll = record {
        counts_gets =
            subst (λ ns. Counts ns (merge_ops s.stats.get t.stats.get)) (sym (gets-append xs ys))
              (merge_ops-Counts (gets xs) (gets ys) s.stats.get t.stats.get a.counts_gets
                b.counts_gets);
        counts_puts =
            subst (λ ns. Counts ns (merge_ops s.stats.put t.stats.put)) (sym (puts-append xs ys))
              (merge_ops-Counts (puts xs) (puts ys) s.stats.put t.stats.put a.counts_puts
                b.counts_puts);
        counts_metas =
            merge_metas-Counts xs ys s.stats.meta t.stats.meta a.counts_metas b.counts_metas;
      };
      sum_ops = omega (arith, length-append xs ys, c.sum_ops, d.sum_ops);
      sum_bytes = omega (arith, bytes-append xs ys, c.sum_bytes, d.sum_bytes);
    }

merge_runtimes_into_lem :
    (before : List Operation) (runs : List Run) (s : Summary)
    → Accounts before s
    → AllAccount runs
    → Accounts (before ++ run_ops runs) (merge_runtimes_into s (map summary_of runs))
unfolding merge_runtimes_into
merge_runtimes_into_lem before [] s c h = subst (λ ops. Accounts ops s) (sym (append-nil before)) c
merge_runtimes_into_lem before (r ∷ runs) s c h =
    subst (λ ops. Accounts ops (merge_runtimes_into (merge_runtime s r.1) (map summary_of runs)))
      (append_assoc before r.0 (run_ops runs))
      (merge_runtimes_into_lem (before ++ r.0) runs (merge_runtime s r.1)
        (merge_runtime-Accounts before r.0 s r.1 c h.0) h.1)

kept_errors :
    (runs : List Run) (s : Summary)
    → (merge_runtimes_into s (map summary_of runs)).total_errors ≡ s.total_errors
unfolding merge_runtimes_into merge_runtime
kept_errors [] s = refl
kept_errors (r ∷ runs) s = kept_errors runs (merge_runtime s r.1)

-- When the summary of every runtime is that of its operations, the merged summary is that of the
-- operations of all runtimes, each counted once, but its errors are those of the first runtime.
pub merge_runtimes-Accounts :
    (run : Run) (runs : List Run)
    → AllAccount (run ∷ runs)
    → (s : Summary) × (merge_runtimes (map summary_of (run ∷ runs)) ≡ some s)
      × Accounts (run_ops (run ∷ runs)) s
      × (s.total_errors ≡ run.1.total_errors)
unfolding merge_runtimes
merge_runtimes-Accounts run runs h = (
  merge_runtimes_into run.1 (map summary_of runs),
  refl,
  merge_runtimes_into_lem run.0 runs run.1 h.0 h.1,
  kept_errors runs run.1,
)
