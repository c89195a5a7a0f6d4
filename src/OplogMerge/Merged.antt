-- ===== src/OplogMerge/Merged.antt =====
-- src/oplog_merge.rs: what `merge_worker_oplogs` promises, and what it does when a worker's file
-- is missing.
use mathlib.Core.List.{Perm}
use sai3_bench.Prelude.{
  ℕ, zero, suc, ◌+◌, ◌≡◌, refl, ap, subst, ◌∙◌, Bool, some, List, [], ◌∷◌, ◌++◌, map, length,
  IsSorted, sum_by, arith,
}
use sai3_bench.OplogMerge.{
  Item, read, WorkerFile, missing, opened, MergeEntry, Stream, MinHeap, numbered, first_entries,
  open_workers, merge_worker_oplogs, merged, item_count,
}
use sai3_bench.OplogMerge.Pending.{stream_at, pending}
use sai3_bench.OplogMerge.Merging.{merge_loop_lem}
use sai3_bench.OplogMerge.Complete.{entries, left_files, LogsSorted, merge_runs}

module _ {E : Type 0} where
  abbrev pub missing_files : ℕ → List (WorkerFile E) → List (WorkerFile E)
  missing_files zero files = files
  missing_files (suc n) files = missing ∷ missing_files n files

  open_workers-missing_files :
      (n id : ℕ) (files : List (WorkerFile E))
      → open_workers id (missing_files n files) ≡ open_workers (n + id) files
  unfolding open_workers
  open_workers-missing_files zero id files = ap (λ k. open_workers k files) (omega arith)
  open_workers-missing_files (suc n) id files =
      open_workers-missing_files n (suc id) files ∙ ap (λ k. open_workers k files) (omega arith)

  item_count_missing :
      (n : ℕ) (files : List (WorkerFile E))
      → sum_by item_count (missing_files n files) ≡ sum_by item_count files
  unfolding sum_by
  item_count_missing zero files = refl
  item_count_missing (suc n) files = omega (arith, item_count_missing n files)

module _ {E : Type 0} {start : E → ℕ} (heap_of : MinHeap start) where
  -- When every worker's file is there and opens, the merge ends, its rows are numbered from 0 and
  -- hold the entries of all files, each file's up to its first unreadable line and each once; the
  -- workers' files are left as they were or are all removed, as asked.
  pub merge_worker_oplogs-Perm :
      (keep : Bool) (log : List (Item E)) (logs : List (List (Item E)))
      → let files = map opened (log ∷ logs) in
        (es : List E) × (merge_worker_oplogs heap_of keep files
          ≡ some (merged (numbered 0 es) (left_files keep files)))
        × Perm es (entries (log ∷ logs))
  merge_worker_oplogs-Perm keep log logs =
      let (es, run, perm, ordered) = merge_runs heap_of keep log logs in (es, run, perm)

  -- When every worker's file is there, opens and is in the order of start times, the merge writes the
  -- entries before the first unreadable line of each file, each exactly once, in the order of start
  -- times.
  pub merge_worker_oplogs-IsSorted :
      (keep : Bool) (log : List (Item E)) (logs : List (List (Item E)))
      → LogsSorted start (log ∷ logs)
      → let files = map opened (log ∷ logs) in
        (es : List E) × (merge_worker_oplogs heap_of keep files
          ≡ some (merged (numbered 0 es) (left_files keep files)))
        × Perm es (entries (log ∷ logs))
        × IsSorted start es
  merge_worker_oplogs-IsSorted keep log logs h =
      let (es, run, perm, ordered) = merge_runs heap_of keep log logs in (es, run, perm, ordered h)

  -- When the first worker's file is missing and only one later worker's file is there, the merge
  -- writes the first entry of that file and no other, and still removes the file when it was not
  -- asked to keep it.
  pub merge_worker_oplogs_missing :
      (keep : Bool) (n : ℕ) (e : E) (items : List (Item E))
      → let files = missing_files (suc n) (opened (read e ∷ items) ∷ []) in
        (es : List E) × (merge_worker_oplogs heap_of keep files
          ≡ some (merged (numbered 0 es) (left_files keep files)))
        × Perm es (e ∷ [])
  unfolding merge_worker_oplogs open_workers first_entries sum_by
  merge_worker_oplogs_missing keep n e items =
      let last = opened (read e ∷ items) ∷ [] in
      let files = missing_files (suc n) last in
      let id = suc n + 0 in
      let opens : open_workers 0 files ≡ open_workers id last =
        open_workers-missing_files (suc n) 0 last in
      let heap : List (MergeEntry E) = record { entry = e; worker_id = id } ∷ [] in
      let streams : List (Stream E) = (id, items) ∷ [] in
      let beyond : id ≡ suc n = omega arith in
      let rest : pending heap streams ≡ e ∷ [] = ap (λ k. e ∷ (stream_at k streams ++ [])) beyond in
      let (es, run, perm, ordered) =
        merge_loop_lem heap_of (suc (sum_by item_count files)) heap streams 0
          (omega (arith, ap length rest, item_count_missing (suc n) last)) (λ w. ground arith) in
      (es, rw (opens, run, merge_worker_oplogs) refl, subst (Perm es) rest perm)
