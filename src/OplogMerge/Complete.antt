-- ===== src/OplogMerge/Complete.antt =====
-- src/oplog_merge.rs: `merge_worker_oplogs` as a whole, from the workers' files to the rows.
use mathlib.Core.List.{Perm}
use sai3_bench.Prelude.{
  ℕ, suc, ◌-◌, ◌≤◌, ◌<◌, ◌≡◌, refl, sym, ap, subst, ◌∙◌, Bool, some, List, [], ◌∷◌, ◌++◌, map,
  length, length-append, All, IsSorted, sum_by, if◌then◌else◌, arith, inr,
}
use sai3_bench.OplogMerge.{
  Item, read, unreadable, WorkerFile, opened, MergeEntry, Stream, MinHeap, numbered, first_entries,
  open_workers, merge_worker_oplogs, merged, item_count, removed,
}
use sai3_bench.OplogMerge.Pending.{readable, stream_at, pending, pending_with, entries_of}
use sai3_bench.OplogMerge.Merging.{Distinct, StreamsSorted, merge_loop_lem}

module _ {E : Type 0} where
  abbrev enumerate : ℕ → List (List (Item E)) → List (Stream E)
  enumerate id [] = []
  enumerate id (log ∷ logs) = (id, log) ∷ enumerate (suc id) logs

  -- The entries of all logs, each up to its first line that cannot be read.
  abbrev pub entries : List (List (Item E)) → List E
  entries [] = []
  entries (log ∷ logs) = readable log ++ entries logs

  open_workers-opened :
      (id : ℕ) (logs : List (List (Item E)))
      → open_workers id (map opened logs) ≡ inr (enumerate id logs)
  unfolding open_workers
  open_workers-opened id [] = refl
  open_workers-opened id (log ∷ logs) = rw (open_workers-opened (suc id) logs, open_workers) refl

  abbrev heap_from : ℕ → List (List (Item E)) → List (MergeEntry E)
  heap_from id logs = (first_entries (enumerate id logs)).0

  abbrev streams_from : ℕ → List (List (Item E)) → List (Stream E)
  streams_from id logs = (first_entries (enumerate id logs)).1

  -- What a worker's stream yields where the first stream is that of worker `id`.
  abbrev stream_from : ℕ → List (Stream E) → ℕ → List E
  stream_from id streams w = stream_at (w - id) streams

  workers_from :
      (n id : ℕ) (logs : List (List (Item E)))
      → n ≤ id
      → All (λ m. n ≤ m.worker_id) (heap_from id logs)
  unfolding first_entries
  workers_from n id [] h = tt
  workers_from n id ([] ∷ logs) h = workers_from n (suc id) logs (omega arith)
  workers_from n id ((unreadable ∷ items) ∷ logs) h = workers_from n (suc id) logs (omega arith)
  workers_from n id ((read e ∷ items) ∷ logs) h = (h, workers_from n (suc id) logs (omega arith))

  stream_from_later :
      (id w : ℕ) (s : Stream E) (streams : List (Stream E))
      → suc id ≤ w
      → stream_from id (s ∷ streams) w ≡ stream_from (suc id) streams w
  stream_from_later id w s streams h =
      let later : w - id ≡ suc (w - suc id) = omega arith in
      ap (λ n. stream_at n (s ∷ streams)) later

  pending_later :
      (id : ℕ) (s : Stream E) (streams : List (Stream E)) (ms : List (MergeEntry E))
      → All (λ m. suc id ≤ m.worker_id) ms
      → pending_with (stream_from id (s ∷ streams)) ms
        ≡ pending_with (stream_from (suc id) streams) ms
  pending_later id s streams [] h = refl
  pending_later id s streams (m ∷ ms) h =
      ap (λ es. m.entry ∷ (es ++ pending_with (stream_from id (s ∷ streams)) ms))
        (stream_from_later id m.worker_id s streams h.0)
      ∙ ap (λ es. m.entry ∷ (stream_from (suc id) streams m.worker_id ++ es))
          (pending_later id s streams ms h.1)

  first_of_own :
      (id : ℕ) (s : Stream E) (streams : List (Stream E))
      → stream_from id (s ∷ streams) id ≡ readable s.1
  first_of_own id s streams =
      let own : id - id ≡ 0 = omega arith in ap (λ n. stream_at n (s ∷ streams)) own

  pending_first :
      (id : ℕ) (logs : List (List (Item E)))
      → pending_with (stream_from id (streams_from id logs)) (heap_from id logs) ≡ entries logs
  unfolding first_entries
  pending_first id [] = refl
  pending_first id ([] ∷ logs) =
      pending_later id (id, []) (streams_from (suc id) logs) (heap_from (suc id) logs)
        (workers_from (suc id) (suc id) logs (omega arith))
      ∙ pending_first (suc id) logs
  pending_first id ((unreadable ∷ items) ∷ logs) =
      pending_later id (id, items) (streams_from (suc id) logs) (heap_from (suc id) logs)
        (workers_from (suc id) (suc id) logs (omega arith))
      ∙ pending_first (suc id) logs
  pending_first id ((read e ∷ items) ∷ logs) =
      let heap = heap_from (suc id) logs in
      let streams = streams_from (suc id) logs in
      ap (λ es. e ∷ (es ++ pending_with (stream_from id ((id, items) ∷ streams)) heap))
        (first_of_own id (id, items) streams)
      ∙ ap (λ es. e ∷ (readable items ++ es))
          (pending_later id (id, items) streams heap
              (workers_from (suc id) (suc id) logs (omega arith))
            ∙ pending_first (suc id) logs)

  none_before :
      (w id : ℕ) (logs : List (List (Item E))) → w < id → entries_of w (heap_from id logs) ≡ 0
  unfolding first_entries sum_by
  none_before w id [] h = refl
  none_before w id ([] ∷ logs) h = none_before w (suc id) logs (omega arith)
  none_before w id ((unreadable ∷ items) ∷ logs) h = none_before w (suc id) logs (omega arith)
  none_before w id ((read e ∷ items) ∷ logs) h = ground (arith, none_before w (suc id) logs)

  first_entries-Distinct : (id : ℕ) (logs : List (List (Item E))) → Distinct (heap_from id logs)
  unfolding first_entries sum_by
  first_entries-Distinct id [] w = omega arith
  first_entries-Distinct id ([] ∷ logs) w = first_entries-Distinct (suc id) logs w
  first_entries-Distinct id ((unreadable ∷ items) ∷ logs) w = first_entries-Distinct (suc id) logs w
  first_entries-Distinct id ((read e ∷ items) ∷ logs) w =
      ground (arith, first_entries-Distinct (suc id) logs w, none_before id (suc id) logs)

  length-readable : (log : List (Item E)) → length (readable log) ≤ length log
  length-readable [] = omega arith
  length-readable (read e ∷ items) = omega (arith, length-readable items)
  length-readable (unreadable ∷ items) = omega arith

  enough_fuel :
      (logs : List (List (Item E))) → length (entries logs) ≤ sum_by item_count (map opened logs)
  unfolding sum_by
  enough_fuel [] = omega arith
  enough_fuel (log ∷ logs) =
      omega
        (arith, length-append (readable log) (entries logs), length-readable log, enough_fuel logs)

  -- The workers' files after a merge.
  abbrev pub left_files : Bool → List (WorkerFile E) → List (WorkerFile E)
  left_files keep files = if keep then files else map removed files

module _ {E : Type 0} (start : E → ℕ) where
  abbrev pub LogsSorted : List (List (Item E)) → Type 0
  LogsSorted = All (λ log. IsSorted start (readable log))

  sorted_later :
      (id : ℕ) (s : Stream E) (streams : List (Stream E)) (ms : List (MergeEntry E))
      → All (λ m. suc id ≤ m.worker_id) ms
      → StreamsSorted start (stream_from (suc id) streams) ms
      → StreamsSorted start (stream_from id (s ∷ streams)) ms
  sorted_later id s streams [] h t = tt
  sorted_later id s streams (m ∷ ms) h t = (
    subst (λ es. IsSorted start (m.entry ∷ es))
        (sym (stream_from_later id m.worker_id s streams h.0)) t.0,
    sorted_later id s streams ms h.1 t.1,
  )

  first_entries_sorted :
      (id : ℕ) (logs : List (List (Item E)))
      → LogsSorted logs
      → StreamsSorted start (stream_from id (streams_from id logs)) (heap_from id logs)
  unfolding first_entries
  first_entries_sorted id [] h = tt
  first_entries_sorted id ([] ∷ logs) h =
      sorted_later id (id, []) (streams_from (suc id) logs) (heap_from (suc id) logs)
        (workers_from (suc id) (suc id) logs (omega arith)) (first_entries_sorted (suc id) logs h.1)
  first_entries_sorted id ((unreadable ∷ items) ∷ logs) h =
      sorted_later id (id, items) (streams_from (suc id) logs) (heap_from (suc id) logs)
        (workers_from (suc id) (suc id) logs (omega arith)) (first_entries_sorted (suc id) logs h.1)
  first_entries_sorted id ((read e ∷ items) ∷ logs) h =
      let streams = streams_from (suc id) logs in
      (
        subst (λ es. IsSorted start (e ∷ es)) (sym (first_of_own id (id, items) streams)) h.0,
        sorted_later id (id, items) streams (heap_from (suc id) logs)
            (workers_from (suc id) (suc id) logs (omega arith))
            (first_entries_sorted (suc id) logs h.1),
      )

module _ {E : Type 0} {start : E → ℕ} (heap_of : MinHeap start) where
  sub_zero : (streams : List (Stream E)) → (λ w. stream_at w streams) ≡ stream_from 0 streams
  sub_zero streams i w = let same : w ≡ w - 0 = omega arith in stream_at (same i) streams

  pub merge_runs :
      (keep : Bool) (log : List (Item E)) (logs : List (List (Item E)))
      → let files = map opened (log ∷ logs) in
        (es : List E) × (merge_worker_oplogs heap_of keep files
          ≡ some (merged (numbered 0 es) (left_files keep files)))
        × Perm es (entries (log ∷ logs))
        × (LogsSorted start (log ∷ logs) → IsSorted start es)
  unfolding merge_worker_oplogs
  merge_runs keep log logs =
      let all = log ∷ logs in
      let files = map opened all in
      let heap = heap_from 0 all in
      let streams = streams_from 0 all in
      let at = sub_zero streams in
      let whole : pending heap streams ≡ entries all =
        ap (λ f. pending_with f heap) at ∙ pending_first 0 all in
      let (es, run, perm, ordered) =
        merge_loop_lem heap_of (suc (sum_by item_count files)) heap streams 0
          (omega (arith, ap length whole, enough_fuel all)) (first_entries-Distinct 0 all) in
      (
        es,
        rw (open_workers-opened 0 all, run, merge_worker_oplogs) refl,
        subst (Perm es) whole perm,
        λ h.
            ordered (
              subst (λ f. StreamsSorted start f heap) (sym at)
                (first_entries_sorted start 0 all h)),
      )
