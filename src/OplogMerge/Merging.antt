-- ===== src/OplogMerge/Merging.antt =====
-- src/oplog_merge.rs: what the k-way merge writes.
use mathlib.Core.List.{Perm}
use mathlib.Core.List.Perm
use sai3_bench.Prelude.{
  ℕ, zero, suc, ◌+◌, ◌≤◌, ◌<◌, ◌≡◌, ◌≢◌, refl, sym, ap, subst, ◌∙◌, Option, none, some, List, [],
  ◌∷◌, ◌++◌, length, length-Perm, All, All-append, All_middle, Perm_shift, AllFrom, AllFrom_weaken,
  AllFrom-Perm, IsSorted, sum_by, sum_by-append, arith,
}
use sai3_bench.OplogMerge.{
  MergeEntry, Stream, read_next, push, AllAfter, MinHeap, merge_loop, numbered,
}
use sai3_bench.OplogMerge.Pending.{
  stream_at, pending, pending_with, refill, entries_of, is_worker, stream_at-read_next,
  stream_at-read_next_other, pending-append, pending-read_next,
}

module _ {E : Type 0} where
  pending-push :
      (o : Option E) (w : ℕ) (ms : List (MergeEntry E)) (streams : List (Stream E))
      → pending (push o w ms) streams ≡ refill o (stream_at w streams) ++ pending ms streams
  pending-push none w ms streams = refl
  pending-push (some e) w ms streams = refl

  -- One step of the loop moves one entry from what is pending to the output.
  after_step :
      (w : ℕ) (ms : List (MergeEntry E)) (streams : List (Stream E))
      → entries_of w ms ≡ 0
      → pending (push (read_next w streams).0 w ms) (read_next w streams).1
        ≡ stream_at w streams ++ pending ms streams
  after_step w ms streams h =
      pending-push (read_next w streams).0 w ms (read_next w streams).1
      ∙ ap (λ es. es ++ pending ms (read_next w streams).1) (sym (stream_at-read_next w streams))
      ∙ ap (λ es. stream_at w streams ++ es) (pending-read_next w ms streams h)

  step-Perm :
      (xs : List (MergeEntry E)) (m : MergeEntry E) (ys : List (MergeEntry E))
      (streams : List (Stream E))
      → entries_of m.worker_id (xs ++ ys) ≡ 0
      → Perm
          (m.entry
            ∷ pending
                (push (read_next m.worker_id streams).0 m.worker_id (xs ++ ys))
                (read_next m.worker_id streams).1)
          (pending (xs ++ m ∷ ys) streams)
  step-Perm xs m ys streams h =
      let at : ℕ → List E = λ w. stream_at w streams in
      rw
        (
          after_step m.worker_id (xs ++ ys) streams h,
          pending-append at xs ys,
          pending-append at xs (m ∷ ys),
        )
        (Perm_shift (m.entry ∷ stream_at m.worker_id streams) (pending xs streams)
          (pending ys streams))

  abbrev pub Distinct : List (MergeEntry E) → Type 0
  Distinct ms = (w : ℕ) → entries_of w ms ≤ 1

  entries_of_middle :
      (w : ℕ) (xs : List (MergeEntry E)) (m : MergeEntry E) (ys : List (MergeEntry E))
      → entries_of w (xs ++ m ∷ ys) ≡ is_worker w m + entries_of w (xs ++ ys)
  unfolding sum_by
  entries_of_middle w xs m ys =
      omega (arith, sum_by-append (is_worker w) xs (m ∷ ys), sum_by-append (is_worker w) xs ys)

  others_of :
      (xs : List (MergeEntry E)) (m : MergeEntry E) (ys : List (MergeEntry E))
      → Distinct (xs ++ m ∷ ys)
      → entries_of m.worker_id (xs ++ ys) ≡ 0
  others_of xs m ys h = ground (arith, entries_of_middle m.worker_id xs m ys, h m.worker_id)

  push-Distinct :
      (o : Option E) (xs : List (MergeEntry E)) (m : MergeEntry E) (ys : List (MergeEntry E))
      → Distinct (xs ++ m ∷ ys)
      → Distinct (push o m.worker_id (xs ++ ys))
  unfolding sum_by
  push-Distinct none xs m ys h w = omega (arith, entries_of_middle w xs m ys, h w)
  push-Distinct (some e) xs m ys h w = ground (arith, entries_of_middle w xs m ys, h w)

module _ {E : Type 0} (start : E → ℕ) where
  -- Every entry of the heap is followed by an ascending rest.
  abbrev pub StreamsSorted : (ℕ → List E) → List (MergeEntry E) → Type 0
  StreamsSorted at = All (λ m. IsSorted start (m.entry ∷ at m.worker_id))

  StreamsSorted-read_next :
      (w : ℕ) (ms : List (MergeEntry E)) (streams : List (Stream E))
      → entries_of w ms ≡ 0
      → StreamsSorted (λ v. stream_at v streams) ms
      → StreamsSorted (λ v. stream_at v (read_next w streams).1) ms
  unfolding sum_by
  StreamsSorted-read_next w [] streams h s = tt
  StreamsSorted-read_next w (m ∷ ms) streams h s =
      let other : w ≢ m.worker_id = ground arith in
      (
        subst (λ es. IsSorted start (m.entry ∷ es))
            (sym (stream_at-read_next_other w m.worker_id streams other)) s.0,
        StreamsSorted-read_next w ms streams (ground arith) s.1,
      )

  StreamsSorted-push :
      (o : Option E) (w : ℕ) (ms : List (MergeEntry E)) (streams : List (Stream E))
      → IsSorted start (refill o (stream_at w streams))
      → StreamsSorted (λ v. stream_at v streams) ms
      → StreamsSorted (λ v. stream_at v streams) (push o w ms)
  StreamsSorted-push none w ms streams h s = s
  StreamsSorted-push (some e) w ms streams h s = (h, s)

  AllFrom-pending :
      (at : ℕ → List E) (e : E) (ms : List (MergeEntry E))
      → AllAfter start e ms
      → StreamsSorted at ms
      → AllFrom start (start e) (pending_with at ms)
  AllFrom-pending at e [] h s = tt
  AllFrom-pending at e (m ∷ ms) h s = (
    h.0,
    All-append (λ x. start e ≤ start x) (at m.worker_id) (pending_with at ms)
        (AllFrom_weaken start (start e) (start m.entry) (at m.worker_id) h.0 s.0.0)
        (AllFrom-pending at e ms h.1 s.1),
  )

module _ {E : Type 0} {start : E → ℕ} (heap_of : MinHeap start) where
  -- What the loop writes from a heap and streams: all that is pending, and in order if they are.
  abbrev pub Writes : ℕ → List (MergeEntry E) → List (Stream E) → ℕ → Type 0
  Writes fuel heap streams count =
      (es : List E) × (merge_loop heap_of fuel heap streams count ≡ some (numbered count es))
      × Perm es (pending heap streams)
      × (StreamsSorted start (λ w. stream_at w streams) heap → IsSorted start es)

  write_first :
      (fuel count : ℕ) (xs : List (MergeEntry E)) (m : MergeEntry E) (ys : List (MergeEntry E))
      (heap : List (MergeEntry E)) (streams : List (Stream E))
      → heap_of.pop heap ≡ some (m, xs ++ ys)
      → heap ≡ xs ++ m ∷ ys
      → AllAfter start m.entry (xs ++ ys)
      → entries_of m.worker_id (xs ++ ys) ≡ 0
      → Writes fuel
          (push (read_next m.worker_id streams).0 m.worker_id (xs ++ ys))
          (read_next m.worker_id streams).1
          (suc count)
      → Writes (suc fuel) heap streams count
  unfolding merge_loop
  write_first fuel count xs m ys heap streams popped split after others (es, run, perm, ordered) =
      let w = m.worker_id in
      let rest = xs ++ ys in
      let after_all : (StreamsSorted start (λ v. stream_at v streams) heap)
          → IsSorted start (m.entry ∷ es) =
        λ s.
          let parts =
            All_middle (λ n. IsSorted start (n.entry ∷ stream_at n.worker_id streams)) xs m ys
              (subst (StreamsSorted start (λ v. stream_at v streams)) split s) in
          let others_sorted = StreamsSorted-read_next start w rest streams others parts.1 in
          let here : IsSorted start (stream_at w streams) = parts.0.1 in
          (
            AllFrom-Perm start (start m.entry) (Perm.symm perm) (
                subst (AllFrom start (start m.entry)) (sym (after_step w rest streams others)) (
                  All-append (λ x. start m.entry ≤ start x) (stream_at w streams)
                    (pending rest streams) parts.0.0
                    (AllFrom-pending start (λ v. stream_at v streams) m.entry rest after parts.1))),
            ordered (
                StreamsSorted-push start (read_next w streams).0 w rest (read_next w streams).1
                  (subst (IsSorted start) (stream_at-read_next w streams) here) others_sorted),
          ) in
      (
        m.entry ∷ es,
        rw (popped, merge_loop) (rw (run, merge_loop) refl),
        Perm.trans (Perm.cons m.entry perm) (
            subst
              (λ h.
                Perm
                  (m.entry ∷ pending (push (read_next w streams).0 w rest) (read_next w streams).1)
                  (pending h streams))
              (sym split) (step-Perm xs m ys streams others)),
        after_all,
      )

  pub merge_loop_lem :
      (fuel : ℕ) (heap : List (MergeEntry E)) (streams : List (Stream E)) (count : ℕ)
      → length (pending heap streams) < fuel
      → Distinct heap
      → Writes fuel heap streams count
  unfolding merge_loop
  merge_loop_lem zero heap streams count enough distinct = absurd (omega arith)
  merge_loop_lem (suc fuel) [] streams count enough distinct =
      ([], rw (heap_of.pop_empty, merge_loop) refl, Perm.refl [], λ s. tt)
  merge_loop_lem (suc fuel) (n ∷ ns) streams count enough distinct =
      let (xs, m, ys, split, popped, after) = heap_of.pop_least n ns in
      let w = m.worker_id in
      let split_distinct = subst Distinct split distinct in
      let others = others_of xs m ys split_distinct in
      let perm = step-Perm xs m ys streams others in
      let left : length (pending (xs ++ m ∷ ys) streams) < suc fuel =
        subst (λ h. length (pending h streams) < suc fuel) split enough in
      write_first fuel count xs m ys (n ∷ ns) streams popped split after others (
        merge_loop_lem fuel (push (read_next w streams).0 w (xs ++ ys)) (read_next w streams).1
          (suc count) (omega (arith, length-Perm perm))
          (push-Distinct (read_next w streams).0 xs m ys split_distinct))
