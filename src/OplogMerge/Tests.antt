-- ===== src/OplogMerge/Tests.antt =====
-- src/oplog_merge.rs: the theorems at concrete logs. An entry is its start time here.
use mathlib.Core.List.{Perm}
use sai3_bench.Prelude.{
  ℕ, ◌≤◌, ◌≡◌, refl, true, false, some, none, List, [], ◌∷◌, ◌++◌, map, sum_by, All, IsSorted, leb,
  arith, if◌then◌else◌,
}
use sai3_bench.OplogMerge.{
  Item, read, unreadable, missing, opened, BinarySearch, AllUpTo, merge_worker_oplogs, merged,
  merge_loop, open_workers, first_entries, read_next, numbered, sort_oplog_file, sort_loop,
  insert_entry, evict,
}
use sai3_bench.OplogMerge.Columns.{EntryFields, write_entry}
use sai3_bench.Prelude.Text.{codes, decimal}
use sai3_bench.OplogMerge.Heap.{list_heap}
use sai3_bench.OplogMerge.Complete.{left_files}
use sai3_bench.OplogMerge.Merged.{
  merge_worker_oplogs-IsSorted, merge_worker_oplogs_missing, missing_files,
}
use sai3_bench.OplogMerge.Sorting.{sort_oplog_file-IsSorted}

abbrev start : ℕ → ℕ
start t = t

-- The first place whose entry does not precede `e`.
abbrev split : ℕ → List ℕ → List ℕ × List ℕ
split e [] = ([], [])
split e (x ∷ xs) = let rest = split e xs in if leb e x then ([], x ∷ xs) else (x ∷ rest.0, rest.1)

split_append : (e : ℕ) (xs : List ℕ) → (split e xs).0 ++ (split e xs).1 ≡ xs
split_append e [] = refl
split_append e (x ∷ xs) = ground (arith, split_append e xs)

split_left : (e : ℕ) (xs : List ℕ) → AllUpTo start e (split e xs).0
split_left e [] = tt
split_left e (x ∷ xs) = ground (arith, split_left e xs)

later : (e x : ℕ) (xs : List ℕ) → e ≤ x → All (λ y. x ≤ y) xs → All (λ y. e ≤ y) xs
later e x [] h a = tt
later e x (y ∷ xs) h a = (omega (arith, a.0), later e x xs h a.1)

split_right : (e : ℕ) (xs : List ℕ) → IsSorted start xs → All (λ x. e ≤ x) (split e xs).1
split_right e [] s = tt
split_right e (x ∷ xs) s = ground (arith, split_right e xs s.1, later e x xs, s.0)

abbrev first_place : BinarySearch start
first_place = record {
  split = split;
  split_append = split_append;
  split_left = λ e xs s. split_left e xs;
  split_right = split_right;
}

abbrev log_a : List (Item ℕ)
log_a = map read (1 ∷ 4 ∷ 9 ∷ [])

abbrev log_b : List (Item ℕ)
log_b = read 2 ∷ read 3 ∷ unreadable ∷ read 5 ∷ []

merge_runs_test :
    merge_worker_oplogs (list_heap start) true (opened log_a ∷ opened log_b ∷ [])
    ≡ some (merged (numbered 0 (1 ∷ 2 ∷ 3 ∷ 4 ∷ 9 ∷ [])) (opened log_a ∷ opened log_b ∷ []))
unfolding merge_worker_oplogs merge_loop open_workers first_entries read_next sum_by
merge_runs_test = refl

-- The first worker's file is missing: 9 is never written.
merge_loses_test :
    merge_worker_oplogs (list_heap start) false (missing ∷ opened log_a ∷ opened log_a ∷ [])
    ≡ some (merged (numbered 0 (1 ∷ 1 ∷ 4 ∷ 9 ∷ [])) (missing ∷ missing ∷ missing ∷ []))
unfolding merge_worker_oplogs merge_loop open_workers first_entries read_next sum_by
merge_loses_test = refl

sort_test :
    sort_oplog_file first_place 1 (map read (2 ∷ 1 ∷ 4 ∷ 3 ∷ []))
    ≡ (numbered 0 (1 ∷ 2 ∷ 3 ∷ 4 ∷ []), true)
unfolding sort_oplog_file sort_loop insert_entry evict
sort_test = refl

merge_worker_oplogs-IsSorted_example :
    let files = map opened (log_a ∷ log_b ∷ []) in
    (es : List ℕ) × (merge_worker_oplogs (list_heap start) true files
      ≡ some (merged (numbered 0 es) (left_files true files)))
    × Perm es (1 ∷ 4 ∷ 9 ∷ 2 ∷ 3 ∷ [])
    × IsSorted start es
merge_worker_oplogs-IsSorted_example =
    merge_worker_oplogs-IsSorted (list_heap start) true log_a (log_b ∷ []) (
      ((omega arith, (omega arith, tt)), ((omega arith, tt), (tt, tt))),
      (((omega arith, tt), (tt, tt)), tt),
    )

merge_worker_oplogs_missing_example :
    let files = missing_files 1 (opened log_a ∷ []) in
    (es : List ℕ) × (merge_worker_oplogs (list_heap start) false files
      ≡ some (merged (numbered 0 es) (left_files false files)))
    × Perm es (1 ∷ [])
merge_worker_oplogs_missing_example =
    merge_worker_oplogs_missing (list_heap start) false 0 1 (map read (4 ∷ 9 ∷ []))

sort_oplog_file-IsSorted_example :
    (es : List ℕ) × (sort_oplog_file first_place 1 (map read (2 ∷ 1 ∷ 4 ∷ 3 ∷ []))
      ≡ (numbered 0 es, true))
    × Perm es (2 ∷ 1 ∷ 4 ∷ 3 ∷ [])
    × IsSorted start es
sort_oplog_file-IsSorted_example =
    sort_oplog_file-IsSorted first_place 1 (2 ∷ 1 ∷ 4 ∷ 3 ∷ [])
      ((omega arith, (omega arith, tt)), ((omega arith, tt), (tt, (tt, tt))))

abbrev fields : EntryFields ℕ
fields = record {
  op = λ t. codes "GET";
  bytes = λ t. 4096;
  endpoint = λ t. codes "s3://bucket";
  file = λ t. codes "data/obj_7";
  error = λ t. none;
  start_rfc3339 = λ t. codes "2025-01-01T00:00:00Z";
  duration_ns = λ t. some 1200;
}

write_entry_test :
    write_entry fields 5 3
    ≡ codes "3\t0\tGET\t\t1\t4096\ts3://bucket\tdata/obj_7\t\t2025-01-01T00:00:00Z\t\t\t1200"
unfolding write_entry decimal
write_entry_test = refl
