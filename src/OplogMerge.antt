-- ===== src/OplogMerge.antt =====
-- src/oplog_merge.rs: the workers' op-logs merged into one by start time, an op-log sorted through
-- a sliding window, and the check that an op-log is in order. An entry and its fields, and the
-- reader that yields the lines of a file, are another package's: the entry's type and its fields
-- are parameters, and what the reader yields is data. The output file's writes succeed here.
mod Heap
mod Pending
mod Merging
mod Complete
mod Merged
mod Window
mod Sorting
mod InOrder
mod Columns
mod Tests
use mathlib.Core.Option
use sai3_bench.Prelude.{
  ℕ, zero, suc, ◌+◌, ◌-◌, ◌≤◌, ◌<◌, ◌≡◌, Bool, true, false, Option, none, some, List, [], ◌∷◌, ◌++◌,
  map, length, All, ltb, leb, if◌then◌else◌, ◌⊎◌, inl, inr, sum_by, IsSorted, unwrap_or,
}
use sai3_bench.Prelude.Text.{Text, codes, decimal}

-- What the reader yields for a line of an op-log.
pub data Item (E : Type 0) : Type 0 where
  read : E → Item E
  unreadable : Item E

-- What is found at a worker's path.
pub data WorkerFile (E : Type 0) : Type 0 where
  missing broken : WorkerFile E
  opened : List (Item E) → WorkerFile E

pub record MergeEntry (E : Type 0) : Type 0 where
  pub entry : E
  pub worker_id : ℕ

abbrev pub Stream : Type 0 → Type 0
Stream E = ℕ × List (Item E)

abbrev pub worker_oplog_path : Option Text → Option Text → ℕ → Text
worker_oplog_path file_stem extension worker_id =
    unwrap_or file_stem (codes "oplog")
    ++ codes "-worker-"
    ++ decimal worker_id
    ++ 46 ∷ unwrap_or extension (codes "tsv")

module _ {E : Type 0} where
  pub open_workers : ℕ → List (WorkerFile E) → ℕ ⊎ List (Stream E)
  open_workers worker_id [] = inr []
  open_workers worker_id (missing ∷ files) = open_workers (suc worker_id) files
  open_workers worker_id (broken ∷ files) = inl worker_id
  open_workers worker_id (opened items ∷ files) = elim (open_workers (suc worker_id) files) [
    | inl e ↦ inl e
    | inr streams ↦ inr ((worker_id, items) ∷ streams)
  ]

  -- The heap of the first entries, and the streams behind them.
  pub first_entries : List (Stream E) → List (MergeEntry E) × List (Stream E)
  first_entries [] = ([], [])
  first_entries ((w, []) ∷ streams) = let rest = first_entries streams in (rest.0, (w, []) ∷ rest.1)
  first_entries ((w, unreadable ∷ items) ∷ streams) =
      let rest = first_entries streams in (rest.0, (w, items) ∷ rest.1)
  first_entries ((w, read e ∷ items) ∷ streams) =
      let rest = first_entries streams in
      (record { entry = e; worker_id = w } ∷ rest.0, (w, items) ∷ rest.1)

  -- streams.get_mut(i).and_then(|(_, s)| s.next()), where it is an entry.
  pub read_next : ℕ → List (Stream E) → Option E × List (Stream E)
  read_next i [] = (none, [])
  read_next zero ((w, []) ∷ streams) = (none, (w, []) ∷ streams)
  read_next zero ((w, unreadable ∷ items) ∷ streams) = (none, (w, items) ∷ streams)
  read_next zero ((w, read e ∷ items) ∷ streams) = (some e, (w, items) ∷ streams)
  read_next (suc i) (s ∷ streams) = let rest = read_next i streams in (rest.0, s ∷ rest.1)

  abbrev pub push : Option E → ℕ → List (MergeEntry E) → List (MergeEntry E)
  push none w heap = heap
  push (some e) w heap = record { entry = e; worker_id = w } ∷ heap

  abbrev pub AllAfter : (E → ℕ) → E → List (MergeEntry E) → Type 0
  AllAfter start e = All (λ m. start e ≤ start m.entry)

-- `BinaryHeap` under the reversed order: `pop` takes out an entry that no other one precedes,
-- which one among equals is not said.
pub record MinHeap {E : Type 0} (start : E → ℕ) : Type 0 where
  pub pop : List (MergeEntry E) → Option (MergeEntry E × List (MergeEntry E))
  pub pop_empty : pop [] ≡ none
  pub pop_least :
      (m : MergeEntry E) (ms : List (MergeEntry E))
      → (xs : List (MergeEntry E)) × (least : MergeEntry E) × (ys : List (MergeEntry E)) × (m ∷ ms
          ≡ xs ++ least ∷ ys)
        × (pop (m ∷ ms) ≡ some (least, xs ++ ys))
        × AllAfter start least.entry (xs ++ ys)

-- The rows of an output file: each has its number and its entry.
abbrev pub Rows : Type 0 → Type 0
Rows E = List (ℕ × E)

pub data MergeResult (E : Type 0) : Type 0 where
  cannot_open : ℕ → MergeResult E
  no_worker_files : MergeResult E
  merged : Rows E → List (WorkerFile E) → MergeResult E

module _ {E : Type 0} {start : E → ℕ} (heap_of : MinHeap start) where
  -- The loop over the heap, on fuel.
  pub merge_loop : ℕ → List (MergeEntry E) → List (Stream E) → ℕ → Option (Rows E)
  merge_loop zero heap streams output_count = none
  merge_loop (suc fuel) heap streams output_count = elim (heap_of.pop heap) [
    | none ↦ some []
    | some (m, rest) ↦
        let next = read_next m.worker_id streams in
        Option.map (λ rows. (output_count, m.entry) ∷ rows)
          (merge_loop fuel (push next.0 m.worker_id rest) next.1 (suc output_count))
  ]

abbrev pub item_count : {E : Type 0} → WorkerFile E → ℕ
item_count missing = 0
item_count broken = 0
item_count (opened items) = length items

abbrev pub removed : {E : Type 0} → WorkerFile E → WorkerFile E
removed f = missing

module _ {E : Type 0} {start : E → ℕ} (heap_of : MinHeap start) where
  -- `none` where the fuel, one more than the lines of all files, is not enough.
  pub merge_worker_oplogs : Bool → List (WorkerFile E) → Option (MergeResult E)
  merge_worker_oplogs keep_worker_files files = elim (open_workers 0 files) [
    | inl w ↦ some (cannot_open w)
    | inr [] ↦ some no_worker_files
    | inr (s ∷ streams) ↦
        let first = first_entries (s ∷ streams) in
        let left = if keep_worker_files then files else map removed files in
        Option.map (λ rows. merged rows left)
          (merge_loop heap_of (suc (sum_by item_count files)) first.0 first.1 0)
  ]

-- The rows written, and whether the whole input could be read.
abbrev pub Sorted : Type 0 → Type 0
Sorted E = Rows E × Bool

module _ {E : Type 0} (start : E → ℕ) where
  abbrev pub AllUpTo : ℕ → List E → Type 0
  AllUpTo n = All (λ x. start x ≤ n)

-- `binary_search_by` with the place of the match or the place to insert: on a sorted slice it
-- splits the slice there, which place among equals is not said.
pub record BinarySearch {E : Type 0} (start : E → ℕ) : Type 0 where
  pub split : E → List E → List E × List E
  pub split_append : (e : E) (xs : List E) → (split e xs).0 ++ (split e xs).1 ≡ xs
  pub split_left :
      (e : E) (xs : List E) → IsSorted start xs → AllUpTo start (start e) (split e xs).0
  pub split_right :
      (e : E) (xs : List E) → IsSorted start xs → All (λ x. start e ≤ start x) (split e xs).1

module _ {E : Type 0} where
  abbrev pub numbered : ℕ → List E → Rows E
  numbered count [] = []
  numbered count (x ∷ xs) = (count, x) ∷ numbered (suc count) xs

  -- while window.len() > window_size: the entries taken from the front, and the window.
  pub evict : ℕ → List E → List E × List E
  evict window_size [] = ([], [])
  evict window_size (x ∷ xs) =
      let rest = evict window_size xs in
      if ltb window_size (length (x ∷ xs)) then (x ∷ rest.0, rest.1) else ([], x ∷ xs)

module _ {E : Type 0} {start : E → ℕ} (search : BinarySearch start) where
  pub insert_entry : E → List E → List E
  insert_entry e window = let at = search.split e window in at.0 ++ e ∷ at.1

  -- The loop of `sort_oplog_file` over the items, then the rest of the window.
  pub sort_loop : ℕ → List (Item E) → List E → ℕ → Sorted E
  sort_loop window_size [] window output_count = (numbered output_count window, true)
  sort_loop window_size (unreadable ∷ items) window output_count = ([], false)
  sort_loop window_size (read e ∷ items) window output_count =
      let step = evict window_size (insert_entry e window) in
      let rest = sort_loop window_size items step.1 (output_count + length step.0) in
      (numbered output_count step.0 ++ rest.0, rest.1)

  pub sort_oplog_file : ℕ → List (Item E) → Sorted E
  sort_oplog_file window_size items = sort_loop window_size items [] 0

-- What `check_oplog_sorted` reports: in order or not, the lines checked, the first line out of order.
pub data CheckResult : Type 0 where
  read_error : CheckResult
  checked : Bool → ℕ → Option ℕ → CheckResult

module _ {E : Type 0} (start : E → ℕ) where
  abbrev goes_back : Option ℕ → ℕ → Bool
  goes_back none now = false
  goes_back (some prev) now = ltb now prev

  -- The loop of `check_oplog_sorted`. `max` is `none` for usize::MAX.
  pub check_loop : Option ℕ → List (Item E) → Option ℕ → ℕ → CheckResult
  check_loop max [] prev line_num = checked true line_num none
  check_loop max (unreadable ∷ items) prev line_num = read_error
  check_loop max (read e ∷ items) prev line_num =
      let line = suc line_num in
      let rest = check_loop max items (some (start e)) line in
      if goes_back prev (start e)
      then checked false line (some line)
      else elim max [ none ↦ rest | some m ↦ if leb m line then checked true line none else rest ]

  pub check_oplog_sorted : Option ℕ → List (Item E) → CheckResult
  check_oplog_sorted max_lines items = check_loop max_lines items none 0
