-- ===== src/OplogMerge/Pending.antt =====
-- src/oplog_merge.rs: the entries that a merge still has to write, those in the heap and, behind
-- each, those its stream yields up to the first line that cannot be read.
use mathlib.Core.List.{append_assoc}
use sai3_bench.Prelude.{
  ℕ, zero, suc, ◌≡◌, ◌≢◌, refl, sym, ap, ◌∙◌, Option, none, some, List, [], ◌∷◌, ◌++◌, sum_by, ◌==◌,
  if◌then◌else◌, arith,
}
use sai3_bench.OplogMerge.{Item, read, unreadable, MergeEntry, Stream, read_next}

module _ {E : Type 0} where
  -- The entries of a stream up to the first line that cannot be read.
  abbrev pub readable : List (Item E) → List E
  readable [] = []
  readable (read e ∷ items) = e ∷ readable items
  readable (unreadable ∷ items) = []

  abbrev pub stream_at : ℕ → List (Stream E) → List E
  stream_at i [] = []
  stream_at zero (s ∷ streams) = readable s.1
  stream_at (suc i) (s ∷ streams) = stream_at i streams

  -- `at` says what a worker's stream still yields.
  abbrev pub pending_with : (ℕ → List E) → List (MergeEntry E) → List E
  pending_with at [] = []
  pending_with at (m ∷ ms) = m.entry ∷ (at m.worker_id ++ pending_with at ms)

  abbrev pub pending : List (MergeEntry E) → List (Stream E) → List E
  pending ms streams = pending_with (λ w. stream_at w streams) ms

  abbrev pub refill : Option E → List E → List E
  refill none es = []
  refill (some e) es = e ∷ es

  pub stream_at-read_next :
      (i : ℕ) (streams : List (Stream E))
      → stream_at i streams ≡ refill (read_next i streams).0 (stream_at i (read_next i streams).1)
  unfolding read_next
  stream_at-read_next i [] = refl
  stream_at-read_next zero ((w, []) ∷ streams) = refl
  stream_at-read_next zero ((w, unreadable ∷ items) ∷ streams) = refl
  stream_at-read_next zero ((w, read e ∷ items) ∷ streams) = refl
  stream_at-read_next (suc i) (s ∷ streams) = stream_at-read_next i streams

  pub stream_at-read_next_other :
      (i j : ℕ) (streams : List (Stream E))
      → i ≢ j
      → stream_at j (read_next i streams).1 ≡ stream_at j streams
  unfolding read_next
  stream_at-read_next_other i j [] h = refl
  stream_at-read_next_other zero zero (s ∷ streams) h = absurd (h refl)
  stream_at-read_next_other zero (suc j) ((w, []) ∷ streams) h = refl
  stream_at-read_next_other zero (suc j) ((w, unreadable ∷ items) ∷ streams) h = refl
  stream_at-read_next_other zero (suc j) ((w, read e ∷ items) ∷ streams) h = refl
  stream_at-read_next_other (suc i) zero (s ∷ streams) h = refl
  stream_at-read_next_other (suc i) (suc j) (s ∷ streams) h =
      stream_at-read_next_other i j streams (λ e. h (ap suc e))

  abbrev pub is_worker : ℕ → MergeEntry E → ℕ
  is_worker w m = if m.worker_id == w then 1 else 0

  abbrev pub entries_of : ℕ → List (MergeEntry E) → ℕ
  entries_of w = sum_by (is_worker w)

  pub pending-append :
      (at : ℕ → List E) (xs ys : List (MergeEntry E))
      → pending_with at (xs ++ ys) ≡ pending_with at xs ++ pending_with at ys
  pending-append at [] ys = refl
  pending-append at (x ∷ xs) ys =
      ap (λ es. x.entry ∷ es)
        (ap (λ es. at x.worker_id ++ es) (pending-append at xs ys)
          ∙ sym (append_assoc (at x.worker_id) (pending_with at xs) (pending_with at ys)))

  pub pending-read_next :
      (w : ℕ) (ms : List (MergeEntry E)) (streams : List (Stream E))
      → entries_of w ms ≡ 0
      → pending ms (read_next w streams).1 ≡ pending ms streams
  unfolding sum_by
  pending-read_next w [] streams h = refl
  pending-read_next w (m ∷ ms) streams h =
      let other : w ≢ m.worker_id = ground arith in
      ap (λ es. m.entry ∷ (es ++ pending ms (read_next w streams).1))
        (stream_at-read_next_other w m.worker_id streams other)
      ∙ ap (λ es. m.entry ∷ (stream_at m.worker_id streams ++ es))
          (pending-read_next w ms streams (ground arith))
