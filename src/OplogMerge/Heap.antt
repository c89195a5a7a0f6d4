-- ===== src/OplogMerge/Heap.antt =====
-- A heap of src/oplog_merge.rs as a list: the earliest entry is looked for, the first among equals.
use sai3_bench.Prelude.{
  ℕ, ◌≤◌, ◌≡◌, refl, sym, ap, subst, inl, inr, Option, none, some, List, [], ◌∷◌, ◌++◌, leb,
  if◌then◌else◌, arith, Bool-cases,
}
use sai3_bench.OplogMerge.{MergeEntry, MinHeap, AllAfter}

module _ {E : Type 0} (start : E → ℕ) where
  -- The least of `m` and `ms`, and the others.
  abbrev least : MergeEntry E → List (MergeEntry E) → MergeEntry E × List (MergeEntry E)
  least m [] = (m, [])
  least m (n ∷ ms) =
      let rest = least n ms in
      if leb (start m.entry) (start rest.0.entry) then (m, n ∷ ms) else (rest.0, m ∷ rest.1)

  abbrev pop : List (MergeEntry E) → Option (MergeEntry E × List (MergeEntry E))
  pop [] = none
  pop (m ∷ ms) = some (least m ms)

  abbrev IsLeast : MergeEntry E → List (MergeEntry E) → MergeEntry E × List (MergeEntry E) → Type 0
  IsLeast m ms r =
      (xs : List (MergeEntry E)) × (ys : List (MergeEntry E)) × (m ∷ ms ≡ xs ++ r.0 ∷ ys)
      × (r.1 ≡ xs ++ ys)
      × AllAfter start r.0.entry r.1

  earlier_lem :
      (e f : E) (ms : List (MergeEntry E))
      → start f ≤ start e
      → AllAfter start e ms
      → AllAfter start f ms
  earlier_lem e f [] l h = tt
  earlier_lem e f (m ∷ ms) l h = (omega (arith, h.0), earlier_lem e f ms l h.1)

  insert_middle_lem :
      (e : E) (xs : List (MergeEntry E)) (m : MergeEntry E) (ys : List (MergeEntry E))
      → start e ≤ start m.entry
      → AllAfter start e (xs ++ ys)
      → AllAfter start e (xs ++ m ∷ ys)
  insert_middle_lem e [] m ys l h = (l, h)
  insert_middle_lem e (x ∷ xs) m ys l h = (h.0, insert_middle_lem e xs m ys l h.1)

  pub least_lem : (m : MergeEntry E) (ms : List (MergeEntry E)) → IsLeast m ms (least m ms)
  least_lem m [] = ([], [], refl, refl, tt)
  least_lem m (n ∷ ms) =
      let (xs, ys, split, rest, after) = least_lem n ms in
      let l = (least n ms).0 in
      elim (Bool-cases (leb (start m.entry) (start l.entry))) [
        | inl e ↦
            let lt : start m.entry ≤ start l.entry = ground arith in
            rw (e) (
              [],
              n ∷ ms,
              refl,
              refl,
              subst (AllAfter start m.entry) (sym split) (
                  insert_middle_lem m.entry xs l ys lt (
                    earlier_lem l.entry m.entry (xs ++ ys) lt
                      (subst (AllAfter start l.entry) rest after))),
            )
        | inr e ↦
            rw (e)
              (m ∷ xs, ys, ap (λ zs. m ∷ zs) split, ap (λ zs. m ∷ zs) rest, (ground arith, after))
      ]

  abbrev pub list_heap : MinHeap start
  list_heap = record {
    pop = pop;
    pop_empty = refl;
    pop_least = λ m ms.
        let (xs, ys, split, rest, after) = least_lem m ms in
        (
          xs,
          (least m ms).0,
          ys,
          split,
          ap (λ zs. some ((least m ms).0, zs)) rest,
          subst (AllAfter start (least m ms).0.entry) rest after,
        );
  }
