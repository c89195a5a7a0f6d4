-- ===== src/OplogMerge/Sorting.antt =====
-- src/oplog_merge.rs: what `sort_oplog_file` writes when the whole input can be read.
use mathlib.Core.List.{Perm, append_assoc, append-nil}
use mathlib.Core.List.Perm
use sai3_bench.Prelude.{
  ℕ, suc, ◌+◌, ◌-◌, ◌≤◌, ◌≡◌, refl, sym, ap, subst, ◌∙◌, true, List, [], ◌∷◌, ◌++◌, map, length,
  length-append, length-Perm, All-append, Perm_middle, AllFrom, AllFrom-Perm, IsSorted, arith, inl,
  inr,
}
use sai3_bench.OplogMerge.{
  read, AllUpTo, BinarySearch, numbered, insert_entry, sort_loop, sort_oplog_file,
}
use sai3_bench.OplogMerge.Window.{
  IsNearlySorted, split_at, evict_lem, early_before_late, first_to_leave,
}

module _ {E : Type 0} (start : E → ℕ) where
  IsSorted-append :
      (n : ℕ) (xs ys : List E)
      → IsSorted start (xs ++ ys)
      → AllUpTo start n xs
      → AllFrom start n ys
      → (e : E) → start e ≡ n
      → IsSorted start (xs ++ e ∷ ys)
  IsSorted-append n [] ys s h k e eq = (subst (λ m. AllFrom start m ys) (sym eq) k, s)
  IsSorted-append n (x ∷ xs) ys s h k e eq =
      (insert_All x xs ys e (omega (arith, h.0)) s.0, IsSorted-append n xs ys s.1 h.1 k e eq)
    where
      insert_All :
          (x : E) (xs ys : List E) (e : E)
          → start x ≤ start e
          → AllFrom start (start x) (xs ++ ys)
          → AllFrom start (start x) (xs ++ e ∷ ys)
      insert_All x [] ys e l a = (l, a)
      insert_All x (z ∷ xs) ys e l a = (a.0, insert_All x xs ys e l a.1)

module _ {E : Type 0} {start : E → ℕ} (search : BinarySearch start) where
  insert_entry-Perm : (e : E) (window : List E) → Perm (e ∷ window) (insert_entry search e window)
  unfolding insert_entry
  insert_entry-Perm e window =
      let at = search.split e window in
      subst (λ w. Perm (e ∷ w) (at.0 ++ e ∷ at.1)) (search.split_append e window)
        (Perm_middle e at.0 at.1)

  insert_entry-IsSorted :
      (e : E) (window : List E)
      → IsSorted start window
      → IsSorted start (insert_entry search e window)
  unfolding insert_entry
  insert_entry-IsSorted e window s =
      let at = search.split e window in
      IsSorted-append start (start e) at.0 at.1
        (subst (IsSorted start) (sym (search.split_append e window)) s)
        (search.split_left e window s) (search.split_right e window s) e refl

  -- The invariant of the loop: `input` was read, `out` written, the window holds the others.
  abbrev Invariant : ℕ → List E → List E → List E → List E → Type 0
  Invariant n xs window input out =
      Perm input (out ++ window)
      × (length out ≡ length input - n)
      × IsSorted start window
      × IsNearlySorted start n (input ++ xs)

  read_one :
      (x : E) (window input out : List E)
      → Perm input (out ++ window)
      → Perm (input ++ x ∷ []) (out ++ insert_entry search x window)
  read_one x window input out p =
      Perm.trans
        (Perm.symm (
          subst (λ es. Perm (x ∷ es) (input ++ x ∷ [])) (append-nil input)
            (Perm_middle x input [])))
        (Perm.trans (Perm.cons x p) (
          Perm.trans (Perm_middle x out window)
            (Perm.append_left out (insert_entry-Perm x window))))

  stays :
      (n : ℕ) (x : E) (xs window input out : List E)
      → length (insert_entry search x window) ≤ n
      → Invariant n (x ∷ xs) window input out
      → Invariant n xs (insert_entry search x window) (input ++ x ∷ []) out
  stays n x xs window input out short (p, l, s, near) = (
    read_one x window input out p,
    omega (
      arith,
      length-append input (x ∷ []),
      length-append out window,
      length-Perm p,
      length-Perm (insert_entry-Perm x window),
    ),
    insert_entry-IsSorted x window s,
    subst (IsNearlySorted start n) (sym (append_assoc input (x ∷ []) xs)) near,
  )

  leaves :
      (n : ℕ) (x : E) (xs window input out : List E) (y : E) (rest : List E)
      → insert_entry search x window ≡ y ∷ rest
      → length rest ≡ n
      → Invariant n (x ∷ xs) window input out
      → Invariant n xs rest (input ++ x ∷ []) (out ++ y ∷ []) × AllFrom start (start y) (rest ++ xs)
  leaves n x xs window input out y rest w size (p, l, s, near) =
      let input' = input ++ x ∷ [] in
      let whole : Perm input' (out ++ y ∷ rest) =
        subst (λ v. Perm input' (out ++ v)) w (read_one x window input out p) in
      let sorted : IsSorted start (y ∷ rest) =
        subst (IsSorted start) w (insert_entry-IsSorted x window s) in
      let near' : IsNearlySorted start n (input' ++ xs) =
        subst (IsNearlySorted start n) (sym (append_assoc input (x ∷ []) xs)) near in
      let counts : length input ≡ length out + n = omega (
        arith,
        length-append out window,
        length-Perm p,
        length-Perm (insert_entry-Perm x window),
        ap length w,
      ) in
      let (early, late, cut, size') =
        split_at (suc (length out)) input' (omega (arith, length-append input (x ∷ []))) in
      let parts : length input' ≡ length early + length late =
        ap length cut ∙ length-append early late in
      let orders =
        early_before_late start n early late xs (omega (arith, length-append input (x ∷ []))) (
          subst (IsNearlySorted start n) (ap (λ es. es ++ xs) cut ∙ append_assoc early late xs)
            near') in
      (
        (
          subst (Perm input') (sym (append_assoc out (y ∷ []) rest)) whole,
          omega (arith, length-append input (x ∷ []), length-append out (y ∷ [])),
          sorted.1,
          near',
        ),
        All-append (λ z. start y ≤ start z) rest xs sorted.0
            (first_to_leave start (start y) early late out (y ∷ rest) xs
              (subst (λ es. Perm es (out ++ y ∷ rest)) cut whole) (omega arith) orders
              (omega arith, sorted.0)),
      )

  -- What is written from a window and the rest of the input, in order if the invariant holds.
  abbrev Writes : ℕ → List E → List E → ℕ → Type 0
  Writes n xs window count =
      (es : List E) × (sort_loop search n (map read xs) window count ≡ (numbered count es, true))
      × Perm es (window ++ xs)
      × ((input out : List E) → Invariant n xs window input out → IsSorted start es)

  -- The numbers of the rows go on after the entries that leave the window.
  pub sort_loop_lem :
      (n : ℕ) (xs window : List E) (count : ℕ) → length window ≤ n → Writes n xs window count
  unfolding sort_loop
  sort_loop_lem n [] window count h = (
    window,
    refl,
    subst (Perm window) (sym (append-nil window)) (Perm.refl window),
    λ input out inv. inv.2,
  )
  sort_loop_lem n (x ∷ xs) window count h =
      let window' = insert_entry search x window in
      let perm = insert_entry-Perm x window in
      let all : Perm (window' ++ xs) (window ++ x ∷ xs) =
        Perm.trans (Perm.append_right xs (Perm.symm perm)) (Perm_middle x window xs) in
      elim (evict_lem n window' (omega (arith, length-Perm perm))) [
        | inl (short, e) ↦
            let same : count ≡ count + 0 = omega arith in
            let (es, run, p, ordered) = sort_loop_lem n xs window' (count + 0) short in
            (
              es,
              rw (e, sort_loop) (rw (run, sort_loop) (ap (λ k. (numbered k es, true)) (sym same))),
              Perm.trans p all,
              λ input out inv.
                  ordered (input ++ x ∷ []) out (stays n x xs window input out short inv),
            )
        | inr (y, rest, w, l, e) ↦
            let (es, run, p, ordered) = sort_loop_lem n xs rest (count + 1) (omega arith) in
            let next : count + 1 ≡ suc count = omega arith in
            (
              y ∷ es,
              rw (e, sort_loop)
                  (rw (run, sort_loop) (ap (λ k. ((count, y) ∷ numbered k es, true)) next)),
              Perm.trans (Perm.cons y p) (subst (λ v. Perm (v ++ xs) (window ++ x ∷ xs)) w all),
              λ input out inv.
                  let (inv', first) = leaves n x xs window input out y rest w l inv in
                  (
                    AllFrom-Perm start (start y) (Perm.symm p) first,
                    ordered (input ++ x ∷ []) (out ++ y ∷ []) inv',
                  ),
            )
      ]

module _ {E : Type 0} {start : E → ℕ} (search : BinarySearch start) where
  -- A file that can be read is written as a whole: the rows are numbered from 0, and they hold
  -- the entries of the input, each once.
  pub sort_oplog_file-Perm :
      (window_size : ℕ) (xs : List E)
      → (es : List E) × (sort_oplog_file search window_size (map read xs) ≡ (numbered 0 es, true))
        × Perm es xs
  unfolding sort_oplog_file
  sort_oplog_file-Perm n xs =
      let (es, run, p, ordered) = sort_loop_lem search n xs [] 0 (omega arith) in (es, run, p)

  -- When no entry started before one that is more than `window_size` places ahead of it, the rows
  -- hold the entries of the input, each once, in the order of their start times.
  pub sort_oplog_file-IsSorted :
      (window_size : ℕ) (xs : List E)
      → IsNearlySorted start window_size xs
      → (es : List E) × (sort_oplog_file search window_size (map read xs) ≡ (numbered 0 es, true))
        × Perm es xs
        × IsSorted start es
  unfolding sort_oplog_file
  sort_oplog_file-IsSorted n xs near =
      let (es, run, p, ordered) = sort_loop_lem search n xs [] 0 (omega arith) in
      (es, run, p, ordered [] [] (Perm.refl [], omega arith, tt, near))
