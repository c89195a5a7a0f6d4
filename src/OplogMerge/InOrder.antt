-- ===== src/OplogMerge/InOrder.antt =====
-- src/oplog_merge.rs: what `check_oplog_sorted` reports.
use sai3_bench.Prelude.{
  ℕ, zero, suc, ◌+◌, ◌≤◌, ◌<◌, ◌≡◌, refl, ap, ◌∙◌, true, false, Option, none, some, List, [], ◌∷◌,
  ◌++◌, map, length, AllFrom, AllFrom_weaken, IsSorted, arith, inl, inr, ◌⊎◌, Bool-cases, ltb, max,
}
use sai3_bench.OplogMerge.{Item, read, unreadable, checked, check_loop, check_oplog_sorted}

module _ {E : Type 0} where
  abbrev pub take : ℕ → List (Item E) → List (Item E)
  take zero items = []
  take (suc n) [] = []
  take (suc n) (item ∷ items) = item ∷ take n items

module _ {E : Type 0} (start : E → ℕ) where
  -- The entries up to `x` are in order, and the next one, `y`, started before `x`.
  abbrev pub StepsBack : List E → List E → E → E → List E → Type 0
  StepsBack all xs x y ys =
      (all ≡ xs ++ x ∷ y ∷ ys) × IsSorted start (xs ++ x ∷ []) × (start y < start x)

  abbrev Reports : E → List E → ℕ → Type 0
  Reports e es n =
      ((check_loop start none (map read es) (some (start e)) n ≡ checked true (n + length es) none)
        × IsSorted start (e ∷ es))
      ⊎ ((xs : List E) × (x : E) × (y : E) × (ys : List E) × (check_loop start none (map read es)
              (some (start e)) n
            ≡ checked false (suc (n + length xs)) (some (suc (n + length xs))))
          × AllFrom start (start e) (xs ++ x ∷ [])
          × StepsBack (e ∷ es) xs x y ys)

  check_loop_lem : (e : E) (es : List E) (n : ℕ) → Reports e es n
  unfolding check_loop
  check_loop_lem e [] n = inl (ap (λ k. checked true k none) (omega arith), (tt, tt))
  check_loop_lem e (f ∷ es) n = elim (Bool-cases (ltb (start f) (start e))) [
    | inl back ↦
        let line : suc n ≡ suc (n + 0) = omega arith in
        inr (
          [],
          e,
          f,
          es,
          rw (back, check_loop) (ap (λ k. checked false k (some k)) line),
          (omega arith, tt),
          (refl, (tt, tt), ground arith),
        )
    | inr fwd ↦
        let le : start e ≤ start f = ground arith in
        elim (check_loop_lem f es (suc n)) [
          | inl (run, s) ↦
              let lines : suc n + length es ≡ n + suc (length es) = omega arith in
              inl (
                rw (fwd, check_loop) (rw (run, check_loop) (ap (λ k. checked true k none) lines)),
                ((le, AllFrom_weaken start (start e) (start f) es le s.0), s),
              )
          | inr (xs, x, y, ys, run, from, (split, s, back)) ↦
              let line : suc (suc n + length xs) ≡ suc (n + suc (length xs)) = omega arith in
              let from' = AllFrom_weaken start (start e) (start f) (xs ++ x ∷ []) le from in
              inr (
                e ∷ xs,
                x,
                y,
                ys,
                rw (fwd, check_loop)
                    (rw (run, check_loop) (ap (λ k. checked false k (some k)) line)),
                (omega arith, from'),
                (ap (λ zs. e ∷ zs) split, (from', s), back),
              )
        ]
  ]

  -- A file that can be read is reported in order, with the number of its lines, when it is; else
  -- the line reported is the first one that started before the line ahead of it.
  pub check_oplog_sorted_lem :
      (es : List E)
      → ((check_oplog_sorted start none (map read es) ≡ checked true (length es) none)
          × IsSorted start es)
        ⊎ ((xs : List E) × (x : E) × (y : E) × (ys : List E) × (check_oplog_sorted start none
                (map read es)
              ≡ checked false (length xs + 2) (some (length xs + 2)))
            × StepsBack es xs x y ys)
  unfolding check_oplog_sorted check_loop
  check_oplog_sorted_lem [] = inl (refl, tt)
  check_oplog_sorted_lem (e ∷ es) = elim (check_loop_lem e es 1) [
    | inl (run, s) ↦ inl (run ∙ ap (λ k. checked true k none) (omega arith), s)
    | inr (xs, x, y, ys, run, from, back) ↦
        inr (xs, x, y, ys, run ∙ ap (λ k. checked false k (some k)) (omega arith), back)
  ]

  check_loop-take :
      (m : ℕ) (items : List (Item E)) (prev : Option ℕ) (n : ℕ)
      → check_loop start (some (suc (n + m))) items prev n
        ≡ check_loop start none (take (suc m) items) prev n
  unfolding check_loop
  check_loop-take m [] prev n = refl
  check_loop-take m (unreadable ∷ items) prev n = refl
  check_loop-take zero (read e ∷ items) prev n = ground arith
  check_loop-take (suc m) (read e ∷ items) prev n =
      let shift : suc (n + suc m) ≡ suc (suc n + m) = omega arith in
      ground (
        arith,
        check_loop-take m items (some (start e)) (suc n),
        ap (λ k. check_loop start (some k) items (some (start e)) (suc n)) shift,
      )

  -- A check of at most `max` lines says what a check of the first `max` lines says, and of the
  -- first line where `max` is 0.
  pub check_oplog_sorted-take :
      (m : ℕ) (items : List (Item E))
      → check_oplog_sorted start (some m) items
        ≡ check_oplog_sorted start none (take (max m 1) items)
  unfolding check_oplog_sorted check_loop
  check_oplog_sorted-take zero [] = refl
  check_oplog_sorted-take zero (unreadable ∷ items) = refl
  check_oplog_sorted-take zero (read e ∷ items) = refl
  check_oplog_sorted-take (suc m) items =
      let bound : suc m ≡ suc (0 + m) = omega arith in
      let lines : suc m ≡ max (suc m) 1 = omega arith in
      ap (λ k. check_loop start (some k) items none 0) bound
      ∙ check_loop-take m items none 0
      ∙ ap (λ k. check_loop start none (take k items) none 0) lines
