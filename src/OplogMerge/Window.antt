-- ===== src/OplogMerge/Window.antt =====
-- src/oplog_merge.rs: sorting through a sliding window. The window holds the entries read and not
-- yet written, so an entry that leaves it is early enough when none comes later than the window
-- reaches back.
use mathlib.Core.List.{Perm, append_assoc}
use sai3_bench.Prelude.{
  ℕ, zero, suc, ◌≤◌, ◌<◌, ◌≡◌, refl, sym, ap, subst, List, [], ◌∷◌, ◌++◌, length, length-append,
  All, All-map, AllFrom, AllFrom_weaken, sum_by, sum_by-append, sum_by-Perm, count_before,
  count_before_none, leb, ltb, if◌then◌else◌, arith, inl, inr, ◌⊎◌, Bool-cases,
}
use sai3_bench.OplogMerge.{AllUpTo, evict}

module _ {E : Type 0} where
  abbrev pub drop : ℕ → List E → List E
  drop zero xs = xs
  drop (suc n) [] = []
  drop (suc n) (x ∷ xs) = drop n xs

  All-drop :
      (P : E → Type 0) (n : ℕ) (xs ys : List E)
      → n ≤ length xs
      → All P (drop n (xs ++ ys))
      → All P ys
  All-drop P zero [] [] h a = tt
  All-drop P zero [] (y ∷ ys) h a = a
  All-drop P zero (x ∷ xs) ys h a = All-drop P zero xs ys (omega arith) a.1
  All-drop P (suc n) [] ys h a = absurd (omega arith)
  All-drop P (suc n) (x ∷ xs) ys h a = All-drop P n xs ys (omega arith) a

  pub split_at :
      (n : ℕ) (xs : List E)
      → n ≤ length xs
      → (ys : List E) × (zs : List E) × (xs ≡ ys ++ zs) × (length ys ≡ n)
  split_at zero xs h = ([], xs, refl, refl)
  split_at (suc n) [] h = absurd (omega arith)
  split_at (suc n) (x ∷ xs) h =
      let (ys, zs, e, l) = split_at n xs (omega arith) in
      (x ∷ ys, zs, ap (λ es. x ∷ es) e, ap suc l)

  evict_short : (n : ℕ) (xs : List E) → length xs ≤ n → evict n xs ≡ ([], xs)
  unfolding evict
  evict_short n [] h = refl
  evict_short n (x ∷ xs) h = ground arith

  -- A window that is at most one too long loses its first entry, if it is too long.
  abbrev pub Evicted : ℕ → List E → Type 0
  Evicted n xs =
      ((length xs ≤ n) × (evict n xs ≡ ([], xs)))
      ⊎ ((x : E) × (rest : List E) × (xs ≡ x ∷ rest)
          × (length rest ≡ n)
          × (evict n xs ≡ (x ∷ [], rest)))

  pub evict_lem : (n : ℕ) (xs : List E) → length xs ≤ suc n → Evicted n xs
  unfolding evict
  evict_lem n [] h = inl (omega arith, refl)
  evict_lem n (x ∷ xs) h = elim (Bool-cases (ltb n (length (x ∷ xs)))) [
    | inl e ↦ inr (x, xs, refl, ground arith, ground (arith, evict_short n xs))
    | inr e ↦ inl (ground arith, ground arith)
  ]

module _ {E : Type 0} (start : E → ℕ) where
  -- No entry is followed, more than `n` places later, by one that started before it.
  abbrev pub IsNearlySorted : ℕ → List E → Type 0
  IsNearlySorted n [] = Unit
  IsNearlySorted n (x ∷ xs) = AllFrom start (start x) (drop n xs) × IsNearlySorted n xs

  pub early_before_late :
      (n : ℕ) (xs ys zs : List E)
      → n ≤ length ys
      → IsNearlySorted n (xs ++ (ys ++ zs))
      → All (λ x. AllFrom start (start x) zs) xs
  early_before_late n [] ys zs h s = tt
  early_before_late n (x ∷ xs) ys zs h s = (
    All-drop (λ z. start x ≤ start z) n (xs ++ ys) zs (omega (arith, length-append xs ys))
        (subst (λ es. AllFrom start (start x) (drop n es)) (sym (append_assoc xs ys zs)) s.0),
    early_before_late n xs ys zs h s.1,
  )

  count_all : (n : ℕ) (xs : List E) → AllUpTo start n xs → count_before start (suc n) xs ≡ length xs
  unfolding sum_by
  count_all n [] h = refl
  count_all n (x ∷ xs) h = ground (arith, count_all n xs h.1)

  count_most : (n : ℕ) (xs : List E) → count_before start n xs ≤ length xs
  unfolding sum_by
  count_most n [] = omega arith
  count_most n (x ∷ xs) = ground (arith, count_most n xs)

  -- More entries up to `n` came in than went out, so one of them is in the window.
  least_is_early :
      (m n : ℕ) (xs ys out window : List E)
      → Perm (xs ++ ys) (out ++ window)
      → length out < length xs
      → AllUpTo start n xs
      → AllFrom start m window
      → m ≤ n
  least_is_early m n xs ys out window perm fewer early late = elim (Bool-cases (leb m n)) [
    | inl e ↦ ground arith
    | inr e ↦
        let gap : suc n ≤ m = ground arith in
        absurd (
          omega (
            arith,
            sum_by-Perm (λ x. if ltb (start x) (suc n) then 1 else 0) perm,
            sum_by-append (λ x. if ltb (start x) (suc n) then 1 else 0) xs ys,
            sum_by-append (λ x. if ltb (start x) (suc n) then 1 else 0) out window,
            count_all n xs early,
            count_most (suc n) out,
            count_before_none start (suc n) window (AllFrom_weaken start (suc n) m window gap late),
          ))
  ]

  pub first_to_leave :
      (m : ℕ) (xs ys out window zs : List E)
      → Perm (xs ++ ys) (out ++ window)
      → length out < length xs
      → All (λ x. AllFrom start (start x) zs) xs
      → AllFrom start m window
      → AllFrom start m zs
  first_to_leave m xs ys out window [] perm fewer early late = tt
  first_to_leave m xs ys out window (z ∷ zs) perm fewer early late = (
    least_is_early m (start z) xs ys out window perm fewer (All-map (λ x h. h.0) xs early) late,
    first_to_leave m xs ys out window zs perm fewer (All-map (λ x h. h.1) xs early) late,
  )
