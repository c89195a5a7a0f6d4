-- ===== src/Prelude/Ordered.antt =====
-- Lists in the order of a number that each element has, sums over a list, and what a permutation
-- keeps of them.
use native.Mathlib.Nat.{ℕ_set}
use mathlib.Core.List.{Perm}
use mathlib.Core.List.Perm
use Prim.Native.Nat.{ℕ, ◌+◌, ◌≤◌}
use mathlib.Core.Path.{◌≡◌, refl, sym, ap, ◌∙◌}
use mathlib.Core.List.{List, [], ◌∷◌, ◌++◌, foldr}
use native.Mathlib.Omega.{arith}
use sai3_bench.Prelude.Tests.{ltb, if◌then◌else◌}
use sai3_bench.Prelude.Lists.{length, All}

module _ {E : Type 0} where
  -- The sum of what `f` says of each element.
  unfoldable pub sum_by : (E → ℕ) → List E → ℕ
  sum_by f [] = 0
  sum_by f (x ∷ xs) = f x + sum_by f xs

  pub sum_by-append : (f : E → ℕ) (xs ys : List E) → sum_by f (xs ++ ys) ≡ sum_by f xs + sum_by f ys
  unfolding sum_by
  sum_by-append f [] ys = omega arith
  sum_by-append f (x ∷ xs) ys = omega (arith, sum_by-append f xs ys)

  sum_by-foldr : (f : E → ℕ) (xs : List E) → sum_by f xs ≡ foldr (λ x n. f x + n) 0 xs
  unfolding sum_by
  sum_by-foldr f [] = refl
  sum_by-foldr f (x ∷ xs) = ap (λ n. f x + n) (sum_by-foldr f xs)

  pub sum_by-Perm : (f : E → ℕ) {xs ys : List E} → Perm xs ys → sum_by f xs ≡ sum_by f ys
  sum_by-Perm f {xs} {ys} p =
      sum_by-foldr f xs
      ∙ Perm.foldr-eq ℕ_set (λ x n. f x + n) (λ x y n. omega arith) p 0
      ∙ sym (sum_by-foldr f ys)

  length-sum_by : (xs : List E) → length xs ≡ sum_by (λ _. 1) xs
  unfolding sum_by
  length-sum_by [] = refl
  length-sum_by (x ∷ xs) = omega (arith, length-sum_by xs)

  pub length-Perm : {xs ys : List E} → Perm xs ys → length xs ≡ length ys
  length-Perm {xs} {ys} p =
      omega (arith, length-sum_by xs, length-sum_by ys, sum_by-Perm (λ _. 1) p)

module _ {E : Type 0} (start : E → ℕ) where
  abbrev pub AllFrom : ℕ → List E → Type 0
  AllFrom n = All (λ x. n ≤ start x)

  abbrev pub IsSorted : List E → Type 0
  IsSorted [] = Unit
  IsSorted (x ∷ xs) = AllFrom (start x) xs × IsSorted xs

  abbrev before : ℕ → E → ℕ
  before n x = if ltb (start x) n then 1 else 0

  -- How many elements come before `n`.
  abbrev pub count_before : ℕ → List E → ℕ
  count_before n = sum_by (before n)

  pub count_before_none : (n : ℕ) (xs : List E) → AllFrom n xs → count_before n xs ≡ 0
  unfolding sum_by
  count_before_none n [] h = refl
  count_before_none n (x ∷ xs) h = ground (arith, count_before_none n xs h.1)

  pub AllFrom_of_count : (n : ℕ) (xs : List E) → count_before n xs ≡ 0 → AllFrom n xs
  unfolding sum_by
  AllFrom_of_count n [] h = tt
  AllFrom_of_count n (x ∷ xs) h = (ground arith, AllFrom_of_count n xs (ground arith))

  pub AllFrom-Perm : (n : ℕ) {xs ys : List E} → Perm xs ys → AllFrom n xs → AllFrom n ys
  AllFrom-Perm n {xs} {ys} p h =
      AllFrom_of_count n ys (omega (arith, count_before_none n xs h, sum_by-Perm (before n) p))

  pub AllFrom_weaken : (m n : ℕ) (xs : List E) → m ≤ n → AllFrom n xs → AllFrom m xs
  AllFrom_weaken m n [] l h = tt
  AllFrom_weaken m n (x ∷ xs) l h = (omega (arith, h.0), AllFrom_weaken m n xs l h.1)
