-- ===== src/Prepare/ShareSizes.antt =====
-- How many numbers fall to each agent.
use native.Mathlib.Nat.{div-eq_of_lt, div-eq-sub-div, div-add-mod, mod-lt, mul-add-div}
use sai3_bench.Prelude.{
  ℕ, zero, suc, ◌+◌, ◌-◌, ◌/◌, ◌%◌, ◌<◌, ◌≤◌, ◌≡◌, refl, sym, ap, ◌∙◌, ◌⊎◌, Bool, true, false,
  length, ltb, ◌==◌, ==_iff, if◌then◌else◌, arith, inl, inr, Bool-cases,
}
use sai3_bench.Prelude.Keys.{nat_key}
use sai3_bench.Prepare.Plan.{picked}

abbrev pub one_if : Bool → ℕ
one_if b = if b then 1 else 0

picked_last :
    (w : ℕ → Bool) (from n : ℕ)
    → length (picked w from (suc n)) ≡ length (picked w from n) + one_if (w (from + n))
unfolding picked
picked_last w from zero = let e : w (from + 0) ≡ w from = ap w (omega arith) in ground arith
picked_last w from (suc n) =
    let e : w (from + 1 + n) ≡ w (from + suc n) = ap w (omega arith) in
    ground (arith, picked_last w (from + 1) n)

pub picked_ext :
    (v w : ℕ → Bool) (from n : ℕ)
    → ((i : ℕ) → v i ≡ w i)
    → length (picked v from n) ≡ length (picked w from n)
unfolding picked
picked_ext v w from zero h = refl
picked_ext v w from (suc n) h = ground (arith, h from, picked_ext v w (from + 1) n h)

pub picked_none : (from n : ℕ) → length (picked (λ i. false) from n) ≡ 0
unfolding picked
picked_none from zero = refl
picked_none from (suc n) = picked_none (from + 1) n

pub picked_all : (from n : ℕ) → length (picked (λ i. true) from n) ≡ n
unfolding picked
picked_all from zero = refl
picked_all from (suc n) = omega (arith, picked_all (from + 1) n)

div_once : (n s : ℕ) → n ≤ s → s < n + n → s / n ≡ 1
div_once n s low high =
    div-eq-sub-div (omega arith) low ∙ ap (λ d. d + 1) (div-eq_of_lt (omega arith))

-- One number more is one more for the agent that it belongs to.
share_step :
    (a n c : ℕ) → a < n → (c + 1 + n - 1 - a) / n ≡ (c + n - 1 - a) / n + one_if (c % n == a)
share_step a n c h =
    let pos : 0 < n = omega arith in
    let r = c % n in
    let whole = div-add-mod c n in
    let small : c % n < n = mod-lt c pos in
    let before : (c + n - 1 - a) / n ≡ c / n + (r + n - 1 - a) / n =
      ap (λ t. t / n) (omega (arith, whole)) ∙ mul-add-div pos (c / n) (r + n - 1 - a) in
    let behind : (c + 1 + n - 1 - a) / n ≡ c / n + (r + n - a) / n =
      ap (λ t. t / n) (omega (arith, whole)) ∙ mul-add-div pos (c / n) (r + n - a) in
    elim (compare_cases r a) [
      | inl (inl e) ↦ ground (
        arith,
        before,
        behind,
        div-eq_of_lt {n = r + n - 1 - a} {m = n} (omega arith),
        div_once n (r + n - a) (omega arith) (omega arith),
      )
      | inl (inr lt) ↦ ground (
        arith,
        before,
        behind,
        div-eq_of_lt {n = r + n - 1 - a} {m = n} (omega arith),
        div-eq_of_lt {n = r + n - a} {m = n} (omega arith),
      )
      | inr gt ↦ ground (
        arith,
        before,
        behind,
        div_once n (r + n - 1 - a) (omega arith) (omega arith),
        div_once n (r + n - a) (omega arith) (omega arith),
      )
    ]
  where
    compare_cases : (x y : ℕ) → ((x ≡ y) ⊎ (x < y)) ⊎ (y < x)
    compare_cases x y = elim (Bool-cases (x == y)) [
      | inl e ↦ inl (inl ((==_iff x y).0 e))
      | inr e ↦ elim (Bool-cases (ltb x y)) [
        | inl l ↦ inl (inr (ground arith))
        | inr l ↦ inr (ground arith)
      ]
    ]

-- Of `c` numbers, an agent has as many as the code computes for it.
pub share_size : (a n c : ℕ) → a < n → length (picked (λ i. i % n == a) 0 c) ≡ (c + n - 1 - a) / n
share_size a n zero h =
    unfold picked in (sym (div-eq_of_lt {n = 0 + n - 1 - a} {m = n} (omega arith)))
share_size a n (suc c) h =
    picked_last (λ i. i % n == a) 0 c
    ∙ ap (λ m. m + one_if ((0 + c) % n == a)) (share_size a n c h)
    ∙ ap (λ i. (c + n - 1 - a) / n + one_if (i % n == a)) (omega arith)
    ∙ sym (share_step a n c h)
    ∙ ap (λ t. t / n) (omega arith)
