-- ===== src/Values/Sizes.antt =====
-- src/size_generator.rs: which specifications are accepted, and the sizes they give.
use sai3_bench.Prelude.{ℕ, zero, suc, ◌≡◌, ◌≤◌, Option, none, some, ◌-◌, inr, unwrap_or, arith, u64}
use sai3_bench.Values.{
  SizeSpec, fixed, distribution, uniform, lognormal, Generator, always, uniform_between,
  lognormal_between, uniform_of, lognormal_of, new_with_seed, first_fit, max_attempts, generate,
}

-- The least and the greatest size of a specification.
abbrev pub least_size : SizeSpec → ℕ
least_size (fixed size) = size
least_size (distribution d) = elim d.dist_type [
  | uniform ↦ unwrap_or d.dist_min 1024
  | lognormal ↦ unwrap_or d.dist_min 1
]

abbrev pub greatest_size : SizeSpec → ℕ
greatest_size (fixed size) = size
greatest_size (distribution d) = elim d.dist_type [
  | uniform ↦ unwrap_or d.dist_max 1048576
  | lognormal ↦ unwrap_or d.dist_max (u64 - 1)
]

abbrev pub Within : ℕ → ℕ → ℕ → Type 0
Within lo hi size = (lo ≤ size) × (size ≤ hi)

first_fit-Within :
    (attempts lo hi : ℕ) (samples : ℕ → ℕ) (i : ℕ)
    → lo ≤ hi
    → Within lo hi (first_fit attempts lo hi samples i)
unfolding first_fit
first_fit-Within zero lo hi samples i h = (omega arith, omega arith)
first_fit-Within (suc attempts) lo hi samples i h =
    ground (arith, first_fit-Within attempts lo hi samples (suc i) h)

lognormal_of-Within :
    (m d : Option ℕ) (lo hi : ℕ) (draw : ℕ → ℕ → ℕ) (samples : ℕ → ℕ) (g : Generator)
    → lognormal_of m d lo hi ≡ inr g
    → Within lo hi (generate draw samples g)
unfolding generate
lognormal_of-Within none d lo hi draw samples g h = cc
lognormal_of-Within (some m) none lo hi draw samples g h = cc
lognormal_of-Within (some m) (some d) lo hi draw samples (always size) h = ground arith
lognormal_of-Within (some m) (some d) lo hi draw samples (uniform_between a b) h = ground arith
lognormal_of-Within (some m) (some d) lo hi draw samples (lognormal_between a b) h =
    ground (arith, first_fit-Within max_attempts lo hi samples 0)

uniform_of-Within :
    (lo hi : ℕ) (draw : ℕ → ℕ → ℕ) (samples : ℕ → ℕ) (g : Generator)
    → ((a b : ℕ) → a ≤ b → Within a b (draw a b))
    → uniform_of lo hi ≡ inr g
    → Within lo hi (generate draw samples g)
unfolding generate
uniform_of-Within lo hi draw samples (always size) drawn h = ground arith
uniform_of-Within lo hi draw samples (uniform_between a b) drawn h = ground (arith, drawn a b)
uniform_of-Within lo hi draw samples (lognormal_between a b) drawn h = ground arith

-- Where a sample of a uniform distribution lies between its bounds, an accepted specification only
-- gives sizes from its least to its greatest one, whatever the samples of the others are.
pub generate-Within :
    (spec : SizeSpec) (draw : ℕ → ℕ → ℕ) (samples : ℕ → ℕ) (g : Generator)
    → ((a b : ℕ) → a ≤ b → Within a b (draw a b))
    → new_with_seed spec ≡ inr g
    → Within (least_size spec) (greatest_size spec) (generate draw samples g)
unfolding new_with_seed generate
generate-Within (fixed size) draw samples (always s) drawn h = ground arith
generate-Within (fixed size) draw samples (uniform_between a b) drawn h = ground arith
generate-Within (fixed size) draw samples (lognormal_between a b) drawn h = ground arith
generate-Within (distribution d) draw samples g drawn h =
    elim d.dist_type
        as (λ t.
          new_with_seed (distribution (record d { dist_type = t })) ≡ inr g
          → Within (least_size (distribution (record d { dist_type = t })))
              (greatest_size (distribution (record d { dist_type = t })))
              (generate draw samples g)) [
                | uniform ↦ λ e.
                    uniform_of-Within (unwrap_or d.dist_min 1024) (unwrap_or d.dist_max 1048576)
                      draw samples g drawn e
                | lognormal ↦ λ e.
                    lognormal_of-Within d.mean d.std_dev (unwrap_or d.dist_min 1)
                      (unwrap_or d.dist_max (u64 - 1)) draw samples g e
              ]
      h
