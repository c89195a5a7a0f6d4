-- ===== src/DirectoryTree/Breadth.antt =====
-- The levels of the generated tree by breadth: each level is the children of the one before it.
use native.Mathlib.Nat.{mod-eq_of_lt, pow-suc, pow-zero}
use sai3_bench.Prelude.{
  ℕ, zero, suc, ◌+◌, ◌-◌, ◌*◌, ◌/◌, ◌%◌, ◌^◌, ◌≤◌, ◌<◌, ◌≡◌, refl, ap, subst, ◌∙◌, some, List, [],
  ◌∷◌, ◌++◌, arith,
}
use sai3_bench.Prelude.Text.{Text}
use sai3_bench.DirectoryTree.{
  DirectoryStructureConfig, DirectoryTree, ok, dir_name_of, local_width_of, parent_idx_of,
  paths_of_levels, new,
}
use sai3_bench.DirectoryTree.Nodes.{path_at, level_spec, levels_spec}
use sai3_bench.DirectoryTree.Files.{generated}

module _ (config : DirectoryStructureConfig) where
  -- The names at a depth, from number `j` on, `n` of them.
  abbrev pub names_from : ℕ → ℕ → ℕ → List Text
  names_from depth j zero = []
  names_from depth j (suc n) = dir_name_of config depth j ∷ names_from depth (j + 1) n

  abbrev pub below : Text → List Text → List Text
  below parent [] = []
  below parent (name ∷ names) = (parent ++ b'/' ∷ name) ∷ below parent names

  -- Under each parent a directory of every name of the depth.
  abbrev pub children : ℕ → List Text → List Text
  children depth [] = []
  children depth (parent ∷ parents) =
      below parent (names_from depth 1 config.width) ++ children depth parents

  -- The level at depth `d + 1`.
  abbrev pub breadth : ℕ → List Text
  breadth zero = names_from 1 1 config.width
  breadth (suc d) = children (suc (suc d)) (breadth d)

  abbrev pub breadths : ℕ → ℕ → List (ℕ × List Text)
  breadths d zero = []
  breadths d (suc n) = (suc d, breadth d) ∷ breadths (suc d) n

  module _ (wide : 0 < config.width) where
    quotient : (q j : ℕ) → j < config.width → (q * config.width + j) / config.width ≡ q
    quotient q j h = grind arith

    remainder : (q j : ℕ) → j < config.width → (q * config.width + j) % config.width ≡ j
    remainder q j h = grind arith

    step :
        (d q j : ℕ)
        → j < config.width
        → path_at config (suc d) (q * config.width + j + 1)
          ≡ path_at config d (q + 1) ++ b'/' ∷ dir_name_of config (suc (suc d)) (j + 1)
    unfolding path_at local_width_of parent_idx_of
    step d q j h =
        let at : q * config.width + j + 1 - 1 ≡ q * config.width + j = omega arith in
        rw (at, quotient q j h, remainder q j h) refl

    one_parent :
        (d q j n : ℕ)
        → j + n ≤ config.width
        → level_spec config (suc d) (q * config.width + j + 1) n
          ≡ below (path_at config d (q + 1)) (names_from (suc (suc d)) (j + 1) n)
    unfolding level_spec
    one_parent d q j zero h = refl
    one_parent d q j (suc n) h =
        let next : q * config.width + j + 1 + 1 ≡ q * config.width + (j + 1) + 1 = omega arith in
        rw (step d q j (omega arith), next, one_parent d q (j + 1) n (omega arith)) refl

    level_spec-append :
        (d idx n k : ℕ)
        → level_spec config d idx (n + k)
          ≡ level_spec config d idx n ++ level_spec config d (idx + n) k
    unfolding level_spec
    level_spec-append d idx zero k =
        let same : idx + 0 ≡ idx = omega arith in
        let none_left : 0 + k ≡ k = omega arith in rw (same, none_left) refl
    level_spec-append d idx (suc n) k =
        let more : suc n + k ≡ suc (n + k) = omega arith in
        let shift : idx + suc n ≡ idx + 1 + n = omega arith in
        rw (more, shift, level_spec, level_spec-append d (idx + 1) n k) refl

    level_spec-children :
        (d q n : ℕ)
        → level_spec config (suc d) (q * config.width + 1) (n * config.width)
          ≡ children (suc (suc d)) (level_spec config d (q + 1) n)
    unfolding level_spec
    level_spec-children d q zero =
        let none_left : 0 * config.width ≡ 0 = omega arith in rw none_left refl
    level_spec-children d q (suc n) =
        let split : suc n * config.width ≡ config.width + n * config.width = grind arith in
        let from : q * config.width + 1 + config.width ≡ (q + 1) * config.width + 1 = grind arith in
        let start : q * config.width + 0 + 1 ≡ q * config.width + 1 = omega arith in
        let first = one_parent d q 0 config.width (omega arith) in
        let first' =
          subst
            (λ i.
              level_spec config (suc d) i config.width
              ≡ below (path_at config d (q + 1)) (names_from (suc (suc d)) 1 config.width))
            start first in
        rw
          (
            split,
            level_spec-append (suc d) (q * config.width + 1) config.width (n * config.width),
            from,
            first',
            level_spec-children d (q + 1) n,
          )
          refl

    first_level :
        (j n : ℕ) → j + n ≤ config.width → level_spec config 0 (j + 1) n ≡ names_from 1 (j + 1) n
    unfolding level_spec path_at local_width_of
    first_level j zero h = refl
    first_level j (suc n) h =
        let back : j + 1 - 1 ≡ j = omega arith in
        let small : j % config.width ≡ j = mod-eq_of_lt (omega arith) in
        rw (back, small, first_level (j + 1) n (omega arith)) refl

    level_spec-breadth : (d : ℕ) → level_spec config d 1 (config.width ^ suc d) ≡ breadth d
    level_spec-breadth zero =
        let once : config.width ^ 1 ≡ config.width =
          grind (arith, pow-suc config.width 0, pow-zero config.width) in
        rw once (first_level 0 config.width (omega arith))
    level_spec-breadth (suc d) =
        let power : config.width ^ suc (suc d) ≡ config.width ^ suc d * config.width =
          pow-suc config.width (suc d) in
        let from : 0 * config.width + 1 ≡ 1 = omega arith in
        rw power (
          subst
            (λ i.
              level_spec config (suc d) i (config.width ^ suc d * config.width)
              ≡ children (suc (suc d)) (level_spec config d 1 (config.width ^ suc d)))
            from (level_spec-children d 0 (config.width ^ suc d))
          ∙ ap (children (suc (suc d))) (level_spec-breadth d))

    levels_spec-breadths : (d n : ℕ) → levels_spec config d n ≡ breadths d n
    unfolding levels_spec
    levels_spec-breadths d zero = refl
    levels_spec-breadths d (suc n) = rw (level_spec-breadth d, levels_spec-breadths (suc d) n) refl

-- In a generated tree the first level has every name of depth 1, numbered from 1 to the width; each
-- further level has, under each directory of the level before it and in the order of these, every
-- name of its depth; and the list of all paths is the levels one after the other.
pub new-breadths :
    (config : DirectoryStructureConfig) (tree : DirectoryTree)
    → new config ≡ some (ok tree)
    → (tree.by_level ≡ breadths config 0 config.depth)
      × (tree.all_paths ≡ paths_of_levels (breadths config 0 config.depth))
unfolding new
new-breadths config tree h =
    let (directories, deep, known, e) = generated config tree h in
    let levels = levels_spec-breadths config (ground (arith, h)) 0 config.depth in
    (ap (λ t. t.by_level) e ∙ levels, ap (λ t. t.all_paths) e ∙ ap paths_of_levels levels)
