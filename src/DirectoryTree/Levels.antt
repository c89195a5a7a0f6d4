-- ===== src/DirectoryTree/Levels.antt =====
-- The levels of a tree: how deep their paths are, and where the last level starts.
use mathlib.Core.List.{append-nil, append_assoc}
use sai3_bench.Prelude.{
  ℕ, zero, suc, ◌+◌, ◌^◌, ◌≤◌, ◌<◌, ◌≡◌, refl, ap, sym, ◌∙◌, some, ◌∷◌, ◌++◌, arith, length, All,
  All-append, length-append,
}
use sai3_bench.Prelude.Keys.{nat_key}
use sai3_bench.Prelude.Maps.{lookup}
use sai3_bench.Prelude.Text.{Text, count, count-append, count-decimal, count-replace_first}
use sai3_bench.DirectoryTree.{
  DirectoryStructureConfig, dir_name_of, local_width_of, parent_idx_of, paths_of_levels,
}
use sai3_bench.DirectoryTree.Manifest.{max_level, leaf_start}
use sai3_bench.DirectoryTree.Nodes.{path_at, level_spec, levels_spec}

module _ (config : DirectoryStructureConfig) where
  module _ (plain : count b'/' config.dir_mask ≡ 0) where
    count-dir_name : (depth w : ℕ) → count b'/' (dir_name_of config depth w) ≡ 0
    unfolding dir_name_of
    count-dir_name depth w =
        count-replace_first b'/' b'%' b'd' _ _ (count-decimal b'/' w (omega arith)) (
          count-replace_first b'/' b'%' b'd' _ config.dir_mask
            (count-decimal b'/' depth (omega arith)) plain)

    -- A path has as many slashes as it has parents.
    pub count-path_at : (d idx : ℕ) → count b'/' (path_at config d idx) ≡ d
    unfolding path_at count
    count-path_at zero idx = count-dir_name 1 (local_width_of config idx)
    count-path_at (suc d) idx = omega (
      arith,
      count-append b'/' (path_at config d (parent_idx_of config idx))
          (b'/' ∷ dir_name_of config (suc (suc d)) (local_width_of config idx)),
      count-path_at d (parent_idx_of config idx),
      count-dir_name (suc (suc d)) (local_width_of config idx),
    )

    pub All-level_spec :
        (P : Text → Type 0) (d idx n : ℕ)
        → ((p : Text) → count b'/' p ≡ d → P p)
        → All P (level_spec config d idx n)
    unfolding level_spec
    All-level_spec P d idx zero h = tt
    All-level_spec P d idx (suc n) h = (h _ (count-path_at d idx), All-level_spec P d (idx + 1) n h)

  -- The levels from depth `d + 1` to `d + n`, with one more at the end.
  pub levels_spec-last :
      (d n m : ℕ)
      → d + n ≡ m
      → paths_of_levels (levels_spec config d (suc n))
        ≡ paths_of_levels (levels_spec config d n) ++ level_spec config m 1 (config.width ^ suc m)
  unfolding paths_of_levels levels_spec
  levels_spec-last d zero m e =
      let e' : m ≡ d = omega arith in
      rw e' (append-nil (level_spec config d 1 (config.width ^ suc d)))
  levels_spec-last d (suc n) m e =
      ap (λ r. level_spec config d 1 (config.width ^ suc d) ++ r)
        (levels_spec-last (suc d) n m (omega arith))
      ∙ sym (
          append_assoc (level_spec config d 1 (config.width ^ suc d))
            (paths_of_levels (levels_spec config (suc d) n))
            (level_spec config m 1 (config.width ^ suc m)))

  pub max_level-levels_spec :
      (d n : ℕ) → max_level (levels_spec config d (suc n)) ≡ some (d + suc n)
  unfolding max_level levels_spec
  max_level-levels_spec d zero = ap some (omega arith)
  max_level-levels_spec d (suc n) =
      rw (max_level-levels_spec (suc d) n, max_level) (ap some (omega arith))

  pub lookup-levels_spec :
      (d n k j : ℕ)
      → k < n
      → j ≡ d + k
      → lookup (suc j) (levels_spec config d n)
        ≡ some (level_spec config j 1 (config.width ^ suc j))
  unfolding lookup levels_spec
  lookup-levels_spec d zero k j h e = elim h [ ]
  lookup-levels_spec d (suc n) zero j h e = ground arith
  lookup-levels_spec d (suc n) (suc k) j h e = ground (arith, lookup-levels_spec (suc d) n k j)

  pub leaf_start-levels_spec :
      (d n total : ℕ)
      → d + n ≤ total
      → leaf_start (levels_spec config 0 total) (suc d) n
        ≡ length (paths_of_levels (levels_spec config d n))
  unfolding leaf_start levels_spec paths_of_levels
  leaf_start-levels_spec d zero total h = refl
  leaf_start-levels_spec d (suc n) total h = ground (
    arith,
    lookup-levels_spec 0 total d d (omega arith) (omega arith),
    leaf_start-levels_spec (suc d) n total (omega arith),
    length-append (level_spec config d 1 (config.width ^ suc d))
        (paths_of_levels (levels_spec config (suc d) n)),
  )

  -- No directory above depth `m + 1` has `m` slashes.
  pub All-levels_spec :
      (plain : count b'/' config.dir_mask ≡ 0) (P : Text → Type 0) (d n m : ℕ)
      → d + n ≤ m
      → ((p : Text) → count b'/' p < m → P p)
      → All P (paths_of_levels (levels_spec config d n))
  unfolding levels_spec paths_of_levels
  All-levels_spec plain P d zero m h f = tt
  All-levels_spec plain P d (suc n) m h f =
      All-append P (level_spec config d 1 (config.width ^ suc d))
        (paths_of_levels (levels_spec config (suc d) n))
        (All-level_spec plain P d 1 (config.width ^ suc d) (λ p e. f p (omega arith)))
        (All-levels_spec plain P (suc d) n m (omega arith) f)
