-- ===== src/DirectoryTree/Nodes.antt =====
-- The paths of the tree by a direct recursion, and that the generator, which looks parents up in
-- the map of what it has generated, computes these.
use sai3_bench.Prelude.{
  ℕ, zero, suc, ◌+◌, ◌^◌, ◌≡◌, refl, ap, inl, inr, some, List, [], ◌∷◌, ◌++◌, arith, Option-cases,
  length, All, length-append,
}
use sai3_bench.Prelude.Text.{Text}
use sai3_bench.DirectoryTree.{
  DirectoryStructureConfig, DirectoryNode, Entry, dir_name_of, find_node, local_width_of,
  parent_idx_of, node_at, create_node, generate_level, generate_levels, count_directories,
  paths_of_levels,
}

module _ (config : DirectoryStructureConfig) where
  -- The path of directory `idx` at depth `d + 1`.
  unfoldable pub path_at : ℕ → ℕ → Text
  path_at zero idx = dir_name_of config 1 (local_width_of config idx)
  path_at (suc d) idx =
      path_at d (parent_idx_of config idx)
      ++ b'/' ∷ dir_name_of config (suc (suc d)) (local_width_of config idx)

  abbrev pub node_spec : ℕ → ℕ → DirectoryNode
  node_spec d idx = node_at config (suc d) idx (path_at d idx)

  unfoldable pub level_spec : ℕ → ℕ → ℕ → List Text
  level_spec d idx zero = []
  level_spec d idx (suc n) = path_at d idx ∷ level_spec d (idx + 1) n

  unfoldable pub levels_spec : ℕ → ℕ → List (ℕ × List Text)
  levels_spec d zero = []
  levels_spec d (suc n) = (suc d, level_spec d 1 (config.width ^ suc d)) ∷ levels_spec (suc d) n

  -- Every entry of the map holds the node that the direct recursion gives for its key.
  abbrev IsSoundEntry : Entry → Type 0
  IsSoundEntry entry =
      (d : ℕ) × (entry.key_depth ≡ suc d) × (entry.node ≡ node_spec d entry.key_width)

  abbrev pub IsSound : List Entry → Type 0
  IsSound = All IsSoundEntry

  find_node-IsSound :
      (d w : ℕ) (node : DirectoryNode) (entries : List Entry)
      → IsSound entries
      → find_node (suc d) w entries ≡ some node
      → node ≡ node_spec d w
  unfolding find_node
  find_node-IsSound d w node [] v h = cc
  find_node-IsSound d w node (entry ∷ rest) v h =
      ground (arith, v.0.1, v.0.2, find_node-IsSound d w node rest v.1)

  pub create_node-eq :
      (d idx : ℕ) (entries : List Entry)
      → IsSound entries
      → create_node config entries (suc d) idx ≡ some (node_spec d idx)
  unfolding create_node path_at
  create_node-eq zero idx entries v = refl
  create_node-eq (suc d) idx entries v =
      elim (Option-cases (find_node (suc d) (parent_idx_of config idx) entries)) [
        | inl e ↦
            rw (e, create_node) (rw (create_node-eq d (parent_idx_of config idx) entries v) refl)
        | inr (parent, e) ↦
            rw (e, create_node)
              (rw (find_node-IsSound d (parent_idx_of config idx) parent entries v e) refl)
      ]

  pub generate_level-eq :
      (d idx n : ℕ) (entries : List Entry)
      → IsSound entries
      → (entries' : List Entry) × (generate_level config (suc d) idx n entries
          ≡ some (level_spec d idx n, entries'))
        × IsSound entries'
  unfolding generate_level level_spec
  generate_level-eq d idx zero entries v = (entries, refl, v)
  generate_level-eq d idx (suc n) entries v =
      let (entries', e, v') =
        generate_level-eq d (idx + 1) n
          (record { key_depth = suc d; key_width = idx; node = node_spec d idx } ∷ entries)
          ((d, refl, refl), v) in
      (
        entries',
        rw (create_node-eq d idx entries v, generate_level) (rw (e, generate_level) refl),
        v',
      )

  pub generate_levels-eq :
      (d n : ℕ) (entries : List Entry)
      → IsSound entries
      → (entries' : List Entry) × (generate_levels config (suc d) n entries
          ≡ some (levels_spec d n, entries'))
        × IsSound entries'
  unfolding generate_levels levels_spec
  generate_levels-eq d zero entries v = (entries, refl, v)
  generate_levels-eq d (suc n) entries v =
      let (entries', e, v') = generate_level-eq d 1 (config.width ^ suc d) entries v in
      let (entries'', e', v'') = generate_levels-eq (suc d) n entries' v' in
      (entries'', rw (e, generate_levels) (rw (step d, e', generate_levels) refl), v'')
    where
      step : (d : ℕ) → suc d + 1 ≡ suc (suc d)
      step d = omega arith

  pub length-level_spec : (d idx n : ℕ) → length (level_spec d idx n) ≡ n
  unfolding level_spec
  length-level_spec d idx zero = refl
  length-level_spec d idx (suc n) = ap suc (length-level_spec d (idx + 1) n)

  pub length-levels_spec :
      (d n : ℕ)
      → length (paths_of_levels (levels_spec d n)) ≡ count_directories config.width (suc d) n
  unfolding levels_spec paths_of_levels count_directories
  length-levels_spec d zero = refl
  length-levels_spec d (suc n) = ground (
    arith,
    length-append (level_spec d 1 (config.width ^ suc d)) (paths_of_levels (levels_spec (suc d) n)),
    length-level_spec d 1 (config.width ^ suc d),
    length-levels_spec (suc d) n,
  )
