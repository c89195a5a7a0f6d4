-- ===== src/DirectoryTree/Tests.antt =====
-- Witnesses on a small tree.
use sai3_bench.Prelude.{
  ◌<◌, ◌/◌, ◌*◌, ◌^◌, ◌≡◌, refl, none, some, List, length, leb, u64, ◌==◌, if◌then◌else◌, arith,
}
use sai3_bench.Prelude.Keys.{nat_key}
use sai3_bench.Prelude.Text.{codes, count, decimal, replace_first}
use sai3_bench.DirectoryTree.{
  bottom, DirectoryStructureConfig, DirectoryTree, Entry, zero_width, zero_depth, err, new,
  fill_mask, paths_of_levels, dir_name_of, local_width_of, parent_idx_of,
}
use sai3_bench.DirectoryTree.Manifest.{
  compute_file_ranges, should_have_files, ranges_from, max_level, from_tree,
}
use sai3_bench.DirectoryTree.Nodes.{level_spec, levels_spec, path_at}
use sai3_bench.Prelude.Maps.{insert, lookup}
use sai3_bench.DirectoryTree.Counts.{tree_spec, outcome, new-outcome}
use sai3_bench.DirectoryTree.Lookup.{Holds}
use sai3_bench.DirectoryTree.Files.{file_lookup}
use sai3_bench.DirectoryTree.Breadth.{breadths, new-breadths}

abbrev config : DirectoryStructureConfig
config = record {
  width = 2;
  depth = 2;
  files_per_dir = 3;
  distribution = bottom;
  dir_mask = codes "d%d_w%d.dir";
}

new-outcome_example :
    (directories : List Entry) × (new config ≡ (
      if config.width == 0
      then some (err zero_width)
      else if config.depth == 0
      then some (err zero_depth)
      else if leb u64 (length (paths_of_levels (levels_spec config 0 config.depth)))
      then none
      else outcome config directories config.distribution))
new-outcome_example = new-outcome config

-- The tree that the configuration gives.
abbrev tree : DirectoryTree
tree = tree_spec config (new-outcome config).0 (config.width ^ config.depth * config.files_per_dir)

twelve : (from_tree tree).total_files ≡ 12
unfolding from_tree compute_file_ranges should_have_files ranges_from max_level count level_spec
    levels_spec path_at paths_of_levels insert lookup fill_mask replace_first decimal dir_name_of
    local_width_of parent_idx_of
twelve = refl

seven_below : 7 < (from_tree tree).total_files
seven_below = omega (arith, twelve)

file_lookup_example : Holds (from_tree tree) 7 (7 / (from_tree tree).files_per_dir)
unfolding paths_of_levels levels_spec level_spec
file_lookup_example =
    file_lookup config tree (new-outcome config).1 (unfold count in refl) 7 seven_below

new-breadths_example :
    (tree.by_level ≡ breadths config 0 config.depth)
    × (tree.all_paths ≡ paths_of_levels (breadths config 0 config.depth))
unfolding paths_of_levels levels_spec level_spec
new-breadths_example = new-breadths config tree (new-outcome config).1

three_agents : 0 < 3
three_agents = omega arith
