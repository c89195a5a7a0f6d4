-- ===== src/DirectoryTree/Counts.antt =====
-- What `DirectoryTree::new` returns, errors included.
use sai3_bench.Prelude.{
  ℕ, ◌*◌, ◌^◌, ◌≡◌, List, [], Option, none, some, arith, leb, u64, ◌==◌, if◌then◌else◌, length,
}
use sai3_bench.DirectoryTree.{
  DirectoryStructureConfig, Entry, DirectoryTree, Distribution, bottom, all, other, Result, ok, err,
  zero_width, zero_depth, invalid_distribution, paths_of_levels, total_files_of, generate, new,
}
use sai3_bench.DirectoryTree.Nodes.{levels_spec, generate_levels-eq, length-levels_spec}

-- The tree that the direct recursion describes, with the map of nodes beside it.
abbrev pub tree_spec : DirectoryStructureConfig → List Entry → ℕ → DirectoryTree
tree_spec config directories total_files = record {
  config = config;
  directories = directories;
  all_paths = paths_of_levels (levels_spec config 0 config.depth);
  by_level = levels_spec config 0 config.depth;
  total_directories = length (paths_of_levels (levels_spec config 0 config.depth));
  total_files = total_files;
}

-- The tree for a distribution; `none` where its number of files is 2^64 or more.
abbrev pub outcome :
    DirectoryStructureConfig → List Entry → Distribution → Option (Result DirectoryTree)
outcome config directories bottom =
    let files = config.width ^ config.depth * config.files_per_dir in
    if leb u64 files then none else some (ok (tree_spec config directories files))
outcome config directories all =
    let files =
      length (paths_of_levels (levels_spec config 0 config.depth)) * config.files_per_dir in
    if leb u64 files then none else some (ok (tree_spec config directories files))
outcome config directories other = some (err invalid_distribution)

generate-eq :
    (config : DirectoryStructureConfig)
    → (directories : List Entry) × (generate config ≡ (
        if leb u64 (length (paths_of_levels (levels_spec config 0 config.depth)))
        then none
        else outcome config directories config.distribution))
unfolding generate total_files_of
generate-eq config =
    let (directories, e, _) = generate_levels-eq config 0 config.depth [] tt in
    (directories, ground (arith, e, length-levels_spec config 0 config.depth))

-- With a width and a depth of at least one, a known distribution, and fewer than 2^64 directories and
-- files, the generator gives the tree of the direct recursion: the same paths in the same order,
-- level by level, and counts that are the numbers of paths and files. With a width or a depth of zero
-- it gives the error for that; else with 2^64 directories or more, or with a known distribution and
-- 2^64 files or more, it overflows; else it gives the error for the distribution.
pub new-outcome :
    (config : DirectoryStructureConfig)
    → (directories : List Entry) × (new config ≡ (
        if config.width == 0
        then some (err zero_width)
        else if config.depth == 0
        then some (err zero_depth)
        else if leb u64 (length (paths_of_levels (levels_spec config 0 config.depth)))
        then none
        else outcome config directories config.distribution))
unfolding new
new-outcome config = let (directories, e) = generate-eq config in (directories, ground (arith, e))
