-- ===== src/DirectoryTree.antt =====
-- src/directory_tree.rs: `DirectoryTree`, the directories of a width/depth tree. Paths are texts
-- with `/` between the names. The distribution strategy, a string in the source, is one of its two
-- values or any other. `usize` has 64 bits; an overflow is the panic of a build that checks for it.
-- Progress reports are left out.
pub mod Nodes
pub mod Manifest
pub mod Counts
pub mod Levels
pub mod Ranges
pub mod Lookup
pub mod Names
pub mod Files
pub mod Agents
pub mod Breadth
mod Tests
use sai3_bench.Prelude.{
  ℕ, zero, suc, ◌+◌, ◌-◌, ◌*◌, ◌/◌, ◌%◌, ◌^◌, Bool, true, false, Option, none, some, List, [], ◌∷◌,
  ◌++◌, ◌==◌, ◌&&◌, if◌then◌else◌, leb, u64,
}
use sai3_bench.Prelude.Text.{Text, decimal, replace_first}

pub data Distribution : Type 0 where
  bottom all other : Distribution

pub record DirectoryStructureConfig : Type 0 where
  pub width : ℕ
  pub depth : ℕ
  pub files_per_dir : ℕ
  pub distribution : Distribution
  pub dir_mask : Text

pub record DirectoryNode : Type 0 where
  pub depth : ℕ
  pub width : ℕ
  pub full_path : Text
  pub dir_name : Text
  pub has_files : Bool

-- The map from "depth_width" keys to nodes.
pub record Entry : Type 0 where
  pub key_depth : ℕ
  pub key_width : ℕ
  pub node : DirectoryNode

pub record DirectoryTree : Type 0 where
  pub config : DirectoryStructureConfig
  pub directories : List Entry
  pub all_paths : List Text
  pub by_level : List (ℕ × List Text)
  pub total_directories : ℕ
  pub total_files : ℕ

pub data TreeError : Type 0 where
  zero_width zero_depth invalid_distribution : TreeError

pub data Result {ℓ} (A : Type ℓ) : Type ℓ where
  ok : A → Result A
  err : TreeError → Result A

-- The first "%d" replaced by a number.
fill_mask : ℕ → Text → Text
fill_mask n mask = replace_first b'%' b'd' (decimal n) mask

pub dir_name_of : DirectoryStructureConfig → ℕ → ℕ → Text
unfolding fill_mask
dir_name_of config depth local_width = fill_mask local_width (fill_mask depth config.dir_mask)

pub find_node : ℕ → ℕ → List Entry → Option DirectoryNode
find_node d w [] = none
find_node d w (entry ∷ rest) =
    if entry.key_depth == d && entry.key_width == w then some entry.node else find_node d w rest

pub has_files_at : DirectoryStructureConfig → ℕ → Bool
has_files_at config depth = elim config.distribution [
  | bottom ↦ depth == config.depth
  | all ↦ true
  | other ↦ false
]

pub local_width_of : DirectoryStructureConfig → ℕ → ℕ
local_width_of config global_width_idx = (global_width_idx - 1) % config.width + 1

pub parent_idx_of : DirectoryStructureConfig → ℕ → ℕ
parent_idx_of config global_width_idx = (global_width_idx - 1) / config.width + 1

abbrev node_at : DirectoryStructureConfig → ℕ → ℕ → Text → DirectoryNode
node_at config depth global_width_idx full_path = record {
  depth = depth;
  width = local_width_of config global_width_idx;
  full_path = full_path;
  dir_name = dir_name_of config depth (local_width_of config global_width_idx);
  has_files = has_files_at config depth;
}

-- Depth 0, at which the source's `depth - 1` overflows, is never asked for.
pub create_node : DirectoryStructureConfig → List Entry → ℕ → ℕ → Option DirectoryNode
create_node config directories zero idx = none
create_node config directories (suc zero) idx =
    some (node_at config 1 idx (dir_name_of config 1 (local_width_of config idx)))
create_node config directories (suc (suc d)) idx =
    let name = dir_name_of config (suc (suc d)) (local_width_of config idx) in
    let parent_idx = parent_idx_of config idx in
    let below = λ (parent : DirectoryNode).
      node_at config (suc (suc d)) idx (parent.full_path ++ b'/' ∷ name) in
    let rebuilt = create_node config directories (suc d) parent_idx in
    elim (find_node (suc d) parent_idx directories) [
      | some parent ↦ some (below parent)
      | none ↦ elim rebuilt [ none ↦ none | some parent ↦ some (below parent) ]
    ]

-- The directories of one level from index `idx` on, `n` of them, with the map as it grows.
pub generate_level :
    DirectoryStructureConfig → ℕ → ℕ → ℕ → List Entry → Option (List Text × List Entry)
generate_level config level idx zero directories = some ([], directories)
generate_level config level idx (suc n) directories =
    elim (create_node config directories level idx) [
      | none ↦ none
      | some node ↦
          elim (generate_level config level (idx + 1) n
            (record { key_depth = level; key_width = idx; node = node } ∷ directories)) [
              | none ↦ none
              | some (paths, directories') ↦ some (node.full_path ∷ paths, directories')
            ]
    ]

pub generate_levels :
    DirectoryStructureConfig → ℕ → ℕ → List Entry → Option (List (ℕ × List Text) × List Entry)
generate_levels config level zero directories = some ([], directories)
generate_levels config level (suc n) directories =
    elim (generate_level config level 1 (config.width ^ level) directories) [
      | none ↦ none
      | some (paths, directories') ↦ elim (generate_levels config (level + 1) n directories') [
        | none ↦ none
        | some (levels, directories'') ↦ some ((level, paths) ∷ levels, directories'')
      ]
    ]

-- width^1 + … + width^depth, from `level` on.
pub count_directories : ℕ → ℕ → ℕ → ℕ
count_directories width level zero = 0
count_directories width level (suc n) = width ^ level + count_directories width (level + 1) n

pub paths_of_levels : List (ℕ × List Text) → List Text
paths_of_levels [] = []
paths_of_levels ((level, paths) ∷ rest) = paths ++ paths_of_levels rest

total_files_of : DirectoryStructureConfig → ℕ → Result ℕ
total_files_of config total_directories = elim config.distribution [
  | bottom ↦ ok (config.width ^ config.depth * config.files_per_dir)
  | all ↦ ok (total_directories * config.files_per_dir)
  | other ↦ err invalid_distribution
]

-- `none` where a number of 64 bits overflows.
abbrev pub fits : ℕ → Result DirectoryTree → Option (Result DirectoryTree)
fits n result = if leb u64 n then none else some result

-- The outer `none` is an overflow.
generate : DirectoryStructureConfig → Option (Result DirectoryTree)
unfolding total_files_of
generate config =
    let total_directories = count_directories config.width 1 config.depth in
    if leb u64 total_directories then none else elim (generate_levels config 1 config.depth []) [
      | none ↦ none
      | some (levels, directories) ↦ elim (total_files_of config total_directories) [
        | err e ↦ some (err e)
        | ok total_files ↦ fits total_files (
            ok (record {
              config = config;
              directories = directories;
              all_paths = paths_of_levels levels;
              by_level = levels;
              total_directories = total_directories;
              total_files = total_files;
            }))
      ]
    ]

pub new : DirectoryStructureConfig → Option (Result DirectoryTree)
unfolding generate
new config =
    if config.width == 0
    then some (err zero_width)
    else if config.depth == 0
    then some (err zero_depth)
    else generate config
