-- ===== src/DirectoryTree/Manifest.antt =====
-- src/directory_tree.rs: `TreeManifest`, the shared map of directories and files. The hash of the
-- configuration and the JSON form are left out.
use mathlib.Core.List.{filter_map}
use sai3_bench.Prelude.{
  ℕ, zero, suc, ◌+◌, ◌-◌, ◌&&◌, ◌/◌, ◌%◌, max, Bool, true, false, Option, none, some, List, [], ◌∷◌,
  ◌++◌, leb, ltb, ◌==◌, ◌||◌, if◌then◌else◌, length, get_elem?,
}
use sai3_bench.Prelude.Keys.{nat_key}
use sai3_bench.Prelude.Maps.{lookup, insert}
use sai3_bench.Prelude.Text.{Text, codes, count, decimal_8}
use sai3_bench.DirectoryTree.{Distribution, bottom, all, other, DirectoryTree}

pub record FileRange : Type 0 where
  pub dir_path : Text
  pub start_idx : ℕ
  pub end_idx : ℕ

pub record TreeManifest : Type 0 where
  pub all_directories : List Text
  pub by_level : List (ℕ × List Text)
  pub agent_assignments : List (ℕ × List Text)
  pub total_dirs : ℕ
  pub total_files : ℕ
  pub files_per_dir : ℕ
  pub distribution : Distribution
  pub file_ranges : List FileRange
  pub max_depth : ℕ
  pub leaf_start_index : ℕ

-- by_level.keys().max()
unfoldable pub max_level : List (ℕ × List Text) → Option ℕ
max_level [] = none
max_level ((level, paths) ∷ rest) = elim (max_level rest) [
  | none ↦ some level
  | some m ↦ some (max level m)
]

-- The depth of a path is one more than its slashes.
unfoldable pub should_have_files : Distribution → ℕ → Text → Bool
should_have_files bottom max_depth dir_path = count b'/' dir_path + 1 == max_depth
should_have_files all max_depth dir_path = true
should_have_files other max_depth dir_path = false

unfoldable pub ranges_from : ℕ → (Text → Bool) → ℕ → List Text → List FileRange × ℕ
ranges_from files_per_dir wanted global_idx [] = ([], global_idx)
ranges_from files_per_dir wanted global_idx (dir_path ∷ rest) =
    elim (wanted dir_path && ltb 0 files_per_dir) [
      | true ↦
          let (ranges, last) = ranges_from files_per_dir wanted (global_idx + files_per_dir) rest in
          (
            record {
              dir_path = dir_path;
              start_idx = global_idx;
              end_idx = global_idx + files_per_dir;
            }
                ∷ ranges,
            last,
          )
      | false ↦ ranges_from files_per_dir wanted global_idx rest
    ]

unfoldable pub compute_file_ranges : TreeManifest → TreeManifest
unfolding max_level should_have_files ranges_from
compute_file_ranges m = elim (max_level m.by_level) [
  | none ↦ record m { file_ranges = [] }
  | some max_depth ↦
      let (ranges, last) =
        ranges_from m.files_per_dir (should_have_files m.distribution max_depth) 0
          m.all_directories in
      record m { file_ranges = ranges; total_files = last }
]

-- The directories of the levels from `level` on, `n` of them.
unfoldable pub leaf_start : List (ℕ × List Text) → ℕ → ℕ → ℕ
leaf_start by_level level zero = 0
leaf_start by_level level (suc n) =
    elim (lookup level by_level) [ none ↦ 0 | some paths ↦ length paths ]
    + leaf_start by_level (level + 1) n

unfoldable pub from_tree : DirectoryTree → TreeManifest
unfolding leaf_start compute_file_ranges
from_tree tree =
    let m = compute_file_ranges (record {
      all_directories = tree.all_paths;
      by_level = tree.by_level;
      agent_assignments = [];
      total_dirs = tree.total_directories;
      total_files = tree.total_files;
      files_per_dir = tree.config.files_per_dir;
      distribution = tree.config.distribution;
      file_ranges = [];
      max_depth = 0;
      leaf_start_index = 0;
    }) in
    let max_depth : ℕ = elim (max_level m.by_level) [ none ↦ 0 | some d ↦ d ] in
    record m { max_depth = max_depth; leaf_start_index = leaf_start m.by_level 1 (max_depth - 1) }

unfoldable pub get_file_name : ℕ → Text
get_file_name global_idx = codes "file_" ++ decimal_8 global_idx ++ codes ".dat"

unfoldable pub join_path : Text → Text → Text
join_path dir_path file_name = dir_path ++ b'/' ∷ file_name

pub dir_index_of : TreeManifest → ℕ → Option ℕ
dir_index_of m global_idx = elim m.distribution [
  | bottom ↦ some (m.leaf_start_index + global_idx / m.files_per_dir)
  | all ↦ some (global_idx / m.files_per_dir)
  | other ↦ none
]

unfoldable pub get_file_path : TreeManifest → ℕ → Option Text
unfolding dir_index_of
get_file_path m global_idx =
    if m.files_per_dir == 0 || leb m.total_files global_idx
    then none
    else elim (dir_index_of m global_idx) [
      | none ↦ none
      | some dir_index ↦ elim (get_elem? m.all_directories dir_index) [
        | none ↦ none
        | some dir_path ↦ some (join_path dir_path (get_file_name global_idx))
      ]
    ]

unfoldable pub push_to : ℕ → Text → List (ℕ × List Text) → List (ℕ × List Text)
push_to agent_id path assignments =
    insert agent_id
      (elim (lookup agent_id assignments) [ none ↦ path ∷ [] | some old ↦ old ++ path ∷ [] ])
      assignments

unfoldable pub assign_from : ℕ → ℕ → List Text → List (ℕ × List Text) → List (ℕ × List Text)
unfolding push_to
assign_from num_agents idx [] assignments = assignments
assign_from num_agents idx (path ∷ rest) assignments =
    assign_from num_agents (idx + 1) rest (push_to (idx % num_agents) path assignments)

unfoldable pub assign_agents : ℕ → TreeManifest → TreeManifest
unfolding assign_from
assign_agents num_agents m =
    if num_agents == 0
    then m
    else record m { agent_assignments = assign_from num_agents 0 m.all_directories [] }

unfoldable pub get_agent_dirs : TreeManifest → ℕ → List Text
get_agent_dirs m agent_id = elim (lookup agent_id m.agent_assignments) [
  | none ↦ []
  | some dirs ↦ dirs
]

unfoldable pub should_agent_handle_file : ℕ → ℕ → ℕ → Bool
should_agent_handle_file global_file_idx agent_id num_agents =
    if leb num_agents 1 then true else global_file_idx % num_agents == agent_id

-- (from..from + n).filter(..)
unfoldable pub indices_from : (ℕ → Bool) → ℕ → ℕ → List ℕ
indices_from wanted from zero = []
indices_from wanted from (suc n) =
    let rest = indices_from wanted (from + 1) n in if wanted from then from ∷ rest else rest

unfoldable pub get_agent_file_indices : TreeManifest → ℕ → ℕ → List ℕ
unfolding indices_from
get_agent_file_indices m agent_id num_agents =
    if leb num_agents 1
    then indices_from (λ idx. true) 0 m.total_files
    else indices_from (λ idx. idx % num_agents == agent_id) 0 m.total_files

unfoldable pub get_agent_file_paths : TreeManifest → ℕ → ℕ → List Text
unfolding get_agent_file_indices
get_agent_file_paths m agent_id num_agents =
    filter_map (get_file_path m) (get_agent_file_indices m agent_id num_agents)
