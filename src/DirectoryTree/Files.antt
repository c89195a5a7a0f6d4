-- ===== src/DirectoryTree/Files.antt =====
-- The manifest of a generated tree: `get_file_path` on every file number.
use sai3_bench.Prelude.{
  ℕ, suc, ◌-◌, ◌/◌, ◌^◌, ◌<◌, ◌≡◌, ◌≢◌, refl, ap, sym, subst, ◌∙◌, Bool, true, false, some, List,
  [], ◌∷◌, ◌++◌, arith, length, All,
}
use sai3_bench.Prelude.Text.{Text, count}
use sai3_bench.DirectoryTree.{
  DirectoryStructureConfig, DirectoryTree, Entry, Distribution, bottom, all, other, ok,
  paths_of_levels, new,
}
use sai3_bench.DirectoryTree.Counts.{tree_spec, new-outcome}
use sai3_bench.DirectoryTree.Nodes.{level_spec, levels_spec}
use sai3_bench.DirectoryTree.Levels.{
  All-level_spec, All-levels_spec, levels_spec-last, max_level-levels_spec, leaf_start-levels_spec,
}
use sai3_bench.DirectoryTree.Manifest.{ranges_from, should_have_files, from_tree}
use sai3_bench.DirectoryTree.Ranges.{ranges_from-unwanted}
use sai3_bench.DirectoryTree.Lookup.{Holds, Holds-bottom, Holds-all}

pub generated :
    (config : DirectoryStructureConfig) (tree : DirectoryTree)
    → new config ≡ some (ok tree)
    → (directories : List Entry) × (config.depth ≡ suc (config.depth - 1))
      × (config.distribution ≢ other)
      × (tree ≡ tree_spec config directories tree.total_files)
generated config tree h =
    let (directories, e) = new-outcome config in
    (directories, ground (arith, e), ground (arith, e), ground (arith, e))

module _ (config : DirectoryStructureConfig) (directories : List Entry) (tf n : ℕ)
    (deep : config.depth ≡ suc n) where
  abbrev tree : DirectoryTree
  tree = tree_spec config directories tf

  abbrev wanted : Text → Bool
  wanted = should_have_files config.distribution (suc n)

  ranges :
      (from_tree tree).file_ranges ≡ (ranges_from config.files_per_dir wanted 0 tree.all_paths).0
  unfolding from_tree
  ranges = ground (arith, deep, max_level-levels_spec config 0 n)

  total :
      (from_tree tree).total_files ≡ (ranges_from config.files_per_dir wanted 0 tree.all_paths).1
  unfolding from_tree
  total = ground (arith, deep, max_level-levels_spec config 0 n)

  leaf : (from_tree tree).leaf_start_index ≡ length (paths_of_levels (levels_spec config 0 n))
  unfolding from_tree
  leaf = ground (
    arith,
    deep,
    max_level-levels_spec config 0 n,
    leaf_start-levels_spec config 0 n (suc n) (omega arith),
  )

  kept_files_per_dir : (from_tree tree).files_per_dir ≡ config.files_per_dir
  unfolding from_tree
  kept_files_per_dir = ground (arith, deep, max_level-levels_spec config 0 n)

  kept_distribution : (from_tree tree).distribution ≡ config.distribution
  unfolding from_tree
  kept_distribution = ground (arith, deep, max_level-levels_spec config 0 n)

  kept_directories : (from_tree tree).all_directories ≡ tree.all_paths
  unfolding from_tree
  kept_directories = ground (arith, deep, max_level-levels_spec config 0 n)

  abbrev before : List Text
  before = paths_of_levels (levels_spec config 0 n)

  abbrev leaves : List Text
  leaves = level_spec config n 1 (config.width ^ suc n)

  all_paths-eq : tree.all_paths ≡ before ++ leaves
  all_paths-eq =
      ap (λ d. paths_of_levels (levels_spec config 0 d)) deep
      ∙ levels_spec-last config 0 n n (omega arith)

  module _ (plain : count b'/' config.dir_mask ≡ 0) (e : config.distribution ≡ bottom) where
    leaves-wanted : All (λ p. wanted p ≡ true) leaves
    leaves-wanted =
        All-level_spec config plain _ n 1 (config.width ^ suc n)
          λ p h. unfold should_have_files in ground (arith, e, h)

    before-unwanted : All (λ p. wanted p ≡ false) before
    before-unwanted =
        All-levels_spec config plain _ 0 n n (omega arith)
          λ p h. unfold should_have_files in ground (arith, e, h)

    leaf_ranges :
        ranges_from config.files_per_dir wanted 0 tree.all_paths
        ≡ ranges_from config.files_per_dir wanted 0 leaves
    leaf_ranges =
        ap (λ ps. ranges_from config.files_per_dir wanted 0 ps) all_paths-eq
        ∙ ranges_from-unwanted config.files_per_dir wanted 0 before leaves before-unwanted

  any_wanted : config.distribution ≡ all → (ps : List Text) → All (λ p. wanted p ≡ true) ps
  any_wanted e [] = tt
  any_wanted e (p ∷ ps) = (unfold should_have_files in ground (arith, e), any_wanted e ps)

  holds :
      (t : Distribution)
      → config.distribution ≡ t
      → t ≢ other
      → count b'/' config.dir_mask ≡ 0
      → (idx : ℕ) → idx < (from_tree tree).total_files
      → Holds (from_tree tree) idx (idx / (from_tree tree).files_per_dir)
  holds bottom e o plain idx h =
      Holds-bottom (from_tree tree) leaves wanted (leaves-wanted plain e)
        (rw kept_files_per_dir (ranges ∙ ap (λ r. r.0) (leaf_ranges plain e)))
        (rw kept_files_per_dir (total ∙ ap (λ r. r.1) (leaf_ranges plain e))) before
        (kept_distribution ∙ e) (kept_directories ∙ all_paths-eq) leaf idx h
  holds all e o plain idx h =
      Holds-all (from_tree tree) tree.all_paths wanted (any_wanted e tree.all_paths)
        (rw kept_files_per_dir ranges) (rw kept_files_per_dir total) (kept_distribution ∙ e)
        kept_directories idx h
  holds other e o plain idx h = absurd (o refl)

-- In a generated tree whose directory names hold no `/`, every file number below the total has a
-- path. Its directory is the one that the table of file ranges gives: the range at the position
-- that the division computes holds the number.
pub file_lookup :
    (config : DirectoryStructureConfig) (tree : DirectoryTree)
    → new config ≡ some (ok tree)
    → count b'/' config.dir_mask ≡ 0
    → (idx : ℕ) → idx < (from_tree tree).total_files
    → Holds (from_tree tree) idx (idx / (from_tree tree).files_per_dir)
file_lookup config tree h plain idx l =
    let (directories, deep, known, e) = generated config tree h in
    subst (λ t. Holds (from_tree t) idx (idx / (from_tree t).files_per_dir)) (sym e)
      (holds config directories tree.total_files (config.depth - 1) deep config.distribution refl
        known plain idx (subst (λ t. idx < (from_tree t).total_files) e l))
