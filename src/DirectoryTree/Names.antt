-- ===== src/DirectoryTree/Names.antt =====
-- src/directory_tree.rs: the path of a file is its directory and the name of its number.
use sai3_bench.Prelude.{
  ℕ, ◌≡◌, ◌||◌, some, ◌∷◌, ◌++◌, get_elem?, leb, ◌==◌, inl, inr, Bool-cases, Option-cases, arith,
}
use sai3_bench.Prelude.Text.{Text}
use sai3_bench.DirectoryTree.Manifest.{
  TreeManifest, get_file_path, get_file_name, join_path, dir_index_of,
}

pub get_file_path-get_file_name :
    (m : TreeManifest) (n : ℕ) (path : Text)
    → get_file_path m n ≡ some path
    → (dir : Text) × (path ≡ dir ++ 47 ∷ get_file_name n)
unfolding get_file_path join_path
get_file_path-get_file_name m n path h =
    elim (Bool-cases (m.files_per_dir == 0 || leb m.total_files n)) [
      | inl e ↦ ground arith
      | inr e ↦ elim (Option-cases (dir_index_of m n)) [
        | inl d ↦ ground arith
        | inr (i, d) ↦ elim (Option-cases (get_elem? m.all_directories i)) [
          | inl g ↦ ground arith
          | inr (dir, g) ↦ (dir, ground arith)
        ]
      ]
    ]
