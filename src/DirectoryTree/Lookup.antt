-- ===== src/DirectoryTree/Lookup.antt =====
-- `get_file_path`, which computes a file's directory by a division, against the table of file ranges.
use sai3_bench.Prelude.{
  ℕ, ◌+◌, ◌*◌, ◌/◌, ◌≤◌, ◌<◌, ◌≡◌, refl, ap, ◌∙◌, Bool, true, some, List, ◌++◌, arith, length, All,
  get_elem?, get_elem?-append_right,
}
use sai3_bench.Prelude.Text.{Text}
use sai3_bench.DirectoryTree.{bottom, all}
use sai3_bench.DirectoryTree.Manifest.{
  FileRange, TreeManifest, ranges_from, get_file_path, get_file_name, join_path,
}
use sai3_bench.DirectoryTree.Ranges.{ranges_from-total, ranges_from-none, ranges_from-get}

-- A file number in a list of equal ranges: which range holds it.
range_of :
    (idx f n : ℕ) → idx < n * f → (idx / f < n) × (idx / f * f ≤ idx) × (idx < idx / f * f + f)
range_of idx f n h = (grind arith, grind arith, grind arith)

-- Entry `k` of the table holds `idx`, and its directory is the one in the file's path.
abbrev pub Holds : TreeManifest → ℕ → ℕ → Type 0
Holds m idx k =
    (r : FileRange) × (get_elem? m.file_ranges k ≡ some r)
    × (r.start_idx ≤ idx)
    × (idx < r.end_idx)
    × (get_file_path m idx ≡ some (join_path r.dir_path (get_file_name idx)))

module _ (m : TreeManifest) (dirs : List Text) (wanted : Text → Bool)
    (all_wanted : All (λ p. wanted p ≡ true) dirs)
    (ranges : m.file_ranges ≡ (ranges_from m.files_per_dir wanted 0 dirs).0)
    (total : m.total_files ≡ (ranges_from m.files_per_dir wanted 0 dirs).1) where
  files_pos : (idx : ℕ) → idx < m.total_files → 0 < m.files_per_dir
  files_pos idx h = ground (arith, total, ranges_from-none m.files_per_dir wanted 0 dirs)

  in_range : (idx : ℕ) → idx < m.total_files → idx < length dirs * m.files_per_dir
  in_range idx h =
      omega
        (arith, total, ranges_from-total m.files_per_dir wanted 0 dirs (files_pos idx h) all_wanted)

  -- The range of `idx`, and the directory of the same position.
  table_entry :
      (idx : ℕ)
      → idx < m.total_files
      → (p : Text) × (get_elem? dirs (idx / m.files_per_dir) ≡ some p)
        × (r : FileRange) × (get_elem? m.file_ranges (idx / m.files_per_dir) ≡ some r)
        × (r.dir_path ≡ p)
        × (r.start_idx ≤ idx)
        × (idx < r.end_idx)
  table_entry idx h =
      let (below, lo, hi) = range_of idx m.files_per_dir (length dirs) (in_range idx h) in
      let (p, e, g) =
        ranges_from-get m.files_per_dir wanted 0 (idx / m.files_per_dir) dirs (files_pos idx h)
          all_wanted below in
      (
        p,
        e,
        _,
        ap (λ t. get_elem? t (idx / m.files_per_dir)) ranges ∙ g,
        refl,
        omega arith,
        omega arith,
      )

  pub Holds-bottom :
      (before : List Text)
      → m.distribution ≡ bottom
      → m.all_directories ≡ before ++ dirs
      → m.leaf_start_index ≡ length before
      → (idx : ℕ) → idx < m.total_files
      → Holds m idx (idx / m.files_per_dir)
  Holds-bottom before d a l idx h =
      let (p, e, r, g, q, lo, hi) = table_entry idx h in
      (
        r,
        g,
        lo,
        hi,
        unfold get_file_path in
            ground (
              arith,
              files_pos idx h,
              get_elem?-append_right before dirs (m.leaf_start_index + idx / m.files_per_dir)
                  (idx / m.files_per_dir),
            ),
      )

  pub Holds-all :
      m.distribution ≡ all
      → m.all_directories ≡ dirs
      → (idx : ℕ) → idx < m.total_files
      → Holds m idx (idx / m.files_per_dir)
  Holds-all d a idx h =
      let (p, e, r, g, q, lo, hi) = table_entry idx h in
      (r, g, lo, hi, unfold get_file_path in ground (arith, files_pos idx h))
