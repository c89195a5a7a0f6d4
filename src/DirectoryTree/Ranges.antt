-- ===== src/DirectoryTree/Ranges.antt =====
-- The file ranges of a list of directories.
use sai3_bench.Prelude.{
  ℕ, zero, suc, ◌+◌, ◌*◌, ◌<◌, ◌≡◌, refl, Bool, true, false, some, List, [], ◌∷◌, ◌++◌, arith,
  length, All, get_elem?,
}
use sai3_bench.Prelude.Text.{Text}
use sai3_bench.DirectoryTree.Manifest.{ranges_from}

module _ (files_per_dir : ℕ) (wanted : Text → Bool) where
  -- Directories without files leave no range.
  pub ranges_from-unwanted :
      (s : ℕ) (xs ys : List Text)
      → All (λ p. wanted p ≡ false) xs
      → ranges_from files_per_dir wanted s (xs ++ ys) ≡ ranges_from files_per_dir wanted s ys
  unfolding ranges_from
  ranges_from-unwanted s [] ys h = refl
  ranges_from-unwanted s (x ∷ xs) ys h = ground (arith, h.0, ranges_from-unwanted s xs ys h.1)

  pub ranges_from-total :
      (s : ℕ) (ys : List Text)
      → 0 < files_per_dir
      → All (λ p. wanted p ≡ true) ys
      → (ranges_from files_per_dir wanted s ys).1 ≡ s + length ys * files_per_dir
  unfolding ranges_from
  ranges_from-total s [] f h = omega arith
  ranges_from-total s (y ∷ ys) f h =
      grind (arith, h.0, ranges_from-total (s + files_per_dir) ys f h.1)

  pub ranges_from-none :
      (s : ℕ) (ys : List Text) → files_per_dir ≡ 0 → (ranges_from files_per_dir wanted s ys).1 ≡ s
  unfolding ranges_from
  ranges_from-none s [] f = refl
  ranges_from-none s (y ∷ ys) f = ground (arith, f, ranges_from-none s ys f)

  pub ranges_from-get :
      (s k : ℕ) (ys : List Text)
      → 0 < files_per_dir
      → All (λ p. wanted p ≡ true) ys
      → k < length ys
      → (p : Text) × (get_elem? ys k ≡ some p)
        × (get_elem? (ranges_from files_per_dir wanted s ys).0 k
            ≡ some (record {
              dir_path = p;
              start_idx = s + k * files_per_dir;
              end_idx = s + k * files_per_dir + files_per_dir;
            }))
  unfolding ranges_from
  ranges_from-get s k [] f h l = elim l [ ]
  ranges_from-get s zero (y ∷ ys) f h l = (y, refl, ground (arith, h.0))
  ranges_from-get s (suc k) (y ∷ ys) f h l =
      let (p, e, r) = ranges_from-get (s + files_per_dir) k ys f h.1 (omega arith) in
      (p, e, grind (arith, h.0, r))
