-- ===== src/Routing/Paths.antt =====
-- The number in a path that the program itself made is read back.
use mathlib.Core.List.{append_assoc}
use sai3_bench.Prelude.{
  ℕ, ◌%◌, ◌≡◌, ◌≢◌, ◌<◌, refl, sym, ap, ◌∙◌, ◌⊎◌, none, some, [], ◌∷◌, ◌++◌, All, length, u64,
  unwrap_or, inl, inr, arith,
}
use sai3_bench.Prelude.Keys.{list_eq}
use sai3_bench.Prelude.Text.{
  Text, codes, count, count-append, count_other, decimal_8, decimal_8-IsDigit, digits_value,
  digits_value-decimal_8, length-decimal_8, IsDigit,
}
use sai3_bench.Values.{parse_u64}
use sai3_bench.Values.Durations.{parse_u64_digits}
use sai3_bench.DirectoryTree.Manifest.{TreeManifest, get_file_path, get_file_name}
use sai3_bench.DirectoryTree.Names.{get_file_path-get_file_name}
use sai3_bench.Routing.{
  after_last, without_suffix, file_name_of, number_part, name_without_ext,
  extract_file_index_from_path, endpoint_of_path,
}

pub after_last_absent : (c : ℕ) (xs : Text) → count c xs ≡ 0 → after_last c xs ≡ none
unfolding after_last count
after_last_absent c [] h = refl
after_last_absent c (x ∷ xs) h = ground (arith, after_last_absent c xs)

pub after_last-append :
    (c : ℕ) (xs ys : Text) → count c ys ≡ 0 → after_last c (xs ++ c ∷ ys) ≡ some ys
unfolding after_last
after_last-append c [] ys h = ground (arith, after_last_absent c ys h)
after_last-append c (x ∷ xs) ys h = rw (after_last-append c xs ys h, after_last) refl

pub without_suffix_dat : (xs : Text) → without_suffix (codes ".dat") (xs ++ codes ".dat") ≡ some xs
unfolding without_suffix list_eq
without_suffix_dat [] = refl
without_suffix_dat (x ∷ xs) = rw (without_suffix_dat xs, without_suffix) refl

-- The name of an object: a stem, a separator, the number in eight digits, and the extension.
abbrev pub object_name : Text → ℕ → ℕ → Text
object_name stem separator n = stem ++ separator ∷ (decimal_8 n ++ codes ".dat")

name_without_ext_lem :
    (dir name : Text)
    → count 47 (name ++ codes ".dat") ≡ 0
    → name_without_ext (dir ++ 47 ∷ (name ++ codes ".dat")) ≡ name
unfolding name_without_ext file_name_of
name_without_ext_lem dir name h =
    rw (after_last-append 47 dir (name ++ codes ".dat") h, file_name_of)
      (rw (without_suffix_dat name) refl)

pub no_such : (c n : ℕ) → (c < 48) ⊎ (57 < c) → count c (decimal_8 n) ≡ 0
no_such c n h = count_other c (decimal_8 n) h (decimal_8-IsDigit n)

pub parse_number : (n : ℕ) → n < u64 → parse_u64 (decimal_8 n) ≡ some n
parse_number n h =
    go (decimal_8 n) (decimal_8-IsDigit n) (length-decimal_8 n) (digits_value-decimal_8 n)
  where
    go :
        (ds : Text) → All IsDigit ds → 0 < length ds → digits_value 0 ds ≡ n → parse_u64 ds ≡ some n
    go [] i l v = absurd (omega arith)
    go (d ∷ ds) i l v = parse_u64_digits d ds i (omega (arith, v)) ∙ ap some v

object_name_lem :
    (dir stem : Text) (separator n : ℕ)
    → count 47 stem ≡ 0
    → separator ≢ 47
    → name_without_ext (dir ++ 47 ∷ object_name stem separator n) ≡ stem ++ separator ∷ decimal_8 n
unfolding count
object_name_lem dir stem separator n slash apart =
    let name = stem ++ separator ∷ decimal_8 n in
    let whole : object_name stem separator n ≡ name ++ codes ".dat" =
      sym (append_assoc stem (separator ∷ decimal_8 n) (codes ".dat")) in
    let no_slash : count 47 (name ++ codes ".dat") ≡ 0 = ground (
      arith,
      count-append 47 name (codes ".dat"),
      count-append 47 stem (separator ∷ decimal_8 n),
      no_such 47 n (inl (omega arith)),
    ) in
    ap (λ t. name_without_ext (dir ++ 47 ∷ t)) whole ∙ name_without_ext_lem dir name no_slash

number_of_name :
    (path name : Text) (n : ℕ)
    → n < u64
    → name_without_ext path ≡ name
    → number_part name ≡ some (decimal_8 n)
    → extract_file_index_from_path path ≡ some n
unfolding extract_file_index_from_path
number_of_name path name n h e part =
    let whole : number_part (name_without_ext path) ≡ some (decimal_8 n) =
      ap number_part e ∙ part in
    rw (whole, extract_file_index_from_path) (parse_number n h)

pub underscore_number :
    (dir stem : Text) (n : ℕ)
    → n < u64
    → count 47 stem ≡ 0
    → extract_file_index_from_path (dir ++ 47 ∷ object_name stem 95 n) ≡ some n
unfolding number_part
underscore_number dir stem n h slash =
    number_of_name (dir ++ 47 ∷ object_name stem 95 n) (stem ++ 95 ∷ decimal_8 n) n h
      (object_name_lem dir stem 95 n slash (omega arith))
      (rw (after_last-append 95 stem (decimal_8 n) (no_such 95 n (inr (omega arith))), number_part)
        refl)

pub dash_number :
    (dir stem : Text) (n : ℕ)
    → n < u64
    → count 47 stem ≡ 0
    → count 95 stem ≡ 0
    → extract_file_index_from_path (dir ++ 47 ∷ object_name stem 45 n) ≡ some n
unfolding number_part count
dash_number dir stem n h slash under =
    let no_underscore : count 95 (stem ++ 45 ∷ decimal_8 n) ≡ 0 =
      ground (arith, count-append 95 stem (45 ∷ decimal_8 n), no_such 95 n (inr (omega arith))) in
    number_of_name (dir ++ 47 ∷ object_name stem 45 n) (stem ++ 45 ∷ decimal_8 n) n h
      (object_name_lem dir stem 45 n slash (omega arith))
      (rw (after_last_absent 95 (stem ++ 45 ∷ decimal_8 n) no_underscore, number_part)
        (after_last-append 45 stem (decimal_8 n) (no_such 45 n (inl (omega arith)))))

-- The number of a file is read back from the path that the manifest gives it, so a GET goes to the
-- endpoint whose position is the number of the file modulo the number of endpoints, as long as the
-- number is below 2^64.
pub endpoint_of_path-get_file_path :
    (m : TreeManifest) (n : ℕ) (path : Text) (num_endpoints : ℕ)
    → get_file_path m n ≡ some path
    → n < u64
    → (extract_file_index_from_path path ≡ some n)
      × (endpoint_of_path path num_endpoints ≡ n % num_endpoints)
unfolding get_file_name count endpoint_of_path
endpoint_of_path-get_file_path m n path k found h =
    let (dir, e) = get_file_path-get_file_name m n path found in
    let number : extract_file_index_from_path path ≡ some n =
      ap extract_file_index_from_path e ∙ underscore_number dir (codes "file") n h refl in
    (number, ap (λ o. unwrap_or o 0 % k) number)
