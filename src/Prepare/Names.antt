-- ===== src/Prepare/Names.antt =====
-- The number of an object is read back from the URI that the program gives it.
use mathlib.Core.List.{append_assoc}
use sai3_bench.Prelude.{
  ℕ, ◌%◌, ◌<◌, ◌≡◌, refl, sym, ap, ◌∙◌, true, Option, none, some, [], ◌∷◌, ◌++◌, ◌⊎◌, inl, inr, ltb,
  u64, arith, Bool-cases, Option-cases, unwrap_or,
}
use sai3_bench.Prelude.Text.{Text, codes, count, count-append, decimal_8}
use sai3_bench.Routing.{after_last, file_name_of}
use sai3_bench.Routing.Paths.{
  after_last-append, after_last_absent, without_suffix_dat, no_such, parse_number,
}
use sai3_bench.DirectoryTree.Manifest.{TreeManifest, get_file_path, get_file_name}
use sai3_bench.DirectoryTree.Names.{get_file_path-get_file_name}
use sai3_bench.Prepare.{
  Pool, prepared, deletable, flat_name, flat_key, ends_with_slash, uri_of, object_uri, hex_2,
}
use sai3_bench.Prepare.Listing.{stripped, file_index}

-- What stands before does not matter.
after_last_prefix :
    (c : ℕ) (xs key name : Text)
    → after_last c key ≡ some name
    → after_last c (xs ++ key) ≡ some name
unfolding after_last
after_last_prefix c [] key name h = h
after_last_prefix c (x ∷ xs) key name h = rw (after_last_prefix c xs key name h, after_last) refl

after_last_slashed :
    (base key : Text)
    → ends_with_slash base ≡ true
    → count 47 key ≡ 0
    → after_last 47 (base ++ key) ≡ some key
unfolding after_last ends_with_slash
after_last_slashed [] key e h = cc
after_last_slashed (c ∷ []) key e h = ground (arith, after_last_absent 47 key h)
after_last_slashed (c ∷ d ∷ ds) key e h = rw (after_last_slashed (d ∷ ds) key e h, after_last) refl

-- The name at the end of a key is that at the end of the URI.
pub after_last-uri_of :
    (base key name : Text)
    → (after_last 47 key ≡ some name) ⊎ ((count 47 key ≡ 0) × (name ≡ key))
    → after_last 47 (uri_of base key) ≡ some name
unfolding uri_of
after_last-uri_of base key name (inl h) = elim (Bool-cases (ends_with_slash base)) [
  | inl e ↦ rw e (after_last_prefix 47 base key name h)
  | inr e ↦ rw e (
      ap (after_last 47) (sym (append_assoc base (47 ∷ []) key))
      ∙ after_last_prefix 47 (base ++ 47 ∷ []) key name h)
]
after_last-uri_of base key name (inr (h, same)) = elim (Bool-cases (ends_with_slash base)) [
  | inl e ↦ rw e (after_last_slashed base key e h ∙ ap some (sym same))
  | inr e ↦ rw e (after_last-append 47 base key h ∙ ap some (sym same))
]

no_slash : (pool : Pool) (i : ℕ) → count 47 (flat_name pool i) ≡ 0
unfolding flat_name count
no_slash prepared i =
    ground (arith, count-append 47 (decimal_8 i) (codes ".dat"), no_such 47 i (inl (omega arith)))
no_slash deletable i =
    ground (arith, count-append 47 (decimal_8 i) (codes ".dat"), no_such 47 i (inl (omega arith)))

pub after_last-flat_key :
    (base : Text) (shards : ℕ) (pool : Pool) (i : ℕ)
    → after_last 47 (uri_of base (flat_key shards pool i)) ≡ some (flat_name pool i)
unfolding flat_key
after_last-flat_key base shards pool i = elim (Bool-cases (ltb 0 shards)) [
  | inl e ↦ rw e (
      after_last-uri_of base (hex_2 (i % shards) ++ 47 ∷ flat_name pool i) (flat_name pool i)
        (inl (after_last-append 47 (hex_2 (i % shards)) (flat_name pool i) (no_slash pool i))))
  | inr e ↦
      rw e
        (after_last-uri_of base (flat_name pool i) (flat_name pool i) (inr (no_slash pool i, refl)))
]

pub stripped_tree : (i : ℕ) → stripped (codes "file_") (get_file_name i) ≡ some (decimal_8 i)
unfolding stripped get_file_name
stripped_tree i = without_suffix_dat (decimal_8 i)

file_index_flat : (pool : Pool) (i : ℕ) → i < u64 → file_index (flat_name pool i) ≡ some i
unfolding file_index stripped flat_name
file_index_flat prepared i h = rw (without_suffix_dat (decimal_8 i), file_index) (parse_number i h)
file_index_flat deletable i h = rw (without_suffix_dat (decimal_8 i), file_index) (parse_number i h)

file_index_tree : (i : ℕ) → i < u64 → file_index (get_file_name i) ≡ some i
unfolding file_index
file_index_tree i h = rw (stripped_tree i, file_index) (parse_number i h)

no_slash_tree : (i : ℕ) → count 47 (get_file_name i) ≡ 0
unfolding get_file_name count
no_slash_tree i =
    ground (arith, count-append 47 (decimal_8 i) (codes ".dat"), no_such 47 i (inl (omega arith)))

pub after_last-tree :
    (base : Text) (m : TreeManifest) (i : ℕ) (path : Text)
    → get_file_path m i ≡ some path
    → after_last 47 (uri_of base path) ≡ some (get_file_name i)
after_last-tree base m i path h =
    let (dir, e) = get_file_path-get_file_name m i path h in
    after_last-uri_of base path (get_file_name i)
      (inl (ap (after_last 47) e ∙ after_last-append 47 dir (get_file_name i) (no_slash_tree i)))

-- The number of an object below 2^64 is read back from the URI that the prepare phase gives it, in
-- the tree, in a flat directory and in shards, for every base URI.
pub file_index-object_uri :
    (m : Option TreeManifest) (shards : ℕ) (pool : Pool) (base : Text) (i : ℕ) (uri : Text)
    → object_uri m shards pool base i ≡ some uri
    → i < u64
    → file_index (file_name_of uri) ≡ some i
unfolding object_uri file_name_of
file_index-object_uri none shards pool base i uri made h =
    let e : uri ≡ uri_of base (flat_key shards pool i) = ground arith in
    let last : after_last 47 uri ≡ some (flat_name pool i) =
      ap (after_last 47) e ∙ after_last-flat_key base shards pool i in
    ap (λ o. file_index (unwrap_or o uri)) last ∙ file_index_flat pool i h
file_index-object_uri (some m) shards pool base i uri made h =
    elim (Option-cases (get_file_path m i)) [
      | inl e ↦ ground arith
      | inr (path, e) ↦
          let same : uri ≡ uri_of base path = ground arith in
          let last : after_last 47 uri ≡ some (get_file_name i) =
            ap (after_last 47) same ∙ after_last-tree base m i path e in
          ap (λ o. file_index (unwrap_or o uri)) last ∙ file_index_tree i h
    ]
