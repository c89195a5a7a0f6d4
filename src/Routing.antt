-- ===== src/Routing.antt =====
-- Which endpoint a path belongs to: `extract_file_index_from_path` of src/metadata_cache.rs and, in
-- the same words, of src/workload.rs; whether endpoints are one storage: `endpoints_share_storage`
-- of src/metadata_cache.rs. The URL parser is another package's: its result is an argument.
pub mod Paths
mod Storage
mod Tests
use sai3_bench.Prelude.{
  ℕ, ◌%◌, String, Bool, true, false, Option, none, some, List, [], ◌∷◌, ◌++◌, length, leb, ◌==◌,
  if◌then◌else◌, unwrap_or,
}
use sai3_bench.Prelude.Keys.{key_eq, string_key, list_eq}
use sai3_bench.Prelude.Text.{Text, codes}
use sai3_bench.Values.{parse_u64}

-- What follows the last `c`: rfind(c), and the slice behind it.
unfoldable pub after_last : ℕ → Text → Option Text
after_last c [] = none
after_last c (x ∷ xs) = elim (after_last c xs) [
  | some rest ↦ some rest
  | none ↦ if x == c then some xs else none
]

-- str::strip_suffix
unfoldable pub without_suffix : Text → Text → Option Text
without_suffix suffix [] = if list_eq [] suffix then some [] else none
without_suffix suffix (x ∷ xs) = elim (without_suffix suffix xs) [
  | some rest ↦ some (x ∷ rest)
  | none ↦ if list_eq (x ∷ xs) suffix then some [] else none
]

-- path.rsplit('/').next()
unfoldable pub file_name_of : Text → Text
file_name_of path = unwrap_or (after_last 47 path) path

-- The part behind the last '_', or behind the last '-' where there is none.
pub number_part : Text → Option Text
number_part name = elim (after_last 95 name) [ some num ↦ some num | none ↦ after_last 45 name ]

pub name_without_ext : Text → Text
name_without_ext path =
    unwrap_or (without_suffix (codes ".dat") (file_name_of path)) (file_name_of path)

pub extract_file_index_from_path : Text → Option ℕ
extract_file_index_from_path path = elim (number_part (name_without_ext path)) [
  | none ↦ none
  | some num ↦ parse_u64 num
]

-- The endpoint of a GET in tree mode, 0 where the path has no number.
pub endpoint_of_path : Text → ℕ → ℕ
endpoint_of_path path num_endpoints =
    unwrap_or (extract_file_index_from_path path) 0 % num_endpoints

-- The scheme, the host and the path that the URL parser gives.
pub record ParsedUrl : Type 0 where
  pub scheme : String
  pub host_str : Option Text
  pub url_path : Text

abbrev pub trim_leading : Text → Text
trim_leading [] = []
trim_leading (c ∷ cs) = if c == 47 then trim_leading cs else c ∷ cs

abbrev pub unless_slash : ℕ → Text → Text
unless_slash c [] = if c == 47 then [] else c ∷ []
unless_slash c (d ∷ ds) = c ∷ d ∷ ds

abbrev pub trim_trailing : Text → Text
trim_trailing [] = []
trim_trailing (c ∷ cs) = unless_slash c (trim_trailing cs)

abbrev pub first_segment : Text → Text
first_segment [] = []
first_segment (c ∷ cs) = if c == 47 then [] else c ∷ first_segment cs

-- `none` for an empty name, else the name behind the scheme.
abbrev pub location : Text → Text → Option Text
location scheme [] = none
location scheme (c ∷ cs) = some (scheme ++ codes "://" ++ c ∷ cs)

-- strip_prefix
abbrev pub without_prefix : Text → Text → Option Text
without_prefix [] t = some t
without_prefix (p ∷ ps) [] = none
without_prefix (p ∷ ps) (c ∷ cs) = if p == c then without_prefix ps cs else none

pub extract_storage_location : (Text → Option ParsedUrl) → Text → Option Text
extract_storage_location url_parse uri = elim (url_parse uri) [
  | none ↦ none
  | some url ↦
      if key_eq url.scheme "s3"
      then location (codes "s3") (first_segment (trim_leading url.url_path))
      else if key_eq url.scheme "gs"
      then elim url.host_str [ none ↦ none | some bucket ↦ location (codes "gs") bucket ]
      else if key_eq url.scheme "az"
      then location (codes "az") (first_segment (trim_leading url.url_path))
      else if key_eq url.scheme "azure"
      then location (codes "az") (first_segment (trim_leading url.url_path))
      else if key_eq url.scheme "file"
      then some (codes "file://" ++ trim_trailing url.url_path)
      else if key_eq url.scheme "direct"
      then elim (without_prefix (codes "direct://") uri) [
        | none ↦ none
        | some path ↦ some (codes "direct://" ++ trim_trailing path)
      ]
      else none
]

-- filter_map over the URIs.
pub locations_of : (Text → Option ParsedUrl) → List Text → List Text
locations_of url_parse [] = []
locations_of url_parse (uri ∷ uris) = elim (extract_storage_location url_parse uri) [
  | none ↦ locations_of url_parse uris
  | some l ↦ l ∷ locations_of url_parse uris
]

pub all_same : Text → List Text → Bool
all_same first [] = true
all_same first (l ∷ ls) = if list_eq l first then all_same first ls else false

pub same_locations : List Text → Bool
same_locations [] = true
same_locations (first ∷ ls) = all_same first (first ∷ ls)

pub endpoints_share_storage : (Text → Option ParsedUrl) → List Text → Bool
endpoints_share_storage url_parse endpoint_uris =
    let locations = locations_of url_parse endpoint_uris in
    if leb (length endpoint_uris) 1
    then false
    else if length locations == length endpoint_uris
    then same_locations locations
    else false
