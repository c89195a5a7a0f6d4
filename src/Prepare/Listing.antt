-- ===== src/Prepare/Listing.antt =====
-- src/prepare/listing.rs: what exists already. The store's answer to a listing of a prefix is the
-- argument `store`; a broken item carries its message.
use sai3_bench.Prelude.{
  ℕ, ◌+◌, ◌%◌, String, Bool, true, false, Option, none, some, List, [], ◌∷◌, ◌++◌, ltb,
  if◌then◌else◌, u64,
}
use sai3_bench.Prelude.Keys.{nat_key}
use sai3_bench.Prelude.Assoc.{set_insert}
use sai3_bench.Prelude.Text.{Text, codes}
use sai3_bench.Values.{parse_u64}
use sai3_bench.Routing.{without_prefix, without_suffix, file_name_of}
use sai3_bench.DirectoryTree.Manifest.{TreeManifest, get_agent_dirs}
use sai3_bench.Errors.Listing.{ListingErrorTracker, record_success, record_error}
use sai3_bench.Prepare.{with_slash}

pub record ListingResult : Type 0 where
  pub file_count : ℕ
  pub indices : List ℕ
  pub dirs_listed : ℕ
  pub errors_encountered : ℕ
  pub aborted : Bool

abbrev pub no_listing : ListingResult
no_listing = record {
  file_count = 0;
  indices = [];
  dirs_listed = 0;
  errors_encountered = 0;
  aborted = false;
}

-- strip_prefix(prefix), and strip_suffix(".dat") of the rest.
unfoldable pub stripped : Text → Text → Option Text
stripped prefix filename = elim (without_prefix prefix filename) [
  | none ↦ none
  | some rest ↦ without_suffix (codes ".dat") rest
]

-- The number in the name of a file, in the three forms that the program gives names.
unfoldable pub file_index : Text → Option ℕ
file_index filename = elim (stripped (codes "file_") filename) [
  | some idx_str ↦ parse_u64 idx_str
  | none ↦ elim (stripped (codes "prepared-") filename) [
    | some idx_str ↦ parse_u64 idx_str
    | none ↦ elim (stripped (codes "deletable-") filename) [
      | some idx_str ↦ parse_u64 idx_str
      | none ↦ none
    ]
  ]
]

unfoldable pub insert_index : Option ℕ → List ℕ → List ℕ
insert_index none indices = indices
insert_index (some idx) indices = set_insert idx indices

unfoldable pub process_list_item : Text → ListingResult → ListingResult
process_list_item path result = record result {
  file_count = (result.file_count + 1) % u64;
  indices = insert_index (file_index (file_name_of path)) result.indices;
}

pub data Item : Type 0 where
  found : Text → Item
  broken : String → Item

-- One stream of items, until it ends or the errors pass a threshold.
unfoldable pub list_items :
    List Item → ListingErrorTracker → ListingResult → ListingErrorTracker × ListingResult
list_items [] t result = (t, result)
list_items (found path ∷ items) t result =
    list_items items (record_success t) (process_list_item path result)
list_items (broken error_msg ∷ items) t result =
    let (t', (should_abort, (total_errs, consecutive_errs))) = record_error error_msg t in
    elim should_abort [
      | true ↦ (t', record result { errors_encountered = total_errs; aborted = true })
      | false ↦ list_items items t' (record result { errors_encountered = total_errs })
    ]

-- The directories of an agent, one stream each.
unfoldable pub list_dirs :
    (Text → List Item) → Text → List Text → ListingErrorTracker → ListingResult → ListingResult
list_dirs store list_base [] t result = result
list_dirs store list_base (dir_path ∷ dirs) t result =
    let (t', listed) = list_items (store (list_base ++ dir_path ++ b'/' ∷ [])) t result in
    elim listed.aborted [
      | true ↦ listed
      | false ↦
          list_dirs store list_base dirs t' (record listed { dirs_listed = listed.dirs_listed + 1 })
    ]

abbrev list_all : (Text → List Item) → Text → ListingErrorTracker → ListingResult
list_all store list_base t = (list_items (store list_base) t no_listing).1

-- `none` where the listing was aborted.
unfoldable pub list_existing_objects_distributed :
    (Text → List Item)
    → ListingErrorTracker
    → Text
    → Option TreeManifest
    → ℕ
    → ℕ
    → Option ListingResult
list_existing_objects_distributed store t base_uri tree_manifest agent_id num_agents =
    let list_base = with_slash base_uri in
    let result : ListingResult = elim tree_manifest [
      | none ↦ list_all store list_base t
      | some manifest ↦
          if ltb 1 num_agents
          then list_dirs store list_base (get_agent_dirs manifest agent_id) t no_listing
          else list_all store list_base t
    ] in
    if result.aborted then none else some result
