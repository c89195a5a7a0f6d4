-- ===== src/Prepare/Cleanup.antt =====
-- What an agent deletes: src/cleanup.rs (`list_existing_objects`, `cleanup_prepared_objects`) and
-- src/prepare/cleanup.rs (the choice of objects in flat mode, `generate_cleanup_objects`). The paths
-- that a listing gives, their sorting and the answers of the store are arguments; the directories
-- that agent 0 removes at the end are left out.
use sai3_bench.Prelude.{
  ℕ, zero, suc, ◌+◌, ◌%◌, Bool, true, false, ◌||◌, Option, none, some, List, [], ◌∷◌, ◌++◌, length,
  ltb, leb, ◌==◌, if◌then◌else◌, not, ◌&&◌,
}
use sai3_bench.Prelude.Text.{Text, codes}
use sai3_bench.Values.{parse_u64}
use sai3_bench.Routing.{after_last, without_prefix, file_name_of}
use sai3_bench.Prepare.{Pool, prepared, deletable, flat_key, uri_of, with_slash}
use sai3_bench.Prepare.Listing.{stripped}
use sai3_bench.Prepare.Plan.{PreparedObject, PrepareConfig}

-- What stands before and after the first `c`: find(c), and the slices beside it.
unfoldable pub split_first : ℕ → Text → Option (Text × Text)
split_first c [] = none
split_first c (x ∷ xs) =
    let later = elim (split_first c xs) as (λ _. Option (Text × Text)) [
      | none ↦ none
      | some (before, behind) ↦ some (x ∷ before, behind)
    ] in
    if x == c then some ([], xs) else later

-- str::contains
unfoldable pub has_part : Text → Text → Bool
has_part part [] = elim (without_prefix part []) [ none ↦ false | some rest ↦ true ]
has_part part (c ∷ cs) = elim (without_prefix part (c ∷ cs)) [
  | none ↦ has_part part cs
  | some rest ↦ true
]

-- The text between the first dash of a name and its first dot.
pub data Between : Type 0 where
  absent : Between
  -- The dot comes before the dash, and the slice panics.
  panics : Between
  text : Text → Between

unfoldable pub between : Text → Between
between filename = elim (split_first b'-' filename) [
  | none ↦ absent
  | some (before, behind) ↦ elim (split_first b'.' before) [
    | some parts ↦ panics
    | none ↦ elim (split_first b'.' behind) [ none ↦ absent | some (num, rest) ↦ text num ]
  ]
]

-- Whether an agent takes a file of a flat listing; `none` is a panic.
unfoldable pub flat_included : ℕ → ℕ → Text → Option Bool
flat_included agent_id num_agents path =
    if leb num_agents 1 then some true else elim (between (file_name_of path)) [
      | absent ↦ some true
      | panics ↦ none
      | text num ↦ elim (parse_u64 num) [
        | none ↦ some true
        | some file_idx ↦ some (file_idx % num_agents == agent_id)
      ]
    ]

-- Whether it takes a file of a listing of the tree.
unfoldable pub tree_included : ℕ → ℕ → Text → Bool
tree_included agent_id num_agents path = elim (stripped (codes "file_") (file_name_of path)) [
  | none ↦ false
  | some num ↦ elim (parse_u64 num) [
    | none ↦ false
    | some file_idx ↦ not (ltb 1 num_agents && not (file_idx % num_agents == agent_id))
  ]
]

abbrev pub listed_object : Text → Text → PreparedObject
listed_object list_base path = record {
  uri = if has_part (codes "://") path then path else list_base ++ path;
  size = 0;
  was_created = false;
}

unfoldable pub tree_objects : ℕ → ℕ → Text → List Text → List PreparedObject
tree_objects agent_id num_agents list_base [] = []
tree_objects agent_id num_agents list_base (path ∷ paths) =
    let later = tree_objects agent_id num_agents list_base paths in
    if tree_included agent_id num_agents path then listed_object list_base path ∷ later else later

unfoldable pub flat_objects : ℕ → ℕ → Text → List Text → Option (List PreparedObject)
flat_objects agent_id num_agents list_base [] = some []
flat_objects agent_id num_agents list_base (path ∷ paths) =
    elim (flat_included agent_id num_agents path) [
      | none ↦ none
      | some include ↦ elim (flat_objects agent_id num_agents list_base paths) [
        | none ↦ none
        | some later ↦ some (if include then listed_object list_base path ∷ later else later)
      ]
    ]

-- `none` is a panic. The base URI is that of the first entry of `ensure_objects`.
unfoldable pub list_existing_objects :
    (List Text → List Text) → Bool → Text → List Text → ℕ → ℕ → Option (List PreparedObject)
list_existing_objects sort is_tree_mode base_uri all_files agent_id num_agents =
    let list_base = with_slash base_uri in
    if is_tree_mode
    then some (tree_objects agent_id num_agents list_base all_files)
    else flat_objects agent_id num_agents list_base (sort all_files)

-- The choice of src/prepare/cleanup.rs among the objects of the prepare phase; `none` is a panic.
unfoldable pub flat_kept : ℕ → ℕ → PreparedObject → Option Bool
flat_kept agent_id num_agents obj =
    if not obj.was_created
    then some false
    else if leb num_agents 1
    then some true
    else elim (after_last b'/' obj.uri) [
      | none ↦ some false
      | some filename ↦ elim (between filename) [
        | absent ↦ some false
        | panics ↦ none
        | text num ↦ elim (parse_u64 num) [
          | none ↦ some false
          | some file_index ↦ some (file_index % num_agents == agent_id)
        ]
      ]
    ]

-- The objects of a pool from `i` on, `n` numbers, that the agent made.
unfoldable pub generated_from : ℕ → Text → Pool → ℕ → ℕ → ℕ → ℕ → List PreparedObject
generated_from shards base_uri pool agent_id num_agents i zero = []
generated_from shards base_uri pool agent_id num_agents i (suc n) =
    let later = generated_from shards base_uri pool agent_id num_agents (i + 1) n in
    if ltb 1 num_agents && not (i % num_agents == agent_id)
    then later
    else record { uri = uri_of base_uri (flat_key shards pool i); size = 0; was_created = true }
      ∷ later

-- An entry of `ensure_objects`: its base URI, where it has one, and its count.
unfoldable pub generate_cleanup_objects :
    PrepareConfig → List (Option Text × ℕ) → ℕ → ℕ → List PreparedObject
generate_cleanup_objects config [] agent_id num_agents = []
generate_cleanup_objects config ((none, count) ∷ specs) agent_id num_agents =
    generate_cleanup_objects config specs agent_id num_agents
generate_cleanup_objects config ((some [], count) ∷ specs) agent_id num_agents =
    generate_cleanup_objects config specs agent_id num_agents
generate_cleanup_objects config ((some (c ∷ cs), count) ∷ specs) agent_id num_agents =
    let shards = config.key_prefix_shards in
    generated_from shards (c ∷ cs) prepared agent_id num_agents 0 count
    ++ generated_from shards (c ∷ cs) deletable agent_id num_agents 0 count
    ++ generate_cleanup_objects config specs agent_id num_agents

pub data CleanupMode : Type 0 where
  strict tolerant best_effort : CleanupMode

-- The answer of the store to a deletion, with the message in lower case.
pub data DeleteAnswer : Type 0 where
  gone : DeleteAnswer
  refused : Text → DeleteAnswer

pub data DeleteResult : Type 0 where
  success already_deleted error : DeleteResult

unfoldable pub is_not_found : Text → Bool
is_not_found err_msg =
    has_part (codes "not found") err_msg
    || (has_part (codes "no such") err_msg || has_part (codes "404") err_msg)

-- `none` is an error that names the object.
unfoldable pub delete_result : CleanupMode → DeleteAnswer → Option DeleteResult
delete_result cleanup_mode gone = some success
delete_result cleanup_mode (refused err_msg) =
    if is_not_found err_msg
    then elim cleanup_mode [
      | strict ↦ none
      | tolerant ↦ some already_deleted
      | best_effort ↦ some already_deleted
    ]
    else elim cleanup_mode [ strict ↦ none | tolerant ↦ none | best_effort ↦ some error ]

pub record Summary : Type 0 where
  pub succeeded : ℕ
  pub already : ℕ
  pub errors : ℕ

abbrev pub nothing_done : Summary
nothing_done = record { succeeded = 0; already = 0; errors = 0 }

-- The loop over the results in the order in which they came; `none` is the error that it returns.
unfoldable pub summarise : CleanupMode → List (Option DeleteResult) → Summary → Option Summary
summarise cleanup_mode [] s = some s
summarise cleanup_mode (some success ∷ results) s =
    summarise cleanup_mode results (record s { succeeded = s.succeeded + 1 })
summarise cleanup_mode (some already_deleted ∷ results) s =
    summarise cleanup_mode results (record s { already = s.already + 1 })
summarise cleanup_mode (some error ∷ results) s =
    summarise cleanup_mode results (record s { errors = s.errors + 1 })
summarise cleanup_mode (none ∷ results) s = elim cleanup_mode [
  | strict ↦ none
  | tolerant ↦ summarise tolerant results (record s { errors = s.errors + 1 })
  | best_effort ↦ summarise best_effort results (record s { errors = s.errors + 1 })
]

unfoldable pub results_of : CleanupMode → List DeleteAnswer → List (Option DeleteResult)
results_of cleanup_mode [] = []
results_of cleanup_mode (answer ∷ answers) =
    delete_result cleanup_mode answer ∷ results_of cleanup_mode answers

-- `answers` are those of the store, one for each object, in the order in which they came; `opens` says
-- whether a store is made for the first object. `none` is an error.
unfoldable pub cleanup_prepared_objects : Bool → CleanupMode → List DeleteAnswer → Option Summary
cleanup_prepared_objects opens cleanup_mode answers =
    let all = summarise cleanup_mode (results_of cleanup_mode answers) nothing_done in
    if length answers == 0 then some nothing_done else if not opens then none else all
