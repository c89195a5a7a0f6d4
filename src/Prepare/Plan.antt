-- ===== src/Prepare/Plan.antt =====
-- What an agent creates: `prepare_sequential` of src/prepare/sequential.rs and `prepare_parallel` of
-- src/prepare/parallel.rs, for one entry of `ensure_objects` and one pool. A size is drawn for every
-- number in turn, so that the sizes drawn are a function of the number.
use sai3_bench.Prelude.{
  ℕ, zero, suc, ◌+◌, ◌-◌, ◌/◌, ◌%◌, Bool, true, false, not, ◌&&◌, Option, none, some, List, [], ◌∷◌,
  ◌++◌, length, get_elem?, max, ltb, leb, ◌==◌, if◌then◌else◌, unwrap_or,
}
use sai3_bench.Prelude.Keys.{nat_key}
use sai3_bench.Prelude.Assoc.{contains}
use sai3_bench.Prelude.Text.{Text}
use sai3_bench.DirectoryTree.Manifest.{TreeManifest}
use sai3_bench.Prepare.{Pool, prefix, flat_name, with_slash, uri_of, object_uri}
use sai3_bench.Prepare.Listing.{ListingResult}

pub record PrepareConfig : Type 0 where
  pub skip_verification : Bool
  pub force_overwrite : Bool
  pub key_prefix_shards : ℕ

pub record PreparedObject : Type 0 where
  pub uri : Text
  pub size : ℕ
  pub was_created : Bool

pub record PrepareTask : Type 0 where
  pub uri : Text
  pub size : ℕ
  pub file_idx : ℕ

-- The prefix that is listed in flat mode.
unfoldable pub list_pattern : ℕ → Pool → Text → Text
list_pattern key_prefix_shards pool base_uri =
    if ltb 0 key_prefix_shards
    then with_slash base_uri
    else uri_of base_uri (prefix pool ++ b'-' ∷ [])

-- How many objects are taken to exist, and the numbers that were found. `kv_cache_covers_all` is the
-- answer of the metadata cache.
unfoldable pub existing_objects : PrepareConfig → Bool → ℕ → ListingResult → ℕ × List ℕ
existing_objects config kv_cache_covers_all count listing =
    if config.skip_verification && not config.force_overwrite
    then (count, [])
    else if config.force_overwrite
    then (0, [])
    else if kv_cache_covers_all
    then (count, [])
    else (listing.file_count, listing.indices)

unfoldable pub to_create : ℕ → ℕ → ℕ
to_create existing_count count = if leb count existing_count then 0 else count - existing_count

abbrev pub assigned : ℕ → ℕ → ℕ → Bool
assigned agent_id num_agents idx = not (ltb 1 num_agents && not (idx % num_agents == agent_id))

-- The numbers from `idx` on, `n` of them, that a test picks.
unfoldable pub picked : (ℕ → Bool) → ℕ → ℕ → List ℕ
picked wanted idx zero = []
picked wanted idx (suc n) =
    let later = picked wanted (idx + 1) n in if wanted idx then idx ∷ later else later

-- The numbers that are missing, of those an agent makes.
abbrev pub missing_indices : List ℕ → ℕ → ℕ → ℕ → List ℕ
missing_indices existing_indices agent_id num_agents count =
    picked (λ idx. not (contains idx existing_indices) && assigned agent_id num_agents idx) 0 count

module _ (uris : ℕ → Option Text) where
  -- The loop that makes the tasks, from `idx` on. `sizes` are the sizes drawn with the seed.
  unfoldable pub tasks_from : (ℕ → ℕ) → List ℕ → ℕ → ℕ → ℕ → ℕ → List PrepareTask
  tasks_from sizes existing_indices agent_id num_agents idx zero = []
  tasks_from sizes existing_indices agent_id num_agents idx (suc n) =
      let later = tasks_from sizes existing_indices agent_id num_agents (idx + 1) n in
      if contains idx existing_indices
      then later
      else if ltb 1 num_agents && not (idx % num_agents == agent_id)
      then later
      else elim (uris idx) [
        | none ↦ later
        | some uri ↦ record { uri = uri; size = sizes idx; file_idx = idx } ∷ later
      ]

  -- The objects that exist already, written down again. Their sizes are drawn without the seed, one
  -- for each object; `k` of them were drawn before.
  unfoldable pub existing_from : (ℕ → ℕ) → ℕ → ℕ → ℕ → List PreparedObject
  existing_from fresh_sizes k idx zero = []
  existing_from fresh_sizes k idx (suc n) = elim (uris idx) [
    | none ↦ existing_from fresh_sizes k (idx + 1) n
    | some uri ↦
        record { uri = uri; size = fresh_sizes k; was_created = false }
        ∷ existing_from fresh_sizes (k + 1) (idx + 1) n
  ]

  -- Objects that exist, tasks, and the number of tasks that the progress bar is given.
  unfoldable pub prepare_sequential :
      (ℕ → ℕ)
      → (ℕ → ℕ)
      → PrepareConfig
      → Bool
      → ListingResult
      → ℕ
      → ℕ
      → ℕ
      → List PreparedObject × (List PrepareTask × ℕ)
  prepare_sequential sizes fresh_sizes config kv_cache_covers_all listing agent_id num_agents
        count =
      let (existing_count, existing_indices) =
        existing_objects config kv_cache_covers_all count listing in
      if to_create existing_count count == 0
      then (existing_from fresh_sizes 0 0 count, ([], 0))
      else (
        [],
        (
          tasks_from sizes existing_indices agent_id num_agents 0 count,
          length (missing_indices existing_indices agent_id num_agents count),
        ),
      )

-- An entry of `ensure_objects` and a pool, in the parallel strategy.
pub record PreparePlan : Type 0 where
  pub count : ℕ
  pub pool : Pool
  pub endpoints : List Text
  pub existing_indices : List ℕ
  pub force_overwrite : Bool
  pub skip_verification : Bool
  pub prefix_shards : ℕ

abbrev pub in_share : Bool → ℕ → ℕ → ℕ → Bool
in_share shared_storage agent_id num_agents idx =
    not (shared_storage && (ltb 1 num_agents && not (idx % num_agents == agent_id)))

-- The number of tasks that is announced for a plan.
unfoldable pub actual_to_create : Bool → ℕ → ℕ → PreparePlan → ℕ
actual_to_create shared_storage agent_id num_agents plan =
    if plan.skip_verification && not plan.force_overwrite
    then 0
    else if plan.force_overwrite
    then (if shared_storage && ltb 1 num_agents
        then (plan.count + num_agents - 1 - agent_id) / num_agents
        else plan.count)
    else length (
        picked
          (λ idx.
            not (contains idx plan.existing_indices)
            && in_share shared_storage agent_id num_agents idx)
          0 plan.count)

unfoldable pub should_create : PreparePlan → ℕ → Bool
should_create plan idx =
    if plan.skip_verification && not plan.force_overwrite
    then false
    else if plan.force_overwrite
    then true
    else not (contains idx plan.existing_indices)

-- `endpoints[idx % endpoints.len()]`; the list has a member.
abbrev pub endpoint_of : PreparePlan → ℕ → Text
endpoint_of plan idx = unwrap_or (get_elem? plan.endpoints (idx % length plan.endpoints)) []

-- The path in the tree, or where the tree has none, or no tree is used, a flat key.
unfoldable pub task_uri : Option TreeManifest → PreparePlan → ℕ → Text
task_uri none plan idx =
    unwrap_or (object_uri none plan.prefix_shards plan.pool (endpoint_of plan idx) idx) []
task_uri (some manifest) plan idx =
    unwrap_or (object_uri (some manifest) plan.prefix_shards plan.pool (endpoint_of plan idx) idx)
      (uri_of (endpoint_of plan idx) (flat_name plan.pool idx))

abbrev pub task_chunk_size : ℕ
task_chunk_size = 100000

-- The tasks of the loop that are spawned: the loop ends where the chunk `k` that a task fills, and
-- in which there is room for `room` tasks, ends with an error.
unfoldable pub until_abort : (ℕ → Bool) → ℕ → ℕ → List PrepareTask → List PrepareTask
until_abort aborts k room [] = []
until_abort aborts k zero (task ∷ tasks) = []
until_abort aborts k (suc zero) (task ∷ tasks) =
    let later = until_abort aborts (k + 1) task_chunk_size tasks in
    if aborts k then task ∷ [] else task ∷ later
until_abort aborts k (suc (suc room)) (task ∷ tasks) = task ∷ until_abort aborts k (suc room) tasks

module _ (shared_storage : Bool) (agent_id num_agents : ℕ) (manifest : Option TreeManifest) where
  -- What one turn of a plan adds to the tasks. `sizes` are those that its generator draws.
  unfoldable pub plan_turn : (PreparePlan → ℕ → ℕ) → ℕ → PreparePlan → List PrepareTask
  plan_turn sizes idx plan =
      if leb plan.count idx
      then []
      else if not (should_create plan idx)
      then []
      else if shared_storage && (ltb 1 num_agents && not (idx % num_agents == agent_id))
      then []
      else record { uri = task_uri manifest plan idx; size = sizes plan idx; file_idx = idx } ∷ []

  -- One round of the loop: a turn of each plan.
  unfoldable pub round : (PreparePlan → ℕ → ℕ) → ℕ → List PreparePlan → List PrepareTask
  round sizes idx [] = []
  round sizes idx (plan ∷ plans) = plan_turn sizes idx plan ++ round sizes idx plans

  -- `n` rounds, from `idx` on.
  unfoldable pub rounds : (PreparePlan → ℕ → ℕ) → List PreparePlan → ℕ → ℕ → List PrepareTask
  rounds sizes plans idx zero = []
  rounds sizes plans idx (suc n) = round sizes idx plans ++ rounds sizes plans (idx + 1) n

  abbrev pub most : List PreparePlan → ℕ
  most [] = 0
  most (plan ∷ plans) = max plan.count (most plans)

  -- Every plan has a turn for each of its numbers, until a chunk of tasks ends with an error:
  -- `aborts` says which chunks do.
  unfoldable pub parallel_tasks :
      (ℕ → Bool) → (PreparePlan → ℕ → ℕ) → List PreparePlan → List PrepareTask
  parallel_tasks aborts sizes plans =
      until_abort aborts 0 task_chunk_size (rounds sizes plans 0 (most plans))

  -- The number of tasks that the progress bar is given.
  unfoldable pub total_to_create : List PreparePlan → ℕ
  total_to_create [] = 0
  total_to_create (plan ∷ plans) =
      actual_to_create shared_storage agent_id num_agents plan + total_to_create plans
