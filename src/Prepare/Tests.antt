-- ===== src/Prepare/Tests.antt =====
-- Runs of the prepare phase and of the cleanup.
use sai3_bench.Prelude.{
  ◌⊎◌, ◌≤◌, ◌*◌, ◌%◌, ◌&&◌, ltb, ℕ, zero, suc, ◌+◌, ◌==◌, if◌then◌else◌, ◌≡◌, ◌<◌, refl, true,
  false, Option, none, some, List, [], ◌∷◌, map, All, length, arith,
}
use sai3_bench.Prelude.Keys.{nat_key, list_key, list_eq}
use sai3_bench.Prelude.Assoc.{contains}
use sai3_bench.Prelude.Text.{Text, codes, decimal, decimal_8}
use sai3_bench.DirectoryTree.{bottom}
use sai3_bench.DirectoryTree.Manifest.{TreeManifest, get_file_path, get_file_name, join_path}
use sai3_bench.Errors.Listing.{with_thresholds}
use sai3_bench.Prepare.{
  prepared, deletable, flat_key, flat_name, uri_of, object_uri, ends_with_slash, hex_2,
}
use sai3_bench.Prepare.Listing.{no_listing, found, list_items}
use sai3_bench.Prepare.Plan.{
  PrepareConfig, PreparePlan, prepare_sequential, tasks_from, parallel_tasks, total_to_create,
}
use sai3_bench.Prepare.Cleanup.{
  flat_included, flat_kept, tree_included, generated_from, is_not_found, has_part, tolerant, gone,
  refused, cleanup_prepared_objects,
}
use sai3_bench.Prepare.Shares.{Fits, has_uri, needed, prepare_sequential_share}
use sai3_bench.Prepare.Again.{prepare_sequential_again}
use sai3_bench.Prepare.Announced.{parallel_tasks_announced}
use sai3_bench.Prepare.Owners.{cleanup_takes_own}
use sai3_bench.Prepare.Deletions.{cleanup_prepared_objects_lem}

abbrev base : Text
base = codes "s3://bucket/data/"

abbrev config : PrepareConfig
config = record { skip_verification = false; force_overwrite = false; key_prefix_shards = 256 }

sharded_uri :
    uri_of base (flat_key 256 prepared 4095) ≡ codes "s3://bucket/data/ff/prepared-00004095.dat"
unfolding uri_of flat_key flat_name ends_with_slash hex_2 decimal_8 decimal
sharded_uri = refl

abbrev uris : ℕ → Option Text
uris = object_uri none 256 prepared base

abbrev some_listed : List Text
some_listed = codes "data/prepared-00000002.dat" ∷ codes "data/notes.txt" ∷ []

-- Of five objects one exists: the second of two agents makes the numbers 1 and 3.
prepare_sequential_share_example :
    let listing = (list_items (map found some_listed) (with_thresholds 50 5) no_listing).1 in
    let tasks = (prepare_sequential uris (λ n. n + 100) (λ n. n) config false listing 1 2 5).1.0 in
    (contains 3 (map (λ t. t.file_idx) tasks) ≡ (
      needed config false some_listed 5 3
      && ((if ltb 1 2 then 3 % 2 == 1 else true) && has_uri (uris 3))))
    × All (Fits uris (λ n. n + 100)) tasks
prepare_sequential_share_example =
    prepare_sequential_share uris (λ n. n + 100) (λ n. n) config false some_listed
      (with_thresholds 50 5) 1 2 5 3 (omega arith) (omega arith)

-- A tree without a path for the number 3.
abbrev short_tree : ℕ → Option Text
short_tree n = if n == 3 then none else some base

abbrev plans : List PreparePlan
plans =
    record {
      count = 7;
      pool = prepared;
      endpoints = base ∷ [];
      existing_indices = 3 ∷ [];
      force_overwrite = false;
      skip_verification = false;
      prefix_shards = 0;
    }
    ∷ record {
      count = 4;
      pool = deletable;
      endpoints = base ∷ [];
      existing_indices = [];
      force_overwrite = true;
      skip_verification = false;
      prefix_shards = 0;
    }
    ∷ []

parallel_tasks_announced_example :
    let made = length (parallel_tasks true 1 2 none (λ k. false) (λ plan n. n) plans) in
    let announced = total_to_create true 1 2 none plans in
    (made ≡ announced)
    ⊎ ((k : ℕ) × (false ≡ true)
        × (made ≡ 100000 * (k + 1))
        × (made ≤ announced)
        × ((j : ℕ) → j < k → false ≡ false))
parallel_tasks_announced_example =
    parallel_tasks_announced true 1 2 none (λ plan n. n) (λ k. false) plans (omega arith)

-- The read pool exists, the pool for deletions does not, and nothing is made for it.
abbrev read_pool : List Text
read_pool =
    codes "s3://bucket/data/00/prepared-00000000.dat"
    ∷ codes "s3://bucket/data/01/prepared-00000001.dat"
    ∷ []

read_pool_listed :
    (i : ℕ)
    → i < 2
    → (uri : Text) × (object_uri none 256 prepared base i ≡ some uri)
      × (contains uri read_pool ≡ true)
unfolding object_uri uri_of flat_key flat_name ends_with_slash hex_2 decimal_8 decimal contains
    list_eq
read_pool_listed zero h = (codes "s3://bucket/data/00/prepared-00000000.dat", refl, refl)
read_pool_listed (suc zero) h = (codes "s3://bucket/data/01/prepared-00000001.dat", refl, refl)
read_pool_listed (suc (suc i)) h = absurd (omega arith)

prepare_sequential_again_example :
    (prepare_sequential
      (object_uri none 256 deletable base)
      (λ n. n)
      (λ n. n)
      config
      false
      (list_items (map found read_pool) (with_thresholds 50 5) no_listing).1
      0
      1
      2).1.0
    ≡ []
prepare_sequential_again_example =
    prepare_sequential_again none 256 prepared deletable base read_pool (with_thresholds 50 5)
      (λ n. n) (λ n. n) config false 0 1 2 read_pool_listed (omega arith) refl

abbrev manifest : TreeManifest
manifest = record {
  all_directories = codes "d1" ∷ codes "d1/d2_w1" ∷ codes "d1/d2_w2" ∷ [];
  by_level = [];
  agent_assignments = [];
  total_dirs = 3;
  total_files = 20;
  files_per_dir = 10;
  distribution = bottom;
  file_ranges = [];
  max_depth = 2;
  leaf_start_index = 1;
}

cleanup_takes_own_example :
    (flat_included 1 4 (uri_of base (flat_key 0 prepared 13)) ≡ some true)
    × (flat_kept 1 4
          (record { uri = uri_of base (flat_key 0 prepared 13); size = 9; was_created = true })
        ≡ some true)
    × (tree_included 1 4 (uri_of base (codes "d1/d2_w2/file_00000013.dat")) ≡ true)
    × (map (λ o. o.uri) (generated_from 0 base prepared 1 4 0 20)
        ≡ map (λ t. t.uri) (tasks_from (object_uri none 0 prepared base) (λ n. n) [] 1 4 0 20))
cleanup_takes_own_example =
    cleanup_takes_own 0 base prepared manifest (codes "d1/d2_w2/file_00000013.dat") (λ n. n) 1 4 20
      9 13 (omega arith) (unfold get_file_path get_file_name join_path decimal_8 decimal in refl)

cleanup_prepared_objects_lem_example :
    (cleanup_prepared_objects true tolerant
        (gone ∷ refused (codes "404 not found") ∷ refused (codes "timeout") ∷ [])
      ≡ some (record { succeeded = 1; already = 1; errors = 1 }))
    × ◌≡◌ {A = ℕ} 3 3
unfolding is_not_found has_part
cleanup_prepared_objects_lem_example =
    cleanup_prepared_objects_lem true tolerant
      (gone ∷ refused (codes "404 not found") ∷ refused (codes "timeout") ∷ [])
