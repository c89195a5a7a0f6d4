-- ===== src/LiveStats/Tests.antt =====
-- src/live_stats.rs: runs of the counters.
use sai3_bench.Prelude.{◌≡◌, refl, List, [], ◌∷◌}
use sai3_bench.LiveStats.{
  unknown, prepare, listing, workload, new_with_concurrency, get_stage, snapshot, Update, got, put,
  meta, enter, progress, update, record_get, record_meta, set_stage, set_legacy, to_proto, from_i32,
  reset_for_workload, set_stage_progress, reset_for_stage, set_prepare_progress, increment,
  prepare_progress, prepare_complete, workload_reset, stage_reset, after,
}
use sai3_bench.LiveStats.History.{Shows, snapshot-Shows}

-- A prepare phase, and a workload of three operations after it. The last update comes first.
abbrev history : List Update
history =
    meta
    ∷ got 2048
    ∷ got 1024
    ∷ enter workload 0
    ∷ workload_reset
    ∷ prepare_complete
    ∷ put 512
    ∷ increment
    ∷ enter prepare 100
    ∷ []

bytes_read : (snapshot (after history (new_with_concurrency 8))).get_bytes ≡ 3072
unfolding snapshot after update record_meta record_get set_stage set_legacy to_proto
    reset_for_workload
bytes_read = refl

-- A tracker at Listing: the snapshot shows it, get_stage does not.
abbrev scanning : List Update
scanning = progress 7 ∷ enter listing 50 ∷ []

scan_shown : (snapshot (after scanning (new_with_concurrency 8))).current_stage ≡ listing
unfolding snapshot after from_i32 update set_stage_progress set_stage set_legacy to_proto
scan_shown = refl

scan_hidden : get_stage (after scanning (new_with_concurrency 8)) ≡ unknown
unfolding get_stage after update set_stage_progress set_stage set_legacy to_proto
scan_hidden = refl

-- The progress of a listing, reported with set_prepare_progress, changes the stage.
listing_lost :
    (snapshot (
      after (prepare_progress 7 50 ∷ enter listing 50 ∷ []) (new_with_concurrency 8))).current_stage
    ≡ prepare
unfolding snapshot after from_i32 update set_prepare_progress to_proto
listing_lost = refl

-- A prepare stage entered by reset_for_stage shows the older total of the stage before.
stale_total :
    (after
      (stage_reset "again" prepare ∷ prepare_progress 3 9 ∷ [])
      (new_with_concurrency 8)).prepare_objects_total
    ≡ 9
unfolding after update reset_for_stage set_prepare_progress
stale_total = refl

snapshot-Shows_example :
    Shows history (snapshot (after history (new_with_concurrency 8)))
    × (get_stage (after history (new_with_concurrency 8)) ≡ workload)
snapshot-Shows_example = snapshot-Shows history 8
