-- ===== src/LiveStats/Legacy.antt =====
-- src/live_stats.rs: the older fields for the prepare phase beside the stage system.
use sai3_bench.Prelude.{
  ℕ, ◌+◌, ◌%◌, ◌≡◌, ◌⊎◌, refl, ap, inl, inr, Bool, true, false, List, [], ◌∷◌, ◌==◌, arith, u64,
}
use sai3_bench.LiveStats.{
  WorkloadStage, unknown, prepare, workload, cleanup, listing, custom, to_proto, LiveStatsTracker,
  new_with_concurrency, record_get, record_put, record_meta, set_legacy, set_stage,
  set_stage_with_name, set_stage_progress, increment_stage_progress, set_prepare_progress,
  set_prepare_complete, reset_for_workload, Update, got, put, meta, enter, enter_named, progress,
  increment, prepare_progress, prepare_complete, workload_reset, stage_reset, update, after,
}

-- Whether the stage, where there is one, was entered by another method than reset_for_stage.
abbrev pub entered : List Update → Bool
entered [] = true
entered (got bytes ∷ h) = entered h
entered (put bytes ∷ h) = entered h
entered (meta ∷ h) = entered h
entered (enter stage total ∷ h) = true
entered (enter_named stage name total ∷ h) = true
entered (progress current ∷ h) = entered h
entered (increment ∷ h) = entered h
entered (prepare_progress created total ∷ h) = true
entered (prepare_complete ∷ h) = entered h
entered (workload_reset ∷ h) = entered h
entered (stage_reset name stage ∷ h) = false

-- The stage is another one than Prepare and the older flag is off, or it is Prepare and the older
-- fields show the progress of the stage.
pub InStep : LiveStatsTracker → Type 0
InStep s =
    (((s.current_stage == 1) ≡ false) × (s.in_prepare_phase ≡ 0))
    ⊎ (((s.current_stage == 1) ≡ true)
        × (s.prepare_objects_created ≡ s.stage_progress_current)
        × (s.prepare_objects_total ≡ s.stage_progress_total))

set_stage-InStep :
    (stage : WorkloadStage) (total : ℕ) (s : LiveStatsTracker) → InStep (set_stage stage total s)
unfolding InStep set_stage set_legacy to_proto
set_stage-InStep unknown total s = inl (refl, refl)
set_stage-InStep prepare total s = inr (refl, refl, refl)
set_stage-InStep workload total s = inl (refl, refl)
set_stage-InStep cleanup total s = inl (refl, refl)
set_stage-InStep listing total s = inl (refl, refl)
set_stage-InStep custom total s = inl (refl, refl)

set_stage_progress-InStep :
    (current : ℕ) (s : LiveStatsTracker) → InStep s → InStep (set_stage_progress current s)
unfolding InStep set_stage_progress to_proto
set_stage_progress-InStep current s (inl (e, f)) = rw e (inl (e, f))
set_stage_progress-InStep current s (inr (e, c, t)) = rw e (inr (e, refl, t))

increment-InStep : (s : LiveStatsTracker) → InStep s → InStep (increment_stage_progress s)
unfolding InStep increment_stage_progress to_proto
increment-InStep s (inl (e, f)) = rw e (inl (e, f))
increment-InStep s (inr (e, c, t)) = rw e (inr (e, ap (λ n. (n + 1) % u64) c, t))

set_prepare_complete-InStep : (s : LiveStatsTracker) → InStep s → InStep (set_prepare_complete s)
unfolding InStep set_prepare_complete
set_prepare_complete-InStep s (inl (e, f)) = inl (e, refl)
set_prepare_complete-InStep s (inr p) = inr p

-- After any history of updates of a new tracker in which the present stage was not entered by
-- reset_for_stage, the older fields agree with the stage system: outside Prepare the older flag is
-- off, and in Prepare the older numbers are those of the progress of the stage.
pub after-InStep :
    (h : List Update) (concurrency : ℕ)
    → entered h ≡ true
    → InStep (after h (new_with_concurrency concurrency))
unfolding InStep after update new_with_concurrency record_get record_put record_meta
    set_stage_with_name set_prepare_progress reset_for_workload to_proto
after-InStep [] c k = inl (refl, refl)
after-InStep (got bytes ∷ h) c k = after-InStep h c k
after-InStep (put bytes ∷ h) c k = after-InStep h c k
after-InStep (meta ∷ h) c k = after-InStep h c k
after-InStep (enter stage total ∷ h) c k =
    set_stage-InStep stage total (after h (new_with_concurrency c))
after-InStep (enter_named stage name total ∷ h) c k =
    set_stage-InStep stage total (after h (new_with_concurrency c))
after-InStep (progress current ∷ h) c k =
    set_stage_progress-InStep current (after h (new_with_concurrency c)) (after-InStep h c k)
after-InStep (increment ∷ h) c k =
    increment-InStep (after h (new_with_concurrency c)) (after-InStep h c k)
after-InStep (prepare_progress created total ∷ h) c k = inr (refl, refl, refl)
after-InStep (prepare_complete ∷ h) c k =
    set_prepare_complete-InStep (after h (new_with_concurrency c)) (after-InStep h c k)
after-InStep (workload_reset ∷ h) c k = after-InStep h c k
after-InStep (stage_reset name stage ∷ h) c k = ground (arith, k)
