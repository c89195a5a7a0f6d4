-- ===== src/LiveStats/History.antt =====
-- src/live_stats.rs: a snapshot as a function of what happened since the last reset.
use mathlib.Core.Path.{Path}
use sai3_bench.Prelude.{
  ℕ, ◌+◌, ◌%◌, ◌^◌, ◌≡◌, refl, ap, ◌∙◌, inl, inr, List, [], ◌∷◌, length, ◌==◌, Bool-cases, sum_by,
  u64, arith,
}
use sai3_bench.LiveStats.{
  WorkloadStage, unknown, prepare, workload, cleanup, listing, custom, to_proto, from_i32,
  LiveStatsTracker, new_with_concurrency, record_get, record_put, record_meta, set_legacy,
  set_stage, set_stage_with_name, set_stage_progress, increment_stage_progress, get_stage,
  set_prepare_progress, set_prepare_complete, reset_for_workload, reset_for_stage, snapshot,
  LiveStatsSnapshot, Update, got, put, meta, enter, enter_named, progress, increment,
  prepare_progress, prepare_complete, workload_reset, stage_reset, update, after,
}

-- The sizes of the objects read since the last reset.
abbrev pub gets : List Update → List ℕ
gets [] = []
gets (got bytes ∷ h) = bytes ∷ gets h
gets (put bytes ∷ h) = gets h
gets (meta ∷ h) = gets h
gets (enter stage total ∷ h) = gets h
gets (enter_named stage name total ∷ h) = gets h
gets (progress current ∷ h) = gets h
gets (increment ∷ h) = gets h
gets (prepare_progress created total ∷ h) = gets h
gets (prepare_complete ∷ h) = gets h
gets (workload_reset ∷ h) = []
gets (stage_reset name stage ∷ h) = []

-- The sizes of the objects written since the last reset.
abbrev pub puts : List Update → List ℕ
puts [] = []
puts (got bytes ∷ h) = puts h
puts (put bytes ∷ h) = bytes ∷ puts h
puts (meta ∷ h) = puts h
puts (enter stage total ∷ h) = puts h
puts (enter_named stage name total ∷ h) = puts h
puts (progress current ∷ h) = puts h
puts (increment ∷ h) = puts h
puts (prepare_progress created total ∷ h) = puts h
puts (prepare_complete ∷ h) = puts h
puts (workload_reset ∷ h) = []
puts (stage_reset name stage ∷ h) = []

-- The number of metadata operations since the last reset.
abbrev pub metas : List Update → ℕ
metas [] = 0
metas (got bytes ∷ h) = metas h
metas (put bytes ∷ h) = metas h
metas (meta ∷ h) = metas h + 1
metas (enter stage total ∷ h) = metas h
metas (enter_named stage name total ∷ h) = metas h
metas (progress current ∷ h) = metas h
metas (increment ∷ h) = metas h
metas (prepare_progress created total ∷ h) = metas h
metas (prepare_complete ∷ h) = metas h
metas (workload_reset ∷ h) = 0
metas (stage_reset name stage ∷ h) = 0

-- The stage that was entered last.
abbrev pub last_stage : List Update → WorkloadStage
last_stage [] = unknown
last_stage (got bytes ∷ h) = last_stage h
last_stage (put bytes ∷ h) = last_stage h
last_stage (meta ∷ h) = last_stage h
last_stage (enter stage total ∷ h) = stage
last_stage (enter_named stage name total ∷ h) = stage
last_stage (progress current ∷ h) = last_stage h
last_stage (increment ∷ h) = last_stage h
last_stage (prepare_progress created total ∷ h) = prepare
last_stage (prepare_complete ∷ h) = last_stage h
last_stage (workload_reset ∷ h) = last_stage h
last_stage (stage_reset name stage ∷ h) = stage

abbrev pub size_of : ℕ → ℕ
size_of n = n

-- The counters of a tracker, and those that a history gives.
abbrev counters : LiveStatsTracker → ℕ × ℕ × ℕ × ℕ × ℕ
counters s = (s.get_ops, s.get_bytes, s.put_ops, s.put_bytes, s.meta_ops)

abbrev counted : List Update → ℕ × ℕ × ℕ × ℕ × ℕ
counted h = (
  length (gets h) % u64,
  sum_by size_of (gets h) % u64,
  length (puts h) % u64,
  sum_by size_of (puts h) % u64,
  metas h % u64,
)

counters_eq :
    {a b c d e a' b' c' d' e' : ℕ}
    → a ≡ a'
    → b ≡ b'
    → c ≡ c'
    → d ≡ d'
    → e ≡ e'
    → Path (ℕ × ℕ × ℕ × ℕ × ℕ) (a, b, c, d, e) (a', b', c', d', e')
counters_eq p q r s t i = (p i, q i, r i, s i, t i)

set_stage_lem :
    (stage : WorkloadStage) (total : ℕ) (s : LiveStatsTracker)
    → (counters (set_stage stage total s) ≡ counters s)
      × ((set_stage stage total s).current_stage ≡ to_proto stage)
unfolding set_stage set_legacy to_proto
set_stage_lem unknown total s = (refl, refl)
set_stage_lem prepare total s = (refl, refl)
set_stage_lem workload total s = (refl, refl)
set_stage_lem cleanup total s = (refl, refl)
set_stage_lem listing total s = (refl, refl)
set_stage_lem custom total s = (refl, refl)

progress_lem :
    (current : ℕ) (s : LiveStatsTracker)
    → (counters (set_stage_progress current s) ≡ counters s)
      × ((set_stage_progress current s).current_stage ≡ s.current_stage)
unfolding set_stage_progress
progress_lem current s = elim (Bool-cases (s.current_stage == to_proto prepare)) [
  | inl e ↦ rw e (refl, refl)
  | inr e ↦ rw e (refl, refl)
]

increment_lem :
    (s : LiveStatsTracker)
    → (counters (increment_stage_progress s) ≡ counters s)
      × ((increment_stage_progress s).current_stage ≡ s.current_stage)
unfolding increment_stage_progress
increment_lem s = elim (Bool-cases (s.current_stage == to_proto prepare)) [
  | inl e ↦ rw e (refl, refl)
  | inr e ↦ rw e (refl, refl)
]

after-counters :
    (h : List Update) (concurrency : ℕ)
    → let s = after h (new_with_concurrency concurrency) in
      (counters s ≡ counted h) × (s.current_stage ≡ to_proto (last_stage h))
unfolding after update new_with_concurrency sum_by set_stage_with_name record_get record_put
    record_meta set_prepare_progress set_prepare_complete reset_for_workload reset_for_stage
after-counters [] c = (refl, refl)
after-counters (got bytes ∷ h) c =
    let (e, k) = after-counters h c in
    (
      counters_eq (omega (arith, ap (λ t. t.0) e)) (omega (arith, ap (λ t. t.1) e))
          (ap (λ t. t.2) e) (ap (λ t. t.3) e) (ap (λ t. t.4) e),
      k,
    )
after-counters (put bytes ∷ h) c =
    let (e, k) = after-counters h c in
    (
      counters_eq (ap (λ t. t.0) e) (ap (λ t. t.1) e) (omega (arith, ap (λ t. t.2) e))
          (omega (arith, ap (λ t. t.3) e)) (ap (λ t. t.4) e),
      k,
    )
after-counters (meta ∷ h) c =
    let (e, k) = after-counters h c in
    (
      counters_eq (ap (λ t. t.0) e) (ap (λ t. t.1) e) (ap (λ t. t.2) e) (ap (λ t. t.3) e)
          (omega (arith, ap (λ t. t.4) e)),
      k,
    )
after-counters (enter stage total ∷ h) c =
    let (e, k) = set_stage_lem stage total (after h (new_with_concurrency c)) in
    (e ∙ (after-counters h c).0, k)
after-counters (enter_named stage name total ∷ h) c =
    let (e, k) = set_stage_lem stage total (after h (new_with_concurrency c)) in
    (e ∙ (after-counters h c).0, k)
after-counters (progress current ∷ h) c =
    let (e, k) = progress_lem current (after h (new_with_concurrency c)) in
    (e ∙ (after-counters h c).0, k ∙ (after-counters h c).1)
after-counters (increment ∷ h) c =
    let (e, k) = increment_lem (after h (new_with_concurrency c)) in
    (e ∙ (after-counters h c).0, k ∙ (after-counters h c).1)
after-counters (prepare_progress created total ∷ h) c = ((after-counters h c).0, refl)
after-counters (prepare_complete ∷ h) c = after-counters h c
after-counters (workload_reset ∷ h) c = (refl, (after-counters h c).1)
after-counters (stage_reset name stage ∷ h) c = (refl, refl)

from_to : (stage : WorkloadStage) → from_i32 (to_proto stage % 2 ^ 32) ≡ stage
unfolding from_i32 to_proto
from_to unknown = refl
from_to prepare = refl
from_to workload = refl
from_to cleanup = refl
from_to listing = refl
from_to custom = refl

-- What get_stage shows of a stage.
abbrev pub shown_stage : WorkloadStage → WorkloadStage
shown_stage unknown = unknown
shown_stage prepare = prepare
shown_stage workload = workload
shown_stage cleanup = cleanup
shown_stage listing = unknown
shown_stage custom = custom

get_stage_lem :
    (stage : WorkloadStage) (s : LiveStatsTracker)
    → s.current_stage ≡ to_proto stage
    → get_stage s ≡ shown_stage stage
unfolding get_stage to_proto
get_stage_lem unknown s e = rw e refl
get_stage_lem prepare s e = rw e refl
get_stage_lem workload s e = rw e refl
get_stage_lem cleanup s e = rw e refl
get_stage_lem listing s e = rw e refl
get_stage_lem custom s e = rw e refl

-- A snapshot shows what happened since the last reset, up to 2^64, and the last stage.
pub record Shows (h : List Update) (s : LiveStatsSnapshot) : Type 0 where
  pub shows_get_ops : s.get_ops ≡ length (gets h) % u64
  pub shows_get_bytes : s.get_bytes ≡ sum_by size_of (gets h) % u64
  pub shows_put_ops : s.put_ops ≡ length (puts h) % u64
  pub shows_put_bytes : s.put_bytes ≡ sum_by size_of (puts h) % u64
  pub shows_meta_ops : s.meta_ops ≡ metas h % u64
  pub shows_last_stage : s.current_stage ≡ last_stage h

-- After any history of updates of a new tracker, a snapshot shows the numbers of the operations and
-- of their bytes since the last reset, modulo 2^64, and the stage that was entered last; get_stage
-- returns that stage too, except that it returns Unknown for Listing.
pub snapshot-Shows :
    (h : List Update) (concurrency : ℕ)
    → Shows h (snapshot (after h (new_with_concurrency concurrency)))
      × (get_stage (after h (new_with_concurrency concurrency)) ≡ shown_stage (last_stage h))
unfolding snapshot
snapshot-Shows h c =
    let (e, k) = after-counters h c in
    (
      record {
        shows_get_ops = ap (λ t. t.0) e;
        shows_get_bytes = ap (λ t. t.1) e;
        shows_put_ops = ap (λ t. t.2) e;
        shows_put_bytes = ap (λ t. t.3) e;
        shows_meta_ops = ap (λ t. t.4) e;
        shows_last_stage = ap (λ n. from_i32 (n % 2 ^ 32)) k ∙ from_to (last_stage h);
      },
      get_stage_lem (last_stage h) (after h (new_with_concurrency c)) k,
    )
