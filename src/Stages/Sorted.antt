-- ===== src/Stages/Sorted.antt =====
-- The order in which stages run.
use mathlib.Core.List.{Perm}
use mathlib.Core.List.Perm
use sai3_bench.Prelude.{
  ℕ, ◌<◌, ◌≡◌, ◌≢◌, refl, sym, subst, Bool, true, false, Option, none, some, List, [], ◌∷◌, map,
  All, All-map, leb, if◌then◌else◌, arith, inl, inr, Bool-cases, Option-cases, ap,
}
use sai3_bench.Prelude.Keys.{nat_key}
use sai3_bench.Prelude.Assoc.{contains, IsNodup}
use sai3_bench.Controller.Barrier.{PhaseBarrierConfig, all_or_nothing}
use sai3_bench.Stages.{
  StageSpecificConfig, execute, prepare, cleanup, custom, hybrid, validation, get_phase_config,
  phase_name, StageConfig, BarrierSyncConfig, DistributedConfig, ok, orders, validate_stages,
  insert_stage, sort_by_order, with_barrier, get_sorted_stages,
}
use sai3_bench.Stages.Check.{validate_stages_iff}

abbrev pub Ascending : List StageConfig → Type 0
Ascending [] = Unit
Ascending (s ∷ ss) = All (λ t. s.order < t.order) ss × Ascending ss

module _ {κ} (P : StageConfig → Type κ) where
  All-insert_stage :
      (s : StageConfig) (ss : List StageConfig) → P s → All P ss → All P (insert_stage s ss)
  unfolding insert_stage
  All-insert_stage s [] p ps = (p, tt)
  All-insert_stage s (t ∷ ts) p ps = elim (Bool-cases (leb s.order t.order)) [
    | inl e ↦ rw (e, insert_stage) (p, ps)
    | inr e ↦ rw (e, insert_stage) (ps.0, All-insert_stage s ts p ps.1)
  ]

  All-sort_by_order : (ss : List StageConfig) → All P ss → All P (sort_by_order ss)
  unfolding sort_by_order
  All-sort_by_order [] ps = tt
  All-sort_by_order (s ∷ ss) ps =
      All-insert_stage s (sort_by_order ss) ps.0 (All-sort_by_order ss ps.1)

insert_stage-Ascending :
    (s : StageConfig) (ss : List StageConfig)
    → All (λ t. s.order ≢ t.order) ss
    → Ascending ss
    → Ascending (insert_stage s ss)
unfolding insert_stage
insert_stage-Ascending s [] apart h = (tt, tt)
insert_stage-Ascending s (t ∷ ts) apart h = elim (Bool-cases (leb s.order t.order)) [
  | inl e ↦
      let lt : s.order < t.order = ground (arith, apart.0) in
      rw (e, insert_stage) ((lt, All-map (λ u m. omega (arith, lt)) ts h.0), h)
  | inr e ↦
      let lt : t.order < s.order = ground arith in
      rw (e, insert_stage)
        (
          All-insert_stage (λ u. t.order < u.order) s ts lt h.0,
          insert_stage-Ascending s ts apart.1 h.1,
        )
]

insert_stage-Perm : (s : StageConfig) (ss : List StageConfig) → Perm (insert_stage s ss) (s ∷ ss)
unfolding insert_stage
insert_stage-Perm s [] = Perm.refl (s ∷ [])
insert_stage-Perm s (t ∷ ts) = elim (Bool-cases (leb s.order t.order)) [
  | inl e ↦ rw (e, insert_stage) (Perm.refl (s ∷ t ∷ ts))
  | inr e ↦
      rw (e, insert_stage) (Perm.trans (Perm.cons t (insert_stage-Perm s ts)) (Perm.swap s t ts))
]

sort_by_order-Perm : (ss : List StageConfig) → Perm (sort_by_order ss) ss
unfolding sort_by_order
sort_by_order-Perm [] = Perm.refl []
sort_by_order-Perm (s ∷ ss) =
    Perm.trans (insert_stage-Perm s (sort_by_order ss)) (Perm.cons s (sort_by_order-Perm ss))

apart :
    (s : StageConfig) (ss : List StageConfig)
    → contains s.order (orders ss) ≡ false
    → All (λ t. s.order ≢ t.order) ss
unfolding contains
apart s [] h = tt
apart s (t ∷ ts) h = (ground arith, apart s ts (ground arith))

sort_by_order-Ascending :
    (ss : List StageConfig) → IsNodup (orders ss) → Ascending (sort_by_order ss)
unfolding sort_by_order
sort_by_order-Ascending [] h = tt
sort_by_order-Ascending (s ∷ ss) h =
    insert_stage-Ascending s (sort_by_order ss)
      (All-sort_by_order (λ t. s.order ≢ t.order) ss (apart s ss h.0))
      (sort_by_order-Ascending ss h.1)

with_barrier-order :
    (sync : BarrierSyncConfig) (s : StageConfig) → (with_barrier sync s).order ≡ s.order
unfolding with_barrier
with_barrier-order sync s = ground arith

All-with_barrier :
    (sync : BarrierSyncConfig) (n : ℕ) (ss : List StageConfig)
    → All (λ t. n < t.order) ss
    → All (λ t. n < t.order) (map (with_barrier sync) ss)
All-with_barrier sync n [] h = tt
All-with_barrier sync n (s ∷ ss) h =
    (omega (arith, with_barrier-order sync s, h.0), All-with_barrier sync n ss h.1)

map-Ascending :
    (sync : BarrierSyncConfig) (ss : List StageConfig)
    → Ascending ss
    → Ascending (map (with_barrier sync) ss)
map-Ascending sync [] h = tt
map-Ascending sync (s ∷ ss) h = (
  subst (λ n. All (λ t. n < t.order) (map (with_barrier sync) ss)) (sym (with_barrier-order sync s))
      (All-with_barrier sync s.order ss h.0),
  map-Ascending sync ss h.1,
)

-- Barriers filled in when `on`.
abbrev pub filled : Bool → BarrierSyncConfig → List StageConfig → List StageConfig
filled on sync ss = if on then map (with_barrier sync) ss else ss

filled-Ascending :
    (on : Bool) (sync : BarrierSyncConfig) (ss : List StageConfig)
    → Ascending ss
    → Ascending (filled on sync ss)
filled-Ascending true sync ss h = map-Ascending sync ss h
filled-Ascending false sync ss h = h

filled-Perm :
    (on : Bool) (sync : BarrierSyncConfig) (xs ys : List StageConfig)
    → Perm xs ys
    → Perm (filled on sync xs) (filled on sync ys)
filled-Perm true sync xs ys p = Perm.map (with_barrier sync) p
filled-Perm false sync xs ys p = p

-- The barrier of a phase: the one given for the phase, or else one for all agents with the defaults
-- and two minutes.
abbrev pub given : BarrierSyncConfig → Option PhaseBarrierConfig → PhaseBarrierConfig
given sync (some barrier) = barrier
given sync none = record {
  barrier_type = all_or_nothing;
  heartbeat_interval = sync.default_heartbeat_interval;
  missed_threshold = sync.default_missed_threshold;
  query_timeout = sync.default_query_timeout;
  query_retries = sync.default_query_retries;
  agent_barrier_timeout = 120;
}

abbrev pub phase_barrier : BarrierSyncConfig → StageSpecificConfig → PhaseBarrierConfig
phase_barrier sync validation = given sync sync.phase_validation
phase_barrier sync (prepare n) = given sync sync.phase_prepare
phase_barrier sync (cleanup n) = given sync sync.phase_cleanup
phase_barrier sync (execute d) = given sync sync.phase_execute
phase_barrier sync (custom command args) = given sync sync.phase_execute
phase_barrier sync (hybrid d n) = given sync sync.phase_execute

-- A stage as it runs: its own barrier, where it has one; else, with barriers enabled, the one of its
-- phase; all else as it was.
abbrev pub runs_as : BarrierSyncConfig → StageConfig → StageConfig
runs_as sync s = record s {
  barrier = elim s.barrier [
    | some barrier ↦ some barrier
    | none ↦ if sync.enabled then some (phase_barrier sync s.config) else none
  ];
}

is_given :
    (sync : BarrierSyncConfig) (o : Option PhaseBarrierConfig)
    → (elim o [
      | some config ↦ config
      | none ↦ record {
        barrier_type = all_or_nothing;
        heartbeat_interval = sync.default_heartbeat_interval;
        missed_threshold = sync.default_missed_threshold;
        query_timeout = sync.default_query_timeout;
        query_retries = sync.default_query_retries;
        agent_barrier_timeout = 120;
      }
    ])
      ≡ given sync o
is_given sync none = refl
is_given sync (some barrier) = refl

get_phase_config_lem :
    (sync : BarrierSyncConfig) (config : StageSpecificConfig)
    → get_phase_config sync (phase_name config) ≡ phase_barrier sync config
unfolding get_phase_config
get_phase_config_lem sync validation = is_given sync sync.phase_validation
get_phase_config_lem sync (prepare n) = is_given sync sync.phase_prepare
get_phase_config_lem sync (cleanup n) = is_given sync sync.phase_cleanup
get_phase_config_lem sync (execute d) = is_given sync sync.phase_execute
get_phase_config_lem sync (custom command args) = is_given sync sync.phase_execute
get_phase_config_lem sync (hybrid d n) = is_given sync sync.phase_execute

-- The barrier that a stage runs with.
abbrev barrier_of : Bool → BarrierSyncConfig → StageConfig → Option PhaseBarrierConfig → StageConfig
barrier_of on sync s b = record s {
  barrier = elim b [
    | some barrier ↦ some barrier
    | none ↦ if on then some (phase_barrier sync s.config) else none
  ];
}

with_barrier-barrier_of :
    (sync : BarrierSyncConfig) (s : StageConfig)
    → with_barrier sync s ≡ barrier_of true sync s s.barrier
unfolding with_barrier
with_barrier-barrier_of sync s = elim (Option-cases s.barrier) [
  | inl e ↦
      rw (e, with_barrier)
        (ap (λ b. record s { barrier = some b }) (get_phase_config_lem sync s.config))
  | inr (b, e) ↦ rw (e, with_barrier) (ap (λ c. record s { barrier = c }) e)
]

as_it_was : (sync : BarrierSyncConfig) (s : StageConfig) → s ≡ barrier_of false sync s s.barrier
as_it_was sync s = elim (Option-cases s.barrier) [ inl e ↦ rw e refl | inr (b, e) ↦ rw e refl ]

filled-barrier_of :
    (on : Bool) (sync : BarrierSyncConfig) (ss : List StageConfig)
    → filled on sync ss ≡ map (λ s. barrier_of on sync s s.barrier) ss
filled-barrier_of true sync [] = refl
filled-barrier_of false sync [] = refl
filled-barrier_of true sync (s ∷ ss) =
    λ i. with_barrier-barrier_of sync s i ∷ filled-barrier_of true sync ss i
filled-barrier_of false sync (s ∷ ss) = λ i. as_it_was sync s i ∷ filled-barrier_of false sync ss i

get_sorted_stages-eq :
    (d : DistributedConfig)
    → validate_stages d.stages ≡ none
    → get_sorted_stages d
      ≡ ok (filled d.barrier_sync.enabled d.barrier_sync (sort_by_order d.stages))
unfolding get_sorted_stages
get_sorted_stages-eq d h = rw (h, get_sorted_stages) refl

-- When the stages of a configuration pass the checks, they run in strictly ascending order, and
-- they are the stages of the file, each once, as they were but for the barrier of a stage that had
-- none: with barriers enabled it is the one given for the phase of the stage, or else a barrier for
-- all agents with the default times.
pub get_sorted_stages-ok :
    (d : DistributedConfig)
    → validate_stages d.stages ≡ none
    → (sorted : List StageConfig) × (get_sorted_stages d ≡ ok sorted)
      × Ascending sorted
      × Perm sorted (map (runs_as d.barrier_sync) d.stages)
get_sorted_stages-ok d h =
    let sync = d.barrier_sync in
    let valid = (validate_stages_iff d.stages).0 h in
    let sorted = sort_by_order d.stages in
    (
      filled sync.enabled sync sorted,
      get_sorted_stages-eq d h,
      filled-Ascending sync.enabled sync sorted
          (sort_by_order-Ascending d.stages valid.distinct_orders),
      subst (Perm (filled sync.enabled sync sorted)) (filled-barrier_of sync.enabled sync d.stages)
          (filled-Perm sync.enabled sync sorted d.stages (sort_by_order-Perm d.stages)),
    )
