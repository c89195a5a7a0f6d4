-- ===== src/Controller/Barrier/Reports.antt =====
-- Sequences of messages from agents at barriers: `on_barrier_reports`.
use sai3_bench.Prelude.{
  ℕ, ◌-◌, ◌+◌, String, ◌≡◌, ◌⊎◌, refl, inl, inr, true, false, Option, none, some, List, [], ◌∷◌,
  arith, ◌==◌, ==_iff, if◌then◌else◌, Bool-cases, length,
}
use sai3_bench.Prelude.Keys.{nat_key, string_key}
use sai3_bench.Prelude.Maps.{keys, lookup, lookup-insert_self}
use sai3_bench.Controller.Barrier.{
  BarrierReleaseInfo, BarrierManager, mark_ready, agent_at_barrier, can_release,
  check_barrier_ready, clear_barrier, on_barrier_report, on_barrier_reports,
}
use sai3_bench.Controller.Barrier.Inv.{Inv, barrier_agents-Inv}
use sai3_bench.Controller.Barrier.Release.{
  barrier, check_barrier_ready_reported, barrier-agent_at_barrier, released-mark_ready,
  released-clear_barrier, released-clear_barrier_ne,
}

-- Barrier `i` has been released.
abbrev pub IsReleased : ℕ → BarrierManager → Type 0
IsReleased i bm = (barrier i bm).released ≡ true

-- The two ways in which a message at barrier `i` is handled.
pub data Handled (id : String) (i : ℕ) (bm : BarrierManager)
    (r : Option BarrierReleaseInfo × BarrierManager) : Type 0 where
  kept :
      ((barrier i bm).released ≡ true)
        ⊎ (can_release bm.config.barrier_type
              (length (mark_ready id i (barrier i bm)).ready_agents)
              (length bm.agents)
              (length bm.failed_agents)
              (length bm.agents - length bm.failed_agents)
            ≡ false)
      → r ≡ (none, agent_at_barrier id i i bm)
      → Handled id i bm r
  released :
      (barrier i bm).released ≡ false
      → can_release bm.config.barrier_type
          (length (mark_ready id i (barrier i bm)).ready_agents)
          (length bm.agents)
          (length bm.failed_agents)
          (length bm.agents - length bm.failed_agents)
        ≡ true
      → r ≡ (
        some (record {
          barrier_index = i;
          ready_agents = keys (mark_ready id i (barrier i bm)).ready_agents;
        }),
        clear_barrier i (agent_at_barrier id i i bm),
      )
      → Handled id i bm r

module _ (id : String) (i : ℕ) (bm : BarrierManager) (v : Inv bm) where
  pub reported :
      lookup i (agent_at_barrier id i i bm).barrier_agents ≡ some (mark_ready id i (barrier i bm))
  unfolding agent_at_barrier barrier
  reported = lookup-insert_self i _ bm.barrier_agents

  pub agent_at_barrier-Inv : Inv (agent_at_barrier id i i bm)
  unfolding agent_at_barrier
  agent_at_barrier-Inv = barrier_agents-Inv bm _ v

  answer : check_barrier_ready (agent_at_barrier id i i bm) i ≡ (
      let s = mark_ready id i (barrier i bm) in
      if (barrier i bm).released
      then some none
      else if can_release bm.config.barrier_type
          (length s.ready_agents)
          (length bm.agents)
          (length bm.failed_agents)
          (length bm.agents - length bm.failed_agents)
      then some (some (record { barrier_index = i; ready_agents = keys s.ready_agents }))
      else some none)
  unfolding agent_at_barrier barrier
  answer = rw (← released-mark_ready id i (barrier i bm)) (
      check_barrier_ready_reported (agent_at_barrier id i i bm) i (mark_ready id i (barrier i bm))
        agent_at_barrier-Inv reported)

  pub on_barrier_report-Handled :
      (r : Option BarrierReleaseInfo × BarrierManager) × (on_barrier_report id i bm ≡ some r)
      × Handled id i bm r
  unfolding on_barrier_report
  on_barrier_report-Handled = elim (Bool-cases (barrier i bm).released) [
    | inl old ↦ (_, ground (arith, answer), kept (inl old) refl)
    | inr fresh ↦
        elim (Bool-cases (
          can_release bm.config.barrier_type (length (mark_ready id i (barrier i bm)).ready_agents)
            (length bm.agents) (length bm.failed_agents)
            (length bm.agents - length bm.failed_agents))) [
              | inl go ↦ (_, ground (arith, answer), released fresh go refl)
              | inr stay ↦ (_, ground (arith, answer), kept (inr stay) refl)
            ]
  ]

-- Releases of barrier `i` among those of a run.
abbrev pub count_releases : ℕ → List BarrierReleaseInfo → ℕ
count_releases i [] = 0
count_releases i (info ∷ infos) =
    (if info.barrier_index == i then 1 else 0) + count_releases i infos

abbrev released_times : ℕ → BarrierManager → ℕ
released_times i bm = if (barrier i bm).released then 1 else 0

pub clear_barrier-Inv : (i : ℕ) (bm : BarrierManager) → Inv bm → Inv (clear_barrier i bm)
unfolding clear_barrier
clear_barrier-Inv i bm v = barrier_agents-Inv bm _ v

pub on_barrier_report-Inv :
    (id : String) (i : ℕ) (bm : BarrierManager)
    → Inv bm
    → (r : Option BarrierReleaseInfo × BarrierManager) → Handled id i bm r
    → Inv r.1
on_barrier_report-Inv id i bm v r (kept h e) = rw e (agent_at_barrier-Inv id i bm v)
on_barrier_report-Inv id i bm v r (released h g e) =
    rw e (clear_barrier-Inv i _ (agent_at_barrier-Inv id i bm v))

-- A message either releases nothing, or releases a barrier that was not released.
released_count :
    (id : String) (i j : ℕ) (bm : BarrierManager)
    → Inv bm
    → (o : Option BarrierReleaseInfo) (bm' : BarrierManager) → Handled id i bm (o, bm')
    → elim o [ none ↦ 0 | some info ↦ (if info.barrier_index == j then 1 else 0) ]
        + released_times j bm
      ≡ released_times j bm'
released_count id i j bm v o bm' (kept h e) =
    ground (arith, e, barrier-agent_at_barrier id i i j bm, released-mark_ready id i (barrier j bm))
released_count id i j bm v o bm' (released h g e) = elim (Bool-cases (i == j)) [
  | inl same ↦ ground (
    arith,
    e,
    ==_iff i j,
    released-clear_barrier i _ (agent_at_barrier id i i bm) (reported id i bm v),
  )
  | inr other ↦ ground (
    arith,
    e,
    ==_iff i j,
    barrier-agent_at_barrier id i i j bm,
    released-clear_barrier_ne i j (agent_at_barrier id i i bm),
  )
]

-- What `releases_once` says of one run.
abbrev pub AtMostOnce : ℕ → List (String × ℕ) → BarrierManager → Type 0
AtMostOnce j reports bm =
    (infos : List BarrierReleaseInfo) × (bm' : BarrierManager) × (on_barrier_reports reports bm
      ≡ some (infos, bm'))
    × (count_releases j infos + released_times j bm ≡ released_times j bm')

AtMostOnce-cons :
    (j : ℕ) (id : String) (i : ℕ) (rest : List (String × ℕ)) (bm : BarrierManager)
    (o : Option BarrierReleaseInfo) (bm' : BarrierManager)
    → on_barrier_report id i bm ≡ some (o, bm')
    → Inv bm
    → Handled id i bm (o, bm')
    → AtMostOnce j rest bm'
    → AtMostOnce j ((id, i) ∷ rest) bm
unfolding on_barrier_reports
AtMostOnce-cons j id i rest bm none bm' e v h (infos, bm'', r, c) = (
  infos,
  bm'',
  rw (e, on_barrier_reports) r,
  omega (arith, released_count id i j bm v none bm' h),
)
AtMostOnce-cons j id i rest bm (some info) bm' e v h (infos, bm'', r, c) = (
  info ∷ infos,
  bm'',
  rw (e, on_barrier_reports) (ground (arith, r)),
  omega (arith, released_count id i j bm v (some info) bm' h),
)

-- Under the invariant, whatever messages arrive, they are all handled without overflow; barrier `j`
-- is released once if it was not released before and is released afterwards, and otherwise not at
-- all.
pub releases_once :
    (j : ℕ) (reports : List (String × ℕ)) (bm : BarrierManager) → Inv bm → AtMostOnce j reports bm
releases_once j [] bm v = ([], bm, unfold on_barrier_reports in refl, omega arith)
releases_once j ((id, i) ∷ rest) bm v =
    let ((o, bm'), e, h) = on_barrier_report-Handled id i bm v in
    AtMostOnce-cons j id i rest bm o bm' e v h
      (releases_once j rest bm' (on_barrier_report-Inv id i bm v (o, bm') h))
