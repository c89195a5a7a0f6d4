-- ===== src/Controller/Barrier/Step.antt =====
-- One message at an all-or-nothing barrier.
use sai3_bench.Prelude.{
  ℕ, ◌-◌, ◌≤◌, ◌<◌, String, ◌≡◌, ◌⊎◌, ap, subst, inl, inr, true, ◌&&◌, ◌||◌, Option, some, List,
  arith, ◌==◌, ==_iff, Bool-cases, length,
}
use sai3_bench.Prelude.Keys.{nat_key, string_key, key_eq}
use sai3_bench.Prelude.Assoc.{contains, Subset, length-Subset, contains_of_full}
use sai3_bench.Prelude.Maps.{keys, length-keys}
use sai3_bench.Controller.Barrier.{
  all_or_nothing, BarrierReleaseInfo, BarrierManager, mark_ready, agent_at_barrier, can_release,
  clear_barrier,
}
use sai3_bench.Controller.Barrier.Inv.{Inv}
use sai3_bench.Controller.Barrier.Release.{
  barrier, Known, agent_at_barrier-Known, clear_barrier-Known, barrier-agent_at_barrier,
  barrier-clear_barrier, contains-mark_ready, released-mark_ready, released-clear_barrier,
  released-clear_barrier_ne,
}
use sai3_bench.Controller.Barrier.Reports.{
  Handled, kept, released, agent_at_barrier-Inv, clear_barrier-Inv, reported,
}

-- A manager of the agents `ids` with an all-or-nothing barrier, none of whom has failed.
pub record Healthy (ids : List String) (bm : BarrierManager) : Type 0 where
  pub inv : Inv bm
  pub known : Known bm
  pub agents : keys bm.agents ≡ ids
  pub failed : length bm.failed_agents ≡ 0
  pub barrier_type : bm.config.barrier_type ≡ all_or_nothing

-- Who has reached barrier `i`.
abbrev pub reached : ℕ → BarrierManager → List String
reached i bm = keys (barrier i bm).ready_agents

-- Barrier `i` has been released, or somebody is missing there.
abbrev pub Pending : ℕ → List String → BarrierManager → Type 0
Pending i ids bm = ((barrier i bm).released ≡ true) ⊎ (length (reached i bm) < length ids)

agent_at_barrier-Healthy :
    (ids : List String) (id : String) (i : ℕ) (bm : BarrierManager)
    → contains id ids ≡ true
    → Healthy ids bm
    → Healthy ids (agent_at_barrier id i i bm)
unfolding agent_at_barrier
agent_at_barrier-Healthy ids id i bm c h = record {
  inv = agent_at_barrier-Inv id i bm h.inv;
  known = agent_at_barrier-Known id i i bm (rw h.agents c) h.known;
  agents = h.agents;
  failed = h.failed;
  barrier_type = h.barrier_type;
}

clear_barrier-Healthy :
    (ids : List String) (i : ℕ) (bm : BarrierManager)
    → Healthy ids bm
    → Healthy ids (clear_barrier i bm)
unfolding clear_barrier
clear_barrier-Healthy ids i bm h = record {
  inv = clear_barrier-Inv i bm h.inv;
  known = clear_barrier-Known i bm h.known;
  agents = h.agents;
  failed = h.failed;
  barrier_type = h.barrier_type;
}

reached-le :
    (ids : List String) (i : ℕ) (bm : BarrierManager)
    → Healthy ids bm
    → length (reached i bm) ≤ length ids
reached-le ids i bm h =
    rw (← h.agents)
      (length-Subset (reached i bm) (keys bm.agents) (h.known.nodup i) (h.known.registered i))

length_ids :
    (ids : List String) (bm : BarrierManager) → Healthy ids bm → length bm.agents ≡ length ids
length_ids ids bm h = omega (arith, length-keys bm.agents, ap length h.agents)

pub full_reached :
    (ids : List String) (i : ℕ) (bm : BarrierManager)
    → Healthy ids bm
    → length ids ≤ length (reached i bm)
    → (k : String) → contains k ids ≡ true
    → contains k (reached i bm) ≡ true
full_reached ids i bm h l =
    contains_of_full (reached i bm) ids (h.known.nodup i)
      (subst (λ xs. Subset (reached i bm) xs) h.agents (h.known.registered i)) l

module _ (ids : List String) (id : String) (i : ℕ) (bm : BarrierManager)
    (c : contains id ids ≡ true) (h : Healthy ids bm) (o : Option BarrierReleaseInfo)
    (bm' : BarrierManager) where
  pub step-Healthy : Handled id i bm (o, bm') → Healthy ids bm'
  step-Healthy (kept _ e) =
      rw (ap (λ (p : Option BarrierReleaseInfo × BarrierManager). p.1) e)
        (agent_at_barrier-Healthy ids id i bm c h)
  step-Healthy (released _ _ e) =
      rw (ap (λ (p : Option BarrierReleaseInfo × BarrierManager). p.1) e)
        (clear_barrier-Healthy ids i _ (agent_at_barrier-Healthy ids id i bm c h))

  pub step-reached :
      (j : ℕ) (k : String)
      → Handled id i bm (o, bm')
      → contains k (reached j bm') ≡ (i == j && key_eq id k || contains k (reached j bm))
  step-reached j k (kept _ e) =
      ground
        (arith, e, barrier-agent_at_barrier id i i j bm, contains-mark_ready id k i (barrier j bm))
  step-reached j k (released _ _ e) = ground (
    arith,
    e,
    barrier-clear_barrier i j (agent_at_barrier id i i bm),
    barrier-agent_at_barrier id i i j bm,
    contains-mark_ready id k i (barrier j bm),
  )

  pub step-Pending : (j : ℕ) → Pending j ids bm → Handled id i bm (o, bm') → Pending j ids bm'
  unfolding can_release
  step-Pending j p (kept why e) = elim (Bool-cases (i == j)) [
    | inl same ↦ ground (
      arith,
      barrier-agent_at_barrier id i i j bm,
      ==_iff i j,
      released-mark_ready id i (barrier i bm),
      length-keys (mark_ready id i (barrier i bm)).ready_agents,
      reached-le ids i (agent_at_barrier id i i bm) (agent_at_barrier-Healthy ids id i bm c h),
      length_ids ids bm h,
      h.barrier_type,
      h.failed,
    )
    | inr other ↦ ground (arith, barrier-agent_at_barrier id i i j bm)
  ]
  step-Pending j p (released _ _ e) = elim (Bool-cases (i == j)) [
    | inl same ↦ inl (
        ground (
          arith,
          ==_iff i j,
          released-clear_barrier i _ (agent_at_barrier id i i bm) (reported id i bm h.inv),
        ))
    | inr other ↦ ground (
      arith,
      ==_iff i j,
      released-clear_barrier_ne i j (agent_at_barrier id i i bm),
      barrier-clear_barrier i j (agent_at_barrier id i i bm),
      barrier-agent_at_barrier id i i j bm,
    )
  ]

  opened :
      can_release bm.config.barrier_type
          (length (mark_ready id i (barrier i bm)).ready_agents)
          (length bm.agents)
          (length bm.failed_agents)
          (length bm.agents - length bm.failed_agents)
        ≡ true
      → length ids ≤ length (reached i (agent_at_barrier id i i bm))
  unfolding can_release
  opened go = ground (
    arith,
    h.barrier_type,
    h.failed,
    length_ids ids bm h,
    barrier-agent_at_barrier id i i i bm,
    ==_iff i i,
    length-keys (mark_ready id i (barrier i bm)).ready_agents,
  )

  -- A release of an all-or-nothing barrier names every agent, and each has reached the barrier.
  pub step_release :
      (info : BarrierReleaseInfo)
      → o ≡ some info
      → Handled id i bm (o, bm')
      → (k : String) → contains k ids ≡ true
      → contains k info.ready_agents ≡ true
  step_release info e (kept _ e') k m = ground (arith, e, e')
  step_release info e (released _ go e') k m = ground (
    arith,
    e,
    e',
    barrier-agent_at_barrier id i i i bm,
    ==_iff i i,
    full_reached ids i (agent_at_barrier id i i bm) (agent_at_barrier-Healthy ids id i bm c h)
        (opened go) k m,
  )
