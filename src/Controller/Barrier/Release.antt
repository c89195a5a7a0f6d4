-- ===== src/Controller/Barrier/Release.antt =====
-- Reports at one barrier and its release.
use text.Mathlib.TextEquality.{eq_iff}
use sai3_bench.Prelude.{
  ℕ, max, ◌-◌, ◌≤◌, ◌<◌, String, ◌≡◌, ◌≢◌, refl, inl, inr, true, ◌||◌, none, some, arith, ◌==◌,
  ==_iff, if◌then◌else◌, Option-cases, length,
}
use sai3_bench.Prelude.Keys.{nat_key, string_key, key_eq}
use sai3_bench.Prelude.Assoc.{
  contains, IsNodup, Subset, Subset-intro, length-Subset, contains-Subset, contains-eq,
}
use sai3_bench.Prelude.Maps.{
  keys, lookup, lookup-insert, lookup-update, lookup-contains, IsNodup-keys-insert,
  contains-keys-insert, length-keys,
}
use sai3_bench.Controller.Barrier.{
  best_effort, BarrierState, BarrierManager, entry_or_default, mark_ready, agent_at_barrier,
  can_release, check_barrier_ready, clear_barrier,
}
use sai3_bench.Controller.Barrier.Inv.{Inv}
use sai3_bench.Controller.Barrier.Status.{failed-le}

-- What the manager knows of barrier `i`.
unfoldable pub barrier : ℕ → BarrierManager → BarrierState
unfolding entry_or_default
barrier i bm = entry_or_default i bm.barrier_agents

-- Each barrier lists registered agents, once each.
pub record Known (bm : BarrierManager) : Type 0 where
  pub nodup : (i : ℕ) → IsNodup (keys (barrier i bm).ready_agents)
  pub registered : (i : ℕ) → Subset (keys (barrier i bm).ready_agents) (keys bm.agents)

pub barrier-agent_at_barrier :
    (id : String) (i q j : ℕ) (bm : BarrierManager)
    → barrier j (agent_at_barrier id i q bm)
      ≡ (if i == j then mark_ready id q (barrier j bm) else barrier j bm)
unfolding barrier agent_at_barrier
barrier-agent_at_barrier id i q j bm =
    ground (arith, lookup-insert i j (mark_ready id q (barrier i bm)) bm.barrier_agents, ==_iff i j)

pub barrier-clear_barrier :
    (i j : ℕ) (bm : BarrierManager)
    → (barrier j (clear_barrier i bm)).ready_agents ≡ (barrier j bm).ready_agents
unfolding barrier clear_barrier entry_or_default
barrier-clear_barrier i j bm = ground (
  arith,
  lookup-update i j (λ (s : BarrierState). record s { released = true }) bm.barrier_agents,
)

pub contains-mark_ready :
    (id j : String) (q : ℕ) (s : BarrierState)
    → contains j (keys (mark_ready id q s).ready_agents)
      ≡ (key_eq id j || contains j (keys s.ready_agents))
unfolding mark_ready
contains-mark_ready id j q s = elim (Option-cases (lookup id s.ready_agents)) [
  | inl e ↦ rw (e, mark_ready) (contains-keys-insert id j q s.ready_agents)
  | inr (old, e) ↦
      rw (e, mark_ready)
        (ground (
          arith,
          contains-keys-insert id j q s.ready_agents,
          lookup-contains id old s.ready_agents e,
          eq_iff id j,
          contains-eq id j (keys s.ready_agents),
        ))
]

pub IsNodup-mark_ready :
    (id : String) (q : ℕ) (s : BarrierState)
    → IsNodup (keys s.ready_agents)
    → IsNodup (keys (mark_ready id q s).ready_agents)
unfolding mark_ready
IsNodup-mark_ready id q s h = ground (arith, IsNodup-keys-insert id q s.ready_agents h)

pub released-mark_ready :
    (id : String) (q : ℕ) (s : BarrierState) → (mark_ready id q s).released ≡ s.released
unfolding mark_ready
released-mark_ready id q s = ground arith

-- A report never lowers the sequence number that an agent is known by, and replaces a lower one.
pub lookup-mark_ready :
    (id j : String) (q : ℕ) (s : BarrierState)
    → lookup j (mark_ready id q s).ready_agents ≡ (
        if key_eq id j
        then elim (lookup id s.ready_agents) [ none ↦ some q | some old ↦ some (max old q) ]
        else lookup j s.ready_agents)
unfolding mark_ready
lookup-mark_ready id j q s = elim (Option-cases (lookup id s.ready_agents)) [
  | inl e ↦ rw (e, mark_ready) (lookup-insert id j q s.ready_agents)
  | inr (old, e) ↦
      rw (e, mark_ready) (ground (arith, lookup-insert id j q s.ready_agents, eq_iff id j, e))
]

pub agent_at_barrier-Known :
    (id : String) (i q : ℕ) (bm : BarrierManager)
    → contains id (keys bm.agents) ≡ true
    → Known bm
    → Known (agent_at_barrier id i q bm)
unfolding agent_at_barrier
agent_at_barrier-Known id i q bm c k = record {
  nodup = λ j. ground (
    arith,
    barrier-agent_at_barrier id i q j bm,
    IsNodup-mark_ready id q (barrier j bm) (k.nodup j),
    k.nodup j,
  );
  registered = λ j.
      Subset-intro (keys (barrier j (agent_at_barrier id i q bm)).ready_agents) (keys bm.agents)
        λ n h. ground (
          arith,
          barrier-agent_at_barrier id i q j bm,
          contains-mark_ready id n q (barrier j bm),
          contains-Subset n (keys (barrier j bm).ready_agents) (keys bm.agents) (k.registered j),
          eq_iff id n,
          contains-eq id n (keys bm.agents),
        );
}

pub clear_barrier-Known : (i : ℕ) (bm : BarrierManager) → Known bm → Known (clear_barrier i bm)
clear_barrier-Known i bm k = record {
  nodup = λ j. rw (barrier-clear_barrier i j bm) (k.nodup j);
  registered = λ j. unfold clear_barrier in rw (barrier-clear_barrier i j bm) (k.registered j);
}

pub released-clear_barrier :
    (i : ℕ) (s : BarrierState) (bm : BarrierManager)
    → lookup i bm.barrier_agents ≡ some s
    → (barrier i (clear_barrier i bm)).released ≡ true
unfolding barrier clear_barrier entry_or_default
released-clear_barrier i s bm h = ground (
  arith,
  lookup-update i i (λ (s : BarrierState). record s { released = true }) bm.barrier_agents,
  ==_iff i i,
)

pub released-clear_barrier_ne :
    (i j : ℕ) (bm : BarrierManager)
    → i ≢ j
    → (barrier j (clear_barrier i bm)).released ≡ (barrier j bm).released
unfolding barrier clear_barrier entry_or_default
released-clear_barrier_ne i j bm h = ground (
  arith,
  lookup-update i j (λ (s : BarrierState). record s { released = true }) bm.barrier_agents,
  ==_iff i j,
)

-- The answer about a barrier at which somebody has reported.
pub check_barrier_ready_reported :
    (bm : BarrierManager) (i : ℕ) (s : BarrierState)
    → Inv bm
    → lookup i bm.barrier_agents ≡ some s
    → check_barrier_ready bm i ≡ (
        if s.released
        then some none
        else if can_release bm.config.barrier_type
            (length s.ready_agents)
            (length bm.agents)
            (length bm.failed_agents)
            (length bm.agents - length bm.failed_agents)
        then some (some (record { barrier_index = i; ready_agents = keys s.ready_agents }))
        else some none)
unfolding check_barrier_ready
check_barrier_ready_reported bm i s v h =
    rw (h, check_barrier_ready) (ground (arith, failed-le bm v))

-- A barrier that every agent has reached lists at least as many agents as there are.
reached-le :
    (bm : BarrierManager) (i : ℕ)
    → Inv bm
    → Subset (keys bm.agents) (keys (barrier i bm).ready_agents)
    → length bm.agents ≤ length (barrier i bm).ready_agents
reached-le bm i v all = omega (
  arith,
  length-Subset (keys bm.agents) (keys (barrier i bm).ready_agents) v.agents_nodup all,
  length-keys bm.agents,
  length-keys (barrier i bm).ready_agents,
)

barrier-eq :
    (i : ℕ) (s : BarrierState) (bm : BarrierManager)
    → lookup i bm.barrier_agents ≡ some s
    → barrier i bm ≡ s
unfolding barrier
barrier-eq i s bm h = rw (h, entry_or_default)

-- Under the invariant, a best-effort barrier that all registered agents have reached is not released
-- while an agent counts as failed.
pub best_effort-blocked :
    (bm : BarrierManager) (i : ℕ)
    → Inv bm
    → bm.config.barrier_type ≡ best_effort
    → Subset (keys bm.agents) (keys (barrier i bm).ready_agents)
    → 0 < length bm.failed_agents
    → check_barrier_ready bm i ≡ some none
best_effort-blocked bm i v t all f = elim (Option-cases (lookup i bm.barrier_agents)) [
  | inl e ↦ unfold check_barrier_ready in rw (e, check_barrier_ready) refl
  | inr (s, e) ↦
      unfold can_release in
      ground (
        arith,
        check_barrier_ready_reported bm i s v e,
        reached-le bm i v all,
        barrier-eq i s bm e,
        failed-le bm v,
      )
]
