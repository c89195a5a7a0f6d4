-- ===== src/Controller/Barrier/Inv.antt =====
-- The barrier manager's sets: agents are registered once, and only registered agents are ready or
-- failed.
use sai3_bench.Prelude.{
  ℕ, String, ◌≡◌, inl, inr, Bool, true, false, ◌||◌, List, [], ◌∷◌, arith, if◌then◌else◌,
  Option-cases,
}
use sai3_bench.Prelude.Keys.{string_key}
use sai3_bench.Prelude.Assoc.{IsNodup, Subset, set_insert, contains, IsNodup-set_insert}
use sai3_bench.Prelude.Maps.{
  keys, lookup, update, IsNodup-keys-insert, keys-update, keys-map_values, lookup-contains,
}
use sai3_bench.Controller.Barrier.{
  PhaseBarrierConfig, PhaseProgress, AgentHeartbeat, BarrierState, BarrierManager, insert_agents,
  new, process_heartbeat, reset_barrier_state,
}

pub record Inv (bm : BarrierManager) : Type 0 where
  pub agents_nodup : IsNodup (keys bm.agents)
  pub ready_nodup : IsNodup bm.ready_agents
  pub ready_known : Subset bm.ready_agents (keys bm.agents)
  pub failed_nodup : IsNodup bm.failed_agents
  pub failed_known : Subset bm.failed_agents (keys bm.agents)

insert_agents-IsNodup :
    (now : ℕ) (ids : List String) (agents : List (String × _))
    → IsNodup (keys agents)
    → IsNodup (keys (insert_agents now ids agents))
unfolding insert_agents
insert_agents-IsNodup now [] agents h = h
insert_agents-IsNodup now (id ∷ ids) agents h =
    insert_agents-IsNodup now ids _ (IsNodup-keys-insert id _ agents h)

pub new-Inv : (now : ℕ) (ids : List String) (c : PhaseBarrierConfig) → Inv (new now ids c)
unfolding new
new-Inv now ids c = record {
  agents_nodup = insert_agents-IsNodup now ids [] tt;
  ready_nodup = tt;
  ready_known = tt;
  failed_nodup = tt;
  failed_known = tt;
}

-- A set with one more registered agent.
Subset-set_insert :
    (k : String) (xs ys : List String)
    → contains k ys ≡ true
    → Subset xs ys
    → Subset (set_insert k xs) ys
unfolding set_insert
Subset-set_insert k xs ys c h = ground arith

-- An agent is heard of: its heartbeat changes, and it may join the ready ones.
heard-Inv :
    (id : String) (f : AgentHeartbeat → AgentHeartbeat) (b : Bool) (bm : BarrierManager)
    → contains id (keys bm.agents) ≡ true
    → Inv bm
    → Inv (record bm {
      agents = update id f bm.agents;
      ready_agents = if b then set_insert id bm.ready_agents else bm.ready_agents;
    })
heard-Inv id f true bm c v = record {
  agents_nodup = rw keys-update v.agents_nodup;
  ready_nodup = IsNodup-set_insert id bm.ready_agents v.ready_nodup;
  ready_known =
      rw keys-update (Subset-set_insert id bm.ready_agents (keys bm.agents) c v.ready_known);
  failed_nodup = v.failed_nodup;
  failed_known = rw keys-update v.failed_known;
}
heard-Inv id f false bm c v = record {
  agents_nodup = rw keys-update v.agents_nodup;
  ready_nodup = v.ready_nodup;
  ready_known = rw keys-update v.ready_known;
  failed_nodup = v.failed_nodup;
  failed_known = rw keys-update v.failed_known;
}

pub process_heartbeat-Inv :
    (now : ℕ) (id : String) (p : PhaseProgress) (bm : BarrierManager)
    → Inv bm
    → Inv (process_heartbeat now id p bm)
unfolding process_heartbeat
process_heartbeat-Inv now id p bm v = elim (Option-cases (lookup id bm.agents)) [
  | inl e ↦ rw (e, process_heartbeat) v
  | inr (hb, e) ↦
      rw (e, process_heartbeat)
        (heard-Inv id _ (p.phase_completed || p.at_barrier) bm (lookup-contains id hb bm.agents e)
          v)
]

-- An agent is given up: it joins the failed ones.
pub give_up-Inv :
    (id : String) (f : AgentHeartbeat → AgentHeartbeat) (bm : BarrierManager)
    → contains id (keys bm.agents) ≡ true
    → Inv bm
    → Inv (record bm {
      agents = update id f bm.agents;
      failed_agents = set_insert id bm.failed_agents;
    })
give_up-Inv id f bm c v = record {
  agents_nodup = rw keys-update v.agents_nodup;
  ready_nodup = v.ready_nodup;
  ready_known = rw keys-update v.ready_known;
  failed_nodup = IsNodup-set_insert id bm.failed_agents v.failed_nodup;
  failed_known =
      rw keys-update (Subset-set_insert id bm.failed_agents (keys bm.agents) c v.failed_known);
}

-- The per-barrier records play no part in the invariant.
pub barrier_agents-Inv :
    (bm : BarrierManager) (m : List (ℕ × BarrierState))
    → Inv bm
    → Inv (record bm { barrier_agents = m })
barrier_agents-Inv bm m v = record {
  agents_nodup = v.agents_nodup;
  ready_nodup = v.ready_nodup;
  ready_known = v.ready_known;
  failed_nodup = v.failed_nodup;
  failed_known = v.failed_known;
}

pub reset_barrier_state-Inv :
    (now : ℕ) (bm : BarrierManager) → Inv bm → Inv (reset_barrier_state now bm)
unfolding reset_barrier_state
reset_barrier_state-Inv now bm v = record {
  agents_nodup = rw keys-map_values v.agents_nodup;
  ready_nodup = tt;
  ready_known = tt;
  failed_nodup = tt;
  failed_known = tt;
}
