-- ===== src/Controller/Barrier/Tests.antt =====
-- Runs of the barrier manager on three agents.
use sai3_bench.Prelude.{
  ℕ, ◌<◌, String, ◌≡◌, refl, true, false, none, some, List, [], ◌∷◌, length, All, arith,
}
use sai3_bench.Prelude.Keys.{string_key, nat_key}
use sai3_bench.Prelude.Assoc.{contains, set_insert, Subset}
use sai3_bench.Prelude.Maps.{lookup, insert, update, keys}
use sai3_bench.Controller.Barrier.{
  BarrierType, all_or_nothing, majority, best_effort, PhaseBarrierConfig, PhaseProgress,
  BarrierStatus, BarrierReleaseInfo, BarrierManager, insert_agents, new, process_heartbeat,
  check_barrier, entry_or_default, mark_ready, agent_at_barrier, check_barrier_ready,
  on_barrier_reports,
}
use sai3_bench.Controller.Barrier.Inv.{
  Inv, new-Inv, process_heartbeat-Inv, give_up-Inv, barrier_agents-Inv,
}
use sai3_bench.Controller.Barrier.Status.{Describes, Everyone, check_barrier_correct}
use sai3_bench.Controller.Barrier.Release.{barrier, best_effort-blocked}
use sai3_bench.Controller.Barrier.Reports.{AtMostOnce, releases_once}
use sai3_bench.Controller.Barrier.Step.{Healthy, reached}
use sai3_bench.Controller.Barrier.AllOrNothing.{Complete, full_barrier_releases}

abbrev ids : List String
ids = "a" ∷ "b" ∷ "c" ∷ []

abbrev config : BarrierType → PhaseBarrierConfig
config t = record {
  barrier_type = t;
  heartbeat_interval = 30;
  missed_threshold = 3;
  query_timeout = 10;
  query_retries = 2;
  agent_barrier_timeout = 120;
}

abbrev at_the_barrier : PhaseProgress
at_the_barrier = record {
  current_phase = 1;
  operations_completed = 5;
  phase_completed = true;
  at_barrier = true;
}

abbrev start : BarrierType → BarrierManager
start t = new 0 ids (config t)

start-Inv : (t : BarrierType) → Inv (start t)
start-Inv t = new-Inv 0 ids (config t)

-- Two of three agents are there.
abbrev two_ready : BarrierManager
two_ready =
    process_heartbeat 9 "b" at_the_barrier (process_heartbeat 7 "a" at_the_barrier (start majority))

two_ready-Inv : Inv two_ready
two_ready-Inv =
    process_heartbeat-Inv 9 "b" at_the_barrier
      (process_heartbeat 7 "a" at_the_barrier (start majority))
      (process_heartbeat-Inv 7 "a" at_the_barrier (start majority) (start-Inv majority))

two_ready_runs : check_barrier two_ready ≡ some BarrierStatus.degraded
unfolding check_barrier process_heartbeat new insert_agents insert update lookup contains set_insert
two_ready_runs = refl

check_barrier_correct_example :
    (s : BarrierStatus) × (check_barrier two_ready ≡ some s)
    × Describes
        (Everyone two_ready)
        (length two_ready.agents)
        (length two_ready.ready_agents)
        (length two_ready.failed_agents)
        two_ready.config.barrier_type
        s
check_barrier_correct_example = check_barrier_correct two_ready two_ready-Inv

-- Messages at two barriers, one of them repeated.
abbrev reports : List (String × ℕ)
reports = ("a", 1) ∷ ("c", 1) ∷ ("a", 2) ∷ ("c", 1) ∷ ("b", 1) ∷ ("b", 2) ∷ []

releases_once_example : AtMostOnce 1 reports (start majority)
releases_once_example = releases_once 1 reports (start majority) (start-Inv majority)

start-Healthy : Healthy ids (start all_or_nothing)
unfolding new insert_agents insert barrier entry_or_default lookup
start-Healthy = record {
  inv = start-Inv all_or_nothing;
  known = record { nodup = λ i. tt; registered = λ i. tt };
  agents = refl;
  failed = refl;
  barrier_type = refl;
}

nobody : length (reached 1 (start all_or_nothing)) < 3
unfolding new barrier entry_or_default lookup
nobody = omega arith

known_senders : All (λ (m : String × ℕ). contains m.0 ids ≡ true) reports
unfolding contains
known_senders = (refl, (refl, (refl, (refl, (refl, (refl, tt))))))

full_barrier_releases_example :
    (infos : List BarrierReleaseInfo) × (bm' : BarrierManager) × (on_barrier_reports reports
        (start all_or_nothing)
      ≡ some (infos, bm'))
    × ((barrier 1 bm').released ≡ true)
    × All (Complete ids) infos
full_barrier_releases_example =
    full_barrier_releases ids 1 reports (start all_or_nothing) start-Healthy nobody known_senders
      (refl, (refl, (refl, tt)))

-- All three are at barrier 1, and `c` has failed since.
abbrev one_failed : BarrierManager
one_failed =
    let bm =
      agent_at_barrier "c" 1 1
        (agent_at_barrier "b" 1 1 (agent_at_barrier "a" 1 1 (start best_effort))) in
    record bm {
      agents = update "c" (λ hb. record hb { is_alive = false }) bm.agents;
      failed_agents = set_insert "c" bm.failed_agents;
    }

one_failed-Inv : Inv one_failed
unfolding agent_at_barrier new insert_agents insert contains
one_failed-Inv =
    let bm =
      agent_at_barrier "c" 1 1
        (agent_at_barrier "b" 1 1 (agent_at_barrier "a" 1 1 (start best_effort))) in
    give_up-Inv "c" (λ hb. record hb { is_alive = false }) bm refl
      (barrier_agents-Inv (start best_effort) bm.barrier_agents (start-Inv best_effort))

everyone_there : Subset (keys one_failed.agents) (keys (barrier 1 one_failed).ready_agents)
unfolding agent_at_barrier new insert_agents insert contains barrier entry_or_default lookup update
    mark_ready
everyone_there = (refl, (refl, (refl, tt)))

one_gone : 0 < length one_failed.failed_agents
unfolding agent_at_barrier new contains set_insert
one_gone = omega arith

best_effort-blocked_example : check_barrier_ready one_failed 1 ≡ some none
best_effort-blocked_example =
    best_effort-blocked one_failed 1 one_failed-Inv (unfold agent_at_barrier new in refl)
      everyone_there one_gone
