-- ===== src/Controller/Barrier/Liveness.antt =====
-- How the barrier manager notices that an agent is gone: `check_liveness`, `query_agent_with_retry`
-- and `wait_for_barrier`. The answers of the agents, and the times at which they come, are arguments;
-- the pauses between attempts are left out.
use sai3_bench.Prelude.{
  ℕ, zero, suc, ◌+◌, ◌-◌, ◌*◌, ◌%◌, String, Bool, true, false, not, ◌&&◌, Option, none, some, List,
  [], ◌∷◌, ltb, leb, max, if◌then◌else◌, u32,
}
use sai3_bench.Prelude.Keys.{string_key}
use sai3_bench.Prelude.Assoc.{contains, set_insert}
use sai3_bench.Prelude.Maps.{update}
use sai3_bench.Controller.Barrier.{
  PhaseBarrierConfig, PhaseProgress, AgentHeartbeat, BarrierStatus, ready, waiting, degraded,
  failed, BarrierManager, process_heartbeat, check_barrier, reset_barrier_state,
}

-- One attempt of a query: the answer may come without progress.
pub data Attempt : Type 0 where
  responded : Option PhaseProgress → Attempt
  refused timed_out : Attempt

-- The attempts from the number `retries` on, with `left` retries left.
unfoldable pub query_from : (ℕ → Attempt) → ℕ → ℕ → Option (Option PhaseProgress)
query_from attempt retries zero = elim (attempt retries) [
  | responded progress ↦ some progress
  | refused ↦ none
  | timed_out ↦ none
]
query_from attempt retries (suc left) = elim (attempt retries) [
  | responded progress ↦ some progress
  | refused ↦ query_from attempt (retries + 1) left
  | timed_out ↦ query_from attempt (retries + 1) left
]

-- `none` for the client where the pool has none for the agent; `none` as the result is an error.
unfoldable pub query_agent_with_retry :
    Option (ℕ → Attempt) → PhaseBarrierConfig → Option (Option PhaseProgress)
query_agent_with_retry client config = elim client [
  | none ↦ none
  | some attempt ↦ query_from attempt 0 config.query_retries
]

abbrev pub is_recent : ℕ → PhaseBarrierConfig → AgentHeartbeat → Bool
is_recent now config hb = ltb (now - hb.last_heartbeat) (1000 * config.heartbeat_interval)

abbrev pub missed : AgentHeartbeat → ℕ
missed hb = (hb.missed_count + 1) % u32

abbrev pub asks : PhaseBarrierConfig → AgentHeartbeat → Bool
asks config hb = leb config.missed_threshold (missed hb) && not hb.query_in_progress

-- The first pass over an agent, and whether it is to be queried.
unfoldable pub note_missed : ℕ → PhaseBarrierConfig → Bool → AgentHeartbeat → AgentHeartbeat × Bool
note_missed now config given_up hb =
    if given_up
    then (hb, false)
    else if is_recent now config hb
    then (hb, false)
    else if asks config hb
    then (record hb { missed_count = missed hb; query_in_progress = true }, true)
    else (record hb { missed_count = missed hb }, false)

unfoldable pub first_pass :
    ℕ
    → PhaseBarrierConfig
    → List String
    → List (String × AgentHeartbeat)
    → List (String × AgentHeartbeat) × List String
first_pass now config given_up [] = ([], [])
first_pass now config given_up ((agent_id, hb) ∷ agents) =
    let (hb', ask) = note_missed now config (contains agent_id given_up) hb in
    let (rest, to_query) = first_pass now config given_up agents in
    ((agent_id, hb') ∷ rest, if ask then agent_id ∷ to_query else to_query)

unfoldable pub give_up : String → BarrierManager → BarrierManager
give_up agent_id bm = record bm {
  agents =
      update agent_id (λ hb. record hb { is_alive = false; query_in_progress = false }) bm.agents;
  failed_agents = set_insert agent_id bm.failed_agents;
}

-- What follows the query of one agent, at the time at which its answer comes.
unfoldable pub settle :
    (String → ℕ) → (String → Option (ℕ → Attempt)) → String → BarrierManager → BarrierManager
settle clock clients agent_id bm = elim (query_agent_with_retry (clients agent_id) bm.config) [
  | none ↦ give_up agent_id bm
  | some none ↦ bm
  | some (some progress) ↦ process_heartbeat (clock agent_id) agent_id progress bm
]

unfoldable pub second_pass :
    (String → ℕ) → (String → Option (ℕ → Attempt)) → List String → BarrierManager → BarrierManager
second_pass clock clients [] bm = bm
second_pass clock clients (agent_id ∷ ids) bm =
    second_pass clock clients ids (settle clock clients agent_id bm)

unfoldable pub check_liveness :
    ℕ → (String → ℕ) → (String → Option (ℕ → Attempt)) → BarrierManager → BarrierManager
check_liveness now clock clients bm =
    let (agents, to_query) = first_pass now bm.config bm.failed_agents bm.agents in
    second_pass clock clients to_query (record bm { agents = agents })

pub data WaitOutcome : Type 0 where
  finished : BarrierStatus → BarrierManager → WaitOutcome
  -- The two errors.
  insufficient timeout : BarrierManager → WaitOutcome
  -- An unsigned subtraction overflows.
  overflow : WaitOutcome
  out_of_fuel : WaitOutcome

-- What the rounds of a wait that starts at the time `start` meet: the time since then, the time when
-- the check of a round is over, and the agents' answers in it.
pub record Rounds : Type 0 where
  pub start : ℕ
  pub elapsed : ℕ → ℕ
  pub checked : ℕ → ℕ
  pub clock : ℕ → String → ℕ
  pub clients : ℕ → String → Option (ℕ → Attempt)

module _ (rounds : Rounds) (barrier_timeout liveness_check_interval : ℕ) where
  -- The rounds from `k` on; `last_check` is the time of the last liveness check since the start.
  unfoldable pub wait_rounds : ℕ → ℕ → ℕ → BarrierManager → WaitOutcome
  wait_rounds zero k last_check bm = out_of_fuel
  wait_rounds (suc fuel) k last_check bm = elim (leb barrier_timeout (rounds.elapsed k)) [
    | true ↦ timeout (reset_barrier_state (rounds.start + rounds.elapsed k) bm)
    | false ↦ elim (check_barrier bm) [
      | none ↦ overflow
      | some ready ↦ finished ready bm
      | some degraded ↦ finished degraded bm
      | some failed ↦ insufficient bm
      | some waiting ↦ elim (leb liveness_check_interval (rounds.elapsed k - last_check)) [
        | true ↦ wait_rounds fuel (k + 1) (rounds.checked k) (
            check_liveness (rounds.start + rounds.elapsed k) (rounds.clock k) (rounds.clients k) bm)
        | false ↦ wait_rounds fuel (k + 1) last_check bm
      ]
    ]
  ]

-- Times are in milliseconds.
unfoldable pub wait_for_barrier : Rounds → ℕ → BarrierManager → WaitOutcome
wait_for_barrier rounds fuel bm =
    wait_rounds rounds (1000 * bm.config.agent_barrier_timeout)
      (1000 * max bm.config.heartbeat_interval 10) fuel 0 0 bm
