-- ===== src/Controller/Barrier/LivenessTests.antt =====
-- Liveness checks and waits on two agents.
use sai3_bench.Prelude.{ℕ, ◌+◌, ◌*◌, String, Option, none, some, [], ◌∷◌, if◌then◌else◌, leb}
use sai3_bench.Prelude.Keys.{string_key, key_eq}
use sai3_bench.Controller.Barrier.{majority, PhaseBarrierConfig, BarrierManager, new}
use sai3_bench.Controller.Barrier.Inv.{Inv}
use sai3_bench.Controller.Barrier.Liveness.{
  Attempt, responded, refused, timed_out, check_liveness, Rounds,
}

abbrev config : PhaseBarrierConfig
config = record {
  barrier_type = majority;
  heartbeat_interval = 30;
  missed_threshold = 1;
  query_timeout = 10;
  query_retries = 2;
  agent_barrier_timeout = 1;
}

abbrev start : BarrierManager
start = new 0 ("a" ∷ "b" ∷ []) config

-- The agent "a" is gone, and "b" answers at the second attempt, without progress.
abbrev clients : String → Option (ℕ → Attempt)
clients id =
    some (λ n. if key_eq id "a" then timed_out else if leb 1 n then responded none else refused)

abbrev after_check : BarrierManager
after_check = check_liveness 40000 (λ id. 41000) clients start

-- No agent answers.
abbrev nobody : String → Option (ℕ → Attempt)
nobody id = some (λ n. timed_out)

abbrev rounds : Rounds
rounds = record {
  start = 0;
  elapsed = λ k. 100 * k;
  checked = λ k. 100 * k + 50;
  clock = λ k id. 100 * k;
  clients = λ k. nobody;
}
