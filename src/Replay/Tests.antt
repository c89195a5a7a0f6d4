-- ===== src/Replay/Tests.antt =====
-- src/replay_streaming.rs: the theorems at concrete logs. An entry is its time.
use sai3_bench.Prelude.{
  ℕ, ◌+◌, ◌*◌, ◌≡◌, refl, true, false, Option, some, none, List, [], ◌∷◌, arith, ltb, if◌then◌else◌,
}
use sai3_bench.Prelude.Text.{codes}
use sai3_bench.Remap.{trim_slashes}
use sai3_bench.Replay.{normal, new, update, switch_to, record_transition, recent}
use sai3_bench.Replay.Stream.{
  no_stats, done, failed, World, ReplayRunConfig, replayed, out_of_fuel, replay_workload_streaming,
  take_rows, on_entry, poll_down, next_result, pull, handle_task_result, finish, note_mode,
}
use sai3_bench.Replay.Flaps.{updates, changes, within_limit, updates_stop_at_limit}
use sai3_bench.Replay.Accounts.{Accounts, replay_workload_streaming-Accounts}
use sai3_bench.Replay.NoLimit.{replay_workload_streaming_spins}
use sai3_bench.Replay.Uris.{strip_prefix, trim_end_slashes, translate_uri}

-- Three changes of the mode within a minute.
abbrev lags : List (ℕ × ℕ)
lags = (0, 6000) ∷ (1000, 3000) ∷ (2000, 500) ∷ (3000, 9000) ∷ []

updates_test : updates lags (new 5000 1000 2 10000) ≡ false
unfolding updates update switch_to record_transition recent
updates_test = refl

updates_stop_at_limit_example :
    updates lags (new 5000 1000 3 10000) ≡ within_limit 3 [] (changes 5000 1000 normal lags)
updates_stop_at_limit_example = updates_stop_at_limit lags 5000 1000 3 10000 (ground arith)

-- Every second task fails.
abbrev world : World ℕ
world = record {
  start = λ e. e;
  scaled = λ t. t;
  epoch = 0;
  now = λ n. 100 * n;
  recorded = λ n. 100 * n + 1;
  noted = λ n. 100 * n + 2;
  ended = 5000;
  pick = λ n. n;
  outcome = λ n op. if ltb n 1 then failed else done;
  polls = true ∷ false ∷ [];
}

abbrev two_at_a_time : ReplayRunConfig
two_at_a_time = record { continue_on_error = true; max_concurrent = 2 }

abbrev rows : List (Option ℕ)
rows = none ∷ some 10 ∷ some 20 ∷ none ∷ some 15 ∷ []

replay_test :
    replay_workload_streaming world two_at_a_time 9 (new 5000 1000 3 10000) rows no_stats
    ≡ replayed (record {
      total_operations = 3;
      completed_operations = 2;
      failed_operations = 1;
      skipped_operations = 2;
      mode_transitions = 0;
      flap_exit = false;
      peak_lag = 295;
      best_effort_time = 0;
    })
unfolding replay_workload_streaming take_rows on_entry poll_down next_result pull handle_task_result
    finish update note_mode
replay_test = refl

replay_workload_streaming-Accounts_example :
    Accounts world two_at_a_time 5
      (replay_workload_streaming world two_at_a_time 6 (new 5000 1000 3 10000) rows no_stats)
replay_workload_streaming-Accounts_example =
    replay_workload_streaming-Accounts world two_at_a_time 6 (new 5000 1000 3 10000) rows
      (omega arith) (omega arith) (omega arith)

abbrev none_at_a_time : ReplayRunConfig
none_at_a_time = record { continue_on_error = true; max_concurrent = 0 }

replay_workload_streaming_spins_example :
    replay_workload_streaming world none_at_a_time 1000
      (new 5000 1000 3 10000)
      (some 10 ∷ some 20 ∷ [])
      no_stats
    ≡ out_of_fuel
replay_workload_streaming_spins_example =
    replay_workload_streaming_spins world none_at_a_time 1000 5000 1000 3 10000 10 20 [] refl refl
      (omega arith)

translate_uri_test :
    translate_uri (codes "s3://a/x/1") (codes "s3://a") (codes "file:///t/") ≡ codes "file:///t/x/1"
unfolding translate_uri strip_prefix trim_end_slashes trim_slashes
translate_uri_test = refl
