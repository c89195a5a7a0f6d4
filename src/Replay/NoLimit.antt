-- ===== src/Replay/NoLimit.antt =====
-- src/replay_streaming.rs: a replay that is allowed no operation at a time.
use sai3_bench.Prelude.{
  ℕ, zero, suc, ◌+◌, ◌-◌, ◌<◌, ◌≡◌, refl, ap, ◌∙◌, Bool, true, false, some, Option, List, [], ◌∷◌,
  length, ltb, arith,
}
use sai3_bench.Replay.{
  BackpressureController, new, recent, record_transition, switch_to, update, up,
}
use sai3_bench.Replay.Stream.{
  ReplayStats, no_stats, Operation, TaskResult, done, failed, panicked, handle_task_result, World,
  ReplayRunConfig, task_failed, out_of_fuel, Replaying, Step, goes_on, flapped, step_failed,
  step_spins, finish, spinning, pull, next_result, poll_down, delay_of, after_polls, on_entry,
  take_rows, replay_workload_streaming,
}

goes_on_lem : (r : TaskResult) (stats : ReplayStats) → (handle_task_result r true stats).1 ≡ true
unfolding handle_task_result
goes_on_lem done stats = refl
goes_on_lem failed stats = refl
goes_on_lem panicked stats = refl

-- The first change of the mode does not reach a limit of one or more.
first_update : (now lag a b m d : ℕ) → 0 < m → (update now lag (new a b m d)).1 ≡ true
unfolding update switch_to record_transition recent
first_update now lag a b m d h = ground arith

module _ {E : Type 0} (world : World E) (config : ReplayRunConfig) where
  continues :
      (op : Operation E) (ops : List (Operation E)) (stats : ReplayStats)
      → config.continue_on_error ≡ true
      → (next_result world config config.continue_on_error op ops stats).1.1 ≡ true
  unfolding next_result
  continues op ops stats lenient =
      let n = stats.completed_operations + stats.failed_operations in
      let r = world.outcome n (pull (world.pick n) op ops).0 in
      ap (λ b. (handle_task_result r b stats).1) lenient ∙ goes_on_lem r stats

  poll_down-spinning :
      (fuel : ℕ) (tasks : List (Operation E)) (stats : ReplayStats)
      → config.continue_on_error ≡ true
      → poll_down world config fuel 0 tasks stats ≡ spinning
  unfolding poll_down
  poll_down-spinning zero tasks stats lenient = refl
  poll_down-spinning (suc fuel) [] stats lenient = poll_down-spinning fuel [] stats lenient
  poll_down-spinning (suc fuel) (op ∷ ops) stats lenient =
      let result = next_result world config config.continue_on_error op ops stats in
      let ok : result.1.1 ≡ true = continues op ops stats lenient in
      let full : ltb (length (op ∷ ops)) 0 ≡ false = ground arith in
      rw (full, ok, poll_down) (poll_down-spinning fuel result.0 result.1.0 lenient)

  update_spins :
      (goes : Bool) (left : Step E) (bp : BackpressureController) (start : Option ℕ) (fuel : ℕ)
      (tasks : List (Operation E)) (stats : ReplayStats)
      → config.max_concurrent ≡ 0
      → config.continue_on_error ≡ true
      → goes ≡ true
      → (elim goes [
        | false ↦ left
        | true ↦
            after_polls world config bp start
              (poll_down world config fuel config.max_concurrent tasks stats)
      ])
        ≡ step_spins
  update_spins true left bp start fuel tasks stats none_at_a_time lenient e =
      ap (after_polls world config bp start) (
        ap (λ k. poll_down world config fuel k tasks stats) none_at_a_time
        ∙ poll_down-spinning fuel tasks stats lenient)
  update_spins false left bp start fuel tasks stats none_at_a_time lenient e = cc

  on_entry_spins :
      (fuel first_time : ℕ) (entry : E) (s : Replaying E)
      → config.max_concurrent ≡ 0
      → config.continue_on_error ≡ true
      → ((now lag : ℕ) → (update now lag s.backpressure).1 ≡ true)
      → on_entry world config fuel first_time entry s ≡ step_spins
  unfolding on_entry
  on_entry_spins fuel first_time entry s none_at_a_time lenient goes =
      let n = up s.stats.total_operations in
      let delay = delay_of world config first_time entry in
      let lag = world.now n - (world.epoch + delay) in
      update_spins _ _ _ _ fuel _ _ none_at_a_time lenient (goes (world.recorded n) lag)

  -- With a limit of no operation at a time, a limit on changes of mode of at least one, and errors that
  -- are continued after, a replay of a log whose first two rows can be read never ends: no fuel is
  -- enough.
  pub replay_workload_streaming_spins :
      (fuel a b m d : ℕ) (e e' : E) (rows : List (Option E))
      → config.max_concurrent ≡ 0
      → config.continue_on_error ≡ true
      → 0 < m
      → replay_workload_streaming world config fuel (new a b m d) (some e ∷ some e' ∷ rows) no_stats
        ≡ out_of_fuel
  unfolding replay_workload_streaming take_rows
  replay_workload_streaming_spins fuel a b m d e e' rows none_at_a_time lenient h =
      ap
        (λ step. elim step [
          | goes_on s ↦ take_rows world config fuel (world.start e) rows s
          | flapped s ↦ finish world config fuel s
          | step_failed ↦ task_failed
          | step_spins ↦ out_of_fuel
        ])
        (on_entry_spins fuel (world.start e) e' _ none_at_a_time lenient
          (λ now lag. first_update now lag a b m d h))
