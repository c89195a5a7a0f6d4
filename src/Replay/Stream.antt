-- ===== src/Replay/Stream.antt =====
-- `replay_workload_streaming` of src/replay_streaming.rs. The rows of the log, the clock, the runtime
-- that runs the tasks and the division of a time by the speed are arguments.
use sai3_bench.Prelude.{
  ℕ, zero, suc, ◌+◌, ◌-◌, Bool, true, false, Option, none, some, List, [], ◌∷◌, ◌++◌, length, ltb,
  max, if◌then◌else◌,
}
use sai3_bench.Replay.{ReplayMode, normal, best_effort, BackpressureController, update, up}

pub record ReplayStats : Type 0 where
  pub total_operations : ℕ
  pub completed_operations : ℕ
  pub failed_operations : ℕ
  pub skipped_operations : ℕ
  pub mode_transitions : ℕ
  pub flap_exit : Bool
  pub peak_lag : ℕ
  pub best_effort_time : ℕ

abbrev pub no_stats : ReplayStats
no_stats = record {
  total_operations = 0;
  completed_operations = 0;
  failed_operations = 0;
  skipped_operations = 0;
  mode_transitions = 0;
  flap_exit = false;
  peak_lag = 0;
  best_effort_time = 0;
}

-- What a task is spawned with.
pub record Operation (E : Type 0) : Type 0 where
  pub entry : E
  pub delay : ℕ
  pub mode : ReplayMode

pub data TaskResult : Type 0 where
  done failed panicked : TaskResult

-- The statistics after the result of a task, and whether the replay goes on.
unfoldable pub handle_task_result : TaskResult → Bool → ReplayStats → ReplayStats × Bool
handle_task_result done continue_on_error stats =
    (record stats { completed_operations = up stats.completed_operations }, true)
handle_task_result failed continue_on_error stats =
    (record stats { failed_operations = up stats.failed_operations }, continue_on_error)
handle_task_result panicked continue_on_error stats =
    (record stats { failed_operations = up stats.failed_operations }, continue_on_error)

-- What a replay meets. `n` is the number of results or of operations so far.
pub record World (E : Type 0) : Type 0 where
  pub start : E → ℕ
  pub scaled : ℕ → ℕ
  pub epoch : ℕ
  -- The time when the lag of operation n is taken, when its change of mode is recorded, and when the
  -- loop notes that.
  pub now : ℕ → ℕ
  pub recorded : ℕ → ℕ
  pub noted : ℕ → ℕ
  pub ended : ℕ
  -- Which task is the next to finish, and how.
  pub pick : ℕ → ℕ
  pub outcome : ℕ → Operation E → TaskResult
  -- For each poll of a drain that begins before the timeout: whether it brings a result.
  pub polls : List Bool

pub record ReplayRunConfig : Type 0 where
  pub continue_on_error : Bool
  pub max_concurrent : ℕ

pub data Replayed : Type 0 where
  replayed : ReplayStats → Replayed
  -- The errors, returned after every outstanding task is aborted.
  row_rejected task_failed : Replayed
  out_of_fuel : Replayed

pub data Polled (E : Type 0) : Type 0 where
  polled : List (Operation E) → ReplayStats → Polled E
  poll_failed spinning : Polled E

-- A task by its position, the last one where there is no such position, and the others.
unfoldable pub pull :
    {E : Type 0} → ℕ → Operation E → List (Operation E) → Operation E × List (Operation E)
pull n op [] = (op, [])
pull zero op (next ∷ ops) = (op, next ∷ ops)
pull (suc n) op (next ∷ ops) = let (x, rest) = pull n next ops in (x, op ∷ rest)

-- The loop over the rows.
pub record Replaying (E : Type 0) : Type 0 where
  pub tasks : List (Operation E)
  pub stats : ReplayStats
  pub backpressure : BackpressureController
  pub best_effort_start : Option ℕ

pub data Step (E : Type 0) : Type 0 where
  goes_on flapped : Replaying E → Step E
  step_failed step_spins : Step E

module _ {E : Type 0} (world : World E) (config : ReplayRunConfig) where
  -- The next task to finish: the others, the statistics, and whether the replay goes on.
  unfoldable pub next_result :
      Bool
      → Operation E
      → List (Operation E)
      → ReplayStats
      → List (Operation E) × (ReplayStats × Bool)
  next_result continue_on_error op ops stats =
      let n = stats.completed_operations + stats.failed_operations in
      let (finished, rest) = pull (world.pick n) op ops in
      (rest, handle_task_result (world.outcome n finished) continue_on_error stats)

  -- while tasks.len() >= limit; a limit of one waits for all tasks.
  unfoldable pub poll_down : ℕ → ℕ → List (Operation E) → ReplayStats → Polled E
  poll_down zero limit tasks stats = spinning
  poll_down (suc fuel) limit tasks stats = elim (ltb (length tasks) limit) [
    | true ↦ polled tasks stats
    | false ↦ elim tasks [
      | [] ↦ poll_down fuel limit [] stats
      | op ∷ ops ↦
          let (rest, (stats', ok)) = next_result config.continue_on_error op ops stats in
          elim ok [ true ↦ poll_down fuel limit rest stats' | false ↦ poll_failed ]
    ]
  ]

  unfoldable pub drain :
      List Bool → List (Operation E) → ReplayStats → List (Operation E) × ReplayStats
  drain [] tasks stats = (tasks, stats)
  drain (answered ∷ polls) [] stats = ([], stats)
  drain (answered ∷ polls) (op ∷ ops) stats =
      let (rest, (stats', ok)) = next_result true op ops stats in
      elim answered [ true ↦ drain polls rest stats' | false ↦ drain polls (op ∷ ops) stats ]

  abbrev pub delay_of : ℕ → E → ℕ
  delay_of first_time entry =
      if ltb (world.start entry) first_time
      then 0
      else world.scaled (world.start entry - first_time)

  -- The start of the time in best-effort mode, and the time spent in it so far.
  unfoldable pub note_mode : ℕ → ReplayMode → ReplayMode → Option ℕ → ℕ → Option ℕ × ℕ
  note_mode now normal best_effort start spent = (some now, spent)
  note_mode now best_effort normal none spent = (none, spent)
  note_mode now best_effort normal (some start) spent = (none, spent + (now - start))
  note_mode now normal normal start spent = (start, spent)
  note_mode now best_effort best_effort start spent = (start, spent)

  -- The loop as it is left when the limit on changes of the mode is reached.
  abbrev pub leave :
      BackpressureController → Replaying E → List (Operation E) × ReplayStats → Step E
  leave bp s (tasks, stats) =
      flapped
        (record s { tasks = tasks; stats = record stats { flap_exit = true }; backpressure = bp })

  abbrev pub after_polls : BackpressureController → Option ℕ → Polled E → Step E
  after_polls bp start (polled tasks stats) =
      goes_on
        (record { tasks = tasks; stats = stats; backpressure = bp; best_effort_start = start })
  after_polls bp start poll_failed = step_failed
  after_polls bp start spinning = step_spins

  -- One row of the loop, on fuel for its polls.
  unfoldable pub on_entry : ℕ → ℕ → E → Replaying E → Step E
  on_entry fuel first_time entry s =
      let n = up s.stats.total_operations in
      let delay = delay_of first_time entry in
      let current_lag = world.now n - (world.epoch + delay) in
      let stats : ReplayStats = record s.stats {
        total_operations = n;
        peak_lag = max s.stats.peak_lag current_lag;
      } in
      let (bp, goes) = update (world.recorded n) current_lag s.backpressure in
      let (start, spent) =
        note_mode (world.noted n) s.backpressure.mode bp.mode s.best_effort_start
          stats.best_effort_time in
      let op : Operation E = record { entry = entry; delay = delay; mode = bp.mode } in
      elim goes [
        | false ↦ leave bp s (drain world.polls s.tasks stats)
        | true ↦ after_polls bp start (
            poll_down fuel config.max_concurrent (s.tasks ++ op ∷ [])
              (record stats { best_effort_time = spent }))
      ]

  abbrev pub skip : ReplayStats → ReplayStats
  skip stats = record stats { skipped_operations = up stats.skipped_operations }

  unfoldable pub finish : ℕ → Replaying E → Replayed
  finish fuel s =
      let spent : ℕ = elim s.best_effort_start [
        | none ↦ s.stats.best_effort_time
        | some start ↦ s.stats.best_effort_time + (world.ended - start)
      ] in
      elim (poll_down fuel 1 s.tasks (record s.stats { best_effort_time = spent })) [
        | polled tasks stats ↦
            replayed (record stats { mode_transitions = s.backpressure.total_transitions })
        | poll_failed ↦ task_failed
        | spinning ↦ out_of_fuel
      ]

  -- A row that the reader rejects is `none`.
  unfoldable pub take_rows : ℕ → ℕ → List (Option E) → Replaying E → Replayed
  take_rows fuel first_time [] s = finish fuel s
  take_rows fuel first_time (none ∷ rows) s = elim config.continue_on_error [
    | false ↦ row_rejected
    | true ↦ take_rows fuel first_time rows (record s { stats = skip s.stats })
  ]
  take_rows fuel first_time (some entry ∷ rows) s = elim (on_entry fuel first_time entry s) [
    | goes_on s' ↦ take_rows fuel first_time rows s'
    | flapped s' ↦ finish fuel s'
    | step_failed ↦ task_failed
    | step_spins ↦ out_of_fuel
  ]

  unfoldable pub replay_workload_streaming :
      ℕ → BackpressureController → List (Option E) → ReplayStats → Replayed
  replay_workload_streaming fuel bp [] stats = replayed stats
  replay_workload_streaming fuel bp (none ∷ rows) stats = elim config.continue_on_error [
    | false ↦ row_rejected
    | true ↦ replay_workload_streaming fuel bp rows (skip stats)
  ]
  replay_workload_streaming fuel bp (some entry ∷ rows) stats =
      take_rows fuel (world.start entry) rows (record {
        tasks = record { entry = entry; delay = 0; mode = bp.mode } ∷ [];
        stats = record stats { total_operations = up stats.total_operations };
        backpressure = bp;
        best_effort_start = none;
      })
