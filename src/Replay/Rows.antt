-- ===== src/Replay/Rows.antt =====
-- src/replay_streaming.rs: what one row of a replay, and its end, do to the counts.
use sai3_bench.Prelude.{
  ℕ, suc, ◌+◌, ◌-◌, u64, max, ◌≤◌, ◌<◌, ◌≡◌, refl, sym, ap, ◌∙◌, true, false, Option, none, some,
  [], ◌∷◌, ◌++◌, length, length-append, if◌then◌else◌, arith,
}
use sai3_bench.Replay.{BackpressureController, update, up}
use sai3_bench.Replay.Stream.{
  ReplayStats, Operation, World, ReplayRunConfig, Replayed, replayed, row_rejected, task_failed,
  out_of_fuel, Polled, polled, poll_failed, spinning, Replaying, Step, goes_on, flapped,
  step_failed, step_spins, poll_down, drain, delay_of, note_mode, leave, after_polls, on_entry,
  finish,
}
use sai3_bench.Replay.Polls.{up_lem, Owes, PolledWell, poll_down-PolledWell, drain_lem}

module _ {E : Type 0} (world : World E) (config : ReplayRunConfig) where
  abbrev pub Tallies : ℕ → Replayed → Type 0
  Tallies rows (replayed stats) =
      (stats.completed_operations + stats.failed_operations + (if stats.flap_exit then 1 else 0)
        ≡ stats.total_operations)
      × (stats.flap_exit ≡ false → stats.total_operations + stats.skipped_operations ≡ rows)
      × (config.continue_on_error ≡ false
          → stats.flap_exit ≡ false
          → stats.failed_operations + stats.skipped_operations ≡ 0)
  Tallies rows row_rejected = config.continue_on_error ≡ false
  Tallies rows task_failed = config.continue_on_error ≡ false
  Tallies rows out_of_fuel = ⊥

  pub finish-Tallies :
      (fuel rows : ℕ) (s : Replaying E)
      → length s.tasks < fuel
      → s.stats.total_operations < u64
      → Owes (if s.stats.flap_exit then 1 else 0) s.tasks s.stats
      → (s.stats.flap_exit ≡ false → s.stats.total_operations + s.stats.skipped_operations ≡ rows)
      → (config.continue_on_error ≡ false
          → s.stats.flap_exit ≡ false
          → s.stats.failed_operations + s.stats.skipped_operations ≡ 0)
      → Tallies rows (finish world config fuel s)
  unfolding finish
  finish-Tallies fuel rows s enough small owes all strict =
      let spent : ℕ = elim s.best_effort_start [
        | none ↦ s.stats.best_effort_time
        | some start ↦ s.stats.best_effort_time + (world.ended - start)
      ] in
      let stats : ReplayStats = record s.stats { best_effort_time = spent } in
      go (poll_down world config fuel 1 s.tasks stats) (
        poll_down-PolledWell world config fuel 1 s.tasks stats (if s.stats.flap_exit then 1 else 0)
          (omega arith) enough small owes)
    where
      go :
          (p : Polled E)
          → PolledWell world config 1 (if s.stats.flap_exit then 1 else 0) s.stats p
          → Tallies rows (elim p [
            | polled tasks stats ↦
                replayed (record stats { mode_transitions = s.backpressure.total_transitions })
            | poll_failed ↦ task_failed
            | spinning ↦ out_of_fuel
          ])
      go (polled [] stats) (owes', empty, (t, k, f), strict') = (
        ap (λ b. stats.completed_operations + stats.failed_operations + (if b then 1 else 0)) f
            ∙ omega arith,
        λ e. omega (arith, all (sym f ∙ e)),
        λ c e. omega (arith, strict c (sym f ∙ e), strict' c),
      )
      go (polled (op ∷ ops) stats) (owes', empty, kept, strict') = absurd (omega arith)
      go poll_failed stops = stops
      go spinning stops = elim stops [ ]

  -- A loop over the rows between two of them, `rest` of `rows` rows before its end.
  abbrev pub Between : ℕ → ℕ → Replaying E → Type 0
  Between rows rest s =
      Owes 0 s.tasks s.stats
      × (s.stats.flap_exit ≡ false)
      × (s.stats.total_operations + s.stats.skipped_operations + rest ≡ rows)
      × (config.continue_on_error ≡ false
          → s.stats.failed_operations + s.stats.skipped_operations ≡ 0)

  abbrev pub StepsWell : ℕ → ℕ → Step E → Type 0
  StepsWell rows rest (goes_on s) = Between rows rest s
  StepsWell rows rest (flapped s) =
      Owes 1 s.tasks s.stats
      × (s.stats.flap_exit ≡ true)
      × (length s.tasks < rows)
      × (s.stats.total_operations ≤ rows)
  StepsWell rows rest step_failed = config.continue_on_error ≡ false
  StepsWell rows rest step_spins = ⊥

  after_polls-StepsWell :
      (rows rest : ℕ) (bp : BackpressureController) (start : Option ℕ) (stats : ReplayStats)
      (p : Polled E)
      → PolledWell world config config.max_concurrent 0 stats p
      → stats.flap_exit ≡ false
      → stats.total_operations + stats.skipped_operations + rest ≡ rows
      → (config.continue_on_error ≡ false → stats.failed_operations + stats.skipped_operations ≡ 0)
      → StepsWell rows rest (after_polls world config bp start p)
  after_polls-StepsWell rows rest bp start stats (polled tasks stats')
        (owes, few, (t, k, f), strict') flap left strict =
      (owes, f ∙ flap, omega arith, λ c. omega (arith, strict c, strict' c))
  after_polls-StepsWell rows rest bp start stats poll_failed stops flap left strict = stops
  after_polls-StepsWell rows rest bp start stats spinning stops flap left strict = elim stops [ ]

  pub on_entry-StepsWell :
      (fuel rows rest first_time : ℕ) (entry : E) (s : Replaying E)
      → 0 < config.max_concurrent
      → rows < fuel
      → rows < u64
      → Between rows (suc rest) s
      → StepsWell rows rest (on_entry world config fuel first_time entry s)
  unfolding on_entry
  on_entry-StepsWell fuel rows rest first_time entry s pos enough small (owes, flap, left, strict) =
      let n = up s.stats.total_operations in
      let counted : n ≡ s.stats.total_operations + 1 =
        up_lem s.stats.total_operations (omega arith) in
      let delay = delay_of world config first_time entry in
      let lag = world.now n - (world.epoch + delay) in
      let updated = update (world.recorded n) lag s.backpressure in
      let stats : ReplayStats = record s.stats {
        total_operations = n;
        peak_lag = max s.stats.peak_lag lag;
      } in
      let noted =
        note_mode world config (world.noted n) s.backpressure.mode updated.0.mode
          s.best_effort_start stats.best_effort_time in
      let op : Operation E = record { entry = entry; delay = delay; mode = updated.0.mode } in
      let stats' : ReplayStats = record stats { best_effort_time = noted.1 } in
      let grown = length-append s.tasks (op ∷ []) in
      elim (updated.1)
        as (λ goes. StepsWell rows rest (elim goes [
          | false ↦ leave world config updated.0 s (drain world config world.polls s.tasks stats)
          | true ↦
              after_polls world config updated.0 noted.0
                (poll_down world config fuel config.max_concurrent (s.tasks ++ op ∷ []) stats')
        ])) [
          | false ↦
              let (owes', fewer, (t, k, f)) =
                drain_lem world config world.polls s.tasks stats 1 (omega arith) (omega arith) in
              (owes', refl, omega arith, omega arith)
          | true ↦
              after_polls-StepsWell rows rest updated.0 noted.0 stats'
                (poll_down world config fuel config.max_concurrent (s.tasks ++ op ∷ []) stats')
                (poll_down-PolledWell world config fuel config.max_concurrent (s.tasks ++ op ∷ [])
                  stats' 0 pos (omega arith) (omega arith) (omega arith))
                flap (omega arith) strict
        ]
