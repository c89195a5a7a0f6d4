-- ===== src/Replay/Accounts.antt =====
-- src/replay_streaming.rs: what the statistics of a replay count, and that it ends.
use sai3_bench.Prelude.{
  ℕ, ◌+◌, u64, ◌<◌, ◌≡◌, refl, sym, ap, subst, ◌∙◌, inl, inr, ◌⊎◌, Bool, true, false, Option, none,
  some, List, [], ◌∷◌, length, if◌then◌else◌, arith, Bool-cases,
}
use sai3_bench.Replay.{BackpressureController}
use sai3_bench.Replay.Stream.{
  ReplayStats, no_stats, World, ReplayRunConfig, Replayed, replayed, row_rejected, task_failed,
  out_of_fuel, Replaying, Step, goes_on, flapped, step_failed, step_spins, on_entry, skip, finish,
  take_rows, replay_workload_streaming,
}
use sai3_bench.Replay.Polls.{up_lem}
use sai3_bench.Replay.Rows.{Tallies, finish-Tallies, Between, StepsWell, on_entry-StepsWell}

module _ {E : Type 0} (world : World E) (config : ReplayRunConfig) where
  take_rows-Tallies :
      (fuel first_time rows : ℕ) (rest : List (Option E)) (s : Replaying E)
      → 0 < config.max_concurrent
      → rows < fuel
      → rows < u64
      → Between world config rows (length rest) s
      → Tallies world config rows (take_rows world config fuel first_time rest s)
  unfolding take_rows
  take_rows-Tallies fuel first_time rows [] s pos enough small (owes, flap, left, strict) =
      finish-Tallies world config fuel rows s (omega arith) (omega arith)
        (ap
            (λ b.
              s.stats.completed_operations
              + s.stats.failed_operations
              + length s.tasks
              + (if b then 1 else 0))
            flap
          ∙ owes)
        (λ e. omega arith) (λ c e. strict c)
  take_rows-Tallies fuel first_time rows (none ∷ rest) s pos enough small
        (owes, flap, left, strict) =
      let skipped = up_lem s.stats.skipped_operations (omega arith) in
      let Ends : Bool → Type 0 = λ b. Tallies world config rows (elim b [
        | false ↦ row_rejected
        | true ↦
            take_rows world config fuel first_time rest
              (record s { stats = skip world config s.stats })
      ]) in
      elim (Bool-cases config.continue_on_error) [
        | inl lenient ↦ subst Ends (sym lenient) (
            take_rows-Tallies fuel first_time rows rest
              (record s { stats = skip world config s.stats }) pos enough small
              (owes, flap, omega arith, λ c. cc))
        | inr strictly ↦ subst Ends (sym strictly) strictly
      ]
  take_rows-Tallies fuel first_time rows (some entry ∷ rest) s pos enough small between =
      go (on_entry world config fuel first_time entry s)
        (on_entry-StepsWell world config fuel rows (length rest) first_time entry s pos enough small
          between)
        (λ s' b. take_rows-Tallies fuel first_time rows rest s' pos enough small b)
    where
      go :
          (step : Step E)
          → StepsWell world config rows (length rest) step
          → ((s' : Replaying E)
              → Between world config rows (length rest) s'
              → Tallies world config rows (take_rows world config fuel first_time rest s'))
          → Tallies world config rows (elim step [
            | goes_on s' ↦ take_rows world config fuel first_time rest s'
            | flapped s' ↦ finish world config fuel s'
            | step_failed ↦ task_failed
            | step_spins ↦ out_of_fuel
          ])
      go (goes_on s') b more = more s' b
      go (flapped s') (owes, flap, few, within) more =
          finish-Tallies world config fuel rows s' (omega arith) (omega arith)
            (ap
                (λ b.
                  s'.stats.completed_operations
                  + s'.stats.failed_operations
                  + length s'.tasks
                  + (if b then 1 else 0))
                flap
              ∙ owes)
            (λ e. cc) (λ c e. cc)
      go step_failed stops more = stops
      go step_spins stops more = elim stops [ ]

  rows-Tallies :
      (fuel rows : ℕ) (bp : BackpressureController) (rest : List (Option E)) (stats : ReplayStats)
      → 0 < config.max_concurrent
      → rows < fuel
      → rows < u64
      → stats.total_operations ≡ 0
      → stats.completed_operations ≡ 0
      → stats.failed_operations ≡ 0
      → stats.flap_exit ≡ false
      → stats.skipped_operations + length rest ≡ rows
      → (config.continue_on_error ≡ false → stats.skipped_operations ≡ 0)
      → Tallies world config rows (replay_workload_streaming world config fuel bp rest stats)
  unfolding replay_workload_streaming
  rows-Tallies fuel rows bp [] stats pos enough small t c f flap left strict = (
    ap (λ b. stats.completed_operations + stats.failed_operations + (if b then 1 else 0)) flap
        ∙ omega arith,
    λ e. omega arith,
    λ e g. omega (arith, strict e),
  )
  rows-Tallies fuel rows bp (none ∷ rest) stats pos enough small t c f flap left strict =
      let skipped = up_lem stats.skipped_operations (omega arith) in
      let Ends : Bool → Type 0 = λ b. Tallies world config rows (elim b [
        | false ↦ row_rejected
        | true ↦ replay_workload_streaming world config fuel bp rest (skip world config stats)
      ]) in
      elim (Bool-cases config.continue_on_error) [
        | inl lenient ↦ subst Ends (sym lenient) (
            rows-Tallies fuel rows bp rest (skip world config stats) pos enough small t c f flap
              (omega arith) (λ c. cc))
        | inr strictly ↦ subst Ends (sym strictly) strictly
      ]
  rows-Tallies fuel rows bp (some entry ∷ rest) stats pos enough small t c f flap left strict =
      let counted = up_lem stats.total_operations (omega arith) in
      take_rows-Tallies fuel (world.start entry) rows rest _ pos enough small
        (omega arith, flap, omega arith, λ e. omega (arith, strict e))

  -- What a replay of `rows` rows ends with.
  abbrev pub Accounts : ℕ → Replayed → Type 0
  Accounts rows (replayed stats) =
      (stats.completed_operations + stats.failed_operations + (if stats.flap_exit then 1 else 0)
        ≡ stats.total_operations)
      × ((stats.flap_exit ≡ true) ⊎ (stats.total_operations + stats.skipped_operations ≡ rows))
      × ((config.continue_on_error ≡ true)
          ⊎ ((stats.flap_exit ≡ true) ⊎ (stats.failed_operations + stats.skipped_operations ≡ 0)))
  Accounts rows row_rejected = config.continue_on_error ≡ false
  Accounts rows task_failed = config.continue_on_error ≡ false
  Accounts rows out_of_fuel = ⊥

  either : {P : Type 0} (b : Bool) → (b ≡ false → P) → (b ≡ true) ⊎ P
  either b p = elim (Bool-cases b) [ inl e ↦ inl e | inr e ↦ inr (p e) ]

  Tallies-Accounts : (rows : ℕ) (end : Replayed) → Tallies world config rows end → Accounts rows end
  Tallies-Accounts rows (replayed stats) (counted, all, strict) = (
    counted,
    either stats.flap_exit all,
    elim (Bool-cases config.continue_on_error) [
      | inl e ↦ inl e
      | inr e ↦ inr (either stats.flap_exit (strict e))
    ],
  )
  Tallies-Accounts rows row_rejected e = e
  Tallies-Accounts rows task_failed e = e
  Tallies-Accounts rows out_of_fuel e = e

  -- A replay with a limit of one operation or more at a time ends, within one poll more than rows in
  -- each of its loops. Without an error, every operation counted has completed or failed, but for the
  -- one at which the limit on changes of mode ends the replay; without that limit every row was
  -- counted as an operation or as skipped; and where errors are not continued after, none failed and
  -- none was skipped. With an error, errors are not continued after. The rows are fewer than 2^64.
  pub replay_workload_streaming-Accounts :
      (fuel : ℕ) (bp : BackpressureController) (rows : List (Option E))
      → 0 < config.max_concurrent
      → length rows < fuel
      → length rows < u64
      → Accounts (length rows) (replay_workload_streaming world config fuel bp rows no_stats)
  replay_workload_streaming-Accounts fuel bp rows pos enough small =
      Tallies-Accounts (length rows) (replay_workload_streaming world config fuel bp rows no_stats)
        (rows-Tallies fuel (length rows) bp rows no_stats pos enough small refl refl refl refl
          (omega arith) (λ c. refl))
