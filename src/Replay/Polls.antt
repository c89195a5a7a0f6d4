-- ===== src/Replay/Polls.antt =====
-- src/replay_streaming.rs: what the results of tasks do to the counts of a replay.
use native.Mathlib.Nat.{mod-eq_of_lt}
use sai3_bench.Prelude.{
  ℕ, zero, suc, ◌+◌, u64, ◌≤◌, ◌<◌, ◌≡◌, refl, ap, ◌∙◌, inl, inr, Bool, true, false, List, [], ◌∷◌,
  length, ltb, ltb→lt, arith, Bool-cases,
}
use sai3_bench.Replay.{up}
use sai3_bench.Replay.Stream.{
  ReplayStats, Operation, TaskResult, done, failed, panicked, handle_task_result, World,
  ReplayRunConfig, Polled, polled, poll_failed, spinning, pull, next_result, poll_down, drain,
}

pub up_lem : (n : ℕ) → n + 1 < u64 → up n ≡ n + 1
up_lem n h = mod-eq_of_lt h

-- All operations counted have a result or run, but for `x`.
abbrev pub Owes : ℕ → {E : Type 0} → List (Operation E) → ReplayStats → Type 0
Owes x tasks stats =
    stats.completed_operations + stats.failed_operations + length tasks + x ≡ stats.total_operations

abbrev pub Kept : ReplayStats → ReplayStats → Type 0
Kept stats stats' =
    (stats'.total_operations ≡ stats.total_operations)
    × (stats'.skipped_operations ≡ stats.skipped_operations)
    × (stats'.flap_exit ≡ stats.flap_exit)

handle_task_result_lem :
    (r : TaskResult) (b : Bool) (stats : ReplayStats)
    → stats.completed_operations + stats.failed_operations + 1 < u64
    → let (stats', ok) = handle_task_result r b stats in
      (stats'.completed_operations + stats'.failed_operations
        ≡ stats.completed_operations + stats.failed_operations + 1)
      × Kept stats stats'
      × (ok ≡ false → b ≡ false)
      × (ok ≡ true → b ≡ false → stats'.failed_operations ≡ stats.failed_operations)
unfolding handle_task_result
handle_task_result_lem done b stats h = (
  omega (arith, up_lem stats.completed_operations (omega arith)),
  (refl, refl, refl),
  λ e. cc,
  λ e f. refl,
)
handle_task_result_lem failed b stats h = (
  omega (arith, up_lem stats.failed_operations (omega arith)),
  (refl, refl, refl),
  λ e. e,
  λ e f. cc,
)
handle_task_result_lem panicked b stats h = (
  omega (arith, up_lem stats.failed_operations (omega arith)),
  (refl, refl, refl),
  λ e. e,
  λ e f. cc,
)

length-pull :
    {E : Type 0} (n : ℕ) (op : Operation E) (ops : List (Operation E))
    → length (pull n op ops).1 ≡ length ops
unfolding pull
length-pull zero op [] = refl
length-pull (suc n) op [] = refl
length-pull zero op (next ∷ ops) = refl
length-pull (suc n) op (next ∷ ops) = ap suc (length-pull n next ops)

module _ {E : Type 0} (world : World E) (config : ReplayRunConfig) where
  -- What a result leaves.
  next_result_lem :
      (b : Bool) (op : Operation E) (ops : List (Operation E)) (stats : ReplayStats) (x : ℕ)
      → Owes x (op ∷ ops) stats
      → stats.total_operations < u64
      → let (rest, (stats', ok)) = next_result world config b op ops stats in
        Owes x rest stats'
        × (length rest ≡ length ops)
        × Kept stats stats'
        × (ok ≡ false → b ≡ false)
        × (ok ≡ true → b ≡ false → stats'.failed_operations ≡ stats.failed_operations)
  unfolding next_result
  next_result_lem b op ops stats x owes small =
      let n = stats.completed_operations + stats.failed_operations in
      let (finished, rest) = pull (world.pick n) op ops in
      let shorter = length-pull (world.pick n) op ops in
      let (counted, kept, stops, strict) =
        handle_task_result_lem (world.outcome n finished) b stats (omega arith) in
      (omega arith, shorter, kept, stops, strict)

  -- What a loop of polls ends with.
  abbrev pub PolledWell : ℕ → ℕ → ReplayStats → Polled E → Type 0
  PolledWell limit x stats (polled tasks stats') =
      Owes x tasks stats'
      × (length tasks < limit)
      × Kept stats stats'
      × (config.continue_on_error ≡ false → stats'.failed_operations ≡ stats.failed_operations)
  PolledWell limit x stats poll_failed = config.continue_on_error ≡ false
  PolledWell limit x stats spinning = ⊥

  PolledWell-Kept :
      (limit x : ℕ) (stats stats' : ReplayStats) (p : Polled E)
      → Kept stats stats'
      → (config.continue_on_error ≡ false → stats'.failed_operations ≡ stats.failed_operations)
      → PolledWell limit x stats' p
      → PolledWell limit x stats p
  PolledWell-Kept limit x stats stats' (polled tasks end) (t, s, f) strict
        (owes, short, (t', s', f'), strict') =
      (owes, short, (t' ∙ t, s' ∙ s, f' ∙ f), λ e. strict' e ∙ strict e)
  PolledWell-Kept limit x stats stats' poll_failed kept strict stops = stops
  PolledWell-Kept limit x stats stats' spinning kept strict stops = elim stops [ ]

  pub poll_down-PolledWell :
      (fuel limit : ℕ) (tasks : List (Operation E)) (stats : ReplayStats) (x : ℕ)
      → 0 < limit
      → length tasks < fuel
      → stats.total_operations < u64
      → Owes x tasks stats
      → PolledWell limit x stats (poll_down world config fuel limit tasks stats)
  unfolding poll_down
  poll_down-PolledWell zero limit tasks stats x pos enough small owes = absurd (omega arith)
  poll_down-PolledWell (suc fuel) limit [] stats x pos enough small owes =
      let free : ltb 0 limit ≡ true = ground arith in
      rw (free, poll_down) (owes, pos, (refl, refl, refl), λ e. refl)
  poll_down-PolledWell (suc fuel) limit (op ∷ ops) stats x pos enough small owes =
      let result = next_result world config config.continue_on_error op ops stats in
      let (owes', shorter, (total, skipped, flap), stops, strict) =
        next_result_lem config.continue_on_error op ops stats x owes small in
      elim (Bool-cases (ltb (length (op ∷ ops)) limit)) [
        | inl free ↦
            rw (free, poll_down)
              (owes, ltb→lt (length (op ∷ ops)) limit free, (refl, refl, refl), λ e. refl)
        | inr full ↦ elim (Bool-cases result.1.1) [
          | inl ok ↦
              rw (full, ok, poll_down)
                (PolledWell-Kept limit x stats result.1.0
                  (poll_down world config fuel limit result.0 result.1.0) (total, skipped, flap)
                  (strict ok)
                  (poll_down-PolledWell fuel limit result.0 result.1.0 x pos (omega arith)
                    (omega arith) owes'))
          | inr stop ↦ rw (full, stop, poll_down) (stops stop)
        ]
      ]

  pub drain_lem :
      (polls : List Bool) (tasks : List (Operation E)) (stats : ReplayStats) (x : ℕ)
      → stats.total_operations < u64
      → Owes x tasks stats
      → let (tasks', stats') = drain world config polls tasks stats in
        Owes x tasks' stats' × (length tasks' ≤ length tasks) × Kept stats stats'
  unfolding drain
  drain_lem [] tasks stats x small owes = (owes, omega arith, (refl, refl, refl))
  drain_lem (answered ∷ polls) [] stats x small owes = (owes, omega arith, (refl, refl, refl))
  drain_lem (false ∷ polls) (op ∷ ops) stats x small owes =
      drain_lem polls (op ∷ ops) stats x small owes
  drain_lem (true ∷ polls) (op ∷ ops) stats x small owes =
      let result = next_result world config true op ops stats in
      let (owes', shorter, (t, s, f), stops, strict) =
        next_result_lem true op ops stats x owes small in
      let (owes'', shorter', (t', s', f')) =
        drain_lem polls result.0 result.1.0 x (omega arith) owes' in
      (owes'', omega arith, (t' ∙ t, s' ∙ s, f' ∙ f))
