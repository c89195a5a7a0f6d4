-- ===== src/Replay.antt =====
-- src/replay_streaming.rs: the modes of a replay, and the limit on changes between them. Times are in
-- milliseconds, and the clock is an argument; an `Instant` goes on before the start of the machine.
pub mod Stream
mod Flaps
mod Polls
mod Rows
mod Accounts
mod NoLimit
pub mod Uris
mod Tests
use sai3_bench.Prelude.{
  ℕ, ◌+◌, ◌%◌, u64, Bool, true, false, List, [], ◌∷◌, ◌++◌, length, ltb, if◌then◌else◌,
}

pub data ReplayMode : Type 0 where
  normal best_effort : ReplayMode

pub record FlappingTracker : Type 0 where
  pub transitions : List ℕ
  pub max_per_minute : ℕ

-- The transitions of the minute before `now`: `retain(|&t| t > now - 60 s)`.
unfoldable pub recent : ℕ → List ℕ → List ℕ
recent now [] = []
recent now (t ∷ ts) = let rest = recent now ts in if ltb now (t + 60000) then t ∷ rest else rest

-- The tracker after a transition, and whether the limit is exceeded.
unfoldable pub record_transition : ℕ → FlappingTracker → FlappingTracker × Bool
record_transition now f =
    let kept = recent now f.transitions ++ now ∷ [] in
    (record f { transitions = kept }, ltb f.max_per_minute (length kept))

pub record BackpressureController : Type 0 where
  pub mode : ReplayMode
  pub lag_threshold : ℕ
  pub recovery_threshold : ℕ
  pub flap_tracker : FlappingTracker
  pub drain_timeout : ℕ
  pub total_transitions : ℕ
  pub flap_limit_exceeded : Bool

abbrev pub new : ℕ → ℕ → ℕ → ℕ → BackpressureController
new lag_threshold recovery_threshold max_flaps_per_minute drain_timeout = record {
  mode = normal;
  lag_threshold = lag_threshold;
  recovery_threshold = recovery_threshold;
  flap_tracker = record { transitions = []; max_per_minute = max_flaps_per_minute };
  drain_timeout = drain_timeout;
  total_transitions = 0;
  flap_limit_exceeded = false;
}

-- A counter of 64 bits, one up.
abbrev pub up : ℕ → ℕ
up n = (n + 1) % u64

-- The controller after a change to `mode`, and whether the replay goes on.
unfoldable pub switch_to : ReplayMode → ℕ → BackpressureController → BackpressureController × Bool
switch_to mode now c =
    let (tracker, exceeded) = record_transition now c.flap_tracker in
    let changed = record c {
      mode = mode;
      total_transitions = up c.total_transitions;
      flap_tracker = tracker;
    } in
    if exceeded then (record changed { flap_limit_exceeded = true }, false) else (changed, true)

unfoldable pub update : ℕ → ℕ → BackpressureController → BackpressureController × Bool
update now current_lag c = elim c.mode [
  | normal ↦ if ltb c.lag_threshold current_lag then switch_to best_effort now c else (c, true)
  | best_effort ↦ if ltb current_lag c.recovery_threshold then switch_to normal now c else (c, true)
]
