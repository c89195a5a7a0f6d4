-- ===== src/Errors/Tests.antt =====
-- Witnesses for the error budgets and the retries.
use sai3_bench.Prelude.{ℕ, ◌≡◌, true, List, [], ◌∷◌, leb, ltb, if◌then◌else◌, arith}
use sai3_bench.Errors.Prepare.{
  PrepareFailure, Event, created, lost, after, with_thresholds, record_error, record_error-abort,
}
use sai3_bench.Errors.Retry.{Attempt, succeeded, errored}
use sai3_bench.Errors.Budget.{ErrorHandlingConfig, ErrorTracker}

abbrev failure : PrepareFailure
failure = record { uri = "s3://b/1"; size = 4096; error = "timeout"; timestamp = 3 }

-- The latest event first.
abbrev past : List Event
past = lost failure ∷ lost failure ∷ created ∷ lost failure ∷ []

record_error-abort_example :
    (record_error failure (after past (with_thresholds 10 3))).1 ≡ (true, (4, 3))
record_error-abort_example = record_error-abort 10 3 past failure (omega arith)

-- Two failures, then success.
abbrev flaky : ℕ → Attempt ℕ
flaky call = if ltb call 3 then errored "busy" else succeeded 7

abbrev down : ℕ → Attempt ℕ
down call = errored "down"

abbrev config : ErrorHandlingConfig
config = record {
  max_total_errors = 5;
  error_rate_window = 10;
  rate_exceeded = leb 100;
  retry_on_error = true;
  max_retries = 2;
}

abbrev clock : ℕ → ℕ
clock call = call

-- Three errors were counted before.
abbrev strained : ErrorTracker
strained = record { total_errors = 3; recent_errors = []; config = config }
