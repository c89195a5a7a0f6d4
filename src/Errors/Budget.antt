-- ===== src/Errors/Budget.antt =====
-- `ErrorTracker` and `execute_with_error_handling` of src/workload.rs. The test on the error rate,
-- which is floating point, is a function of the number of errors in the window, and the time of
-- each call is handed in.
use sai3_bench.Prelude.{
  ℕ, zero, suc, ◌+◌, ◌-◌, ◌%◌, ◌<◌, ◌≤◌, ◌≡◌, refl, Bool, true, false, List, [], ◌∷◌, ◌++◌, leb,
  if◌then◌else◌, length, u32, u64, arith,
}
use sai3_bench.Errors.Retry.{Attempt, succeeded, errored, AllFail, at_zero, at_suc}

-- The fields that these functions read.
pub record ErrorHandlingConfig : Type 0 where
  pub max_total_errors : ℕ
  pub error_rate_window : ℕ
  pub rate_exceeded : ℕ → Bool
  pub retry_on_error : Bool
  pub max_retries : ℕ

pub record ErrorTracker : Type 0 where
  pub total_errors : ℕ
  pub recent_errors : List ℕ
  pub config : ErrorHandlingConfig

abbrev pub new : ErrorHandlingConfig → ErrorTracker
new config = record { total_errors = 0; recent_errors = []; config = config }

-- `recent.retain(|&t| t >= window_start)`.
pub retain_from : ℕ → List ℕ → List ℕ
retain_from window_start [] = []
retain_from window_start (t ∷ ts) =
    let rest = retain_from window_start ts in if leb window_start t then t ∷ rest else rest

pub record Recorded : Type 0 where
  pub tracker : ErrorTracker
  pub should_backoff : Bool
  pub should_abort : Bool
  pub total : ℕ

pub record_error : ℕ → ErrorTracker → Recorded
record_error now t =
    let total = (t.total_errors + 1) % u64 in
    let recent = retain_from (now - t.config.error_rate_window) (t.recent_errors ++ now ∷ []) in
    record {
      tracker = record t { total_errors = total; recent_errors = recent };
      should_backoff = t.config.rate_exceeded (length recent);
      should_abort = leb t.config.max_total_errors total;
      total = total;
    }

pub max_attempts : ErrorHandlingConfig → ℕ
max_attempts config = if config.retry_on_error then (config.max_retries + 1) % u32 else 1

max_attempts_lem :
    (config : ErrorHandlingConfig)
    → config.retry_on_error ≡ true
    → config.max_retries + 1 < u32
    → max_attempts config ≡ suc config.max_retries
unfolding max_attempts
max_attempts_lem config on width = rw on (omega arith)

-- `Ok(Some(result))`, `Ok(None)`, `Err(_)`.
pub data Outcome {ℓ} (T : Type ℓ) : Type ℓ where
  finished : T → Outcome T
  skipped aborted : Outcome T

module _ {ℓ} {T : Type ℓ} (op_fn : ℕ → Attempt T) (clock : ℕ → ℕ) where
  -- The calls from number `attempt` on, at most `left` of them.
  pub execute_from : ℕ → ℕ → ErrorTracker → Outcome T × ErrorTracker
  execute_from attempt zero t = (skipped, t)
  execute_from attempt (suc left) t = elim (op_fn attempt) [
    | succeeded result ↦ (finished result, t)
    | errored e ↦
        let recorded = record_error (clock attempt) t in
        let later = execute_from (attempt + 1) left recorded.tracker in
        if recorded.should_abort then (aborted, recorded.tracker) else later
  ]

  pub execute_with_error_handling : ErrorTracker → Outcome T × ErrorTracker
  execute_with_error_handling t = execute_from 1 (max_attempts t.config) t

  execute_from-finished :
      (attempt left n : ℕ) (t : ErrorTracker) (result : T)
      → n < left
      → t.total_errors + n < t.config.max_total_errors
      → t.config.max_total_errors < u64
      → AllFail op_fn attempt n
      → op_fn (attempt + n) ≡ succeeded result
      → let r = execute_from attempt left t in
        (r.0 ≡ finished result) × (r.1.total_errors ≡ t.total_errors + n)
  unfolding execute_from record_error
  execute_from-finished attempt zero n t result h below small fails ok = absurd (omega arith)
  execute_from-finished attempt (suc left) zero t result h below small fails ok =
      rw (at_zero op_fn attempt (succeeded result) ok, execute_from) (refl, omega arith)
  execute_from-finished attempt (suc left) (suc n) t result h below small (e, eq, fails) ok =
      let t' = (record_error (clock attempt) t).tracker in
      let total : t'.total_errors ≡ t.total_errors + 1 = omega arith in
      let ih =
        execute_from-finished (attempt + 1) left n t' result (omega arith) (omega (arith, total))
          small fails (at_suc op_fn attempt n (succeeded result) ok) in
      let go : (leb t.config.max_total_errors ((t.total_errors + 1) % u64)) ≡ false =
        ground arith in
      rw (eq, go, execute_from) (ih.0, omega (arith, ih.1, total))

  execute_from-skipped :
      (attempt left : ℕ) (t : ErrorTracker)
      → t.total_errors + left < t.config.max_total_errors
      → t.config.max_total_errors < u64
      → AllFail op_fn attempt left
      → let r = execute_from attempt left t in
        (r.0 ≡ skipped) × (r.1.total_errors ≡ t.total_errors + left)
  unfolding execute_from record_error
  execute_from-skipped attempt zero t below small fails = (refl, omega arith)
  execute_from-skipped attempt (suc left) t below small (e, eq, fails) =
      let t' = (record_error (clock attempt) t).tracker in
      let total : t'.total_errors ≡ t.total_errors + 1 = omega arith in
      let ih = execute_from-skipped (attempt + 1) left t' (omega (arith, total)) small fails in
      let go : (leb t.config.max_total_errors ((t.total_errors + 1) % u64)) ≡ false =
        ground arith in
      rw (eq, go, execute_from) (ih.0, omega (arith, ih.1, total))

  -- The call that brings the total to the one allowed is number `attempt + n`.
  execute_from-aborted :
      (attempt left n : ℕ) (t : ErrorTracker)
      → n < left
      → t.total_errors + n + 1 ≡ t.config.max_total_errors
      → t.config.max_total_errors < u64
      → AllFail op_fn attempt (suc n)
      → let r = execute_from attempt left t in
        (r.0 ≡ aborted) × (r.1.total_errors ≡ t.config.max_total_errors)
  unfolding execute_from record_error
  execute_from-aborted attempt zero n t h meets small fails = absurd (omega arith)
  execute_from-aborted attempt (suc left) zero t h meets small (e, eq, fails) =
      let stop : (leb t.config.max_total_errors ((t.total_errors + 1) % u64)) ≡ true =
        ground arith in
      rw (eq, stop, execute_from) (refl, omega arith)
  execute_from-aborted attempt (suc left) (suc n) t h meets small (e, eq, fails) =
      let t' = (record_error (clock attempt) t).tracker in
      let total : t'.total_errors ≡ t.total_errors + 1 = omega arith in
      let ih =
        execute_from-aborted (attempt + 1) left n t' (omega arith) (omega (arith, total)) small
          fails in
      let go : (leb t.config.max_total_errors ((t.total_errors + 1) % u64)) ≡ false =
        ground arith in
      rw (eq, go, execute_from) (ih.0, ih.1)

  -- With retries on: when the calls 1 to `n` fail, `n` at most `max_retries`, and their errors
  -- leave the total below the one allowed, and call `n + 1` succeeds, its result is the result
  -- and the tracker has counted `n` errors more.
  pub execute-finished :
      (n : ℕ) (t : ErrorTracker) (result : T)
      → t.config.retry_on_error ≡ true
      → t.config.max_retries + 1 < u32
      → n ≤ t.config.max_retries
      → t.total_errors + n < t.config.max_total_errors
      → t.config.max_total_errors < u64
      → AllFail op_fn 1 n
      → op_fn (1 + n) ≡ succeeded result
      → let r = execute_with_error_handling t in
        (r.0 ≡ finished result) × (r.1.total_errors ≡ t.total_errors + n)
  unfolding execute_with_error_handling
  execute-finished n t result on width h below small fails ok =
      rw (max_attempts_lem t.config on width) (
        execute_from-finished 1 (suc t.config.max_retries) n t result (omega arith) below small
          fails ok)

  -- With retries on: when the first `max_retries + 1` calls fail and their errors leave the total
  -- below the one allowed, the operation is skipped, and that many more errors are counted.
  pub execute-skipped :
      (t : ErrorTracker)
      → t.config.retry_on_error ≡ true
      → t.config.max_retries + 1 < u32
      → t.total_errors + suc t.config.max_retries < t.config.max_total_errors
      → t.config.max_total_errors < u64
      → AllFail op_fn 1 (suc t.config.max_retries)
      → let r = execute_with_error_handling t in
        (r.0 ≡ skipped) × (r.1.total_errors ≡ t.total_errors + suc t.config.max_retries)
  unfolding execute_with_error_handling
  execute-skipped t on width below small fails =
      rw (max_attempts_lem t.config on width)
        (execute_from-skipped 1 (suc t.config.max_retries) t below small fails)

  -- With retries on: when the calls 1 to `n + 1` fail, within the attempts there are, and the last
  -- of these errors brings the total to the one allowed, the workload is aborted there, with that
  -- total and whatever later calls would do.
  pub execute-aborted :
      (n : ℕ) (t : ErrorTracker)
      → t.config.retry_on_error ≡ true
      → t.config.max_retries + 1 < u32
      → n ≤ t.config.max_retries
      → t.total_errors + n + 1 ≡ t.config.max_total_errors
      → t.config.max_total_errors < u64
      → AllFail op_fn 1 (suc n)
      → let r = execute_with_error_handling t in
        (r.0 ≡ aborted) × (r.1.total_errors ≡ t.config.max_total_errors)
  unfolding execute_with_error_handling
  execute-aborted n t on width h meets small fails =
      rw (max_attempts_lem t.config on width)
        (execute_from-aborted 1 (suc t.config.max_retries) n t (omega arith) meets small fails)
