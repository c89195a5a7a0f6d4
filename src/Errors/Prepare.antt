-- ===== src/Errors/Prepare.antt =====
-- `PrepareErrorTracker` of src/prepare/error_tracking.rs. The time of a failure is a number handed
-- in.
use sai3_bench.Prelude.{
  ℕ, ◌+◌, ◌%◌, ◌<◌, ◌≤◌, String, ◌≡◌, refl, Bool, ◌||◌, List, [], ◌∷◌, ◌++◌, leb, length,
  length-append, u64, arith,
}

pub record PrepareFailure : Type 0 where
  pub uri : String
  pub size : ℕ
  pub error : String
  pub timestamp : ℕ

pub record PrepareErrorTracker : Type 0 where
  pub total_errors : ℕ
  pub consecutive_errors : ℕ
  pub max_total_errors : ℕ
  pub max_consecutive_errors : ℕ
  pub failed_objects : List PrepareFailure

pub with_thresholds : ℕ → ℕ → PrepareErrorTracker
with_thresholds max_total max_consecutive = record {
  total_errors = 0;
  consecutive_errors = 0;
  max_total_errors = max_total;
  max_consecutive_errors = max_consecutive;
  failed_objects = [];
}

pub record_success : PrepareErrorTracker → PrepareErrorTracker
record_success t = record t { consecutive_errors = 0 }

-- The tracker afterwards, and whether to abort, the total and the consecutive errors.
pub record_error : PrepareFailure → PrepareErrorTracker → PrepareErrorTracker × (Bool × (ℕ × ℕ))
record_error failure t =
    let total = (t.total_errors + 1) % u64 in
    let consecutive = (t.consecutive_errors + 1) % u64 in
    (
      record t {
        total_errors = total;
        consecutive_errors = consecutive;
        failed_objects = t.failed_objects ++ failure ∷ [];
      },
      (
        leb t.max_total_errors total || leb t.max_consecutive_errors consecutive,
        (total, consecutive),
      ),
    )

-- What happened to one object.
pub data Event : Type 0 where
  created : Event
  lost : PrepareFailure → Event

-- A tracker after the events, the latest first.
pub after : List Event → PrepareErrorTracker → PrepareErrorTracker
after [] t = t
after (created ∷ past) t = record_success (after past t)
after (lost failure ∷ past) t = (record_error failure (after past t)).0

-- The failures among the events, the oldest first.
abbrev pub failures : List Event → List PrepareFailure
failures [] = []
failures (created ∷ past) = failures past
failures (lost failure ∷ past) = failures past ++ failure ∷ []

-- The number of failures since the last created object.
abbrev pub streak : List Event → ℕ
streak [] = 0
streak (created ∷ past) = 0
streak (lost failure ∷ past) = streak past + 1

length-snoc {ℓ} : {A : Type ℓ} (xs : List A) (x : A) → length (xs ++ x ∷ []) ≡ length xs + 1
length-snoc xs x = omega (arith, length-append xs (x ∷ []))

failures_le : (past : List Event) → length (failures past) ≤ length past
failures_le [] = omega arith
failures_le (created ∷ past) = omega (arith, failures_le past)
failures_le (lost failure ∷ past) =
    omega (arith, failures_le past, length-snoc (failures past) failure)

streak_le : (past : List Event) → streak past ≤ length past
streak_le [] = omega arith
streak_le (created ∷ past) = omega arith
streak_le (lost failure ∷ past) = omega (arith, streak_le past)

small : (n : ℕ) → n < u64 → n % u64 ≡ n
small n h = omega arith

module _ (max_total max_consecutive : ℕ) where
  -- What the tracker holds after the events.
  abbrev pub history : List Event → PrepareErrorTracker
  history past = record {
    total_errors = length (failures past);
    consecutive_errors = streak past;
    max_total_errors = max_total;
    max_consecutive_errors = max_consecutive;
    failed_objects = failures past;
  }

  -- In fewer than 2^64 events from a new tracker, the tracker holds the number of failures, the
  -- failures themselves in the order they came, and the number of failures since the last created
  -- object.
  pub after-history :
      (past : List Event)
      → length past < u64
      → after past (with_thresholds max_total max_consecutive) ≡ history past
  unfolding after with_thresholds record_error
  after-history [] h = refl
  after-history (created ∷ past) h =
      rw (after-history past (omega arith)) (unfold record_success in refl)
  after-history (lost failure ∷ past) h =
      rw
        (
          after-history past (omega arith),
          length-snoc (failures past) failure,
          small (length (failures past) + 1) (omega (arith, failures_le past)),
          small (streak past + 1) (omega (arith, streak_le past)),
        )
        refl

  -- In fewer than 2^64 - 1 events from a new tracker, one more failure is reported with the number
  -- of failures and of those since the last created object, itself among them, and aborts exactly
  -- when the first has reached the total allowed or the second the consecutive allowed.
  pub record_error-abort :
      (past : List Event) (failure : PrepareFailure)
      → length past + 1 < u64
      → let total = length (failures past) + 1 in
        let consecutive = streak past + 1 in
        (record_error failure (after past (with_thresholds max_total max_consecutive))).1
        ≡ (leb max_total total || leb max_consecutive consecutive, (total, consecutive))
  unfolding record_error
  record_error-abort past failure h =
      rw
        (
          after-history past (omega arith),
          small (length (failures past) + 1) (omega (arith, failures_le past)),
          small (streak past + 1) (omega (arith, streak_le past)),
        )
        refl
