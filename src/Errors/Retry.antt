-- ===== src/Errors/Retry.antt =====
-- `retry_with_backoff` of src/workload.rs. An operation that may fail is the function from the
-- number of its call, from 1 on, to the outcome of that call.
use sai3_bench.Prelude.{
  ℕ, zero, suc, ◌+◌, ◌%◌, ◌<◌, ◌≤◌, String, ◌≡◌, refl, ap, subst, Option, none, some, u32, arith,
}

-- The outcome of one call.
pub data Attempt {ℓ} (T : Type ℓ) : Type ℓ where
  succeeded : T → Attempt T
  errored : String → Attempt T

-- A failure keeps the last error: `none` is the source's "Unknown error in retry".
pub data RetryResult {ℓ} (T : Type ℓ) : Type ℓ where
  success : T → RetryResult T
  failed : Option String → RetryResult T

module _ {ℓ} {T : Type ℓ} (op_fn : ℕ → Attempt T) where
  -- The calls from number `attempt` on, at most `left` of them; the result, and how many calls
  -- were made.
  pub retry_from : ℕ → ℕ → Option String → RetryResult T × ℕ
  retry_from attempt zero last_error = (failed last_error, 0)
  retry_from attempt (suc left) last_error = elim (op_fn attempt) [
    | succeeded result ↦ (success result, 1)
    | errored e ↦ let rest = retry_from (attempt + 1) left (some e) in (rest.0, suc rest.1)
  ]

  -- The number of attempts is computed on 32 bits.
  pub retry_with_backoff : ℕ → RetryResult T × ℕ
  retry_with_backoff max_retries = retry_from 1 ((max_retries + 1) % u32) none

  -- The calls from `attempt` on, `n` of them, all fail.
  abbrev pub AllFail : ℕ → ℕ → Type ℓ
  AllFail attempt zero = Unit
  AllFail attempt (suc n) = (e : String) × (op_fn attempt ≡ errored e) × AllFail (attempt + 1) n

  pub at_zero : (attempt : ℕ) (r : Attempt T) → op_fn (attempt + 0) ≡ r → op_fn attempt ≡ r
  at_zero attempt r h = subst (λ k. op_fn k ≡ r) {x = attempt + 0} {y = attempt} (omega arith) h

  pub at_suc :
      (attempt n : ℕ) (r : Attempt T) → op_fn (attempt + suc n) ≡ r → op_fn (attempt + 1 + n) ≡ r
  at_suc attempt n r h =
      subst (λ k. op_fn k ≡ r) {x = attempt + suc n} {y = attempt + 1 + n} (omega arith) h

  -- The first success after `n` failures is the result.
  retry_from-success :
      (attempt left n : ℕ) (last : Option String) (result : T)
      → n < left
      → AllFail attempt n
      → op_fn (attempt + n) ≡ succeeded result
      → retry_from attempt left last ≡ (success result, suc n)
  unfolding retry_from
  retry_from-success attempt zero n last result h fails ok = absurd (omega arith)
  retry_from-success attempt (suc left) zero last result h fails ok =
      rw (at_zero attempt (succeeded result) ok, retry_from) refl
  retry_from-success attempt (suc left) (suc n) last result h (e, eq, fails) ok =
      let ih =
        retry_from-success (attempt + 1) left n (some e) result (omega arith) fails
          (at_suc attempt n (succeeded result) ok) in
      rw (eq, retry_from) (ap (λ (r : RetryResult T × ℕ). (r.0, suc r.1)) ih)

  retry_from-failed :
      (attempt n : ℕ) (last : Option String) (e : String)
      → AllFail attempt n
      → op_fn (attempt + n) ≡ errored e
      → retry_from attempt (suc n) last ≡ (failed (some e), suc n)
  unfolding retry_from
  retry_from-failed attempt zero last e fails bad =
      rw (at_zero attempt (errored e) bad, retry_from) refl
  retry_from-failed attempt (suc n) last e (e', eq, fails) bad =
      let ih =
        retry_from-failed (attempt + 1) n (some e') e fails (at_suc attempt n (errored e) bad) in
      rw (eq, retry_from) (ap (λ (r : RetryResult T × ℕ). (r.0, suc r.1)) ih)

  -- When the calls 1 to `n` fail and call `n + 1` succeeds, and at most `max_retries` of them
  -- failed, the result of call `n + 1` is the result and no further call is made.
  pub retry-success :
      (max_retries n : ℕ) (result : T)
      → max_retries + 1 < u32
      → n ≤ max_retries
      → AllFail 1 n
      → op_fn (1 + n) ≡ succeeded result
      → retry_with_backoff max_retries ≡ (success result, suc n)
  unfolding retry_with_backoff
  retry-success max_retries n result small h fails ok =
      retry_from-success 1 ((max_retries + 1) % u32) n none result (omega arith) fails ok

  -- When the first `max_retries + 1` calls fail, exactly that many are made and the error of the
  -- last one is the error of the whole.
  pub retry-failed :
      (max_retries : ℕ) (e : String)
      → max_retries + 1 < u32
      → AllFail 1 max_retries
      → op_fn (1 + max_retries) ≡ errored e
      → retry_with_backoff max_retries ≡ (failed (some e), suc max_retries)
  unfolding retry_with_backoff
  retry-failed max_retries e small fails bad =
      let all : (max_retries + 1) % u32 ≡ suc max_retries = omega arith in
      rw all (retry_from-failed 1 max_retries none e fails bad)
