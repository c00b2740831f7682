-- ===== src/Reliability.antt =====
-- rust/src/transport/reliability.rs: retry with back-off, and the circuit breaker. A `Duration`
-- and an `Instant` are numbers of nanoseconds; the time passes through each call.
pub mod Backoff
pub mod Retry
pub mod Spacing
mod Tests
use mcpway.Base.Text.{◌++◌}
use mcpway.Base.{
  ℕ, zero, suc, ◌+◌, ◌-◌, ◌*◌, ◌^◌, min, String, Bool, Option, none, some, List, [], ◌∷◌, ltb, leb,
  eqb, if◌then◌else◌, unwrap_or, ◌||◌,
}

-- `Duration::MAX`: 2^64 - 1 seconds and 999_999_999 nanoseconds.
abbrev pub max_duration : ℕ
max_duration = 18446744073709551615999999999

abbrev pub max_u32 : ℕ
max_u32 = 4294967295

pub record RetryPolicy : Type 0 where
  pub max_retries : ℕ
  pub base_delay : ℕ
  pub max_delay : ℕ

-- `Duration::checked_mul`
checked_mul : ℕ → ℕ → Option ℕ
checked_mul d n = if leb (d * n) max_duration then some (d * n) else none

unfoldable pub backoff_delay : RetryPolicy → ℕ → ℕ
unfolding checked_mul
backoff_delay p retry_index =
    if eqb p.base_delay 0
    then 0
    else min (unwrap_or (checked_mul p.base_delay (2 ^ min retry_index 16)) p.max_delay) p.max_delay

pub record CircuitBreakerPolicy : Type 0 where
  pub failure_threshold : ℕ
  pub cooldown : ℕ

pub record CircuitBreaker : Type 0 where
  pub policy : CircuitBreakerPolicy
  pub consecutive_failures : ℕ
  pub open_until : Option ℕ

unfoldable pub new_breaker : CircuitBreakerPolicy → CircuitBreaker
new_breaker policy = record { policy = policy; consecutive_failures = 0; open_until = none }

abbrev pub closed : CircuitBreaker → CircuitBreaker
closed b = record b { consecutive_failures = 0; open_until = none }

-- The breaker and the time after the wait; `wake now d` is when a sleep of `d` begun at `now` ends.
unfoldable pub wait_if_open : (ℕ → ℕ → ℕ) → CircuitBreaker → ℕ → CircuitBreaker × ℕ
wait_if_open wake b now = elim b.open_until [
  | none ↦ (b, now)
  | some until ↦ (closed b, if ltb now until then wake now (until - now) else now)
]

unfoldable pub record_success : CircuitBreaker → CircuitBreaker
record_success b = closed b

-- `saturating_add(1)` of a `u32`
abbrev saturating_suc : ℕ → ℕ
saturating_suc n = min (n + 1) max_u32

unfoldable pub record_failure : CircuitBreaker → ℕ → CircuitBreaker × Option ℕ
record_failure b now =
    let failures = saturating_suc b.consecutive_failures in
    if eqb b.policy.failure_threshold 0 || ltb failures b.policy.failure_threshold
    then (record b { consecutive_failures = failures }, none)
    else (
      record b { consecutive_failures = 0; open_until = some (now + b.policy.cooldown) },
      some b.policy.cooldown,
    )

pub data Outcome {ℓ} (T : Type ℓ) : Type ℓ where
  ok : T → Outcome T
  err : String → Outcome T

-- One call of the operation: its number, when it began, when it returned and what.
pub record Call {ℓ} (T : Type ℓ) : Type ℓ where
  pub attempt : ℕ
  pub began : ℕ
  pub ended : ℕ
  pub outcome : Outcome T

-- How the whole loop ended, with the calls that it made.
pub record Run {ℓ} (T : Type ℓ) : Type ℓ where
  pub result : Outcome T
  pub breaker : CircuitBreaker
  pub now : ℕ
  pub calls : List (Call T)

-- What the loop is given: its label, the operation, by the number of the attempt and the time at which it is
-- called, with the time at which it returns; and when a sleep ends.
module _ {ℓ} {T : Type ℓ} (label : String) (operation : ℕ → ℕ → Outcome T × ℕ)
    (wake : ℕ → ℕ → ℕ) where
  -- The rounds of `for attempt in 0..=max_retries` that are left.
  unfoldable pub run_from : RetryPolicy → ℕ → ℕ → CircuitBreaker → ℕ → Run T
  unfolding wait_if_open record_success record_failure
  run_from p zero attempt b now = record {
    result = err (label ++ ": retry loop exhausted unexpectedly without result");
    breaker = b;
    now = now;
    calls = [];
  }
  run_from p (suc left) attempt b now =
      let (ready, began) = wait_if_open wake b now in
      let (outcome, ended) = operation attempt began in
      let call : Call T = record {
        attempt = attempt;
        began = began;
        ended = ended;
        outcome = outcome;
      } in
      elim outcome [
        | ok value ↦ record {
          result = ok value;
          breaker = record_success ready;
          now = ended;
          calls = call ∷ [];
        }
        | err e ↦
            let failed = (record_failure ready ended).0 in
            if leb p.max_retries attempt
            then record { result = err e; breaker = failed; now = ended; calls = call ∷ [] }
            else (let rest =
                  run_from p left (suc attempt) failed (wake ended (backoff_delay p attempt)) in
                record rest { calls = call ∷ rest.calls })
      ]

  unfoldable pub run_with_retry : RetryPolicy → CircuitBreaker → ℕ → Run T
  unfolding run_from
  run_with_retry p b now = run_from p (suc p.max_retries) 0 b now
