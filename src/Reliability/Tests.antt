-- ===== src/Reliability/Tests.antt =====
-- Runs of the retry loop, and its theorems at an operation that succeeds on its third attempt.
use mcpway.Base.{ℕ, ◌+◌, ◌≤◌, ◌≡◌, refl, arith, ltb, if◌then◌else◌, length}
use mcpway.Reliability.{
  RetryPolicy, CircuitBreakerPolicy, Outcome, ok, err, backoff_delay, new_breaker, run_with_retry,
}
use mcpway.Reliability.Retry.{IsErr, EndsIn, run_with_retry-calls}
use mcpway.Reliability.Spacing.{Spaced, run_with_retry-Spaced}

abbrev policy : RetryPolicy
policy = record { max_retries = 5; base_delay = 100; max_delay = 350 }

abbrev breaker_policy : CircuitBreakerPolicy
breaker_policy = record { failure_threshold = 2; cooldown = 500 }

-- Each call lasts ten nanoseconds.
abbrev third_time : ℕ → ℕ → Outcome ℕ × ℕ
third_time attempt now = (if ltb attempt 2 then err "refused" else ok attempt, now + 10)

-- The test `backoff_delay_caps_at_max` of the source.
caps_at_max :
    (backoff_delay policy 0 ≡ 100) × (backoff_delay policy 1 ≡ 200) × (backoff_delay policy 2 ≡ 350)
unfolding backoff_delay
caps_at_max = (refl, refl, refl)

third_time_run :
    (run_with_retry "t" third_time ◌+◌ policy (new_breaker breaker_policy) 0).result ≡ ok 2
unfolding run_with_retry new_breaker backoff_delay
third_time_run = refl

run_with_retry-calls_example :
    let r = run_with_retry "t" third_time ◌+◌ policy (new_breaker breaker_policy) 0 in
    EndsIn 0 r.calls r.result × (length r.calls ≤ 6) × (IsErr r.result → length r.calls ≡ 6)
run_with_retry-calls_example =
    run_with_retry-calls "t" third_time ◌+◌ policy (new_breaker breaker_policy) 0

run_with_retry-Spaced_example :
    Spaced policy breaker_policy
      (run_with_retry "t" third_time ◌+◌ policy (new_breaker breaker_policy) 0).calls
run_with_retry-Spaced_example =
    run_with_retry-Spaced "t" third_time ◌+◌ policy breaker_policy 0 (omega arith) (omega arith)
      (λ t d. omega arith)
