-- ===== src/Reliability/Spacing.antt =====
-- How long `run_with_retry` waits between its calls.
use native.Mathlib.Nat.{mod-lt, mod-eq_of_lt}
use mcpway.Base.{
  ℕ, zero, suc, ◌+◌, ◌-◌, ◌%◌, ◌≤◌, ◌<◌, ◌≡◌, refl, ◌⊎◌, inl, inr, none, some, String, List, [],
  ◌∷◌, arith, Option-cases,
}
use mcpway.Reliability.{
  RetryPolicy, CircuitBreaker, CircuitBreakerPolicy, Outcome, Call, run_from, run_with_retry,
  wait_if_open, record_failure, backoff_delay, max_u32, new_breaker,
}

-- Between two calls at least the back-off delay of the first passes, and the cooldown too if the
-- first is the last of a round of `failure_threshold` failures.
abbrev pub Spaced : {T : Type 0} → RetryPolicy → CircuitBreakerPolicy → List (Call T) → Type 0
Spaced p policy [] = Unit
Spaced p policy (c ∷ []) = Unit
Spaced p policy (c ∷ d ∷ more) =
    (c.ended + backoff_delay p c.attempt ≤ d.began)
    × (suc c.attempt % policy.failure_threshold ≡ 0 → c.ended + policy.cooldown ≤ d.began)
    × Spaced p policy (d ∷ more)

-- The breaker before attempt `n`, when every attempt so far failed.
record Counts (policy : CircuitBreakerPolicy) (n : ℕ) (b : CircuitBreaker) : Type 0 where
  same : b.policy ≡ policy
  counted : b.consecutive_failures ≡ n % policy.failure_threshold
  open_at : (b.open_until ≡ none) ⊎ (n % policy.failure_threshold ≡ 0)

mod_suc :
    (n t : ℕ)
    → 0 < t
    → ((suc (n % t) < t) × (suc n % t ≡ suc (n % t))) ⊎ ((suc (n % t) ≡ t) × (suc n % t ≡ 0))
mod_suc n t h = grind (arith, mod-lt)

module _ (wake : ℕ → ℕ → ℕ) (policy : CircuitBreakerPolicy) where
  wait_if_open-Counts :
      (n now : ℕ) (b : CircuitBreaker)
      → Counts policy n b
      → ((wait_if_open wake b now).0.policy ≡ policy)
        × ((wait_if_open wake b now).0.consecutive_failures ≡ n % policy.failure_threshold)
        × ((wait_if_open wake b now).0.open_until ≡ none)
  unfolding wait_if_open
  wait_if_open-Counts n now b c = ground arith

  -- The wait ends no earlier than it began, nor than the circuit is open.
  wait_if_open-late :
      ((t d : ℕ) → t + d ≤ wake t d)
      → (now : ℕ) (b : CircuitBreaker)
      → (now ≤ (wait_if_open wake b now).1)
        × ((u : ℕ) → b.open_until ≡ some u → u ≤ (wait_if_open wake b now).1)
  unfolding wait_if_open
  wait_if_open-late sleeps now b = elim (Option-cases b.open_until) [
    | inl e ↦ ground arith
    | inr (u, e) ↦
        (ground (arith, sleeps now (u - now)), λ v h. ground (arith, sleeps now (u - now)))
  ]

  record_failure-Counts :
      (n now : ℕ) (b : CircuitBreaker)
      → 0 < policy.failure_threshold
      → policy.failure_threshold ≤ max_u32
      → b.policy ≡ policy
      → b.consecutive_failures ≡ n % policy.failure_threshold
      → b.open_until ≡ none
      → Counts policy (suc n) (record_failure b now).0
        × (suc n % policy.failure_threshold ≡ 0
            → (record_failure b now).0.open_until ≡ some (now + policy.cooldown))
  unfolding record_failure
  record_failure-Counts n now b pos fits same counted open_at =
      ground (arith, mod_suc n policy.failure_threshold, mod-lt n pos)

-- The first call begins at `t` or later.
abbrev Begins : {T : Type 0} → ℕ → List (Call T) → Type 0
Begins t [] = Unit
Begins t (c ∷ cs) = t ≤ c.began

Begins-mono : {T : Type 0} {s t : ℕ} (cs : List (Call T)) → s ≤ t → Begins t cs → Begins s cs
Begins-mono [] h b = tt
Begins-mono (c ∷ cs) h b = omega arith

Spaced-cons :
    {T : Type 0} (p : RetryPolicy) (policy : CircuitBreakerPolicy) (c : Call T) (cs : List (Call T))
    → Begins (c.ended + backoff_delay p c.attempt) cs
    → (suc c.attempt % policy.failure_threshold ≡ 0 → Begins (c.ended + policy.cooldown) cs)
    → Spaced p policy cs
    → Spaced p policy (c ∷ cs)
Spaced-cons p policy c [] b k s = tt
Spaced-cons p policy c (d ∷ cs) b k s = (b, k, s)

module _ {T : Type 0} (label : String) (operation : ℕ → ℕ → Outcome T × ℕ) (wake : ℕ → ℕ → ℕ) where
  run_from-Begins :
      (p : RetryPolicy) (left attempt : ℕ) (b : CircuitBreaker) (now : ℕ)
      → Begins
          (wait_if_open wake b now).1
          (run_from label operation wake p left attempt b now).calls
  unfolding run_from
  run_from-Begins p zero attempt b now = tt
  run_from-Begins p (suc left) attempt b now = ground arith

  run_from-Spaced :
      (p : RetryPolicy) (policy : CircuitBreakerPolicy)
      → 0 < policy.failure_threshold
      → policy.failure_threshold ≤ max_u32
      → ((t d : ℕ) → t + d ≤ wake t d)
      → (left attempt : ℕ) (b : CircuitBreaker) (now : ℕ) → Counts policy attempt b
      → Spaced p policy (run_from label operation wake p left attempt b now).calls
  unfolding run_from
  run_from-Spaced p policy pos fits sleeps zero attempt b now c = tt
  run_from-Spaced p policy pos fits sleeps (suc left) attempt b now c =
      let ready = (wait_if_open wake b now).0 in
      let began = (wait_if_open wake b now).1 in
      let outcome = (operation attempt began).0 in
      let ended = (operation attempt began).1 in
      let failed = (record_failure ready ended).0 in
      let later = wake ended (backoff_delay p attempt) in
      let rest = run_from label operation wake p left (suc attempt) failed later in
      let waited = wait_if_open-Counts wake policy attempt now b c in
      let (counts, opened) =
        record_failure-Counts wake policy attempt ended ready pos fits waited.0 waited.1 waited.2 in
      let (late, shut) = wait_if_open-late wake policy sleeps later failed in
      let starts = run_from-Begins p left (suc attempt) failed later in
      let tail = run_from-Spaced p policy pos fits sleeps left (suc attempt) failed later counts in
      let whole =
        Spaced-cons p policy
          (record { attempt = attempt; began = began; ended = ended; outcome = outcome }) rest.calls
          (Begins-mono rest.calls (omega (arith, sleeps ended (backoff_delay p attempt), late))
            starts)
          (λ z. Begins-mono rest.calls (shut (ended + policy.cooldown) (opened z)) starts) tail in
      ground (arith, whole)

  -- When sleeps last at least as long as asked, the loop never calls the operation before the
  -- back-off delay of the failed attempt is over, nor within the cooldown that follows each
  -- `failure_threshold`-th failure; the breaker is new and its threshold a positive `u32`.
  pub run_with_retry-Spaced :
      (p : RetryPolicy) (policy : CircuitBreakerPolicy) (now : ℕ)
      → 0 < policy.failure_threshold
      → policy.failure_threshold ≤ max_u32
      → ((t d : ℕ) → t + d ≤ wake t d)
      → Spaced p policy (run_with_retry label operation wake p (new_breaker policy) now).calls
  unfolding run_with_retry new_breaker
  run_with_retry-Spaced p policy now pos fits sleeps =
      run_from-Spaced p policy pos fits sleeps (suc p.max_retries) 0 (new_breaker policy) now
        (record { same = refl; counted = grind (arith, mod-eq_of_lt); open_at = inl refl })
