-- ===== src/Reliability/Retry.antt =====
-- Which calls `run_with_retry` makes, and what it returns.
use mcpway.Base.{ℕ, zero, suc, ◌+◌, ◌≤◌, ◌≡◌, String, List, [], ◌∷◌, length, arith}
use mcpway.Reliability.{
  RetryPolicy, CircuitBreaker, Outcome, ok, err, Call, run_from, run_with_retry, wait_if_open,
  record_failure, backoff_delay,
}

abbrev pub IsErr {ℓ} : {T : Type ℓ} → Outcome T → Type 0
IsErr (ok value) = ⊥
IsErr (err e) = Unit

-- The calls are numbered from `n`, all but the last return an error, and the last returns `r`.
abbrev pub EndsIn : {T : Type 0} → ℕ → List (Call T) → Outcome T → Type 0
EndsIn n [] r = ⊥
EndsIn n (c ∷ []) r = (c.attempt ≡ n) × (c.outcome ≡ r)
EndsIn n (c ∷ d ∷ more) r = (c.attempt ≡ n) × IsErr c.outcome × EndsIn (suc n) (d ∷ more) r

module _ {T : Type 0} (label : String) (operation : ℕ → ℕ → Outcome T × ℕ) (wake : ℕ → ℕ → ℕ) where
  EndsIn-cons :
      (n : ℕ) (c : Call T) (cs : List (Call T)) (r : Outcome T)
      → c.attempt ≡ n
      → IsErr c.outcome
      → EndsIn (suc n) cs r
      → EndsIn n (c ∷ cs) r
  EndsIn-cons n c [] r a e h = absurd h
  EndsIn-cons n c (d ∷ cs) r a e h = (a, e, h)

  run_from-calls :
      (p : RetryPolicy) (left attempt : ℕ) (b : CircuitBreaker) (now : ℕ)
      → attempt + left ≡ p.max_retries
      → let r = run_from label operation wake p (suc left) attempt b now in
        EndsIn attempt r.calls r.result
        × (length r.calls ≤ left + 1)
        × (IsErr r.result → length r.calls ≡ left + 1)
  unfolding run_from
  run_from-calls p zero attempt b now h = ground arith
  run_from-calls p (suc left) attempt b now h =
      let (ready, began) = wait_if_open wake b now in
      let (outcome, ended) = operation attempt began in
      let failed = (record_failure ready ended).0 in
      let later = wake ended (backoff_delay p attempt) in
      ground (
        arith,
        run_from-calls p left (suc attempt) failed later (omega arith),
        EndsIn-cons attempt
            (record { attempt = attempt; began = began; ended = ended; outcome = outcome })
            (run_from label operation wake p (suc left) (suc attempt) failed later).calls
            (run_from label operation wake p (suc left) (suc attempt) failed later).result,
      )

  -- The operation is called at least once and at most `max_retries + 1` times, on attempts 0, 1, ...
  -- in turn. The first success ends the loop and is its result; the loop fails only after all
  -- `max_retries + 1` attempts have failed, with the error of the last, and so never with its
  -- "exhausted unexpectedly" error unless the operation returned that.
  pub run_with_retry-calls :
      (p : RetryPolicy) (b : CircuitBreaker) (now : ℕ)
      → let r = run_with_retry label operation wake p b now in
        EndsIn 0 r.calls r.result
        × (length r.calls ≤ p.max_retries + 1)
        × (IsErr r.result → length r.calls ≡ p.max_retries + 1)
  unfolding run_with_retry
  run_with_retry-calls p b now = run_from-calls p p.max_retries 0 b now (omega arith)
