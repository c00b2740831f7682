-- ===== src/Reliability/Backoff.antt =====
-- `RetryPolicy::backoff_delay` against its intended value.
use native.Mathlib.Nat.{pow-le-pow_right, mul-le-mul_left}
use mcpway.Base.{ℕ, ◌*◌, ◌^◌, ◌≤◌, min, ◌≡◌, arith}
use mcpway.Reliability.{RetryPolicy, backoff_delay, max_duration}

-- The delay doubles with each retry, sixteen times at most, and is capped by the policy. The
-- multiplication that could overflow changes nothing, as long as the cap is a `Duration`.
pub backoff_delay-min :
    (p : RetryPolicy) (i : ℕ)
    → p.max_delay ≤ max_duration
    → backoff_delay p i ≡ min (p.base_delay * 2 ^ min i 16) p.max_delay
unfolding backoff_delay
backoff_delay-min p i h = ground arith

pow_mono : (a b : ℕ) → a ≤ b → 2 ^ a ≤ 2 ^ b
pow_mono a b h = pow-le-pow_right (omega arith) h

-- A later retry waits at least as long, and none longer than the cap.
pub backoff_delay_mono :
    (p : RetryPolicy) (i j : ℕ)
    → p.max_delay ≤ max_duration
    → i ≤ j
    → (backoff_delay p i ≤ backoff_delay p j) × (backoff_delay p j ≤ p.max_delay)
backoff_delay_mono p i j h k =
    let powers = pow_mono (min i 16) (min j 16) (omega arith) in
    let products = mul-le-mul_left p.base_delay powers in
    omega (arith, backoff_delay-min p i h, backoff_delay-min p j h, products)
