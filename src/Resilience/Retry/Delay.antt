-- ===== src/Resilience/Retry/Delay.antt =====
-- One sleep of the retry loop: keetanetwork-anchor-client/src/resilience/retry.rs.
use anchor_rs.Prelude.{ℕ, ◌≤◌, min, ◌<◌, ◌≡◌, ◌≢◌, ◌↔◌, ◌⊎◌, Option, none, some, arith}
use anchor_rs.Resilience.Backoff.{delay}
use anchor_rs.Resilience.Retry.{RetryPolicy, sleep, stop, next_delay}

-- A sleep never exceeds the remaining budget, and a `Retry-After` hint is honoured as far as the
-- budget goes.
pub next_delay_bounds :
    (p : RetryPolicy) (attempt : ℕ) (hint : Option ℕ) (remaining_ms seed : ℕ) {ms : ℕ}
    → (next_delay p attempt hint remaining_ms seed).0 ≡ sleep ms
    → (ms ≤ remaining_ms) × ((h : ℕ) → hint ≡ some h → min h remaining_ms ≤ ms)
unfolding next_delay
next_delay_bounds p attempt hint remaining_ms seed h = (ground arith, λ hinted e. ground arith)

-- `next_delay` stops exactly when no budget is left or the backoff has no delay for the attempt.
pub next_delay-eq-stop_iff :
    (p : RetryPolicy) (attempt : ℕ) (hint : Option ℕ) (remaining_ms seed : ℕ)
    → ((next_delay p attempt hint remaining_ms seed).0 ≡ stop)
      ↔ ((remaining_ms ≡ 0) ⊎ (delay p.backoff attempt ≡ none))
unfolding next_delay
next_delay-eq-stop_iff p attempt hint remaining_ms seed = ground arith

-- A sleep needs a budget and an attempt that the schedule allows.
pub sleep_needs :
    (p : RetryPolicy) (attempt : ℕ) (hint : Option ℕ) (remaining_ms seed : ℕ) {ms : ℕ}
    → (next_delay p attempt hint remaining_ms seed).0 ≡ sleep ms
    → (0 < remaining_ms) × (delay p.backoff attempt ≢ none)
unfolding next_delay
sleep_needs p attempt hint remaining_ms seed h = (ground arith, λ e. ground arith)
