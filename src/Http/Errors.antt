-- ===== src/Http/Errors.antt =====
-- keetanetwork-anchor-client/src/error.rs (`TransportError`) and src/resilience/error.rs.
use anchor_rs.Prelude.{ℕ, Bool, true, false, ◌||◌, ◌&&◌, Option, none, some, String, ◌==◌, leb, ltb}

-- A boxed source is the value itself.
mutual
  pub data TransportError : Type 0 where
    request invalid_url : (reason : String) → TransportError
    resilience : ResilienceError → TransportError

  pub data ResilienceError : Type 0 where
    rate_limited : (retry_after_ms : ℕ) → ResilienceError
    retry_exhausted : (attempts elapsed_ms : ℕ) → (source : TransportError) → ResilienceError

-- `ResilienceError::retryable`
unfoldable pub retryable : ResilienceError → Bool
retryable (rate_limited _) = true
retryable (retry_exhausted _ _ _) = false

-- `ResilienceError::status`
unfoldable pub status : ResilienceError → ℕ
status (rate_limited _) = 429
status (retry_exhausted _ _ _) = 500

-- `ResilienceError::retry_after_ms`
unfoldable pub retry_after_ms : ResilienceError → Option ℕ
retry_after_ms (rate_limited ms) = some ms
retry_after_ms (retry_exhausted _ _ _) = none

-- `transient`
unfoldable pub transient : TransportError → Bool
transient (request _) = true
transient (invalid_url _) = false
transient (resilience _) = false

-- `retryable_status`
unfoldable pub retryable_status : ℕ → Bool
retryable_status status = status == 408 || status == 429 || (leb 500 status && ltb status 600)
