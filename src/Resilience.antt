-- ===== src/Resilience.antt =====
-- keetanetwork-anchor-client/src/resilience: backoff, rate limiting, retries and lease budgets.
pub mod Backoff
pub mod RateLimit
pub mod Retry
pub mod Transport
mod Tests
