-- ===== src/Http.antt =====
-- keetanetwork-anchor-client/src/transport and src/error.rs: the response of an anchor, its
-- `Retry-After` hint, and the failures of a transport.
pub mod RetryAfter
pub mod Response
pub mod Errors
mod Tests
