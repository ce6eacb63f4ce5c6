-- ===== src/Service.antt =====
-- keetanetwork-anchor-client/src/service: decoding a response.
pub mod Envelope
pub mod Caller
mod Tests
