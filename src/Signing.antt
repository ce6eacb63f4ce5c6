-- ===== src/Signing.antt =====
-- keetanetwork-anchor/src/signing: canonical JSON, the DER payload, envelopes and signed requests.
pub mod Canonical
pub mod Payload
pub mod Envelope
pub mod Request
pub mod Toy
mod Tests
