-- ===== src/Lib.antt =====
-- anchor-rs: a verification library beside the Rust crates of the anchor network.
--
-- The program has two crates of its own logic. keetanetwork-anchor signs and verifies: a JSON value is
-- written as canonical JSON, framed with the signer, a nonce and a timestamp as a DER sequence, signed,
-- and sent in an envelope, in the query of a URL or beside a body; a gate decides whether an account's
-- certificates chain to a trusted issuer. A payload can be sealed to several accounts in an encrypted
-- container, and a sensitive attribute is encrypted to one account that can prove its value later.
--
-- keetanetwork-anchor-client finds and calls providers: a resolver merges the service metadata of
-- several roots and verifies the signature of each entry, a search selects providers by asset, location
-- and rails, and calls go through a transport that limits their rate and retries them, whose responses
-- are decoded into outcomes and typed blockers.
--
-- Which file models what:
--   Signing/Canonical      keetanetwork-anchor/src/signing/canonical.rs: `canonicalize_into`, `expand`
--                          and the writers; Reference is a recursive printer of the same text
--   Signing/Payload        signing/signable.rs and format.rs: `object_to_signable`, `format_data`
--   Signing/Envelope       signing/mod.rs: `sign_with` (Sign) and `verify_envelope` (Verify)
--   Signing/Request        signing/request.rs: signed URLs and bodies
--   Trust                  keetanetwork-anchor/src/trust: `evaluate_certificate_chain`
--   Container              keetanetwork-anchor/src/encrypted_container: codec.rs (Codec, Opening),
--                          `merge_principals` (Merge) and `EncryptedContainer` (State: fields and
--                          decoding; Access: plaintext, encoding, access list, signature; Lifecycle:
--                          runs of its methods)
--   Sensitive              keetanetwork-anchor/src/sensitive_attributes: the builder, decryption, proofs
--   Http                   keetanetwork-anchor-client/src/transport: responses and `Retry-After`
--   Resilience/Backoff     resilience/backoff.rs and lease.rs: the schedule and its jitter
--   Resilience/RateLimit   resilience/rate_limit.rs: the token bucket
--   Resilience/Retry       resilience/retry.rs: `RetryPolicy::run` and what it calls
--   Resilience/Transport   resilience/transport.rs: pacing, then retrying
--   Service/Envelope       service/envelope.rs: `classify` and `pending_delay`
--   Service/Caller         service/caller.rs and endpoint.rs: one operation's call
--   Asset                  services/asset_movement: blockers (error.rs), locations (location.rs),
--                          canonical assets (asset.rs), operations and search (metadata.rs)
--   Resolver               resolver/mod.rs and metadata.rs: `lookup` and `entry_signature_ok`
--   Json, Prelude          `serde_json::Value` and the helpers that all share
--
-- A record is a struct, a data type an enum, and an operation that changes state returns the new
-- state and its result: what a method changed before it failed stays changed. The retry loop acts on a
-- world that the clock, the sleeps and the operation are given. A text is the list of its code points.
-- Machine integers keep their bounds: saturating and checked operations are written out, and a panic is
-- a value.
--
-- Three loops take fuel. The canonical writer gets five steps for each node of the value, which is
-- shown to be enough. The retry loop has enough with one round more than its retry ceiling, and the
-- pacing loop with two rounds where a token can come.
--
-- Not under the repository's own control, and so arguments: DER encoding, base64, the clock's text
-- form, account cryptography, AES in its two modes, zlib, SHA3, certificates and their chains, URLs,
-- JSON decoders and the JSON writer, Unicode lower-casing and Keccak-256. Random draws are arguments.
--
-- Not modelled: certificates, sharable attributes and the KYC schema; generated ASN.1 types but those
-- of containers and attributes; the network clients, the reading of metadata from the ledger, the
-- expansion of external URLs in it, and the interleaving of several callers of one limiter;
-- bindings and WASI glue.

pub mod Prelude
pub mod Http
pub mod Resilience
pub mod Json
pub mod Signing
pub mod Trust
pub mod Asset
pub mod Container
pub mod Sensitive
pub mod Service
pub mod Resolver
