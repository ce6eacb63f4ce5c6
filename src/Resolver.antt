-- ===== src/Resolver.antt =====
-- keetanetwork-anchor-client/src/resolver: which provider entries a lookup returns.
pub mod Entries
pub mod Lookup
mod Tests
