-- ===== src/Asset.antt =====
-- keetanetwork-anchor-client/src/services/asset_movement: its data and its provider search.
pub mod Blocker
pub mod Canonical
pub mod Location
pub mod Operations
pub mod Search
mod Tests
