-- ===== src/Gossip.antt =====
-- Gossip inside the tunnel, crates/core/src/gossip.rs: signed entries, their wire format, and the
-- soft-state table in which the last writer wins; and the service around them,
-- crates/engine/src/gossip.rs.
pub mod Entry
pub mod Codec
pub mod Store
pub mod Service
