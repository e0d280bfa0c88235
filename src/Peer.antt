-- ===== src/Peer.antt =====
-- One peer's connection, crates/engine/src: the hole punching state machine (fsm.rs), the
-- candidates it works through (candidates.rs) and the cache of endpoints that worked (cache.rs).
pub mod Fsm
pub mod Candidates
pub mod Cache
