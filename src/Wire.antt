-- ===== src/Wire.antt =====
-- The datagram formats that are authenticated by a truncated HMAC: the doctor's probe, the relay's
-- control frame and the LAN beacon (crates/core/src/probe.rs, relay.rs, beacon.rs).
pub mod Probe
pub mod Relay
pub mod Addresses
pub mod Beacon
