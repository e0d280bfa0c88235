-- ===== src/RelayServer.antt =====
-- The relay, crates/engine/src/relay_server.rs: the session table, the rate limit, the control
-- loop and the forwarding loop of a session. A loop is a step function on its state; the outside
-- (sockets, channels, the clock) is in the step's input and in the effects that it returns.
pub mod Table
pub mod Limiter
pub mod Control
pub mod Forward
