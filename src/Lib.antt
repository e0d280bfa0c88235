-- ===== src/Lib.antt =====
-- Hextet, a peer-to-peer IPv6 mesh VPN over WireGuard: the core logic of its Rust crates.
--
-- Parts and files. A byte is a number below 256, a byte string a list of bytes, a machine integer
-- a native number whose range is a field of the type's `Is...` predicate.
--   Base          shared vocabulary: Boolean tests, lists, outcomes (`ok`, `err`, `panic`), maps as
--                 association lists, byte strings with slices and big-endian integers, UTF-8.
--   Crypto        HMAC-SHA256 and ed25519 as interfaces with their documented laws, and toy
--                 instances that meet them.
--   Addr          crates/core/src/addr.rs and network.rs: endpoint filter, address derivation.
--   Endpoint      `SocketAddrV6` and `normalize` of crates/engine/src/candidates.rs.
--   Wire          crates/core/src/probe.rs (Wire/Probe), relay.rs (Wire/Relay), beacon.rs
--                 (Wire/Beacon): the binary formats. `encode` and `decode` are the functions of
--                 those names; the part of a decoder behind the MAC check is `decode_fields`.
--   Gossip        crates/core/src/gossip.rs: entries (Gossip/Entry), their signatures and encoding
--                 (Gossip/Codec), the table `GossipStore` (Gossip/Store: `merge`, `lww_compare`);
--                 and crates/engine/src/gossip.rs (Gossip/Service: `handle_datagram`, `Broadcast`,
--                 `serve`); a network of such services, with any loss, repetition and order of
--                 datagrams, is a step relation (Gossip/Service/Network).
--   Peer          crates/engine/src/fsm.rs (Peer/Fsm: `PeerFsm` with `tick`, `kick`,
--                 `set_candidates`, `retry_from`), candidates.rs (Peer/Candidates:
--                 `build_candidates`), cache.rs (Peer/Cache: `record_good`, `evict`).
--   RelayServer   crates/engine/src/relay_server.rs: the session table, `PacketLimiter`, and the
--                 loops `serve` (RelayServer/Control) and `forward` (RelayServer/Forward), each
--                 as one step on explicit state.
--   Routes        crates/core/src/route.rs, and crates/engine/src/route_manager.rs
--                 (Routes/Manager: `sync`, `remove_peer`).
--   Lan           crates/engine/src/lan.rs: `LanTable` (`record` is `record_beacon`),
--                 `handle_datagram`, `announce`, `serve`.
--   ProbeResponder  crates/engine/src/probe_responder.rs: `RateLimiter`, and `serve`.
--   RelayClient   crates/engine/src/relay_client.rs: `register`, `register_with_timeout` and
--                 `unregister`; what each round of the loop receives is an argument.
--   Texts         the standard library's functions on texts and the base64 codec as interfaces
--                 (`Std`, `Codecs`), the text forms of crates/core/src/identity.rs and network.rs
--                 (Texts/Keys), and the key file, `save` and `load` (Texts/KeyFiles).
--   Config        crates/core/src/config.rs and defaults.rs: the deserialized file and the
--                 configuration, their parsers (Config/Parsing, with `Ipv6Route::from_str` of
--                 route.rs), and `load` with its checks (Config/Loading).
--   Invite        crates/core/src/invite.rs: `new`, `encode`, `decode`, `check_not_expired`.
--   Daemon        crates/engine/src/daemon.rs, the handlers of one peer: `drive_relay` and
--                 `on_relay_registered` (`relay_registered`), and `on_discovered`
--                 (Daemon/Discovery: `discover`). The tasks that they spawn are results, and
--                 their interleavings a step relation (Daemon/Registering).
--   Tests         concrete inputs for the theorems' hypotheses.
-- The relay server decodes the frames of Wire/Relay; the beacon, the gossip entry and the
-- candidates share the endpoint filter of Addr and Endpoint; the state machine runs on the list
-- that Peer/Candidates builds from the cache and the other sources. Gossip/Service runs the store
-- of Gossip/Store on datagrams, Lan the beacons of Wire/Beacon, ProbeResponder the packets of
-- Wire/Probe; RelayClient is run against the server of RelayServer in RelayClient/Pairing. The
-- loader builds on Addr (addresses, subnets), Routes (overlaps) and Texts (keys). Daemon drives
-- the machine of Peer/Fsm on the candidates of Peer/Candidates and the sessions of RelayClient.
--
-- State is passed explicitly. A method that changes its object returns the new one; a loop of the
-- daemon is a function from a state and a wake-up to the next state and its effects. A Rust panic
-- (an index or a slice out of bounds) is the outcome `panic`, or `none` in Peer/Fsm and Routes.
-- Hash maps are association lists with one entry to a key, and no theorem depends on their
-- order. All loops are structural recursions on lists, so there is no fuel. Times are numbers of
-- nanoseconds in Peer/Fsm, RelayServer/Limiter, ProbeResponder, RelayClient and Daemon, and
-- seconds elsewhere.
--
-- Not modelled: sockets, netlink and the WireGuard interface themselves; files other than a node's
-- key file, which lies in an explicit table; TOML, JSON and base64, which are parameters with their
-- documented laws, and the printers of configuration templates; the log lines; joining a network
-- and the members file; DHT records, DDNS, the HTTP status and the diagnosis; the daemon's
-- start-up, its select loop and its calls of WireGuard.
pub mod Base
pub mod Crypto
pub mod Addr
pub mod Endpoint
pub mod Wire
pub mod Gossip
pub mod Peer
pub mod RelayServer
pub mod Routes
pub mod Lan
pub mod ProbeResponder
pub mod RelayClient
pub mod Texts
pub mod Config
pub mod Invite
pub mod Daemon
pub mod Tests
