-- ===== src/RelayServer/Control.antt =====
-- `serve`: the control loop. Its state is the table and the senders to the tasks; a sender is
-- named by the port of the task that it leads to. A step's input is what woke the loop, and its
-- effects are what it does to sockets, tasks and channels.
pub mod Invariant
pub mod Authority
use hextet.Base.{
  ℕ, ◌+◌, ◌-◌, Bool, true, false, not, List, [], ◌∷◌, ◌++◌, length, take, ltb, leb, ◌==◌,
  if◌then◌else◌, Option, none, some, ◌=?◌, ℕ_equality, list_equality, pair_equality,
}
use hextet.Base.Assoc.{lookup, insert, remove, remove_all}
use hextet.Base.Bytes.{Bytes}
use hextet.Base.Outcome.{Outcome, ok, err, panic}
use hextet.Crypto.{Hmac, Ed25519}
use hextet.Endpoint.{Endpoint, endpoint, normalize}
use hextet.Wire.Relay.{
  RelayFrame, RelayKind, RelayError, register, register_ack, unregister, SessionKey, session_key,
  encode, decode,
}
use hextet.RelayServer.Table.{
  RelayTable, RelayPolicy, SessionAddrs, allows, has_session, insert_session, touch_addr, addrs_of,
  port_of, prune, max_sessions,
}
use hextet.RelayServer.Forward.{SocketAddr, v4, v6}

abbrev pub seq_skew_tolerance_secs : ℕ
seq_skew_tolerance_secs = 300

abbrev pub control_buf : ℕ
control_buf = 256

pub record Server : Type 0 where
  pub table : RelayTable
  pub senders : List (SessionKey × ℕ)

-- A task with its socket's port, new addresses for a task (its channel may be full), and a reply.
pub data Effect : Type 0 where
  spawned : ℕ → Effect
  told : ℕ → SessionAddrs → Effect
  replied : Bytes → Endpoint → Effect

-- The configuration: the crates' cryptography, the relay key and the policy.
pub record Config : Type 0 where
  pub hmac : Hmac
  pub ed25519 : Ed25519
  pub relay_key : Bytes
  pub policy : RelayPolicy

-- The pruner's tick at a time, or a datagram at a time, with the port that a new socket would
-- get (none if it cannot be bound).
pub data Wake : Type 0 where
  pruning : ℕ → Wake
  received : Bytes → SocketAddr → ℕ → Option ℕ → Wake

abbrev pub abs_diff : ℕ → ℕ → ℕ
abs_diff a b = (a - b) + (b - a)

abbrev pub side_of : RelayFrame → ℕ
side_of frame = if frame.self_key =? (session_key frame).0 then 0 else 1

-- The loop over `table.prune(now)`.
unfoldable pub prune_server : Server → ℕ → Server
unfolding prune remove_all
prune_server server now =
    let pruned = prune now server.table in
    record { table = pruned.0; senders = remove_all pruned.1 server.senders }

-- A new session, with its port; none when there is no room or no socket.
unfoldable pub open_session : Server → SessionKey → ℕ → Option ℕ → Server × Option ℕ
unfolding prune_server insert_session
open_session server key now bind =
    let pruned = prune_server server now in
    if leb max_sessions (length pruned.table) then (pruned, none) else elim bind [
      | none ↦ (pruned, none)
      | some port ↦
          let inserted = insert_session pruned.table key port now in
          if not inserted.1
          then (record { table = inserted.0; senders = pruned.senders }, none)
          else (record { table = inserted.0; senders = insert key port pruned.senders }, some port)
    ]

abbrev pub unwrap_or_zero : Option ℕ → ℕ
unwrap_or_zero none = 0
unwrap_or_zero (some n) = n

abbrev pub ack_of : RelayFrame → ℕ → ℕ → RelayFrame
ack_of frame port now = record {
  kind = register_ack;
  port = port;
  seq = now;
  self_key = frame.self_key;
  peer_key = frame.peer_key;
}

abbrev pub tell : Option ℕ → SessionAddrs → List Effect
tell none addrs = []
tell (some task) addrs = told task addrs ∷ []

-- The end of a `Register`: the address is recorded, the task told, and an ack sent.
unfoldable pub register_side : Config → Server → RelayFrame → Endpoint → ℕ → Server × List Effect
unfolding touch_addr encode
register_side config server frame src now =
    let key = session_key frame in
    let data_addr = normalize (endpoint src.ip frame.port) in
    let table = (touch_addr server.table key (side_of frame) data_addr now).0 in
    let ack =
      encode config.hmac (ack_of frame (unwrap_or_zero (port_of table key)) now) config.relay_key in
    (
      record { table = table; senders = server.senders },
      tell (lookup key server.senders) (addrs_of table key) ++ replied ack src ∷ [],
    )

unfoldable pub handle_register :
    Config → Server → RelayFrame → Endpoint → ℕ → Option ℕ → Server × List Effect
unfolding open_session register_side
handle_register config server frame src now bind =
    if frame.port == 0
    then (server, [])
    else if has_session server.table (session_key frame)
    then register_side config server frame src now
    else let opened = open_session server (session_key frame) now bind in
      let registered = register_side config opened.0 frame src now in
      elim opened.1 [
        | none ↦ (opened.0, [])
        | some port ↦ (registered.0, spawned port ∷ registered.1)
      ]

unfoldable pub handle_unregister : Server → RelayFrame → Server
unfolding remove
handle_unregister server frame =
    let key = session_key frame in
    if has_session server.table key
    then record { table = remove key server.table; senders = remove key server.senders }
    else server

-- `match frame.kind`.
unfoldable pub dispatch :
    Config → Server → RelayFrame → Endpoint → ℕ → Option ℕ → RelayKind → Server × List Effect
unfolding handle_register handle_unregister
dispatch config server frame src now bind register =
    handle_register config server frame src now bind
dispatch config server frame src now bind unregister = (handle_unregister server frame, [])
dispatch config server frame src now bind register_ack = (server, [])

unfoldable pub handle_frame :
    Config → Server → RelayFrame → Endpoint → ℕ → Option ℕ → Server × List Effect
unfolding dispatch allows
handle_frame config server frame src now bind =
    if ltb seq_skew_tolerance_secs (abs_diff frame.seq now)
    then (server, [])
    else if not (allows config.policy frame.self_key)
    then (server, [])
    else dispatch config server frame src now bind frame.kind

-- `let Ok(frame) = ... else { continue }`. The decoder never panics.
unfoldable pub respond :
    Config → Server → Endpoint → ℕ → Option ℕ → Outcome RelayError RelayFrame → Server × List Effect
unfolding handle_frame
respond config server src now bind (ok frame) = handle_frame config server frame src now bind
respond config server src now bind (err e) = (server, [])
respond config server src now bind panic = (server, [])

-- The buffer takes the first 256 bytes of a datagram.
unfoldable pub serve : Config → Server → Wake → Server × List Effect
unfolding prune_server decode respond
serve config server (pruning now) = (prune_server server now, [])
serve config server (received datagram v4 now bind) = (server, [])
serve config server (received datagram (v6 src) now bind) =
    respond config server src now bind
      (decode config.hmac config.ed25519 (take control_buf datagram) config.relay_key)
