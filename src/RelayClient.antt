-- ===== src/RelayClient.antt =====
-- The relay client, crates/engine/src/relay_client.rs: registering a session with a relay and taking it
-- back. The rounds of the loop are what its surroundings give it, in order.
pub mod Sessions
pub mod Pairing
use hextet.Base.{
  is_empty, ℕ, ◌+◌, ◌*◌, Bool, true, false, not, ◌&&◌, ◌||◌, List, [], ◌∷◌, ◌++◌, length, take, ltb,
  ◌==◌, ◌=?◌, if◌then◌else◌, Option, none, some, ℕ_equality, list_equality,
}
use hextet.Base.Bytes.{Bytes}
use hextet.Base.Outcome.{Outcome, ok, err, panic}
use hextet.Crypto.{Hmac, Ed25519, PublicKey}
use hextet.Endpoint.{Endpoint, endpoint, normalize}
use hextet.RelayServer.Forward.{SocketAddr, v4, v6}
use hextet.Wire.Relay.{
  RelayFrame, RelayKind, RelayError, register, register_ack, unregister, as_u8, encode, decode,
}

-- Nanoseconds: the wait of a round, 0.7 seconds, and of all rounds, 5 seconds.
abbrev pub retry_interval : ℕ
retry_interval = 700 * 1000000

abbrev pub register_timeout : ℕ
register_timeout = 5 * 1000000000

abbrev pub buf_len : ℕ
buf_len = 256

pub record RelaySession : Type 0 where
  pub endpoint : Endpoint
  pub control : Endpoint

-- The crates' functions and the arguments of `register`.
pub record Request : Type 0 where
  pub hmac : Hmac
  pub ed25519 : Ed25519
  pub control_addrs : List Endpoint
  pub self_key : PublicKey
  pub peer_key : PublicKey
  pub wg_listen_port : ℕ
  pub relay_key : Bytes

-- A round: the monotonic clock at the loop's test, the seconds of the wall clock, and what came
-- within the wait (none on a timeout or a read error).
pub record Round : Type 0 where
  pub instant : ℕ
  pub unix : ℕ
  pub received : Option (Bytes × SocketAddr)

abbrev pub frame_of : Request → RelayKind → ℕ → RelayFrame
frame_of r kind unix = record {
  kind = kind;
  port = r.wg_listen_port;
  seq = unix;
  self_key = r.self_key;
  peer_key = r.peer_key;
}

abbrev pub send_to_all : Bytes → List Endpoint → List (Bytes × Endpoint)
send_to_all bytes [] = []
send_to_all bytes (control ∷ controls) = (bytes, control) ∷ send_to_all bytes controls

-- The ack's kind, both keys, and a port that is not zero.
unfoldable pub is_paired : Request → RelayFrame → Bool
is_paired r ack =
    as_u8 ack.kind == as_u8 register_ack
    && (ack.self_key =? r.self_key)
    && (ack.peer_key =? r.peer_key)
    && not (ack.port == 0)

abbrev pub session_of : RelayFrame → Endpoint → RelaySession
session_of ack src = record { endpoint = endpoint src.ip ack.port; control = normalize src }

abbrev pub pair : Request → Endpoint → Outcome RelayError RelayFrame → Option RelaySession
pair r src (ok ack) = if is_paired r ack then some (session_of ack src) else none
pair r src (err e) = none
pair r src panic = none

-- The end of a round: none is `continue`. The decoder never panics.
unfoldable pub accept : Request → Option (Bytes × SocketAddr) → Option RelaySession
accept r none = none
accept r (some (datagram, v4)) = none
accept r (some (datagram, v6 src)) =
    pair r src (decode r.hmac r.ed25519 (take buf_len datagram) r.relay_key)

-- `Some`, `None`, or not ended within the rounds that are given.
pub data Registration : Type 0 where
  registered : RelaySession → Registration
  unavailable : Registration
  waiting : Registration

-- The loop, with the frames that it sends.
unfoldable pub register_loop : Request → ℕ → List Round → List (Bytes × Endpoint) × Registration
register_loop r deadline [] = ([], waiting)
register_loop r deadline (round ∷ rounds) =
    let sent =
      send_to_all (encode r.hmac (frame_of r register round.unix) r.relay_key) r.control_addrs in
    let rest = register_loop r deadline rounds in
    if not (ltb round.instant deadline) then ([], unavailable) else elim (accept r round.received) [
      | some session ↦ (sent, registered session)
      | none ↦ (sent ++ rest.0, rest.1)
    ]

-- `register_with_timeout`, begun at an instant; the socket may not be bound.
unfoldable pub register_with_timeout :
    Request → ℕ → ℕ → Bool → List Round → List (Bytes × Endpoint) × Registration
register_with_timeout r start timeout bound rounds =
    if is_empty r.control_addrs || r.wg_listen_port == 0
    then ([], unavailable)
    else if not bound
    then ([], unavailable)
    else register_loop r (start + timeout) rounds

-- `register`.
abbrev pub register_session :
    Request → ℕ → Bool → List Round → List (Bytes × Endpoint) × Registration
register_session r start bound rounds = register_with_timeout r start register_timeout bound rounds

-- `unregister`: one frame, to the relay that answered.
unfoldable pub unregister_session : Request → Endpoint → ℕ → Bool → List (Bytes × Endpoint)
unregister_session r control unix bound =
    if not bound then [] else (encode r.hmac (frame_of r unregister unix) r.relay_key, control) ∷ []
