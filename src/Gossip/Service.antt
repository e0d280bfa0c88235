-- ===== src/Gossip/Service.antt =====
-- The gossip service, crates/engine/src/gossip.rs: `handle_datagram`, the announcement of the own
-- addresses (`Broadcast`), and `serve` as one step on explicit state. A broadcast's packets come
-- in the order of the model's table.
pub mod Authority
pub mod Quiet
pub mod Fresh
pub mod Merging
pub mod Settling
pub mod Waking
pub mod Network
pub mod Announcing
pub mod Invariant
use hextet.Base.{
  is_empty, ℕ, ◌+◌, ◌%◌, ◌^◌, max, Bool, true, false, not, ◌&&◌, List, [], ◌∷◌, ◌++◌, take,
  contains, ◌=?◌, if◌then◌else◌, Option, none, some, ℕ_equality, list_equality,
}
use hextet.Addr.{Ipv6Addr, Sha256, NodeAddr, AddrError, derive_node_addr}
use hextet.Base.Bytes.{Bytes}
use hextet.Base.Outcome.{Outcome, ok, err, panic, ◌>>=◌}
use hextet.Crypto.{Ed25519, Base64, PublicKey}
use hextet.Endpoint.{Endpoint, endpoint}
use hextet.Gossip.Codec.{max_addrs, sign_endpoint, encode, decode}
use hextet.Gossip.Entry.{
  Entry, Kind, GossipError, kind_of, signer_of, endpoint_addrs, kind_equality,
}
use hextet.Gossip.Store.{
  GossipStore, Key, MergeOutcome, applied, stale, invalid, rejected, merge, is_revoked,
}
use hextet.Peer.Candidates.{DiscoveredEndpoints, gossip}
use hextet.RelayServer.Forward.{SocketAddr, v4, v6}

abbrev pub buf_len : ℕ
buf_len = 1500

pub data GossipEvent : Type 0 where
  discovered : DiscoveredEndpoints → GossipEvent
  member_admitted : (node : PublicKey) (name : Bytes) (address : Ipv6Addr) → GossipEvent
  revoked : (node : PublicKey) → GossipEvent

-- The crates' functions, and the parameters of the service that its logic reads. The identity is
-- its seed; `targets` is a state of the loop.
pub record GossipConfig : Type 0 where
  pub ed25519 : Ed25519
  pub sha256 : Sha256
  pub base64 : Base64
  pub port : ℕ
  pub prefix : Bytes
  pub own_identity : Bytes
  pub listen_port : ℕ
  pub admin_keys : List PublicKey

-- `own_key_b64`.
abbrev pub own_key : GossipConfig → Bytes
own_key c = c.base64.encode (c.ed25519.public c.own_identity)

unfoldable pub is_within_prefix : Ipv6Addr → Bytes → Bool
is_within_prefix addr prefix = take 6 addr =? prefix

abbrev pub is_applied : MergeOutcome → Bool
is_applied applied = true
is_applied _ = false

-- The test in front of the `match`: a list of admins that is not empty binds admissions and
-- revocations.
unfoldable pub lacks_authority : GossipConfig → Entry → Bool
lacks_authority c entry =
    not (kind_of entry =? Kind.endpoint)
    && not (is_empty c.admin_keys)
    && not (contains c.admin_keys (signer_of entry))

abbrev pub Handled : Type 0
Handled = Option GossipEvent × GossipStore

abbrev pub merged : GossipConfig → GossipStore → Entry → GossipEvent → Handled
merged c store entry event =
    let m = merge c.ed25519 store entry in if is_applied m.1 then (some event, m.0) else (none, m.0)

-- `Err` of the address derivation drops the event, not the entry.
abbrev pub admit : PublicKey → Bytes → GossipStore → Outcome AddrError NodeAddr → Handled
admit node name store (ok a) = (some (member_admitted node name a.address), store)
admit node name store _ = (none, store)

-- The `match entry`.
unfoldable pub handle_entry : GossipConfig → GossipStore → Entry → Handled
handle_entry c store (Entry.endpoint node eps port seq sig) =
    let entry = Entry.endpoint node eps port seq sig in
    let key = c.base64.encode node in
    let endpoints = endpoint_addrs entry in
    if key =? own_key c
    then (none, store)
    else if is_empty endpoints
    then (none, store)
    else merged c store entry
        (discovered (record { source = gossip; peer_key = key; endpoints = endpoints }))
handle_entry c store (Entry.member node name site seq sig issued_by invite_id) =
    let m = merge c.ed25519 store (Entry.member node name site seq sig issued_by invite_id) in
    if not (is_applied m.1)
    then (none, m.0)
    else if is_revoked m.0 node
    then (none, m.0)
    else admit node name m.0 (derive_node_addr c.sha256 c.prefix node)
handle_entry c store (Entry.revocation node seq sig issued_by) =
    merged c store (Entry.revocation node seq sig issued_by) (revoked node)

-- `Entry::decode(buf).ok()?`. The decoder never panics.
unfoldable pub handle_decoded : GossipConfig → GossipStore → Outcome GossipError Entry → Handled
unfolding handle_entry lacks_authority
handle_decoded c store (ok entry) =
    if lacks_authority c entry then (none, store) else handle_entry c store entry
handle_decoded c store (err e) = (none, store)
handle_decoded c store panic = (none, store)

unfoldable pub handle_datagram : GossipConfig → GossipStore → Bytes → Ipv6Addr → Handled
unfolding is_within_prefix handle_decoded decode
handle_datagram c store buf src =
    if not (is_within_prefix src c.prefix)
    then (none, store)
    else handle_decoded c store (decode c.ed25519 buf)

pub record Broadcast : Type 0 where
  pub last_addrs : List Ipv6Addr
  pub entry_bytes : Option Bytes
  pub seq : ℕ

abbrev pub new_broadcast : ℕ → Broadcast
new_broadcast now = record { last_addrs = []; entry_bytes = none; seq = now }

abbrev pub announce :
    Broadcast → List Ipv6Addr → ℕ → Outcome GossipError Bytes → Option Bytes × Broadcast
announce bc addrs seq (ok bytes) =
    (some bytes, record { last_addrs = addrs; entry_bytes = some bytes; seq = seq })
announce bc addrs seq _ =
    (none, record { last_addrs = bc.last_addrs; entry_bytes = bc.entry_bytes; seq = seq })

-- `now` is the clock in seconds; `seq` is a `u64`. Where signing or encoding fails, the new `seq`
-- is kept all the same.
unfoldable pub own_entry : GossipConfig → Broadcast → List Ipv6Addr → ℕ → Option Bytes × Broadcast
unfolding sign_endpoint encode
own_entry c bc all now =
    let addrs = take max_addrs all in
    let seq = max ((bc.seq + 1) % 2 ^ 64) now in
    if is_empty addrs
    then (none, bc)
    else if addrs =? bc.last_addrs
    then (bc.entry_bytes, bc)
    else announce bc addrs seq
        (sign_endpoint c.ed25519 c.own_identity addrs c.listen_port seq >>= encode)

pub record Service : Type 0 where
  pub store : GossipStore
  pub targets : List Ipv6Addr
  pub announced : Broadcast

pub data Effect : Type 0 where
  sent : Bytes → Endpoint → Effect
  told : GossipEvent → Effect

abbrev pub encoded : Outcome GossipError Bytes → List Bytes
encoded (ok bytes) = bytes ∷ []
encoded _ = []

abbrev pub to_list : Option Bytes → List Bytes
to_list none = []
to_list (some bytes) = bytes ∷ []

unfoldable pub packets_of : GossipStore → List Bytes
unfolding encode
packets_of [] = []
packets_of ((key, entry) ∷ store) = encoded (encode entry) ++ packets_of store

unfoldable pub send_all : Ipv6Addr → ℕ → List Bytes → List Effect
send_all target port [] = []
send_all target port (pkt ∷ packets) =
    sent pkt (endpoint target port) ∷ send_all target port packets

unfoldable pub send_to_targets : List Ipv6Addr → ℕ → List Bytes → List Effect
unfolding send_all
send_to_targets [] port packets = []
send_to_targets (target ∷ targets) port packets =
    send_all target port packets ++ send_to_targets targets port packets

-- `broadcast`; the enumeration of the machine's addresses may fail, and then nothing is sent.
unfoldable pub broadcast :
    GossipConfig → Service → Option (List Ipv6Addr) → ℕ → Service × List Effect
unfolding own_entry packets_of send_to_targets
broadcast c s none now = (s, [])
broadcast c s (some addrs) now =
    let own = own_entry c s.announced addrs now in
    (
      record { store = s.store; targets = s.targets; announced = own.1 },
      send_to_targets s.targets c.port (to_list own.0 ++ packets_of s.store),
    )

-- What wakes the loop: the ticker, a kick (none when its channel is closed), new targets (none
-- likewise), or a datagram (none when the socket fails).
pub data Wake : Type 0 where
  ticked : Wake
  kicked : Option (Unit {0}) → Wake
  control : Option (List Ipv6Addr) → Wake
  received : Option (Bytes × SocketAddr) → Wake

-- What the loop finds when it is woken: the machine's addresses, the clock, and whether the
-- daemon still listens.
pub record Surroundings : Type 0 where
  pub addresses : Option (List Ipv6Addr)
  pub now : ℕ
  pub listening : Bool

-- The new state, the effects, and whether the loop goes on.
abbrev pub Served : Type 0
Served = Service × List Effect × Bool

abbrev pub go_on : Service × List Effect → Served
go_on (s, effects) = (s, effects, true)

abbrev pub with_store : Service → GossipStore → Service
with_store s store = record { store = store; targets = s.targets; announced = s.announced }

-- New knowledge is passed on at once, and then told to the daemon.
unfoldable pub pass_on : GossipConfig → Service → Surroundings → Handled → Served
unfolding broadcast
pass_on c s around (none, store) = (with_store s store, [], true)
pass_on c s around (some event, store) =
    let sent = broadcast c (with_store s store) around.addresses around.now in
    if around.listening then (sent.0, sent.1 ++ told event ∷ [], true) else (sent.0, sent.1, false)

unfoldable pub serve : GossipConfig → Service → Surroundings → Wake → Served
unfolding broadcast pass_on handle_datagram
serve c s around ticked = go_on (broadcast c s around.addresses around.now)
serve c s around (kicked none) = (s, [], false)
serve c s around (kicked (some u)) = go_on (broadcast c s around.addresses around.now)
serve c s around (control none) = (s, [], false)
serve c s around (control (some targets)) =
    (record { store = s.store; targets = targets; announced = s.announced }, [], true)
serve c s around (received none) = (s, [], false)
serve c s around (received (some (datagram, v4))) = (s, [], true)
serve c s around (received (some (datagram, v6 src))) =
    pass_on c s around (handle_datagram c s.store (take buf_len datagram) src.ip)
