-- ===== src/Lan.antt =====
-- LAN discovery, crates/engine/src/lan.rs: the table of who is on the LAN, the handling of a beacon,
-- the announcement of the own addresses, and `serve` as one step on the table.
pub mod Handling
pub mod Tracking
pub mod Replay
pub mod Updates
use hextet.Base.{
  is_empty, ℕ, ◌+◌, ◌-◌, Bool, true, false, not, List, [], ◌∷◌, ◌++◌, length, take, ltb, leb, ◌==◌,
  ◌=?◌, if◌then◌else◌, Option, none, some, ℕ_equality, list_equality,
}
use hextet.Addr.{Ipv6Addr}
use hextet.Base.Assoc.{lookup, insert, remove_all, keys_where}
use hextet.Base.Bytes.{Bytes}
use hextet.Base.Outcome.{Outcome, ok, err, panic}
use hextet.Crypto.{Hmac, Ed25519, Base64, PublicKey}
use hextet.Endpoint.{Endpoint, endpoint_equality}
use hextet.Peer.Candidates.{DiscoveredEndpoints, lan}
use hextet.Wire.Beacon.{Beacon, BeaconError, max_addrs, endpoints, encode, decode}

-- 60 seconds.
abbrev pub entry_ttl : ℕ
entry_ttl = 60

abbrev pub max_tracked : ℕ
max_tracked = 64

abbrev pub seq_skew_tolerance_secs : ℕ
seq_skew_tolerance_secs = 300

abbrev pub buf_len : ℕ
buf_len = 256

pub record Entry : Type 0 where
  pub endpoints : List Endpoint
  pub seq : ℕ
  pub last_seen_unix : ℕ

abbrev pub LanTable : Type 0
LanTable = List (Bytes × Entry)

abbrev pub tracked : LanTable → ℕ
tracked table = length table

abbrev pub is_expired : ℕ → Entry → Bool
is_expired now e = not (leb (now - e.last_seen_unix) entry_ttl)

unfoldable pub prune : LanTable → ℕ → LanTable
prune table now = remove_all (keys_where (is_expired now) table) table

abbrev pub entry_of : List Endpoint → ℕ → ℕ → Entry
entry_of eps seq now = record { endpoints = eps; seq = seq; last_seen_unix = now }

-- The end of `LanTable::record`, for a node that is not in the table.
unfoldable pub add_new : LanTable → Bytes → List Endpoint → ℕ → ℕ → LanTable × Bool
add_new table key eps seq now =
    let pruned = prune table now in
    if not (leb max_tracked (length table))
    then (insert key (entry_of eps seq now) table, true)
    else if leb max_tracked (length pruned)
    then (pruned, false)
    else (insert key (entry_of eps seq now) pruned, true)

-- `LanTable::record`: whether the set of endpoints changed.
unfoldable pub record_beacon : LanTable → Bytes → List Endpoint → ℕ → ℕ → LanTable × Bool
record_beacon table key eps seq now = elim (lookup key table) [
  | some e ↦
      if ltb seq e.seq
      then (table, false)
      else if e.endpoints =? eps
      then (insert key (entry_of e.endpoints seq now) table, false)
      else (insert key (entry_of eps seq now) table, true)
  | none ↦ add_new table key eps seq now
]

abbrev pub held_endpoints : Option Entry → List Endpoint
held_endpoints none = []
held_endpoints (some e) = e.endpoints

unfoldable pub endpoints_for : LanTable → Bytes → List Endpoint
endpoints_for table key = held_endpoints (lookup key table)

abbrev pub abs_diff : ℕ → ℕ → ℕ
abs_diff a b = (a - b) + (b - a)

-- The crates' functions and `LanConfig`.
pub record LanConfig : Type 0 where
  pub hmac : Hmac
  pub ed25519 : Ed25519
  pub base64 : Base64
  pub port : ℕ
  pub group : Ipv6Addr
  pub interfaces : List ℕ
  pub own_public_key : PublicKey
  pub lan_key : Bytes
  pub listen_port : ℕ

abbrev pub own_key : LanConfig → Bytes
own_key c = c.base64.encode c.own_public_key

abbrev pub Handled : Type 0
Handled = Option DiscoveredEndpoints × LanTable

abbrev pub update_of : Bytes → List Endpoint → DiscoveredEndpoints
update_of key eps = record { source = lan; peer_key = key; endpoints = eps }

unfoldable pub handle_beacon : LanConfig → LanTable → ℕ → Beacon → Handled
handle_beacon c table now b =
    let key = c.base64.encode b.node_public_key in
    let recorded = record_beacon table key (endpoints b) b.seq now in
    if key =? own_key c
    then (none, table)
    else if ltb seq_skew_tolerance_secs (abs_diff b.seq now)
    then (none, table)
    else if is_empty (endpoints b)
    then (none, table)
    else if not recorded.1
    then (none, recorded.0)
    else (some (update_of key (endpoints b)), recorded.0)

-- `Beacon::decode(buf, lan_key).ok()?`. The decoder never panics.
unfoldable pub handle_decoded : LanConfig → LanTable → ℕ → Outcome BeaconError Beacon → Handled
handle_decoded c table now (ok b) = handle_beacon c table now b
handle_decoded c table now (err e) = (none, table)
handle_decoded c table now panic = (none, table)

unfoldable pub handle_datagram : LanConfig → LanTable → ℕ → Bytes → Handled
handle_datagram c table now buf = handle_decoded c table now (decode c.hmac c.ed25519 buf c.lan_key)

-- Multicast to one interface, and what is told to the daemon.
pub data Effect : Type 0 where
  sent : Bytes → Endpoint → Effect
  told : DiscoveredEndpoints → Effect

unfoldable pub send_all : LanConfig → Bytes → List ℕ → List Effect
send_all c bytes [] = []
send_all c bytes (index ∷ interfaces) =
    sent bytes (record { ip = c.group; port = c.port; flowinfo = 0; scope_id = index })
    ∷ send_all c bytes interfaces

abbrev pub own_beacon : LanConfig → List Ipv6Addr → ℕ → Beacon
own_beacon c addrs now = record {
  node_public_key = c.own_public_key;
  listen_port = c.listen_port;
  seq = now;
  addresses = take max_addrs addrs;
}

abbrev pub send_encoded : LanConfig → Outcome BeaconError Bytes → List Effect
send_encoded c (ok bytes) = send_all c bytes c.interfaces
send_encoded c _ = []

abbrev pub announcement : LanConfig → Option (List Ipv6Addr) → ℕ → List Effect
announcement c none now = []
announcement c (some []) now = []
announcement c (some addrs) now = send_encoded c (encode c.hmac (own_beacon c addrs now) c.lan_key)

-- The enumeration of the machine's addresses may fail.
unfoldable pub announce : LanConfig → LanTable → Option (List Ipv6Addr) → ℕ → LanTable × List Effect
announce c table addrs now = (prune table now, announcement c addrs now)

pub data LanError : Type 0 where
  no_interface none_joined : LanError

-- `joined`; which interfaces can join the group is the system's.
abbrev pub joined_of : (ℕ → Bool) → List ℕ → ℕ
joined_of joins [] = 0
joined_of joins (index ∷ interfaces) = (if joins index then 1 else 0) + joined_of joins interfaces

-- The head of `serve`, up to its loop, once its socket is bound.
unfoldable pub start : LanConfig → (ℕ → Bool) → Outcome LanError LanTable
start c joins =
    if is_empty c.interfaces
    then err no_interface
    else if joined_of joins c.interfaces == 0
    then err none_joined
    else ok []

-- The ticker, a kick (none when its channel is closed), or a datagram (none when the socket fails).
pub data Wake : Type 0 where
  ticked : Wake
  kicked : Option (Unit {0}) → Wake
  received : Option Bytes → Wake

pub record Surroundings : Type 0 where
  pub addresses : Option (List Ipv6Addr)
  pub now : ℕ
  pub listening : Bool

-- The table, the effects, and whether the loop goes on.
abbrev pub Served : Type 0
Served = LanTable × List Effect × Bool

abbrev pub go_on : LanTable × List Effect → Served
go_on (table, effects) = (table, effects, true)

abbrev pub tell : Surroundings → Handled → Served
tell around (none, table) = (table, [], true)
tell around (some update, table) =
    if around.listening then (table, told update ∷ [], true) else (table, [], false)

unfoldable pub serve : LanConfig → LanTable → Surroundings → Wake → Served
serve c table around ticked = go_on (announce c table around.addresses around.now)
serve c table around (kicked none) = (table, [], false)
serve c table around (kicked (some u)) = go_on (announce c table around.addresses around.now)
serve c table around (received none) = (table, [], false)
serve c table around (received (some datagram)) =
    tell around (handle_datagram c table around.now (take buf_len datagram))
