-- ===== src/Daemon.antt =====
-- One peer in the daemon's loop, crates/engine/src/daemon.rs: the fallback to a relay and the way back
-- from it (`drive_relay`, `on_relay_registered`), and new addresses from a rendezvous channel
-- (`on_discovered`). Instants and the wall clock are nanoseconds; the tasks that a handler spawns
-- and the actions that it hands to WireGuard are its results, and none is a panic.
pub mod Discovery
pub mod Completing
pub mod Balance
pub mod Registering
pub mod LastResort
pub mod Staying
use hextet.Base.{
  ℕ, ◌+◌, ◌-◌, ◌*◌, suc, Bool, true, false, not, ◌&&◌, ◌||◌, List, [], ◌∷◌, ◌++◌, map, ltb, leb,
  ◌=?◌, if◌then◌else◌, Option, none, some, is_empty, ℕ_equality, list_equality,
}
use hextet.Base.Assoc.{lookup}
use hextet.Base.Bytes.{Bytes}
use hextet.Endpoint.{Endpoint, normalize, endpoint_equality, endpoint_same}
use hextet.Peer.Cache.{EndpointCache, PeerCacheEntry, CachedEndpoint, evict}
use hextet.Peer.Candidates.{
  Source, lan, gossip, dht, ddns, priority, CandidateSources, build_candidates,
}
use hextet.Peer.Fsm.{
  PeerFsm, PunchState, probing, connected, Action, Step, set_candidates, retry_from_impl,
}
use hextet.RelayClient.{RelaySession}

abbrev pub second : ℕ
second = 1000000000

abbrev pub relay_after_rounds : ℕ
relay_after_rounds = 2

abbrev pub relay_retry_cooldown : ℕ
relay_retry_cooldown = 60 * second

abbrev pub upgrade_max_retries : ℕ
upgrade_max_retries = 8

abbrev pub register_interval : ℕ
register_interval = 30 * second

pub record RelayLink : Type 0 where
  pub control : List Endpoint
  pub session : Option RelaySession
  pub pending : Bool
  pub upgrade_pending : Bool
  pub upgrade_retries : ℕ
  pub last_register : Option ℕ
  pub retry_after : Option ℕ

-- What these handlers read of `PeerRuntime`.
pub record PeerRuntime : Type 0 where
  pub key_b64 : Bytes
  pub configured : List Endpoint
  pub discovered : List (Source × Endpoint)
  pub relay : Option RelayLink
  pub fsm : PeerFsm

-- The tasks in the background.
pub data Spawned : Type 0 where
  register : Spawned
  unregister : RelaySession → Spawned

abbrev pub session_endpoint : Option RelayLink → Option Endpoint
session_endpoint none = none
session_endpoint (some link) = elim link.session [
  | none ↦ none
  | some session ↦ some session.endpoint
]

abbrev pub sources_from : PeerRuntime → Option PeerCacheEntry → CandidateSources
sources_from peer none = record {
  last_good = none;
  discovered = peer.discovered;
  configured = peer.configured;
  cached = [];
  relay = session_endpoint peer.relay;
}
sources_from peer (some entry) = record {
  last_good = entry.last_good;
  discovered = peer.discovered;
  configured = peer.configured;
  cached = entry.seen;
  relay = session_endpoint peer.relay;
}

unfoldable pub sources_for : PeerRuntime → EndpointCache → CandidateSources
sources_for peer cache = sources_from peer (lookup peer.key_b64 cache.peers)

-- The relay's session alone, unless the link is on its way back to a direct path.
abbrev pub relay_only : Option RelayLink → Option Endpoint
relay_only none = none
relay_only (some link) = if not link.upgrade_pending then session_endpoint (some link) else none

unfoldable pub candidates_for : PeerRuntime → EndpointCache → List Endpoint
candidates_for peer cache = elim (relay_only peer.relay) [
  | some ep ↦ ep ∷ []
  | none ↦ build_candidates (sources_for peer cache)
]

-- A step of the machine, in the peer.
abbrev pub Driven : Type 0
Driven = Option (PeerRuntime × List Action)

abbrev pub with_fsm : PeerRuntime → List Action → Step → Driven
with_fsm peer before none = none
with_fsm peer before (some (fsm, actions)) = some (record peer { fsm = fsm }, before ++ actions)

unfoldable pub relist : PeerRuntime → EndpointCache → ℕ → Driven
relist peer cache wall = with_fsm peer [] (set_candidates peer.fsm (candidates_for peer cache) wall)

abbrev pub then_retry : Endpoint → ℕ → Bool → Driven → Driven
then_retry avoid wall flush none = none
then_retry avoid wall flush (some (peer, actions)) =
    with_fsm peer actions (retry_from_impl peer.fsm (some avoid) wall flush)

-- `let _ =`.
abbrev pub without_actions : Driven → Driven
without_actions none = none
without_actions (some (peer, actions)) = some (peer, [])

abbrev pub is_due : Option ℕ → ℕ → Bool
is_due none now = true
is_due (some t) now = leb register_interval (now - t)

abbrev pub is_cooling : Option ℕ → ℕ → Bool
is_cooling none now = false
is_cooling (some t) now = ltb now t

-- What the block over the link decides: the link, the tasks, whether the candidates are listed anew,
-- and the endpoint to leave for a direct one.
pub record Decision : Type 0 where
  pub link : RelayLink
  pub spawned : List Spawned
  pub recompute : Bool
  pub retry_avoid : Option Endpoint

abbrev pub nothing : RelayLink → Decision
nothing link = record { link = link; spawned = []; recompute = false; retry_avoid = none }

abbrev pub registering : RelayLink → Decision
registering link = record {
  link = record link { pending = true };
  spawned = register ∷ [];
  recompute = false;
  retry_avoid = none;
}

unfoldable pub leave_relay : RelayLink → RelaySession → Decision
leave_relay link session = record {
  link = record {
    control = link.control;
    session = none;
    pending = link.pending;
    upgrade_pending = false;
    upgrade_retries = 0;
    last_register = none;
    retry_after = none;
  };
  spawned = unregister session ∷ [];
  recompute = true;
  retry_avoid = none;
}

-- A link whose way back has not succeeded so far.
unfoldable pub upgrade_again : RelayLink → RelaySession → Decision
upgrade_again link session =
    if not link.upgrade_pending
    then nothing link
    else if ltb link.upgrade_retries upgrade_max_retries
    then record (nothing (record link { upgrade_retries = suc link.upgrade_retries })) {
      retry_avoid = some session.endpoint;
    }
    else record (nothing (record link { upgrade_pending = false; upgrade_retries = 0 })) {
      recompute = true;
    }

unfoldable pub renew : Decision → ℕ → Decision
renew d now =
    if is_due d.link.last_register now
      && not d.link.pending
      && not (is_cooling d.link.retry_after now)
    then record d { link = record d.link { pending = true }; spawned = register ∷ [] }
    else d

abbrev pub decide_connected : RelayLink → Option RelaySession → Endpoint → ℕ → Decision
decide_connected link none endpoint now = nothing link
decide_connected link (some session) endpoint now =
    if not (endpoint =? session.endpoint)
    then leave_relay link session
    else renew (upgrade_again link session) now

abbrev pub decide_probing : RelayLink → Option RelaySession → ℕ → ℕ → Decision
decide_probing link (some session) rounds now =
    if not (is_due link.last_register now) then nothing link else registering link
decide_probing link none rounds now =
    if ltb rounds relay_after_rounds then nothing link else registering link

-- The `match state`.
unfoldable pub decide : PunchState → RelayLink → ℕ → Decision
decide (connected endpoint) link now = decide_connected link link.session endpoint now
decide (probing candidate_index rounds) link now =
    if link.upgrade_pending
    then nothing link
    else if link.pending
    then nothing link
    else if is_cooling link.retry_after now
    then nothing link
    else decide_probing link link.session rounds now

abbrev pub with_link : PeerRuntime → RelayLink → PeerRuntime
with_link peer link = record peer { relay = some link }

-- The end of `drive_relay`, after the decision.
unfoldable pub carry_out : PeerRuntime → EndpointCache → ℕ → Decision → Driven
carry_out peer cache wall d = elim d.retry_avoid [
  | some avoid ↦ then_retry avoid wall true (without_actions (relist peer cache wall))
  | none ↦ if d.recompute then without_actions (relist peer cache wall) else some (peer, [])
]

abbrev pub with_spawned : List Spawned → Driven → Option (PeerRuntime × List Spawned × List Action)
with_spawned spawned none = none
with_spawned spawned (some (peer, actions)) = some (peer, spawned, actions)

abbrev pub drive_link :
    PeerRuntime
    → EndpointCache
    → ℕ
    → ℕ
    → Option RelayLink
    → Option (PeerRuntime × List Spawned × List Action)
drive_link peer cache now wall none = some (peer, [], [])
drive_link peer cache now wall (some link) =
    let d = decide peer.fsm.state link now in
    if is_empty link.control
    then some (peer, [], [])
    else with_spawned d.spawned (carry_out (with_link peer d.link) cache wall d)

unfoldable pub drive_relay :
    PeerRuntime → EndpointCache → ℕ → ℕ → Option (PeerRuntime × List Spawned × List Action)
drive_relay peer cache now wall = drive_link peer cache now wall peer.relay

abbrev pub session_same : RelaySession → RelaySession → Bool
session_same a b = (a.endpoint =? b.endpoint) && (a.control =? b.control)

abbrev pub is_session : RelaySession → Option RelaySession → Bool
is_session s none = false
is_session s (some t) = session_same t s

-- Connected by the session that was there before.
abbrev pub stranded_at : Option RelaySession → PunchState → Option Endpoint
stranded_at none state = none
stranded_at (some prev) (probing candidate_index rounds) = none
stranded_at (some prev) (connected endpoint) =
    if endpoint =? prev.endpoint then some prev.endpoint else none

abbrev pub then_leave : Option RelaySession → ℕ → Driven → Driven
then_leave previous wall none = none
then_leave previous wall (some (peer, actions)) = elim (stranded_at previous peer.fsm.state) [
  | none ↦ some (peer, actions)
  | some ep ↦ then_retry ep wall false (some (peer, actions))
]

abbrev pub take_session :
    PeerRuntime → EndpointCache → RelayLink → Option RelaySession → ℕ → ℕ → Driven
take_session peer cache link none now wall = some (
  with_link peer (record link { pending = false; retry_after = some (now + relay_retry_cooldown) }),
  [],
)
take_session peer cache link (some session) now wall =
    let link' : RelayLink = record link {
      pending = false;
      last_register = some now;
      retry_after = none;
    } in
    if is_session session link.session
    then some (with_link peer link', [])
    else then_leave link.session wall
        (relist (with_link peer (record link' { session = some session })) cache wall)

-- `on_relay_registered`, for the peer that the result names.
unfoldable pub relay_registered : PeerRuntime → EndpointCache → Option RelaySession → ℕ → ℕ → Driven
relay_registered peer cache done now wall = elim peer.relay [
  | none ↦ some (peer, [])
  | some link ↦ take_session peer cache link done now wall
]
