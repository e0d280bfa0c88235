-- ===== src/Daemon/Discovery.antt =====
-- `on_discovered` of crates/engine/src/daemon.rs, for the peer that the update names.
use hextet.Base.{
  ℕ, Bool, true, false, not, ◌&&◌, ◌||◌, List, [], ◌∷◌, ◌++◌, leb, ◌=?◌, if◌then◌else◌, Option,
  none, some,
}
use hextet.Daemon.{PeerRuntime, RelayLink, Driven, with_link, relist, then_retry, session_endpoint}
use hextet.Endpoint.{Endpoint, normalize, endpoint_equality}
use hextet.Peer.Cache.{EndpointCache, evict}
use hextet.Peer.Candidates.{Source, gossip, priority}
use hextet.Peer.Fsm.{PunchState, probing, connected, Action}

abbrev pub is_gossip : Source → Bool
is_gossip gossip = true
is_gossip _ = false

abbrev pub source_same : Source → Source → Bool
source_same a b = leb (priority a) (priority b) && leb (priority b) (priority a)

abbrev pub Discovered : Type 0
Discovered = List (Source × Endpoint)

abbrev pub retain_others : Source → Discovered → Discovered
retain_others source [] = []
retain_others source ((s, e) ∷ rest) =
    if not (source_same s source)
    then (s, e) ∷ retain_others source rest
    else retain_others source rest

abbrev pub tagged : Source → List Endpoint → Discovered
tagged source [] = []
tagged source (e ∷ eps) = (source, e) ∷ tagged source eps

-- `sort_by_key`, the standard library's stable sort.
abbrev pub place_source : Source × Endpoint → Discovered → Discovered
place_source (s, e) [] = (s, e) ∷ []
place_source (s, e) ((t, f) ∷ rest) =
    let later = place_source (s, e) rest in
    if leb (priority s) (priority t) then (s, e) ∷ (t, f) ∷ rest else (t, f) ∷ later

abbrev pub sort_sources : Discovered → Discovered
sort_sources [] = []
sort_sources (x ∷ rest) = place_source x (sort_sources rest)

unfoldable pub replaced : Source → List Endpoint → Discovered → Discovered
replaced source eps old = sort_sources (retain_others source old ++ tagged source eps)

unfoldable pub still_reported_by_authoritative_source : Discovered → Endpoint → Bool
still_reported_by_authoritative_source [] endpoint = false
still_reported_by_authoritative_source ((s, e) ∷ rest) endpoint =
    (not (is_gossip s) && (normalize e =? endpoint))
    || still_reported_by_authoritative_source rest endpoint

abbrev pub has_authoritative : Discovered → Bool
has_authoritative [] = false
has_authoritative ((s, e) ∷ rest) = not (is_gossip s) || has_authoritative rest

abbrev pub is_reported : Discovered → Endpoint → Bool
is_reported [] endpoint = false
is_reported ((s, e) ∷ rest) endpoint = (normalize e =? endpoint) || is_reported rest endpoint

unfoldable pub reported_by_reliable_source : Discovered → Endpoint → Bool
reported_by_reliable_source discovered endpoint =
    if has_authoritative discovered
    then still_reported_by_authoritative_source discovered endpoint
    else is_reported discovered endpoint

abbrev pub is_configured : List Endpoint → Endpoint → Bool
is_configured [] endpoint = false
is_configured (c ∷ configured) endpoint =
    (normalize c =? endpoint) || is_configured configured endpoint

abbrev pub connected_to : Endpoint → PunchState → Option Endpoint
connected_to ep (probing candidate_index rounds) = none
connected_to ep (connected endpoint) = if endpoint =? ep then some endpoint else none

abbrev pub via : Option Endpoint → PunchState → Option Endpoint
via none state = none
via (some ep) state = connected_to ep state

unfoldable pub relayed_via_endpoint : PeerRuntime → Option Endpoint
relayed_via_endpoint peer = via (session_endpoint peer.relay) peer.fsm.state

-- The peer, the cache and the actions.
abbrev pub Heard : Type 0
Heard = Option (PeerRuntime × EndpointCache × List Action)

abbrev pub with_cache : EndpointCache → Driven → Heard
with_cache cache none = none
with_cache cache (some (peer, actions)) = some (peer, cache, actions)

-- From the test of the connection on; the peer has the new set.
abbrev pub follow : PeerRuntime → EndpointCache → ℕ → PunchState → Heard
follow peer cache wall (probing candidate_index rounds) = with_cache cache (relist peer cache wall)
follow peer cache wall (connected endpoint) =
    let foreign = not (is_configured peer.configured endpoint) in
    let kept =
      if foreign && not (reported_by_reliable_source peer.discovered endpoint)
      then evict cache peer.key_b64 endpoint
      else cache in
    if foreign && not (still_reported_by_authoritative_source peer.discovered endpoint)
    then with_cache kept (then_retry endpoint wall false (relist peer kept wall))
    else with_cache kept (relist peer kept wall)

abbrev pub upgrading : RelayLink → RelayLink
upgrading link = record link { upgrade_pending = true; upgrade_retries = 0 }

abbrev pub react : PeerRuntime → EndpointCache → ℕ → Option Endpoint → Option RelayLink → Heard
react peer cache wall (some relay_ep) (some link) =
    with_cache cache
      (then_retry relay_ep wall true (relist (with_link peer (upgrading link)) cache wall))
react peer cache wall (some relay_ep) none = follow peer cache wall peer.fsm.state
react peer cache wall none relay = follow peer cache wall peer.fsm.state

unfoldable pub discover : PeerRuntime → EndpointCache → Source → List Endpoint → ℕ → Heard
discover peer cache source eps wall =
    let peer' : PeerRuntime = record peer { discovered = replaced source eps peer.discovered } in
    react peer' cache wall (relayed_via_endpoint peer') peer'.relay
