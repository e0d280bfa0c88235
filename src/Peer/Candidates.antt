-- ===== src/Peer/Candidates.antt =====
-- crates/engine/src/candidates.rs: the list of endpoints to try, from all sources.
pub mod Pushing
pub mod Building
use hextet.Base.{
  ℕ, ◌-◌, List, [], ◌∷◌, ◌++◌, length, map, contains, Bool, true, false, not, ltb, ◌&&◌,
  if◌then◌else◌, Option, none, some,
}
use hextet.Endpoint.{Endpoint, normalize, endpoint_equality}
use hextet.Peer.Cache.{CachedEndpoint, sort_newest}

abbrev pub max_candidates : ℕ
max_candidates = 8

pub data Source : Type 0 where
  lan gossip dht ddns : Source

abbrev pub priority : Source → ℕ
priority lan = 0
priority gossip = 1
priority dht = 2
priority ddns = 3

-- What a rendezvous channel tells the daemon: a peer's key in base64, and where it is.
pub record DiscoveredEndpoints : Type 0 where
  pub source : Source
  pub peer_key : List ℕ
  pub endpoints : List Endpoint

pub record CandidateSources : Type 0 where
  pub last_good : Option Endpoint
  pub discovered : List (Source × Endpoint)
  pub configured : List Endpoint
  pub cached : List CachedEndpoint
  pub relay : Option Endpoint

unfoldable pub push_unique : List Endpoint → Endpoint → ℕ → List Endpoint
unfolding contains
push_unique out endpoint cap =
    let ep = normalize endpoint in
    if ltb (length out) cap && not (contains out ep) then out ++ ep ∷ [] else out

-- A loop of `push_unique`.
unfoldable pub push_all : List Endpoint → List Endpoint → ℕ → List Endpoint
unfolding push_unique
push_all out [] cap = out
push_all out (ep ∷ eps) cap = push_all (push_unique out ep cap) eps cap

abbrev pub to_list : Option Endpoint → List Endpoint
to_list none = []
to_list (some ep) = ep ∷ []

abbrev pub endpoint_of_source : Source × Endpoint → Endpoint
endpoint_of_source (source, ep) = ep

abbrev pub endpoint_of_cached : CachedEndpoint → Endpoint
endpoint_of_cached c = c.endpoint

-- One place is kept for a relay.
abbrev pub direct_cap : CandidateSources → ℕ
direct_cap sources = max_candidates - length (to_list sources.relay)

unfoldable pub build_candidates : CandidateSources → List Endpoint
unfolding push_all sort_newest
build_candidates sources =
    let cap = direct_cap sources in
    let good = push_all [] (to_list sources.last_good) cap in
    let discovered = push_all good (map endpoint_of_source sources.discovered) cap in
    let configured = push_all discovered sources.configured cap in
    let cached = push_all configured (map endpoint_of_cached (sort_newest sources.cached)) cap in
    push_all cached (to_list sources.relay) max_candidates
