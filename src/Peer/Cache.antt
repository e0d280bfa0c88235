-- ===== src/Peer/Cache.antt =====
-- crates/engine/src/cache.rs: the endpoints that worked, for each peer. A key (the base64 text of
-- a public key) is a string of bytes; reading and writing the file are left out.
pub mod Sorting
pub mod Entries
pub mod Invariant
use hextet.Base.{
  ℕ, List, [], ◌∷◌, ◌++◌, take, Bool, true, false, not, ltb, if◌then◌else◌, Option, none, some,
  ◌=?◌, option_same, ℕ_equality, list_equality,
}
use hextet.Base.Assoc.{lookup, insert}
use hextet.Base.Bytes.{Bytes}
use hextet.Endpoint.{Endpoint, normalize, endpoint_equality}

abbrev pub cache_seen_max : ℕ
cache_seen_max = 8

pub record CachedEndpoint : Type 0 where
  pub endpoint : Endpoint
  pub last_seen_unix : ℕ

pub record PeerCacheEntry : Type 0 where
  pub last_good : Option Endpoint
  pub seen : List CachedEndpoint

abbrev pub empty_entry : PeerCacheEntry
empty_entry = record { last_good = none; seen = [] }

-- The map from peer keys; the version is that of the file.
pub record EndpointCache : Type 0 where
  pub version : ℕ
  pub peers : List (Bytes × PeerCacheEntry)

-- `sort_by_key(Reverse(last_seen_unix))`, the standard library's stable sort: newest first.
unfoldable pub place : CachedEndpoint → List CachedEndpoint → List CachedEndpoint
place c [] = c ∷ []
place c (d ∷ ds) =
    let rest = place c ds in if ltb c.last_seen_unix d.last_seen_unix then d ∷ rest else c ∷ d ∷ ds

unfoldable pub sort_newest : List CachedEndpoint → List CachedEndpoint
unfolding place
sort_newest [] = []
sort_newest (c ∷ cs) = place c (sort_newest cs)

-- `iter_mut().find`: the first entry for the endpoint gets the time, or a new entry is pushed.
unfoldable pub touch : Endpoint → ℕ → List CachedEndpoint → List CachedEndpoint
touch ep now [] = record { endpoint = ep; last_seen_unix = now } ∷ []
touch ep now (c ∷ cs) =
    let rest = touch ep now cs in
    if c.endpoint =? ep
    then record { endpoint = c.endpoint; last_seen_unix = now } ∷ cs
    else c ∷ rest

unfoldable pub record_in_entry : PeerCacheEntry → Endpoint → ℕ → PeerCacheEntry
unfolding touch sort_newest
record_in_entry entry ep now = record {
  last_good = some ep;
  seen = take cache_seen_max (sort_newest (touch ep now entry.seen));
}

abbrev pub or_default : Option PeerCacheEntry → PeerCacheEntry
or_default none = empty_entry
or_default (some entry) = entry

unfoldable pub record_good : EndpointCache → Bytes → Endpoint → ℕ → EndpointCache
unfolding record_in_entry
record_good cache peer_key ep now_unix = record {
  version = cache.version;
  peers =
      insert peer_key
        (record_in_entry (or_default (lookup peer_key cache.peers)) (normalize ep) now_unix)
        cache.peers;
}

-- `retain`.
unfoldable pub retain_other : Endpoint → List CachedEndpoint → List CachedEndpoint
retain_other ep [] = []
retain_other ep (c ∷ cs) =
    let rest = retain_other ep cs in if not (c.endpoint =? ep) then c ∷ rest else rest

unfoldable pub evict_from_entry : PeerCacheEntry → Endpoint → PeerCacheEntry
unfolding retain_other
evict_from_entry entry ep = record {
  last_good = if option_same entry.last_good (some ep) then none else entry.last_good;
  seen = retain_other ep entry.seen;
}

unfoldable pub evict : EndpointCache → Bytes → Endpoint → EndpointCache
unfolding evict_from_entry
evict cache peer_key ep = elim (lookup peer_key cache.peers) [
  | none ↦ cache
  | some entry ↦ record {
    version = cache.version;
    peers = insert peer_key (evict_from_entry entry (normalize ep)) cache.peers;
  }
]
