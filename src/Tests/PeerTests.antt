-- ===== src/Tests/PeerTests.antt =====
-- One peer with two candidates.
use hextet.Base.{
  ◌*◌, ℕ, ◌≡◌, ◌≤◌, refl, true, List, [], ◌∷◌, ◌++◌, length, map, contains, arith, ◌↔◌, ◌⊎◌, none,
  some, ℕ_equality, list_equality, list_same,
}
use hextet.Base.Assoc.{lookup}
use hextet.Base.Bytes.{Bytes}
use hextet.Crypto.{repeat_byte}
use hextet.Endpoint.{Endpoint, endpoint, normalize, endpoint_equality}
use hextet.Peer.Fsm.{PeerFsm, probing, Observation, new, tick, rotate_interval, handshake_is_fresh}
use hextet.Peer.Fsm.Steps.{IsFsm, machine}
use hextet.Peer.Fsm.Directed.{
  Event, kicked, listed, retried, ticked, Trace, AllSound, run, run-IsSound,
}
use hextet.Peer.Fsm.Punching.{connects, IsFresh, IsAfter, tick-connects_iff}
use hextet.Peer.Fsm.Rotation.{Unanswered, PointsAt, tick_events, run_reaches}
use hextet.Peer.Candidates.{CandidateSources, build_candidates, direct_cap}
use hextet.Peer.Candidates.Building.{offered, build_candidates-relay, build_candidates_full}
use hextet.Peer.Cache.{PeerCacheEntry, EndpointCache, record_good}
use hextet.Peer.Cache.Invariant.{IsCache, record_good-IsCache}

abbrev first : Endpoint
first = endpoint (0x20 ∷ 0x01 ∷ repeat_byte 13 0 ++ 1 ∷ []) 51820

abbrev second : Endpoint
second = endpoint (0x20 ∷ 0x01 ∷ repeat_byte 13 0 ++ 2 ∷ []) 51820

abbrev seconds : ℕ → ℕ
seconds n = n * 1000000000

abbrev silent : Observation
silent = record { last_handshake = none; kernel_endpoint = none }

abbrev heard : ℕ → Observation
heard t = record { last_handshake = some (seconds t); kernel_endpoint = some second }

abbrev events : List Event
events =
    kicked (seconds 1)
    ∷ ticked (seconds 4) silent
    ∷ listed (second ∷ second ∷ []) (seconds 5)
    ∷ ticked (seconds 7) (heard 6)
    ∷ retried (some second) (seconds 8) true
    ∷ []

run-IsSound_example :
    (last : PeerFsm) × (trace : Trace) × (run (new (first ∷ second ∷ []) (seconds 0)) events
      ≡ some (last, trace))
    × IsFsm last
    × AllSound trace
run-IsSound_example = run-IsSound (first ∷ second ∷ []) (seconds 0) events

tick-connects_iff_example :
    (connects (
        tick
          (machine (first ∷ second ∷ []) (probing 1 0) (seconds 5) (seconds 5))
          (seconds 7)
          (heard 6))
      ≡ true)
    ↔ (IsFresh (some (seconds 6)) (seconds 7)
        × (IsAfter (some (seconds 6)) (seconds 5) ⊎ (length (first ∷ second ∷ []) ≡ 1)))
tick-connects_iff_example =
    tick-connects_iff (first ∷ second ∷ []) 1 0 (seconds 5) (seconds 5) (seconds 7) (heard 6)
      (omega arith)

abbrev ticks : List (ℕ × Observation)
ticks = (seconds 3, silent) ∷ []

late : rotate_interval ≤ seconds 3
late = omega arith

unanswered : Unanswered 0 ticks
unfolding handshake_is_fresh
unanswered = (late, refl, tt)

run_reaches_example :
    PointsAt 0 (run (machine (first ∷ second ∷ []) (probing 1 0) 0 0) (tick_events ticks))
run_reaches_example =
    run_reaches (first ∷ second ∷ []) 1 0 0 0 0 ticks (omega arith) (omega arith) refl unanswered

abbrev sources : CandidateSources
sources = record {
  last_good = some first;
  discovered = [];
  configured = first ∷ second ∷ [];
  cached = [];
  relay = some second;
}

build_candidates-relay_example : contains (build_candidates sources) (normalize second) ≡ true
build_candidates-relay_example = build_candidates-relay sources second refl

second-offered : contains (map normalize (offered sources)) second ≡ true
unfolding contains normalize list_same
second-offered = refl

build_candidates_full_example :
    (contains (build_candidates sources) second ≡ true)
    ⊎ (direct_cap sources ≤ length (build_candidates sources))
build_candidates_full_example = build_candidates_full sources second second-offered

abbrev key : Bytes
key = b'k' ∷ []

abbrev cache : EndpointCache
cache = record { version = 1; peers = [] }

empty-IsCache : IsCache cache
unfolding lookup
empty-IsCache k entry h = absurd (cc h)

record_good-IsCache_example : IsCache (record_good cache key first 100)
record_good-IsCache_example = record_good-IsCache cache key first 100 empty-IsCache

abbrev entry : PeerCacheEntry
entry = record {
  last_good = some first;
  seen = record { endpoint = first; last_seen_unix = 9 } ∷ [];
}
