-- ===== src/Daemon/LastResort.antt =====
-- A relay is asked for a first session only as a last resort.
use hextet.Base.{◌≡◌, ◌≤◌, ◌+◌, ◌*◌, ◌⊎◌, ℕ, false, List, Option, none, some, is_empty}
use hextet.Daemon.{PeerRuntime, RelayLink, Spawned, is_cooling, drive_relay}
use hextet.Daemon.Balance.{registrations}
use hextet.Endpoint.{Endpoint}
use hextet.Peer.Cache.{EndpointCache}
use hextet.Peer.Fsm.{PeerFsm, Action}
use hextet.Peer.Fsm.Directed.{Trace}

-- How far `k` turns have come: in the first round, in the second, or beyond.
abbrev IsCount : ℕ → ℕ → ℕ → ℕ → Type 0
IsCount n i rounds k =
    ((rounds ≡ 0) × (i ≡ k)) ⊎ ((rounds ≡ 1) × (n + i ≡ k)) ⊎ ((2 ≤ rounds) × (2 * n ≤ k))

-- How many registrations the loop starts, when it drives the relay of a peer.
abbrev pub asked : Option (PeerRuntime × List Spawned × List Action) → ℕ
asked none = 0
asked (some (after, spawned, actions)) = registrations spawned

-- A link on which nothing is going on.
pub record IsIdle (link : RelayLink) (now : ℕ) : Type 0 where
  pub no_session : link.session ≡ none
  pub steady : link.upgrade_pending ≡ false
  pub none_pending : link.pending ≡ false
  pub no_cooldown : is_cooling link.retry_after now ≡ false
  pub has_relay : is_empty link.control ≡ false

-- What driving the relay starts after a run of the peer's machine; the run does not panic.
abbrev pub AsksAfter : PeerRuntime → EndpointCache → ℕ → ℕ → ℕ → Option (PeerFsm × Trace) → Type 0
AsksAfter peer cache now wall n none = ⊥
AsksAfter peer cache now wall n (some (fsm, trace)) =
    asked (drive_relay (record peer { fsm = fsm }) cache now wall) ≡ n
