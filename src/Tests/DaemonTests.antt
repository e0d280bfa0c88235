-- ===== src/Tests/DaemonTests.antt =====
-- A peer whose candidates have been tried in vain, with a relay that answers.
use hextet.Base.{
  ◌≡◌, ◌≤◌, ◌*◌, ◌++◌, refl, ℕ, [], ◌∷◌, List, true, false, none, some, arith, contains, inl, inr,
  list_same,
}
use hextet.Crypto.{repeat_byte}
use hextet.Daemon.{
  PeerRuntime, RelayLink, register, drive_relay, decide, carry_out, relay_registered, relist,
  candidates_for, second,
}
use hextet.Daemon.Registering.{driven, came_back, stays, then_happens, IsTracked, Run-IsTracked}
use hextet.Daemon.Discovery.{discover, relayed_via_endpoint}
use hextet.Daemon.Staying.{Stays, discover-Stays}
use hextet.Endpoint.{Endpoint, endpoint, normalize}
use hextet.Peer.Cache.{EndpointCache}
use hextet.Peer.Candidates.{lan}
use hextet.Peer.Fsm.{
  Observation, probing, connected, set_endpoint, nudge, set_candidates, dedupe, repoint, point,
  position,
}
use hextet.Peer.Fsm.Steps.{machine}
use hextet.RelayClient.{RelaySession}

abbrev ip : ℕ → List ℕ
ip n = 0x20 ∷ 0x01 ∷ repeat_byte 13 0 ++ n ∷ []

abbrev direct : Endpoint
direct = endpoint (ip 1) 51820

abbrev link : RelayLink
link = record {
  control = endpoint (ip 7) 4196 ∷ [];
  session = none;
  pending = false;
  upgrade_pending = false;
  upgrade_retries = 0;
  last_register = none;
  retry_after = some (5 * second);
}

abbrev peer : PeerRuntime
peer = record {
  key_b64 = b'p' ∷ [];
  configured = direct ∷ [];
  discovered = [];
  relay = some link;
  fsm = machine (direct ∷ []) (probing 0 2) 0 0;
}

peer-IsTracked : IsTracked peer 0
unfolding normalize
peer-IsTracked = record {
  machine = record { normal = (refl, tt); pointed = inr refl };
  tasks = refl;
  bounded = omega arith;
}

abbrev cache : EndpointCache
cache = record { version = 1; peers = [] }

abbrev asked : PeerRuntime
asked = record peer { relay = some (record link { pending = true }) }

asks : drive_relay peer cache (9 * second) 0 ≡ some (asked, register ∷ [], [])
unfolding drive_relay decide carry_out
asks = refl

abbrev session : RelaySession
session = record { endpoint = endpoint (ip 7) 40000; control = endpoint (ip 7) 4196 }

abbrev relayed : PeerRuntime
relayed = record peer {
  relay = some (record link {
    session = some session;
    last_register = some (10 * second);
    retry_after = none;
  });
  fsm = machine (session.endpoint ∷ []) (probing 0 2) (10 * second) (10 * second);
}

answered :
    relay_registered asked cache (some session) (10 * second) (10 * second)
    ≡ some (relayed, set_endpoint session.endpoint ∷ nudge ∷ [])
unfolding relay_registered relist candidates_for set_candidates dedupe repoint point position
    contains list_same normalize
answered = refl

Run-IsTracked_example : IsTracked relayed 0 × (0 ≤ 1)
Run-IsTracked_example = Run-IsTracked peer-IsTracked (
    then_happens (then_happens stays (driven {n = 0} cache (9 * second) 0 asks))
      (came_back {n = 0} cache (some session) (10 * second) (10 * second) answered))

abbrev silent : Observation
silent = record { kernel_endpoint = none; last_handshake = none }

-- Two ticks for the one candidate.
abbrev ticks : List (ℕ × Observation)
ticks = (3 * second, silent) ∷ (6 * second, silent) ∷ []

abbrev settled : PeerRuntime
settled = record peer { fsm = machine (direct ∷ []) (connected direct) 0 0 }

discover-Stays_example :
    Stays direct cache (discover settled cache lan (endpoint (ip 2) 51820 ∷ []) 0)
unfolding relayed_via_endpoint normalize list_same
discover-Stays_example =
    discover-Stays settled cache lan (endpoint (ip 2) 51820 ∷ []) 0 direct refl refl (inl refl)
