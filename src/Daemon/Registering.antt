-- ===== src/Daemon/Registering.antt =====
-- The relay registrations of one peer, over any sequence of what its daemon does.
use hextet.Base.{
  ◌≡◌, ◌≤◌, ◌+◌, refl, sym, ap, ◌∙◌, subst, ℕ, suc, Bool, true, false, List, [], Option, none, some,
  is_empty, if◌then◌else◌, arith,
}
use hextet.Daemon.{
  PeerRuntime, RelayLink, Driven, Spawned, decide, carry_out, with_spawned, drive_link, drive_relay,
  with_link, relay_registered, take_session,
}
use hextet.Daemon.Balance.{registrations, flag, decide-IsBalanced}
use hextet.Daemon.Completing.{
  Keeps, KeepsHeard, in_flight, retries, carry_out-Keeps, take_session-Keeps, discover-Keeps,
}
use hextet.Daemon.Discovery.{discover}
use hextet.Endpoint.{Endpoint}
use hextet.Peer.Cache.{EndpointCache}
use hextet.Peer.Candidates.{Source}
use hextet.Peer.Fsm.{PeerFsm, Action}
use hextet.Peer.Fsm.Directed.{Event, apply, apply-Completes}
use hextet.Peer.Fsm.Steps.{IsFsm, Completes}
use hextet.RelayClient.{RelaySession}

-- The peer with the number of registration tasks that have not come back.
abbrev pub World : Type 0
World = PeerRuntime × ℕ

-- What happens to it, in any order: the loop drives the relay, a task comes back with a session or
-- without, a channel reports addresses, and the machine is ticked, kicked or given candidates.
pub data Happens : World → World → Type 0 where
  driven :
      {peer after : PeerRuntime} {n : ℕ} (cache : EndpointCache) (now wall : ℕ)
      {spawned : List Spawned} {actions : List Action}
      → drive_relay peer cache now wall ≡ some (after, spawned, actions)
      → Happens (peer, n) (after, registrations spawned + n)
  came_back :
      {peer after : PeerRuntime} {n : ℕ} (cache : EndpointCache) (done : Option RelaySession)
      (now wall : ℕ) {actions : List Action}
      → relay_registered peer cache done now wall ≡ some (after, actions)
      → Happens (peer, suc n) (after, n)
  reported :
      {peer after : PeerRuntime} {n : ℕ} (cache next : EndpointCache) (source : Source)
      (eps : List Endpoint) (wall : ℕ) {actions : List Action}
      → discover peer cache source eps wall ≡ some (after, next, actions)
      → Happens (peer, n) (after, n)
  stepped :
      {peer : PeerRuntime} {n : ℕ} (event : Event) {fsm : PeerFsm} {actions : List Action}
      → apply event peer.fsm ≡ some (fsm, actions)
      → Happens (peer, n) (record peer { fsm = fsm }, n)

pub data Run : World → World → Type 0 where
  stays : {w : World} → Run w w
  then_happens : {u v w : World} → Run u v → Happens v w → Run u w

pub record IsTracked (peer : PeerRuntime) (n : ℕ) : Type 0 where
  pub machine : IsFsm peer.fsm
  pub tasks : n ≡ in_flight peer.relay
  pub bounded : retries peer.relay ≤ 8

abbrev pub IsTrackedWorld : World → Type 0
IsTrackedWorld (peer, n) = IsTracked peer n

-- The result of `drive_relay`: no panic, and a tracked peer.
abbrev pub TracksDriven : ℕ → Option (PeerRuntime × List Spawned × List Action) → Type 0
TracksDriven n none = ⊥
TracksDriven n (some (after, spawned, actions)) = IsTracked after (registrations spawned + n)

with_spawned-Tracks :
    (relay : Option RelayLink) (spawned : List Spawned) (n : ℕ) (d : Driven)
    → Keeps relay d
    → registrations spawned + n ≡ in_flight relay
    → retries relay ≤ 8
    → TracksDriven n (with_spawned spawned d)
with_spawned-Tracks relay spawned n none k tasks h = absurd k
with_spawned-Tracks relay spawned n (some (after, actions)) k tasks h = record {
  machine = k.0;
  tasks = tasks ∙ ap in_flight (sym k.1);
  bounded = omega (arith, h, ap retries k.1);
}

drive_link-Tracks :
    (peer : PeerRuntime) (cache : EndpointCache) (now wall n : ℕ) (relay : Option RelayLink)
    → peer.relay ≡ relay
    → IsTracked peer n
    → TracksDriven n (drive_link peer cache now wall relay)
drive_link-Tracks peer cache now wall n none e t = record {
  machine = t.machine;
  tasks = omega (arith, t.tasks);
  bounded = t.bounded;
}
drive_link-Tracks peer cache now wall n (some link) e t = by_test (is_empty link.control)
  where
    by_test :
        (b : Bool)
        → TracksDriven n (
            if b
            then some (peer, [], [])
            else with_spawned (decide peer.fsm.state link now).spawned (
                carry_out
                  (with_link peer (decide peer.fsm.state link now).link)
                  cache
                  wall
                  (decide peer.fsm.state link now)))
    by_test true = record {
      machine = t.machine;
      tasks = omega (arith, t.tasks);
      bounded = t.bounded;
    }
    by_test false =
        let d = decide peer.fsm.state link now in
        let few : link.upgrade_retries ≤ 8 = omega (arith, t.bounded, ap retries e) in
        let balanced = decide-IsBalanced peer.fsm.state link now few in
        with_spawned-Tracks (some d.link) d.spawned n
          (carry_out (with_link peer d.link) cache wall d)
          (carry_out-Keeps (with_link peer d.link) cache wall d t.machine)
          (omega (arith, balanced.tasks, t.tasks, ap in_flight e)) balanced.bounded

-- Driving the relay of a tracked peer does not panic, and leaves it tracked.
pub drive_relay-Tracks :
    (peer : PeerRuntime) (cache : EndpointCache) (now wall n : ℕ)
    → IsTracked peer n
    → TracksDriven n (drive_relay peer cache now wall)
unfolding drive_relay
drive_relay-Tracks peer cache now wall n t =
    drive_link-Tracks peer cache now wall n peer.relay refl t

flag-le : (b : Bool) → flag b ≤ 1
flag-le true = omega arith
flag-le false = omega arith

registered-IsTracked :
    (peer : PeerRuntime) (cache : EndpointCache) (done : Option RelaySession) (now wall n : ℕ)
    {after : PeerRuntime} {actions : List Action}
    → relay_registered peer cache done now wall ≡ some (after, actions)
    → IsTracked peer (suc n)
    → IsTracked after n
unfolding relay_registered
registered-IsTracked peer cache done now wall n {after} {actions} h t = by_relay peer.relay refl h
  where
    by_relay :
        (relay : Option RelayLink)
        → peer.relay ≡ relay
        → (let result : Driven = elim relay [
          | none ↦ some (peer, [])
          | some link ↦ take_session peer cache link done now wall
        ] in
            result)
          ≡ some (after, actions)
        → IsTracked after n
    by_relay none e q = absurd (omega (arith, t.tasks, ap in_flight e))
    by_relay (some link) e q =
        let (relay, kept, landed, same) =
          take_session-Keeps peer cache link done now wall t.machine in
        let ends = subst (Keeps relay) q kept in
        let one : in_flight (some link) ≤ 1 = flag-le link.pending in
        record {
          machine = ends.0;
          tasks = omega (arith, t.tasks, ap in_flight e, one, landed, ap in_flight ends.1);
          bounded = omega (arith, t.bounded, ap retries e, same, ap retries ends.1);
        }

Happens-IsTracked : {u v : World} → Happens u v → IsTrackedWorld u → IsTrackedWorld v
Happens-IsTracked (driven {peer} {after} {n} cache now wall h) t =
    subst (TracksDriven n) h (drive_relay-Tracks peer cache now wall n t)
Happens-IsTracked (came_back {peer} {after} {n} cache done now wall h) t =
    registered-IsTracked peer cache done now wall n h t
Happens-IsTracked (reported {peer} {after} {n} cache next source eps wall h) t =
    let (relay, kept, tasks, fewer) = discover-Keeps peer cache source eps wall t.machine in
    let ends = subst (KeepsHeard relay) h kept in
    record {
      machine = ends.0;
      tasks = omega (arith, t.tasks, tasks, ap in_flight ends.1);
      bounded = omega (arith, t.bounded, fewer, ap retries ends.1);
    }
Happens-IsTracked (stepped {peer} {n} event h) t = record {
  machine = (subst Completes h (apply-Completes event peer.fsm t.machine)).0;
  tasks = t.tasks;
  bounded = t.bounded;
}

-- However its daemon's loop, its registration tasks, the rendezvous channels and its machine are
-- interleaved, a peer that starts with no registration on its way has at most one at any time, and
-- one exactly when its link says so; its machine stays well formed, and the retries of an upgrade
-- stay within eight.
pub Run-IsTracked :
    {start end : PeerRuntime} {n : ℕ}
    → IsTracked start 0
    → Run (start, 0) (end, n)
    → IsTracked end n × (n ≤ 1)
Run-IsTracked {start} {end} {n} t run =
    let tracked = by_run run t in (tracked, at_most end.relay n tracked.tasks)
  where
    by_run : {u v : World} → Run u v → IsTrackedWorld u → IsTrackedWorld v
    by_run stays t = t
    by_run (then_happens run happens) t = Happens-IsTracked happens (by_run run t)

    at_most : (relay : Option RelayLink) (n : ℕ) → n ≡ in_flight relay → n ≤ 1
    at_most none n e = omega (arith, e)
    at_most (some link) n e = omega (arith, e, flag-le link.pending)
