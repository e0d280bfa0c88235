-- ===== src/Daemon/Completing.antt =====
-- The handlers never panic and keep the machine well formed.
use hextet.Base.{
  ◌≡◌, refl, ap, subst, ℕ, ◌≤◌, Bool, true, false, List, [], Option, none, some, if◌then◌else◌,
  arith,
}
use hextet.Daemon.{
  PeerRuntime, RelayLink, Driven, Decision, with_fsm, relist, then_retry, without_actions,
  carry_out, with_link, candidates_for, take_session, then_leave, stranded_at, is_session,
}
use hextet.Daemon.Discovery.{Heard, with_cache, follow, react, discover, replaced, upgrading}
use hextet.Endpoint.{Endpoint}
use hextet.Peer.Cache.{EndpointCache}
use hextet.Peer.Candidates.{Source}
use hextet.Peer.Fsm.{PunchState, probing, connected, Action, Step, set_candidates, retry_from_impl}
use hextet.Peer.Fsm.Steps.{IsFsm, Completes, set_candidates-Completes, retry-Completes}
use hextet.RelayClient.{RelaySession}

-- A handler's result, well formed and with the peer's relay link as given.
abbrev pub Keeps : Option RelayLink → Driven → Type 0
Keeps relay none = ⊥
Keeps relay (some (peer, actions)) = IsFsm peer.fsm × (peer.relay ≡ relay)

with_fsm-Keeps :
    (peer : PeerRuntime) (before : List Action) (s : Step)
    → Completes s
    → Keeps peer.relay (with_fsm peer before s)
with_fsm-Keeps peer before none c = c
with_fsm-Keeps peer before (some (fsm, actions)) c = (c.0, refl)

pub relist-Keeps :
    (peer : PeerRuntime) (cache : EndpointCache) (wall : ℕ)
    → IsFsm peer.fsm
    → Keeps peer.relay (relist peer cache wall)
unfolding relist
relist-Keeps peer cache wall f =
    with_fsm-Keeps peer [] (set_candidates peer.fsm (candidates_for peer cache) wall) (
      set_candidates-Completes peer.fsm.candidates peer.fsm.state peer.fsm.last_transition
        peer.fsm.last_rotate (candidates_for peer cache) wall f)

pub then_retry-Keeps :
    (relay : Option RelayLink) (avoid : Endpoint) (wall : ℕ) (flush : Bool) (d : Driven)
    → Keeps relay d
    → Keeps relay (then_retry avoid wall flush d)
then_retry-Keeps relay avoid wall flush none k = k
then_retry-Keeps relay avoid wall flush (some (peer, actions)) k =
    subst (λ r. Keeps r (then_retry avoid wall flush (some (peer, actions)))) k.1
      (with_fsm-Keeps peer actions (retry_from_impl peer.fsm (some avoid) wall flush) (
        retry-Completes peer.fsm.candidates peer.fsm.state peer.fsm.last_transition
          peer.fsm.last_rotate (some avoid) wall flush k.0))

without_actions-Keeps :
    (relay : Option RelayLink) (d : Driven) → Keeps relay d → Keeps relay (without_actions d)
without_actions-Keeps relay none k = k
without_actions-Keeps relay (some (peer, actions)) k = k

pub carry_out-Keeps :
    (peer : PeerRuntime) (cache : EndpointCache) (wall : ℕ) (d : Decision)
    → IsFsm peer.fsm
    → Keeps peer.relay (carry_out peer cache wall d)
unfolding carry_out
carry_out-Keeps peer cache wall d f = by_decision d.retry_avoid d.recompute
  where
    listed : Keeps peer.relay (without_actions (relist peer cache wall))
    listed =
        without_actions-Keeps peer.relay (relist peer cache wall) (relist-Keeps peer cache wall f)

    by_decision :
        (o : Option Endpoint) (b : Bool)
        → Keeps peer.relay (elim o [
          | some avoid ↦ then_retry avoid wall true (without_actions (relist peer cache wall))
          | none ↦ if b then without_actions (relist peer cache wall) else some (peer, [])
        ])
    by_decision (some avoid) b =
        then_retry-Keeps peer.relay avoid wall true (without_actions (relist peer cache wall))
          listed
    by_decision none true = listed
    by_decision none false = (f, refl)

then_leave-Keeps :
    (relay : Option RelayLink) (previous : Option RelaySession) (wall : ℕ) (d : Driven)
    → Keeps relay d
    → Keeps relay (then_leave previous wall d)
then_leave-Keeps relay previous wall none k = k
then_leave-Keeps relay previous wall (some (peer, actions)) k =
    by_case (stranded_at previous peer.fsm.state)
  where
    by_case :
        (o : Option Endpoint)
        → Keeps relay (elim o [
          | none ↦ some (peer, actions)
          | some ep ↦ then_retry ep wall false (some (peer, actions))
        ])
    by_case none = k
    by_case (some ep) = then_retry-Keeps relay ep wall false (some (peer, actions)) k

-- How many registrations a link says are on their way, and how often it has retried.
abbrev pub in_flight : Option RelayLink → ℕ
in_flight none = 0
in_flight (some link) = if link.pending then 1 else 0

abbrev pub retries : Option RelayLink → ℕ
retries none = 0
retries (some link) = link.upgrade_retries

-- A registration that came back is no longer on its way.
pub take_session-Keeps :
    (peer : PeerRuntime) (cache : EndpointCache) (link : RelayLink) (done : Option RelaySession)
    (now wall : ℕ)
    → IsFsm peer.fsm
    → (relay : Option RelayLink) × Keeps relay (take_session peer cache link done now wall)
      × (in_flight relay ≡ 0)
      × (retries relay ≡ link.upgrade_retries)
take_session-Keeps peer cache link none now wall f = (_, (f, refl), refl, refl)
take_session-Keeps peer cache link (some session) now wall f =
    by_test (is_session session link.session)
  where
    by_test :
        (b : Bool)
        → (relay : Option RelayLink) × Keeps relay (
            if b
            then some (
              with_link peer
                  (record link { pending = false; last_register = some now; retry_after = none }),
              [],
            )
            else then_leave link.session wall (
                relist
                  (with_link peer (record {
                    control = link.control;
                    session = some session;
                    pending = false;
                    upgrade_pending = link.upgrade_pending;
                    upgrade_retries = link.upgrade_retries;
                    last_register = some now;
                    retry_after = none;
                  }))
                  cache
                  wall))
          × (in_flight relay ≡ 0)
          × (retries relay ≡ link.upgrade_retries)
    by_test true = (_, (f, refl), refl, refl)
    by_test false = (
      _,
      then_leave-Keeps _ link.session wall _ (relist-Keeps (with_link peer _) cache wall f),
      refl,
      refl,
    )

abbrev pub KeepsHeard : Option RelayLink → Heard → Type 0
KeepsHeard relay none = ⊥
KeepsHeard relay (some (peer, cache, actions)) = IsFsm peer.fsm × (peer.relay ≡ relay)

with_cache-Keeps :
    (relay : Option RelayLink) (cache : EndpointCache) (d : Driven)
    → Keeps relay d
    → KeepsHeard relay (with_cache cache d)
with_cache-Keeps relay cache none k = k
with_cache-Keeps relay cache (some (peer, actions)) k = k

follow-Keeps :
    (peer : PeerRuntime) (cache : EndpointCache) (wall : ℕ) (state : PunchState)
    → IsFsm peer.fsm
    → KeepsHeard peer.relay (follow peer cache wall state)
follow-Keeps peer cache wall (probing i rounds) f =
    with_cache-Keeps peer.relay cache (relist peer cache wall) (relist-Keeps peer cache wall f)
follow-Keeps peer cache wall (connected endpoint) f = by_test _ _
  where
    by_test :
        (kept : EndpointCache) (b : Bool)
        → KeepsHeard peer.relay (
            if b
            then with_cache kept (then_retry endpoint wall false (relist peer kept wall))
            else with_cache kept (relist peer kept wall))
    by_test kept true =
        with_cache-Keeps peer.relay kept (then_retry endpoint wall false (relist peer kept wall)) (
          then_retry-Keeps peer.relay endpoint wall false (relist peer kept wall)
            (relist-Keeps peer kept wall f))
    by_test kept false =
        with_cache-Keeps peer.relay kept (relist peer kept wall) (relist-Keeps peer kept wall f)

react-Keeps :
    (peer : PeerRuntime) (cache : EndpointCache) (wall : ℕ) (via : Option Endpoint)
    (relay : Option RelayLink)
    → peer.relay ≡ relay
    → IsFsm peer.fsm
    → (after : Option RelayLink) × KeepsHeard after (react peer cache wall via relay)
      × (in_flight after ≡ in_flight relay)
      × (retries after ≤ retries relay)
react-Keeps peer cache wall (some ep) (some link) e f = (
  _,
  with_cache-Keeps _ cache _ (
      then_retry-Keeps _ ep wall true _
        (relist-Keeps (with_link peer (upgrading link)) cache wall f)),
  refl,
  omega arith,
)
react-Keeps peer cache wall (some ep) none e f =
    (_, follow-Keeps peer cache wall peer.fsm.state f, ap in_flight e, omega (arith, ap retries e))
react-Keeps peer cache wall none relay e f =
    (_, follow-Keeps peer cache wall peer.fsm.state f, ap in_flight e, omega (arith, ap retries e))

pub discover-Keeps :
    (peer : PeerRuntime) (cache : EndpointCache) (source : Source) (eps : List Endpoint) (wall : ℕ)
    → IsFsm peer.fsm
    → (after : Option RelayLink) × KeepsHeard after (discover peer cache source eps wall)
      × (in_flight after ≡ in_flight peer.relay)
      × (retries after ≤ retries peer.relay)
unfolding discover
discover-Keeps peer cache source eps wall f =
    react-Keeps (record peer { discovered = replaced source eps peer.discovered }) cache wall _
      peer.relay refl f
