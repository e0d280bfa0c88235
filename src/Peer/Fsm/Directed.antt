-- ===== src/Peer/Fsm/Directed.antt =====
-- crates/engine/src/fsm.rs: runs of the machine, any operations in any order.
use hextet.Base.{
  ℕ, ◌≡◌, refl, List, [], ◌∷◌, Option, none, some, Bool, Option-cases, subst, inl, inr,
}
use hextet.Endpoint.{Endpoint}
use hextet.Peer.Fsm.{
  PeerFsm, PunchState, probing, connected, Observation, Action, Step, new, kick, set_candidates,
  retry_from_impl, tick,
}
use hextet.Peer.Fsm.Steps.{
  IsFsm, IsSound, Completes, machine, new-IsFsm, kick_at, set_candidates-Completes, retry-Completes,
  tick_probing-Completes, tick_connected-IsSound,
}

-- The calls that the daemon makes of one machine.
pub data Event : Type 0 where
  kicked : ℕ → Event
  listed : List Endpoint → ℕ → Event
  retried : Option Endpoint → ℕ → Bool → Event
  ticked : ℕ → Observation → Event

unfoldable pub apply : Event → PeerFsm → Step
apply (kicked now) fsm = some (kick fsm now)
apply (listed eps now) fsm = set_candidates fsm eps now
apply (retried avoid now flush) fsm = retry_from_impl fsm avoid now flush
apply (ticked now obs) fsm = tick fsm now obs

-- The machine after a run, and every action that the run asked for, with the machine that did.
abbrev pub Trace : Type 0
Trace = List (PeerFsm × List Action)

unfoldable pub run : PeerFsm → List Event → Option (PeerFsm × Trace)
unfolding apply
run fsm [] = some (fsm, [])
run fsm (event ∷ events) = elim (apply event fsm) [
  | none ↦ none
  | some r ↦ elim (run r.0 events) [ none ↦ none | some (last, trace) ↦ some (last, r ∷ trace) ]
]

abbrev pub AllSound : Trace → Type 0
AllSound [] = Unit {0}
AllSound (r ∷ trace) = IsSound r × AllSound trace

tick-Completes :
    (c : List Endpoint) (s : PunchState) (t r now : ℕ) (obs : Observation)
    → IsFsm (machine c s t r)
    → Completes (tick (machine c s t r) now obs)
unfolding tick
tick-Completes c (probing i rounds) t r now obs f = tick_probing-Completes c i rounds t r now obs f
tick-Completes c (connected ep) t r now obs f = tick_connected-IsSound c ep t r now obs f

pub apply-Completes : (event : Event) (fsm : PeerFsm) → IsFsm fsm → Completes (apply event fsm)
unfolding apply
apply-Completes (kicked now) fsm f =
    kick_at fsm.candidates fsm.state fsm.last_transition fsm.last_rotate now f
apply-Completes (listed eps now) fsm f =
    set_candidates-Completes fsm.candidates fsm.state fsm.last_transition fsm.last_rotate eps now f
apply-Completes (retried avoid now flush) fsm f =
    retry-Completes fsm.candidates fsm.state fsm.last_transition fsm.last_rotate avoid now flush f
apply-Completes (ticked now obs) fsm f =
    tick-Completes fsm.candidates fsm.state fsm.last_transition fsm.last_rotate now obs f

pub run_step :
    (fsm : PeerFsm) (event : Event) (events : List Event) (r : PeerFsm × List Action)
    (last : PeerFsm) (trace : Trace)
    → apply event fsm ≡ some r
    → run r.0 events ≡ some (last, trace)
    → run fsm (event ∷ events) ≡ some (last, r ∷ trace)
unfolding run
run_step fsm event events r last trace e h = rw (e, run) (rw h refl)

run_from :
    (fsm : PeerFsm) (events : List Event)
    → IsFsm fsm
    → (last : PeerFsm) × (trace : Trace) × (run fsm events ≡ some (last, trace))
      × IsFsm last
      × AllSound trace
unfolding run
run_from fsm [] f = (fsm, [], refl, f, tt)
run_from fsm (event ∷ events) f = elim (Option-cases (apply event fsm)) [
  | inl panics ↦ absurd (subst Completes panics (apply-Completes event fsm f))
  | inr (r, e) ↦
      let sound = subst Completes e (apply-Completes event fsm f) in
      let rest = run_from r.0 events sound.0 in
      (
        rest.0,
        r ∷ rest.1,
        run_step fsm event events r rest.0 rest.1 e rest.2,
        rest.3,
        (sound, rest.4),
      )
]

-- Whatever operations are applied to a new machine, in whatever order and at whatever times, no
-- index panics, the machine stays well formed, and every action of the run is sound: an endpoint
-- is set, or the session flushed onto it, only when it is the candidate that the machine then
-- probes, with a nudge after it, and one is recorded as good only when the machine is then
-- connected to it.
pub run-IsSound :
    (candidates : List Endpoint) (now : ℕ) (events : List Event)
    → (last : PeerFsm) × (trace : Trace) × (run (new candidates now) events ≡ some (last, trace))
      × IsFsm last
      × AllSound trace
run-IsSound candidates now events = run_from (new candidates now) events (new-IsFsm candidates now)
