-- ===== src/Peer/Fsm/Punching.antt =====
-- crates/engine/src/peer_fsm.rs: the ticks that connect the machine or give a connection up.
use hextet.Base.{
  is_empty, ℕ, ◌<◌, ◌≤◌, ◌-◌, ◌+◌, ◌%◌, sym, ◌∙◌, subst, map, unique, ◌≡◌, refl, ◌⊎◌, ◌↔◌, inl, inr,
  arith, suc, Bool, true, false, List, [], ◌∷◌, length, get_elem?, contains, Option, none, some,
  ◌=?◌, ltb, ◌==◌, ◌&&◌, ◌||◌, Bool-cases, Option-cases, list_same, ap,
}
use hextet.Endpoint.{Endpoint, normalize, endpoint_equality}
use hextet.Peer.Fsm.{
  PeerFsm, PunchState, probing, connected, Observation, Action, Step, set_candidates, tick,
  tick_probing, tick_connected, rotate, is_proof, handshake_is_fresh, handshake_fresh, dedupe,
  point, is_previous, repoint, rotate_interval, since,
}
use hextet.Peer.Fsm.Steps.{IsFsm, machine, Completes, set_candidates-Completes}
use hextet.Peer.Fsm.Search.{unique_nil, get_elem?_in, dedupe-unique, dedupe-contains}

-- A handshake less than 180 seconds old, or in the future of a clock that was set back.
abbrev pub IsFresh : Option ℕ → ℕ → Type 0
IsFresh none now = ⊥
IsFresh (some t) now = now < t + handshake_fresh

pub handshake_is_fresh_iff :
    (h : Option ℕ) (now : ℕ) → (handshake_is_fresh h now ≡ true) ↔ IsFresh h now
unfolding handshake_is_fresh
handshake_is_fresh_iff none now = (λ e. absurd (cc e), λ e. absurd e)
handshake_is_fresh_iff (some t) now = ground arith

-- After the machine's last change of candidate.
abbrev pub IsAfter : Option ℕ → ℕ → Type 0
IsAfter none transition = ⊥
IsAfter (some t) transition = transition ≤ t

abbrev pub is_connected : PunchState → Bool
is_connected (probing i rounds) = false
is_connected (connected ep) = true

-- Whether the step left the machine connected.
abbrev pub connects : Step → Bool
connects none = false
connects (some (fsm, actions)) = is_connected fsm.state

since_iff : (h : Option ℕ) (t : ℕ) → (since h t ≡ true) ↔ IsAfter h t
since_iff none t = (λ e. absurd (cc e), λ e. absurd e)
since_iff (some h) t = ground arith

rotate-connects :
    (c : List Endpoint) (s : PunchState) (i rounds t r now : ℕ)
    → is_connected s ≡ false
    → connects (rotate (machine c s t r) i rounds now) ≡ false
unfolding rotate
rotate-connects [] s i rounds t r now p = p
rotate-connects (x ∷ xs) s i rounds t r now p = elim (Bool-cases (ltb (now - r) rotate_interval)) [
  | inl early ↦ rw early p
  | inr due ↦ rw due (elim (Bool-cases (suc i % suc (length xs) == i)) [
    | inl alone ↦ rw alone refl
    | inr turned ↦ rw turned (elim (Option-cases (get_elem? (x ∷ xs) (suc i % suc (length xs)))) [
      | inl missing ↦ rw missing refl
      | inr (ep, e) ↦ rw e refl
    ])
  ])
]

is_proof_iff :
    (c : List Endpoint) (s : PunchState) (t r now : ℕ) (obs : Observation)
    → (is_proof (machine c s t r) now obs ≡ true)
      ↔ (IsFresh obs.last_handshake now × (IsAfter obs.last_handshake t ⊎ (length c ≡ 1)))
unfolding handshake_is_fresh
is_proof_iff c s t r now obs = fresh_and obs.last_handshake
  where
    fresh_and :
        (h : Option ℕ)
        → ((handshake_is_fresh h now && (since h t || length c == 1)) ≡ true)
          ↔ (IsFresh h now × (IsAfter h t ⊎ (length c ≡ 1)))
    fresh_and none = (λ e. absurd (cc e), λ e. absurd e.0)
    fresh_and (some h) = ground arith

tick-connects-is_proof :
    (c : List Endpoint) (i rounds t r now : ℕ) (obs : Observation)
    → i < length c
    → connects (tick (machine c (probing i rounds) t r) now obs)
      ≡ is_proof (machine c (probing i rounds) t r) now obs
unfolding tick tick_probing
tick-connects-is_proof c i rounds t r now obs h =
    elim (Bool-cases (is_proof (machine c (probing i rounds) t r) now obs)) [
      | inr unproven ↦ rw unproven (rotate-connects c (probing i rounds) i rounds t r now refl)
      | inl proof ↦ rw proof (elim (Option-cases obs.kernel_endpoint) [
        | inr (ke, e) ↦ rw e refl
        | inl unknown ↦ rw (unknown, (get_elem?_in c i h).1) refl
      ])
    ]

-- A machine that is probing a candidate of its list is connected after a tick exactly when the
-- last handshake is fresh (less than 180 seconds old, or later than the clock) and is known to be
-- that candidate's: it is not before the last change of candidate, or there is only one
-- candidate.
pub tick-connects_iff :
    (c : List Endpoint) (i rounds t r now : ℕ) (obs : Observation)
    → i < length c
    → (connects (tick (machine c (probing i rounds) t r) now obs) ≡ true)
      ↔ (IsFresh obs.last_handshake now × (IsAfter obs.last_handshake t ⊎ (length c ≡ 1)))
tick-connects_iff c i rounds t r now obs h =
    let proof = is_proof_iff c (probing i rounds) t r now obs in
    let same = tick-connects-is_proof c i rounds t r now obs h in
    (λ e. proof.0 (sym same ∙ e), λ e. same ∙ proof.1 e)

roams :
    (c : List Endpoint) (ep : Endpoint) (t r now : ℕ) (obs : Observation)
    → handshake_is_fresh obs.last_handshake now ≡ true
    → is_connected (tick_connected (machine c (connected ep) t r) ep now obs).0.state ≡ true
unfolding tick_connected
roams c ep t r now obs fresh = rw fresh (elim (Option-cases obs.kernel_endpoint) [
  | inl unknown ↦ rw unknown refl
  | inr (ke, e) ↦ rw e (elim (Bool-cases (normalize ke =? ep)) [
    | inl same ↦ rw same refl
    | inr moved ↦ rw moved refl
  ])
])

loses :
    (c : List Endpoint) (ep : Endpoint) (t r now : ℕ) (obs : Observation)
    → handshake_is_fresh obs.last_handshake now ≡ false
    → is_connected (tick_connected (machine c (connected ep) t r) ep now obs).0.state ≡ false
unfolding tick_connected
loses [] ep t r now obs stale = rw stale refl
loses (x ∷ xs) ep t r now obs stale = rw stale refl

stays :
    (c : List Endpoint) (ep : Endpoint) (t r now : ℕ) (obs : Observation)
    → connects (tick (machine c (connected ep) t r) now obs)
      ≡ handshake_is_fresh obs.last_handshake now
unfolding tick
stays c ep t r now obs = elim (Bool-cases (handshake_is_fresh obs.last_handshake now)) [
  | inl fresh ↦ roams c ep t r now obs fresh ∙ sym fresh
  | inr stale ↦ loses c ep t r now obs stale ∙ sym stale
]

-- A connected machine is still connected after a tick exactly when the last handshake is fresh.
tick-connects_connected_iff :
    (c : List Endpoint) (ep : Endpoint) (t r now : ℕ) (obs : Observation)
    → (connects (tick (machine c (connected ep) t r) now obs) ≡ true)
      ↔ IsFresh obs.last_handshake now
tick-connects_connected_iff c ep t r now obs =
    let fresh = handshake_is_fresh_iff obs.last_handshake now in
    let same = stays c ep t r now obs in (λ e. fresh.0 (sym same ∙ e), λ e. same ∙ fresh.1 e)

-- The stored list.
abbrev MayStore : List Endpoint → Step → Type 0
MayStore next none = Unit {0}
MayStore next (some (fsm, actions)) = fsm.candidates ≡ next

repoint-MayStore :
    (c old : List Endpoint) (i rounds : ℕ) (previous : Option Endpoint) (t r now : ℕ)
    → MayStore c (repoint (machine c (probing i rounds) t r) old previous rounds now)
unfolding repoint
repoint-MayStore c old i rounds previous t r now =
    elim (Option-cases (get_elem? c (point old c previous))) [
      | inl missing ↦ rw missing tt
      | inr (ep, e) ↦ rw e (elim (Bool-cases (is_previous ep previous)) [
        | inl same ↦ rw same refl
        | inr moved ↦ rw moved refl
      ])
    ]

set_candidates-MayStore :
    (c : List Endpoint) (s : PunchState) (t r : ℕ) (eps : List Endpoint) (now : ℕ)
    → MayStore (dedupe [] eps) (set_candidates (machine c s t r) eps now)
unfolding set_candidates
set_candidates-MayStore c (connected ep) t r eps now =
    elim (Bool-cases (list_same c (dedupe [] eps))) [
      | inl same ↦ rw same refl
      | inr changed ↦ rw changed refl
    ]
set_candidates-MayStore c (probing i rounds) t r eps now =
    elim (Bool-cases (list_same c (dedupe [] eps))) [
      | inl same ↦ rw same refl
      | inr changed ↦ rw changed (elim (Bool-cases (is_empty (dedupe [] eps))) [
        | inl empty ↦ rw empty refl
        | inr full ↦ rw full (repoint-MayStore (dedupe [] eps) c i rounds (get_elem? c i) t r now)
      ])
    ]

-- On a well-formed machine `set_candidates` does not panic, and it stores exactly the given
-- endpoints, normalized and each once.
set_candidates-unique :
    (c : List Endpoint) (s : PunchState) (t r : ℕ) (eps : List Endpoint) (now : ℕ)
    → IsFsm (machine c s t r)
    → (fsm : PeerFsm) × (actions : List Action) × (set_candidates (machine c s t r) eps now
        ≡ some (fsm, actions))
      × (unique fsm.candidates ≡ true)
      × ((x : Endpoint) → contains fsm.candidates x ≡ contains (map normalize eps) x)
set_candidates-unique c s t r eps now f =
    elim (Option-cases (set_candidates (machine c s t r) eps now)) [
      | inl panics ↦ absurd (subst Completes panics (set_candidates-Completes c s t r eps now f))
      | inr (result, e) ↦
          let stored =
            subst (MayStore (dedupe [] eps)) e (set_candidates-MayStore c s t r eps now) in
          (
            result.0,
            result.1,
            e,
            ap unique stored ∙ dedupe-unique [] eps unique_nil,
            λ x. ap (λ l. contains l x) stored ∙ dedupe-contains [] eps x,
          )
    ]

-- On a connected machine `set_candidates` stores the list, keeps the state and both clocks, and
-- asks for nothing.
pub set_candidates_connected :
    (c : List Endpoint) (ep : Endpoint) (t r : ℕ) (eps : List Endpoint) (now : ℕ)
    → set_candidates (machine c (connected ep) t r) eps now
      ≡ some (machine (dedupe [] eps) (connected ep) t r, [])
unfolding set_candidates
set_candidates_connected c ep t r eps now = elim (Bool-cases (list_same c (dedupe [] eps))) [
  | inl same ↦ rw same refl
  | inr changed ↦ rw changed refl
]
