-- ===== src/Peer/Fsm/Steps.antt =====
-- crates/engine/src/peer_fsm.rs: the machine's invariant, one operation at a time.
use hextet.Base.{
  is_empty, ℕ, ◌<◌, ◌≡◌, refl, ◌⊎◌, inl, inr, arith, suc, ◌%◌, Bool, true, false, not, List, [],
  ◌∷◌, length, get_elem?, contains, Option, none, some, All, if◌then◌else◌, ◌=?◌, ltb, ◌-◌, subst,
  ◌==◌, Bool-cases, Option-cases, list_same, list_same_iff,
}
use native.Mathlib.Nat.{mod-lt}
use hextet.Endpoint.{Endpoint, normalize, normalize_idempotent, endpoint_equality}
use hextet.Peer.Fsm.{
  PeerFsm, PunchState, probing, connected, Observation, Action, set_endpoint, rehandshake,
  mark_good, nudge, Step, new, kick, set_candidates, repoint, point, or_zero, is_previous, dedupe,
  position, retry_from_impl, tick_probing, tick_connected, rotate, rotate_interval, saturating_suc,
  current_candidate, is_proof, or_else, handshake_is_fresh,
}
use hextet.Peer.Fsm.Search.{
  IsNormal, get_elem?_in, position_found, All-get_elem?, map-IsNormal, dedupe-IsNormal,
}

-- The index is in the list, or 0 where the list is empty; a connected endpoint is normalized.
abbrev pub IsPointed : List Endpoint → PunchState → Type 0
IsPointed candidates (probing i rounds) = (i < length candidates) ⊎ (i ≡ 0)
IsPointed candidates (connected ep) = IsNormal ep

pub record IsFsm (fsm : PeerFsm) : Type 0 where
  pub normal : All IsNormal fsm.candidates
  pub pointed : IsPointed fsm.candidates fsm.state

-- What the actions ask for is what the machine after the step says: an endpoint is set (or the
-- session flushed onto it) only as the candidate now probed, followed by a nudge, and an endpoint is recorded as good
-- only when the machine is connected to it.
abbrev pub IsDirected : PeerFsm → List Action → Type 0
IsDirected fsm [] = Unit {0}
IsDirected fsm (nudge ∷ []) = Unit {0}
IsDirected fsm (set_endpoint ep ∷ nudge ∷ []) =
    (current_candidate fsm ≡ some ep) × (i : ℕ) × (rounds : ℕ) × (fsm.state ≡ probing i rounds)
IsDirected fsm (rehandshake ep ∷ nudge ∷ []) =
    (current_candidate fsm ≡ some ep) × (i : ℕ) × (rounds : ℕ) × (fsm.state ≡ probing i rounds)
IsDirected fsm (mark_good ep ∷ []) = fsm.state ≡ connected ep
IsDirected fsm _ = ⊥

abbrev pub IsSound : PeerFsm × List Action → Type 0
IsSound (fsm, actions) = IsFsm fsm × IsDirected fsm actions

-- The step gives a result, and a sound one.
abbrev pub Completes : Step → Type 0
Completes none = ⊥
Completes (some r) = IsSound r

pub new-IsFsm : (candidates : List Endpoint) (now : ℕ) → IsFsm (new candidates now)
unfolding new
new-IsFsm candidates now = record { normal = map-IsNormal candidates; pointed = inr refl }

abbrev pub machine : List Endpoint → PunchState → ℕ → ℕ → PeerFsm
machine c s t r = record { candidates = c; state = s; last_transition = t; last_rotate = r }

pub kick_at :
    (c : List Endpoint) (s : PunchState) (t r now : ℕ)
    → IsFsm (machine c s t r)
    → IsSound (kick (machine c s t r) now)
unfolding kick current_candidate
kick_at c (connected ep) t r now f = (record { normal = f.normal; pointed = f.pointed }, tt)
kick_at c (probing i rounds) t r now f = elim (Option-cases (get_elem? c i)) [
  | inl missing ↦ rw missing (record { normal = f.normal; pointed = f.pointed }, tt)
  | inr (ep, e) ↦ rw e (record { normal = f.normal; pointed = f.pointed }, (e, i, rounds, refl))
]

pub rotate-Completes :
    (c : List Endpoint) (i rounds t r now : ℕ)
    → IsFsm (machine c (probing i rounds) t r)
    → Completes (rotate (machine c (probing i rounds) t r) i rounds now)
unfolding rotate current_candidate
rotate-Completes [] i rounds t r now f = (f, tt)
rotate-Completes (x ∷ xs) i rounds t r now f =
    let next = suc i % suc (length xs) in
    let small : next < suc (length xs) = mod-lt (suc i) (omega arith) in
    elim (Bool-cases (ltb (now - r) rotate_interval)) [
      | inl early ↦ rw early (f, tt)
      | inr due ↦ rw due (elim (Bool-cases (next == i)) [
        | inl alone ↦ rw alone (record { normal = f.normal; pointed = inl small }, tt)
        | inr turned ↦
            let found = get_elem?_in (x ∷ xs) next small in
            rw (turned, found.1)
              (
                record { normal = f.normal; pointed = inl small },
                (found.1, next, if next == 0 then saturating_suc rounds else rounds, refl),
              )
      ])
    ]

-- The endpoint that a proof of connection names is normalized.
proven :
    (c : List Endpoint) (i : ℕ) (kernel : Option Endpoint) (ep : Endpoint)
    → All IsNormal c
    → or_else (elim kernel [ none ↦ none | some ke ↦ some (normalize ke) ]) (get_elem? c i)
      ≡ some ep
    → IsNormal ep
proven c i none ep n h = All-get_elem? IsNormal c i ep n h
proven c i (some ke) ep n h = subst IsNormal (ground (arith, h)) (normalize_idempotent ke)

pub tick_probing-Completes :
    (c : List Endpoint) (i rounds t r now : ℕ) (obs : Observation)
    → IsFsm (machine c (probing i rounds) t r)
    → Completes (tick_probing (machine c (probing i rounds) t r) i rounds now obs)
unfolding tick_probing
tick_probing-Completes c i rounds t r now obs f =
    elim (Bool-cases (is_proof (machine c (probing i rounds) t r) now obs)) [
      | inr unproven ↦ rw unproven (rotate-Completes c i rounds t r now f)
      | inl proof ↦
          rw proof
            (elim (Option-cases (
              or_else (elim obs.kernel_endpoint [ none ↦ none | some ke ↦ some (normalize ke) ])
                (get_elem? c i))) [
                  | inl unknown ↦ rw unknown (f, tt)
                  | inr (ep, e) ↦ rw e (
                    record {
                      normal = f.normal;
                      pointed = proven c i obs.kernel_endpoint ep f.normal e;
                    },
                    refl,
                  )
                ])
    ]

tick_connected-IsSound_stale :
    (c : List Endpoint) (ep : Endpoint) (t r now : ℕ) (obs : Observation)
    → All IsNormal c
    → handshake_is_fresh obs.last_handshake now ≡ false
    → IsSound (tick_connected (machine c (connected ep) t r) ep now obs)
unfolding tick_connected current_candidate
tick_connected-IsSound_stale [] ep t r now obs n stale =
    rw stale (record { normal = tt; pointed = inr refl }, tt)
tick_connected-IsSound_stale (x ∷ xs) ep t r now obs n stale =
    rw stale (record { normal = n; pointed = inr refl }, (refl, 0, 0, refl))

pub tick_connected-IsSound :
    (c : List Endpoint) (ep : Endpoint) (t r now : ℕ) (obs : Observation)
    → IsFsm (machine c (connected ep) t r)
    → IsSound (tick_connected (machine c (connected ep) t r) ep now obs)
unfolding tick_connected
tick_connected-IsSound c ep t r now obs f =
    elim (Bool-cases (handshake_is_fresh obs.last_handshake now)) [
      | inr stale ↦ tick_connected-IsSound_stale c ep t r now obs f.normal stale
      | inl fresh ↦ rw fresh (elim (Option-cases obs.kernel_endpoint) [
        | inl unknown ↦ rw unknown (f, tt)
        | inr (ke, e) ↦ rw e (elim (Bool-cases (normalize ke =? ep)) [
          | inl same ↦ rw same (f, tt)
          | inr moved ↦
              rw moved (record { normal = f.normal; pointed = normalize_idempotent ke }, refl)
        ])
      ])
    ]

flushed :
    (fsm : PeerFsm) (flush : Bool) (ep : Endpoint)
    → (current_candidate fsm ≡ some ep) × (i : ℕ) × (rounds : ℕ) × (fsm.state ≡ probing i rounds)
    → IsDirected fsm ((if flush then rehandshake ep else set_endpoint ep) ∷ nudge ∷ [])
flushed fsm true ep h = h
flushed fsm false ep h = h

pub retry-Completes :
    (c : List Endpoint) (s : PunchState) (t r : ℕ) (avoid : Option Endpoint) (now : ℕ)
    (flush : Bool)
    → IsFsm (machine c s t r)
    → Completes (retry_from_impl (machine c s t r) avoid now flush)
unfolding retry_from_impl current_candidate position
retry-Completes c (probing i rounds) t r avoid now flush f = (f, tt)
retry-Completes c (connected ep) t r avoid now flush f =
    let other : Endpoint → Bool =
      λ x. elim avoid [ none ↦ true | some a ↦ not (x =? normalize a) ] in
    elim (Option-cases (position other c)) [
      | inl absent ↦ rw absent (f, tt)
      | inr (i, e) ↦
          let found = position_found other c i e in
          rw (e, found.2)
            (
              record { normal = f.normal; pointed = inl found.0 },
              flushed (machine c (probing i 0) now now) flush found.1 (found.2, i, 0, refl),
            )
    ]

-- `point` stays in the list.
pub point-lt :
    (old next : List Endpoint) (previous : Option Endpoint)
    → is_empty next ≡ false
    → point old next previous < length next
unfolding point
point-lt old next previous full =
    elim (Option-cases (position (λ ep. not (contains old ep)) next)) [
      | inr (i, e) ↦ rw (e, point) (position_found (λ ep. not (contains old ep)) next i e).0
      | inl none_new ↦ rw (none_new, point) (followed next previous full)
    ]
  where
    not_empty : (xs : List Endpoint) → is_empty xs ≡ false → 0 < length xs
    not_empty [] h = absurd (cc h)
    not_empty (x ∷ xs) h = omega arith

    followed :
        (xs : List Endpoint) (p : Option Endpoint)
        → is_empty xs ≡ false
        → elim p [ none ↦ 0 | some ep ↦ or_zero (position (λ c. c =? ep) xs) ] < length xs
    followed xs none h = not_empty xs h
    followed xs (some ep) h = elim (Option-cases (position (λ c. c =? ep) xs)) [
      | inl absent ↦ rw absent (not_empty xs h)
      | inr (i, e) ↦ rw e (position_found (λ c. c =? ep) xs i e).0
    ]

repoint-Completes :
    (c old : List Endpoint) (s : PunchState) (previous : Option Endpoint) (t r rounds now : ℕ)
    → All IsNormal c
    → is_empty c ≡ false
    → Completes (repoint (machine c s t r) old previous rounds now)
unfolding repoint current_candidate
repoint-Completes c old s previous t r rounds now n full =
    let index = point old c previous in
    let small = point-lt old c previous full in
    let found = get_elem?_in c index small in
    rw found.1 (elim (Bool-cases (is_previous found.0 previous)) [
      | inl same ↦ rw same (record { normal = n; pointed = inl small }, tt)
      | inr moved ↦
          rw moved (record { normal = n; pointed = inl small }, (found.1, index, rounds, refl))
    ])

pub set_candidates-Completes :
    (c : List Endpoint) (s : PunchState) (t r : ℕ) (eps : List Endpoint) (now : ℕ)
    → IsFsm (machine c s t r)
    → Completes (set_candidates (machine c s t r) eps now)
unfolding set_candidates
set_candidates-Completes c (connected ep) t r eps now f =
    let n = dedupe-IsNormal [] eps tt in
    elim (Bool-cases (list_same c (dedupe [] eps))) [
      | inl same ↦ rw same (record { normal = n; pointed = f.pointed }, tt)
      | inr changed ↦ rw changed (record { normal = n; pointed = f.pointed }, tt)
    ]
set_candidates-Completes c (probing i rounds) t r eps now f =
    let n = dedupe-IsNormal [] eps tt in
    elim (Bool-cases (list_same c (dedupe [] eps))) [
      | inl same ↦ rw same (
        record {
          normal = n;
          pointed =
              subst (λ d. IsPointed d (probing i rounds)) ((list_same_iff c (dedupe [] eps)).0 same)
                f.pointed;
        },
        tt,
      )
      | inr changed ↦ rw changed (elim (Bool-cases (is_empty (dedupe [] eps))) [
        | inl empty ↦ rw empty (record { normal = n; pointed = inr refl }, tt)
        | inr full ↦ rw full (
            repoint-Completes (dedupe [] eps) c (probing i rounds) (get_elem? c i) t r rounds now n
              full)
      ])
    ]
