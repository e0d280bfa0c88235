-- ===== src/Peer/Fsm.antt =====
-- crates/engine/src/fsm.rs: `PeerFsm`. A time is a number of nanoseconds; an operation returns
-- the machine after it and the actions asked for, or `none` where an index would panic.
pub mod Search
pub mod Steps
pub mod Directed
pub mod Punching
pub mod Rotation
use hextet.Base.{
  is_empty, ℕ, ◌+◌, ◌-◌, ◌*◌, ◌%◌, ◌^◌, min, suc, Bool, true, false, not, ◌&&◌, ◌||◌, List, [], ◌∷◌,
  ◌++◌, map, length, contains, get_elem?, ltb, leb, ◌==◌, ◌=?◌, if◌then◌else◌, Option, none, some,
  list_same,
}
use hextet.Endpoint.{Endpoint, normalize, endpoint_equality}

abbrev pub rotate_interval : ℕ
rotate_interval = 2500000000

abbrev pub handshake_fresh : ℕ
handshake_fresh = 180000000000

pub data PunchState : Type 0 where
  probing : ℕ → ℕ → PunchState
  connected : Endpoint → PunchState

pub record Observation : Type 0 where
  pub last_handshake : Option ℕ
  pub kernel_endpoint : Option Endpoint

pub data Action : Type 0 where
  set_endpoint rehandshake mark_good : Endpoint → Action
  nudge : Action

pub record PeerFsm : Type 0 where
  pub candidates : List Endpoint
  pub state : PunchState
  pub last_transition : ℕ
  pub last_rotate : ℕ

abbrev pub Step : Type 0
Step = Option (PeerFsm × List Action)

-- A time after `now` (the clock was set back) counts as fresh.
unfoldable pub handshake_is_fresh : Option ℕ → ℕ → Bool
handshake_is_fresh none now = false
handshake_is_fresh (some t) now = if ltb now t then true else ltb (now - t) handshake_fresh

unfoldable pub new : List Endpoint → ℕ → PeerFsm
new candidates now = record {
  candidates = map normalize candidates;
  state = probing 0 0;
  last_transition = now;
  last_rotate = now;
}

unfoldable pub current_candidate : PeerFsm → Option Endpoint
current_candidate fsm = elim fsm.state [
  | connected endpoint ↦ some endpoint
  | probing candidate_index rounds ↦ get_elem? fsm.candidates candidate_index
]

unfoldable pub kick : PeerFsm → ℕ → PeerFsm × List Action
kick fsm now =
    let next : PeerFsm = record {
      candidates = fsm.candidates;
      state = fsm.state;
      last_transition = fsm.last_transition;
      last_rotate = now;
    } in
    elim fsm.state [
      | connected endpoint ↦ (next, nudge ∷ [])
      | probing candidate_index rounds ↦ elim (get_elem? fsm.candidates candidate_index) [
        | some ep ↦ (next, set_endpoint ep ∷ nudge ∷ [])
        | none ↦ (next, [])
      ]
    ]

-- `iter().position`.
unfoldable pub position : (Endpoint → Bool) → List Endpoint → Option ℕ
position p [] = none
position p (x ∷ xs) =
    let rest = position p xs in
    if p x then some 0 else elim rest [ none ↦ none | some i ↦ some (suc i) ]

-- The loop that normalizes and removes duplicates; `next` is the list so far.
unfoldable pub dedupe : List Endpoint → List Endpoint → List Endpoint
dedupe next [] = next
dedupe next (candidate ∷ rest) =
    let ep = normalize candidate in
    dedupe (if not (contains next ep) then next ++ ep ∷ [] else next) rest

abbrev pub or_zero : Option ℕ → ℕ
or_zero none = 0
or_zero (some i) = i

-- Where the machine points in the new list: at the first endpoint that the old one lacked, else
-- at the endpoint it pointed at, else at the first.
unfoldable pub point : List Endpoint → List Endpoint → Option Endpoint → ℕ
unfolding position contains
point old next previous = elim (position (λ ep. not (contains old ep)) next) [
  | some fresh ↦ fresh
  | none ↦ elim previous [ none ↦ 0 | some ep ↦ or_zero (position (λ c. c =? ep) next) ]
]

abbrev pub is_previous : Endpoint → Option Endpoint → Bool
is_previous ep none = false
is_previous ep (some p) = ep =? p

-- The part of `set_candidates` for a machine that is probing: `old` and `previous` are the list
-- before and the endpoint it pointed at.
unfoldable pub repoint : PeerFsm → List Endpoint → Option Endpoint → ℕ → ℕ → Step
unfolding point
repoint fsm old previous rounds now =
    let index = point old fsm.candidates previous in
    elim (get_elem? fsm.candidates index) [
      | none ↦ none
      | some pointed ↦
          if is_previous pointed previous
          then some (
            record {
              candidates = fsm.candidates;
              state = probing index rounds;
              last_transition = fsm.last_transition;
              last_rotate = fsm.last_rotate;
            },
            [],
          )
          else some (
            record {
              candidates = fsm.candidates;
              state = probing index rounds;
              last_transition = now;
              last_rotate = now;
            },
            set_endpoint pointed ∷ nudge ∷ [],
          )
    ]

abbrev pub with_list : PeerFsm → List Endpoint → PunchState → PeerFsm
with_list fsm next state = record {
  candidates = next;
  state = state;
  last_transition = fsm.last_transition;
  last_rotate = fsm.last_rotate;
}

unfoldable pub set_candidates : PeerFsm → List Endpoint → ℕ → Step
unfolding dedupe repoint
set_candidates fsm candidates now =
    let next = dedupe [] candidates in
    if list_same fsm.candidates next
    then some (with_list fsm next fsm.state, [])
    else elim fsm.state [
      | connected endpoint ↦ some (with_list fsm next fsm.state, [])
      | probing candidate_index rounds ↦
          if is_empty next
          then some (with_list fsm next (probing 0 0), [])
          else repoint (with_list fsm next fsm.state) fsm.candidates
              (get_elem? fsm.candidates candidate_index) rounds now
    ]

unfoldable pub retry_from_impl : PeerFsm → Option Endpoint → ℕ → Bool → Step
retry_from_impl fsm avoid now flush = elim fsm.state [
  | probing _ _ ↦ some (fsm, [])
  | connected _ ↦
      elim (position (λ c. elim avoid [ none ↦ true | some a ↦ not (c =? normalize a) ])
        fsm.candidates) [
          | none ↦ some (fsm, [])
          | some index ↦ elim (get_elem? fsm.candidates index) [
            | none ↦ none
            | some target ↦ some (
              record {
                candidates = fsm.candidates;
                state = probing index 0;
                last_transition = now;
                last_rotate = now;
              },
              (if flush then rehandshake target else set_endpoint target) ∷ nudge ∷ [],
            )
          ]
        ]
]

abbrev pub retry_from : PeerFsm → Option Endpoint → ℕ → Step
retry_from fsm avoid now = retry_from_impl fsm avoid now false

abbrev pub retry_from_flush : PeerFsm → Option Endpoint → ℕ → Step
retry_from_flush fsm avoid now = retry_from_impl fsm avoid now true

abbrev pub saturating_suc : ℕ → ℕ
saturating_suc rounds = min (suc rounds) (2 ^ 32 - 1)

-- The next candidate in turn, for a machine that is probing.
unfoldable pub rotate : PeerFsm → ℕ → ℕ → ℕ → Step
rotate fsm candidate_index rounds now = elim fsm.candidates [
  | [] ↦ some (fsm, [])
  | _ ∷ _ ↦
      if ltb (now - fsm.last_rotate) rotate_interval
      then some (fsm, [])
      else let next = suc candidate_index % length fsm.candidates in
        let turned : ℕ → PeerFsm = λ transition. record {
          candidates = fsm.candidates;
          state = probing next (if next == 0 then saturating_suc rounds else rounds);
          last_transition = transition;
          last_rotate = now;
        } in
        if not (next == candidate_index)
        then elim (get_elem? fsm.candidates next) [
          | none ↦ none
          | some ep ↦ some (turned now, set_endpoint ep ∷ nudge ∷ [])
        ]
        else some (turned fsm.last_transition, nudge ∷ [])
]

abbrev pub since : Option ℕ → ℕ → Bool
since none transition = false
since (some t) transition = leb transition t

-- The handshake belongs to the current candidate: it is fresh, and later than the last change of
-- candidate or the only candidate's.
abbrev pub is_proof : PeerFsm → ℕ → Observation → Bool
is_proof fsm now obs =
    handshake_is_fresh obs.last_handshake now
    && (since obs.last_handshake fsm.last_transition || length fsm.candidates == 1)

abbrev pub or_else {ℓ} : {A : Type ℓ} → Option A → Option A → Option A
or_else (some a) o = some a
or_else none o = o

unfoldable pub tick_probing : PeerFsm → ℕ → ℕ → ℕ → Observation → Step
unfolding rotate
tick_probing fsm candidate_index rounds now obs =
    let turned = rotate fsm candidate_index rounds now in
    if is_proof fsm now obs
    then elim (or_else (elim obs.kernel_endpoint [ none ↦ none | some ke ↦ some (normalize ke) ])
        (get_elem? fsm.candidates candidate_index)) [
          | none ↦ some (fsm, [])
          | some endpoint ↦ some (
            record {
              candidates = fsm.candidates;
              state = connected endpoint;
              last_transition = now;
              last_rotate = fsm.last_rotate;
            },
            mark_good endpoint ∷ [],
          )
        ]
    else turned

unfoldable pub tick_connected : PeerFsm → Endpoint → ℕ → Observation → PeerFsm × List Action
tick_connected fsm endpoint now obs =
    let lost : PeerFsm = record {
      candidates = fsm.candidates;
      state = probing 0 0;
      last_transition = now;
      last_rotate = now;
    } in
    if not (handshake_is_fresh obs.last_handshake now)
    then elim fsm.candidates [ [] ↦ (lost, []) | ep ∷ _ ↦ (lost, set_endpoint ep ∷ nudge ∷ []) ]
    else elim obs.kernel_endpoint [
      | none ↦ (fsm, [])
      | some ke ↦
          if not (normalize ke =? endpoint)
          then (
            record {
              candidates = fsm.candidates;
              state = connected (normalize ke);
              last_transition = now;
              last_rotate = fsm.last_rotate;
            },
            mark_good (normalize ke) ∷ [],
          )
          else (fsm, [])
    ]

unfoldable pub tick : PeerFsm → ℕ → Observation → Step
unfolding tick_probing tick_connected
tick fsm now obs = elim fsm.state [
  | probing candidate_index rounds ↦ tick_probing fsm candidate_index rounds now obs
  | connected endpoint ↦ some (tick_connected fsm endpoint now obs)
]
