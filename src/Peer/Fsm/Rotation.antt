-- ===== src/Peer/Fsm/Rotation.antt =====
-- crates/engine/src/peer_fsm.rs: the rotation of the candidates under a peer that does not answer.
use hextet.Base.{
  ℕ, ◌+◌, ◌-◌, ◌%◌, ◌<◌, ◌≤◌, ◌≡◌, refl, sym, ◌∙◌, ap, subst, arith, zero, suc, inl, inr, false,
  ltb, leb, ◌==◌, if◌then◌else◌, List, [], ◌∷◌, length, Option, none, some, Bool-cases,
}
use native.Mathlib.Nat.{mod-lt, mod-eq_of_lt, mod-add-mod, add-mod_right}
use hextet.Endpoint.{Endpoint}
use hextet.Peer.Fsm.{
  PeerFsm, probing, Observation, Action, nudge, set_endpoint, tick, tick_probing, rotate,
  rotate_interval, handshake_is_fresh, saturating_suc,
}
use hextet.Peer.Fsm.Search.{get_elem?_in}
use hextet.Peer.Fsm.Steps.{machine}
use hextet.Peer.Fsm.Directed.{Event, ticked, apply, run, run_step, Trace}

-- Ticks at least one rotation interval apart that see no fresh handshake.
abbrev pub Unanswered : ℕ → List (ℕ × Observation) → Type 0
Unanswered last [] = Unit {0}
Unanswered last ((now, obs) ∷ ticks) =
    (last + rotate_interval ≤ now)
    × (handshake_is_fresh obs.last_handshake now ≡ false)
    × Unanswered now ticks

abbrev pub tick_events : List (ℕ × Observation) → List Event
tick_events [] = []
tick_events ((now, obs) ∷ ticks) = ticked now obs ∷ tick_events ticks

-- The count of the rounds after a turn to the candidate `next`, and after some turns.
abbrev pub rounds_after : ℕ → ℕ → ℕ
rounds_after next rounds = if next == 0 then saturating_suc rounds else rounds

abbrev pub rounds_on : ℕ → ℕ → ℕ → ℕ → ℕ
rounds_on n i rounds zero = rounds
rounds_on n i rounds (suc turns) = rounds_on n (suc i % n) (rounds_after (suc i % n) rounds) turns

rotate-turns :
    (c : List Endpoint) (i rounds t r now : ℕ)
    → i < length c
    → r + rotate_interval ≤ now
    → let next = suc i % length c in
      (u : ℕ) × (actions : List Action) × (rotate (machine c (probing i rounds) t r) i rounds now
        ≡ some (machine c (probing next (rounds_after next rounds)) u now, actions))
unfolding rotate
rotate-turns [] i rounds t r now h due = absurd (omega (arith, h))
rotate-turns (x ∷ xs) i rounds t r now h due =
    let next = suc i % suc (length xs) in
    let found = get_elem?_in (x ∷ xs) next (mod-lt (suc i) (omega arith)) in
    let late : ltb (now - r) rotate_interval ≡ false = ground (arith, due) in
    elim (Bool-cases (next == i)) [
      | inl alone ↦ (t, nudge ∷ [], rw (late, alone) refl)
      | inr turned ↦ (now, set_endpoint found.0 ∷ nudge ∷ [], rw (late, turned, found.1) refl)
    ]

tick-turns :
    (c : List Endpoint) (i rounds t r now : ℕ) (obs : Observation)
    → i < length c
    → r + rotate_interval ≤ now
    → handshake_is_fresh obs.last_handshake now ≡ false
    → let next = suc i % length c in
      (u : ℕ) × (actions : List Action) × (tick (machine c (probing i rounds) t r) now obs
        ≡ some (machine c (probing next (rounds_after next rounds)) u now, actions))
unfolding tick tick_probing
tick-turns c i rounds t r now obs h due stale = rw stale (rotate-turns c i rounds t r now h due)

-- The candidate and the rounds after any number of such ticks.
pub places_on :
    (c : List Endpoint) (i rounds t r : ℕ) (ticks : List (ℕ × Observation))
    → i < length c
    → Unanswered r ticks
    → let n = length c in
      let after = probing ((i + length ticks) % n) (rounds_on n i rounds (length ticks)) in
      (u : ℕ) × (v : ℕ) × (trace : Trace) × (run
          (machine c (probing i rounds) t r)
          (tick_events ticks)
        ≡ some (machine c after u v, trace))
unfolding run apply
places_on c i rounds t r [] h un = (
  t,
  r,
  [],
  ap (λ j. some (machine c (probing j rounds) t r, []))
      (sym (ap (λ k. k % length c) (omega arith) ∙ mod-eq_of_lt h)),
)
places_on c i rounds t r ((now, obs) ∷ ticks) h un =
    let n = length c in
    let next = suc i % n in
    let rounds' = rounds_after next rounds in
    let turn = tick-turns c i rounds t r now obs h un.0 un.1 in
    let small : next < n = mod-lt (suc i) (omega (arith, h)) in
    let rest = places_on c next rounds' turn.0 now ticks small un.2 in
    let turned : (next + length ticks) % n ≡ (i + suc (length ticks)) % n =
      mod-add-mod (suc i) n (length ticks) ∙ ap (λ k. k % n) (omega arith) in
    let counted = rounds_on n next rounds' (length ticks) in
    (
      rest.0,
      rest.1,
      (machine c (probing next rounds') turn.0 now, turn.1) ∷ rest.2,
      run_step (machine c (probing i rounds) t r) (ticked now obs) (tick_events ticks)
            (machine c (probing next rounds') turn.0 now, turn.1)
            (machine c (probing ((next + length ticks) % n) counted) rest.0 rest.1) rest.2 turn.2
            rest.3
          ∙ ap
              (λ j. some (
                machine c (probing j counted) rest.0 rest.1,
                (machine c (probing next rounds') turn.0 now, turn.1) ∷ rest.2,
              ))
              turned,
    )

-- The machine's candidate is `j`.
abbrev pub PointsAt : ℕ → Option (PeerFsm × Trace) → Type 0
PointsAt j none = ⊥
PointsAt j (some (fsm, trace)) = (rounds : ℕ) × (fsm.state ≡ probing j rounds)

-- A machine that gets no answer goes round its candidates: after any ticks that come at least
-- 2.5 seconds apart and see no fresh handshake it is as many places further, modulo the number of
-- candidates, as there were ticks.
pub run_turns :
    (c : List Endpoint) (i rounds t r : ℕ) (ticks : List (ℕ × Observation))
    → i < length c
    → Unanswered r ticks
    → PointsAt
        ((i + length ticks) % length c)
        (run (machine c (probing i rounds) t r) (tick_events ticks))
run_turns c i rounds t r ticks h un =
    let ran = places_on c i rounds t r ticks h un in
    subst (PointsAt ((i + length ticks) % length c)) (sym ran.3)
      (rounds_on (length c) i rounds (length ticks), refl)

-- A machine that gets no answer reaches every candidate within one round: starting at index `i`
-- it is at index `j` after `j - i` ticks, or after `j - i` plus the number of candidates where
-- `j` is before `i`, if the ticks come at least 2.5 seconds apart and see no fresh handshake.
pub run_reaches :
    (c : List Endpoint) (i rounds t r j : ℕ) (ticks : List (ℕ × Observation))
    → i < length c
    → j < length c
    → length ticks ≡ (if leb i j then j - i else j + length c - i)
    → Unanswered r ticks
    → PointsAt j (run (machine c (probing i rounds) t r) (tick_events ticks))
run_reaches c i rounds t r j ticks h k l un =
    subst (λ m. PointsAt m (run (machine c (probing i rounds) t r) (tick_events ticks))) at
      (run_turns c i rounds t r ticks h un)
  where
    at : (i + length ticks) % length c ≡ j
    at = elim (Bool-cases (leb i j)) [
      | inl ahead ↦ ap (λ m. m % length c) (ground (arith, ahead, l)) ∙ mod-eq_of_lt k
      | inr behind ↦
          ap (λ m. m % length c) (ground (arith, behind, l, h))
          ∙ add-mod_right j (length c)
          ∙ mod-eq_of_lt k
    ]
