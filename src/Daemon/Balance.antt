-- ===== src/Daemon/Balance.antt =====
-- The registrations a decision of the daemon sends on their way, and what its link says of them.
use hextet.Base.{
  ◌≡◌, ◌≤◌, ◌+◌, refl, ℕ, suc, Bool, true, false, not, ◌&&◌, List, [], ◌∷◌, Option, none, some,
  Bool-cases, inl, inr, if◌then◌else◌, arith, ltb, ◌=?◌,
}
use hextet.Daemon.{
  RelayLink, Decision, Spawned, register, unregister, nothing, registering, leave_relay,
  upgrade_again, renew, decide, decide_connected, decide_probing, is_due, is_cooling,
  upgrade_max_retries, relay_after_rounds,
}
use hextet.Endpoint.{Endpoint, endpoint_equality}
use hextet.Peer.Fsm.{PunchState, probing, connected}
use hextet.RelayClient.{RelaySession}

abbrev pub registrations : List Spawned → ℕ
registrations [] = 0
registrations (register ∷ spawned) = suc (registrations spawned)
registrations (unregister session ∷ spawned) = registrations spawned

abbrev pub flag : Bool → ℕ
flag b = if b then 1 else 0

-- The link says of each registration that one is on its way, and retries within bounds.
pub record IsBalanced (link : RelayLink) (d : Decision) : Type 0 where
  pub tasks : registrations d.spawned + flag link.pending ≡ flag d.link.pending
  pub bounded : d.link.upgrade_retries ≤ 8

nothing-IsBalanced : (link : RelayLink) → link.upgrade_retries ≤ 8 → IsBalanced link (nothing link)
nothing-IsBalanced link h = record { tasks = omega arith; bounded = h }

registering-IsBalanced :
    (link : RelayLink)
    → link.pending ≡ false
    → link.upgrade_retries ≤ 8
    → IsBalanced link (registering link)
registering-IsBalanced link p h = record { tasks = ground (arith, p); bounded = h }

upgrade_again-IsBalanced :
    (link : RelayLink) (session : RelaySession)
    → link.upgrade_retries ≤ 8
    → IsBalanced link (upgrade_again link session)
      × (registrations (upgrade_again link session).spawned ≡ 0)
unfolding upgrade_again
upgrade_again-IsBalanced link session h = elim (Bool-cases link.upgrade_pending) [
  | inr steady ↦ rw steady (record { tasks = omega arith; bounded = h }, refl)
  | inl upgrading ↦ elim (Bool-cases (ltb link.upgrade_retries upgrade_max_retries)) [
    | inl more ↦
        rw (upgrading, more) (record { tasks = omega arith; bounded = ground (arith, more) }, refl)
    | inr done ↦ rw (upgrading, done) (record { tasks = omega arith; bounded = omega arith }, refl)
  ]
]

upgrade_again-pending :
    (link : RelayLink) (session : RelaySession)
    → (upgrade_again link session).link.pending ≡ link.pending
unfolding upgrade_again
upgrade_again-pending link session = elim (Bool-cases link.upgrade_pending) [
  | inr steady ↦ rw steady refl
  | inl upgrading ↦ elim (Bool-cases (ltb link.upgrade_retries upgrade_max_retries)) [
    | inl more ↦ rw (upgrading, more) refl
    | inr done ↦ rw (upgrading, done) refl
  ]
]

renew-IsBalanced :
    (link : RelayLink) (d : Decision) (now : ℕ)
    → d.link.pending ≡ link.pending
    → registrations d.spawned ≡ 0
    → d.link.upgrade_retries ≤ 8
    → IsBalanced link (renew d now)
unfolding renew
renew-IsBalanced link d now p none_yet h =
    elim (Bool-cases (
      is_due d.link.last_register now
      && not d.link.pending
      && not (is_cooling d.link.retry_after now))) [
        | inl asked ↦
            let idle : link.pending ≡ false = ground (arith, asked, p) in
            rw asked (record { tasks = ground (arith, idle); bounded = h })
        | inr waits ↦ rw waits (record { tasks = ground (arith, p, none_yet); bounded = h })
      ]

decide_connected-IsBalanced :
    (link : RelayLink) (session : Option RelaySession) (endpoint : Endpoint) (now : ℕ)
    → link.upgrade_retries ≤ 8
    → IsBalanced link (decide_connected link session endpoint now)
unfolding leave_relay
decide_connected-IsBalanced link none endpoint now h = nothing-IsBalanced link h
decide_connected-IsBalanced link (some session) endpoint now h =
    elim (Bool-cases (endpoint =? session.endpoint)) [
      | inr direct ↦ rw direct (record { tasks = omega arith; bounded = omega arith })
      | inl relayed ↦
          let (again, none_yet) = upgrade_again-IsBalanced link session h in
          rw relayed (
            renew-IsBalanced link (upgrade_again link session) now
              (upgrade_again-pending link session) none_yet again.bounded)
    ]

decide_probing-IsBalanced :
    (link : RelayLink) (session : Option RelaySession) (rounds now : ℕ)
    → link.pending ≡ false
    → link.upgrade_retries ≤ 8
    → IsBalanced link (decide_probing link session rounds now)
decide_probing-IsBalanced link (some session) rounds now p h =
    elim (Bool-cases (is_due link.last_register now)) [
      | inl due ↦ rw due (registering-IsBalanced link p h)
      | inr fresh ↦ rw fresh (nothing-IsBalanced link h)
    ]
decide_probing-IsBalanced link none rounds now p h =
    elim (Bool-cases (ltb rounds relay_after_rounds)) [
      | inl early ↦ rw early (nothing-IsBalanced link h)
      | inr late ↦ rw late (registering-IsBalanced link p h)
    ]

pub decide-IsBalanced :
    (state : PunchState) (link : RelayLink) (now : ℕ)
    → link.upgrade_retries ≤ 8
    → IsBalanced link (decide state link now)
unfolding decide
decide-IsBalanced (connected endpoint) link now h =
    decide_connected-IsBalanced link link.session endpoint now h
decide-IsBalanced (probing i rounds) link now h =
    by_tests link.upgrade_pending link.pending (is_cooling link.retry_after now) refl
  where
    by_tests :
        (back asked cooling : Bool)
        → link.pending ≡ asked
        → IsBalanced link (
            if back
            then nothing link
            else if asked
            then nothing link
            else if cooling
            then nothing link
            else decide_probing link link.session rounds now)
    by_tests true asked cooling e = nothing-IsBalanced link h
    by_tests false true cooling e = nothing-IsBalanced link h
    by_tests false false true e = nothing-IsBalanced link h
    by_tests false false false e = decide_probing-IsBalanced link link.session rounds now e h
