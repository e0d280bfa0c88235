-- ===== src/RelayClient/Sessions.antt =====
-- When a registration ends, and what it ends with.
use hextet.Base.{
  is_empty, ℕ, ◌+◌, ◌≤◌, ◌<◌, ◌≡◌, ◌≢◌, ◌⊎◌, refl, sym, ap, ◌∙◌, Bool, true, false, ◌||◌, List, [],
  ◌∷◌, ltb, ◌==◌, =?_eq, take, Any, Option, none, some, Option-cases, Bool-cases, inl, inr, arith,
  ℕ_equality, list_equality,
}
use hextet.Base.Bytes.{Bytes}
use hextet.Base.Outcome.{Outcome, ok, err, panic}
use hextet.Endpoint.{Endpoint, endpoint, normalize}
use hextet.RelayClient.{
  Request, Round, RelaySession, registered, unavailable, waiting, accept, pair, is_paired,
  session_of, register_loop, register_with_timeout, buf_len,
}
use hextet.RelayServer.Forward.{SocketAddr, v4, v6}
use hextet.Wire.Relay.{
  RelayFrame, RelayKind, RelayError, register, register_ack, unregister, decode,
}

-- A round in time, in which an authentic ack for this pair came: the session is its port at the
-- address that it came from.
pub record IsAcked (r : Request) (deadline : ℕ) (session : RelaySession) (round : Round)
    : Type 0 where
  pub datagram : Bytes
  pub src : Endpoint
  pub ack : RelayFrame
  pub in_time : round.instant < deadline
  pub came : round.received ≡ some (datagram, v6 src)
  pub authentic : decode r.hmac r.ed25519 (take buf_len datagram) r.relay_key ≡ ok ack
  pub is_ack : ack.kind ≡ register_ack
  pub for_self : ack.self_key ≡ r.self_key
  pub for_peer : ack.peer_key ≡ r.peer_key
  pub has_port : ack.port ≢ 0
  pub data_endpoint : session.endpoint ≡ endpoint src.ip ack.port
  pub control_endpoint : session.control ≡ normalize src

pub ack_kind : (k : RelayKind) → (hextet.Wire.Relay.as_u8 k == 2) ≡ true → k ≡ register_ack
ack_kind register h = absurd (cc h)
ack_kind register_ack h = refl
ack_kind unregister h = absurd (cc h)

module _ (r : Request) where
  paired :
      (src : Endpoint) (o : Outcome RelayError RelayFrame) (s : RelaySession)
      → pair r src o ≡ some s
      → (ack : RelayFrame) × (o ≡ ok ack) × (is_paired r ack ≡ true) × (session_of ack src ≡ s)
  paired src (ok ack) s h = elim (Bool-cases (is_paired r ack)) [
    | inl good ↦ (ack, refl, good, cc (rw good at h))
    | inr bad ↦ absurd (cc (rw bad at h))
  ]
  paired src (err e) s h = absurd (cc h)
  paired src panic s h = absurd (cc h)

  is_paired_parts :
      (ack : RelayFrame)
      → is_paired r ack ≡ true
      → (ack.kind ≡ register_ack)
        × (ack.self_key ≡ r.self_key)
        × (ack.peer_key ≡ r.peer_key)
        × (ack.port ≢ 0)
  unfolding is_paired
  is_paired_parts ack h = (
    ack_kind ack.kind (ground arith),
    =?_eq ack.self_key r.self_key (ground arith),
    =?_eq ack.peer_key r.peer_key (ground arith),
    ground arith,
  )

  accepted :
      (deadline : ℕ) (round : Round) (s : RelaySession) (got : Option (Bytes × SocketAddr))
      → round.received ≡ got
      → round.instant < deadline
      → accept r got ≡ some s
      → IsAcked r deadline s round
  unfolding accept
  accepted deadline round s none e t h = absurd (cc h)
  accepted deadline round s (some (datagram, v4)) e t h = absurd (cc h)
  accepted deadline round s (some (datagram, v6 src)) e t h =
      let (ack, authentic, good, is) =
        paired src (decode r.hmac r.ed25519 (take buf_len datagram) r.relay_key) s h in
      let (kind, self, peer, port) = is_paired_parts ack good in
      record {
        datagram = datagram;
        src = src;
        ack = ack;
        in_time = t;
        came = e;
        authentic = authentic;
        is_ack = kind;
        for_self = self;
        for_peer = peer;
        has_port = port;
        data_endpoint = ap (λ (x : RelaySession). x.endpoint) (sym is);
        control_endpoint = ap (λ (x : RelaySession). x.control) (sym is);
      }

  -- The ways through a round.
  late_ends :
      (deadline : ℕ) (round : Round) (rounds : List Round)
      → ltb round.instant deadline ≡ false
      → (register_loop r deadline (round ∷ rounds)).1 ≡ unavailable
  unfolding register_loop
  late_ends deadline round rounds h = rw h refl

  acked_ends :
      (deadline : ℕ) (round : Round) (rounds : List Round) (s : RelaySession)
      → ltb round.instant deadline ≡ true
      → accept r round.received ≡ some s
      → (register_loop r deadline (round ∷ rounds)).1 ≡ registered s
  unfolding register_loop
  acked_ends deadline round rounds s h a = rw (h, a) refl

  unanswered_goes_on :
      (deadline : ℕ) (round : Round) (rounds : List Round)
      → ltb round.instant deadline ≡ true
      → accept r round.received ≡ none
      → (register_loop r deadline (round ∷ rounds)).1 ≡ (register_loop r deadline rounds).1
  unfolding register_loop
  unanswered_goes_on deadline round rounds h a = rw (h, a) refl

  none_left : (deadline : ℕ) → (register_loop r deadline []).1 ≡ waiting
  unfolding register_loop
  none_left deadline = refl

  loop-IsAcked :
      (deadline : ℕ) (rounds : List Round) (s : RelaySession)
      → (register_loop r deadline rounds).1 ≡ registered s
      → Any (IsAcked r deadline s) rounds
  loop-IsAcked deadline [] s h = absurd (cc (none_left deadline, h))
  loop-IsAcked deadline (round ∷ rounds) s h = elim (Bool-cases (ltb round.instant deadline)) [
    | inr late ↦ absurd (cc (late_ends deadline round rounds late, h))
    | inl early ↦ elim (Option-cases (accept r round.received)) [
      | inl unanswered ↦ inr (
          loop-IsAcked deadline rounds s
            (sym (unanswered_goes_on deadline round rounds early unanswered) ∙ h))
      | inr (t, a) ↦
          let same : t ≡ s = cc (acked_ends deadline round rounds t early a, h) in
          inl (accepted deadline round s round.received refl (ground arith) (a ∙ ap some same))
    ]
  ]

  loop_ends :
      (deadline : ℕ) (rounds : List Round)
      → Any (λ (round : Round). deadline ≤ round.instant) rounds
      → (register_loop r deadline rounds).1 ≢ waiting
  loop_ends deadline [] h q = absurd h
  loop_ends deadline (round ∷ rounds) h q = elim (Bool-cases (ltb round.instant deadline)) [
    | inr late ↦ absurd (cc (late_ends deadline round rounds late, q))
    | inl early ↦ elim (Option-cases (accept r round.received)) [
      | inr (t, a) ↦ absurd (cc (acked_ends deadline round rounds t early a, q))
      | inl unanswered ↦ elim h [
        | inl at_end ↦ absurd (ground (arith, early, at_end))
        | inr more ↦
            loop_ends deadline rounds more
              (sym (unanswered_goes_on deadline round rounds early unanswered) ∙ q)
      ]
    ]
  ]

  started :
      (start timeout : ℕ) (bound : Bool) (rounds : List Round)
      → ((register_with_timeout r start timeout bound rounds).1 ≡ unavailable)
        ⊎ (register_with_timeout r start timeout bound rounds
            ≡ register_loop r (start + timeout) rounds)
  unfolding register_with_timeout
  started start timeout bound rounds =
      elim (Bool-cases (is_empty r.control_addrs || r.wg_listen_port == 0)) [
        | inl useless ↦ inl (rw useless refl)
        | inr useful ↦ elim (Bool-cases bound) [
          | inr unbound ↦ inl (rw (useful, unbound) refl)
          | inl on ↦ inr (rw (useful, on) refl)
        ]
      ]

  -- A registration that succeeds got, in a round that began before the deadline, an ack that is
  -- authentic under the relay key and names this pair of nodes; the session is the ack's port,
  -- which is not zero, at the address that the ack came from, and that address is the control
  -- address, normalized.
  pub register_with_timeout-IsAcked :
      (start timeout : ℕ) (bound : Bool) (rounds : List Round) (s : RelaySession)
      → (register_with_timeout r start timeout bound rounds).1 ≡ registered s
      → Any (IsAcked r (start + timeout) s) rounds
  register_with_timeout-IsAcked start timeout bound rounds s h =
      elim (started start timeout bound rounds) [
        | inl not_begun ↦ absurd (cc (not_begun, h))
        | inr begun ↦ loop-IsAcked (start + timeout) rounds s (ap (λ t. t.1) (sym begun) ∙ h)
      ]

  -- A registration ends, at the latest in the first round that begins at the deadline or later.
  pub register_with_timeout_ends :
      (start timeout : ℕ) (bound : Bool) (rounds : List Round)
      → Any (λ (round : Round). start + timeout ≤ round.instant) rounds
      → (register_with_timeout r start timeout bound rounds).1 ≢ waiting
  register_with_timeout_ends start timeout bound rounds h q =
      elim (started start timeout bound rounds) [
        | inl not_begun ↦ absurd (cc (not_begun, q))
        | inr begun ↦ loop_ends (start + timeout) rounds h (ap (λ t. t.1) (sym begun) ∙ q)
      ]
