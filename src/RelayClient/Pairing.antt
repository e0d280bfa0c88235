-- ===== src/RelayClient/Pairing.antt =====
-- The client and the server together: a register frame, the server's step on it, and what the client
-- makes of the reply.
use hextet.Base.{
  ℕ, ◌≤◌, ◌<◌, ◌^◌, ◌≡◌, ◌≢◌, refl, sym, ap, ◌∙◌, subst, true, false, List, [], ◌∷◌, length, ltb,
  leb, =?_self, Any, Any-append_right, Option, none, some, Option-cases, Bool-cases, inl, inr,
  arith, ℕ_equality, list_equality, pair_equality,
}
use hextet.Base.Assoc.{lookup, keys_where, lookup-remove_all}
use hextet.Base.Bytes.{Bytes}
use hextet.Crypto.{PublicKey}
use hextet.Endpoint.{Endpoint, endpoint, normalize}
use hextet.RelayClient.{Request, accept, is_paired, frame_of}
use hextet.RelayServer.Control.{
  Server, Config, Effect, spawned, replied, received, serve, respond, handle_frame, dispatch,
  handle_register, register_side, open_session, prune_server, ack_of, tell, unwrap_or_zero, side_of,
  abs_diff, seq_skew_tolerance_secs,
}
use hextet.RelayServer.Forward.{v6}
use hextet.RelayServer.Table.{
  Session, port_of, prune, insert_session, touch_addr, allows, is_stale, max_sessions, addrs_of,
}
use hextet.Wire.Relay.{RelayFrame, IsRelayFrame, register, session_key, SessionKey, encode}
use hextet.Wire.Relay.RoundTrip.{decode-take-encode}

abbrev port_in : Option Session → Option ℕ
port_in o = elim o [ none ↦ none | some s ↦ some s.port ]

-- A session that is not there is not there after pruning, nor when none could be opened.
pruned_none :
    (server : Server) (now : ℕ) (key : SessionKey)
    → lookup key server.table ≡ none
    → lookup key (prune_server server now).table ≡ none
unfolding prune_server prune
pruned_none server now key h =
    let stale = keys_where (is_stale now) server.table in
    lookup-remove_all stale key server.table ∙ ground (arith, h)

not_opened :
    (server : Server) (key : SessionKey) (now : ℕ) (bind : Option ℕ)
    → lookup key server.table ≡ none
    → (open_session server key now bind).1 ≡ none
    → lookup key (open_session server key now bind).0.table ≡ none
unfolding open_session insert_session
not_opened server key now none h k =
    let gone = pruned_none server now key h in
    elim (Bool-cases (leb max_sessions (length (prune_server server now).table))) [
      | inl full ↦ rw full gone
      | inr room ↦ rw room gone
    ]
not_opened server key now (some port) h k =
    elim (Bool-cases (leb max_sessions (length (prune_server server now).table))) [
      | inl full ↦ rw full (pruned_none server now key h)
      | inr room ↦ absurd (cc (opened room, k))
    ]
  where
    opened :
        leb max_sessions (length (prune_server server now).table) ≡ false
        → (open_session server key now (some port)).1 ≡ some port
    opened room = rw room refl

module _ (config : Config) (self_key peer_key : PublicKey) (port : ℕ)
    (controls : List Endpoint) where
  -- A client of this relay's network.
  abbrev pub client : Request
  client = record {
    hmac = config.hmac;
    ed25519 = config.ed25519;
    control_addrs = controls;
    self_key = self_key;
    peer_key = peer_key;
    wg_listen_port = port;
    relay_key = config.relay_key;
  }

  -- A reply that makes the client take this port for its session.
  abbrev pub Confirms : Endpoint → Endpoint → ℕ → Effect → Type 0
  Confirms src relay p effect =
      (bytes : Bytes) × (effect ≡ replied bytes src)
      × (accept client (some (bytes, v6 relay))
          ≡ some (record { endpoint = endpoint relay.ip p; control = normalize relay }))

  module _ (src relay : Endpoint) (now p : ℕ) where
    abbrev frame : ℕ → RelayFrame
    frame unix = frame_of client register unix

    -- The client accepts the ack of its own frame.
    confirmed :
        (unix : ℕ)
        → IsRelayFrame config.ed25519 (frame unix)
        → now < 2 ^ 64
        → p < 2 ^ 16
        → p ≢ 0
        → Confirms src relay p
            (replied (encode config.hmac (ack_of (frame unix) p now) config.relay_key) src)
    unfolding accept is_paired
    confirmed unix is clock small port_set =
        let ack = ack_of (frame unix) p now in
        let is_ack : IsRelayFrame config.ed25519 ack = record {
          port_u16 = small;
          seq_u64 = clock;
          self_is_key = is.self_is_key;
          peer_is_key = is.peer_is_key;
          two_ends = is.two_ends;
        } in
        (
          encode config.hmac ack config.relay_key,
          refl,
          rw
              (
                decode-take-encode config.hmac config.ed25519 ack config.relay_key is_ack,
                =?_self {A = Bytes} self_key,
                =?_self {A = Bytes} peer_key,
              )
              (ground arith),
        )

    module _ (unix : ℕ) (is : IsRelayFrame config.ed25519 (frame unix)) (clock : now < 2 ^ 64)
        (small : p < 2 ^ 16) (port_set : p ≢ 0) where
      abbrev key : SessionKey
      key = session_key (frame unix)

      -- The effects confirm the port, if that is the session's afterwards.
      abbrev Confirming : Server × List Effect → Type 0
      Confirming r = port_of r.0.table key ≡ some p → Any (Confirms src relay p) r.1

      register_side_confirms :
          (server : Server) → Confirming (register_side config server (frame unix) src now)
      unfolding register_side
      register_side_confirms server h =
          let data_addr = normalize (endpoint src.ip port) in
          let table = (touch_addr server.table key (side_of (frame unix)) data_addr now).0 in
          let reply = λ (o : Option ℕ).
            replied
              (encode config.hmac (ack_of (frame unix) (unwrap_or_zero o) now) config.relay_key)
              src in
          Any-append_right (Confirms src relay p)
            (tell (lookup key server.senders) (addrs_of table key)) (reply (port_of table key) ∷ [])
            (inl (
              subst (λ o. Confirms src relay p (reply o)) (sym h)
                (confirmed unix is clock small port_set)))

      module _ (server : Server) (bind : Option ℕ) (asked : port ≢ 0) where
        abbrev opened : Server × Option ℕ
        opened = open_session server key now bind

        abbrev handled : Server × List Effect
        handled = handle_register config server (frame unix) src now bind

        known_handled :
            (session : Session)
            → lookup key server.table ≡ some session
            → handled ≡ register_side config server (frame unix) src now
        unfolding handle_register
        known_handled session h = ground arith

        full_handled : lookup key server.table ≡ none → opened.1 ≡ none → handled ≡ (opened.0, [])
        unfolding handle_register
        full_handled h k = ground arith

        opened_handled :
            (task : ℕ)
            → lookup key server.table ≡ none
            → opened.1 ≡ some task
            → let r = register_side config opened.0 (frame unix) src now in
              handled ≡ (r.0, spawned task ∷ r.1)
        unfolding handle_register
        opened_handled task h k = ground arith

        handle_register_confirms : Confirming handled
        handle_register_confirms = elim (Option-cases (lookup key server.table)) [
          | inr (session, old) ↦
              subst Confirming (sym (known_handled session old)) (register_side_confirms server)
          | inl fresh ↦ elim (Option-cases opened.1) [
            | inl closed ↦
                subst Confirming (sym (full_handled fresh closed))
                  (λ h. absurd (cc (h, ap port_in (not_opened server key now bind fresh closed))))
            | inr (task, open_now) ↦
                subst Confirming (sym (opened_handled task fresh open_now))
                  (λ h. inr (register_side_confirms opened.0 h))
          ]
        ]

      serve_registers :
          (server : Server) (bind : Option ℕ)
          → abs_diff unix now ≤ seq_skew_tolerance_secs
          → allows config.policy self_key ≡ true
          → let bytes = encode config.hmac (frame unix) config.relay_key in
            serve config server (received bytes (v6 src) now bind)
            ≡ handle_register config server (frame unix) src now bind
      unfolding serve respond handle_frame dispatch
      serve_registers server bind timely allowed =
          let on_time : ltb seq_skew_tolerance_secs (abs_diff unix now) ≡ false = ground arith in
          rw
            (
              decode-take-encode config.hmac config.ed25519 (frame unix) config.relay_key is,
              on_time,
              allowed,
            )
            refl

  -- A client and a server with one relay key: where the server, on a client's register frame that
  -- is well formed, on time and allowed and gives a port of the client that is not zero, has a
  -- session with a port (not zero) for the pair of nodes afterwards, it replies to the frame's
  -- source, and from that reply the client learns the session's port at the address that the
  -- reply came from. The server's clock is below 2^64.
  pub serve-Confirms :
      (server : Server) (src relay : Endpoint) (unix now p : ℕ) (bind : Option ℕ)
      → IsRelayFrame config.ed25519 (frame_of client register unix)
      → now < 2 ^ 64
      → p < 2 ^ 16
      → p ≢ 0
      → port ≢ 0
      → abs_diff unix now ≤ seq_skew_tolerance_secs
      → allows config.policy self_key ≡ true
      → let f = frame_of client register unix in
        let bytes = encode config.hmac f config.relay_key in
        let r = serve config server (received bytes (v6 src) now bind) in
        port_of r.0.table (session_key f) ≡ some p → Any (Confirms src relay p) r.1
  serve-Confirms server src relay unix now p bind is clock small port_set asked timely allowed =
      subst (Confirming src relay now p unix is clock small port_set)
        (sym
          (serve_registers src relay now p unix is clock small port_set server bind timely allowed))
        (handle_register_confirms src relay now p unix is clock small port_set server bind asked)
