-- ===== src/RelayServer/Control/Authority.antt =====
-- Who can make the relay do something.
use hextet.Base.{
  ℕ, ◌≤◌, ◌≡◌, ◌≢◌, refl, arith, true, false, [], take, ltb, Option, Bool-cases, inl, inr,
}
use hextet.Base.Bytes.{Bytes}
use hextet.Base.Outcome.{Outcome, ok, err, panic}
use hextet.Endpoint.{Endpoint}
use hextet.Wire.Relay.{RelayFrame, RelayError, register_ack, decode}
use hextet.RelayServer.Table.{allows}
use hextet.RelayServer.Forward.{SocketAddr, v4, v6}
use hextet.RelayServer.Control.{
  Server, Config, received, handle_frame, dispatch, respond, serve, seq_skew_tolerance_secs,
  abs_diff, control_buf,
}

-- A frame that is authentic, within 300 seconds of the clock, allowed by the policy, and no ack.
pub record IsAuthorised (config : Config) (datagram : Bytes) (now : ℕ) : Type 0 where
  pub frame : RelayFrame
  pub authentic :
      decode config.hmac config.ed25519 (take control_buf datagram) config.relay_key ≡ ok frame
  pub timely : abs_diff frame.seq now ≤ seq_skew_tolerance_secs
  pub allowed : allows config.policy frame.self_key ≡ true
  pub asks : frame.kind ≢ register_ack

module _ (config : Config) (server : Server) (frame : RelayFrame) (src : Endpoint) (now : ℕ)
    (bind : Option ℕ) where
  skewed_ignored :
      ltb seq_skew_tolerance_secs (abs_diff frame.seq now) ≡ true
      → handle_frame config server frame src now bind ≡ (server, [])
  unfolding handle_frame
  skewed_ignored h = rw h refl

  refused_ignored :
      ltb seq_skew_tolerance_secs (abs_diff frame.seq now) ≡ false
      → allows config.policy frame.self_key ≡ false
      → handle_frame config server frame src now bind ≡ (server, [])
  unfolding handle_frame
  refused_ignored h k = rw (h, k) refl

  ack_ignored :
      ltb seq_skew_tolerance_secs (abs_diff frame.seq now) ≡ false
      → allows config.policy frame.self_key ≡ true
      → frame.kind ≡ register_ack
      → handle_frame config server frame src now bind ≡ (server, [])
  unfolding handle_frame dispatch
  ack_ignored h k l = rw (h, k, l) refl

  handled :
      handle_frame config server frame src now bind ≢ (server, [])
      → (ltb seq_skew_tolerance_secs (abs_diff frame.seq now) ≡ false)
        × (allows config.policy frame.self_key ≡ true)
        × (frame.kind ≢ register_ack)
  handled k = elim (Bool-cases (ltb seq_skew_tolerance_secs (abs_diff frame.seq now))) [
    | inl skewed ↦ absurd (k (skewed_ignored skewed))
    | inr timely ↦ elim (Bool-cases (allows config.policy frame.self_key)) [
      | inr refused ↦ absurd (k (refused_ignored timely refused))
      | inl allowed ↦ (timely, allowed, λ q. k (ack_ignored timely allowed q))
    ]
  ]

responded :
    (config : Config) (server : Server) (datagram : Bytes) (src : Endpoint) (now : ℕ)
    (bind : Option ℕ) (o : Outcome RelayError RelayFrame)
    → decode config.hmac config.ed25519 (take control_buf datagram) config.relay_key ≡ o
    → respond config server src now bind o ≢ (server, [])
    → IsAuthorised config datagram now
unfolding respond
responded config server datagram src now bind (ok frame) e k =
    let good = handled config server frame src now bind k in
    record {
      frame = frame;
      authentic = e;
      timely = within seq_skew_tolerance_secs (abs_diff frame.seq now) good.0;
      allowed = good.1;
      asks = good.2;
    }
  where
    within : (n m : ℕ) → ltb n m ≡ false → m ≤ n
    within n m h = ground (arith, h)
responded config server datagram src now bind (err x) e k = absurd (k refl)
responded config server datagram src now bind panic e k = absurd (k refl)

-- If a datagram changes the server's state or makes it do anything, then its first 256 bytes
-- decode to a control frame under the relay key, and that frame's time is within 300 seconds of
-- the clock, its sender is allowed by the policy, and it is no ack.
pub serve-IsAuthorised :
    (config : Config) (server : Server) (datagram : Bytes) (src : SocketAddr) (now : ℕ)
    (bind : Option ℕ)
    → serve config server (received datagram src now bind) ≢ (server, [])
    → IsAuthorised config datagram now
unfolding serve
serve-IsAuthorised config server datagram v4 now bind h = absurd (h refl)
serve-IsAuthorised config server datagram (v6 src) now bind h =
    responded config server datagram src now bind
      (decode config.hmac config.ed25519 (take control_buf datagram) config.relay_key) refl h
