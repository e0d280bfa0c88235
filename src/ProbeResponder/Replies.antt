-- ===== src/ProbeResponder/Replies.antt =====
-- What the responder sends, to whom, and why.
use hextet.Base.{
  ℕ, ◌≤◌, ◌<◌, ◌^◌, ◌≡◌, ◌≢◌, ◌⊎◌, refl, sym, ap, ◌∙◌, subst, true, List, [], ◌∷◌, length, take,
  ◌==◌, arith, Bool-cases, inl, inr,
}
use mathlib.Core.List.{append-nil}
use hextet.Base.Bytes.{Bytes, AreBytes}
use hextet.Base.Bytes.Glue.{AreBytes-take}
use hextet.Base.Outcome.{Outcome, ok, err, panic}
use hextet.Crypto.{Hmac}
use hextet.Endpoint.{Endpoint}
use hextet.ProbeResponder.{
  RateLimiter, Effect, replied, delayed, allow, answer, is_request, packet_of, respond, serve,
  buf_len,
}
use hextet.RelayServer.Forward.{v6}
use hextet.Wire.Probe.{
  ProbePacket, ProbeKind, ProbeError, request, response, unsolicited, encode, decode,
}
use hextet.Wire.Probe.RoundTrip.{decode-encode_probe, length-encode}
use hextet.Wire.Probe.Canonical.{encode-decode_probe}

-- An authentic request that the limiter lets through, and the answer to it.
pub record IsAnswer (h : Hmac) (key : Bytes) (seen : RateLimiter) (datagram : Bytes)
    (src : Endpoint) (now : ℕ) (effects : List Effect) : Type 0 where
  pub packet : ProbePacket
  pub authentic : decode h (take buf_len datagram) key ≡ ok packet
  pub asked : packet.kind ≡ request
  pub let_through : (allow seen src.ip now).1 ≡ true
  pub answered : effects ≡ answer h key packet src

request_eq : (k : ProbeKind) → is_request k ≡ true → k ≡ request
request_eq request h = refl
request_eq response h = cc
request_eq unsolicited h = cc

module _ (h : Hmac) (key : Bytes) (seen : RateLimiter) (datagram : Bytes) (src : Endpoint)
    (now : ℕ) where
  responded :
      (o : Outcome ProbeError ProbePacket)
      → decode h (take buf_len datagram) key ≡ o
      → (respond h key seen src now o).1 ≢ []
      → IsAnswer h key seen datagram src now (respond h key seen src now o).1
  unfolding respond
  responded (err e) d k = absurd (k refl)
  responded panic d k = absurd (k refl)
  responded (ok p) d k = elim (Bool-cases (is_request p.kind)) [
    | inr other ↦ absurd (k (rw other refl))
    | inl asks ↦ elim (Bool-cases (allow seen src.ip now).1) [
      | inr limited ↦ absurd (k (rw (asks, limited) refl))
      | inl passes ↦ record {
        packet = p;
        authentic = d;
        asked = request_eq p.kind asks;
        let_through = passes;
        answered = rw (asks, passes) refl;
      }
    ]
  ]

-- The responder sends something only in answer to a request that is authentic under the probe key
-- and that the limiter lets through, and then exactly that request's answer.
pub serve-IsAnswer :
    (h : Hmac) (key : Bytes) (seen : RateLimiter) (datagram : Bytes) (src : Endpoint) (now : ℕ)
    → (serve h key seen datagram (v6 src) now).1 ≢ []
    → IsAnswer h key seen datagram src now (serve h key seen datagram (v6 src) now).1
unfolding serve
serve-IsAnswer h key seen datagram src now k =
    responded h key seen datagram src now (decode h (take buf_len datagram) key) refl k

-- The packets of an effect, as the other end decodes them.
abbrev payload : Effect → Bytes
payload (replied bytes to) = bytes
payload (delayed bytes to) = bytes

abbrev target : Effect → Endpoint
target (replied bytes to) = to
target (delayed bytes to) = to

-- An effect that echoes the nonce, to the address that asked.
abbrev pub Echoes : Hmac → Bytes → Endpoint → ℕ → Effect → Type 0
Echoes h key src nonce effect =
    ((kind : ProbeKind) × (decode h (payload effect) key ≡ ok (packet_of kind nonce)))
    × ((target effect).ip ≡ src.ip)
    × (length (payload effect) ≡ 32)

abbrev pub AllEcho : Hmac → Bytes → Endpoint → ℕ → List Effect → Type 0
AllEcho h key src nonce [] = Unit {0}
AllEcho h key src nonce (e ∷ effects) = Echoes h key src nonce e × AllEcho h key src nonce effects

silent_cases : (effects : List Effect) → (effects ≡ []) ⊎ (effects ≢ [])
silent_cases [] = inl refl
silent_cases (e ∷ effects) = inr (λ q. cc)

module _ (h : Hmac) (key : Bytes) where
  decodes :
      (kind : ProbeKind) (nonce : ℕ)
      → nonce < 2 ^ 64
      → decode h (encode h (packet_of kind nonce) key) key ≡ ok (packet_of kind nonce)
  decodes kind nonce n =
      ap (λ bytes. decode h bytes key) (sym (append-nil (encode h (packet_of kind nonce) key)))
      ∙ decode-encode_probe h (packet_of kind nonce) key []
          (record { nonce_u64 = n; port_u16 = omega arith })

  answer_echoes :
      (packet : ProbePacket) (src : Endpoint)
      → packet.nonce < 2 ^ 64
      → AllEcho h key src packet.nonce (answer h key packet src)
        × (length (answer h key packet src) ≤ 2)
  unfolding answer
  answer_echoes packet src n =
      let echoes : (kind : ProbeKind)
          → ((k : ProbeKind) × (decode h (encode h (packet_of kind packet.nonce) key) key
                ≡ ok (packet_of k packet.nonce)))
            × (src.ip ≡ src.ip)
            × (length (encode h (packet_of kind packet.nonce) key) ≡ 32) =
        λ kind. (
          (kind, decodes kind packet.nonce n),
          refl,
          length-encode h (packet_of kind packet.nonce) key,
        ) in
      elim (Bool-cases (packet.reply_port == 0)) [
        | inl silent ↦ rw silent ((echoes response, tt), omega arith)
        | inr asked ↦ rw asked ((echoes response, (echoes unsolicited, tt)), omega arith)
      ]

  -- One datagram makes the responder send at most two packets, each of 32 bytes, to the address
  -- that the datagram came from, and each decodes under the probe key to a packet with the
  -- nonce of the request.
  serve-AllEcho :
      (seen : RateLimiter) (datagram : Bytes) (src : Endpoint) (now : ℕ)
      → AreBytes datagram
      → (nonce : ℕ) × AllEcho h key src nonce (serve h key seen datagram (v6 src) now).1
        × (length (serve h key seen datagram (v6 src) now).1 ≤ 2)
  serve-AllEcho seen datagram src now bs =
      let effects = (serve h key seen datagram (v6 src) now).1 in
      elim (silent_cases effects) [
        | inl silent ↦ rw silent (0, tt, omega arith)
        | inr acts ↦
            let a = serve-IsAnswer h key seen datagram src now acts in
            let p =
              encode-decode_probe h (take buf_len datagram) key a.authentic
                (AreBytes-take buf_len datagram bs) in
            let e = answer_echoes a.packet src p.1.nonce_u64 in
            (
              a.packet.nonce,
              subst (AllEcho h key src a.packet.nonce) (sym a.answered) e.0,
              rw a.answered e.1,
            )
      ]
