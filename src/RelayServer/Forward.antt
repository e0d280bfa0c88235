-- ===== src/RelayServer/Forward.antt =====
-- `forward`: the loop of one session's task, whose state is the two addresses and the limiter.
use hextet.Base.{
  ℕ, zero, suc, ap, sym, subst, ◌∷◌, ◌≡◌, ◌≢◌, ◌<◌, ◌≤◌, refl, ◌⊎◌, inl, inr, arith, false, not, [],
  length, take, length-take-le, ◌==◌, if◌then◌else◌, Option, none, some, option_same, Option-cases,
  Bool-cases,
}
use hextet.Base.Bytes.{Bytes}
use hextet.Endpoint.{Endpoint, normalize, endpoint_equality, endpoint_same_iff}
use hextet.Wire.Relay.{is_relay_frame}
use hextet.RelayServer.Table.{SessionAddrs}
use hextet.RelayServer.Limiter.{PacketLimiter, allow}

abbrev pub forward_buf : ℕ
forward_buf = 2048

pub record Forwarder : Type 0 where
  pub addrs : SessionAddrs
  pub limiter : PacketLimiter

-- Where a packet came from: `SocketAddr`.
pub data SocketAddr : Type 0 where
  v4 : SocketAddr
  v6 : Endpoint → SocketAddr

-- What wakes the task: new addresses (or the end of the channel), or a datagram at a time.
pub data Wake : Type 0 where
  updated : Option SessionAddrs → Wake
  received : Bytes → SocketAddr → ℕ → Wake

-- What it does then: go on, after sending a datagram or not, or stop.
pub data Next : Type 0 where
  idle : Forwarder → Next
  sent : Forwarder → Bytes → Endpoint → Next
  stopped : Next

-- The other side's address; none for a stranger and for a session that is half open.
unfoldable pub destination : SessionAddrs → Endpoint → Option Endpoint
destination (a, b) from =
    if option_same (some from) a then b else if option_same (some from) b then a else none

-- The socket's buffer takes the first 2048 bytes of a datagram.
unfoldable pub forward_packet : Forwarder → Bytes → Endpoint → ℕ → Next
unfolding destination is_relay_frame allow
forward_packet f datagram src now =
    let buf = take forward_buf datagram in
    if is_relay_frame buf
    then idle f
    else if length buf == forward_buf
    then idle f
    else elim (destination f.addrs (normalize src)) [
      | none ↦ idle f
      | some dst ↦
          let limited = allow f.limiter now in
          let after : Forwarder = record { addrs = f.addrs; limiter = limited.0 } in
          if not limited.1 then idle after else sent after buf dst
    ]

unfoldable pub forward : Forwarder → Wake → Next
unfolding forward_packet
forward f (updated none) = stopped
forward f (updated (some addrs)) = idle (record { addrs = addrs; limiter = f.limiter })
forward f (received datagram v4 now) = idle f
forward f (received datagram (v6 src) now) = forward_packet f datagram src now

-- The two ends of a session, in either order.
abbrev pub Opposite : SessionAddrs → Endpoint → Endpoint → Type 0
Opposite (a, b) from dst = ((a ≡ some from) × (b ≡ some dst)) ⊎ ((b ≡ some from) × (a ≡ some dst))

destination-Opposite :
    (addrs : SessionAddrs) (from dst : Endpoint)
    → destination addrs from ≡ some dst
    → Opposite addrs from dst
unfolding destination
destination-Opposite (none, none) from dst h = ground (arith, h)
destination-Opposite (none, some b) from dst h = ground (arith, h, endpoint_same_iff from b)
destination-Opposite (some a, none) from dst h = ground (arith, h, endpoint_same_iff from a)
destination-Opposite (some a, some b) from dst h =
    ground (arith, h, endpoint_same_iff from a, endpoint_same_iff from b)

not_full : (n m : ℕ) → (n == m) ≡ false → n ≢ m
not_full n m h q = ground (arith, h, q)

below_full : (n m : ℕ) → (n == m) ≡ false → n ≤ m → n < m
below_full n m h k = ground (arith, h, k)

take_short : (n : ℕ) (xs : Bytes) → length (take n xs) ≢ n → take n xs ≡ xs
take_short zero xs h = absurd (h refl)
take_short (suc n) [] h = refl
take_short (suc n) (x ∷ xs) h = ap (◌∷◌ x) (take_short n xs (λ e. h (ap suc e)))

-- A sent datagram is one that just came, whole, from one side to the other.
abbrev pub Relayed : Forwarder → Wake → Forwarder → Bytes → Endpoint → Type 0
Relayed f wake after payload dst =
    (src : Endpoint) × (now : ℕ) × (wake ≡ received payload (v6 src) now)
    × Opposite f.addrs (normalize src) dst
    × (is_relay_frame payload ≡ false)
    × (length payload < forward_buf)
    × (after.addrs ≡ f.addrs)

abbrev IsRelayed : Forwarder → Wake → Next → Type 0
IsRelayed f wake (sent after payload dst) = Relayed f wake after payload dst
IsRelayed f wake _ = Unit {0}

forward_packet-IsRelayed :
    (f : Forwarder) (datagram : Bytes) (src : Endpoint) (now : ℕ)
    → IsRelayed f (received datagram (v6 src) now) (forward_packet f datagram src now)
unfolding forward_packet
forward_packet-IsRelayed f datagram src now =
    let buf = take forward_buf datagram in
    elim (Bool-cases (is_relay_frame buf)) [
      | inl control ↦ rw control tt
      | inr data_packet ↦ rw data_packet (elim (Bool-cases (length buf == forward_buf)) [
        | inl cut_off ↦ rw cut_off tt
        | inr fits ↦ rw fits (elim (Option-cases (destination f.addrs (normalize src))) [
          | inl stranger ↦ rw stranger tt
          | inr (dst, e) ↦ rw e (elim (Bool-cases (allow f.limiter now).1) [
            | inr over ↦ rw over tt
            | inl within ↦ rw within (
              src,
              now,
              ap (λ b. received b (v6 src) now)
                  (sym (take_short forward_buf datagram (not_full (length buf) forward_buf fits))),
              destination-Opposite f.addrs (normalize src) dst e,
              data_packet,
              below_full (length buf) forward_buf fits (length-take-le forward_buf datagram),
              refl,
            )
          ])
        ])
      ])
    ]

forward-IsRelayed : (f : Forwarder) (wake : Wake) → IsRelayed f wake (forward f wake)
unfolding forward
forward-IsRelayed f (updated none) = tt
forward-IsRelayed f (updated (some addrs)) = tt
forward-IsRelayed f (received datagram v4 now) = tt
forward-IsRelayed f (received datagram (v6 src) now) = forward_packet-IsRelayed f datagram src now

-- If a session's task sends a datagram, then it just received it, unchanged and shorter than the
-- buffer, from one of the two registered addresses; it goes to the other one, it is no control
-- frame, and the addresses stay as they are.
pub forward-sent :
    (f after : Forwarder) (wake : Wake) (payload : Bytes) (dst : Endpoint)
    → forward f wake ≡ sent after payload dst
    → Relayed f wake after payload dst
forward-sent f after wake payload dst h = subst (IsRelayed f wake) h (forward-IsRelayed f wake)
