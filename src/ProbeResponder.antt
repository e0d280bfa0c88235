-- ===== src/ProbeResponder.antt =====
-- The doctor's responder, crates/engine/src/probe_responder.rs: its rate limiter, and one round of the
-- loop `serve`. Times are nanoseconds.
pub mod Limits
pub mod Replies
use hextet.Base.{
  ℕ, ◌-◌, ◌*◌, Bool, true, false, not, List, [], ◌∷◌, length, take, ltb, leb, ◌==◌, if◌then◌else◌,
  Option, none, some, ℕ_equality, list_equality,
}
use hextet.Addr.{Ipv6Addr}
use hextet.Base.Assoc.{lookup, insert, remove_all, keys_where}
use hextet.Base.Bytes.{Bytes}
use hextet.Base.Outcome.{Outcome, ok, err, panic}
use hextet.Crypto.{Hmac}
use hextet.Endpoint.{Endpoint}
use hextet.RelayServer.Forward.{SocketAddr, v4, v6}
use hextet.Wire.Probe.{
  ProbePacket, ProbeKind, ProbeError, request, response, unsolicited, encode, decode,
}

abbrev pub second : ℕ
second = 1000000000

abbrev pub min_request_interval : ℕ
min_request_interval = second

abbrev pub rate_table_max : ℕ
rate_table_max = 64

abbrev pub rate_entry_ttl : ℕ
rate_entry_ttl = 60 * second

abbrev pub buf_len : ℕ
buf_len = 128

-- `seen`: when an address was last let through.
abbrev pub RateLimiter : Type 0
RateLimiter = List (Ipv6Addr × ℕ)

abbrev pub is_expired : ℕ → ℕ → Bool
is_expired now t = not (ltb (now - t) rate_entry_ttl)

-- `retain`.
unfoldable pub retain : RateLimiter → ℕ → RateLimiter
retain seen now = remove_all (keys_where (is_expired now) seen) seen

-- Room for one more: a full table drops its old entries, and if none is old it is cleared.
unfoldable pub make_room : RateLimiter → ℕ → RateLimiter
make_room seen now =
    if not (leb rate_table_max (length seen))
    then seen
    else if leb rate_table_max (length (retain seen now))
    then []
    else retain seen now

-- `duration_since` is zero where the clock seems to have gone back.
abbrev pub is_too_soon : Option ℕ → ℕ → Bool
is_too_soon none now = false
is_too_soon (some prev) now = ltb (now - prev) min_request_interval

unfoldable pub allow : RateLimiter → Ipv6Addr → ℕ → RateLimiter × Bool
allow seen ip now =
    if is_too_soon (lookup ip seen) now
    then (seen, false)
    else (insert ip now (make_room seen now), true)

-- A datagram from the responder's own port, and one that a new task sends later from a new port.
pub data Effect : Type 0 where
  replied : Bytes → Endpoint → Effect
  delayed : Bytes → Endpoint → Effect

abbrev pub packet_of : ProbeKind → ℕ → ProbePacket
packet_of kind nonce = record { kind = kind; nonce = nonce; reply_port = 0 }

abbrev pub target_of : Endpoint → ℕ → Endpoint
target_of src port = record { ip = src.ip; port = port; flowinfo = 0; scope_id = src.scope_id }

unfoldable pub answer : Hmac → Bytes → ProbePacket → Endpoint → List Effect
answer h key packet src =
    let first = replied (encode h (packet_of response packet.nonce) key) src in
    let second =
      delayed (encode h (packet_of unsolicited packet.nonce) key)
        (target_of src packet.reply_port) in
    if not (packet.reply_port == 0) then first ∷ second ∷ [] else first ∷ []

abbrev pub is_request : ProbeKind → Bool
is_request request = true
is_request _ = false

unfoldable pub respond :
    Hmac
    → Bytes
    → RateLimiter
    → Endpoint
    → ℕ
    → Outcome ProbeError ProbePacket
    → RateLimiter × List Effect
respond h key seen src now (ok packet) =
    let allowed = allow seen src.ip now in
    if not (is_request packet.kind)
    then (seen, [])
    else if not allowed.1
    then (allowed.0, [])
    else (allowed.0, answer h key packet src)
respond h key seen src now (err e) = (seen, [])
respond h key seen src now panic = (seen, [])

-- One round of `serve`, on a datagram that came; the loop ends only when the socket fails.
unfoldable pub serve :
    Hmac → Bytes → RateLimiter → Bytes → SocketAddr → ℕ → RateLimiter × List Effect
serve h key seen datagram v4 now = (seen, [])
serve h key seen datagram (v6 src) now =
    respond h key seen src now (decode h (take buf_len datagram) key)
