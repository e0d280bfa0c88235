-- ===== src/Wire/Relay/SessionKeys.antt =====
-- The session key as its two ends derive it, and the test that tells control frames from traffic.
use hextet.Base.{
  ℕ, ◌≤◌, ◌≡◌, ◌⊎◌, ◌↔◌, true, false, ◌∷◌, ◌++◌, arith, ℕ_equality, list_equality, list_same,
}
use hextet.Base.Bytes.{Bytes}
use hextet.Base.Bytes.Order.{compare_bytes_eq, compare_bytes-flip}
use hextet.Crypto.{Hmac}
use hextet.Wire.Relay.{RelayFrame, session_key_of, is_relay_frame, encode}

-- Both ends compute the same key, and two pairs of nodes have one key only if they are the same
-- two nodes.
session_key_of_iff :
    (a b c d : Bytes)
    → (session_key_of a b ≡ session_key_of c d) ↔ ((a ≡ c) × (b ≡ d)) ⊎ ((a ≡ d) × (b ≡ c))
unfolding session_key_of
session_key_of_iff a b c d =
    (λ h. ground arith, λ h. ground (arith, compare_bytes-flip a b, compare_bytes_eq a b))

-- Every WireGuard message starts with a type of 1 to 4 and three zero bytes; none is taken for a
-- control frame, and each control frame that is encoded is.
pub is_relay_frame_wireguard :
    (kind : ℕ) (rest : Bytes)
    → 1 ≤ kind
    → kind ≤ 4
    → is_relay_frame (kind ∷ 0 ∷ 0 ∷ 0 ∷ rest) ≡ false
unfolding is_relay_frame list_same
is_relay_frame_wireguard kind rest h k = ground arith

pub is_relay_frame-encode :
    (h : Hmac) (f : RelayFrame) (key rest : Bytes) → is_relay_frame (encode h f key ++ rest) ≡ true
unfolding is_relay_frame encode list_same
is_relay_frame-encode h f key rest = ground arith
