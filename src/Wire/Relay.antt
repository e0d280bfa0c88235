-- ===== src/Wire/Relay.antt =====
-- The relay's control frame, crates/core/src/relay.rs: 96 bytes, of which 80 are under the MAC, and
-- the unordered key of the session that a frame is about.
pub mod RoundTrip
pub mod Canonical
pub mod SessionKeys
use hextet.Base.{
  ℕ, ◌+◌, ◌^◌, ◌<◌, ◌≢◌, Bool, not, ◌&&◌, List, [], ◌∷◌, ◌++◌, length, take, ltb, leb, ◌==◌, ◌=?◌,
  if◌then◌else◌, ℕ_equality, list_equality, Ordering,
}
use hextet.Base.Bytes.{Bytes, concat}
use hextet.Base.Bytes.Endian.{to_be_bytes, from_be_bytes}
use hextet.Base.Bytes.Order.{compare_bytes}
use hextet.Base.Bytes.Slice.{slice, byte_at}
use hextet.Base.Outcome.{Outcome, ok, err, ◌>>=◌, ◌>>◌, reject_if}
use hextet.Crypto.{Hmac, Ed25519, PublicKey, IsPublicKey, verify_truncated_left}

abbrev pub magic : Bytes
magic = b'H' ∷ b'X' ∷ b'T' ∷ b'R' ∷ []

abbrev pub version : ℕ
version = 1

abbrev pub frame_len : ℕ
frame_len = 96

abbrev pub maced_len : ℕ
maced_len = 80

abbrev pub mac_len : ℕ
mac_len = 16

pub data RelayError : Type 0 where
  too_short bad_magic bad_mac bad_public_key self_pair : RelayError
  bad_version bad_kind : ℕ → RelayError

pub data RelayKind : Type 0 where
  register register_ack unregister : RelayKind

abbrev pub as_u8 : RelayKind → ℕ
as_u8 register = 1
as_u8 register_ack = 2
as_u8 unregister = 3

unfoldable pub from_u8 : ℕ → Outcome RelayError RelayKind
from_u8 v =
    if v == 1
    then ok register
    else if v == 2
    then ok register_ack
    else if v == 3
    then ok unregister
    else err (bad_kind v)

pub record RelayFrame : Type 0 where
  pub kind : RelayKind
  pub port : ℕ
  pub seq : ℕ
  pub self_key : PublicKey
  pub peer_key : PublicKey

-- The field types, and the two ends are two nodes.
pub record IsRelayFrame (e : Ed25519) (f : RelayFrame) : Type 0 where
  pub port_u16 : f.port < 2 ^ 16
  pub seq_u64 : f.seq < 2 ^ 64
  pub self_is_key : IsPublicKey e f.self_key
  pub peer_is_key : IsPublicKey e f.peer_key
  pub two_ends : f.self_key ≢ f.peer_key

abbrev pub pieces : RelayFrame → List Bytes
pieces f =
    magic
    ∷ (version ∷ [])
    ∷ (as_u8 f.kind ∷ [])
    ∷ to_be_bytes 2 f.port
    ∷ to_be_bytes 8 f.seq
    ∷ f.self_key
    ∷ f.peer_key
    ∷ []

unfoldable pub encode : Hmac → RelayFrame → Bytes → Bytes
encode h f relay_key = let out = concat (pieces f) in out ++ take mac_len (h.tag relay_key out)

-- `NodePublicKey::from_bytes`.
abbrev pub key_from_bytes : Ed25519 → Bytes → Outcome RelayError PublicKey
key_from_bytes e raw = if e.is_point raw then ok raw else err bad_public_key

-- The part of `decode` behind the MAC check.
unfoldable pub decode_fields : Ed25519 → RelayKind → Bytes → Outcome RelayError RelayFrame
decode_fields e kind bytes = do
  port ← slice bytes 6 8
  seq ← slice bytes 8 16
  self_raw ← slice bytes 16 48
  peer_raw ← slice bytes 48 80
  reject_if (self_raw =? peer_raw) self_pair
  self_key ← key_from_bytes e self_raw
  peer_key ← key_from_bytes e peer_raw
  ok (record {
    kind = kind;
    port = from_be_bytes port;
    seq = from_be_bytes seq;
    self_key = self_key;
    peer_key = peer_key;
  })

unfoldable pub decode : Hmac → Ed25519 → Bytes → Bytes → Outcome RelayError RelayFrame
decode h e bytes relay_key = do
  reject_if (ltb (length bytes) frame_len) too_short
  m ← slice bytes 0 4
  reject_if (not (m =? magic)) bad_magic
  v ← byte_at bytes 4
  reject_if (not (v == version)) (bad_version v)
  k ← byte_at bytes 5
  kind ← from_u8 k
  body ← slice bytes 0 maced_len
  tag ← slice bytes maced_len frame_len
  reject_if (not (verify_truncated_left h relay_key body tag)) bad_mac
  decode_fields e kind bytes

abbrev pub SessionKey : Type 0
SessionKey = Bytes × Bytes

-- `a <= b` on arrays is the lexicographic order.
unfoldable pub session_key_of : Bytes → Bytes → SessionKey
session_key_of a b = elim (compare_bytes a b) [ Ordering.gt ↦ (b, a) | _ ↦ (a, b) ]

abbrev pub session_key : RelayFrame → SessionKey
session_key f = session_key_of f.self_key f.peer_key

unfoldable pub is_relay_frame : Bytes → Bool
is_relay_frame bytes = leb 4 (length bytes) && (take 4 bytes =? magic)
