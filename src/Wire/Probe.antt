-- ===== src/Wire/Probe.antt =====
-- The doctor's probe, crates/core/src/probe.rs: 32 bytes, of which the first 16 are under the MAC.
pub mod RoundTrip
pub mod Canonical
use hextet.Base.{
  ℕ, ◌+◌, ◌^◌, ◌<◌, Bool, not, List, [], ◌∷◌, ◌++◌, length, take, ltb, ◌==◌, ◌=?◌, if◌then◌else◌,
  ℕ_equality, list_equality,
}
use hextet.Base.Bytes.{Bytes, concat}
use hextet.Base.Bytes.Endian.{to_be_bytes, from_be_bytes}
use hextet.Base.Bytes.Slice.{slice, byte_at}
use hextet.Base.Outcome.{Outcome, ok, err, ◌>>=◌, ◌>>◌, reject_if}
use hextet.Crypto.{Hmac, verify_truncated_left}

abbrev pub magic : Bytes
magic = b'H' ∷ b'X' ∷ b'T' ∷ b'P' ∷ []

abbrev pub version : ℕ
version = 1

abbrev pub packet_len : ℕ
packet_len = 32

abbrev pub maced_len : ℕ
maced_len = 16

abbrev pub mac_len : ℕ
mac_len = 16

pub data ProbeError : Type 0 where
  too_short bad_magic bad_mac : ProbeError
  bad_version bad_kind : ℕ → ProbeError

pub data ProbeKind : Type 0 where
  request response unsolicited : ProbeKind

abbrev pub as_u8 : ProbeKind → ℕ
as_u8 request = 1
as_u8 response = 2
as_u8 unsolicited = 3

unfoldable pub from_u8 : ℕ → Outcome ProbeError ProbeKind
from_u8 v =
    if v == 1
    then ok request
    else if v == 2
    then ok response
    else if v == 3
    then ok unsolicited
    else err (bad_kind v)

pub record ProbePacket : Type 0 where
  pub kind : ProbeKind
  pub nonce : ℕ
  pub reply_port : ℕ

-- The `u64` and the `u16`.
pub record IsProbePacket (p : ProbePacket) : Type 0 where
  pub nonce_u64 : p.nonce < 2 ^ 64
  pub port_u16 : p.reply_port < 2 ^ 16

-- What the MAC covers, and the whole packet.
abbrev pub pieces : ProbePacket → List Bytes
pieces p =
    magic
    ∷ (version ∷ [])
    ∷ (as_u8 p.kind ∷ [])
    ∷ to_be_bytes 8 p.nonce
    ∷ to_be_bytes 2 p.reply_port
    ∷ []

unfoldable pub encode : Hmac → ProbePacket → Bytes → Bytes
encode h p key = let out = concat (pieces p) in out ++ take mac_len (h.tag key out)

unfoldable pub decode : Hmac → Bytes → Bytes → Outcome ProbeError ProbePacket
decode h bytes key = do
  reject_if (ltb (length bytes) packet_len) too_short
  m ← slice bytes 0 4
  reject_if (not (m =? magic)) bad_magic
  v ← byte_at bytes 4
  reject_if (not (v == version)) (bad_version v)
  k ← byte_at bytes 5
  kind ← from_u8 k
  body ← slice bytes 0 maced_len
  tag ← slice bytes maced_len (maced_len + mac_len)
  reject_if (not (verify_truncated_left h key body tag)) bad_mac
  nonce ← slice bytes 6 14
  port ← slice bytes 14 16
  ok (record { kind = kind; nonce = from_be_bytes nonce; reply_port = from_be_bytes port })
