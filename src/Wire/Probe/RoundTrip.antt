-- ===== src/Wire/Probe/RoundTrip.antt =====
-- The probe's encoder followed by its decoder.
use hextet.Base.{
  ◌≤◌, ◌≡◌, ◌≢◌, refl, true, ◌++◌, length, take, arith, ℕ_equality, list_equality, length-take, [],
  length-append, =?_self, ltb_ge,
}
use hextet.Base.Bytes.{Bytes, concat}
use hextet.Base.Bytes.Endian.{length-to_be_bytes, from_be_bytes-to_be_bytes}
use hextet.Base.Bytes.Slice.{slice_in, byte_at_in}
use hextet.Base.Bytes.Frame.{
  frame, slice_piece, byte_at_piece, slice-body, slice_trailer, length-frame, length-concat,
}
use hextet.Base.Outcome.{ok, panic}
use hextet.Crypto.{Hmac, verify_truncated_left}
use hextet.Wire.Probe.{
  ProbeKind, request, response, unsolicited, ProbeError, ProbePacket, IsProbePacket, magic, as_u8,
  from_u8, pieces, encode, decode,
}

from_u8-as_u8 : (k : ProbeKind) → from_u8 (as_u8 k) ≡ ok k
unfolding from_u8
from_u8-as_u8 request = refl
from_u8-as_u8 response = refl
from_u8-as_u8 unsolicited = refl

module _ (h : Hmac) (p : ProbePacket) (key rest : Bytes) where
  abbrev mac : Bytes
  mac = take 16 (h.tag key (concat (pieces p)))

  length-mac : length mac ≡ 16
  length-mac = length-take 16 _ (omega (arith, h.length_tag key (concat (pieces p))))

  mac_verifies : verify_truncated_left h key (concat (pieces p)) mac ≡ true
  mac_verifies = rw (length-mac) (=?_self mac)

  -- A probe packet that was encoded is decoded again under the same key, whatever bytes follow
  -- it.
  pub decode-encode_probe : IsProbePacket p → decode h (encode h p key ++ rest) key ≡ ok p
  unfolding encode decode
  decode-encode_probe v = simp (
    ltb_ge _ 32 long,
    slice_piece (pieces p) mac rest 0 0 4 refl refl refl,
    =?_self {A = Bytes} magic,
    byte_at_piece (pieces p) mac rest 1 4 refl refl,
    byte_at_piece (pieces p) mac rest 2 5 refl refl,
    from_u8-as_u8 p.kind,
    slice-body (pieces p) mac rest 16 (omega (arith, length-to_be_bytes)),
    slice_trailer (pieces p) mac rest 16 32 (omega (arith, length-to_be_bytes))
        (omega (arith, length-mac)),
    mac_verifies,
    slice_piece (pieces p) mac rest 3 6 14 refl refl (omega (arith, length-to_be_bytes)),
    slice_piece (pieces p) mac rest 4 14 16 refl (omega (arith, length-to_be_bytes))
        (omega (arith, length-to_be_bytes)),
    from_be_bytes-to_be_bytes 8 p.nonce v.nonce_u64,
    from_be_bytes-to_be_bytes 2 p.reply_port v.port_u16,
  )
    where
      long : 32 ≤ length (frame (pieces p) mac rest)
      long = omega (arith, length-frame (pieces p) mac rest, length-to_be_bytes, length-mac)

-- A packet on the wire.
pub length-encode : (h : Hmac) (p : ProbePacket) (key : Bytes) → length (encode h p key) ≡ 32
unfolding encode
length-encode h p key = omega (
  arith,
  length-append (concat (pieces p)) (mac h p key []),
  length-concat (pieces p),
  length-to_be_bytes,
  length-mac h p key [],
)

-- The probe's decoder panics on no input.
decode-ne-panic_probe : (h : Hmac) (bytes key : Bytes) → decode h bytes key ≢ panic
unfolding decode from_u8
decode-ne-panic_probe h bytes key q = ground (
  arith,
  slice_in {E = ProbeError} bytes 0 4,
  byte_at_in {E = ProbeError} bytes 4,
  byte_at_in {E = ProbeError} bytes 5,
  slice_in {E = ProbeError} bytes 0 16,
  slice_in {E = ProbeError} bytes 16 32,
  slice_in {E = ProbeError} bytes 6 14,
  slice_in {E = ProbeError} bytes 14 16,
)
