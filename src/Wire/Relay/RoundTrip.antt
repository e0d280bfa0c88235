-- ===== src/Wire/Relay/RoundTrip.antt =====
-- The relay's encoder followed by its decoder.
use hextet.Base.{
  ◌≤◌, ◌≡◌, ◌≢◌, refl, sym, ap, ◌∙◌, false, [], ◌++◌, length, take, length-append,
  take_of_length-le, ◌=?◌, arith, ℕ_equality, list_equality, length-take, =?_self, =?_eq, ltb_ge,
  Bool-cases, inl, inr,
}
use mathlib.Core.List.{append-nil}
use hextet.Base.Bytes.{Bytes, concat}
use hextet.Base.Bytes.Endian.{length-to_be_bytes, from_be_bytes-to_be_bytes}
use hextet.Base.Bytes.Frame.{
  frame, slice_piece, byte_at_piece, slice-body, slice_trailer, length-frame, length-concat,
}
use hextet.Base.Bytes.Slice.{slice_in, byte_at_in}
use hextet.Base.Outcome.{ok, panic}
use hextet.Crypto.{Hmac, Ed25519, tag_verifies}
use hextet.Wire.Relay.{
  RelayKind, register, register_ack, unregister, RelayError, RelayFrame, IsRelayFrame, magic, as_u8,
  from_u8, pieces, encode, decode, decode_fields,
}

from_u8-as_u8 : (k : RelayKind) → from_u8 (as_u8 k) ≡ ok k
unfolding from_u8
from_u8-as_u8 register = refl
from_u8-as_u8 register_ack = refl
from_u8-as_u8 unregister = refl

different : (a b : Bytes) → a ≢ b → (a =? b) ≡ false
different a b h = elim (Bool-cases (a =? b)) [
  | inl same ↦ absurd (h (=?_eq a b same))
  | inr other ↦ other
]

module _ (h : Hmac) (e : Ed25519) (f : RelayFrame) (key rest : Bytes) where
  abbrev mac : Bytes
  mac = take 16 (h.tag key (concat (pieces f)))

  length-mac : length mac ≡ 16
  length-mac = length-take 16 _ (omega (arith, h.length_tag key (concat (pieces f))))

  -- A well-formed control frame that was encoded is decoded again under the same key, whatever
  -- bytes follow it.
  pub decode-encode_frame : IsRelayFrame e f → decode h e (encode h f key ++ rest) key ≡ ok f
  unfolding encode decode decode_fields
  decode-encode_frame v = simp (
    ltb_ge _ 96 long,
    slice_piece (pieces f) mac rest 0 0 4 refl refl refl,
    =?_self {A = Bytes} magic,
    byte_at_piece (pieces f) mac rest 1 4 refl refl,
    byte_at_piece (pieces f) mac rest 2 5 refl refl,
    from_u8-as_u8 f.kind,
    slice-body (pieces f) mac rest 80 (omega (arith, length-to_be_bytes)),
    slice_trailer (pieces f) mac rest 80 96 (omega (arith, length-to_be_bytes))
        (omega (arith, length-mac)),
    tag_verifies h key (concat (pieces f)),
    slice_piece (pieces f) mac rest 3 6 8 refl refl (omega (arith, length-to_be_bytes)),
    slice_piece (pieces f) mac rest 4 8 16 refl (omega (arith, length-to_be_bytes))
        (omega (arith, length-to_be_bytes)),
    slice_piece (pieces f) mac rest 5 16 48 refl (omega (arith, length-to_be_bytes))
        (omega (arith, length-to_be_bytes)),
    slice_piece (pieces f) mac rest 6 48 80 refl (omega (arith, length-to_be_bytes))
        (omega (arith, length-to_be_bytes)),
    different f.self_key f.peer_key v.two_ends,
    v.self_is_key.on_curve,
    v.peer_is_key.on_curve,
    from_be_bytes-to_be_bytes 2 f.port v.port_u16,
    from_be_bytes-to_be_bytes 8 f.seq v.seq_u64,
  )
    where
      long : 96 ≤ length (frame (pieces f) mac rest)
      long = omega (arith, length-frame (pieces f) mac rest, length-to_be_bytes, length-mac)

-- A frame on the wire.
pub length-encode_frame :
    (h : Hmac) (e : Ed25519) (f : RelayFrame) (key : Bytes)
    → IsRelayFrame e f
    → length (encode h f key) ≡ 96
unfolding encode
length-encode_frame h e f key v = omega (
  arith,
  length-append (concat (pieces f)) (mac h e f key []),
  length-concat (pieces f),
  length-to_be_bytes,
  length-mac h e f key [],
  v.self_is_key.key_length,
  v.peer_is_key.key_length,
)

-- A buffer of 256 bytes holds all of a frame.
pub decode-take-encode :
    (h : Hmac) (e : Ed25519) (f : RelayFrame) (key : Bytes)
    → IsRelayFrame e f
    → decode h e (take 256 (encode h f key)) key ≡ ok f
decode-take-encode h e f key v =
    ap (λ bytes. decode h e bytes key)
      (take_of_length-le 256 (encode h f key) (omega (arith, length-encode_frame h e f key v))
        ∙ sym (append-nil (encode h f key)))
    ∙ decode-encode_frame h e f key [] v

decode_fields-ne-panic :
    (e : Ed25519) (kind : RelayKind) (bytes : Bytes)
    → 96 ≤ length bytes
    → decode_fields e kind bytes ≢ panic
unfolding decode_fields
decode_fields-ne-panic e kind bytes long q = ground (
  arith,
  slice_in {E = RelayError} bytes 6 8,
  slice_in {E = RelayError} bytes 8 16,
  slice_in {E = RelayError} bytes 16 48,
  slice_in {E = RelayError} bytes 48 80,
)

-- The control frame's decoder panics on no input.
decode-ne-panic_frame : (h : Hmac) (e : Ed25519) (bytes key : Bytes) → decode h e bytes key ≢ panic
unfolding decode from_u8
decode-ne-panic_frame h e bytes key q = ground (
  arith,
  slice_in {E = RelayError} bytes 0 4,
  byte_at_in {E = RelayError} bytes 4,
  byte_at_in {E = RelayError} bytes 5,
  slice_in {E = RelayError} bytes 0 80,
  slice_in {E = RelayError} bytes 80 96,
  decode_fields-ne-panic e register bytes,
  decode_fields-ne-panic e register_ack bytes,
  decode_fields-ne-panic e unregister bytes,
)
