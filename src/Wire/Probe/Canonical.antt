-- ===== src/Wire/Probe/Canonical.antt =====
-- The packets that the probe's decoder accepts.
use hextet.Base.{
  ℕ, ◌≤◌, ◌≡◌, ap, ◌∙◌, true, List, [], ◌∷◌, ◌++◌, length, take, ◌=?◌, arith, =?_eq, ℕ_equality,
  list_equality,
}
use hextet.Base.Bytes.{Bytes, AreBytes, concat}
use hextet.Base.Bytes.Cut.{slice-cut, cut_byte, concat-Layout, take-Layout, length-cut, be_cut}
use hextet.Base.Bytes.Endian.{from_be_bytes}
use hextet.Base.Bytes.Glue.{Layout, end, field}
use hextet.Base.Bytes.Slice.{cut, slice_in, byte_at_in, get_or}
use hextet.Base.Outcome.{ok}
use hextet.Crypto.{Hmac, verify_truncated_left, verified_tag}
use hextet.Wire.Probe.{
  ProbeKind, ProbeError, ProbePacket, IsProbePacket, magic, version, as_u8, from_u8, pieces, encode,
  decode,
}

from_u8_inv : (v : ℕ) {k : ProbeKind} → from_u8 v ≡ ok k → v ≡ as_u8 k
unfolding from_u8
from_u8_inv v e = ground arith

module _ (h : Hmac) (bytes key : Bytes) {p : ProbePacket}
    (accepted : decode h bytes key ≡ ok p) where
  long : 32 ≤ length bytes
  unfolding decode
  long = ground arith

  parts :
      ((cut bytes 0 4 =? magic) ≡ true)
      × (get_or bytes 4 0 ≡ version)
      × (from_u8 (get_or bytes 5 0) ≡ ok p.kind)
      × (p.nonce ≡ from_be_bytes (cut bytes 6 14))
      × (p.reply_port ≡ from_be_bytes (cut bytes 14 16))
      × (verify_truncated_left h key (cut bytes 0 16) (cut bytes 16 32) ≡ true)
  unfolding decode
  parts = ground (
    arith,
    long,
    slice_in {E = ProbeError} bytes 0 4,
    byte_at_in {E = ProbeError} bytes 4,
    byte_at_in {E = ProbeError} bytes 5,
    slice_in {E = ProbeError} bytes 0 16,
    slice_in {E = ProbeError} bytes 16 32,
    slice_in {E = ProbeError} bytes 6 14,
    slice_in {E = ProbeError} bytes 14 16,
  )

  abbrev raw : List Bytes
  raw =
      cut bytes 0 4
      ∷ (get_or bytes 4 0 ∷ [])
      ∷ (get_or bytes 5 0 ∷ [])
      ∷ cut bytes 6 14
      ∷ cut bytes 14 16
      ∷ []

  raw-Layout : Layout ProbeError bytes 16 0 raw
  raw-Layout = field 4 (slice-cut ProbeError bytes 32 long 0 4 (omega arith) (omega arith)) (
      field 5 (cut_byte ProbeError bytes 32 long 4 (omega arith)) (
        field 6 (cut_byte ProbeError bytes 32 long 5 (omega arith)) (
          field 14 (slice-cut ProbeError bytes 32 long 6 14 (omega arith) (omega arith)) (
            field 16 (slice-cut ProbeError bytes 32 long 14 16 (omega arith) (omega arith))
              (end (omega (arith, long)))))))

  -- A byte string that the decoder accepts starts with the 32 bytes that the encoder writes for
  -- the result, and the result's fields are in range.
  pub encode-decode_probe : AreBytes bytes → (take 32 bytes ≡ encode h p key) × IsProbePacket p
  unfolding encode
  encode-decode_probe bs =
      let len = length-cut bytes 32 long in
      let nonce = be_cut bytes bs 6 14 8 (len 6 14 (omega arith) (omega arith)) parts.3 in
      let port = be_cut bytes bs 14 16 2 (len 14 16 (omega arith) (omega arith)) parts.4 in
      let raw-pieces : raw ≡ pieces p = cc (
        =?_eq {A = Bytes} (cut bytes 0 4) magic parts.0,
        parts.1,
        from_u8_inv _ parts.2,
        nonce.0,
        port.0,
      ) in
      (
        take-Layout ProbeError bytes 32 long 16 32 (omega arith) (omega arith) raw-Layout
            ∙ ap (◌++◌ (concat raw)) (
                verified_tag h key (cut bytes 0 16) (cut bytes 16 32) 16 parts.5
                  (len 16 32 (omega arith) (omega arith))
                ∙ ap (λ m. take 16 (h.tag key m))
                    (concat-Layout ProbeError bytes 32 long 0 16 (omega arith) (omega arith)
                      raw-Layout))
            ∙ ap (λ ps. concat ps ++ take 16 (h.tag key (concat ps))) raw-pieces,
        record { nonce_u64 = nonce.1; port_u16 = port.1 },
      )
