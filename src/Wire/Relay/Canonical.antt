-- ===== src/Wire/Relay/Canonical.antt =====
-- The frames that the relay's decoder accepts.
use hextet.Base.{
  ℕ, ◌≤◌, ◌≡◌, ap, ◌∙◌, true, false, List, [], ◌∷◌, ◌++◌, length, take, ◌=?◌, arith, =?_eq, =?_ne,
  ℕ_equality, list_equality,
}
use hextet.Base.Bytes.{Bytes, AreBytes, concat}
use hextet.Base.Bytes.Cut.{
  slice-cut, cut_byte, concat-Layout, take-Layout, length-cut, be_cut, AreBytes-cut,
}
use hextet.Base.Bytes.Endian.{from_be_bytes}
use hextet.Base.Bytes.Glue.{Layout, end, field}
use hextet.Base.Bytes.Slice.{cut, slice_in, byte_at_in, get_or}
use hextet.Base.Outcome.{ok}
use hextet.Crypto.{Hmac, Ed25519, verify_truncated_left, verified_tag}
use hextet.Wire.Relay.{
  RelayKind, RelayError, RelayFrame, IsRelayFrame, magic, version, as_u8, from_u8, pieces, encode,
  decode, decode_fields,
}

from_u8_inv : (v : ℕ) {k : RelayKind} → from_u8 v ≡ ok k → v ≡ as_u8 k
unfolding from_u8
from_u8_inv v q = ground arith

module _ (h : Hmac) (e : Ed25519) (bytes key : Bytes) {f : RelayFrame}
    (accepted : decode h e bytes key ≡ ok f) where
  long : 96 ≤ length bytes
  unfolding decode
  long = ground arith

  header :
      ((cut bytes 0 4 =? magic) ≡ true)
      × (get_or bytes 4 0 ≡ version)
      × (k : RelayKind) × (from_u8 (get_or bytes 5 0) ≡ ok k)
      × (verify_truncated_left h key (cut bytes 0 80) (cut bytes 80 96) ≡ true)
      × (decode_fields e k bytes ≡ ok f)
  unfolding decode
  header = ground (
    arith,
    long,
    slice_in {E = RelayError} bytes 0 4,
    byte_at_in {E = RelayError} bytes 4,
    byte_at_in {E = RelayError} bytes 5,
    slice_in {E = RelayError} bytes 0 80,
    slice_in {E = RelayError} bytes 80 96,
  )

  fields :
      (k : RelayKind)
      → decode_fields e k bytes ≡ ok f
      → (f.kind ≡ k)
        × (f.port ≡ from_be_bytes (cut bytes 6 8))
        × (f.seq ≡ from_be_bytes (cut bytes 8 16))
        × (f.self_key ≡ cut bytes 16 48)
        × (f.peer_key ≡ cut bytes 48 80)
        × ((cut bytes 16 48 =? cut bytes 48 80) ≡ false)
        × (e.is_point f.self_key ≡ true)
        × (e.is_point f.peer_key ≡ true)
  unfolding decode_fields
  fields k q = ground (
    arith,
    long,
    slice_in {E = RelayError} bytes 6 8,
    slice_in {E = RelayError} bytes 8 16,
    slice_in {E = RelayError} bytes 16 48,
    slice_in {E = RelayError} bytes 48 80,
  )

  abbrev raw : List Bytes
  raw =
      cut bytes 0 4
      ∷ (get_or bytes 4 0 ∷ [])
      ∷ (get_or bytes 5 0 ∷ [])
      ∷ cut bytes 6 8
      ∷ cut bytes 8 16
      ∷ cut bytes 16 48
      ∷ cut bytes 48 80
      ∷ []

  raw-Layout : Layout RelayError bytes 80 0 raw
  raw-Layout =
      let part = slice-cut RelayError bytes 96 long in
      let byte = cut_byte RelayError bytes 96 long in
      field 4 (part 0 4 (omega arith) (omega arith)) (
        field 5 (byte 4 (omega arith)) (
          field 6 (byte 5 (omega arith)) (
            field 8 (part 6 8 (omega arith) (omega arith)) (
              field 16 (part 8 16 (omega arith) (omega arith)) (
                field 48 (part 16 48 (omega arith) (omega arith)) (
                  field 80 (part 48 80 (omega arith) (omega arith))
                    (end (omega (arith, long)))))))))

  -- A byte string that the decoder accepts starts with the 96 bytes that the encoder writes for
  -- the result, and the result is a well-formed frame of two different nodes.
  pub encode-decode_frame : AreBytes bytes → (take 96 bytes ≡ encode h f key) × IsRelayFrame e f
  unfolding encode
  encode-decode_frame bs =
      let (good_magic, good_version, k, good_kind, good_tag, rest) = header in
      let (is_kind, is_port, is_seq, is_self, is_peer, distinct, self_point, peer_point) =
        fields k rest in
      let len = length-cut bytes 96 long in
      let port = be_cut bytes bs 6 8 2 (len 6 8 (omega arith) (omega arith)) is_port in
      let seq = be_cut bytes bs 8 16 8 (len 8 16 (omega arith) (omega arith)) is_seq in
      let raw-pieces : raw ≡ pieces f = cc (
        =?_eq {A = Bytes} (cut bytes 0 4) magic good_magic,
        good_version,
        from_u8_inv _ good_kind,
        is_kind,
        port.0,
        seq.0,
        is_self,
        is_peer,
      ) in
      (
        take-Layout RelayError bytes 96 long 80 96 (omega arith) (omega arith) raw-Layout
            ∙ ap (◌++◌ (concat raw)) (
                verified_tag h key (cut bytes 0 80) (cut bytes 80 96) 16 good_tag
                  (len 80 96 (omega arith) (omega arith))
                ∙ ap (λ m. take 16 (h.tag key m))
                    (concat-Layout RelayError bytes 96 long 0 80 (omega arith) (omega arith)
                      raw-Layout))
            ∙ ap (λ ps. concat ps ++ take 16 (h.tag key (concat ps))) raw-pieces,
        record {
          port_u16 = port.1;
          seq_u64 = seq.1;
          self_is_key = record {
            key_length = ap length is_self ∙ len 16 48 (omega arith) (omega arith);
            key_bytes = rw is_self (AreBytes-cut bytes bs 16 48);
            on_curve = self_point;
          };
          peer_is_key = record {
            key_length = ap length is_peer ∙ len 48 80 (omega arith) (omega arith);
            key_bytes = rw is_peer (AreBytes-cut bytes bs 48 80);
            on_curve = peer_point;
          };
          two_ends =
              rw (is_self, is_peer)
                (=?_ne {A = Bytes} (cut bytes 16 48) (cut bytes 48 80) distinct);
        },
      )
