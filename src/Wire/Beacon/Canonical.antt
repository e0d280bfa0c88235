-- ===== src/Wire/Beacon/Canonical.antt =====
-- The datagrams that the beacon's decoder accepts.
use hextet.Base.{
  ℕ, ◌+◌, ◌-◌, ◌*◌, ◌%◌, ◌≤◌, ◌≡◌, refl, ap, subst, sym, ◌∙◌, true, List, [], ◌∷◌, ◌++◌, length,
  take, ◌=?◌, arith, =?_eq, ℕ_equality, list_equality, ltb_ge, take_all,
}
use hextet.Base.Bytes.{Bytes, AreBytes, concat}
use hextet.Base.Bytes.Cut.{
  slice-cut, cut_byte, concat-Layout, take-Layout, length-cut, be_cut, AreBytes-cut,
}
use hextet.Base.Bytes.Endian.{from_be_bytes}
use hextet.Base.Bytes.Glue.{Layout, field}
use hextet.Base.Bytes.Slice.{cut, slice_in, byte_at_in, get_or}
use hextet.Base.Outcome.{ok}
use hextet.Crypto.{Hmac, Ed25519, verify_truncated_left, verified_tag}
use hextet.Wire.Addresses.{read_addresses, read_addresses-Holds}
use hextet.Wire.Beacon.{
  BeaconError, Beacon, IsBeacon, magic, version, header, encode, decode, decode_fields,
}

module _ (h : Hmac) (e : Ed25519) (bytes key : Bytes) {b : Beacon}
    (accepted : decode h e bytes key ≡ ok b) where
  abbrev n : ℕ
  n = get_or bytes 6 0

  abbrev body_len : ℕ
  body_len = 50 + 16 * n

  size : (length bytes ≡ body_len + 16) × (n ≤ 4)
  unfolding decode
  size = ground (
    arith,
    slice_in {E = BeaconError} bytes 0 4,
    byte_at_in {E = BeaconError} bytes 4,
    byte_at_in {E = BeaconError} bytes 5,
    byte_at_in {E = BeaconError} bytes 7,
    byte_at_in {E = BeaconError} bytes 6,
  )

  checked :
      ((cut bytes 0 4 =? magic) ≡ true)
      × (get_or bytes 4 0 ≡ version)
      × (get_or bytes 5 0 ≡ 1)
      × (get_or bytes 7 0 ≡ 0)
      × (verify_truncated_left h key
            (cut bytes 0 (body_len + 16 - 16))
            (cut bytes (body_len + 16 - 16) (length bytes))
          ≡ true)
      × (decode_fields e bytes n ≡ ok b)
  unfolding decode
  checked = ground (
    arith,
    size.0,
    size.1,
    slice_in {E = BeaconError} bytes 0 4,
    byte_at_in {E = BeaconError} bytes 4,
    byte_at_in {E = BeaconError} bytes 5,
    byte_at_in {E = BeaconError} bytes 7,
    byte_at_in {E = BeaconError} bytes 6,
    slice_in {E = BeaconError} bytes 0 (body_len + 16 - 16),
    slice_in {E = BeaconError} bytes (body_len + 16 - 16) (length bytes),
  )

  fields :
      decode_fields e bytes n ≡ ok b
      → (b.listen_port ≡ from_be_bytes (cut bytes 8 10))
        × (b.seq ≡ from_be_bytes (cut bytes 10 18))
        × (b.node_public_key ≡ cut bytes 18 50)
        × (e.is_point b.node_public_key ≡ true)
        × (read_addresses {E = BeaconError} bytes n 50 ≡ ok b.addresses)
  unfolding decode_fields
  fields q = ground (
    arith,
    size.0,
    slice_in {E = BeaconError} bytes 8 10,
    slice_in {E = BeaconError} bytes 10 18,
    slice_in {E = BeaconError} bytes 18 50,
  )

  abbrev head : List Bytes
  head =
      cut bytes 0 4
      ∷ (get_or bytes 4 0 ∷ [])
      ∷ (get_or bytes 5 0 ∷ [])
      ∷ (get_or bytes 6 0 ∷ [])
      ∷ (get_or bytes 7 0 ∷ [])
      ∷ cut bytes 8 10
      ∷ cut bytes 10 18
      ∷ cut bytes 18 50
      ∷ []

  whole : body_len + 16 ≤ length bytes
  whole = omega (arith, size.0)

  raw-Layout :
      Layout BeaconError bytes body_len 50 b.addresses
      → Layout BeaconError bytes body_len 0 (head ++ b.addresses)
  raw-Layout lay =
      let part = slice-cut BeaconError bytes (body_len + 16) whole in
      let byte = cut_byte BeaconError bytes (body_len + 16) whole in
      field 4 (part 0 4 (omega arith) (omega arith)) (
        field 5 (byte 4 (omega arith)) (
          field 6 (byte 5 (omega arith)) (
            field 7 (byte 6 (omega arith)) (
              field 8 (byte 7 (omega arith)) (
                field 10 (part 8 10 (omega arith) (omega arith)) (
                  field 18 (part 10 18 (omega arith) (omega arith))
                    (field 50 (part 18 50 (omega arith) (omega arith)) lay)))))))

  unmac : body_len + 16 - 16 ≡ body_len
  unmac = omega arith

  tag_lem :
      verify_truncated_left h key
          (cut bytes 0 (body_len + 16 - 16))
          (cut bytes (body_len + 16 - 16) (length bytes))
        ≡ true
      → cut bytes body_len (body_len + 16) ≡ take 16 (h.tag key (cut bytes 0 body_len))
  tag_lem good =
      verified_tag h key (cut bytes 0 body_len) (cut bytes body_len (body_len + 16)) 16
        (subst
          (λ c. verify_truncated_left h key (cut bytes 0 body_len) (cut bytes body_len c) ≡ true)
          size.0
          (subst
            (λ a. verify_truncated_left h key (cut bytes 0 a) (cut bytes a (length bytes)) ≡ true)
            unmac good))
        (omega (
          arith,
          length-cut bytes (body_len + 16) whole body_len (body_len + 16) (omega arith)
              (omega arith),
        ))

  -- What is accepted is what the encoder writes for the result.
  pub encode-decode-IsBeacon : AreBytes bytes → (encode h b key ≡ ok bytes) × IsBeacon e b
  unfolding encode
  encode-decode-IsBeacon bs =
      let (good_magic, good_version, good_kind, reserved, good_tag, rest) = checked in
      let (is_port, is_seq, is_key, point, addresses) = fields rest in
      let (count, valid, lay) =
        read_addresses-Holds BeaconError bytes n 50 body_len bs refl (omega (arith, whole))
          addresses in
      let len = length-cut bytes (body_len + 16) whole in
      let port = be_cut bytes bs 8 10 2 (len 8 10 (omega arith) (omega arith)) is_port in
      let seq = be_cut bytes bs 10 18 8 (len 10 18 (omega arith) (omega arith)) is_seq in
      let count_byte : get_or bytes 6 0 ≡ length b.addresses % 256 = omega (arith, count, size.1) in
      let raw-pieces : head ≡ header b = cc (
        =?_eq {A = Bytes} (cut bytes 0 4) magic good_magic,
        good_version,
        good_kind,
        count_byte,
        reserved,
        port.0,
        seq.0,
        is_key,
      ) in
      let laid = raw-Layout lay in
      let body_is : cut bytes 0 body_len ≡ concat (head ++ b.addresses) =
        concat-Layout BeaconError bytes (body_len + 16) whole 0 body_len (omega arith) (omega arith)
          laid in
      let split : bytes ≡ concat (head ++ b.addresses) ++ cut bytes body_len (body_len + 16) =
        sym (take_all (body_len + 16) bytes (sym size.0))
        ∙ take-Layout BeaconError bytes (body_len + 16) whole body_len (body_len + 16) (omega arith)
            (omega arith) laid in
      let tag_is : cut bytes body_len (body_len + 16)
          ≡ take 16 (h.tag key (concat (head ++ b.addresses))) =
        tag_lem good_tag ∙ ap (λ m. take 16 (h.tag key m)) body_is in
      (
        rw (ltb_ge 4 (length b.addresses) (omega (arith, count, size.1))) (
            ap ok (
              sym (
                split
                ∙ ap (◌++◌ (concat (head ++ b.addresses))) tag_is
                ∙ ap
                    (λ ps.
                      concat (ps ++ b.addresses)
                      ++ take 16 (h.tag key (concat (ps ++ b.addresses))))
                    raw-pieces))),
        record {
          is_key = record {
            key_length = ap length is_key ∙ len 18 50 (omega arith) (omega arith);
            key_bytes = rw is_key (AreBytes-cut bytes bs 18 50);
            on_curve = point;
          };
          port_u16 = port.1;
          seq_u64 = seq.1;
          are_addresses = valid;
          few = omega (arith, count, size.1);
        },
      )
