-- ===== src/Wire/Beacon/RoundTrip.antt =====
-- The beacon's encoder followed by its decoder.
use hextet.Base.{
  ℕ, ◌+◌, ◌-◌, ◌*◌, ◌%◌, ◌≤◌, ◌≡◌, ◌≢◌, refl, ap, ◌∙◌, true, List, [], ◌++◌, length, take, arith,
  ℕ_equality, list_equality, length-take, =?_self, ltb_ge, ==_self,
}
use hextet.Base.Bytes.{Bytes, concat}
use hextet.Base.Bytes.Endian.{length-to_be_bytes, from_be_bytes, from_be_bytes-to_be_bytes}
use hextet.Base.Bytes.Frame.{
  frame, total, slice_piece, byte_at_piece, slice-body, slice_trailer, length-frame,
}
use hextet.Base.Bytes.Slice.{slice, byte_at, slice_in, byte_at_in, get_or}
use hextet.Base.Outcome.{ok, panic, ◌>>=◌}
use mathlib.Core.List.{append-nil}
use hextet.Addr.{Ipv6Addr}
use hextet.Crypto.{verify_truncated_left, Hmac, Ed25519, tag_verifies}
use hextet.Wire.Addresses.{
  read_addresses, total-AreAddresses, read_addresses-frame, read_addresses-ne-panic,
}
use hextet.Wire.Beacon.{BeaconError, Beacon, IsBeacon, magic, header, encode, decode, decode_fields}

-- A buffer whose parts are known is decoded to the beacon of those parts.
module _ (h : Hmac) (e : Ed25519) (key bytes port seq node : Bytes) (n : ℕ) (addrs : List Ipv6Addr)
    (body tag : Bytes) (few : n ≤ 4) (size : length bytes ≡ 50 + 16 * n + 16)
    (at_magic : slice {E = BeaconError} bytes 0 4 ≡ ok magic)
    (at_version : byte_at {E = BeaconError} bytes 4 ≡ ok 1)
    (at_kind : byte_at {E = BeaconError} bytes 5 ≡ ok 1)
    (at_reserved : byte_at {E = BeaconError} bytes 7 ≡ ok 0)
    (at_count : byte_at {E = BeaconError} bytes 6 ≡ ok n)
    (at_body : slice {E = BeaconError} bytes 0 (50 + 16 * n) ≡ ok body)
    (at_tag : slice {E = BeaconError} bytes (50 + 16 * n) (50 + 16 * n + 16) ≡ ok tag)
    (good_tag : verify_truncated_left h key body tag ≡ true)
    (at_port : slice {E = BeaconError} bytes 8 10 ≡ ok port)
    (at_seq : slice {E = BeaconError} bytes 10 18 ≡ ok seq)
    (at_key : slice {E = BeaconError} bytes 18 50 ≡ ok node) (good_key : e.is_point node ≡ true)
    (at_addresses : read_addresses {E = BeaconError} bytes n 50 ≡ ok addrs) where
  unmac : 50 + 16 * n + 16 - 16 ≡ 50 + 16 * n
  unmac = omega arith

  decode_parts :
      decode h e bytes key
      ≡ ok (record {
        node_public_key = node;
        listen_port = from_be_bytes port;
        seq = from_be_bytes seq;
        addresses = addrs;
      })
  unfolding decode decode_fields
  decode_parts = simp (
    size,
    ltb_ge (50 + 16 * n + 16) 66 (omega arith),
    at_magic,
    =?_self {A = Bytes} magic,
    at_version,
    at_kind,
    at_reserved,
    at_count,
    ltb_ge 4 n few,
    ==_self (50 + 16 * n + 16),
    unmac,
    at_body,
    at_tag,
    good_tag,
    at_port,
    at_seq,
    at_key,
    good_key,
    at_addresses,
  )

module _ (h : Hmac) (e : Ed25519) (b : Beacon) (key : Bytes) (v : IsBeacon e b) where
  abbrev pieces : List Bytes
  pieces = header b ++ b.addresses

  abbrev mac : Bytes
  mac = take 16 (h.tag key (concat pieces))

  abbrev n : ℕ
  n = length b.addresses

  length-mac : length mac ≡ 16
  length-mac = length-take 16 _ (omega (arith, h.length_tag key (concat pieces)))

  total-pieces : total pieces ≡ 50 + 16 * n
  total-pieces = omega (
    arith,
    length-to_be_bytes,
    total-AreAddresses b.addresses v.are_addresses,
    v.is_key.key_length,
  )

  long : length (frame pieces mac []) ≡ 50 + 16 * n + 16
  long = omega (arith, length-frame pieces mac [], total-pieces, length-mac)

  count : n % 256 ≡ n
  count = omega (arith, v.few)

  encode_value : encode h b key ≡ ok (frame pieces mac [])
  unfolding encode
  encode_value = simp (ltb_ge 4 n v.few, append-nil)

  -- What was encoded is decoded again.
  decode_frame : decode h e (frame pieces mac []) key ≡ ok b
  decode_frame =
      decode_parts h e key (frame pieces mac []) _ _ _ n b.addresses (concat pieces) mac v.few long
        (slice_piece pieces mac [] 0 0 4 refl refl refl) (byte_at_piece pieces mac [] 1 4 refl refl)
        (byte_at_piece pieces mac [] 2 5 refl refl) (byte_at_piece pieces mac [] 4 7 refl refl)
        (byte_at_piece pieces mac [] 3 6 refl refl ∙ ap ok count)
        (slice-body pieces mac [] (50 + 16 * n) total-pieces)
        (slice_trailer pieces mac [] (50 + 16 * n) (50 + 16 * n + 16) total-pieces
          (ap (λ k. 50 + 16 * n + k) length-mac))
        (tag_verifies h key (concat pieces))
        (slice_piece pieces mac [] 5 8 10 refl refl (omega (arith, length-to_be_bytes)))
        (slice_piece pieces mac [] 6 10 18 refl (omega (arith, length-to_be_bytes))
          (omega (arith, length-to_be_bytes)))
        (slice_piece pieces mac [] 7 18 50 refl (omega (arith, length-to_be_bytes))
          (omega (arith, v.is_key.key_length)))
        v.is_key.on_curve
        (read_addresses-frame (header b) b.addresses mac [] 50 v.are_addresses
          (omega (arith, length-to_be_bytes, v.is_key.key_length)))
      ∙ simp (
        from_be_bytes-to_be_bytes 2 b.listen_port v.port_u16,
        from_be_bytes-to_be_bytes 8 b.seq v.seq_u64,
      )

  -- A well-formed beacon is encoded, and decoded again under the same key.
  pub decode-encode_beacon : (encode h b key >>= λ bytes. decode h e bytes key) ≡ ok b
  decode-encode_beacon = rw encode_value decode_frame

decode_fields-ne-panic :
    (e : Ed25519) (bytes : Bytes) (n : ℕ)
    → 50 + 16 * n + 16 ≤ length bytes
    → decode_fields e bytes n ≢ panic
unfolding decode_fields
decode_fields-ne-panic e bytes n long q = ground (
  arith,
  slice_in {E = BeaconError} bytes 8 10,
  slice_in {E = BeaconError} bytes 10 18,
  slice_in {E = BeaconError} bytes 18 50,
  read_addresses-ne-panic {E = BeaconError} bytes n 50,
)

-- The beacon's decoder panics on no input.
decode-ne-panic_beacon : (h : Hmac) (e : Ed25519) (bytes key : Bytes) → decode h e bytes key ≢ panic
unfolding decode
decode-ne-panic_beacon h e bytes key q =
    let n = get_or bytes 6 0 in
    ground (
      arith,
      slice_in {E = BeaconError} bytes 0 4,
      byte_at_in {E = BeaconError} bytes 4,
      byte_at_in {E = BeaconError} bytes 5,
      byte_at_in {E = BeaconError} bytes 7,
      byte_at_in {E = BeaconError} bytes 6,
      slice_in {E = BeaconError} bytes 0 (50 + 16 * n + 16 - 16),
      slice_in {E = BeaconError} bytes (50 + 16 * n + 16 - 16) (length bytes),
      decode_fields-ne-panic e bytes n,
    )
