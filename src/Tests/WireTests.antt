-- ===== src/Tests/WireTests.antt =====
-- Frames of the three kinds, and addresses.
use hextet.Base.{◌≡◌, refl, true, [], ◌∷◌, ◌++◌, take, arith, ◌↔◌, ℕ_equality, list_equality}
use hextet.Base.Bytes.{Bytes}
use hextet.Base.Bytes.Endian.{to_be_bytes}
use hextet.Base.Outcome.{ok, ◌>>=◌}
use hextet.Crypto.{repeat_byte, toy_hmac, toy_ed25519}
use hextet.Wire.Probe.{ProbePacket, request}
use hextet.Wire.Relay.{RelayFrame, IsRelayFrame, register, session_key_of}
use hextet.Wire.Relay.RoundTrip.{decode-encode_frame}
use hextet.Wire.Relay.Canonical.{encode-decode_frame}
use hextet.Wire.Beacon.{Beacon, IsBeacon}
use hextet.Wire.Beacon.RoundTrip.{decode-encode_beacon}
use hextet.Addr.{Ipv6Addr, IsIpv6Addr, is_usable_endpoint_addr}
use hextet.Addr.Endpoints.{IsRoutable, is_usable_endpoint_addr_iff}
use hextet.Tests.{are_bytes, are_bytes-AreBytes, repeat_byte-IsPublicKey}

abbrev key : Bytes
key = repeat_byte 32 5

abbrev probe : ProbePacket
probe = record { kind = request; nonce = 0x0102030405060708; reply_port = 51820 }

abbrev frame : RelayFrame
frame = record {
  kind = register;
  port = 51820;
  seq = 1700000000;
  self_key = repeat_byte 32 1;
  peer_key = repeat_byte 32 2;
}

frame-IsRelayFrame : IsRelayFrame toy_ed25519 frame
frame-IsRelayFrame = record {
  port_u16 = omega arith;
  seq_u64 = omega arith;
  self_is_key = repeat_byte-IsPublicKey 1 (omega arith);
  peer_is_key = repeat_byte-IsPublicKey 2 (omega arith);
  two_ends = λ h. cc h;
}

abbrev frame_bytes : Bytes
frame_bytes = hextet.Wire.Relay.encode toy_hmac frame key ++ []

decode-encode_frame_example :
    hextet.Wire.Relay.decode toy_hmac toy_ed25519 frame_bytes key ≡ ok frame
decode-encode_frame_example =
    decode-encode_frame toy_hmac toy_ed25519 frame key [] frame-IsRelayFrame

frame_bytes_small : are_bytes frame_bytes ≡ true
unfolding hextet.Wire.Relay.encode to_be_bytes
frame_bytes_small = refl

encode-decode_frame_example :
    (take 96 frame_bytes ≡ hextet.Wire.Relay.encode toy_hmac frame key)
    × IsRelayFrame toy_ed25519 frame
encode-decode_frame_example =
    encode-decode_frame toy_hmac toy_ed25519 frame_bytes key
      (decode-encode_frame toy_hmac toy_ed25519 frame key [] frame-IsRelayFrame)
      (are_bytes-AreBytes frame_bytes frame_bytes_small)

abbrev a : Bytes
a = 1 ∷ []

abbrev b : Bytes
b = 2 ∷ []

-- 2001:db8::1.
abbrev address : Ipv6Addr
address = 0x20 ∷ 0x01 ∷ 0x0d ∷ 0xb8 ∷ repeat_byte 11 0 ++ 1 ∷ []

address_small : are_bytes address ≡ true
address_small = refl

address-IsIpv6Addr : IsIpv6Addr address
address-IsIpv6Addr = record {
  octet_count = refl;
  octets = are_bytes-AreBytes address address_small;
}

is_usable_endpoint_addr_iff_example : (is_usable_endpoint_addr address ≡ true) ↔ IsRoutable address
is_usable_endpoint_addr_iff_example = is_usable_endpoint_addr_iff address address-IsIpv6Addr

abbrev beacon : Beacon
beacon = record {
  node_public_key = repeat_byte 32 1;
  listen_port = 51820;
  seq = 1700000000;
  addresses = address ∷ [];
}

beacon-IsBeacon : IsBeacon toy_ed25519 beacon
beacon-IsBeacon = record {
  is_key = repeat_byte-IsPublicKey 1 (omega arith);
  port_u16 = omega arith;
  seq_u64 = omega arith;
  are_addresses = (address-IsIpv6Addr, tt);
  few = omega arith;
}

decode-encode_beacon_example :
    (hextet.Wire.Beacon.encode toy_hmac beacon key >>= λ bytes.
    hextet.Wire.Beacon.decode toy_hmac toy_ed25519 bytes key)
    ≡ ok beacon
decode-encode_beacon_example = decode-encode_beacon toy_hmac toy_ed25519 beacon key beacon-IsBeacon
