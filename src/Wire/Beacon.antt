-- ===== src/Wire/Beacon.antt =====
-- The LAN beacon, crates/core/src/beacon.rs: a header of 50 bytes, up to four addresses, and a MAC
-- over all of it. A beacon has no trailing bytes.
pub mod RoundTrip
pub mod Canonical
use hextet.Base.{
  ℕ, ◌+◌, ◌-◌, ◌*◌, ◌%◌, ◌^◌, ◌≤◌, ◌<◌, Bool, not, List, [], ◌∷◌, ◌++◌, length, take, ltb, ◌==◌,
  ◌=?◌, if◌then◌else◌, ℕ_equality, list_equality,
}
use hextet.Addr.{Ipv6Addr, is_usable_endpoint_addr}
use hextet.Base.Bytes.{Bytes, concat}
use hextet.Base.Bytes.Endian.{to_be_bytes, from_be_bytes}
use hextet.Base.Bytes.Slice.{slice, byte_at}
use hextet.Base.Outcome.{Outcome, ok, err, ◌>>=◌, ◌>>◌, reject_if}
use hextet.Crypto.{Hmac, Ed25519, PublicKey, IsPublicKey, verify_truncated_left}
use hextet.Endpoint.{Endpoint, endpoints_of}
use hextet.Wire.Addresses.{read_addresses, AreAddresses}

abbrev pub magic : Bytes
magic = b'H' ∷ b'X' ∷ b'T' ∷ b'L' ∷ []

abbrev pub version : ℕ
version = 1

abbrev pub max_addrs : ℕ
max_addrs = 4

abbrev pub header_len : ℕ
header_len = 50

abbrev pub mac_len : ℕ
mac_len = 16

abbrev pub kind_announce : ℕ
kind_announce = 1

pub data BeaconError : Type 0 where
  too_short bad_magic bad_reserved bad_mac bad_public_key : BeaconError
  bad_version bad_kind too_many_addrs : ℕ → BeaconError
  length_mismatch : ℕ → ℕ → BeaconError

pub record Beacon : Type 0 where
  pub node_public_key : PublicKey
  pub listen_port : ℕ
  pub seq : ℕ
  pub addresses : List Ipv6Addr

pub record IsBeacon (e : Ed25519) (b : Beacon) : Type 0 where
  pub is_key : IsPublicKey e b.node_public_key
  pub port_u16 : b.listen_port < 2 ^ 16
  pub seq_u64 : b.seq < 2 ^ 64
  pub are_addresses : AreAddresses b.addresses
  pub few : length b.addresses ≤ max_addrs

-- `n as u8`, `reserved`, then the fields.
abbrev pub header : Beacon → List Bytes
header b =
    magic
    ∷ (version ∷ [])
    ∷ (kind_announce ∷ [])
    ∷ ((length b.addresses % 256) ∷ [])
    ∷ (0 ∷ [])
    ∷ to_be_bytes 2 b.listen_port
    ∷ to_be_bytes 8 b.seq
    ∷ b.node_public_key
    ∷ []

unfoldable pub encode : Hmac → Beacon → Bytes → Outcome BeaconError Bytes
encode h b lan_key =
    let n = length b.addresses in
    let out = concat (header b ++ b.addresses) in
    do reject_if (ltb max_addrs n) (too_many_addrs n); ok (out ++ take mac_len (h.tag lan_key out))

-- The part of `decode` behind the MAC check.
unfoldable pub decode_fields : Ed25519 → Bytes → ℕ → Outcome BeaconError Beacon
decode_fields e bytes n = do
  port ← slice bytes 8 10
  seq ← slice bytes 10 18
  key ← slice bytes 18 50
  reject_if (not (e.is_point key)) bad_public_key
  addresses ← read_addresses bytes n header_len
  ok (record {
    node_public_key = key;
    listen_port = from_be_bytes port;
    seq = from_be_bytes seq;
    addresses = addresses;
  })

unfoldable pub decode : Hmac → Ed25519 → Bytes → Bytes → Outcome BeaconError Beacon
decode h e bytes lan_key = do
  reject_if (ltb (length bytes) (header_len + mac_len)) too_short
  m ← slice bytes 0 4
  reject_if (not (m =? magic)) bad_magic
  v ← byte_at bytes 4
  reject_if (not (v == version)) (bad_version v)
  k ← byte_at bytes 5
  reject_if (not (k == kind_announce)) (bad_kind k)
  r ← byte_at bytes 7
  reject_if (not (r == 0)) bad_reserved
  n ← byte_at bytes 6
  reject_if (ltb max_addrs n) (too_many_addrs n)
  let expected = header_len + 16 * n + mac_len
  reject_if (not (length bytes == expected)) (length_mismatch expected (length bytes))
  body ← slice bytes 0 (expected - mac_len)
  tag ← slice bytes (expected - mac_len) (length bytes)
  reject_if (not (verify_truncated_left h lan_key body tag)) bad_mac
  decode_fields e bytes n

-- The addresses that may serve as an endpoint, with the beacon's port.
unfoldable pub endpoints : Beacon → List Endpoint
unfolding endpoints_of
endpoints b = endpoints_of b.addresses b.listen_port
