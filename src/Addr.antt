-- ===== src/Addr.antt =====
-- Addresses, crates/core/src/addr.rs and network.rs: which addresses may serve as a WireGuard
-- endpoint, and how a node's overlay address follows from the network's prefix and its key. An
-- `Ipv6Addr` is the list of its 16 octets.
pub mod Endpoints
pub mod Derived
use hextet.Base.{
  ℕ, ◌+◌, ◌*◌, ◌≡◌, Bool, not, ◌&&◌, List, [], ◌∷◌, ◌++◌, length, take, drop, ◌==◌, ◌=?◌, Option,
  none, some, if◌then◌else◌, ℕ_equality, list_equality,
}
use Prim.Native.Nat.{bit_and}
use hextet.Base.Assoc.{lookup, insert}
use hextet.Base.Bytes.{Bytes, AreBytes}
use hextet.Base.Bytes.Endian.{to_be_bytes, from_be_bytes}
use hextet.Base.Bytes.Slice.{get_or}
use hextet.Base.Outcome.{Outcome, ok, err, ◌>>=◌, ◌>>◌, reject_if}
use hextet.Crypto.{PublicKey, repeat_byte}

abbrev pub Ipv6Addr : Type 0
Ipv6Addr = Bytes

pub record IsIpv6Addr (a : Ipv6Addr) : Type 0 where
  pub octet_count : length a ≡ 16
  pub octets : AreBytes a

abbrev pub octet : Ipv6Addr → ℕ → ℕ
octet a i = get_or a i 0

-- `segments()[0]`.
abbrev pub segment0 : Ipv6Addr → ℕ
segment0 a = octet a 0 * 256 + octet a 1

unfoldable pub is_ula : Ipv6Addr → Bool
is_ula a = bit_and (segment0 a) 0xfe00 == 0xfc00

unfoldable pub is_link_local : Ipv6Addr → Bool
is_link_local a = bit_and (segment0 a) 0xffc0 == 0xfe80

-- The four tests of the standard library.
abbrev pub is_loopback : Ipv6Addr → Bool
is_loopback a = a =? (repeat_byte 15 0 ++ 1 ∷ [])

abbrev pub is_multicast : Ipv6Addr → Bool
is_multicast a = octet a 0 == 0xff

abbrev pub is_unspecified : Ipv6Addr → Bool
is_unspecified a = a =? repeat_byte 16 0

abbrev pub is_ipv4_mapped : Ipv6Addr → Bool
is_ipv4_mapped a = take 12 a =? (repeat_byte 10 0 ++ 0xff ∷ 0xff ∷ [])

unfoldable pub is_usable_endpoint_addr : Ipv6Addr → Bool
is_usable_endpoint_addr a =
    not (is_ula a)
    && not (is_link_local a)
    && not (is_loopback a)
    && not (is_multicast a)
    && not (is_unspecified a)
    && not (is_ipv4_mapped a)

-- SHA-256, of the crate sha2.
pub record Sha256 : Type 0 where
  pub digest : Bytes → Bytes
  pub digest_length : (message : Bytes) → length (digest message) ≡ 32
  pub digest_bytes : (message : Bytes) → AreBytes (digest message)

-- HKDF-SHA256 with the salt `hextet-v1`: key material, the purpose and the output's length.
pub record Hkdf : Type 0 where
  pub expand : Bytes → Bytes → ℕ → Bytes
  pub expand_length : (key info : Bytes) (n : ℕ) → length (expand key info n) ≡ n
  pub expand_bytes : (key info : Bytes) (n : ℕ) → AreBytes (expand key info n)

-- "network-id".
abbrev pub network_id : Bytes
network_id = b'n' ∷ b'e' ∷ b't' ∷ b'w' ∷ b'o' ∷ b'r' ∷ b'k' ∷ b'-' ∷ b'i' ∷ b'd' ∷ []

-- `NetworkPrefix::derive`: six bytes, the first 0xfd.
unfoldable pub derive_prefix : Hkdf → Bytes → Bytes
derive_prefix k key = 0xfd ∷ k.expand key network_id 5

-- `NetworkPrefix::network`.
unfoldable pub network : Bytes → Ipv6Addr
network prefix = prefix ++ repeat_byte 10 0

pub record NodeAddr : Type 0 where
  pub subnet_id : ℕ
  pub site : Ipv6Addr
  pub address : Ipv6Addr

pub data AddrError : Type 0 where
  degenerate_iid : AddrError
  subnet_collision : Bytes → Bytes → AddrError

-- "hextet-v1 subnet-id" and "hextet-v1 iid".
abbrev pub subnet_label : Bytes
subnet_label =
    b'h' ∷ b'e' ∷ b'x' ∷ b't' ∷ b'e' ∷ b't' ∷ b'-' ∷ b'v' ∷ b'1' ∷ b' ' ∷ b's' ∷ b'u' ∷ b'b' ∷ b'n'
    ∷ b'e' ∷ b't' ∷ b'-' ∷ b'i' ∷ b'd' ∷ []

abbrev pub iid_label : Bytes
iid_label =
    b'h' ∷ b'e' ∷ b'x' ∷ b't' ∷ b'e' ∷ b't' ∷ b'-' ∷ b'v' ∷ b'1' ∷ b' ' ∷ b'i' ∷ b'i' ∷ b'd' ∷ []

-- The prefix is the six bytes of a `NetworkPrefix`.
unfoldable pub derive_node_addr : Sha256 → Bytes → PublicKey → Outcome AddrError NodeAddr
derive_node_addr s prefix pubkey =
    let subnet_id = from_be_bytes (take 2 (s.digest (subnet_label ++ pubkey))) in
    let iid = take 8 (s.digest (iid_label ++ pubkey)) in
    let site = prefix ++ to_be_bytes 2 subnet_id ++ repeat_byte 8 0 in
    do
      reject_if (iid =? repeat_byte 8 0) degenerate_iid
      ok (record { subnet_id = subnet_id; site = site; address = take 8 site ++ iid })

-- The loop of `check_subnet_collisions`; `seen` maps a subnet id to the name that took it.
unfoldable pub check_collisions_from :
    List (ℕ × Bytes) → List (Bytes × NodeAddr) → Outcome AddrError (Unit {0})
check_collisions_from seen [] = ok tt
check_collisions_from seen ((name, addr) ∷ nodes) =
    let rest = check_collisions_from (insert addr.subnet_id name seen) nodes in
    elim (lookup addr.subnet_id seen) [ some prev ↦ err (subnet_collision prev name) | none ↦ rest ]

unfoldable pub check_subnet_collisions : List (Bytes × NodeAddr) → Outcome AddrError (Unit {0})
unfolding check_collisions_from
check_subnet_collisions nodes = check_collisions_from [] nodes
