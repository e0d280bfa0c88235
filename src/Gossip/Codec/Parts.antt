-- ===== src/Gossip/Codec/Parts.antt =====
-- The decoder's stages on a buffer whose parts are known.
use hextet.Base.{
  ℕ, ◌+◌, ◌-◌, ◌*◌, ◌≤◌, ◌≡◌, refl, true, false, not, ◌&&◌, List, length, ◌=?◌, arith, ℕ_equality,
  list_equality, =?_self, ltb_ge, ==_self,
}
use hextet.Addr.{Ipv6Addr}
use hextet.Base.Bytes.{Bytes}
use hextet.Base.Bytes.Endian.{from_be_bytes}
use hextet.Base.Bytes.Slice.{slice, byte_at}
use hextet.Base.Outcome.{ok, ◌>>=◌}
use hextet.Base.Utf8.{is_utf8}
use hextet.Crypto.{Ed25519, PublicKey}
use hextet.Gossip.Codec.{
  magic, decode, decode_payload, decode_endpoint, decode_member, decode_revocation, check_signature,
  no_sig,
}
use hextet.Gossip.Entry.{Entry, Kind, GossipError, as_u8, from_u8, with_sig, kind_equality}
use hextet.Wire.Addresses.{read_addresses}

from_u8-as_u8 : (k : Kind) → from_u8 (as_u8 k) ≡ ok k
unfolding from_u8
from_u8-as_u8 Kind.endpoint = refl
from_u8-as_u8 Kind.member = refl
from_u8-as_u8 Kind.revocation = refl

module _ (e : Ed25519) (bytes seq node signer : Bytes) (kind : Kind) (long : 142 ≤ length bytes)
    (at_magic : slice {E = GossipError} bytes 0 4 ≡ ok magic)
    (at_version : byte_at {E = GossipError} bytes 4 ≡ ok 1)
    (at_kind : byte_at {E = GossipError} bytes 5 ≡ ok (as_u8 kind))
    (at_seq : slice {E = GossipError} bytes 6 14 ≡ ok seq)
    (at_node : slice {E = GossipError} bytes 14 46 ≡ ok node)
    (at_signer : slice {E = GossipError} bytes 46 78 ≡ ok signer)
    (good_node : e.is_point node ≡ true) (good_signer : e.is_point signer ≡ true) where
  pub decode_header : decode e bytes ≡ (
      decode_payload kind bytes node signer (from_be_bytes seq) >>= λ entry.
      check_signature e kind bytes node signer entry)
  unfolding decode
  decode_header = simp (
    ltb_ge (length bytes) 142 long,
    at_magic,
    =?_self {A = Bytes} magic,
    at_version,
    at_kind,
    from_u8-as_u8 kind,
    at_seq,
    at_node,
    at_signer,
    good_node,
    good_signer,
  )

pub decode_endpoint_parts :
    (bytes port : Bytes) (n : ℕ) (addrs : List Ipv6Addr) (node : PublicKey) (seq : ℕ)
    → n ≤ 4
    → length bytes ≡ 78 + 3 + 16 * n + 64
    → byte_at {E = GossipError} bytes 78 ≡ ok n
    → slice {E = GossipError} bytes 79 81 ≡ ok port
    → read_addresses {E = GossipError} bytes n 81 ≡ ok addrs
    → decode_endpoint bytes node seq
      ≡ ok (Entry.endpoint node addrs (from_be_bytes port) seq no_sig)
unfolding decode_endpoint
decode_endpoint_parts bytes port n addrs node seq few size at_count at_port at_addrs =
    simp (size, at_count, ltb_ge 4 n few, ==_self (78 + 3 + 16 * n + 64), at_port, at_addrs)

pub decode_member_parts :
    (bytes site name invite_id : Bytes) (n : ℕ) (node signer : PublicKey) (seq : ℕ)
    → length bytes ≡ 78 + 3 + n + 16 + 64
    → slice {E = GossipError} bytes 78 80 ≡ ok site
    → byte_at {E = GossipError} bytes 80 ≡ ok n
    → slice {E = GossipError} bytes 81 (81 + n) ≡ ok name
    → is_utf8 name ≡ true
    → slice {E = GossipError} bytes (81 + n) (81 + n + 16) ≡ ok invite_id
    → decode_member bytes node signer seq
      ≡ ok (Entry.member node name (from_be_bytes site) seq no_sig signer invite_id)
unfolding decode_member
decode_member_parts bytes site name invite_id n node signer seq size at_site at_count at_name good
      at_id =
    simp (size, at_site, at_count, ==_self (78 + 3 + n + 16 + 64), at_name, good, at_id)

pub decode_revocation_size :
    (bytes : Bytes) (node signer : PublicKey) (seq : ℕ)
    → length bytes ≡ 142
    → decode_revocation bytes node signer seq ≡ ok (Entry.revocation node seq no_sig signer)
unfolding decode_revocation
decode_revocation_size bytes node signer seq size = rw size

pub check_signature_parts :
    (e : Ed25519) (kind : Kind) (bytes node signer : Bytes) (entry : Entry) (n : ℕ)
    (region sig : Bytes)
    → length bytes ≡ n + 64
    → slice {E = GossipError} bytes n (n + 64) ≡ ok sig
    → slice {E = GossipError} bytes 0 n ≡ ok region
    → e.verify signer region sig ≡ true
    → ((kind =? Kind.endpoint) && not (signer =? node)) ≡ false
    → (not (kind =? Kind.endpoint) && (signer =? node)) ≡ false
    → check_signature e kind bytes node signer entry ≡ ok (with_sig sig entry)
unfolding check_signature
check_signature_parts e kind bytes node signer entry n region sig size at_sig at_region good self
      other =
    let start : length bytes - 64 ≡ n = omega arith in
    simp (size, back, at_sig, at_region, good, self, other)
  where
    back : n + 64 - 64 ≡ n
    back = omega arith
