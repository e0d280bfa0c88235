-- ===== src/Gossip/Entry.antt =====
-- `Entry` and `Kind`: an endpoint announcement, an admission, a revocation.
use hextet.Base.{
  ℕ, ◌^◌, ◌<◌, ◌≡◌, ◌↔◌, refl, Bool, true, List, [], length, ◌==◌, Equality, arith, if◌then◌else◌,
}
use hextet.Addr.{Ipv6Addr}
use hextet.Base.Bytes.{Bytes, AreBytes}
use hextet.Base.Utf8.{is_utf8}
use hextet.Base.Outcome.{Outcome, ok, err}
use hextet.Crypto.{Ed25519, PublicKey, IsPublicKey}
use hextet.Endpoint.{Endpoint, endpoints_of}
use hextet.Wire.Addresses.{AreAddresses}

pub data GossipError : Type 0 where
  too_short bad_magic bad_utf8 bad_signature bad_public_key : GossipError
  endpoint_not_self_signed self_issued : GossipError
  bad_version bad_kind too_many_addrs name_too_long : ℕ → GossipError
  length_mismatch : ℕ → ℕ → GossipError

pub data Kind : Type 0 where
  endpoint member revocation : Kind

abbrev pub as_u8 : Kind → ℕ
as_u8 endpoint = 1
as_u8 member = 2
as_u8 revocation = 3

unfoldable pub from_u8 : ℕ → Outcome GossipError Kind
from_u8 v =
    if v == 1
    then ok endpoint
    else if v == 2
    then ok member
    else if v == 3
    then ok revocation
    else err (bad_kind v)

abbrev pub kind_same : Kind → Kind → Bool
kind_same k l = as_u8 k == as_u8 l

kind_same_eq : (k l : Kind) → kind_same k l ≡ true → k ≡ l
kind_same_eq endpoint endpoint h = refl
kind_same_eq endpoint member h = cc
kind_same_eq endpoint revocation h = cc
kind_same_eq member endpoint h = cc
kind_same_eq member member h = refl
kind_same_eq member revocation h = cc
kind_same_eq revocation endpoint h = cc
kind_same_eq revocation member h = cc
kind_same_eq revocation revocation h = refl

pub kind_same_iff : (k l : Kind) → (kind_same k l ≡ true) ↔ (k ≡ l)
kind_same_iff k l = (kind_same_eq k l, λ h. ground arith)

instance abbrev pub kind_equality : Equality Kind
kind_equality = record { same = kind_same; same_iff = kind_same_iff }

-- The fields in the source's order; `endpoint` is signed by the node itself.
pub data Entry : Type 0 where
  endpoint : (node : PublicKey) (endpoints : List Ipv6Addr) (port seq : ℕ) (sig : Bytes) → Entry
  member :
      (node : PublicKey) (name : Bytes) (site seq : ℕ) (sig : Bytes) (issued_by : PublicKey)
      (invite_id : Bytes)
      → Entry
  revocation : (node : PublicKey) (seq : ℕ) (sig : Bytes) (issued_by : PublicKey) → Entry

abbrev pub kind_of : Entry → Kind
kind_of (Entry.endpoint _ _ _ _ _) = Kind.endpoint
kind_of (Entry.member _ _ _ _ _ _ _) = Kind.member
kind_of (Entry.revocation _ _ _ _) = Kind.revocation

abbrev pub node_of : Entry → PublicKey
node_of (Entry.endpoint node _ _ _ _) = node
node_of (Entry.member node _ _ _ _ _ _) = node
node_of (Entry.revocation node _ _ _) = node

abbrev pub signer_of : Entry → PublicKey
signer_of (Entry.endpoint node _ _ _ _) = node
signer_of (Entry.member _ _ _ _ _ issued_by _) = issued_by
signer_of (Entry.revocation _ _ _ issued_by) = issued_by

abbrev pub seq_of : Entry → ℕ
seq_of (Entry.endpoint _ _ _ seq _) = seq
seq_of (Entry.member _ _ _ seq _ _ _) = seq
seq_of (Entry.revocation _ seq _ _) = seq

abbrev pub sig_of : Entry → Bytes
sig_of (Entry.endpoint _ _ _ _ sig) = sig
sig_of (Entry.member _ _ _ _ sig _ _) = sig
sig_of (Entry.revocation _ _ sig _) = sig

-- The assignment of the signature to an entry that was built without it.
abbrev pub with_sig : Bytes → Entry → Entry
with_sig s (Entry.endpoint node endpoints port seq _) = Entry.endpoint node endpoints port seq s
with_sig s (Entry.member node name site seq _ issued_by invite_id) =
    Entry.member node name site seq s issued_by invite_id
with_sig s (Entry.revocation node seq _ issued_by) = Entry.revocation node seq s issued_by

-- What the field types promise: keys, a `u64`, `u16`s, arrays of their lengths, and a `String`.
abbrev PayloadTyped : Entry → Type 0
PayloadTyped (Entry.endpoint _ endpoints port _ _) = AreAddresses endpoints × (port < 2 ^ 16)
PayloadTyped (Entry.member _ name site _ _ _ invite_id) =
    AreBytes name
    × (is_utf8 name ≡ true)
    × (site < 2 ^ 16)
    × (length invite_id ≡ 16)
    × AreBytes invite_id
PayloadTyped (Entry.revocation _ _ _ _) = Unit {0}

pub record IsTyped (e : Ed25519) (x : Entry) : Type 0 where
  pub node_is_key : IsPublicKey e (node_of x)
  pub signer_is_key : IsPublicKey e (signer_of x)
  pub seq_u64 : seq_of x < 2 ^ 64
  pub sig_length : length (sig_of x) ≡ 64
  pub sig_bytes : AreBytes (sig_of x)
  pub payload : PayloadTyped x

-- The usable endpoints of an endpoint entry; none for the other kinds.
unfoldable pub endpoint_addrs : Entry → List Endpoint
unfolding endpoints_of
endpoint_addrs (Entry.endpoint _ endpoints port _ _) = endpoints_of endpoints port
endpoint_addrs _ = []
