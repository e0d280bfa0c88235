-- ===== src/Gossip/Codec.antt =====
-- The canonical encoding of an entry, its signature, and the decoder.
pub mod Parts
pub mod RoundTrip
pub mod Signing
use hextet.Base.{
  ℕ, ◌+◌, ◌-◌, ◌*◌, ◌%◌, ◌≡◌, Bool, true, false, not, ◌&&◌, List, [], ◌∷◌, ◌++◌, length, take, ltb,
  ◌==◌, ◌=?◌, if◌then◌else◌, ℕ_equality, list_equality,
}
use hextet.Addr.{Ipv6Addr}
use hextet.Base.Bytes.{Bytes, concat}
use hextet.Base.Bytes.Endian.{to_be_bytes, from_be_bytes}
use hextet.Base.Bytes.Slice.{slice, byte_at}
use hextet.Base.Outcome.{Outcome, ok, err, panic, ◌>>=◌, ◌>>◌, reject_if}
use hextet.Base.Utf8.{is_utf8}
use hextet.Crypto.{Ed25519, PublicKey, repeat_byte}
use hextet.Gossip.Entry.{
  Entry, Kind, GossipError, too_short, bad_magic, bad_utf8, bad_signature, bad_public_key,
  bad_version, too_many_addrs, name_too_long, length_mismatch, endpoint_not_self_signed,
  self_issued, as_u8, from_u8, kind_of, node_of, signer_of, seq_of, sig_of, with_sig, kind_equality,
}
use hextet.Wire.Addresses.{read_addresses}

abbrev pub magic : Bytes
magic = b'H' ∷ b'X' ∷ b'T' ∷ b'G' ∷ []

abbrev pub version : ℕ
version = 1

abbrev pub max_addrs : ℕ
max_addrs = 4

abbrev pub max_name : ℕ
max_name = 255

abbrev pub sig_len : ℕ
sig_len = 64

abbrev pub header_len : ℕ
header_len = 78

abbrev pub invite_id_len : ℕ
invite_id_len = 16

abbrev pub head_pieces : Entry → List Bytes
head_pieces x =
    magic
    ∷ (version ∷ [])
    ∷ (as_u8 (kind_of x) ∷ [])
    ∷ to_be_bytes 8 (seq_of x)
    ∷ node_of x
    ∷ signer_of x
    ∷ []

-- What `signed_region` appends behind the header, by kind.
abbrev pub payload_pieces : Entry → List Bytes
payload_pieces (Entry.endpoint _ endpoints port _ _) =
    ((length endpoints % 256) ∷ []) ∷ to_be_bytes 2 port ∷ endpoints
payload_pieces (Entry.member _ name site _ _ _ invite_id) =
    to_be_bytes 2 site ∷ ((length name % 256) ∷ []) ∷ name ∷ invite_id ∷ []
payload_pieces (Entry.revocation _ _ _ _) = []

abbrev pub check_size : Entry → Outcome GossipError (Unit {0})
check_size (Entry.endpoint _ endpoints _ _ _) =
    reject_if (ltb max_addrs (length endpoints)) (too_many_addrs (length endpoints))
check_size (Entry.member _ name _ _ _ _ _) =
    reject_if (ltb max_name (length name)) (name_too_long (length name))
check_size (Entry.revocation _ _ _ _) = ok tt

unfoldable pub signed_region : Entry → Outcome GossipError Bytes
signed_region x = do check_size x; ok (concat (head_pieces x ++ payload_pieces x))

unfoldable pub encode : Entry → Outcome GossipError Bytes
encode x = do out ← signed_region x; ok (out ++ sig_of x)

-- `Entry::verify` and `Entry::is_valid`.
unfoldable pub verify : Ed25519 → Entry → Bool
verify e x = elim (signed_region x) [
  | ok region ↦ e.verify (signer_of x) region (sig_of x)
  | err _ ↦ false
  | panic ↦ false
]

abbrev pub signer_ok : Entry → Bool
signer_ok (Entry.endpoint node _ _ _ _) = node =? node
signer_ok (Entry.member node _ _ _ _ issued_by _) = not (issued_by =? node)
signer_ok (Entry.revocation node _ _ issued_by) = not (issued_by =? node)

unfoldable pub is_valid : Ed25519 → Entry → Bool
is_valid e x = signer_ok x && verify e x

-- The signature that an entry has before it is signed.
abbrev pub no_sig : Bytes
no_sig = repeat_byte 64 0

-- `e.signed_region()?`, then `sign` and the assignment.
sign : Ed25519 → Bytes → Entry → Outcome GossipError Entry
sign e seed x = do region ← signed_region x; ok (with_sig (e.sign seed region) x)

unfoldable pub sign_endpoint : Ed25519 → Bytes → List Ipv6Addr → ℕ → ℕ → Outcome GossipError Entry
unfolding sign
sign_endpoint e seed endpoints port seq = do
  reject_if (ltb max_addrs (length endpoints)) (too_many_addrs (length endpoints))
  sign e seed (Entry.endpoint (e.public seed) endpoints port seq no_sig)

unfoldable pub sign_member :
    Ed25519 → Bytes → PublicKey → Bytes → ℕ → ℕ → Bytes → Outcome GossipError Entry
unfolding sign
sign_member e seed node name site seq invite_id = do
  reject_if (ltb max_name (length name)) (name_too_long (length name))
  sign e seed (Entry.member node name site seq no_sig (e.public seed) invite_id)

unfoldable pub sign_revocation : Ed25519 → Bytes → PublicKey → ℕ → Outcome GossipError Entry
unfolding sign
sign_revocation e seed node seq = sign e seed (Entry.revocation node seq no_sig (e.public seed))

-- The three payloads; each entry gets its signature later.
unfoldable pub decode_endpoint : Bytes → PublicKey → ℕ → Outcome GossipError Entry
decode_endpoint bytes node seq = do
  n ← byte_at bytes 78
  reject_if (ltb max_addrs n) (too_many_addrs n)
  let expected = header_len + 3 + 16 * n + sig_len
  reject_if (not (length bytes == expected)) (length_mismatch expected (length bytes))
  port ← slice bytes 79 81
  endpoints ← read_addresses bytes n (header_len + 3)
  ok (Entry.endpoint node endpoints (from_be_bytes port) seq no_sig)

unfoldable pub decode_member : Bytes → PublicKey → PublicKey → ℕ → Outcome GossipError Entry
decode_member bytes node signer seq = do
  site ← slice bytes 78 80
  name_len ← byte_at bytes 80
  let expected = header_len + 3 + name_len + invite_id_len + sig_len
  reject_if (not (length bytes == expected)) (length_mismatch expected (length bytes))
  name ← slice bytes (header_len + 3) (header_len + 3 + name_len)
  reject_if (not (is_utf8 name)) bad_utf8
  invite_id ← slice bytes (header_len + 3 + name_len) (header_len + 3 + name_len + invite_id_len)
  ok (Entry.member node name (from_be_bytes site) seq no_sig signer invite_id)

unfoldable pub decode_revocation : Bytes → PublicKey → PublicKey → ℕ → Outcome GossipError Entry
decode_revocation bytes node signer seq = do
  let expected = header_len + sig_len
  reject_if (not (length bytes == expected)) (length_mismatch expected (length bytes))
  ok (Entry.revocation node seq no_sig signer)

abbrev pub decode_payload : Kind → Bytes → PublicKey → PublicKey → ℕ → Outcome GossipError Entry
decode_payload Kind.endpoint bytes node signer seq = decode_endpoint bytes node seq
decode_payload Kind.member bytes node signer seq = decode_member bytes node signer seq
decode_payload Kind.revocation bytes node signer seq = decode_revocation bytes node signer seq

-- The checks behind the payload: the signature, then who may sign what.
unfoldable pub check_signature :
    Ed25519 → Kind → Bytes → PublicKey → PublicKey → Entry → Outcome GossipError Entry
check_signature e kind bytes node signer entry = do
  let sig_start = length bytes - sig_len
  sig ← slice bytes sig_start (length bytes)
  region ← slice bytes 0 sig_start
  reject_if (not (e.verify signer region sig)) bad_signature
  reject_if ((kind =? Kind.endpoint) && not (signer =? node)) endpoint_not_self_signed
  reject_if (not (kind =? Kind.endpoint) && (signer =? node)) self_issued
  ok (with_sig sig entry)

unfoldable pub decode : Ed25519 → Bytes → Outcome GossipError Entry
decode e bytes = do
  reject_if (ltb (length bytes) (header_len + sig_len)) too_short
  m ← slice bytes 0 4
  reject_if (not (m =? magic)) bad_magic
  v ← byte_at bytes 4
  reject_if (not (v == version)) (bad_version v)
  k ← byte_at bytes 5
  kind ← from_u8 k
  seq_raw ← slice bytes 6 14
  node ← slice bytes 14 46
  signer ← slice bytes 46 78
  reject_if (not (e.is_point node)) bad_public_key
  reject_if (not (e.is_point signer)) bad_public_key
  entry ← decode_payload kind bytes node signer (from_be_bytes seq_raw)
  check_signature e kind bytes node signer entry
