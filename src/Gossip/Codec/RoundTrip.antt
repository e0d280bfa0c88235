-- ===== src/Gossip/Codec/RoundTrip.antt =====
-- The encoder followed by the decoder, for each kind of entry.
use mathlib.Core.List.{append-nil}
use hextet.Base.{
  ◌+◌, ◌%◌, ◌≤◌, ◌≡◌, refl, ap, sym, ◌∙◌, true, false, not, ◌&&◌, List, [], ◌∷◌, ◌++◌, length, ◌=?◌,
  arith, ℕ_equality, list_equality,
}
use hextet.Base.Bytes.{Bytes, concat}
use hextet.Base.Bytes.Endian.{to_be_bytes, length-to_be_bytes, from_be_bytes-to_be_bytes}
use hextet.Base.Bytes.Frame.{
  frame, total, slice_piece, byte_at_piece, slice-body, slice_trailer, length-frame, total-append,
}
use hextet.Base.Outcome.{ok, ◌>>=◌, ok_injective}
use hextet.Crypto.{Ed25519}
use hextet.Gossip.Codec.{
  head_pieces, payload_pieces, check_size, signed_region, encode, verify, signer_ok, is_valid,
  no_sig, decode, decode_payload, check_signature,
}
use hextet.Gossip.Codec.Parts.{
  decode_header, decode_endpoint_parts, decode_member_parts, decode_revocation_size,
  check_signature_parts,
}
use hextet.Gossip.Entry.{
  Entry, Kind, GossipError, IsTyped, kind_of, node_of, signer_of, seq_of, sig_of, with_sig,
  kind_equality,
}
use hextet.Wire.Addresses.{total-AreAddresses, read_addresses-frame}

abbrev pub body : Entry → List Bytes
body x = head_pieces x ++ payload_pieces x

abbrev pub wire : Entry → Bytes
wire x = frame (body x) (sig_of x) []

total-head : (e : Ed25519) (x : Entry) → IsTyped e x → total (head_pieces x) ≡ 78
total-head e x t =
    omega (arith, length-to_be_bytes, t.node_is_key.key_length, t.signer_is_key.key_length)

length-wire :
    (e : Ed25519) (x : Entry) → IsTyped e x → length (wire x) ≡ 78 + total (payload_pieces x) + 64
length-wire e x t = omega (
  arith,
  length-frame (body x) (sig_of x) [],
  total-append (head_pieces x) (payload_pieces x),
  total-head e x t,
  t.sig_length,
)

-- A signature that verifies is over the concatenated pieces.
pub verify_region :
    (e : Ed25519) (x : Entry)
    → verify e x ≡ true
    → (check_size x ≡ ok tt) × (e.verify (signer_of x) (concat (body x)) (sig_of x) ≡ true)
unfolding verify signed_region
verify_region e (Entry.endpoint node addrs port seq sig) h = ground arith
verify_region e (Entry.member node name site seq sig issued_by invite_id) h = ground arith
verify_region e (Entry.revocation node seq sig issued_by) h = (refl, h)

pub encode-wire : (x : Entry) → check_size x ≡ ok tt → encode x ≡ ok (wire x)
unfolding encode signed_region
encode-wire x h = simp (h, append-nil)

header :
    (e : Ed25519) (x : Entry)
    → IsTyped e x
    → decode e (wire x) ≡ (
        decode_payload (kind_of x) (wire x) (node_of x) (signer_of x) (seq_of x) >>= λ entry.
        check_signature e (kind_of x) (wire x) (node_of x) (signer_of x) entry)
header e x t =
    let sig = sig_of x in
    decode_header e (wire x) (to_be_bytes 8 (seq_of x)) (node_of x) (signer_of x) (kind_of x)
      (omega (arith, length-wire e x t)) (slice_piece (body x) sig [] 0 0 4 refl refl refl)
      (byte_at_piece (body x) sig [] 1 4 refl refl) (byte_at_piece (body x) sig [] 2 5 refl refl)
      (slice_piece (body x) sig [] 3 6 14 refl refl (omega (arith, length-to_be_bytes)))
      (slice_piece (body x) sig [] 4 14 46 refl (omega (arith, length-to_be_bytes))
        (omega (arith, t.node_is_key.key_length)))
      (slice_piece (body x) sig [] 5 46 78 refl
        (omega (arith, length-to_be_bytes, t.node_is_key.key_length))
        (omega (arith, t.signer_is_key.key_length)))
      t.node_is_key.on_curve t.signer_is_key.on_curve
    ∙ ap
        (λ s. decode_payload (kind_of x) (wire x) (node_of x) (signer_of x) s >>= λ entry.
          check_signature e (kind_of x) (wire x) (node_of x) (signer_of x) entry)
        (from_be_bytes-to_be_bytes 8 (seq_of x) t.seq_u64)

payload :
    (e : Ed25519) (x : Entry)
    → IsTyped e x
    → check_size x ≡ ok tt
    → decode_payload (kind_of x) (wire x) (node_of x) (signer_of x) (seq_of x)
      ≡ ok (with_sig no_sig x)
payload e (Entry.endpoint node addrs port seq sig) t small =
    let x = Entry.endpoint node addrs port seq sig in
    let few : length addrs ≤ 4 = ground arith in
    let sized = total-AreAddresses addrs t.payload.0 in
    let count : Bytes = (length addrs % 256) ∷ [] in
    decode_endpoint_parts (wire x) (to_be_bytes 2 port) (length addrs) addrs node seq few
      (omega (arith, length-wire e x t, sized, length-to_be_bytes))
      (byte_at_piece (body x) sig [] 6 78 refl (omega (arith, total-head e x t))
        ∙ ap ok (omega (arith, few)))
      (slice_piece (body x) sig [] 7 79 81 refl (omega (arith, total-head e x t))
        (omega (arith, length-to_be_bytes)))
      (read_addresses-frame (head_pieces x ++ count ∷ to_be_bytes 2 port ∷ []) addrs sig [] 81
        t.payload.0 (omega (arith, total-head e x t, length-to_be_bytes)))
    ∙ ap (λ p. ok (Entry.endpoint node addrs p seq no_sig))
        (from_be_bytes-to_be_bytes 2 port t.payload.1)
payload e (Entry.member node name site seq sig issued_by invite_id) t small =
    let x = Entry.member node name site seq sig issued_by invite_id in
    let few : length name ≤ 255 = ground arith in
    let n = length name in
    decode_member_parts (wire x) (to_be_bytes 2 site) name invite_id n node issued_by seq
      (omega (arith, length-wire e x t, length-to_be_bytes, t.payload.3))
      (slice_piece (body x) sig [] 6 78 80 refl (omega (arith, total-head e x t))
        (omega (arith, length-to_be_bytes)))
      (byte_at_piece (body x) sig [] 7 80 refl (omega (arith, total-head e x t, length-to_be_bytes))
        ∙ ap ok (omega (arith, few)))
      (slice_piece (body x) sig [] 8 81 (81 + n) refl
        (omega (arith, total-head e x t, length-to_be_bytes)) refl)
      t.payload.1
      (slice_piece (body x) sig [] 9 (81 + n) (81 + n + 16) refl
        (omega (arith, total-head e x t, length-to_be_bytes)) (ap (λ k. 81 + n + k) t.payload.3))
    ∙ ap (λ s. ok (Entry.member node name s seq no_sig issued_by invite_id))
        (from_be_bytes-to_be_bytes 2 site t.payload.2)
payload e (Entry.revocation node seq sig issued_by) t small =
    let x = Entry.revocation node seq sig issued_by in
    decode_revocation_size (wire x) node issued_by seq (omega (arith, length-wire e x t))

-- The signer's constraint, as the decoder tests it.
signers :
    (x : Entry)
    → signer_ok x ≡ true
    → (((kind_of x =? Kind.endpoint) && not (signer_of x =? node_of x)) ≡ false)
      × ((not (kind_of x =? Kind.endpoint) && (signer_of x =? node_of x)) ≡ false)
signers (Entry.endpoint node addrs port seq sig) h = (rw h, refl)
signers (Entry.member node name site seq sig issued_by invite_id) h = (refl, ground arith)
signers (Entry.revocation node seq sig issued_by) h = (refl, ground arith)

sig_back : (x : Entry) → with_sig (sig_of x) (with_sig no_sig x) ≡ x
sig_back (Entry.endpoint node addrs port seq sig) = refl
sig_back (Entry.member node name site seq sig issued_by invite_id) = refl
sig_back (Entry.revocation node seq sig issued_by) = refl

module _ (e : Ed25519) (x : Entry) (t : IsTyped e x) (valid : is_valid e x ≡ true) where
  parts : (signer_ok x ≡ true) × (verify e x ≡ true)
  unfolding is_valid
  parts = ground arith

  checked :
      check_signature e (kind_of x) (wire x) (node_of x) (signer_of x) (with_sig no_sig x) ≡ ok x
  checked =
      let (small, good) = verify_region e x parts.1 in
      let n = total (body x) in
      check_signature_parts e (kind_of x) (wire x) (node_of x) (signer_of x) (with_sig no_sig x) n
        (concat (body x)) (sig_of x)
        (omega (arith, length-frame (body x) (sig_of x) [], t.sig_length))
        (slice_trailer (body x) (sig_of x) [] n (n + 64) refl (ap (λ k. n + k) t.sig_length))
        (slice-body (body x) (sig_of x) [] n refl) good (signers x parts.0).0 (signers x parts.0).1
      ∙ ap ok (sig_back x)

  pub decode-wire : decode e (wire x) ≡ ok x
  decode-wire =
      header e x t
      ∙ ap
          (λ r.
            r >>= λ entry. check_signature e (kind_of x) (wire x) (node_of x) (signer_of x) entry)
          (payload e x t (verify_region e x parts.1).0)
      ∙ checked

  -- A well-typed valid entry is encoded, and its encoding is decoded to the entry itself.
  pub decode-encode_entry : (encode x >>= decode e) ≡ ok x
  decode-encode_entry = rw (encode-wire x (verify_region e x parts.1).0) decode-wire

payload-short :
    (e : Ed25519) (x : Entry) → IsTyped e x → check_size x ≡ ok tt → total (payload_pieces x) ≤ 300
payload-short e (Entry.endpoint node addrs port seq sig) t h =
    let few : length addrs ≤ 4 = ground arith in
    omega (arith, total-AreAddresses addrs t.payload.0, length-to_be_bytes, few)
payload-short e (Entry.member node name site seq sig issued_by invite_id) t h =
    let short : length name ≤ 255 = ground arith in
    omega (arith, t.payload.3, length-to_be_bytes, short)
payload-short e (Entry.revocation node seq sig issued_by) t h = omega arith

pub wire-short :
    (e : Ed25519) (x : Entry) → IsTyped e x → is_valid e x ≡ true → length (wire x) ≤ 1500
wire-short e x t v =
    omega (arith, length-wire e x t, payload-short e x t (verify_region e x (parts e x t v).1).0)

-- Two valid entries with one encoding are one entry.
pub encode_injective :
    (e : Ed25519) (x y : Entry)
    → IsTyped e x
    → is_valid e x ≡ true
    → IsTyped e y
    → is_valid e y ≡ true
    → encode x ≡ encode y
    → x ≡ y
encode_injective e x y t v u w same = ok_injective {E = GossipError} (
    sym (decode-encode_entry e x t v) ∙ ap (λ r. r >>= decode e) same ∙ decode-encode_entry e y u w)
