-- ===== src/Tests/GossipTests.antt =====
-- Two revocations of one node by two issuers, merged in two orders.
use hextet.Base.{
  ℕ, ◌≡◌, ◌<◌, refl, true, [], ◌∷◌, arith, inl, inr, ◌↔◌, ℕ_equality, list_equality, pair_equality,
  list_same,
}
use hextet.Base.Assoc.{lookup}
use hextet.Base.Bytes.Endian.{to_be_bytes}
use hextet.Base.Outcome.{ok, ◌>>=◌}
use hextet.Crypto.{PublicKey, repeat_byte, toy_ed25519, length-repeat_byte}
use hextet.Gossip.Entry.{Entry, Kind, IsTyped, kind_equality}
use hextet.Gossip.Codec.{encode, decode, is_valid, verify, signed_region}
use hextet.Gossip.Codec.RoundTrip.{decode-encode_entry}
use hextet.Gossip.Store.{GossipStore, merge, replay, is_revoked}
use hextet.Gossip.Store.Bounds.{IsStore, merge-is_revoked}
use hextet.Gossip.Store.Winner.{Has}
use hextet.Gossip.Store.Convergence.{replay_convergent}
use hextet.Tests.{AreBytes-repeat_byte, repeat_byte-IsPublicKey}

abbrev pub node : PublicKey
node = repeat_byte 32 1

abbrev pub revoked_by : ℕ → ℕ → ℕ → Entry
revoked_by issuer seq mark = Entry.revocation node seq (repeat_byte 64 mark) (repeat_byte 32 issuer)

abbrev pub older : Entry
older = revoked_by 2 5 210

abbrev pub newer : Entry
newer = revoked_by 3 6 74

revoked-IsTyped :
    (issuer seq mark : ℕ)
    → issuer < 256
    → seq < 256
    → mark < 256
    → IsTyped toy_ed25519 (revoked_by issuer seq mark)
revoked-IsTyped issuer seq mark i s m = record {
  node_is_key = repeat_byte-IsPublicKey 1 (omega arith);
  signer_is_key = repeat_byte-IsPublicKey issuer i;
  seq_u64 = omega (arith, s);
  sig_length = length-repeat_byte 64 mark;
  sig_bytes = AreBytes-repeat_byte 64 mark m;
  payload = tt;
}

pub older-IsTyped : IsTyped toy_ed25519 older
older-IsTyped = revoked-IsTyped 2 5 210 (omega arith) (omega arith) (omega arith)

pub newer-IsTyped : IsTyped toy_ed25519 newer
newer-IsTyped = revoked-IsTyped 3 6 74 (omega arith) (omega arith) (omega arith)

pub older_valid : is_valid toy_ed25519 older ≡ true
unfolding is_valid verify signed_region list_same to_be_bytes
older_valid = refl

decode-encode_entry_example : (encode older >>= decode toy_ed25519) ≡ ok older
decode-encode_entry_example = decode-encode_entry toy_ed25519 older older-IsTyped older_valid

two_orders : (x : Entry) → Has x (older ∷ newer ∷ []) ↔ Has x (newer ∷ older ∷ older ∷ [])
two_orders x = (
  λ h. elim h [ inl a ↦ inr (inl a) | inr r ↦ elim r [ inl b ↦ inl b | inr n ↦ absurd n ] ],
  λ h. elim h [
    | inl b ↦ inr (inl b)
    | inr r ↦ elim r [ inl a ↦ inl a | inr t ↦ elim t [ inl a ↦ inl a | inr n ↦ absurd n ] ]
  ],
)

replay_convergent_example :
    lookup (node, Kind.revocation) (replay toy_ed25519 (older ∷ newer ∷ []))
    ≡ lookup (node, Kind.revocation) (replay toy_ed25519 (newer ∷ older ∷ older ∷ []))
replay_convergent_example =
    replay_convergent toy_ed25519 (older ∷ newer ∷ []) (newer ∷ older ∷ older ∷ [])
      (node, Kind.revocation) (older-IsTyped, (newer-IsTyped, tt))
      (newer-IsTyped, (older-IsTyped, (older-IsTyped, tt))) (omega arith) (omega arith) two_orders

pub empty-IsStore : IsStore toy_ed25519 []
unfolding lookup
empty-IsStore = record { is_map = tt; bounded = omega arith; held = λ k x h. absurd (cc h) }

abbrev held : GossipStore
held = ((node, Kind.revocation), older) ∷ []

is_held : is_revoked held node ≡ true
unfolding lookup list_same
is_held = refl

merge-is_revoked_example : is_revoked (merge toy_ed25519 held newer).0 node ≡ true
merge-is_revoked_example = merge-is_revoked toy_ed25519 held newer node is_held
