-- ===== src/Gossip/Store/Order.antt =====
-- Last writer wins as an order on the entries that are valid.
use hextet.Base.{ℕ, ◌≡◌, ◌≢◌, refl, sym, ◌∙◌, ap, true, arith, compare, Ordering}
use hextet.Base.Bytes.{Bytes}
use hextet.Base.Bytes.Order.{
  compare_bytes, compare_bytes_eq, compare_bytes-flip, compare_bytes_trans,
}
use hextet.Crypto.{Ed25519}
use hextet.Gossip.Codec.{is_valid, verify, encode}
use hextet.Gossip.Codec.RoundTrip.{wire, encode-wire, verify_region, encode_injective}
use hextet.Gossip.Entry.{Entry, GossipError, IsTyped, seq_of}
use hextet.Gossip.Store.{lww_compare, tie}
use hextet.Base.Outcome.{Outcome, ok}

-- The same order on sequence numbers and encodings.
rank : ℕ → Bytes → ℕ → Bytes → Ordering
rank s a t b = elim (compare s t) [
  | Ordering.eq ↦ compare_bytes b a
  | Ordering.lt ↦ Ordering.lt
  | Ordering.gt ↦ Ordering.gt
]

rank_trans :
    (s t u : ℕ) (a b c : Bytes)
    → rank s a t b ≡ Ordering.gt
    → rank t b u c ≡ Ordering.gt
    → rank s a u c ≡ Ordering.gt
unfolding rank
rank_trans s t u a b c h k = ground (
  arith,
  compare_bytes-flip a b,
  compare_bytes-flip b c,
  compare_bytes-flip a c,
  compare_bytes_trans a b c,
)

rank_antisym :
    (s t : ℕ) (a b : Bytes) → rank s a t b ≢ Ordering.gt → rank t b s a ≢ Ordering.gt → a ≡ b
unfolding rank
rank_antisym s t a b h k = ground (arith, compare_bytes-flip a b, compare_bytes_eq a b)

rank_irrefl : (s : ℕ) (a : Bytes) → rank s a s a ≢ Ordering.gt
unfolding rank
rank_irrefl s a h = ground (arith, compare_bytes-flip a a)

valid_verify : (e : Ed25519) (x : Entry) → is_valid e x ≡ true → verify e x ≡ true
unfolding is_valid
valid_verify e x h = ground arith

pub encode_valid : (e : Ed25519) (x : Entry) → is_valid e x ≡ true → encode x ≡ ok (wire x)
encode_valid e x v = encode-wire x (verify_region e x (valid_verify e x v)).0

ordered :
    (o : Ordering) (p q : Outcome GossipError Bytes) (a b : Bytes)
    → p ≡ ok a
    → q ≡ ok b
    → elim o [ Ordering.eq ↦ tie p q | Ordering.lt ↦ Ordering.lt | Ordering.gt ↦ Ordering.gt ]
      ≡ elim o [
        | Ordering.eq ↦ compare_bytes b a
        | Ordering.lt ↦ Ordering.lt
        | Ordering.gt ↦ Ordering.gt
      ]
ordered Ordering.eq p q a b f g = rw (f, g)
ordered Ordering.lt p q a b f g = refl
ordered Ordering.gt p q a b f g = refl

lww_compare-rank :
    (e : Ed25519) (x y : Entry)
    → is_valid e x ≡ true
    → is_valid e y ≡ true
    → lww_compare x y ≡ rank (seq_of x) (wire x) (seq_of y) (wire y)
unfolding lww_compare rank
lww_compare-rank e x y v w =
    ordered (compare (seq_of x) (seq_of y)) (encode x) (encode y) (wire x) (wire y)
      (encode_valid e x v) (encode_valid e y w)

module _ (e : Ed25519) where
  pub lww_compare_trans :
      (x y z : Entry)
      → is_valid e x ≡ true
      → is_valid e y ≡ true
      → is_valid e z ≡ true
      → lww_compare x y ≡ Ordering.gt
      → lww_compare y z ≡ Ordering.gt
      → lww_compare x z ≡ Ordering.gt
  lww_compare_trans x y z vx vy vz h k =
      lww_compare-rank e x z vx vz
      ∙ rank_trans (seq_of x) (seq_of y) (seq_of z) (wire x) (wire y) (wire z)
          (sym (lww_compare-rank e x y vx vy) ∙ h) (sym (lww_compare-rank e y z vy vz) ∙ k)

  pub lww_compare_antisym :
      (x y : Entry)
      → IsTyped e x
      → IsTyped e y
      → is_valid e x ≡ true
      → is_valid e y ≡ true
      → lww_compare x y ≢ Ordering.gt
      → lww_compare y x ≢ Ordering.gt
      → x ≡ y
  lww_compare_antisym x y tx ty vx vy h k = encode_injective e x y tx vx ty vy (
      encode_valid e x vx
      ∙ ap ok (
          rank_antisym (seq_of x) (seq_of y) (wire x) (wire y)
            (λ q. h (lww_compare-rank e x y vx vy ∙ q)) (λ q. k (lww_compare-rank e y x vy vx ∙ q)))
      ∙ sym (encode_valid e y vy))

  pub lww_compare_irrefl : (x : Entry) → is_valid e x ≡ true → lww_compare x x ≢ Ordering.gt
  lww_compare_irrefl x v h = rank_irrefl (seq_of x) (wire x) (sym (lww_compare-rank e x x v v) ∙ h)
