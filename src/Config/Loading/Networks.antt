-- ===== src/Config/Loading/Networks.antt =====
-- The network's own /48 and a node's own /64 are routes: the code's `expect`s hold.
use hextet.Base.{
  ℕ, zero, suc, ◌+◌, ◌*◌, ◌-◌, ◌≤◌, ◌<◌, ◌≡◌, refl, sym, ap, subst, inl, inr, min, arith, true, [],
  ◌∷◌, ◌++◌, length, take, ◌==◌, ==_iff, length-append,
}
use Prim.Native.Nat.{bit_and}
use hextet.Addr.{
  Sha256, Hkdf, NodeAddr, network, derive_prefix, derive_node_addr, subnet_label, network_id,
}
use hextet.Base.Bytes.{Bytes, AreBytes}
use hextet.Base.Bytes.Endian.{
  to_be_bytes, from_be_bytes, length-to_be_bytes, AreBytes-to_be_bytes, AreBytes-append,
}
use hextet.Base.Outcome.{ok}
use hextet.Base.Tables.{all_below, all_below_sound}
use hextet.Crypto.{PublicKey, repeat_byte}
use hextet.Routes.{Ipv6Route, new_route, zip_and, shifted}
use hextet.Routes.Masks.{octet_masks}
use hextet.Routes.Overlap.{IsRoute, new_route_ok}

full_table : all_below 256 (λ b. bit_and b (shifted 8) == b) ≡ true
unfolding all_below
full_table = refl

full : (b : ℕ) → b < 256 → bit_and b (shifted 8) ≡ b
full b h = (==_iff _ _).0 (all_below_sound 256 (λ b. bit_and b (shifted 8) == b) b full_table h)

zip_and-zeros : (m : ℕ) → zip_and (repeat_byte m 0) (octet_masks 0 m) ≡ repeat_byte m 0
unfolding zip_and octet_masks
zip_and-zeros zero = refl
zip_and-zeros (suc m) = ap (◌∷◌ 0) (zip_and-zeros m)

-- Zeros after whole octets stay.
zip_and-front :
    (front : Bytes) (m : ℕ)
    → AreBytes front
    → zip_and (front ++ repeat_byte m 0) (octet_masks (8 * length front) (length front + m))
      ≡ front ++ repeat_byte m 0
unfolding zip_and octet_masks
zip_and-front [] m v = let sum : 0 + m ≡ m = omega arith in rw sum (zip_and-zeros m)
zip_and-front (b ∷ front) m v =
    let eight : min (8 * suc (length front)) 8 ≡ 8 = omega arith in
    let less : 8 * suc (length front) - 8 ≡ 8 * length front = omega arith in
    let sum : suc (length front) + m ≡ suc (length front + m) = omega arith in
    rw (sum, octet_masks, eight, less, full b v.0, zip_and-front front m v.1) refl

pub AreBytes-zeros : (n : ℕ) → AreBytes (repeat_byte n 0)
AreBytes-zeros zero = tt
AreBytes-zeros (suc n) = (omega arith, AreBytes-zeros n)

front-IsRoute :
    (front : Bytes) (m : ℕ)
    → AreBytes front
    → 1 ≤ length front
    → length front + m ≡ 16
    → IsRoute (record { prefix = front ++ repeat_byte m 0; prefix_len = 8 * length front })
front-IsRoute front m v some_octet all = record {
  positive = omega (arith, some_octet);
  short = omega (arith, all);
  octets = AreBytes-append front (repeat_byte m 0) v (AreBytes-zeros m);
  is_network =
      subst
        (λ n.
          zip_and (front ++ repeat_byte m 0) (octet_masks (8 * length front) n)
          ≡ front ++ repeat_byte m 0)
        all (zip_and-front front m v);
}

length-derive_prefix : (k : Hkdf) (key : Bytes) → length (derive_prefix k key) ≡ 6
unfolding derive_prefix
length-derive_prefix k key = omega (arith, k.expand_length key network_id 5)

AreBytes-derive_prefix : (k : Hkdf) (key : Bytes) → AreBytes (derive_prefix k key)
unfolding derive_prefix
AreBytes-derive_prefix k key = (omega arith, k.expand_bytes key network_id 5)

abbrev pub overlay_route : Bytes → Ipv6Route
overlay_route prefix = record { prefix = network prefix; prefix_len = 48 }

pub overlay-IsRoute : (k : Hkdf) (key : Bytes) → IsRoute (overlay_route (derive_prefix k key))
unfolding network
overlay-IsRoute k key =
    subst
      (λ n.
        IsRoute (record { prefix = derive_prefix k key ++ repeat_byte 10 0; prefix_len = 8 * n }))
      (length-derive_prefix k key)
      (front-IsRoute (derive_prefix k key) 10 (AreBytes-derive_prefix k key)
        (omega (arith, length-derive_prefix k key)) (omega (arith, length-derive_prefix k key)))

abbrev pub site_of : NodeAddr → Ipv6Route
site_of n = record { prefix = n.site; prefix_len = 64 }

pub site-IsRoute :
    (s : Sha256) (k : Hkdf) (network_key : Bytes) (key : PublicKey) {n : NodeAddr}
    → derive_node_addr s (derive_prefix k network_key) key ≡ ok n
    → IsRoute (site_of n)
unfolding derive_node_addr
site-IsRoute s k network_key key {n} h =
    let id = from_be_bytes (take 2 (s.digest (subnet_label ++ key))) in
    let front = derive_prefix k network_key ++ to_be_bytes 2 id in
    let eight : length front ≡ 8 = omega (
      arith,
      length-append (derive_prefix k network_key) (to_be_bytes 2 id),
      length-derive_prefix k network_key,
      length-to_be_bytes 2 id,
    ) in
    let site : n.site ≡ front ++ repeat_byte 8 0 = ground (arith, h) in
    let valid =
      front-IsRoute front 8
        (AreBytes-append (derive_prefix k network_key) (to_be_bytes 2 id)
          (AreBytes-derive_prefix k network_key) (AreBytes-to_be_bytes 2 id))
        (omega (arith, eight)) (omega (arith, eight)) in
    subst (λ a. IsRoute (record { prefix = a; prefix_len = 64 })) (sym site)
      (subst (λ l. IsRoute (record { prefix = front ++ repeat_byte 8 0; prefix_len = 8 * l })) eight
        valid)

-- So `new_route` makes it.
pub new_route-of : (r : Ipv6Route) → IsRoute r → new_route r.prefix r.prefix_len ≡ ok r
new_route-of r v = elim (new_route_ok r.prefix r.prefix_len v.octets) [
  | inl (valid, made) ↦ made
  | inr (other, reason, refused) ↦ absurd (other v)
]
