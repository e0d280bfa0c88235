-- ===== src/Addr/Endpoints.antt =====
-- `is_usable_endpoint_addr` by ranges of octets instead of bit masks.
use Prim.Native.Nat.{bit_and}
use hextet.Base.{
  ℕ, ◌/◌, ◌≤◌, ◌<◌, ◌≡◌, ◌≢◌, ◌↔◌, ◌⊎◌, refl, Bool, true, false, not, [], ◌∷◌, ◌++◌, take, ◌==◌,
  arith, ℕ_equality, list_equality, list_same_iff,
}
use hextet.Base.Bytes.{Bytes, AreBytes}
use hextet.Base.Bytes.Slice.{get_or}
use hextet.Base.Tables.{all_below, all_below_sound}
use hextet.Crypto.{repeat_byte}
use hextet.Addr.{
  Ipv6Addr, IsIpv6Addr, octet, segment0, is_ula, is_link_local, is_usable_endpoint_addr,
}

abbrev iff_bool : Bool → Bool → Bool
iff_bool true b = b
iff_bool false b = not b

ula_table : all_below 65536 (λ x. iff_bool (bit_and x 0xfe00 == 0xfc00) (x / 512 == 126)) ≡ true
unfolding all_below
ula_table = refl

link_local_table :
    all_below 65536 (λ x. iff_bool (bit_and x 0xffc0 == 0xfe80) (x / 64 == 1018)) ≡ true
unfolding all_below
link_local_table = refl

abbrev loopback : Ipv6Addr
loopback = repeat_byte 15 0 ++ 1 ∷ []

abbrev unspecified : Ipv6Addr
unspecified = repeat_byte 16 0

abbrev mapped_prefix : Bytes
mapped_prefix = repeat_byte 10 0 ++ 0xff ∷ 0xff ∷ []

-- Neither fc00::/7, fe80::/10 nor ff00::/8, and not one of the three special forms.
pub record IsRoutable (a : Ipv6Addr) : Type 0 where
  pub not_ula : (octet a 0 ≢ 0xfc) × (octet a 0 ≢ 0xfd)
  pub not_link_local : octet a 0 ≡ 0xfe → (octet a 1 < 0x80) ⊎ (0xc0 ≤ octet a 1)
  pub not_multicast : octet a 0 ≢ 0xff
  pub not_loopback : a ≢ loopback
  pub not_unspecified : a ≢ unspecified
  pub not_mapped : take 12 a ≢ mapped_prefix

octet_byte : (a : Bytes) (i : ℕ) → AreBytes a → get_or a i 0 < 256
unfolding get_or
octet_byte [] i h = omega arith
octet_byte (x ∷ a) Prim.Native.Nat.zero h = h.0
octet_byte (x ∷ a) (Prim.Native.Nat.suc i) h = octet_byte a i h.1

pub is_ula_iff :
    (a : Ipv6Addr) → AreBytes a → (is_ula a ≡ true) ↔ ((octet a 0 ≡ 0xfc) ⊎ (octet a 0 ≡ 0xfd))
unfolding is_ula
is_ula_iff a bs =
    let b0 = octet_byte a 0 bs in
    let b1 = octet_byte a 1 bs in
    let row = all_below_sound 65536 _ (segment0 a) ula_table (omega arith) in
    (λ h. ground arith, λ h. ground arith)

is_link_local_iff :
    (a : Ipv6Addr)
    → AreBytes a
    → (is_link_local a ≡ true) ↔ ((octet a 0 ≡ 0xfe) × (0x80 ≤ octet a 1) × (octet a 1 < 0xc0))
unfolding is_link_local
is_link_local_iff a bs =
    let b0 = octet_byte a 0 bs in
    let b1 = octet_byte a 1 bs in
    let row = all_below_sound 65536 _ (segment0 a) link_local_table (omega arith) in
    (λ h. ground arith, λ h. ground arith)

-- An address is accepted as an endpoint exactly when it is outside fc00::/7, fe80::/10 and
-- ff00::/8, is neither ::1 nor ::, and is not IPv4-mapped.
pub is_usable_endpoint_addr_iff :
    (a : Ipv6Addr) → IsIpv6Addr a → (is_usable_endpoint_addr a ≡ true) ↔ IsRoutable a
unfolding is_usable_endpoint_addr
is_usable_endpoint_addr_iff a v =
    let ula = is_ula_iff a v.octets in
    let local = is_link_local_iff a v.octets in
    let b1 = octet_byte a 1 v.octets in
    let one = list_same_iff a loopback in
    let zeros = list_same_iff a unspecified in
    let mapped = list_same_iff (take 12 a) mapped_prefix in
    (
      λ h. record {
        not_ula = (λ q. ground arith, λ q. ground arith);
        not_link_local = λ q. ground arith;
        not_multicast = λ q. ground arith;
        not_loopback = λ q. ground arith;
        not_unspecified = λ q. ground arith;
        not_mapped = λ q. ground arith;
      },
      λ h. ground arith,
    )

-- An address of fc00::/7 is refused, whatever follows.
pub is_usable_endpoint_addr_ula :
    (a : Ipv6Addr) → is_ula a ≡ true → is_usable_endpoint_addr a ≡ false
unfolding is_usable_endpoint_addr
is_usable_endpoint_addr_ula a h = rw h
