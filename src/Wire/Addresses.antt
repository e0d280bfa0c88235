-- ===== src/Wire/Addresses.antt =====
-- A run of IPv6 addresses in a frame, as the beacon and the gossip entry hold them: the loop
-- `for i in 0..n { bytes[off..off + 16] }` of both decoders.
use hextet.Base.{
  ℕ, zero, suc, ◌+◌, ◌*◌, ◌≤◌, ◌≡◌, ◌≢◌, refl, ap, subst, sym, ◌∙◌, List, [], ◌∷◌, ◌++◌, length,
  arith,
}
use mathlib.Core.List.{append_assoc}
use hextet.Addr.{Ipv6Addr, IsIpv6Addr}
use hextet.Base.Bytes.{Bytes, AreBytes}
use hextet.Base.Bytes.Frame.{frame, total, slice_between, total-snoc}
use hextet.Base.Bytes.Glue.{AreBytes-slice, Layout, end, field}
use hextet.Base.Bytes.Slice.{slice, length-slice, slice_in}
use hextet.Base.Outcome.{Outcome, ok, panic, ◌>>=◌, >>=-eq-ok, ok_injective}

-- `n` addresses from offset `off` on.
unfoldable pub read_addresses : {E : Type 0} → Bytes → ℕ → ℕ → Outcome E (List Ipv6Addr)
read_addresses bytes zero off = ok []
read_addresses bytes (suc n) off = do
  a ← slice bytes off (off + 16)
  rest ← read_addresses bytes n (off + 16)
  ok (a ∷ rest)

abbrev pub AreAddresses : List Ipv6Addr → Type 0
AreAddresses [] = Unit {0}
AreAddresses (a ∷ addrs) = IsIpv6Addr a × AreAddresses addrs

pub total-AreAddresses :
    (addrs : List Ipv6Addr) → AreAddresses addrs → total addrs ≡ 16 * length addrs
total-AreAddresses [] h = refl
total-AreAddresses (a ∷ addrs) h = omega (arith, total-AreAddresses addrs h.1, h.0.octet_count)

-- Addresses that stand in a frame behind `pre` are read from there.
pub read_addresses-frame :
    {E : Type 0} (pre addrs : List Bytes) (trailer rest : Bytes) (off : ℕ)
    → AreAddresses addrs
    → total pre ≡ off
    → read_addresses {E = E} (frame (pre ++ addrs) trailer rest) (length addrs) off ≡ ok addrs
unfolding read_addresses
read_addresses-frame pre [] trailer rest off v t = refl
read_addresses-frame {E} pre (a ∷ addrs) trailer rest off v t =
    let one : slice {E = E} (frame (pre ++ a ∷ addrs) trailer rest) off (off + 16) ≡ ok a =
      slice_between pre a addrs trailer rest off (off + 16) t (omega (arith, v.0.octet_count)) in
    let more : read_addresses {E = E} (frame (pre ++ a ∷ addrs) trailer rest) (length addrs)
          (off + 16)
        ≡ ok addrs =
      ap (λ b. read_addresses {E = E} (frame b trailer rest) (length addrs) (off + 16))
        (sym (append_assoc pre (a ∷ []) addrs))
      ∙ read_addresses-frame {E = E} (pre ++ a ∷ []) addrs trailer rest (off + 16) v.1
          (omega (arith, total-snoc pre a, v.0.octet_count)) in
    rw (one, more)

pub read_addresses-ne-panic :
    {E : Type 0} (bytes : Bytes) (n off : ℕ)
    → off + 16 * n ≤ length bytes
    → read_addresses {E = E} bytes n off ≢ panic
unfolding read_addresses
read_addresses-ne-panic bytes zero off h = λ q. cc
read_addresses-ne-panic {E} bytes (suc n) off h = λ q. ground (
  arith,
  slice_in {E = E} bytes off (off + 16),
  read_addresses-ne-panic {E = E} bytes n (off + 16),
)

-- `n` addresses of 16 octets lie from `off` up to `c`.
abbrev pub Holds : Type 0 → Bytes → ℕ → ℕ → ℕ → List Ipv6Addr → Type 0
Holds E bytes n off c addrs = (length addrs ≡ n) × AreAddresses addrs × Layout E bytes c off addrs

Holds-cons :
    (E : Type 0) (bytes : Bytes) (n off c : ℕ) {a : Ipv6Addr} {rest : List Ipv6Addr}
    → AreBytes bytes
    → slice {E = E} bytes off (off + 16) ≡ ok a
    → Holds E bytes n (off + 16) c rest
    → Holds E bytes (suc n) off c (a ∷ rest)
Holds-cons E bytes n off c {a} bs got (l, v, lay) = (
  ap suc l,
  (
    record {
      octet_count = omega (arith, length-slice bytes off (off + 16) got);
      octets = AreBytes-slice bytes off (off + 16) bs got;
    },
    v,
  ),
  field (off + 16) got lay,
)

pub read_addresses-Holds :
    (E : Type 0) (bytes : Bytes) (n off c : ℕ) {addrs : List Ipv6Addr}
    → AreBytes bytes
    → off + 16 * n ≡ c
    → c ≤ length bytes
    → read_addresses {E = E} bytes n off ≡ ok addrs
    → Holds E bytes n off c addrs
unfolding read_addresses
read_addresses-Holds E bytes zero off c {addrs} bs e h r =
    subst (λ k. Holds E bytes 0 off k addrs) (omega arith)
      (subst (Holds E bytes 0 off off) (ok_injective r) (refl, tt, end (omega arith)))
read_addresses-Holds E bytes (suc n) off c {addrs} bs e h r =
    let (a, got, later) = >>=-eq-ok (slice bytes off (off + 16)) _ r in
    let (rest, got_rest, done) = >>=-eq-ok (read_addresses bytes n (off + 16)) _ later in
    subst (Holds E bytes (suc n) off c) (ok_injective done) (
      Holds-cons E bytes n off c bs got
        (read_addresses-Holds E bytes n (off + 16) c bs (omega arith) h got_rest))
