-- ===== src/Routes/Masks.antt =====
-- The masks' octets, and masking twice.
use hextet.Base.{
  ℕ, zero, suc, ◌-◌, ◌≤◌, ◌<◌, ◌≡◌, refl, ◌∙◌, ap, min, arith, true, List, [], ◌∷◌, ◌==◌, Option,
  none, some, option_same, ℕ_equality, list_equality, list_same, ==_iff, =?_eq,
}
use Prim.Native.Nat.{bit_and}
use hextet.Base.Bytes.{Bytes, AreBytes}
use hextet.Base.Tables.{all_below, all_below_sound}
use hextet.Routes.{mask, shifted, zip_and, apply_mask}

-- The octets of the mask for `len` bits, one by one.
unfoldable pub octet_masks : ℕ → ℕ → List ℕ
octet_masks len zero = []
octet_masks len (suc n) = shifted (min len 8) ∷ octet_masks (len - 8) n

mask_table : all_below 129 (λ len. option_same (mask len) (some (octet_masks len 16))) ≡ true
unfolding all_below mask octet_masks list_same
mask_table = refl

and_table :
    all_below 9 (λ r. all_below 9 (λ s.
      all_below 256
        (λ b. bit_and (bit_and b (shifted r)) (shifted s) == bit_and b (shifted (min r s)))))
    ≡ true
unfolding all_below
and_table = refl

and_twice :
    (r s b : ℕ)
    → r ≤ 8
    → s ≤ 8
    → b < 256
    → bit_and (bit_and b (shifted r)) (shifted s) ≡ bit_and b (shifted (min r s))
and_twice r s b h k l =
    let row =
      all_below_sound 9
        (λ r. all_below 9 (λ s.
          all_below 256
            (λ b. bit_and (bit_and b (shifted r)) (shifted s) == bit_and b (shifted (min r s)))))
        r and_table (omega (arith, h)) in
    let cell =
      all_below_sound 9
        (λ s.
          all_below 256
            (λ b. bit_and (bit_and b (shifted r)) (shifted s) == bit_and b (shifted (min r s))))
        s row (omega (arith, k)) in
    (==_iff _ _).0 (
      all_below_sound 256
        (λ b. bit_and (bit_and b (shifted r)) (shifted s) == bit_and b (shifted (min r s))) b cell
        l)

zip_and_twice :
    (n l k : ℕ) (a : Bytes)
    → AreBytes a
    → zip_and (zip_and a (octet_masks l n)) (octet_masks k n) ≡ zip_and a (octet_masks (min l k) n)
unfolding zip_and octet_masks
zip_and_twice zero l k [] v = refl
zip_and_twice (suc n) l k [] v = refl
zip_and_twice zero l k (b ∷ a) v = refl
zip_and_twice (suc n) l k (b ∷ a) v =
    let low : min (min l 8) (min k 8) ≡ min (min l k) 8 = omega arith in
    let rest : min (l - 8) (k - 8) ≡ min l k - 8 = omega arith in
    let head =
      and_twice (min l 8) (min k 8) b (omega arith) (omega arith) v.0
      ∙ ap (λ m. bit_and b (shifted m)) low in
    let tail = zip_and_twice n (l - 8) (k - 8) a v.1 ∙ ap (λ m. zip_and a (octet_masks m n)) rest in
    rw (head, tail) refl

option_same_eq : (o : Option (List ℕ)) (x : List ℕ) → option_same o (some x) ≡ true → o ≡ some x
option_same_eq none x h = absurd (cc h)
option_same_eq (some a) x h = ap some (=?_eq {A = List ℕ} a x h)

mask-some : (len : ℕ) → len ≤ 128 → mask len ≡ some (octet_masks len 16)
mask-some len h = option_same_eq (mask len) (octet_masks len 16) (
    all_below_sound 129 (λ len. option_same (mask len) (some (octet_masks len 16))) len mask_table
      (omega (arith, h)))

-- Masking with a valid length never panics.
pub apply_mask-some :
    (a : Bytes) (len : ℕ) → len ≤ 128 → apply_mask a len ≡ some (zip_and a (octet_masks len 16))
unfolding apply_mask
apply_mask-some a len h =
    ap (λ o. elim o [ none ↦ none | some m ↦ some (zip_and a m) ]) (mask-some len h)

-- A shorter mask undoes nothing and a longer one adds nothing.
pub zip_and-min :
    (l k : ℕ) (a : Bytes)
    → AreBytes a
    → l ≤ k
    → zip_and (zip_and a (octet_masks k 16)) (octet_masks l 16) ≡ zip_and a (octet_masks l 16)
zip_and-min l k a v h =
    zip_and_twice 16 k l a v ∙ ap (λ m. zip_and a (octet_masks m 16)) (omega (arith, h))
