-- ===== src/Base/Bytes/Endian.antt =====
-- `to_be_bytes` and `from_be_bytes` at every width.
use Prim.Native.Nat.{ℕ, zero, suc, ◌+◌, ◌*◌, ◌/◌, ◌%◌, ◌^◌, ◌<◌}
use mathlib.Core.Path.{◌≡◌, refl, ap, subst, sym, ◌∙◌}
use mathlib.Core.List.{[], ◌∷◌, ◌++◌, reverse, reverse-cons, reverse-reverse}
use native.Mathlib.Nat.{pow-suc}
use native.Mathlib.Omega.{arith}
use hextet.Base.Lists.{length, length-reverse}
use hextet.Base.Bytes.{Bytes, IsByte, AreBytes}

-- Little end first.
le_bytes : ℕ → ℕ → Bytes
le_bytes zero v = []
le_bytes (suc w) v = (v % 256) ∷ le_bytes w (v / 256)

from_le : Bytes → ℕ
from_le [] = 0
from_le (b ∷ bs) = b + 256 * from_le bs

unfoldable pub to_be_bytes : ℕ → ℕ → Bytes
unfolding le_bytes
to_be_bytes w v = reverse (le_bytes w v)

unfoldable pub from_be_bytes : Bytes → ℕ
unfolding from_le
from_be_bytes bs = from_le (reverse bs)

length-le_bytes : (w v : ℕ) → length (le_bytes w v) ≡ w
unfolding le_bytes
length-le_bytes zero v = refl
length-le_bytes (suc w) v = ap suc (length-le_bytes w (v / 256))

from_le-le_bytes : (w v : ℕ) → v < 256 ^ w → from_le (le_bytes w v) ≡ v
unfolding from_le le_bytes
from_le-le_bytes zero v h = omega arith
from_le-le_bytes (suc w) v h =
    omega (arith, from_le-le_bytes w (v / 256) (omega (arith, pow-suc 256 w)))

le_bytes-from_le : (bs : Bytes) → AreBytes bs → le_bytes (length bs) (from_le bs) ≡ bs
unfolding from_le le_bytes
le_bytes-from_le [] h = refl
le_bytes-from_le (b ∷ bs) h =
    rw (sym (head_lem b (from_le bs) h.0), sym (tail_lem b (from_le bs) h.0))
      (ap (◌∷◌ b) (le_bytes-from_le bs h.1))
  where
    head_lem : (x y : ℕ) → IsByte x → x ≡ (x + 256 * y) % 256
    head_lem x y k = omega arith

    tail_lem : (x y : ℕ) → IsByte x → y ≡ (x + 256 * y) / 256
    tail_lem x y k = omega arith

pub AreBytes-append : (xs ys : Bytes) → AreBytes xs → AreBytes ys → AreBytes (xs ++ ys)
AreBytes-append [] ys h k = k
AreBytes-append (x ∷ xs) ys h k = (h.0, AreBytes-append xs ys h.1 k)

AreBytes-reverse : (xs : Bytes) → AreBytes xs → AreBytes (reverse xs)
AreBytes-reverse [] h = tt
AreBytes-reverse (x ∷ xs) h =
    rw (reverse-cons x xs)
      (AreBytes-append (reverse xs) (x ∷ []) (AreBytes-reverse xs h.1) (h.0, tt))

AreBytes-le_bytes : (w v : ℕ) → AreBytes (le_bytes w v)
unfolding le_bytes
AreBytes-le_bytes zero v = tt
AreBytes-le_bytes (suc w) v = (omega arith, AreBytes-le_bytes w (v / 256))

from_le-lt : (bs : Bytes) → AreBytes bs → from_le bs < 256 ^ length bs
unfolding from_le
from_le-lt [] h = omega arith
from_le-lt (b ∷ bs) h = omega (arith, h.0, from_le-lt bs h.1, pow-suc 256 (length bs))

pub length-to_be_bytes : (w v : ℕ) → length (to_be_bytes w v) ≡ w
unfolding to_be_bytes
length-to_be_bytes w v = length-reverse (le_bytes w v) ∙ length-le_bytes w v

pub AreBytes-to_be_bytes : (w v : ℕ) → AreBytes (to_be_bytes w v)
unfolding to_be_bytes
AreBytes-to_be_bytes w v = AreBytes-reverse _ (AreBytes-le_bytes w v)

pub from_be_bytes-to_be_bytes : (w v : ℕ) → v < 256 ^ w → from_be_bytes (to_be_bytes w v) ≡ v
unfolding from_be_bytes to_be_bytes
from_be_bytes-to_be_bytes w v h = ap from_le (reverse-reverse _) ∙ from_le-le_bytes w v h

pub to_be_bytes-from_be_bytes :
    (bs : Bytes) (w : ℕ) → AreBytes bs → length bs ≡ w → to_be_bytes w (from_be_bytes bs) ≡ bs
unfolding from_be_bytes to_be_bytes
to_be_bytes-from_be_bytes bs w h e =
    rw (← e, ← length-reverse bs)
      (ap reverse (le_bytes-from_le (reverse bs) (AreBytes-reverse bs h)) ∙ reverse-reverse bs)

from_be_bytes-lt_pow : (bs : Bytes) → AreBytes bs → from_be_bytes bs < 256 ^ length bs
unfolding from_be_bytes
from_be_bytes-lt_pow bs h =
    rw (length-reverse bs) at (from_le-lt (reverse bs) (AreBytes-reverse bs h))

pub from_be_bytes-lt :
    (bs : Bytes) (w : ℕ) → AreBytes bs → length bs ≡ w → from_be_bytes bs < 256 ^ w
from_be_bytes-lt bs w h e = subst (λ n. from_be_bytes bs < 256 ^ n) e (from_be_bytes-lt_pow bs h)
