-- ===== src/Base/Bytes/Glue.antt =====
-- Neighbouring slices of a buffer and the slice they join to.
use Prim.Native.Nat.{ℕ, zero, suc, ◌+◌, ◌-◌, ◌≤◌, ◌<◌}
use mathlib.Core.Path.{◌≡◌, refl, ap, sym, ◌∙◌}
use mathlib.Core.List.{List, [], ◌∷◌, ◌++◌, append-nil, append_assoc}
use native.Mathlib.Omega.{arith}
use hextet.Base.Lists.{length, get_elem?, take, drop}
use hextet.Base.Outcome.{ok, or_panic}
use hextet.Base.Bytes.{Bytes, AreBytes, concat}
use hextet.Base.Bytes.Slice.{cut, slice, byte_at, slice_in, slice_bounds}

add_suc : (k l : ℕ) → suc k + l ≡ suc (k + l)
add_suc k l = omega arith

take_nil : (k : ℕ) → take {A = ℕ} k [] ≡ []
take_nil zero = refl
take_nil (suc k) = refl

drop_nil : (k : ℕ) → drop {A = ℕ} k [] ≡ []
drop_nil zero = refl
drop_nil (suc k) = refl

take_add : (m n : ℕ) (xs : Bytes) → take (m + n) xs ≡ take m xs ++ take n (drop m xs)
take_add zero n xs = ap (λ k. take k xs) (omega arith)
take_add (suc m) zero [] = take_nil (suc m + 0)
take_add (suc m) (suc n) [] = take_nil (suc m + suc n)
take_add (suc m) n (x ∷ xs) = ap (λ k. take k (x ∷ xs)) (add_suc m n) ∙ ap (◌∷◌ x) (take_add m n xs)

drop_add : (m n : ℕ) (xs : Bytes) → drop n (drop m xs) ≡ drop (m + n) xs
drop_add zero n xs = ap (λ k. drop k xs) (omega arith)
drop_add (suc m) zero [] = sym (drop_nil (suc m + 0))
drop_add (suc m) (suc n) [] = sym (drop_nil (suc m + suc n))
drop_add (suc m) n (x ∷ xs) = drop_add m n xs ∙ ap (λ k. drop k (x ∷ xs)) (sym (add_suc m n))

pub slice-glue :
    {E : Type 0} (bs : Bytes) (a b c : ℕ) {x y : Bytes}
    → slice {E = E} bs a b ≡ ok x
    → slice {E = E} bs b c ≡ ok y
    → slice {E = E} bs a c ≡ ok (x ++ y)
unfolding cut
slice-glue bs a b c {x} {y} h k =
    let (h1, h2, e) = slice_bounds bs a b h in
    let (k1, k2, f) = slice_bounds bs b c k in
    slice_in bs a c (omega arith) k2
    ∙ ap ok (
        ap (λ n. take n (drop a bs)) (split a b c h1 k1)
        ∙ take_add (b - a) (c - b) (drop a bs)
        ∙ rw (e, f)
            (ap (λ t. take (b - a) (drop a bs) ++ take (c - b) t)
              (drop_add a (b - a) bs ∙ ap (λ n. drop n bs) (back a b h1))))
  where
    split : (i j l : ℕ) → i ≤ j → j ≤ l → l - i ≡ (j - i) + (l - j)
    split i j l p q = omega arith

    back : (i j : ℕ) → i ≤ j → i + (j - i) ≡ j
    back i j p = omega arith

-- One byte is a slice of length one.
pub slice_byte :
    {E : Type 0} (bs : Bytes) (i : ℕ) {v : ℕ}
    → byte_at {E = E} bs i ≡ ok v
    → slice {E = E} bs i (i + 1) ≡ ok (v ∷ [])
unfolding byte_at cut
slice_byte bs i {v} h =
    let e = found bs i h in
    slice_in bs i (i + 1) (omega arith) (omega (arith, e.0))
    ∙ ap ok (ap (λ n. take n (drop i bs)) (one i) ∙ e.1)
  where
    one : (k : ℕ) → k + 1 - k ≡ 1
    one k = omega arith

    found :
        {E : Type 0} (xs : Bytes) (k : ℕ)
        → or_panic {E = E} (get_elem? xs k) ≡ ok v
        → (k < length xs) × (take 1 (drop k xs) ≡ v ∷ [])
    found [] k g = cc
    found (x ∷ xs) zero g = (omega arith, ground arith)
    found (x ∷ xs) (suc k) g = let r = found xs k g in (omega (arith, r.0), r.1)

pub take-slice :
    {E : Type 0} (bs : Bytes) (n : ℕ) {x : Bytes} → slice {E = E} bs 0 n ≡ ok x → take n bs ≡ x
unfolding cut
take-slice bs n h = let (h1, h2, e) = slice_bounds bs 0 n h in ap (λ k. take k bs) (minus n) ∙ sym e
  where
    minus : (k : ℕ) → k ≡ k - 0
    minus k = omega arith

pub AreBytes-take : (n : ℕ) (xs : Bytes) → AreBytes xs → AreBytes (take n xs)
AreBytes-take zero xs h = tt
AreBytes-take (suc n) [] h = tt
AreBytes-take (suc n) (x ∷ xs) h = (h.0, AreBytes-take n xs h.1)

pub AreBytes-drop : (n : ℕ) (xs : Bytes) → AreBytes xs → AreBytes (drop n xs)
AreBytes-drop zero xs h = h
AreBytes-drop (suc n) [] h = tt
AreBytes-drop (suc n) (x ∷ xs) h = AreBytes-drop n xs h.1

pub AreBytes-slice :
    {E : Type 0} (bs : Bytes) (a b : ℕ) {x : Bytes}
    → AreBytes bs
    → slice {E = E} bs a b ≡ ok x
    → AreBytes x
unfolding cut
AreBytes-slice bs a b h k =
    let (h1, h2, e) = slice_bounds bs a b k in
    rw e (AreBytes-take (b - a) (drop a bs) (AreBytes-drop a bs h))

pub concat-snoc : (ps : List Bytes) (x : Bytes) → concat ps ++ x ≡ concat (ps ++ x ∷ [])
concat-snoc [] x = sym (append-nil x)
concat-snoc (p ∷ ps) x = append_assoc p (concat ps) x ∙ ap (◌++◌ p) (concat-snoc ps x)

slice_empty : {E : Type 0} (bs : Bytes) (a : ℕ) → a ≤ length bs → slice {E = E} bs a a ≡ ok []
unfolding cut
slice_empty bs a h =
    slice_in bs a a (omega arith) h ∙ ap (λ n. ok (take n (drop a bs))) (none_left a)
  where
    none_left : (k : ℕ) → k - k ≡ 0
    none_left k = omega arith

-- `bs[a..c]` is made of these pieces, one behind the other.
pub data Layout (E : Type 0) (bs : Bytes) (c : ℕ) : ℕ → List Bytes → Type 0 where
  end : c ≤ length bs → Layout E bs c c []
  field :
      {a : ℕ} (b : ℕ) {x : Bytes} {ps : List Bytes}
      → slice {E = E} bs a b ≡ ok x
      → Layout E bs c b ps
      → Layout E bs c a (x ∷ ps)

pub slice-Layout :
    {E : Type 0} {bs : Bytes} {c a : ℕ} {ps : List Bytes}
    → Layout E bs c a ps
    → slice {E = E} bs a c ≡ ok (concat ps)
slice-Layout {bs} {a} (end h) = slice_empty bs a h
slice-Layout {bs} {c} {a} (field b s rest) = slice-glue bs a b c s (slice-Layout rest)
