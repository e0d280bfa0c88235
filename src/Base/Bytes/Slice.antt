-- ===== src/Base/Bytes/Slice.antt =====
-- `bytes[i]` and `bytes[a..b]`, which panic out of bounds, on buffers built from pieces.
use Prim.Native.Nat.{ℕ, zero, suc, ◌+◌, ◌-◌, ◌≤◌, ◌<◌}
use mathlib.Core.Path.{◌≡◌, refl, ap, sym, ◌∙◌}
use mathlib.Core.Bool.{◌&&◌}
use mathlib.Core.List.{List, [], ◌∷◌, ◌++◌, append_assoc}
use mathlib.Core.Option.{some}
use native.Mathlib.Omega.{arith}
use hextet.Base.Lists.{
  length, get_elem?, take, drop, length-append, length-take, length-drop, take_append,
}
use hextet.Base.Tests.{leb, if◌then◌else◌}
use hextet.Base.Outcome.{Outcome, ok, panic, or_panic}
use hextet.Base.Bytes.{Bytes, concat}

-- The bytes from `a` up to `b`, where those are in bounds; shut, so that it stays one term.
unfoldable pub cut : Bytes → ℕ → ℕ → Bytes
cut bs a b = take (b - a) (drop a bs)

unfoldable pub slice : {E : Type 0} → Bytes → ℕ → ℕ → Outcome E Bytes
slice bs a b = if leb a b && leb b (length bs) then ok (cut bs a b) else panic

unfoldable pub byte_at : {E : Type 0} → Bytes → ℕ → Outcome E ℕ
byte_at bs i = or_panic (get_elem? bs i)

drop-concat : (xs ys : Bytes) (n : ℕ) → drop (length xs + n) (xs ++ ys) ≡ drop n ys
drop-concat [] ys n = ap (λ k. drop k ys) (omega arith)
drop-concat (x ∷ xs) ys n =
    ap (λ k. drop k (x ∷ (xs ++ ys))) (step (length xs) n) ∙ drop-concat xs ys n
  where
    step : (k m : ℕ) → suc k + m ≡ suc (k + m)
    step k m = omega arith

concat-append :
    (pre : List Bytes) (x : Bytes) (post : List Bytes)
    → concat (pre ++ x ∷ post) ≡ concat pre ++ (x ++ concat post)
concat-append [] x post = refl
concat-append (p ∷ pre) x post = rw (concat-append pre x post) (sym (append_assoc p _ _))

pub slice_in :
    {E : Type 0} (bs : Bytes) (a b : ℕ)
    → a ≤ b
    → b ≤ length bs
    → slice {E = E} bs a b ≡ ok (cut bs a b)
unfolding slice
slice_in bs a b h k = ground arith

slice_mid :
    {E : Type 0} (p x q : Bytes) (a b : ℕ)
    → length p ≡ a
    → a + length x ≡ b
    → slice {E = E} (p ++ (x ++ q)) a b ≡ ok x
unfolding cut
slice_mid p x q a b ea eb =
    slice_in (p ++ (x ++ q)) a b (omega arith)
      (omega (arith, length-append p (x ++ q), length-append x q))
    ∙ ap ok (
        ap (take (b - a)) (ap (λ n. drop n (p ++ (x ++ q))) off ∙ drop-concat p (x ++ q) 0)
        ∙ take_append (b - a) x q (omega arith))
  where
    off : a ≡ length p + 0
    off = omega arith

-- A piece of a buffer is cut out at its offset.
pub slice-concat :
    {E : Type 0} (pre : List Bytes) (x : Bytes) (post : List Bytes) (a b : ℕ)
    → length (concat pre) ≡ a
    → a + length x ≡ b
    → slice {E = E} (concat (pre ++ x ∷ post)) a b ≡ ok x
slice-concat pre x post a b ea eb =
    rw (concat-append pre x post) (slice_mid (concat pre) x (concat post) a b ea eb)

get_elem?-append : (p q : Bytes) → get_elem? (p ++ q) (length p) ≡ get_elem? q 0
get_elem?-append [] q = refl
get_elem?-append (x ∷ p) q = get_elem?-append p q

pub byte_at-concat :
    {E : Type 0} (pre : List Bytes) (v : ℕ) (rest : Bytes) (post : List Bytes) (i : ℕ)
    → length (concat pre) ≡ i
    → byte_at {E = E} (concat (pre ++ (v ∷ rest) ∷ post)) i ≡ ok v
unfolding byte_at
byte_at-concat pre v rest post i e =
    rw (← e, concat-append pre (v ∷ rest) post)
      (ap or_panic (get_elem?-append (concat pre) (v ∷ (rest ++ concat post))))

unfoldable pub get_or : Bytes → ℕ → ℕ → ℕ
get_or [] i d = d
get_or (x ∷ xs) zero d = x
get_or (x ∷ xs) (suc i) d = get_or xs i d

get_elem?-get_or : (xs : Bytes) (i : ℕ) → i < length xs → get_elem? xs i ≡ some (get_or xs i 0)
unfolding get_or
get_elem?-get_or [] i h = absurd (omega arith)
get_elem?-get_or (x ∷ xs) zero h = refl
get_elem?-get_or (x ∷ xs) (suc i) h = get_elem?-get_or xs i (omega arith)

pub byte_at_in :
    {E : Type 0} (bs : Bytes) (i : ℕ) → i < length bs → byte_at {E = E} bs i ≡ ok (get_or bs i 0)
unfolding byte_at
byte_at_in bs i h = ap or_panic (get_elem?-get_or bs i h)

pub slice_bounds :
    {E : Type 0} (bs : Bytes) (a b : ℕ) {x : Bytes}
    → slice {E = E} bs a b ≡ ok x
    → (a ≤ b) × (b ≤ length bs) × (x ≡ cut bs a b)
unfolding slice
slice_bounds bs a b h = ground arith

pub length-slice :
    {E : Type 0} (bs : Bytes) (a b : ℕ) {x : Bytes} → slice {E = E} bs a b ≡ ok x → length x + a ≡ b
unfolding cut
length-slice bs a b {x} h =
    let (h1, h2, e) = slice_bounds bs a b h in
    omega (arith, ap length e, length-take (b - a) (drop a bs) (omega (arith, length-drop a bs)))
