-- ===== src/Base/Bytes/Frame.antt =====
-- A frame: a body that is put together from pieces, a trailer (a MAC or a signature), and bytes
-- that a datagram may hold behind it. Its parts are found again by their offsets.
use Prim.Native.Nat.{ℕ, zero, suc, ◌+◌}
use mathlib.Core.Path.{◌≡◌, refl, ap, subst, sym, ◌∙◌}
use mathlib.Core.List.{List, [], ◌∷◌, ◌++◌, append_assoc, append-nil}
use mathlib.Core.Option.{some}
use native.Mathlib.Omega.{arith}
use hextet.Base.Lists.{length, get_elem?, take, drop, length-append}
use hextet.Base.Outcome.{ok}
use hextet.Base.Bytes.{Bytes, concat}
use hextet.Base.Bytes.Slice.{slice, byte_at, slice-concat, byte_at-concat}

-- The bytes in a list of pieces.
abbrev pub total : List Bytes → ℕ
total [] = 0
total (p ∷ ps) = length p + total ps

pub length-concat : (ps : List Bytes) → length (concat ps) ≡ total ps
length-concat [] = refl
length-concat (p ∷ ps) = omega (arith, length-append p (concat ps), length-concat ps)

abbrev pub frame : List Bytes → Bytes → Bytes → Bytes
frame body trailer rest = (concat body ++ trailer) ++ rest

concat-concat : (ps : List Bytes) (x y : Bytes) → (concat ps ++ x) ++ y ≡ concat (ps ++ x ∷ y ∷ [])
concat-concat [] x y = ap (◌++◌ x) (sym (append-nil y))
concat-concat (p ∷ ps) x y =
    append_assoc (p ++ concat ps) x y
    ∙ append_assoc p (concat ps) (x ++ y)
    ∙ ap (◌++◌ p) (sym (append_assoc (concat ps) x y) ∙ concat-concat ps x y)

split_at :
    (ps : List Bytes) (i : ℕ) {x : Bytes} (qs : List Bytes)
    → get_elem? ps i ≡ some x
    → ps ++ qs ≡ take i ps ++ x ∷ (drop (suc i) ps ++ qs)
split_at [] i qs e = cc
split_at (p ∷ ps) zero qs e = ground arith
split_at (p ∷ ps) (suc i) qs e = ap (◌∷◌ p) (split_at ps i qs e)

module _ {E : Type 0} (body : List Bytes) (trailer rest : Bytes) where
  pub slice_piece :
      (i a b : ℕ) {x : Bytes}
      → get_elem? body i ≡ some x
      → total (take i body) ≡ a
      → a + length x ≡ b
      → slice {E = E} (frame body trailer rest) a b ≡ ok x
  slice_piece i a b {x} e ea eb =
      rw (concat-concat body trailer rest, split_at body i (trailer ∷ rest ∷ []) e)
        (slice-concat (take i body) x _ a b (length-concat (take i body) ∙ ea) eb)

  pub byte_at_piece :
      (i a : ℕ) {v : ℕ} {more : Bytes}
      → get_elem? body i ≡ some (v ∷ more)
      → total (take i body) ≡ a
      → byte_at {E = E} (frame body trailer rest) a ≡ ok v
  byte_at_piece i a {v} {more} e ea =
      rw (concat-concat body trailer rest, split_at body i (trailer ∷ rest ∷ []) e)
        (byte_at-concat (take i body) v more _ a (length-concat (take i body) ∙ ea))

  pub slice-body :
      (n : ℕ) → total body ≡ n → slice {E = E} (frame body trailer rest) 0 n ≡ ok (concat body)
  slice-body n e =
      subst (λ bs. slice {E = E} bs 0 n ≡ ok (concat body)) (sym whole)
        (slice-concat [] (concat body) ((trailer ++ rest) ∷ []) 0 n refl
          (omega (arith, length-concat body)))
    where
      whole : frame body trailer rest ≡ concat body ++ ((trailer ++ rest) ++ [])
      whole = append_assoc (concat body) trailer rest ∙ ap (◌++◌ (concat body)) (sym (append-nil _))

  pub slice_trailer :
      (n m : ℕ)
      → total body ≡ n
      → n + length trailer ≡ m
      → slice {E = E} (frame body trailer rest) n m ≡ ok trailer
  slice_trailer n m e f =
      rw (concat-concat body trailer rest)
        (slice-concat body trailer (rest ∷ []) n m (length-concat body ∙ e) f)

pub length-frame :
    (body : List Bytes) (trailer rest : Bytes)
    → length (frame body trailer rest) ≡ total body + length trailer + length rest
length-frame body trailer rest = omega (
  arith,
  length-append (concat body ++ trailer) rest,
  length-append (concat body) trailer,
  length-concat body,
)

pub slice_between :
    {E : Type 0} (pre : List Bytes) (x : Bytes) (post : List Bytes) (trailer rest : Bytes) (a b : ℕ)
    → total pre ≡ a
    → a + length x ≡ b
    → slice {E = E} (frame (pre ++ x ∷ post) trailer rest) a b ≡ ok x
slice_between pre x post trailer rest a b ea eb =
    rw
      (
        concat-concat (pre ++ x ∷ post) trailer rest,
        append_assoc pre (x ∷ post) (trailer ∷ rest ∷ []),
      )
      (slice-concat pre x _ a b (length-concat pre ∙ ea) eb)

pub total-snoc : (ps : List Bytes) (x : Bytes) → total (ps ++ x ∷ []) ≡ total ps + length x
total-snoc [] x = omega arith
total-snoc (p ∷ ps) x = omega (arith, total-snoc ps x)

pub total-append : (ps qs : List Bytes) → total (ps ++ qs) ≡ total ps + total qs
total-append [] qs = omega arith
total-append (p ∷ ps) qs = omega (arith, total-append ps qs)
