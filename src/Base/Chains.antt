-- ===== src/Base/Chains.antt =====
-- Chains of fallible steps: what holds when they pass, and when they cannot panic; and what holds of
-- every element, or of every two elements, of a list.
use mathlib.Core.Path.{◌≡◌, refl}
use mathlib.Core.Logic.{◌≢◌}
use mathlib.Core.Bool.{Bool, true, false}
use mathlib.Core.List.{List, [], ◌∷◌}
use mathlib.Core.Option.{Option, none, some}
use hextet.Base.Lists.{All}
use hextet.Base.Outcome.{Outcome, ok, err, panic, ◌>>=◌, reject_if, or_err, map_err}

-- Every two elements, the earlier one first.
abbrev pub Pairwise {ℓ} : {A : Type ℓ} → (A → A → Type 0) → List A → Type 0
Pairwise R [] = Unit
Pairwise R (x ∷ xs) = All (R x) xs × Pairwise R xs

pub All-always {ℓ} : {A : Type ℓ} {P : A → Type 0} (xs : List A) → ((x : A) → P x) → All P xs
All-always [] f = tt
All-always (x ∷ xs) f = (f x, All-always xs f)

pub All-map {ℓ} :
    {A : Type ℓ} {P Q : A → Type 0} (xs : List A) → ((x : A) → P x → Q x) → All P xs → All Q xs
All-map [] f v = tt
All-map (x ∷ xs) f v = (f x v.0, All-map xs f v.1)

pub Pairwise-map {ℓ} :
    {A : Type ℓ} {P : A → Type 0} {R S : A → A → Type 0} (xs : List A)
    → ((x y : A) → P x → P y → R x y → S x y)
    → All P xs
    → Pairwise R xs
    → Pairwise S xs
Pairwise-map [] f p v = tt
Pairwise-map {A = A} {P = P} {R = R} {S = S} (x ∷ xs) f p v =
    (row xs p.1 v.0, Pairwise-map xs f p.1 v.1)
  where
    row : (ys : List A) → All P ys → All (R x) ys → All (S x) ys
    row [] q w = tt
    row (y ∷ ys) q w = (f x y p.0 q.0 w.0, row ys q.1 w.1)

pub reject_if-ok : {E : Type 0} (b : Bool) (e : E) → reject_if b e ≡ ok tt → b ≡ false
reject_if-ok true e h = cc h
reject_if-ok false e h = refl

pub map_err-ok {ℓ} :
    {E F : Type 0} {A : Type ℓ} (f : E → F) (m : Outcome E A) {a : A}
    → map_err f m ≡ ok a
    → m ≡ ok a
map_err-ok f (ok b) h = cc h
map_err-ok f (err e) h = absurd (cc h)
map_err-ok f panic h = absurd (cc h)

pub or_err-ok {ℓ} :
    {E : Type 0} {A : Type ℓ} (o : Option A) (e : E) {a : A} → or_err o e ≡ ok a → o ≡ some a
or_err-ok none e h = absurd (cc h)
or_err-ok (some b) e h = cc h

-- A chain panics only where one of its steps does.
pub >>=-panic {ℓ κ μ} :
    {E : Type ℓ} {A : Type κ} {B : Type μ} (start : Outcome E A) (next : A → Outcome E B)
    → start ≢ panic
    → ((a : A) → start ≡ ok a → next a ≢ panic)
    → (start >>= next) ≢ panic
>>=-panic (ok a) next h k = k a refl
>>=-panic (err e) next h k = λ p. cc p
>>=-panic panic next h k = λ p. h refl

pub reject_if-panic : {E : Type 0} (b : Bool) (e : E) → reject_if b e ≢ panic
reject_if-panic true e = λ p. cc p
reject_if-panic false e = λ p. cc p

pub or_err-panic {ℓ} : {E : Type 0} {A : Type ℓ} (o : Option A) (e : E) → or_err o e ≢ panic
or_err-panic none e = λ p. cc p
or_err-panic (some a) e = λ p. cc p

pub map_err-panic {ℓ} :
    {E F : Type 0} {A : Type ℓ} (f : E → F) (m : Outcome E A) → m ≢ panic → map_err f m ≢ panic
map_err-panic f (ok b) h = λ p. cc p
map_err-panic f (err e) h = λ p. cc p
map_err-panic f panic h = λ p. h refl
