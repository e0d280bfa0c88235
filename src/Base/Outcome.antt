-- ===== src/Base/Outcome.antt =====
-- What a call of fallible Rust code comes to: `Ok`, `Err`, or a panic (an index or a slice out of
-- bounds). Code that cannot fail and cannot panic is modelled by plain functions.
use mathlib.Core.Path.{◌≡◌, refl}
use mathlib.Core.Bool.{Bool, true, false}
use mathlib.Core.Option.{Option, none, some}

pub data Outcome {ℓ κ} (E : Type ℓ) (A : Type κ) : Type (ℓ ⊔ κ) where
  ok : A → Outcome E A
  err : E → Outcome E A
  panic : Outcome E A

infixl 5 ◌>>=◌ ◌>>◌
abbrev pub ◌>>=◌ {ℓ κ μ} :
    {E : Type ℓ} {A : Type κ} {B : Type μ} → Outcome E A → (A → Outcome E B) → Outcome E B
ok a >>= f = f a
err e >>= f = err e
panic >>= f = panic

abbrev pub ◌>>◌ {ℓ κ} : {E : Type ℓ} {B : Type κ} → Outcome E (Unit {0}) → Outcome E B → Outcome E B
m >> k = m >>= λ _. k

-- `if refused { return Err(e) }`
abbrev pub reject_if {ℓ} : {E : Type ℓ} → Bool → E → Outcome E (Unit {0})
reject_if true e = err e
reject_if false e = ok tt

-- An option that the code unwraps, such as the result of an index.
abbrev pub or_panic {ℓ κ} : {E : Type ℓ} {A : Type κ} → Option A → Outcome E A
or_panic none = panic
or_panic (some a) = ok a

abbrev pub or_err {ℓ κ} : {E : Type ℓ} {A : Type κ} → Option A → E → Outcome E A
or_err none e = err e
or_err (some a) e = ok a

-- `?` and `map_err`.
abbrev pub map_err {ℓ} : {E F : Type 0} {A : Type ℓ} → (E → F) → Outcome E A → Outcome F A
map_err f (ok a) = ok a
map_err f (err e) = err (f e)
map_err f panic = panic

-- Inversion of a successful chain.
pub >>=-eq-ok {ℓ κ μ} :
    {E : Type ℓ} {A : Type κ} {B : Type μ} (start : Outcome E A) (next : A → Outcome E B) {end : B}
    → (start >>= next) ≡ ok end
    → (middle : A) × (start ≡ ok middle) × (next middle ≡ ok end)
>>=-eq-ok panic next h = cc
>>=-eq-ok (err reason) next h = cc
>>=-eq-ok (ok middle) next h = (middle, refl, h)

pub ok_injective : {E A : Type 0} {a b : A} → (let l : Outcome E A = ok a in l) ≡ ok b → a ≡ b
ok_injective h = cc
