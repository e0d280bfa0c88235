-- ===== src/Base/Tests.antt =====
-- Boolean tests on the native numbers, the conditional, and equality tests as instances.
use Prim.Native.Nat.{ℕ, ◌≤◌, ◌<◌, compare, Ordering}
use mathlib.Core.Path.{◌≡◌, refl}
use mathlib.Core.Logic.{◌≢◌, ◌↔◌, ◌⊎◌, inl, inr}
use mathlib.Core.Bool.{Bool, true, false, ◌&&◌}
use mathlib.Core.List.{List, [], ◌∷◌}
use mathlib.Core.Option.{Option, none, some}
use native.Mathlib.Omega.{arith}

abbrev pub ltb : ℕ → ℕ → Bool
ltb a b = elim (compare a b) [ Ordering.lt ↦ true | _ ↦ false ]

abbrev pub leb : ℕ → ℕ → Bool
leb a b = elim (compare a b) [ Ordering.gt ↦ false | _ ↦ true ]

infix 50 ◌==◌
abbrev pub ◌==◌ : ℕ → ℕ → Bool
a == b = elim (compare a b) [ Ordering.eq ↦ true | _ ↦ false ]

infix 1 if◌then◌else◌
abbrev pub if◌then◌else◌ {ℓ} : {A : Type ℓ} → Bool → A → A → A
if true then x else y = x
if false then x else y = y

pub ltb→lt : (a b : ℕ) → ltb a b ≡ true → a < b
ltb→lt a b h = ground arith

pub lt→ltb : (a b : ℕ) → a < b → ltb a b ≡ true
lt→ltb a b h = ground arith

pub ltb_ge : (a b : ℕ) → b ≤ a → ltb a b ≡ false
ltb_ge a b h = ground arith

pub ==_iff : (a b : ℕ) → ((a == b) ≡ true) ↔ (a ≡ b)
==_iff a b = ground arith

-- To split on a computed value and keep the equation.
pub Bool-cases : (b : Bool) → (b ≡ true) ⊎ (b ≡ false)
Bool-cases true = inl refl
Bool-cases false = inr refl

pub Option-cases {ℓ} : {A : Type ℓ} (o : Option A) → (o ≡ none) ⊎ ((a : A) × (o ≡ some a))
Option-cases none = inl refl
Option-cases (some a) = inr (a, refl)

-- Rust's `PartialEq` where it is an equivalence that implies equality (`Eq` on plain data).
pub record Equality {ℓ} (A : Type ℓ) : Type ℓ where
  pub same : A → A → Bool
  pub same_iff : (a b : A) → (same a b ≡ true) ↔ (a ≡ b)

infix 50 ◌=?◌
abbrev pub ◌=?◌ {ℓ} : {A : Type ℓ} ⦃e : Equality A⦄ → A → A → Bool
◌=?◌ ⦃e⦄ = e.same

instance abbrev pub ℕ_equality : Equality ℕ
ℕ_equality = record { same = ◌==◌; same_iff = ==_iff }

module _ {ℓ} {A : Type ℓ} ⦃e : Equality A⦄ where
  pub =?_self : (a : A) → (a =? a) ≡ true
  =?_self a = (e.same_iff a a).1 refl

  pub =?_eq : (a b : A) → (a =? b) ≡ true → a ≡ b
  =?_eq a b = (e.same_iff a b).0

  pub =?_ne : (a b : A) → (a =? b) ≡ false → a ≢ b
  =?_ne a b h q = cc (h, (e.same_iff a b).1 q)

  unfoldable pub list_same : List A → List A → Bool
  list_same [] [] = true
  list_same (x ∷ xs) (y ∷ ys) = (x =? y) && list_same xs ys
  list_same _ _ = false

  pub list_same_iff : (xs ys : List A) → (list_same xs ys ≡ true) ↔ (xs ≡ ys)
  unfolding list_same
  list_same_iff [] [] = (λ _. refl, λ _. refl)
  list_same_iff [] (y ∷ ys) = (λ h. cc, λ h. cc)
  list_same_iff (x ∷ xs) [] = (λ h. cc, λ h. cc)
  list_same_iff (x ∷ xs) (y ∷ ys) = (
    λ h. ground (arith, e.same_iff x y, list_same_iff xs ys),
    λ h. ground (arith, e.same_iff x y, list_same_iff xs ys),
  )

instance abbrev pub list_equality {ℓ} : {A : Type ℓ} ⦃e : Equality A⦄ → Equality (List A)
list_equality = record { same = list_same; same_iff = list_same_iff }

module _ {ℓ κ} {A : Type ℓ} {B : Type κ} ⦃e : Equality A⦄ ⦃f : Equality B⦄ where
  abbrev pub pair_same : A × B → A × B → Bool
  pair_same (a, b) (c, d) = (a =? c) && (b =? d)

  pub pair_same_iff : (p q : A × B) → (pair_same p q ≡ true) ↔ (p ≡ q)
  pair_same_iff (a, b) (c, d) = (
    λ h. ground (arith, e.same_iff a c, f.same_iff b d),
    λ h. ground (arith, e.same_iff a c, f.same_iff b d),
  )

instance abbrev pub pair_equality {ℓ κ} :
    {A : Type ℓ} {B : Type κ} ⦃e : Equality A⦄ ⦃f : Equality B⦄ → Equality (A × B)
pair_equality = record { same = pair_same; same_iff = pair_same_iff }

abbrev pub option_same {ℓ} : {A : Type ℓ} ⦃e : Equality A⦄ → Option A → Option A → Bool
option_same none none = true
option_same (some a) (some b) = a =? b
option_same _ _ = false

pub ==_self : (a : ℕ) → (a == a) ≡ true
==_self a = ground arith
