-- ===== src/Base/Assoc.antt =====
-- Rust's maps (`HashMap`, `BTreeMap`) as association lists with one entry to a key. The order of
-- the entries is the model's; no property rests on it.
use hextet.Base.Tests.{
  Equality, ◌=?◌, =?_eq, =?_ne, =?_self, if◌then◌else◌, Bool-cases, Option-cases,
}
use hextet.Base.Lists.{length, contains}
use Prim.Native.Nat.{suc, ◌≤◌}
use mathlib.Core.Path.{◌≡◌, refl, ap, sym, ◌∙◌}
use mathlib.Core.Logic.{◌≢◌, ◌⊎◌, inl, inr}
use mathlib.Core.Bool.{Bool, false}
use mathlib.Core.List.{List, [], ◌∷◌}
use mathlib.Core.Option.{Option, none, some}
use native.Mathlib.Omega.{arith}

-- A test of the value that a lookup gives.
abbrev pub passes : {V : Type 0} → (V → Bool) → Option V → Bool
passes p none = false
passes p (some v) = p v

abbrev pub keep_unless : {V : Type 0} → (V → Bool) → Option V → Option V
keep_unless p none = none
keep_unless p (some v) = if p v then none else some v

module _ {K V : Type 0} ⦃e : Equality K⦄ where
  unfoldable pub lookup : K → List (K × V) → Option V
  lookup k [] = none
  lookup k ((j, v) ∷ m) = if j =? k then some v else lookup k m

  unfoldable pub insert : K → V → List (K × V) → List (K × V)
  insert k v [] = (k, v) ∷ []
  insert k v ((j, w) ∷ m) = if j =? k then (k, v) ∷ m else (j, w) ∷ insert k v m

  unfoldable pub remove : K → List (K × V) → List (K × V)
  remove k [] = []
  remove k ((j, w) ∷ m) = if j =? k then remove k m else (j, w) ∷ remove k m

  pub lookup-insert :
      (k j : K) (v : V) (m : List (K × V))
      → lookup j (insert k v m) ≡ (if k =? j then some v else lookup j m)
  unfolding lookup insert
  lookup-insert k j v [] = refl
  lookup-insert k j v ((i, w) ∷ m) =
      ground (arith, e.same_iff i k, e.same_iff i j, e.same_iff k j, lookup-insert k j v m)

  -- What is found after an insertion is the new value, or was there before.
  pub insert_cases :
      (k j : K) (v w : V) (m : List (K × V))
      → lookup j (insert k v m) ≡ some w
      → ((k ≡ j) × (v ≡ w)) ⊎ ((k ≢ j) × (lookup j m ≡ some w))
  insert_cases k j v w m h =
      let here = sym (lookup-insert k j v m) ∙ h in
      elim (Bool-cases (k =? j)) [
        | inl same ↦ inl (=?_eq k j same, cc (rw same at here))
        | inr other ↦ inr (=?_ne k j other, rw other at here)
      ]

  pub insert_self : (k : K) (v : V) (m : List (K × V)) → lookup k (insert k v m) ≡ some v
  insert_self k v m = rw (lookup-insert k k v m, =?_self k) refl

  pub lookup-remove :
      (k j : K) (m : List (K × V)) → lookup j (remove k m) ≡ (if k =? j then none else lookup j m)
  unfolding lookup remove
  lookup-remove k j [] = ground arith
  lookup-remove k j ((i, w) ∷ m) =
      ground (arith, e.same_iff i k, e.same_iff i j, e.same_iff k j, lookup-remove k j m)

  -- Replacing the value of a key that is there does not grow the map; a new key adds one entry.
  pub length-insert_old :
      (k : K) (v w : V) (m : List (K × V)) → lookup k m ≡ some w → length (insert k v m) ≡ length m
  unfolding lookup insert
  length-insert_old k v w [] h = cc
  length-insert_old k v w ((i, u) ∷ m) h = ground (arith, length-insert_old k v w m)

  pub length-insert_new :
      (k : K) (v : V) (m : List (K × V))
      → lookup k m ≡ none
      → length (insert k v m) ≡ suc (length m)
  unfolding lookup insert
  length-insert_new k v [] h = refl
  length-insert_new k v ((i, u) ∷ m) h = ground (arith, length-insert_new k v m)

  pub length-insert-le : (k : K) (v : V) (m : List (K × V)) → length (insert k v m) ≤ suc (length m)
  unfolding insert
  length-insert-le k v [] = omega arith
  length-insert-le k v ((i, u) ∷ m) = ground (arith, length-insert-le k v m)

  pub length-remove-le : (k : K) (m : List (K × V)) → length (remove k m) ≤ length m
  unfolding remove
  length-remove-le k [] = omega arith
  length-remove-le k ((i, u) ∷ m) = ground (arith, length-remove-le k m)

  -- No key has two entries.
  abbrev pub Fresh : K → List (K × V) → Type 0
  Fresh k m = lookup k m ≡ none

  abbrev pub IsMap : List (K × V) → Type 0
  IsMap [] = Unit {0}
  IsMap ((k, v) ∷ m) = Fresh k m × IsMap m

  pub insert-IsMap : (k : K) (v : V) (m : List (K × V)) → IsMap m → IsMap (insert k v m)
  unfolding insert lookup
  insert-IsMap k v [] h = (refl, tt)
  insert-IsMap k v ((i, u) ∷ m) h = elim (Bool-cases (i =? k)) [
    | inl same ↦ rw same (rw (← =?_eq i k same) h.0, h.1)
    | inr other ↦ rw other (
      rw (lookup-insert k i v m) (ground (arith, e.same_iff i k, e.same_iff k i, h.0)),
      insert-IsMap k v m h.1,
    )
  ]

  pub remove-IsMap : (k : K) (m : List (K × V)) → IsMap m → IsMap (remove k m)
  unfolding remove
  remove-IsMap k [] h = tt
  remove-IsMap k ((i, u) ∷ m) h = elim (Bool-cases (i =? k)) [
    | inl same ↦ rw same (remove-IsMap k m h.1)
    | inr other ↦ rw other (rw (lookup-remove k i m) (ground (arith, h.0)), remove-IsMap k m h.1)
  ]

  -- The keys of the values that pass a test, and the removal of several keys.
  unfoldable pub keys_where : (V → Bool) → List (K × V) → List K
  keys_where p [] = []
  keys_where p ((k, v) ∷ m) = let rest = keys_where p m in if p v then k ∷ rest else rest

  unfoldable pub remove_all : List K → List (K × V) → List (K × V)
  unfolding remove
  remove_all [] m = m
  remove_all (k ∷ ks) m = remove_all ks (remove k m)

  pub lookup-remove_all :
      (ks : List K) (k : K) (m : List (K × V))
      → lookup k (remove_all ks m) ≡ (if contains ks k then none else lookup k m)
  unfolding remove_all contains
  lookup-remove_all [] k m = refl
  lookup-remove_all (j ∷ ks) k m =
      ground (arith, lookup-remove_all ks k (remove j m), lookup-remove j k m)

  pub remove_all-IsMap : (ks : List K) (m : List (K × V)) → IsMap m → IsMap (remove_all ks m)
  unfolding remove_all
  remove_all-IsMap [] m h = h
  remove_all-IsMap (j ∷ ks) m h = remove_all-IsMap ks (remove j m) (remove-IsMap j m h)

  pub length-remove_all : (ks : List K) (m : List (K × V)) → length (remove_all ks m) ≤ length m
  unfolding remove_all
  length-remove_all [] m = omega arith
  length-remove_all (j ∷ ks) m =
      omega (arith, length-remove_all ks (remove j m), length-remove-le j m)

  -- In a map a key is found exactly when its value passes.
  pub keys_where-contains :
      (p : V → Bool) (k : K) (m : List (K × V))
      → IsMap m
      → contains (keys_where p m) k ≡ passes p (lookup k m)
  unfolding keys_where contains lookup
  keys_where-contains p k [] h = refl
  keys_where-contains p k ((j, v) ∷ m) h = elim (Bool-cases (j =? k)) [
    | inl same ↦
        let absent : lookup k m ≡ none = ap (λ i. lookup i m) (sym (=?_eq j k same)) ∙ h.0 in
        ground (arith, keys_where-contains p k m h.1, same, absent)
    | inr other ↦ ground (arith, keys_where-contains p k m h.1, other)
  ]

  -- So removing what passes keeps exactly what does not.
  pub lookup-remove_all_where :
      (p : V → Bool) (k : K) (m : List (K × V))
      → IsMap m
      → lookup k (remove_all (keys_where p m) m) ≡ keep_unless p (lookup k m)
  lookup-remove_all_where p k m h = elim (Option-cases (lookup k m)) [
    | inl absent ↦
        lookup-remove_all (keys_where p m) k m
        ∙ ap (λ b. if b then none else lookup k m) (keys_where-contains p k m h)
        ∙ rw absent refl
    | inr (v, e) ↦
        lookup-remove_all (keys_where p m) k m
        ∙ ap (λ b. if b then none else lookup k m) (keys_where-contains p k m h)
        ∙ rw e refl
  ]
