-- ===== src/Peer/Fsm/Search.antt =====
-- Finding a candidate, and the list that `set_candidates` stores.
use hextet.Base.{
  ℕ, ◌<◌, ◌≡◌, refl, inl, inr, arith, suc, zero, Bool, true, List, [], ◌∷◌, ◌++◌, length, map,
  contains, contains-append, unique, unique-snoc, get_elem?, some, All, Bool-cases, Option-cases,
  subst,
}
use mathlib.Core.List.{append-nil, append_assoc}
use hextet.Endpoint.{
  Endpoint, endpoint_same_iff, normalize, normalize_idempotent, endpoint_equality,
}
use hextet.Peer.Fsm.{position, dedupe}

abbrev pub IsNormal : Endpoint → Type 0
IsNormal ep = normalize ep ≡ ep

pub get_elem?_in :
    (xs : List Endpoint) (i : ℕ) → i < length xs → (x : Endpoint) × (get_elem? xs i ≡ some x)
get_elem?_in [] i h = absurd (omega (arith, h))
get_elem?_in (x ∷ xs) zero h = (x, refl)
get_elem?_in (x ∷ xs) (suc i) h = get_elem?_in xs i (omega (arith, h))

-- Where `position` finds an element: at an index in range, whose element passes the test.
abbrev pub FoundAt : (Endpoint → Bool) → List Endpoint → ℕ → Type 0
FoundAt p xs i = (i < length xs) × (x : Endpoint) × (get_elem? xs i ≡ some x) × (p x ≡ true)

pub position_found :
    (p : Endpoint → Bool) (xs : List Endpoint) (i : ℕ) → position p xs ≡ some i → FoundAt p xs i
unfolding position
position_found p [] i h = absurd (cc h)
position_found p (x ∷ xs) i h = elim (Bool-cases (p x)) [
  | inl hit ↦
      let at : 0 ≡ i = ground (arith, h, hit) in
      subst (FoundAt p (x ∷ xs)) at (omega arith, x, refl, hit)
  | inr other ↦ elim (Option-cases (position p xs)) [
    | inl none_left ↦ absurd (ground (arith, h, other, none_left))
    | inr (j, e) ↦
        let found = position_found p xs j e in
        let at : suc j ≡ i = ground (arith, h, other, e) in
        subst (FoundAt p (x ∷ xs)) at (omega (arith, found.0), found.1, found.2, found.3)
  ]
]

pub All-append :
    (P : Endpoint → Type 0) (xs ys : List Endpoint) → All P xs → All P ys → All P (xs ++ ys)
All-append P [] ys h k = k
All-append P (x ∷ xs) ys h k = (h.0, All-append P xs ys h.1 k)

pub All-get_elem? :
    (P : Endpoint → Type 0) (xs : List Endpoint) (i : ℕ) (x : Endpoint)
    → All P xs
    → get_elem? xs i ≡ some x
    → P x
All-get_elem? P [] i x h e = absurd (cc e)
All-get_elem? P (y ∷ xs) zero x h e = subst P (ground (arith, e)) h.0
All-get_elem? P (y ∷ xs) (suc i) x h e = All-get_elem? P xs i x h.1 e

pub map-IsNormal : (xs : List Endpoint) → All IsNormal (map normalize xs)
map-IsNormal [] = tt
map-IsNormal (x ∷ xs) = (normalize_idempotent x, map-IsNormal xs)

pub unique_nil : unique {A = Endpoint} [] ≡ true
unfolding unique
unique_nil = refl

pub dedupe-unique : (next xs : List Endpoint) → unique next ≡ true → unique (dedupe next xs) ≡ true
unfolding dedupe
dedupe-unique next [] h = h
dedupe-unique next (x ∷ xs) h = elim (Bool-cases (contains next (normalize x))) [
  | inl there ↦ rw there (dedupe-unique next xs h)
  | inr new ↦
      rw new (dedupe-unique (next ++ normalize x ∷ []) xs (unique-snoc next (normalize x) h new))
]

pub dedupe-IsNormal : (next xs : List Endpoint) → All IsNormal next → All IsNormal (dedupe next xs)
unfolding dedupe
dedupe-IsNormal next [] h = h
dedupe-IsNormal next (x ∷ xs) h = elim (Bool-cases (contains next (normalize x))) [
  | inl there ↦ rw there (dedupe-IsNormal next xs h)
  | inr new ↦ rw new (
      dedupe-IsNormal (next ++ normalize x ∷ []) xs
        (All-append IsNormal next (normalize x ∷ []) h (normalize_idempotent x, tt)))
]

-- Adding what is there changes no membership.
again :
    (xs ys : List Endpoint) (y x : Endpoint)
    → contains xs y ≡ true
    → contains (xs ++ ys) x ≡ contains (xs ++ y ∷ ys) x
unfolding contains
again xs ys y x h =
    ground (arith, contains-append xs ys x, contains-append xs (y ∷ ys) x, endpoint_same_iff y x)

-- It holds exactly the given endpoints, normalized.
pub dedupe-contains :
    (next xs : List Endpoint) (x : Endpoint)
    → contains (dedupe next xs) x ≡ contains (next ++ map normalize xs) x
unfolding dedupe contains
dedupe-contains next [] x = rw (append-nil next) refl
dedupe-contains next (y ∷ xs) x = elim (Bool-cases (contains next (normalize y))) [
  | inl there ↦
      rw (there, dedupe-contains next xs x) (again next (map normalize xs) (normalize y) x there)
  | inr new ↦
      rw
        (
          new,
          dedupe-contains (next ++ normalize y ∷ []) xs x,
          append_assoc next (normalize y ∷ []) (map normalize xs),
        )
        refl
]
