-- ===== src/Peer/Candidates/Pushing.antt =====
-- `push_unique`, once and in a loop: what it keeps, what it adds, and when it adds nothing.
use hextet.Base.{
  ℕ, ◌≤◌, ◌≡◌, refl, sym, ◌∙◌, ap, ◌⊎◌, inl, inr, arith, true, ◌=?◌, List, [], ◌∷◌, ◌++◌, length,
  map, contains, contains-append, unique, unique-snoc, get_elem?, length-append, some, Bool-cases,
}
use hextet.Endpoint.{Endpoint, endpoint_same_iff, normalize, endpoint_equality}
use hextet.Peer.Candidates.{push_unique, push_all}

contains_snoc : (xs : List Endpoint) (x : Endpoint) → contains (xs ++ x ∷ []) x ≡ true
unfolding contains
contains_snoc xs x = ground (arith, contains-append xs (x ∷ []) x, endpoint_same_iff x x)

pub push_unique-unique :
    (out : List Endpoint) (ep : Endpoint) (cap : ℕ)
    → unique out ≡ true
    → unique (push_unique out ep cap) ≡ true
unfolding push_unique
push_unique-unique out ep cap h = elim (Bool-cases (contains out (normalize ep))) [
  | inl there ↦ ground (arith, h, there)
  | inr absent ↦ ground (arith, h, absent, unique-snoc out (normalize ep) h absent)
]

pub length-push_unique :
    (out : List Endpoint) (ep : Endpoint) (cap n : ℕ)
    → cap ≤ n
    → length out ≤ n
    → length (push_unique out ep cap) ≤ n
unfolding push_unique
length-push_unique out ep cap n h k = ground (arith, h, k, length-append out (normalize ep ∷ []))

pub push_unique-contains :
    (out : List Endpoint) (ep x : Endpoint) (cap : ℕ)
    → contains out x ≡ true
    → contains (push_unique out ep cap) x ≡ true
unfolding push_unique
push_unique-contains out ep x cap h = ground (arith, h, contains-append out (normalize ep ∷ []) x)

-- The endpoint is in the list, or the list was full.
pub push_unique_there :
    (out : List Endpoint) (ep : Endpoint) (cap : ℕ)
    → (contains (push_unique out ep cap) (normalize ep) ≡ true) ⊎ (cap ≤ length out)
unfolding push_unique
push_unique_there out ep cap = ground (arith, contains_snoc out (normalize ep))

pub length-push_unique_ge :
    (out : List Endpoint) (ep : Endpoint) (cap : ℕ) → length out ≤ length (push_unique out ep cap)
unfolding push_unique
length-push_unique_ge out ep cap = ground (arith, length-append out (normalize ep ∷ []))

pub push_unique_first :
    (out : List Endpoint) (ep x : Endpoint) (cap : ℕ)
    → get_elem? out 0 ≡ some x
    → get_elem? (push_unique out ep cap) 0 ≡ some x
unfolding push_unique
push_unique_first [] ep x cap h = absurd (cc h)
push_unique_first (y ∷ out) ep x cap h = ground (arith, h)

-- Only the given endpoint is added.
pub push_unique-only :
    (out : List Endpoint) (ep x : Endpoint) (cap : ℕ)
    → contains (push_unique out ep cap) x ≡ true
    → (contains out x ≡ true) ⊎ (normalize ep ≡ x)
unfolding push_unique contains
push_unique-only out ep x cap h =
    ground (arith, h, contains-append out (normalize ep ∷ []) x, endpoint_same_iff (normalize ep) x)

-- The same of a loop.
pub push_all-unique :
    (out eps : List Endpoint) (cap : ℕ) → unique out ≡ true → unique (push_all out eps cap) ≡ true
unfolding push_all
push_all-unique out [] cap h = h
push_all-unique out (ep ∷ eps) cap h =
    push_all-unique (push_unique out ep cap) eps cap (push_unique-unique out ep cap h)

pub length-push_all :
    (out eps : List Endpoint) (cap n : ℕ)
    → cap ≤ n
    → length out ≤ n
    → length (push_all out eps cap) ≤ n
unfolding push_all
length-push_all out [] cap n h k = k
length-push_all out (ep ∷ eps) cap n h k =
    length-push_all (push_unique out ep cap) eps cap n h (length-push_unique out ep cap n h k)

pub length-push_all_ge :
    (out eps : List Endpoint) (cap : ℕ) → length out ≤ length (push_all out eps cap)
unfolding push_all
length-push_all_ge out [] cap = omega arith
length-push_all_ge out (ep ∷ eps) cap =
    omega
      (arith, length-push_unique_ge out ep cap, length-push_all_ge (push_unique out ep cap) eps cap)

pub push_all-contains :
    (out eps : List Endpoint) (x : Endpoint) (cap : ℕ)
    → contains out x ≡ true
    → contains (push_all out eps cap) x ≡ true
unfolding push_all
push_all-contains out [] x cap h = h
push_all-contains out (ep ∷ eps) x cap h =
    push_all-contains (push_unique out ep cap) eps x cap (push_unique-contains out ep x cap h)

pub push_all_first :
    (out eps : List Endpoint) (x : Endpoint) (cap : ℕ)
    → get_elem? out 0 ≡ some x
    → get_elem? (push_all out eps cap) 0 ≡ some x
unfolding push_all
push_all_first out [] x cap h = h
push_all_first out (ep ∷ eps) x cap h =
    push_all_first (push_unique out ep cap) eps x cap (push_unique_first out ep x cap h)

pub push_all_there :
    (out eps : List Endpoint) (x : Endpoint) (cap : ℕ)
    → contains (map normalize eps) x ≡ true
    → (contains (push_all out eps cap) x ≡ true) ⊎ (cap ≤ length (push_all out eps cap))
unfolding push_all contains
push_all_there out [] x cap h = absurd (cc h)
push_all_there out (ep ∷ eps) x cap h = elim (Bool-cases (normalize ep =? x)) [
  | inr other ↦ push_all_there (push_unique out ep cap) eps x cap (ground (arith, h, other))
  | inl same ↦
      let at : normalize ep ≡ x = (endpoint_same_iff (normalize ep) x).0 same in
      elim (push_unique_there out ep cap) [
        | inl there ↦ inl (
            push_all-contains (push_unique out ep cap) eps x cap
              (ap (λ y. contains (push_unique out ep cap) y) (sym at) ∙ there))
        | inr full ↦ inr (
            omega (
              arith,
              full,
              length-push_unique_ge out ep cap,
              length-push_all_ge (push_unique out ep cap) eps cap,
            ))
      ]
]

pub push_all-only :
    (out eps : List Endpoint) (x : Endpoint) (cap : ℕ)
    → contains (push_all out eps cap) x ≡ true
    → (contains out x ≡ true) ⊎ (contains (map normalize eps) x ≡ true)
unfolding push_all contains
push_all-only out [] x cap h = inl h
push_all-only out (ep ∷ eps) x cap h = ground (
  arith,
  push_all-only (push_unique out ep cap) eps x cap h,
  push_unique-only out ep x cap,
  endpoint_same_iff (normalize ep) x,
)

pub push_all-append :
    (out xs ys : List Endpoint) (cap : ℕ)
    → push_all out (xs ++ ys) cap ≡ push_all (push_all out xs cap) ys cap
unfolding push_all
push_all-append out [] ys cap = refl
push_all-append out (x ∷ xs) ys cap = push_all-append (push_unique out x cap) xs ys cap
