-- ===== src/Peer/Cache/Sorting.antt =====
-- The stable sort of a peer's endpoints.
use hextet.Base.{
  ℕ, ◌≤◌, ◌<◌, zero, take, get_elem?, some, ltb_ge, lt→ltb, subst, ◌≡◌, refl, sym, arith, suc, true,
  false, List, [], ◌∷◌, length, map, contains, unique, ltb, Bool-cases, inl, inr,
}
use hextet.Endpoint.{Endpoint, endpoint_same_iff, endpoint_equality}
use hextet.Peer.Cache.{CachedEndpoint, place, sort_newest}

abbrev pub endpoint_in : CachedEndpoint → Endpoint
endpoint_in c = c.endpoint

abbrev pub endpoints_in : List CachedEndpoint → List Endpoint
endpoints_in cs = map endpoint_in cs

-- Under any reading `f` of the entries.
module _ (f : CachedEndpoint → Endpoint) where
  place-contains :
      (c : CachedEndpoint) (cs : List CachedEndpoint) (x : Endpoint)
      → contains (map f (place c cs)) x ≡ contains (map f (c ∷ cs)) x
  unfolding place contains
  place-contains c [] x = refl
  place-contains c (d ∷ ds) x = ground (arith, place-contains c ds x)

  pub sort_newest-contains :
      (cs : List CachedEndpoint) (x : Endpoint)
      → contains (map f (sort_newest cs)) x ≡ contains (map f cs) x
  unfolding sort_newest contains
  sort_newest-contains [] x = refl
  sort_newest-contains (c ∷ cs) x =
      ground (arith, place-contains c (sort_newest cs) x, sort_newest-contains cs x)

length-place :
    (c : CachedEndpoint) (cs : List CachedEndpoint) → length (place c cs) ≡ suc (length cs)
unfolding place
length-place c [] = refl
length-place c (d ∷ ds) = ground (arith, length-place c ds)

-- Newest first.
unfoldable pub IsNewest : ℕ → List CachedEndpoint → Type 0
IsNewest bound [] = Unit {0}
IsNewest bound (c ∷ cs) = (c.last_seen_unix ≤ bound) × IsNewest c.last_seen_unix cs

pub IsNewest-weaken : (a b : ℕ) (cs : List CachedEndpoint) → a ≤ b → IsNewest a cs → IsNewest b cs
unfolding IsNewest
IsNewest-weaken a b [] h k = tt
IsNewest-weaken a b (c ∷ cs) h k = (omega (arith, h, k.0), k.1)

place-IsNewest :
    (bound : ℕ) (c : CachedEndpoint) (cs : List CachedEndpoint)
    → c.last_seen_unix ≤ bound
    → IsNewest bound cs
    → IsNewest bound (place c cs)
unfolding place IsNewest
place-IsNewest bound c [] h k = (h, tt)
place-IsNewest bound c (d ∷ ds) h k = elim (Bool-cases (ltb c.last_seen_unix d.last_seen_unix)) [
  | inl older ↦ rw older (k.0, place-IsNewest d.last_seen_unix c ds (ground (arith, older)) k.1)
  | inr newer ↦ rw newer (h, (ground (arith, newer), k.1))
]

-- No time is later than the bound.
unfoldable pub IsBefore : ℕ → List CachedEndpoint → Type 0
IsBefore bound [] = Unit {0}
IsBefore bound (c ∷ cs) = (c.last_seen_unix ≤ bound) × IsBefore bound cs

pub sort_newest-IsNewest :
    (bound : ℕ) (cs : List CachedEndpoint) → IsBefore bound cs → IsNewest bound (sort_newest cs)
unfolding sort_newest IsNewest IsBefore
sort_newest-IsNewest bound [] h = tt
sort_newest-IsNewest bound (c ∷ cs) h =
    place-IsNewest bound c (sort_newest cs) h.0 (sort_newest-IsNewest bound cs h.1)

pub take-IsNewest :
    (n bound : ℕ) (cs : List CachedEndpoint) → IsNewest bound cs → IsNewest bound (take n cs)
unfolding IsNewest
take-IsNewest zero bound cs h = tt
take-IsNewest (suc n) bound [] h = tt
take-IsNewest (suc n) bound (c ∷ cs) h = (h.0, take-IsNewest n c.last_seen_unix cs h.1)

pub IsNewest-IsBefore : (a b : ℕ) (cs : List CachedEndpoint) → a ≤ b → IsNewest a cs → IsBefore b cs
unfolding IsNewest IsBefore
IsNewest-IsBefore a b [] h k = tt
IsNewest-IsBefore a b (c ∷ cs) h k =
    (omega (arith, h, k.0), IsNewest-IsBefore c.last_seen_unix b cs (omega (arith, h, k.0)) k.1)

-- An entry that is later than all the others comes first.
pub place_first :
    (c : CachedEndpoint) (cs : List CachedEndpoint) (bound : ℕ)
    → bound < c.last_seen_unix
    → IsNewest bound cs
    → get_elem? (place c cs) 0 ≡ some c
unfolding place IsNewest
place_first c [] bound h k = refl
place_first c (d ∷ ds) bound h k =
    let newer : ltb c.last_seen_unix d.last_seen_unix ≡ false =
      ltb_ge c.last_seen_unix d.last_seen_unix (omega (arith, h, k.0)) in
    rw newer refl

pub place_later :
    (c d : CachedEndpoint) (cs : List CachedEndpoint)
    → c.last_seen_unix < d.last_seen_unix
    → get_elem? cs 0 ≡ some d
    → get_elem? (place c cs) 0 ≡ some d
unfolding place
place_later c d [] h k = absurd (cc k)
place_later c d (e ∷ cs) h k =
    let same : e ≡ d = cc k in
    let older : ltb c.last_seen_unix e.last_seen_unix ≡ true =
      lt→ltb c.last_seen_unix e.last_seen_unix
        (subst (λ z. c.last_seen_unix < z.last_seen_unix) (sym same) h) in
    rw older k

-- No endpoint twice.
pub place-unique :
    (c : CachedEndpoint) (cs : List CachedEndpoint)
    → unique (endpoints_in (place c cs)) ≡ unique (endpoints_in (c ∷ cs))
unfolding place unique contains
place-unique c [] = refl
place-unique c (d ∷ ds) = ground (
  arith,
  place-unique c ds,
  place-contains endpoint_in c ds d.endpoint,
  endpoint_same_iff c.endpoint d.endpoint,
  endpoint_same_iff d.endpoint c.endpoint,
)

pub sort_newest-unique :
    (cs : List CachedEndpoint) → unique (endpoints_in (sort_newest cs)) ≡ unique (endpoints_in cs)
unfolding sort_newest unique
sort_newest-unique [] = refl
sort_newest-unique (c ∷ cs) = ground (
  arith,
  place-unique c (sort_newest cs),
  sort_newest-unique cs,
  sort_newest-contains endpoint_in cs c.endpoint,
)
