-- ===== src/Peer/Cache/Entries.antt =====
-- What touching, cutting and retaining do to a peer's list of endpoints.
use hextet.Base.{
  ℕ, ◌≤◌, zero, suc, ◌≡◌, refl, arith, true, false, ◌||◌, List, [], ◌∷◌, length, contains, unique,
  take, if◌then◌else◌, ◌=?◌, Bool-cases, inl, inr, ℕ_equality, list_equality,
}
use hextet.Endpoint.{Endpoint, endpoint_same_iff, endpoint_equality}
use hextet.Peer.Cache.{CachedEndpoint, touch, retain_other}
use hextet.Peer.Cache.Sorting.{endpoints_in, IsNewest, IsBefore, IsNewest-weaken}

pub touch-contains :
    (ep x : Endpoint) (now : ℕ) (cs : List CachedEndpoint)
    → contains (endpoints_in (touch ep now cs)) x ≡ (contains (endpoints_in cs) x || ep =? x)
unfolding touch contains
touch-contains ep x now [] = ground arith
touch-contains ep x now (c ∷ cs) = ground (
  arith,
  touch-contains ep x now cs,
  endpoint_same_iff c.endpoint ep,
  endpoint_same_iff c.endpoint x,
  endpoint_same_iff ep x,
)

pub touch-unique :
    (ep : Endpoint) (now : ℕ) (cs : List CachedEndpoint)
    → unique (endpoints_in cs) ≡ true
    → unique (endpoints_in (touch ep now cs)) ≡ true
unfolding touch contains unique
touch-unique ep now [] h = refl
touch-unique ep now (c ∷ cs) h = ground (
  arith,
  h,
  touch-unique ep now cs,
  touch-contains ep c.endpoint now cs,
  endpoint_same_iff c.endpoint ep,
  endpoint_same_iff ep c.endpoint,
)

pub touch-IsBefore :
    (ep : Endpoint) (now bound : ℕ) (cs : List CachedEndpoint)
    → now ≤ bound
    → IsBefore bound cs
    → IsBefore bound (touch ep now cs)
unfolding touch IsBefore
touch-IsBefore ep now bound [] h k = (h, tt)
touch-IsBefore ep now bound (c ∷ cs) h k = elim (Bool-cases (c.endpoint =? ep)) [
  | inl same ↦ rw same (h, k.1)
  | inr other ↦ rw other (k.0, touch-IsBefore ep now bound cs h k.1)
]

pub take-only :
    (n : ℕ) (cs : List CachedEndpoint) (x : Endpoint)
    → contains (endpoints_in (take n cs)) x ≡ true
    → contains (endpoints_in cs) x ≡ true
unfolding contains
take-only zero cs x h = absurd (cc h)
take-only (suc n) [] x h = h
take-only (suc n) (c ∷ cs) x h = ground (arith, h, take-only n cs x)

pub take-unique :
    (n : ℕ) (cs : List CachedEndpoint)
    → unique (endpoints_in cs) ≡ true
    → unique (endpoints_in (take n cs)) ≡ true
unfolding unique
take-unique zero cs h = refl
take-unique (suc n) [] h = h
take-unique (suc n) (c ∷ cs) h = ground (arith, h, take-unique n cs, take-only n cs c.endpoint)

pub retain-contains :
    (ep x : Endpoint) (cs : List CachedEndpoint)
    → contains (endpoints_in (retain_other ep cs)) x
      ≡ (if ep =? x then false else contains (endpoints_in cs) x)
unfolding retain_other contains
retain-contains ep x [] = ground arith
retain-contains ep x (c ∷ cs) = ground (
  arith,
  retain-contains ep x cs,
  endpoint_same_iff c.endpoint ep,
  endpoint_same_iff c.endpoint x,
  endpoint_same_iff ep x,
)

pub retain-unique :
    (ep : Endpoint) (cs : List CachedEndpoint)
    → unique (endpoints_in cs) ≡ true
    → unique (endpoints_in (retain_other ep cs)) ≡ true
unfolding retain_other unique
retain-unique ep [] h = h
retain-unique ep (c ∷ cs) h =
    ground (arith, h, retain-unique ep cs, retain-contains ep c.endpoint cs)

pub length-retain :
    (ep : Endpoint) (cs : List CachedEndpoint) → length (retain_other ep cs) ≤ length cs
unfolding retain_other
length-retain ep [] = omega arith
length-retain ep (c ∷ cs) = ground (arith, length-retain ep cs)

pub retain-IsNewest :
    (ep : Endpoint) (bound : ℕ) (cs : List CachedEndpoint)
    → IsNewest bound cs
    → IsNewest bound (retain_other ep cs)
unfolding retain_other IsNewest
retain-IsNewest ep bound [] h = tt
retain-IsNewest ep bound (c ∷ cs) h = elim (Bool-cases (c.endpoint =? ep)) [
  | inl same ↦
      rw same (retain-IsNewest ep bound cs (IsNewest-weaken c.last_seen_unix bound cs h.0 h.1))
  | inr other ↦ rw other (h.0, retain-IsNewest ep c.last_seen_unix cs h.1)
]
