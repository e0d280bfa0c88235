-- ===== src/Peer/Cache/Invariant.antt =====
-- The cache's invariant, and the operations on it.
use hextet.Base.{
  ℕ, ◌≤◌, ◌<◌, ◌+◌, suc, ◌≡◌, ◌≢◌, refl, sym, ◌∙◌, ap, subst, arith, true, false, List, [], ◌∷◌,
  length, length-take-le, contains, unique, take, get_elem?, some, none, if◌then◌else◌, ◌=?◌,
  =?_self, Bool-cases, Option-cases, inl, inr, option_same, ℕ_equality, list_equality,
}
use hextet.Base.Assoc.{lookup, insert, lookup-insert}
use hextet.Base.Bytes.{Bytes}
use hextet.Endpoint.{
  Endpoint, endpoint_same_iff, endpoint_equality, normalize, normalize_idempotent,
}
use hextet.Peer.Fsm.Search.{IsNormal}
use hextet.Peer.Cache.{
  CachedEndpoint, PeerCacheEntry, EndpointCache, cache_seen_max, empty_entry, or_default, touch,
  sort_newest, place, record_in_entry, record_good, evict_from_entry, evict,
}
use hextet.Peer.Cache.Sorting.{
  endpoint_in, endpoints_in, IsNewest, IsNewest-weaken, IsNewest-IsBefore, sort_newest-contains,
  sort_newest-IsNewest, sort_newest-unique, take-IsNewest, place_first, place_later,
}
use hextet.Peer.Cache.Entries.{
  touch-contains, touch-unique, touch-IsBefore, take-only, take-unique, retain-contains,
  retain-unique, length-retain, retain-IsNewest,
}

-- At most eight endpoints, none twice, newest first, all of them normalized.
pub record IsEntry (entry : PeerCacheEntry) : Type 0 where
  pub bounded : length entry.seen ≤ cache_seen_max
  pub distinct : unique (endpoints_in entry.seen) ≡ true
  pub newest : (bound : ℕ) × IsNewest bound entry.seen
  pub normal : (x : Endpoint) → contains (endpoints_in entry.seen) x ≡ true → IsNormal x
  pub good : (x : Endpoint) → entry.last_good ≡ some x → IsNormal x

empty-IsEntry : IsEntry empty_entry
unfolding unique contains IsNewest
empty-IsEntry = record {
  bounded = omega arith;
  distinct = refl;
  newest = (0, tt);
  normal = λ x h. absurd (cc h);
  good = λ x h. absurd (cc h);
}

record_in_entry-IsEntry :
    (entry : PeerCacheEntry) (ep : Endpoint) (now : ℕ)
    → IsNormal ep
    → IsEntry entry
    → IsEntry (record_in_entry entry ep now)
unfolding record_in_entry
record_in_entry-IsEntry entry ep now n h =
    let touched = touch ep now entry.seen in
    let bound = h.newest.0 + now in
    record {
      bounded = length-take-le cache_seen_max (sort_newest touched);
      distinct =
          take-unique cache_seen_max (sort_newest touched)
            (sort_newest-unique touched ∙ touch-unique ep now entry.seen h.distinct);
      newest = (
        bound,
        take-IsNewest cache_seen_max bound (sort_newest touched) (
            sort_newest-IsNewest bound touched (
              touch-IsBefore ep now bound entry.seen (omega arith)
                (IsNewest-IsBefore h.newest.0 bound entry.seen (omega arith) h.newest.1))),
      );
      normal = λ x there.
          let sorted = take-only cache_seen_max (sort_newest touched) x there in
          let known =
            sym (touch-contains ep x now entry.seen)
            ∙ sym (sort_newest-contains endpoint_in touched x)
            ∙ sorted in
          elim (Bool-cases (ep =? x)) [
            | inl same ↦ subst IsNormal ((endpoint_same_iff ep x).0 same) n
            | inr other ↦ h.normal x (ground (arith, known, other))
          ];
      good = λ x h. subst IsNormal (cc h) n;
    }

evict_from_entry-IsEntry :
    (entry : PeerCacheEntry) (ep : Endpoint) → IsEntry entry → IsEntry (evict_from_entry entry ep)
unfolding evict_from_entry
evict_from_entry-IsEntry entry ep h = record {
  bounded = omega (arith, h.bounded, length-retain ep entry.seen);
  distinct = retain-unique ep entry.seen h.distinct;
  newest = (h.newest.0, retain-IsNewest ep h.newest.0 entry.seen h.newest.1);
  normal = λ x there. h.normal x (ground (arith, retain-contains ep x entry.seen, there));
  good = λ x there. h.good x (elim (Bool-cases (option_same entry.last_good (some ep))) [
    | inl same ↦ absurd (ground (arith, there, same))
    | inr other ↦ sym (ap (λ b. if b then none else entry.last_good) other) ∙ there
  ]);
}

abbrev pub IsCache : EndpointCache → Type 0
IsCache cache =
    (k : Bytes) (entry : PeerCacheEntry) → lookup k cache.peers ≡ some entry → IsEntry entry

or_default-IsEntry :
    (cache : EndpointCache) (k : Bytes)
    → IsCache cache
    → IsEntry (or_default (lookup k cache.peers))
or_default-IsEntry cache k h = elim (Option-cases (lookup k cache.peers)) [
  | inl absent ↦ rw absent empty-IsEntry
  | inr (entry, e) ↦ rw e (h k entry e)
]

put-IsCache :
    (cache : EndpointCache) (key : Bytes) (entry : PeerCacheEntry) (version : ℕ)
    → IsEntry entry
    → IsCache cache
    → IsCache (record { version = version; peers = insert key entry cache.peers })
put-IsCache cache key entry version good h k x there =
    let at = sym (lookup-insert key k entry cache.peers) ∙ there in
    elim (Bool-cases (key =? k)) [
      | inl same ↦ subst IsEntry (ground (arith, at, same)) good
      | inr other ↦ h k x (ground (arith, at, other))
    ]

-- Recording an endpoint keeps every peer's list at most eight long, free of duplicates, newest
-- first and normalized.
pub record_good-IsCache :
    (cache : EndpointCache) (key : Bytes) (ep : Endpoint) (now : ℕ)
    → IsCache cache
    → IsCache (record_good cache key ep now)
unfolding record_good
record_good-IsCache cache key ep now h =
    put-IsCache cache key (record_in_entry (or_default (lookup key cache.peers)) (normalize ep) now)
      cache.version
      (record_in_entry-IsEntry (or_default (lookup key cache.peers)) (normalize ep) now
        (normalize_idempotent ep) (or_default-IsEntry cache key h))
      h

evict_absent :
    (cache : EndpointCache) (key : Bytes) (ep : Endpoint)
    → lookup key cache.peers ≡ none
    → evict cache key ep ≡ cache
unfolding evict
evict_absent cache key ep h = rw (h, evict) refl

evict_held :
    (cache : EndpointCache) (key : Bytes) (ep : Endpoint) (entry : PeerCacheEntry)
    → lookup key cache.peers ≡ some entry
    → evict cache key ep ≡ record {
      version = cache.version;
      peers = insert key (evict_from_entry entry (normalize ep)) cache.peers;
    }
unfolding evict
evict_held cache key ep entry h = rw (h, evict) refl

-- Evicting an endpoint keeps every peer's list at most eight long, free of duplicates, newest
-- first and normalized.
evict-IsCache :
    (cache : EndpointCache) (key : Bytes) (ep : Endpoint)
    → IsCache cache
    → IsCache (evict cache key ep)
evict-IsCache cache key ep h = elim (Option-cases (lookup key cache.peers)) [
  | inl absent ↦ subst IsCache (sym (evict_absent cache key ep absent)) h
  | inr (entry, e) ↦ subst IsCache (sym (evict_held cache key ep entry e)) (
      put-IsCache cache key (evict_from_entry entry (normalize ep)) cache.version
        (evict_from_entry-IsEntry entry (normalize ep) (h key entry e)) h)
]

-- The peer's entry does not name the endpoint.
abbrev pub Forgotten : Endpoint → Bytes → EndpointCache → Type 0
Forgotten ep key cache =
    (entry : PeerCacheEntry)
    → lookup key cache.peers ≡ some entry
    → (entry.last_good ≢ some ep) × (contains (endpoints_in entry.seen) ep ≡ false)

evict_from_entry_forgets :
    (entry : PeerCacheEntry) (ep : Endpoint)
    → ((evict_from_entry entry ep).last_good ≢ some ep)
      × (contains (endpoints_in (evict_from_entry entry ep).seen) ep ≡ false)
unfolding evict_from_entry
evict_from_entry_forgets entry ep = (
  elim (Option-cases entry.last_good) [
    | inl absent ↦ λ h. ground (arith, absent, h)
    | inr (g, e) ↦ λ h. ground (arith, e, h, endpoint_same_iff g ep)
  ],
  retain-contains ep ep entry.seen
      ∙ ap (λ b. if b then false else contains (endpoints_in entry.seen) ep) (=?_self ep),
)

forgotten :
    (cache : EndpointCache) (key : Bytes) (ep : Endpoint)
    → Forgotten (normalize ep) key (evict cache key ep)
forgotten cache key ep = elim (Option-cases (lookup key cache.peers)) [
  | inl absent ↦
      subst (Forgotten (normalize ep) key) (sym (evict_absent cache key ep absent))
        (λ entry h. absurd (cc (absent, h)))
  | inr (entry, e) ↦
      let put = evict_from_entry entry (normalize ep) in
      subst (Forgotten (normalize ep) key) (sym (evict_held cache key ep entry e)) (λ x h.
        let at = sym (lookup-insert key key put cache.peers) ∙ h in
        let found : put ≡ x = ground (arith, at, =?_self key) in
        subst
          (λ y.
            (y.last_good ≢ some (normalize ep))
            × (contains (endpoints_in y.seen) (normalize ep) ≡ false))
          found (evict_from_entry_forgets entry (normalize ep)))
]

-- After `evict` the peer's entry names the endpoint neither as the last good one nor in its history.
evict_forgets :
    (cache : EndpointCache) (key : Bytes) (ep : Endpoint) (entry : PeerCacheEntry)
    → lookup key (evict cache key ep).peers ≡ some entry
    → (entry.last_good ≢ some (normalize ep))
      × (contains (endpoints_in entry.seen) (normalize ep) ≡ false)
evict_forgets cache key ep entry h = forgotten cache key ep entry h

sorted_first :
    (ep : Endpoint) (now bound : ℕ) (cs : List CachedEndpoint)
    → bound < now
    → IsNewest bound cs
    → get_elem? (sort_newest (touch ep now cs)) 0
      ≡ some (record { endpoint = ep; last_seen_unix = now })
unfolding sort_newest touch IsNewest place
sorted_first ep now bound [] h k = refl
sorted_first ep now bound (c ∷ cs) h k = elim (Bool-cases (c.endpoint =? ep)) [
  | inl same ↦
      let at : c.endpoint ≡ ep = (endpoint_same_iff c.endpoint ep).0 same in
      rw same (
        place_first (record { endpoint = c.endpoint; last_seen_unix = now }) (sort_newest cs)
          c.last_seen_unix (omega (arith, h, k.0))
          (sort_newest-IsNewest c.last_seen_unix cs
            (IsNewest-IsBefore c.last_seen_unix c.last_seen_unix cs (omega arith) k.1))
        ∙ ap (λ e. some (record { endpoint = e; last_seen_unix = now })) at)
  | inr other ↦ rw other (
      place_later c (record { endpoint = ep; last_seen_unix = now }) (sort_newest (touch ep now cs))
        (omega (arith, h, k.0))
        (sorted_first ep now bound cs h (IsNewest-weaken c.last_seen_unix bound cs k.0 k.1)))
]

-- An endpoint recorded at a later time than all of the peer's is its last good one and the first
-- of its history.
record_good_remembers :
    (cache : EndpointCache) (key : Bytes) (ep : Endpoint) (bound now : ℕ)
    → bound < now
    → IsNewest bound (or_default (lookup key cache.peers)).seen
    → (entry : PeerCacheEntry) × (lookup key (record_good cache key ep now).peers ≡ some entry)
      × (entry.last_good ≡ some (normalize ep))
      × (get_elem? entry.seen 0 ≡ some (record { endpoint = normalize ep; last_seen_unix = now }))
unfolding record_good record_in_entry
record_good_remembers cache key ep bound now h k =
    let old = or_default (lookup key cache.peers) in
    (
      record_in_entry old (normalize ep) now,
      lookup-insert key key (record_in_entry old (normalize ep) now) cache.peers
          ∙ ap
              (λ b.
                if b then some (record_in_entry old (normalize ep) now) else lookup key cache.peers)
              (=?_self key),
      refl,
      take_first 7 (sort_newest (touch (normalize ep) now old.seen))
          ∙ sorted_first (normalize ep) now bound old.seen h k,
    )
  where
    take_first : (n : ℕ) (cs : List CachedEndpoint) → get_elem? (take (suc n) cs) 0 ≡ get_elem? cs 0
    take_first n [] = refl
    take_first n (c ∷ cs) = refl
