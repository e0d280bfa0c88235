-- ===== src/Routes/Overlap.antt =====
-- Which addresses a route covers, and when two routes overlap.
use hextet.Base.{
  ℕ, ◌≤◌, ◌≡◌, refl, sym, ◌∙◌, ap, arith, ◌↔◌, ◌⊎◌, inl, inr, Bool, true, false, not, ◌||◌, List,
  [], ◌∷◌, ◌++◌, contains, unique, unique-snoc, ltb, leb, ◌==◌, ◌=?◌, =?_ne, Option, none, some,
  ℕ_equality, list_equality, list_same_iff, pair_equality, if◌then◌else◌, Bool-cases, get_elem?,
}
use hextet.Base.Bytes.{Bytes, AreBytes}
use hextet.Base.Outcome.{Outcome, ok, err, reject_if, ◌>>◌}
use hextet.Addr.{Ipv6Addr}
use hextet.Routes.{
  Ipv6Route, RouteError, new_route, contains_addr, overlaps, zip_and, push_routes, allowed_ips_for,
  bad_prefix_len, host_bits_set,
}
use hextet.Routes.Masks.{octet_masks, apply_mask-some, zip_and-min}

-- What `new_route` makes: a network address of octets, with a length from 1 to 128.
pub record IsRoute (r : Ipv6Route) : Type 0 where
  pub positive : 1 ≤ r.prefix_len
  pub short : r.prefix_len ≤ 128
  pub octets : AreBytes r.prefix
  pub is_network : zip_and r.prefix (octet_masks r.prefix_len 16) ≡ r.prefix

pub contains_addr-eq :
    (r : Ipv6Route) (x : Ipv6Addr)
    → r.prefix_len ≤ 128
    → contains_addr r x ≡ some (zip_and x (octet_masks r.prefix_len 16) =? r.prefix)
unfolding contains_addr
contains_addr-eq r x h =
    ap (λ o. elim o [ none ↦ none | some masked ↦ some (masked =? r.prefix) ])
      (apply_mask-some x r.prefix_len h)

covers :
    (r : Ipv6Route) (x : Ipv6Addr)
    → IsRoute r
    → (contains_addr r x ≡ some true) ↔ (zip_and x (octet_masks r.prefix_len 16) ≡ r.prefix)
covers r x v = (
  λ h. (list_same_iff _ _).0 (cc (h, contains_addr-eq r x v.short)),
  λ h. contains_addr-eq r x v.short ∙ ap some ((list_same_iff _ _).1 h),
)

-- The shorter of two routes that have a common address covers the longer one's network address.
shared :
    (r s : Ipv6Route) (x : Ipv6Addr)
    → IsRoute r
    → IsRoute s
    → AreBytes x
    → contains_addr r x ≡ some true
    → contains_addr s x ≡ some true
    → r.prefix_len ≤ s.prefix_len
    → contains_addr r s.prefix ≡ some true
shared r s x v w b h k le =
    let p = (covers r x v).0 h in
    let q = (covers s x w).0 k in
    (covers r s.prefix v).1 (
      ap (λ a. zip_and a (octet_masks r.prefix_len 16)) (sym q)
      ∙ zip_and-min r.prefix_len s.prefix_len x b le
      ∙ p)

overlaps-eq :
    (r s : Ipv6Route)
    → IsRoute r
    → IsRoute s
    → (overlaps r s ≡ some true)
      ↔ ((contains_addr r s.prefix ≡ some true) ⊎ (contains_addr s r.prefix ≡ some true))
unfolding overlaps
overlaps-eq r s v w =
    either (contains_addr r s.prefix) (contains_addr s r.prefix)
      (contains_addr-eq r s.prefix v.short)
  where
    either :
        (o p : Option Bool) {b : Bool}
        → o ≡ some b
        → (elim o [ none ↦ none | some first ↦ if first then some true else p ] ≡ some true)
          ↔ ((o ≡ some true) ⊎ (p ≡ some true))
    either none p q = absurd (cc q)
    either (some true) p q = (λ h. inl refl, λ h. refl)
    either (some false) p q = (λ h. inr h, λ h. elim h [ inl e ↦ absurd (cc e) | inr e ↦ e ])

-- Two well-formed routes overlap exactly when some address is in both.
pub overlaps_iff :
    (r s : Ipv6Route)
    → IsRoute r
    → IsRoute s
    → (overlaps r s ≡ some true) ↔ (
        (x : Ipv6Addr) × AreBytes x
        × (contains_addr r x ≡ some true)
        × (contains_addr s x ≡ some true))
overlaps_iff r s v w = (
  (λ h. elim ((overlaps-eq r s v w).0 h) [
    | inl first ↦ (s.prefix, w.octets, first, (covers s s.prefix w).1 w.is_network)
    | inr second ↦ (r.prefix, v.octets, (covers r r.prefix v).1 v.is_network, second)
  ]),
  (λ h. (overlaps-eq r s v w).1 (elim (Bool-cases (leb r.prefix_len s.prefix_len)) [
    | inl le ↦ inl (shared r s h.0 v w h.1 h.2 h.3 (ground (arith, le)))
    | inr gt ↦ inr (shared s r h.0 w v h.1 h.3 h.2 (ground (arith, gt)))
  ])),
)

by_test :
    (prefix : Ipv6Addr) (len : ℕ) (b : Bool)
    → (let made : Outcome RouteError Ipv6Route =
          ok (record { prefix = prefix; prefix_len = len }) in
        reject_if (not b) (host_bits_set prefix len) >> made)
      ≡ (if b
          then ok (record { prefix = prefix; prefix_len = len })
          else err (host_bits_set prefix len))
by_test prefix len true = refl
by_test prefix len false = refl

checked :
    (prefix : Ipv6Addr) (len : ℕ)
    → 1 ≤ len
    → len ≤ 128
    → new_route prefix len ≡ (
        if zip_and prefix (octet_masks len 16) =? prefix
        then ok (record { prefix = prefix; prefix_len = len })
        else err (host_bits_set prefix len))
unfolding new_route
checked prefix len low high =
    let inside : (len == 0 || ltb 128 len) ≡ false = ground (arith, low, high) in
    rw (inside, apply_mask-some prefix len high)
      (by_test prefix len (zip_and prefix (octet_masks len 16) =? prefix))

refused :
    (prefix : Ipv6Addr) (len : ℕ)
    → (len == 0 || ltb 128 len) ≡ true
    → new_route prefix len ≡ err (bad_prefix_len len)
unfolding new_route
refused prefix len h = rw h refl

wide : (len : ℕ) → (len == 0 || ltb 128 len) ≡ true → 1 ≤ len → len ≤ 128 → ⊥
wide len h low high = ground (arith, h, low, high)

-- `new_route` makes a route of every network address with a length from 1 to 128, and gives an
-- error for any other octets and length.
pub new_route_ok :
    (prefix : Ipv6Addr) (len : ℕ)
    → AreBytes prefix
    → (IsRoute (record { prefix = prefix; prefix_len = len })
        × (new_route prefix len ≡ ok (record { prefix = prefix; prefix_len = len })))
      ⊎ ((IsRoute (record { prefix = prefix; prefix_len = len }) → ⊥)
          × (e : RouteError) × (new_route prefix len ≡ err e))
new_route_ok prefix len b = elim (Bool-cases (len == 0 || ltb 128 len)) [
  | inl outside ↦
      inr
        ((λ r. wide len outside r.positive r.short), bad_prefix_len len, refused prefix len outside)
  | inr inside ↦
      let low : 1 ≤ len = ground (arith, inside) in
      let high : len ≤ 128 = ground (arith, inside) in
      elim (Bool-cases (zip_and prefix (octet_masks len 16) =? prefix)) [
        | inl network ↦ inl (
          record {
            positive = low;
            short = high;
            octets = b;
            is_network = (list_same_iff _ _).0 network;
          },
          checked prefix len low high ∙ rw network refl,
        )
        | inr host ↦ inr (
          (λ r. =?_ne {A = Bytes} _ _ host r.is_network),
          host_bits_set prefix len,
          checked prefix len low high ∙ rw host refl,
        )
      ]
]

push_routes_first :
    (out : List (Ipv6Addr × ℕ)) (routes : List Ipv6Route) (x : Ipv6Addr × ℕ)
    → get_elem? out 0 ≡ some x
    → get_elem? (push_routes out routes) 0 ≡ some x
unfolding push_routes
push_routes_first out [] x h = h
push_routes_first [] (r ∷ routes) x h = absurd (cc h)
push_routes_first (y ∷ out) (r ∷ routes) x h =
    elim (Bool-cases (contains (y ∷ out) (r.prefix, r.prefix_len))) [
      | inl there ↦ rw there (push_routes_first (y ∷ out) routes x h)
      | inr absent ↦
          rw absent (push_routes_first (y ∷ out ++ (r.prefix, r.prefix_len) ∷ []) routes x h)
    ]

push_routes-unique :
    (out : List (Ipv6Addr × ℕ)) (routes : List Ipv6Route)
    → unique out ≡ true
    → unique (push_routes out routes) ≡ true
unfolding push_routes
push_routes-unique out [] h = h
push_routes-unique out (r ∷ routes) h = elim (Bool-cases (contains out (r.prefix, r.prefix_len))) [
  | inl there ↦ rw there (push_routes-unique out routes h)
  | inr absent ↦ rw absent (
      push_routes-unique (out ++ (r.prefix, r.prefix_len) ∷ []) routes
        (unique-snoc out (r.prefix, r.prefix_len) h absent))
]

single : (x : Ipv6Addr × ℕ) → unique (x ∷ []) ≡ true
unfolding unique contains
single x = refl

-- The allowed addresses of a peer start with its own site and name nothing twice.
allowed_ips_for_first :
    (site : Ipv6Addr) (routes : List Ipv6Route)
    → (get_elem? (allowed_ips_for site routes) 0 ≡ some (site, 64))
      × (unique (allowed_ips_for site routes) ≡ true)
unfolding allowed_ips_for
allowed_ips_for_first site routes = (
  push_routes_first ((site, 64) ∷ []) routes (site, 64) refl,
  push_routes-unique ((site, 64) ∷ []) routes (single (site, 64)),
)
