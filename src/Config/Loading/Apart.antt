-- ===== src/Config/Loading/Apart.antt =====
-- The checks of a configuration across its peers: which routes share no address.
use hextet.Base.{
  ◌≡◌, sym, ap, ◌∙◌, subst, Bool, true, false, List, [], ◌∷◌, ◌++◌, All, unique, ℕ_equality, Option,
  none, some,
}
use hextet.Addr.{
  Ipv6Addr, NodeAddr, network, derive_prefix, derive_node_addr, check_subnet_collisions,
}
use hextet.Addr.Derived.{ids, check_subnet_collisions_iff}
use hextet.Base.Bytes.{Bytes, AreBytes}
use hextet.Base.Outcome.{
  Outcome, ok, reject_if, or_panic, ◌>>=◌, ◌>>◌, >>=-eq-ok, ok_injective, map_err,
}
use hextet.Config.{Env, Peer, ConfigError, addr, route_conflict, route_overlap}
use hextet.Config.Loading.{
  each, with_self, named, expect, own_addr, site_route, check_against, check_site, check_conflicts,
  check_routes_of, check_overlaps, check_peers,
}
use hextet.Base.Chains.{Pairwise, Pairwise-map, map_err-ok}
use hextet.Config.Loading.Checks.{each-ok, each_pair-ok}
use hextet.Config.Loading.Networks.{
  overlay_route, overlay-IsRoute, site_of, site-IsRoute, new_route-of,
}
use hextet.Config.Loading.Peers.{IsPeer}
use hextet.Crypto.{PublicKey}
use hextet.Routes.{Ipv6Route, new_route, overlaps, contains_addr}
use hextet.Routes.Overlap.{IsRoute, overlaps_iff}

-- No address is in both routes.
abbrev pub AreApart : Ipv6Route → Ipv6Route → Type 0
AreApart r s = ¬ (
    (x : Ipv6Addr) × AreBytes x × (contains_addr r x ≡ some true) × (contains_addr s x ≡ some true))

-- The node's own address, where its key is given.
abbrev pub IsOwn : Env → Bytes → Option PublicKey → Option NodeAddr → Type 0
IsOwn env prefix none own = own ≡ none
IsOwn env prefix (some key) none = ⊥
IsOwn env prefix (some key) (some own) = derive_node_addr env.sha256 prefix key ≡ ok own

abbrev pub AvoidsSite : Option NodeAddr → Ipv6Route → Type 0
AvoidsSite none r = Unit
AvoidsSite (some own) r = AreApart r (site_of own)

-- A test that passed.
tested-apart :
    (r s : Ipv6Route) (e : ConfigError)
    → IsRoute r
    → IsRoute s
    → (or_panic (overlaps r s) >>= λ both. reject_if both e) ≡ ok tt
    → AreApart r s
tested-apart r s e v w h =
    λ shared. let both = (overlaps_iff r s v w).1 shared in by_value (overlaps r s) both h
  where
    by_value :
        (o : Option Bool) → o ≡ some true → (or_panic o >>= λ both. reject_if both e) ≡ ok tt → ⊥
    by_value none b h = cc b
    by_value (some true) b h = cc h
    by_value (some false) b h = cc b

pub own_addr-IsOwn :
    (env : Env) (prefix : Bytes) (key : Option PublicKey) {own : Option NodeAddr}
    → own_addr env prefix key ≡ ok own
    → IsOwn env prefix key own
own_addr-IsOwn env prefix none h = sym (ok_injective h)
own_addr-IsOwn env prefix (some key) {own} h =
    let (a, derived, made) =
      >>=-eq-ok (map_err addr (derive_node_addr env.sha256 prefix key)) _ h in
    subst (IsOwn env prefix (some key)) (ok_injective made) (map_err-ok _ _ derived)

pub own_site-IsRoute :
    (env : Env) (network_key : Bytes) (key : Option PublicKey) (own : NodeAddr)
    → IsOwn env (derive_prefix env.hkdf network_key) key (some own)
    → IsRoute (site_of own)
own_site-IsRoute env network_key none own h = absurd (cc h)
own_site-IsRoute env network_key (some key) own h =
    site-IsRoute env.sha256 env.hkdf network_key key h

-- `expect` gives the route that it is asked for.
pub expected :
    {E : Type 0} (r : Ipv6Route)
    → IsRoute r
    → (let m : Outcome E Ipv6Route = expect (new_route r.prefix r.prefix_len) in m) ≡ ok r
expected r v = ap expect (new_route-of r v)

module _ (env : Env) (network_key : Bytes) (own_pubkey : Option PublicKey) where
  abbrev prefix : Bytes
  prefix = derive_prefix env.hkdf network_key

  abbrev overlay : Ipv6Route
  overlay = overlay_route prefix

  site-avoided :
      (own : Option NodeAddr) {site : Option Ipv6Route} (name : Bytes) (r : Ipv6Route)
      → IsOwn env prefix own_pubkey own
      → site_route own ≡ ok site
      → IsRoute r
      → check_site name r site ≡ ok tt
      → AvoidsSite own r
  site-avoided none name r is_own made v h = tt
  site-avoided (some own) {site} name r is_own made v h =
      let valid = own_site-IsRoute env network_key own_pubkey own is_own in
      let same : some (site_of own) ≡ site =
        ok_injective
          (sym (ap (λ m. m >>= λ route. ok (some route)) (expected (site_of own) valid)) ∙ made) in
      let passed : check_against name r (site_of own) ≡ ok tt = ap (check_site name r) same ∙ h in
      tested-apart r (site_of own) (route_conflict name r) v valid passed

  conflicts-outside :
      (own : Option NodeAddr) {site : Option Ipv6Route} (peers : List Peer)
      → IsOwn env prefix own_pubkey own
      → site_route own ≡ ok site
      → All (IsPeer env prefix) peers
      → check_conflicts overlay site peers ≡ ok tt
      → All (λ p. All (λ r. AreApart r overlay × AvoidsSite own r) p.routes) peers
  unfolding check_conflicts
  conflicts-outside own {site} peers is_own made valid h =
      let passed = each-ok _ peers h in by_peer peers valid passed
    where
      by_route :
          (name : Bytes) (rs : List Ipv6Route)
          → All IsRoute rs
          → All (λ r. (check_against name r overlay >> check_site name r site) ≡ ok tt) rs
          → All (λ r. AreApart r overlay × AvoidsSite own r) rs
      by_route name [] v q = tt
      by_route name (r ∷ rs) v q =
          let (done, first, second) = >>=-eq-ok (check_against name r overlay) _ q.0 in
          (
            (
              tested-apart r overlay (route_conflict name r) v.0
                  (overlay-IsRoute env.hkdf network_key) first,
              site-avoided own name r is_own made v.0 second,
            ),
            by_route name rs v.1 q.1,
          )

      by_peer :
          (ps : List Peer)
          → All (IsPeer env prefix) ps
          → All
              (λ p.
                each (λ r. check_against p.name r overlay >> check_site p.name r site) p.routes
                ≡ ok tt)
              ps
          → All (λ p. All (λ r. AreApart r overlay × AvoidsSite own r) p.routes) ps
      by_peer [] v q = tt
      by_peer (p ∷ ps) v q =
          (by_route p.name p.routes v.0.routes (each-ok _ p.routes q.0), by_peer ps v.1 q.1)

  routes-apart :
      (a b : Peer)
      → IsPeer env prefix a
      → IsPeer env prefix b
      → check_routes_of a b ≡ ok tt
      → All (λ r. All (λ s. AreApart r s) b.routes) a.routes
  routes-apart a b v w h = rows a.routes v.routes (each-ok _ a.routes h)
    where
      row :
          (r : Ipv6Route) (ss : List Ipv6Route)
          → IsRoute r
          → All IsRoute ss
          → All
              (λ s.
                (or_panic (overlaps r s) >>= λ both.
                reject_if both (route_overlap a.name b.name r s))
                ≡ ok tt)
              ss
          → All (λ s. AreApart r s) ss
      row r [] x y q = tt
      row r (s ∷ ss) x y q =
          (tested-apart r s (route_overlap a.name b.name r s) x y.0 q.0, row r ss x y.1 q.1)

      rows :
          (rs : List Ipv6Route)
          → All IsRoute rs
          → All
              (λ r.
                each
                  (λ s. or_panic (overlaps r s) >>= λ both.
                    reject_if both (route_overlap a.name b.name r s))
                  b.routes
                ≡ ok tt)
              rs
          → All (λ r. All (λ s. AreApart r s) b.routes) rs
      rows [] x q = tt
      rows (r ∷ rs) x q = (row r b.routes x.0 w.routes (each-ok _ b.routes q.0), rows rs x.1 q.1)

  -- The checks across peers.
  pub check_peers-ok :
      (own : Option NodeAddr) (peers : List Peer)
      → IsOwn env prefix own_pubkey own
      → All (IsPeer env prefix) peers
      → check_peers env prefix own peers ≡ ok tt
      → (unique (ids (named peers ++ with_self own)) ≡ true)
        × All (λ p. All (λ r. AreApart r overlay × AvoidsSite own r) p.routes) peers
        × Pairwise (λ a b. All (λ r. All (λ s. AreApart r s) b.routes) a.routes) peers
  unfolding check_peers check_overlaps
  check_peers-ok own peers is_own valid h =
      let nodes = named peers ++ with_self own in
      let (done, subnets, h₁) = >>=-eq-ok (map_err addr (check_subnet_collisions nodes)) _ h in
      let (route, made, h₂) = >>=-eq-ok (expect (new_route (network prefix) 48)) _ h₁ in
      let (site, site_made, h₃) = >>=-eq-ok (site_route own) _ h₂ in
      let (checked, conflicts, overlapping) = >>=-eq-ok (check_conflicts route site peers) _ h₃ in
      let same : overlay ≡ route =
        ok_injective (sym (expected overlay (overlay-IsRoute env.hkdf network_key)) ∙ made) in
      (
        (check_subnet_collisions_iff nodes).0 (map_err-ok _ _ subnets),
        conflicts-outside own peers is_own site_made valid
            (ap (λ r. check_conflicts r site peers) same ∙ conflicts),
        Pairwise-map peers (λ a b v w e. routes-apart a b v w e) valid
            (each_pair-ok check_routes_of peers overlapping),
      )
