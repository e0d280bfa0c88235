-- ===== src/Config/Loading/Total.antt =====
-- Loading never panics: its `expect`s hold and no mask is out of bounds.
use hextet.Base.{
  ◌≡◌, ◌≢◌, refl, ap, subst, Bool, true, false, List, [], ◌∷◌, ◌++◌, All, Option, none, some, ◌=?◌,
  if◌then◌else◌, ℕ, ℕ_equality, list_equality, arith,
}
use hextet.Addr.{
  NodeAddr, AddrError, network, derive_prefix, derive_node_addr, check_subnet_collisions,
  check_collisions_from,
}
use hextet.Base.Assoc.{lookup, insert}
use hextet.Base.Bytes.{Bytes}
use hextet.Base.Outcome.{Outcome, ok, err, panic, reject_if, or_panic, or_err, ◌>>=◌, map_err}
use hextet.Config.{
  Env, RawConfig, RawNode, Peer, ConfigError, io, parse, addr, route_conflict, route_overlap,
  duplicate_peer,
}
use hextet.Config.Loading.{
  check_node, check_duplicates, with_self, named, expect, own_addr, site_route, check_against,
  check_site, check_conflicts, check_routes_of, check_overlaps, check_peers, validate, load,
  bad_key_text, relay_allow_label, admin_keys_label,
}
use hextet.Base.Chains.{
  Pairwise, All-always, All-map, >>=-panic, reject_if-panic, or_err-panic, map_err-panic,
}
use hextet.Config.Loading.Checks.{each-panic, each_pair-panic}
use hextet.Config.Loading.Networks.{overlay_route, overlay-IsRoute, site_of}
use hextet.Config.Loading.Peers.{
  IsPeer, derive_node_addr-panic, parse_peers-ArePeers, parse_peers-panic, parse_keys-panic,
}
use hextet.Config.Loading.Apart.{IsOwn, own_addr-IsOwn, own_site-IsRoute, expected}
use hextet.Config.Parsing.{parse_peers, parse_keys}
use hextet.Crypto.{PublicKey}
use hextet.Routes.{Ipv6Route, new_route, overlaps, contains_addr}
use hextet.Routes.Overlap.{IsRoute, contains_addr-eq}
use hextet.Texts.{Codecs, IdentityError, network_key_from_base64}

some_injective : {r s : Ipv6Route} → some r ≡ some s → r ≡ s
some_injective h = cc h

-- Routes are compared without a panic.
tested :
    (r s : Ipv6Route) (e : ConfigError)
    → IsRoute r
    → IsRoute s
    → (or_panic (overlaps r s) >>= λ both. reject_if both e) ≢ panic
unfolding overlaps
tested r s e v w =
    compared (contains_addr r s.prefix) (contains_addr s r.prefix)
      (contains_addr-eq r s.prefix v.short) (contains_addr-eq s r.prefix w.short)
  where
    compared :
        (o p : Option Bool) {a b : Bool}
        → o ≡ some a
        → p ≡ some b
        → (or_panic (elim o [ none ↦ none | some first ↦ if first then some true else p ])
            >>= λ both. reject_if both e)
          ≢ panic
    compared none p f g = λ h. cc f
    compared (some true) p f g = λ h. cc h
    compared (some false) none f g = λ h. cc g
    compared (some false) (some c) f g = reject_if-panic c e

collisions-panic :
    (seen : List (ℕ × Bytes)) (nodes : List (Bytes × NodeAddr))
    → check_collisions_from seen nodes ≢ panic
unfolding check_collisions_from
collisions-panic seen [] = λ h. cc h
collisions-panic seen ((name, a) ∷ nodes) =
    looked_up (lookup a.subnet_id seen) (collisions-panic (insert a.subnet_id name seen) nodes)
  where
    looked_up :
        (o : Option Bytes) {rest : Outcome AddrError (Unit {0})}
        → rest ≢ panic
        → elim o [ some prev ↦ err (AddrError.subnet_collision prev name) | none ↦ rest ] ≢ panic
    looked_up none k = k
    looked_up (some prev) k = λ h. cc h

own_addr-panic :
    (env : Env) (prefix : Bytes) (key : Option PublicKey) → own_addr env prefix key ≢ panic
own_addr-panic env prefix none = λ h. cc h
own_addr-panic env prefix (some key) =
    >>=-panic (map_err addr (derive_node_addr env.sha256 prefix key)) _
      (map_err-panic _ _ (derive_node_addr-panic env.sha256 prefix key)) (λ _ _ h. cc h)

network_key-panic : (c : Codecs) (text : Bytes) → network_key_from_base64 c text ≢ panic
unfolding network_key_from_base64
network_key-panic c text =
    >>=-panic (or_err (c.base64.decode (c.std.trim text)) IdentityError.invalid_encoding) _
      (or_err-panic _ _) (λ bytes _ h. ground (arith, h))

check_node-panic : (node : RawNode) → check_node node ≢ panic
unfolding check_node
check_node-panic node = λ h. ground (arith, h)

check_duplicates-panic : (peers : List Peer) → check_duplicates peers ≢ panic
unfolding check_duplicates
check_duplicates-panic peers = each_pair-panic _ peers (all_pairs peers)
  where
    all_pairs :
        (ps : List Peer)
        → Pairwise
            (λ a b. reject_if (a.public_key =? b.public_key) (duplicate_peer a.name b.name) ≢ panic)
            ps
    all_pairs [] = tt
    all_pairs (p ∷ ps) = (All-always ps (λ q. reject_if-panic _ _), all_pairs ps)

module _ (env : Env) (network_key : Bytes) (own_pubkey : Option PublicKey) where
  abbrev prefix : Bytes
  prefix = derive_prefix env.hkdf network_key

  abbrev overlay : Ipv6Route
  overlay = overlay_route prefix

  -- The node's own site, as the route that is made of it.
  site-IsSite :
      (own : Option NodeAddr)
      → IsOwn env prefix own_pubkey own
      → (site : Option Ipv6Route) × (site_route own ≡ ok site)
        × ((r : Ipv6Route) → site ≡ some r → IsRoute r)
  site-IsSite none is_own = (none, refl, λ r h. absurd (cc h))
  site-IsSite (some own) is_own =
      let valid = own_site-IsRoute env network_key own_pubkey own is_own in
      (
        some (site_of own),
        ap (λ m. m >>= λ route. ok (some route)) (expected (site_of own) valid),
        λ r h. subst IsRoute (some_injective h) valid,
      )

  check_site-panic :
      (name : Bytes) (r : Ipv6Route) (site : Option Ipv6Route)
      → ((s : Ipv6Route) → site ≡ some s → IsRoute s)
      → IsRoute r
      → check_site name r site ≢ panic
  check_site-panic name r none w v = λ h. cc h
  check_site-panic name r (some s) w v = tested r s (route_conflict name r) v (w s refl)

  conflicts-panic :
      (site : Option Ipv6Route) (peers : List Peer)
      → ((s : Ipv6Route) → site ≡ some s → IsRoute s)
      → All (IsPeer env prefix) peers
      → check_conflicts overlay site peers ≢ panic
  unfolding check_conflicts
  conflicts-panic site peers w valid = each-panic _ peers (
      All-map peers
        (λ p v. each-panic _ p.routes (
          All-map p.routes
            (λ r x.
              >>=-panic (check_against p.name r overlay) _
                (tested r overlay (route_conflict p.name r) x
                  (overlay-IsRoute env.hkdf network_key))
                (λ _ _. check_site-panic p.name r site w x))
            v.routes))
        valid)

  overlaps-panic :
      (peers : List Peer) → All (IsPeer env prefix) peers → check_overlaps peers ≢ panic
  unfolding check_overlaps
  overlaps-panic peers valid = each_pair-panic check_routes_of peers (all_pairs peers valid)
    where
      of_two :
          (a b : Peer) → IsPeer env prefix a → IsPeer env prefix b → check_routes_of a b ≢ panic
      of_two a b v w = each-panic _ a.routes (
          All-map a.routes
            (λ r x.
              each-panic _ b.routes (
                All-map b.routes (λ s y. tested r s (route_overlap a.name b.name r s) x y)
                  w.routes))
            v.routes)

      all_pairs :
          (ps : List Peer)
          → All (IsPeer env prefix) ps
          → Pairwise (λ a b. check_routes_of a b ≢ panic) ps
      all_pairs [] v = tt
      all_pairs (p ∷ ps) v = (All-map ps (λ q w. of_two p q v.0 w) v.1, all_pairs ps v.1)

  check_peers-panic :
      (own : Option NodeAddr) (peers : List Peer)
      → IsOwn env prefix own_pubkey own
      → All (IsPeer env prefix) peers
      → check_peers env prefix own peers ≢ panic
  unfolding check_peers check_subnet_collisions
  check_peers-panic own peers is_own valid =
      let (site, made, routes) = site-IsSite own is_own in
      let overlay_made : expect {F = ConfigError} (new_route (network prefix) 48) ≡ ok overlay =
        expected overlay (overlay-IsRoute env.hkdf network_key) in
      >>=-panic (map_err addr (check_subnet_collisions (named peers ++ with_self own))) _
        (map_err-panic _ _ (collisions-panic [] (named peers ++ with_self own)))
        (λ _ _.
          rw (overlay_made, made)
            (>>=-panic (check_conflicts overlay site peers) _
              (conflicts-panic site peers routes valid) (λ _ _. overlaps-panic peers valid)))

validate-panic :
    (env : Env) (own_pubkey : Option PublicKey) (raw : RawConfig)
    → validate env own_pubkey raw ≢ panic
unfolding validate
validate-panic env own_pubkey raw =
    let node = raw.node in
    >>=-panic (check_node node) _ (check_node-panic node) (λ _ _.
      >>=-panic (map_err bad_key_text (network_key_from_base64 env.codecs raw.network_key)) _
        (map_err-panic _ _ (network_key-panic env.codecs raw.network_key))
        (λ key _.
          let net = derive_prefix env.hkdf key in
          >>=-panic (parse_peers env net raw.peers) _ (parse_peers-panic env net raw.peers)
            (λ peers are_peers.
              let valid = parse_peers-ArePeers env net raw.peers are_peers in
              >>=-panic (check_duplicates peers) _ (check_duplicates-panic peers) (λ _ _.
                >>=-panic (parse_keys env relay_allow_label node.relay_allow) _
                  (parse_keys-panic env relay_allow_label node.relay_allow)
                  (λ _ _.
                    >>=-panic (parse_keys env admin_keys_label node.admin_keys) _
                      (parse_keys-panic env admin_keys_label node.admin_keys)
                      (λ _ _.
                        >>=-panic (own_addr env net own_pubkey) _
                          (own_addr-panic env net own_pubkey)
                          (λ own has_own.
                            >>=-panic (check_peers env net own peers) _
                              (check_peers-panic env key own_pubkey own peers
                                (own_addr-IsOwn env net own_pubkey has_own) valid)
                              (λ _ _ h. cc h))))))))

-- Loading never panics, whatever the file holds: both `expect`s always hold, and no comparison of
-- routes indexes past an address.
pub load-ne-panic :
    (env : Env) (own_pubkey : Option PublicKey) (text : Option Bytes)
    → load env own_pubkey text ≢ panic
unfolding load
load-ne-panic env own_pubkey text = >>=-panic (or_err text io) _ (or_err-panic _ _) (λ contents _.
    >>=-panic (or_err (env.toml contents) parse) _ (or_err-panic _ _)
      (λ raw _. validate-panic env own_pubkey raw))
