-- ===== src/Config/Loading/Peers.antt =====
-- What a peer that was read is known to be, and that reading one does not panic.
use hextet.Base.{
  is_empty, ◌≡◌, refl, ◌≢◌, inl, inr, ap, sym, ◌∙◌, subst, true, false, ◌&&◌, ◌||◌, List, [], ◌∷◌,
  ◌++◌, All, contains, unique, unique-snoc, ℕ, ℕ_equality, list_equality, ◌=?◌, take, Option, none,
  some, arith,
}
use hextet.RelayServer.Forward.{SocketAddr, v4, v6}
use hextet.Addr.{Sha256, derive_node_addr, Ipv6Addr, iid_label, degenerate_iid}
use hextet.Base.Bytes.{Bytes, AreBytes}
use hextet.Base.Outcome.{ok, panic, reject_if, or_err, >>=-eq-ok, ok_injective, map_err}
use hextet.Config.{
  Env, RawPeer, Peer, bad_key, bad_route, duplicate_route, addr, relay_without_endpoint,
}
use hextet.Base.Chains.{
  reject_if-ok, map_err-ok, or_err-ok, >>=-panic, reject_if-panic, or_err-panic, map_err-panic,
}
use hextet.Config.Parsing.{
  unwrap_or, endpoint_of_addr, parse_endpoints, fqdn_of, parse_ddns, parse_keys, split_once,
  route_from_str, route_from_parts, parse_routes, parse_peer, parse_peers,
}
use hextet.Crypto.{PublicKey, repeat_byte}
use hextet.Routes.{Ipv6Route, ipv4, invalid, new_route, route_equality}
use hextet.Routes.Overlap.{IsRoute, new_route_ok}
use hextet.Texts.Keys.{IsKey, public_key_from_base64-IsKey, public_key_from_base64-panic}
use hextet.Texts.{Std, public_key_from_base64}

pub record IsPeer (env : Env) (prefix : Bytes) (p : Peer) : Type 0 where
  pub key : IsKey env.codecs p.public_key
  pub derived : derive_node_addr env.sha256 prefix p.public_key ≡ ok p.addr
  pub reachable : (p.relay && is_empty p.endpoints) ≡ false
  pub routes : All IsRoute p.routes
  pub distinct : unique p.routes ≡ true

new_route-IsRoute :
    (prefix : Ipv6Addr) (len : ℕ) {r : Ipv6Route}
    → AreBytes prefix
    → new_route prefix len ≡ ok r
    → IsRoute r
new_route-IsRoute prefix len {r} b h = elim (new_route_ok prefix len b) [
  | inl (valid, made) ↦ subst IsRoute (ok_injective (sym made ∙ h)) valid
  | inr (_, reason, refused) ↦ absurd (cc (h, refused))
]

new_route-panic : (prefix : Ipv6Addr) (len : ℕ) → AreBytes prefix → new_route prefix len ≢ panic
new_route-panic prefix len b = λ h. elim (new_route_ok prefix len b) [
  | inl (valid, made) ↦ cc (h, made)
  | inr (_, reason, refused) ↦ cc (h, refused)
]

module _ (std : Std) (s : Bytes) where
  parts-IsRoute :
      (o : Option (Bytes × Bytes)) {r : Ipv6Route} → route_from_parts std s o ≡ ok r → IsRoute r
  unfolding route_from_parts
  parts-IsRoute none h = absurd (cc h)
  parts-IsRoute (some (addr_str, len_str)) {r} h =
      let (done, no_ipv4, h₁) =
        >>=-eq-ok (reject_if (contains addr_str b'.' || std.is_ipv4_addr addr_str) (ipv4 s)) _ h in
      let (prefix, is_addr, h₂) = >>=-eq-ok (or_err (std.ipv6_addr addr_str) (invalid s)) _ h₁ in
      let (len, is_len, made) = >>=-eq-ok (or_err (std.u8 len_str) (invalid s)) _ h₂ in
      let addr =
        std.ipv6_addr-IsIpv6Addr (or_err-ok (std.ipv6_addr addr_str) (invalid s) is_addr) in
      new_route-IsRoute prefix len addr.octets made

  parts-panic : (o : Option (Bytes × Bytes)) → route_from_parts std s o ≢ panic
  unfolding route_from_parts
  parts-panic none = λ h. cc h
  parts-panic (some (addr_str, len_str)) =
      >>=-panic (reject_if (contains addr_str b'.' || std.is_ipv4_addr addr_str) (ipv4 s)) _
        (reject_if-panic _ _)
        (λ _ _.
          >>=-panic (or_err (std.ipv6_addr addr_str) (invalid s)) _ (or_err-panic _ _)
            (λ prefix is_addr.
              let addr =
                std.ipv6_addr-IsIpv6Addr (or_err-ok (std.ipv6_addr addr_str) (invalid s) is_addr) in
              >>=-panic (or_err (std.u8 len_str) (invalid s)) _ (or_err-panic _ _)
                (λ len _. new_route-panic prefix len addr.octets)))

All-snoc :
    (P : Ipv6Route → Type 0) (rs : List Ipv6Route) (r : Ipv6Route)
    → All P rs
    → P r
    → All P (rs ++ r ∷ [])
All-snoc P [] r v p = (p, tt)
All-snoc P (s ∷ rs) r v p = (v.0, All-snoc P rs r v.1 p)

module _ (std : Std) (name : Bytes) where
  parse_routes-AreRoutes :
      (routes : List Ipv6Route) (texts : List Bytes) {out : List Ipv6Route}
      → All IsRoute routes
      → unique routes ≡ true
      → parse_routes std name routes texts ≡ ok out
      → All IsRoute out × (unique out ≡ true)
  unfolding parse_routes route_from_str
  parse_routes-AreRoutes routes [] {out} v u h =
      let same : routes ≡ out = cc h in (subst (All IsRoute) same v, ap unique (sym same) ∙ u)
  parse_routes-AreRoutes routes (r ∷ texts) v u h =
      let (route, is_route, h₁) =
        >>=-eq-ok (map_err (bad_route name r) (route_from_str std r)) _ h in
      let (done, is_new, rest) =
        >>=-eq-ok (reject_if (contains routes route) (duplicate_route name r)) _ h₁ in
      let valid =
        parts-IsRoute std r (split_once b'/' r) (map_err-ok (bad_route name r) _ is_route) in
      parse_routes-AreRoutes (routes ++ route ∷ []) texts (All-snoc IsRoute routes route v valid)
        (unique-snoc routes route u (reject_if-ok _ _ is_new)) rest

  parse_routes-panic :
      (routes : List Ipv6Route) (texts : List Bytes) → parse_routes std name routes texts ≢ panic
  unfolding parse_routes route_from_str
  parse_routes-panic routes [] = λ h. cc h
  parse_routes-panic routes (r ∷ texts) =
      >>=-panic (map_err (bad_route name r) (route_from_str std r)) _
        (map_err-panic _ _ (parts-panic std r (split_once b'/' r)))
        (λ route _.
          >>=-panic (reject_if (contains routes route) (duplicate_route name r)) _
            (reject_if-panic _ _) (λ _ _. parse_routes-panic (routes ++ route ∷ []) texts))

  parse_endpoints-panic : (texts : List Bytes) → parse_endpoints std name texts ≢ panic
  unfolding parse_endpoints
  parse_endpoints-panic [] = λ h. cc h
  parse_endpoints-panic (e ∷ texts) =
      >>=-panic (endpoint_of_addr name e (std.socket_addr e)) _ (one (std.socket_addr e)) (λ ep _.
        >>=-panic (parse_endpoints std name texts) _ (parse_endpoints-panic texts) (λ _ _ h. cc h))
    where
      one : (o : Option SocketAddr) → endpoint_of_addr name e o ≢ panic
      one none = λ h. cc h
      one (some v4) = λ h. cc h
      one (some (v6 ep)) = λ h. cc h

  parse_ddns-panic : (o : Option Bytes) → parse_ddns std name o ≢ panic
  unfolding parse_ddns
  parse_ddns-panic none = λ h. cc h
  parse_ddns-panic (some text) = name_of (std.trim text)
    where
      name_of : (fqdn : Bytes) → fqdn_of std name fqdn ≢ panic
      name_of [] = λ h. cc h
      name_of (b ∷ fqdn) = λ h. ground (arith, h)

pub derive_node_addr-panic :
    (s : Sha256) (prefix : Bytes) (key : PublicKey) → derive_node_addr s prefix key ≢ panic
unfolding derive_node_addr
derive_node_addr-panic s prefix key =
    >>=-panic (reject_if (take 8 (s.digest (iid_label ++ key)) =? repeat_byte 8 0) degenerate_iid) _
      (reject_if-panic _ _) (λ _ _ h. cc h)

module _ (env : Env) (prefix : Bytes) where
  parse_peer-IsPeer :
      (rp : RawPeer) {p : Peer} → parse_peer env prefix rp ≡ ok p → IsPeer env prefix p
  unfolding parse_peer unique
  parse_peer-IsPeer rp {p} h =
      let std = env.codecs.std in
      let (key, is_key, h₁) =
        >>=-eq-ok (map_err (bad_key rp.name) (public_key_from_base64 env.codecs rp.public_key)) _
          h in
      let (endpoints, _, h₂) = >>=-eq-ok (parse_endpoints std rp.name rp.endpoints) _ h₁ in
      let (routes, are_routes, h₃) = >>=-eq-ok (parse_routes std rp.name [] rp.routes) _ h₂ in
      let (ddns, _, h₄) = >>=-eq-ok (parse_ddns std rp.name rp.ddns) _ h₃ in
      let (a, derived, h₅) =
        >>=-eq-ok (map_err addr (derive_node_addr env.sha256 prefix key)) _ h₄ in
      let (done, reachable, made) =
        >>=-eq-ok
          (reject_if (unwrap_or rp.relay false && is_empty endpoints)
            (relay_without_endpoint rp.name))
          _ h₅ in
      let valid = parse_routes-AreRoutes std rp.name [] rp.routes tt refl are_routes in
      subst (IsPeer env prefix) (ok_injective made) (record {
        key = public_key_from_base64-IsKey env.codecs rp.public_key (map_err-ok _ _ is_key);
        derived = map_err-ok _ _ derived;
        reachable = reject_if-ok _ _ reachable;
        routes = valid.0;
        distinct = valid.1;
      })

  parse_peer-panic : (rp : RawPeer) → parse_peer env prefix rp ≢ panic
  unfolding parse_peer
  parse_peer-panic rp =
      let std = env.codecs.std in
      >>=-panic (map_err (bad_key rp.name) (public_key_from_base64 env.codecs rp.public_key)) _
        (map_err-panic _ _ (public_key_from_base64-panic env.codecs rp.public_key))
        (λ key _.
          >>=-panic (parse_endpoints std rp.name rp.endpoints) _
            (parse_endpoints-panic std rp.name rp.endpoints)
            (λ endpoints _.
              >>=-panic (parse_routes std rp.name [] rp.routes) _
                (parse_routes-panic std rp.name [] rp.routes)
                (λ routes _.
                  >>=-panic (parse_ddns std rp.name rp.ddns) _
                    (parse_ddns-panic std rp.name rp.ddns)
                    (λ ddns _.
                      >>=-panic (map_err addr (derive_node_addr env.sha256 prefix key)) _
                        (map_err-panic _ _ (derive_node_addr-panic env.sha256 prefix key))
                        (λ a _.
                          >>=-panic
                            (reject_if (unwrap_or rp.relay false && is_empty endpoints)
                              (relay_without_endpoint rp.name))
                            _ (reject_if-panic _ _) (λ _ _ h. cc h))))))

  pub parse_peers-ArePeers :
      (raw : List RawPeer) {peers : List Peer}
      → parse_peers env prefix raw ≡ ok peers
      → All (IsPeer env prefix) peers
  unfolding parse_peers
  parse_peers-ArePeers [] {peers} h = subst (All (IsPeer env prefix)) (ok_injective h) tt
  parse_peers-ArePeers (rp ∷ raw) {peers} h =
      let (p, is_peer, h₁) = >>=-eq-ok (parse_peer env prefix rp) _ h in
      let (rest, are_peers, made) = >>=-eq-ok (parse_peers env prefix raw) _ h₁ in
      subst (All (IsPeer env prefix)) (ok_injective made)
        (parse_peer-IsPeer rp is_peer, parse_peers-ArePeers raw are_peers)

  pub parse_peers-panic : (raw : List RawPeer) → parse_peers env prefix raw ≢ panic
  unfolding parse_peers
  parse_peers-panic [] = λ h. cc h
  parse_peers-panic (rp ∷ raw) =
      >>=-panic (parse_peer env prefix rp) _ (parse_peer-panic rp)
        (λ p _. >>=-panic (parse_peers env prefix raw) _ (parse_peers-panic raw) (λ _ _ h. cc h))

pub parse_keys-AreKeys :
    (env : Env) (label : Bytes → Bytes) (texts : List Bytes) {keys : List PublicKey}
    → parse_keys env label texts ≡ ok keys
    → All (IsKey env.codecs) keys
unfolding parse_keys
parse_keys-AreKeys env label [] {keys} h = subst (All (IsKey env.codecs)) (ok_injective h) tt
parse_keys-AreKeys env label (text ∷ texts) {keys} h =
    let (key, is_key, h₁) =
      >>=-eq-ok (map_err (bad_key (label text)) (public_key_from_base64 env.codecs text)) _ h in
    let (rest, are_keys, made) = >>=-eq-ok (parse_keys env label texts) _ h₁ in
    subst (All (IsKey env.codecs)) (ok_injective made) (
      public_key_from_base64-IsKey env.codecs text (map_err-ok _ _ is_key),
      parse_keys-AreKeys env label texts are_keys,
    )

pub parse_keys-panic :
    (env : Env) (label : Bytes → Bytes) (texts : List Bytes) → parse_keys env label texts ≢ panic
unfolding parse_keys
parse_keys-panic env label [] = λ h. cc h
parse_keys-panic env label (text ∷ texts) =
    >>=-panic (map_err (bad_key (label text)) (public_key_from_base64 env.codecs text)) _
      (map_err-panic _ _ (public_key_from_base64-panic env.codecs text))
      (λ key _.
        >>=-panic (parse_keys env label texts) _ (parse_keys-panic env label texts) (λ _ _ h. cc h))
