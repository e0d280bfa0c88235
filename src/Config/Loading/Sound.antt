-- ===== src/Config/Loading/Sound.antt =====
-- What a configuration that was loaded is known to be.
use hextet.Base.{
  ◌≡◌, ◌≢◌, refl, sym, ap, ◌∙◌, subst, Bool, true, false, ◌&&◌, List, ◌++◌, All, length, unique,
  ℕ_equality, list_equality, =?_ne, Option, arith,
}
use hextet.Addr.{NodeAddr, derive_prefix}
use hextet.Addr.Derived.{ids}
use hextet.Base.Bytes.{Bytes}
use hextet.Base.Outcome.{ok, reject_if, or_err, >>=-eq-ok, ok_injective, map_err}
use hextet.Config.{
  Env, RawNode, RawConfig, Peer, Config, io, parse, http_addr_port_mismatch, ddns_missing_fqdn,
}
use hextet.Config.Loading.{
  is_some, differ, is_missing, check_node, check_duplicates, with_self, named, own_addr, settings,
  check_peers, validate, load, bad_key_text, relay_allow_label, admin_keys_label,
}
use hextet.Base.Chains.{Pairwise, Pairwise-map, All-always, reject_if-ok, map_err-ok}
use hextet.Config.Loading.Checks.{each_pair-ok}
use hextet.Config.Loading.Networks.{overlay_route}
use hextet.Config.Loading.Peers.{IsPeer, parse_peers-ArePeers, parse_keys-AreKeys}
use hextet.Config.Parsing.{unwrap_or, parse_peers, parse_keys}
use hextet.Crypto.{PublicKey}
use hextet.Texts.Keys.{IsKey, sized-ok}
use hextet.Texts.{Codecs, IdentityError, network_key_from_base64}
use hextet.Config.Loading.Apart.{AreApart, IsOwn, AvoidsSite, own_addr-IsOwn, check_peers-ok}

-- The network is the key's own; peers have derived addresses, distinct keys and subnets, and routes
-- that meet neither the network, nor the node's own site, nor another peer's.
pub record IsLoaded (env : Env) (own_pubkey : Option PublicKey) (c : Config) : Type 0 where
  pub key_length : length c.network_key ≡ 32
  pub derived : c.prefix ≡ derive_prefix env.hkdf c.network_key
  pub peers : All (IsPeer env c.prefix) c.peers
  pub keys : Pairwise (λ a b. a.public_key ≢ b.public_key) c.peers
  pub allowed : All (IsKey env.codecs) c.node.relay_allow
  pub admins : All (IsKey env.codecs) c.node.admin_keys
  pub own : Option NodeAddr
  pub is_own : IsOwn env c.prefix own_pubkey own
  pub subnets : unique (ids (named c.peers ++ with_self own)) ≡ true
  pub outside :
      All (λ p. All (λ r. AreApart r (overlay_route c.prefix) × AvoidsSite own r) p.routes) c.peers
  pub apart : Pairwise (λ a b. All (λ r. All (λ s. AreApart r s) b.routes) a.routes) c.peers
  pub http : is_some c.node.http_addr ≡ is_some c.node.http_port
  pub named_for_ddns : (c.node.ddns && is_missing c.node.ddns_fqdn) ≡ false

keys-distinct :
    (peers : List Peer)
    → check_duplicates peers ≡ ok tt
    → Pairwise (λ a b. a.public_key ≢ b.public_key) peers
unfolding check_duplicates
keys-distinct peers h =
    Pairwise-map peers (λ a b _ _ e. =?_ne {A = Bytes} _ _ (reject_if-ok _ _ e))
      (All-always peers (λ p. valid_anyway p)) (each_pair-ok _ peers h)
  where
    valid_anyway : (p : Peer) → Unit {0}
    valid_anyway p = tt

same-is_some : (a b : Bool) → differ a b ≡ false → a ≡ b
same-is_some true b h = ground (arith, h)
same-is_some false b h = ground (arith, h)

check_node-ok :
    (node : RawNode)
    → check_node node ≡ ok tt
    → (is_some node.http_addr ≡ is_some node.http_port)
      × ((unwrap_or node.ddns false && is_missing node.ddns_fqdn) ≡ false)
unfolding check_node
check_node-ok node h =
    let (first, http, h₁) =
      >>=-eq-ok
        (reject_if (differ (is_some node.http_addr) (is_some node.http_port))
          http_addr_port_mismatch)
        _ h in
    let (second, fqdn, _) =
      >>=-eq-ok
        (reject_if (unwrap_or node.ddns false && is_missing node.ddns_fqdn) ddns_missing_fqdn) _
        h₁ in
    (same-is_some _ _ (reject_if-ok _ _ http), reject_if-ok _ _ fqdn)

network_key-length :
    (c : Codecs) (text : Bytes) {key : Bytes}
    → network_key_from_base64 c text ≡ ok key
    → length key ≡ 32
unfolding network_key_from_base64
network_key-length c text h =
    let (bytes, decoded, right_size) =
      >>=-eq-ok (or_err (c.base64.decode (c.std.trim text)) IdentityError.invalid_encoding) _ h in
    let (size, same) = sized-ok 32 IdentityError.invalid_encoding bytes right_size in
    ap length (sym same) ∙ size

validate-IsLoaded :
    (env : Env) (own_pubkey : Option PublicKey) (raw : RawConfig) {c : Config}
    → validate env own_pubkey raw ≡ ok c
    → IsLoaded env own_pubkey c
unfolding validate settings
validate-IsLoaded env own_pubkey raw {c} h =
    let node = raw.node in
    let (done, node_passed, h₁) = >>=-eq-ok (check_node node) _ h in
    let (key, is_key, h₂) =
      >>=-eq-ok (map_err bad_key_text (network_key_from_base64 env.codecs raw.network_key)) _ h₁ in
    let net = derive_prefix env.hkdf key in
    let (peers, are_peers, h₃) = >>=-eq-ok (parse_peers env net raw.peers) _ h₂ in
    let (_, distinct, h₄) = >>=-eq-ok (check_duplicates peers) _ h₃ in
    let (relay_allow, allowed, h₅) =
      >>=-eq-ok (parse_keys env relay_allow_label node.relay_allow) _ h₄ in
    let (admin_keys, admins, h₆) =
      >>=-eq-ok (parse_keys env admin_keys_label node.admin_keys) _ h₅ in
    let (own, has_own, h₇) = >>=-eq-ok (own_addr env net own_pubkey) _ h₆ in
    let (_, passed, made) = >>=-eq-ok (check_peers env net own peers) _ h₇ in
    let valid = parse_peers-ArePeers env net raw.peers are_peers in
    let is_own = own_addr-IsOwn env net own_pubkey has_own in
    let across = check_peers-ok env key own_pubkey own peers is_own valid passed in
    let settled = check_node-ok node node_passed in
    subst (IsLoaded env own_pubkey) (ok_injective made) (record {
      key_length = network_key-length env.codecs raw.network_key (map_err-ok _ _ is_key);
      derived = refl;
      peers = valid;
      keys = keys-distinct peers distinct;
      allowed = parse_keys-AreKeys env relay_allow_label node.relay_allow allowed;
      admins = parse_keys-AreKeys env admin_keys_label node.admin_keys admins;
      own = own;
      is_own = is_own;
      subnets = across.0;
      outside = across.1;
      apart = across.2;
      http = settled.0;
      named_for_ddns = settled.1;
    })

-- A configuration that loads is well formed: its prefix is the network key's, peers have their
-- derived addresses, distinct keys and distinct subnets (this node's included), and no route shares
-- an address with the network, with this node's site, or with another peer's routes.
pub load-IsLoaded :
    (env : Env) (own_pubkey : Option PublicKey) (text : Option Bytes) {c : Config}
    → load env own_pubkey text ≡ ok c
    → IsLoaded env own_pubkey c
unfolding load
load-IsLoaded env own_pubkey text {c} h =
    let (contents, _, h₁) = >>=-eq-ok (or_err text io) _ h in
    let (raw, _, h₂) = >>=-eq-ok (or_err (env.toml contents) parse) _ h₁ in
    validate-IsLoaded env own_pubkey raw h₂
