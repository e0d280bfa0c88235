-- ===== src/Config/Loading.antt =====
-- `Config::load` of crates/core/src/config.rs, with the defaults of crates/core/src/defaults.rs.
pub mod Checks
pub mod Networks
pub mod Peers
pub mod Apart
pub mod Sound
pub mod Total
use hextet.Base.{
  is_empty, ℕ, Bool, true, false, not, ◌&&◌, ◌||◌, List, [], ◌∷◌, ◌++◌, map, ◌=?◌, if◌then◌else◌,
  Option, none, some, ℕ_equality, list_equality,
}
use hextet.Addr.{
  Ipv6Addr, NodeAddr, AddrError, derive_prefix, derive_node_addr, network, check_subnet_collisions,
}
use hextet.Base.Bytes.{Bytes}
use hextet.Base.Outcome.{Outcome, ok, err, panic, ◌>>=◌, ◌>>◌, reject_if, or_panic, or_err, map_err}
use hextet.Config.{
  Env, RawNode, RawConfig, NodeSettings, Peer, Config, DdnsProvider, webhook, cloudflare,
  ConfigError, io, parse, bad_network_key, http_addr_port_mismatch, ddns_missing_fqdn,
  ddns_missing_webhook_url, ddns_missing_cloudflare, duplicate_peer, addr, route_conflict,
  route_overlap,
}
use hextet.Config.Parsing.{unwrap_or, default_relay_port, parse_peers, parse_keys}
use hextet.Crypto.{PublicKey}
use hextet.Routes.{Ipv6Route, new_route, overlaps}
use hextet.Texts.{network_key_from_base64}

-- A loop that only returns early, and one over the pairs `i < j`.
unfoldable pub each {ℓ} :
    {E : Type 0} {A : Type ℓ} → (A → Outcome E (Unit {0})) → List A → Outcome E (Unit {0})
each check [] = ok tt
each check (x ∷ xs) = do check x; each check xs

unfoldable pub each_pair {ℓ} :
    {E : Type 0} {A : Type ℓ} → (A → A → Outcome E (Unit {0})) → List A → Outcome E (Unit {0})
each_pair check [] = ok tt
each_pair check (x ∷ xs) = do each (check x) xs; each_pair check xs

abbrev pub is_some {ℓ} : {A : Type ℓ} → Option A → Bool
is_some none = false
is_some (some a) = true

abbrev pub differ : Bool → Bool → Bool
differ a b = if a then not b else b

-- `as_deref().is_none_or(str::is_empty)`.
abbrev pub is_missing : Option Bytes → Bool
is_missing none = true
is_missing (some text) = is_empty text

abbrev pub is_none {ℓ} : {A : Type ℓ} → Option A → Bool
is_none none = true
is_none (some a) = false

abbrev pub is_webhook : DdnsProvider → Bool
is_webhook webhook = true
is_webhook cloudflare = false

abbrev pub is_cloudflare : DdnsProvider → Bool
is_cloudflare webhook = false
is_cloudflare cloudflare = true

-- What is checked before any key is read.
unfoldable pub check_node : RawNode → Outcome ConfigError (Unit {0})
check_node node =
    let ddns = unwrap_or node.ddns false in
    let ddns_provider = unwrap_or node.ddns_provider webhook in
    do
      reject_if (differ (is_some node.http_addr) (is_some node.http_port)) http_addr_port_mismatch
      reject_if (ddns && is_missing node.ddns_fqdn) ddns_missing_fqdn
      reject_if (ddns && is_webhook ddns_provider && is_missing node.ddns_webhook_url)
          ddns_missing_webhook_url
      reject_if
          (ddns
            && is_cloudflare ddns_provider
            && (is_none node.ddns_secret || is_missing node.ddns_zone))
          ddns_missing_cloudflare

unfoldable pub check_duplicates : List Peer → Outcome ConfigError (Unit {0})
check_duplicates peers =
    each_pair
      (λ (a b : Peer). reject_if (a.public_key =? b.public_key) (duplicate_peer a.name b.name))
      peers

-- "<self>".
abbrev pub self_name : Bytes
self_name = b'<' ∷ b's' ∷ b'e' ∷ b'l' ∷ b'f' ∷ b'>' ∷ []

abbrev pub with_self : Option NodeAddr → List (Bytes × NodeAddr)
with_self none = []
with_self (some own) = (self_name, own) ∷ []

abbrev pub named : List Peer → List (Bytes × NodeAddr)
named [] = []
named (p ∷ peers) = (p.name, p.addr) ∷ named peers

-- `expect`.
abbrev pub expect {ℓ} : {E F : Type 0} {A : Type ℓ} → Outcome E A → Outcome F A
expect (ok a) = ok a
expect (err e) = panic
expect panic = panic

-- `own.as_ref().map(...)` with an early return, and the site's route with `expect`.
abbrev pub own_addr : Env → Bytes → Option PublicKey → Outcome ConfigError (Option NodeAddr)
own_addr env prefix none = ok none
own_addr env prefix (some key) = do
  own ← map_err addr (derive_node_addr env.sha256 prefix key)
  ok (some own)

abbrev pub site_route : Option NodeAddr → Outcome ConfigError (Option Ipv6Route)
site_route none = ok none
site_route (some own) = do route ← expect (new_route own.site 64); ok (some route)

-- The tests of one route against the network's own prefix, and against the node's own site.
abbrev pub check_against : Bytes → Ipv6Route → Ipv6Route → Outcome ConfigError (Unit {0})
check_against name r other = do
  conflict ← or_panic (overlaps r other)
  reject_if conflict (route_conflict name r)

abbrev pub check_site : Bytes → Ipv6Route → Option Ipv6Route → Outcome ConfigError (Unit {0})
check_site name r none = ok tt
check_site name r (some site) = check_against name r site

unfoldable pub check_conflicts :
    Ipv6Route → Option Ipv6Route → List Peer → Outcome ConfigError (Unit {0})
check_conflicts overlay own_site peers =
    each
      (λ (p : Peer).
        each (λ r. check_against p.name r overlay >> check_site p.name r own_site) p.routes)
      peers

abbrev pub check_routes_of : Peer → Peer → Outcome ConfigError (Unit {0})
check_routes_of a b =
    each
      (λ ra.
        each
          (λ rb. or_panic (overlaps ra rb) >>= λ both.
            reject_if both (route_overlap a.name b.name ra rb))
          b.routes)
      a.routes

unfoldable pub check_overlaps : List Peer → Outcome ConfigError (Unit {0})
check_overlaps peers = each_pair check_routes_of peers

-- "relay_allow[key]" and "admin_keys[key]".
abbrev pub relay_allow_label : Bytes → Bytes
relay_allow_label key =
    b'r' ∷ b'e' ∷ b'l' ∷ b'a' ∷ b'y' ∷ b'_' ∷ b'a' ∷ b'l' ∷ b'l' ∷ b'o' ∷ b'w' ∷ b'[' ∷ key
    ++ b']' ∷ []

abbrev pub admin_keys_label : Bytes → Bytes
admin_keys_label key =
    b'a' ∷ b'd' ∷ b'm' ∷ b'i' ∷ b'n' ∷ b'_' ∷ b'k' ∷ b'e' ∷ b'y' ∷ b's' ∷ b'[' ∷ key ++ b']' ∷ []

-- "hextet0" and "/var/lib/hextet".
abbrev pub default_interface : Bytes
default_interface = b'h' ∷ b'e' ∷ b'x' ∷ b't' ∷ b'e' ∷ b't' ∷ b'0' ∷ []

abbrev pub default_state_dir : Bytes
default_state_dir =
    b'/' ∷ b'v' ∷ b'a' ∷ b'r' ∷ b'/' ∷ b'l' ∷ b'i' ∷ b'b' ∷ b'/' ∷ b'h' ∷ b'e' ∷ b'x' ∷ b't' ∷ b'e'
    ∷ b't' ∷ []

unfoldable pub settings : RawNode → List PublicKey → List PublicKey → NodeSettings
settings node relay_allow admin_keys = record {
  key_file = node.key_file;
  listen_port = unwrap_or node.listen_port 4193;
  mtu = unwrap_or node.mtu 1400;
  interface = unwrap_or node.interface default_interface;
  probe_port = unwrap_or node.probe_port 4194;
  state_dir = unwrap_or node.state_dir default_state_dir;
  keepalive = unwrap_or node.keepalive 25;
  lan_discovery = unwrap_or node.lan_discovery true;
  lan_port = unwrap_or node.lan_port 4195;
  relay = unwrap_or node.relay false;
  relay_port = unwrap_or node.relay_port default_relay_port;
  relay_allow = relay_allow;
  gossip_port = unwrap_or node.gossip_port 4197;
  gossip = unwrap_or node.gossip true;
  admin_keys = admin_keys;
  dht = unwrap_or node.dht true;
  http_addr = node.http_addr;
  http_port = node.http_port;
  web_dir = node.web_dir;
  ddns = unwrap_or node.ddns false;
  ddns_fqdn = node.ddns_fqdn;
  ddns_provider = unwrap_or node.ddns_provider webhook;
  ddns_webhook_url = node.ddns_webhook_url;
  ddns_secret = node.ddns_secret;
  ddns_zone = node.ddns_zone;
  ddns_resolver = node.ddns_resolver;
}

-- What follows once the keys and the peers are read: the checks across peers.
unfoldable pub check_peers :
    Env → Bytes → Option NodeAddr → List Peer → Outcome ConfigError (Unit {0})
check_peers env prefix own peers = do
  map_err addr (check_subnet_collisions (named peers ++ with_self own))
  overlay ← expect (new_route (network prefix) 48)
  own_site ← site_route own
  check_conflicts overlay own_site peers
  check_overlaps peers

abbrev pub bad_key_text : {E : Type 0} → E → ConfigError
bad_key_text e = bad_network_key

-- From the deserialized file on.
unfoldable pub validate : Env → Option PublicKey → RawConfig → Outcome ConfigError Config
validate env own_pubkey raw = do
  check_node raw.node
  network_key ← map_err bad_key_text (network_key_from_base64 env.codecs raw.network_key)
  peers ← parse_peers env (derive_prefix env.hkdf network_key) raw.peers
  check_duplicates peers
  relay_allow ← parse_keys env relay_allow_label raw.node.relay_allow
  admin_keys ← parse_keys env admin_keys_label raw.node.admin_keys
  own ← own_addr env (derive_prefix env.hkdf network_key) own_pubkey
  check_peers env (derive_prefix env.hkdf network_key) own peers
  ok (record {
    network_name = raw.network_name;
    network_key = network_key;
    prefix = derive_prefix env.hkdf network_key;
    node = settings raw.node relay_allow admin_keys;
    peers = peers;
  })

-- `Config::load`; the argument is what reading the file gives.
unfoldable pub load : Env → Option PublicKey → Option Bytes → Outcome ConfigError Config
load env own_pubkey text = do
  text ← or_err text io
  raw ← or_err (env.toml text) parse
  validate env own_pubkey raw
