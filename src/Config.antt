-- ===== src/Config.antt =====
-- The configuration, crates/core/src/config.rs: what TOML's deserializer hands over, and what
-- `Config::load` makes of it. Paths and names are texts, and a secret is one too.
pub mod Parsing
pub mod Loading
use hextet.Base.{ℕ, Bool, true, false, List, [], ◌∷◌, map, Option, none, some}
use hextet.Addr.{Ipv6Addr, NodeAddr, AddrError, Sha256, Hkdf}
use hextet.Base.Bytes.{Bytes}
use hextet.Crypto.{PublicKey}
use hextet.Endpoint.{Endpoint, endpoint}
use hextet.RelayServer.Forward.{SocketAddr}
use hextet.Routes.{Ipv6Route, RouteError}
use hextet.Texts.{Codecs, IdentityError}

pub data DdnsProvider : Type 0 where
  webhook cloudflare : DdnsProvider

pub record RawPeer : Type 0 where
  pub name : Bytes
  pub public_key : Bytes
  pub endpoints : List Bytes
  pub relay : Option Bool
  pub relay_port : Option ℕ
  pub routes : List Bytes
  pub ddns : Option Bytes
  pub keepalive : Option ℕ

pub record RawNode : Type 0 where
  pub key_file : Bytes
  pub listen_port : Option ℕ
  pub mtu : Option ℕ
  pub interface : Option Bytes
  pub probe_port : Option ℕ
  pub state_dir : Option Bytes
  pub keepalive : Option ℕ
  pub lan_discovery : Option Bool
  pub lan_port : Option ℕ
  pub relay : Option Bool
  pub relay_port : Option ℕ
  pub relay_allow : List Bytes
  pub gossip_port : Option ℕ
  pub gossip : Option Bool
  pub admin_keys : List Bytes
  pub dht : Option Bool
  pub http_addr : Option Ipv6Addr
  pub http_port : Option ℕ
  pub web_dir : Option Bytes
  pub ddns : Option Bool
  pub ddns_fqdn : Option Bytes
  pub ddns_provider : Option DdnsProvider
  pub ddns_webhook_url : Option Bytes
  pub ddns_secret : Option Bytes
  pub ddns_zone : Option Bytes
  pub ddns_resolver : Option SocketAddr

pub record RawConfig : Type 0 where
  pub network_name : Bytes
  pub network_key : Bytes
  pub node : RawNode
  pub peers : List RawPeer

pub record NodeSettings : Type 0 where
  pub key_file : Bytes
  pub listen_port : ℕ
  pub mtu : ℕ
  pub interface : Bytes
  pub probe_port : ℕ
  pub state_dir : Bytes
  pub keepalive : ℕ
  pub lan_discovery : Bool
  pub lan_port : ℕ
  pub relay : Bool
  pub relay_port : ℕ
  pub relay_allow : List PublicKey
  pub gossip_port : ℕ
  pub gossip : Bool
  pub admin_keys : List PublicKey
  pub dht : Bool
  pub http_addr : Option Ipv6Addr
  pub http_port : Option ℕ
  pub web_dir : Option Bytes
  pub ddns : Bool
  pub ddns_fqdn : Option Bytes
  pub ddns_provider : DdnsProvider
  pub ddns_webhook_url : Option Bytes
  pub ddns_secret : Option Bytes
  pub ddns_zone : Option Bytes
  pub ddns_resolver : Option SocketAddr

pub record Peer : Type 0 where
  pub name : Bytes
  pub public_key : PublicKey
  pub endpoints : List Endpoint
  pub addr : NodeAddr
  pub relay : Bool
  pub relay_port : ℕ
  pub routes : List Ipv6Route
  pub ddns : Option Bytes
  pub keepalive : Option ℕ

pub record Config : Type 0 where
  pub network_name : Bytes
  pub network_key : Bytes
  pub prefix : Bytes
  pub node : NodeSettings
  pub peers : List Peer

-- The fields that the messages of `ConfigError` show; a route is shown as itself.
pub data ConfigError : Type 0 where
  io parse bad_network_key http_addr_port_mismatch ddns_missing_fqdn ddns_missing_webhook_url
        ddns_missing_cloudflare :
      ConfigError
  bad_key : (name : Bytes) → IdentityError → ConfigError
  ipv4_endpoint bad_endpoint : (name endpoint : Bytes) → ConfigError
  bad_route : (name route : Bytes) → RouteError → ConfigError
  duplicate_route : (name route : Bytes) → ConfigError
  bad_ddns_fqdn relay_without_endpoint : (name : Bytes) → ConfigError
  duplicate_peer : (a b : Bytes) → ConfigError
  addr : AddrError → ConfigError
  route_conflict : (name : Bytes) → Ipv6Route → ConfigError
  route_overlap : (a b : Bytes) → Ipv6Route → Ipv6Route → ConfigError

-- The functions of crates and of the standard library that loading rests on; `toml` is `from_str`.
pub record Env : Type 0 where
  pub codecs : Codecs
  pub sha256 : Sha256
  pub hkdf : Hkdf
  pub toml : Bytes → Option RawConfig

-- `Peer::relay_control_endpoints`.
unfoldable pub relay_control_endpoints : Peer → List Endpoint
relay_control_endpoints p = elim p.relay [
  | false ↦ []
  | true ↦ map (λ (e : Endpoint). endpoint e.ip p.relay_port) p.endpoints
]
