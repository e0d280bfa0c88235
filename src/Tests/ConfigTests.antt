-- ===== src/Tests/ConfigTests.antt =====
-- A configuration of two peers, each with a route, as a node of the same network loads it.
use hextet.Base.{◌≡◌, ◌≢◌, refl, ◌++◌, ℕ, [], ◌∷◌, true, some, none, list_same, contains}
use hextet.Addr.{
  derive_prefix, derive_node_addr, network, check_subnet_collisions, check_collisions_from,
}
use hextet.Base.Assoc.{lookup, insert}
use hextet.Base.Bytes.{Bytes}
use hextet.Base.Bytes.Endian.{to_be_bytes, from_be_bytes}
use hextet.Base.Outcome.{Outcome, ok, err, panic}
use hextet.Config.{Env, RawPeer, RawNode, Config, ConfigError}
use hextet.Config.Loading.{
  load, validate, check_node, check_duplicates, check_conflicts, check_overlaps, check_peers,
  settings, each, each_pair,
}
use hextet.Config.Loading.Sound.{IsLoaded, load-IsLoaded}
use hextet.Config.Loading.Total.{load-ne-panic}
use hextet.Config.Parsing.{
  split_once, route_from_parts, route_from_str, parse_endpoints, parse_routes, parse_ddns,
  parse_peer, parse_peers, parse_keys,
}
use hextet.Crypto.{repeat_byte}
use hextet.Routes.{mask, zip_and, apply_mask, new_route, contains_addr, overlaps}
use hextet.Texts.{public_key_from_bytes, public_key_from_base64, network_key_from_base64}
use hextet.Tests.{toy_sha256}
use hextet.Tests.TextTests.{toy_codecs, toy_hkdf, text_base64}

-- "2001:1::/32" and the like, and an endpoint of `ip`'s octets, port and scope.
abbrev route_text : ℕ → Bytes
route_text n = 0x20 ∷ 0x01 ∷ 0 ∷ n ∷ repeat_byte 12 0 ++ b'/' ∷ 32 ∷ []

abbrev endpoint_text : ℕ → Bytes
endpoint_text n = 0x20 ∷ 0x01 ∷ repeat_byte 13 0 ++ n ∷ 0x10 ∷ 0x61 ∷ 0 ∷ 0 ∷ 0 ∷ 0 ∷ []

abbrev peer : ℕ → RawPeer
peer n = record {
  name = b'p' ∷ n ∷ [];
  public_key = text_base64.encode (repeat_byte 32 n);
  endpoints = endpoint_text n ∷ [];
  relay = some true;
  relay_port = none;
  routes = route_text n ∷ [];
  ddns = none;
  keepalive = none;
}

abbrev node : RawNode
node = record {
  key_file = b'k' ∷ [];
  listen_port = none;
  mtu = none;
  interface = none;
  probe_port = none;
  state_dir = none;
  keepalive = none;
  lan_discovery = none;
  lan_port = none;
  relay = none;
  relay_port = none;
  relay_allow = text_base64.encode (repeat_byte 32 1) ∷ [];
  gossip_port = none;
  gossip = none;
  admin_keys = text_base64.encode (repeat_byte 32 2) ∷ [];
  dht = none;
  http_addr = none;
  http_port = none;
  web_dir = none;
  ddns = some true;
  ddns_fqdn = some (b'a' ∷ b'.' ∷ b'b' ∷ []);
  ddns_provider = none;
  ddns_webhook_url = some (b'u' ∷ []);
  ddns_secret = none;
  ddns_zone = none;
  ddns_resolver = none;
}

abbrev env : Env
env = record {
  codecs = toy_codecs;
  sha256 = toy_sha256;
  hkdf = toy_hkdf;
  toml = λ text. some (record {
    network_name = text;
    network_key = text_base64.encode (repeat_byte 32 9);
    node = node;
    peers = peer 1 ∷ peer 2 ∷ [];
  });
}

abbrev value : Config → Outcome ConfigError Config → Config
value c (ok d) = d
value c (err e) = c
value c panic = c

abbrev blank : Config
unfolding settings
blank = record {
  network_name = [];
  network_key = [];
  prefix = [];
  node = settings node [] [];
  peers = [];
}

abbrev result : Outcome ConfigError Config
result = load env (some (repeat_byte 32 3)) (some (b'h' ∷ []))

loaded : result ≡ ok (value blank result)
unfolding load validate check_node check_duplicates check_conflicts check_overlaps check_peers
    settings each each_pair split_once route_from_parts route_from_str parse_endpoints parse_routes
    parse_ddns parse_peer parse_peers parse_keys mask zip_and apply_mask new_route contains_addr
    overlaps public_key_from_bytes public_key_from_base64 network_key_from_base64 list_same contains
    derive_prefix derive_node_addr network check_subnet_collisions check_collisions_from lookup
    insert to_be_bytes from_be_bytes
loaded = refl

load-IsLoaded_example : IsLoaded env (some (repeat_byte 32 3)) (value blank result)
load-IsLoaded_example = load-IsLoaded env (some (repeat_byte 32 3)) (some (b'h' ∷ [])) loaded

load-ne-panic_example : load env (some (repeat_byte 32 3)) (some (b'h' ∷ [])) ≢ panic
load-ne-panic_example = load-ne-panic env (some (repeat_byte 32 3)) (some (b'h' ∷ []))
