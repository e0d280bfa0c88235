-- ===== src/Config/Parsing.antt =====
-- Texts to values: `Ipv6Route::from_str` of crates/core/src/route.rs, and what `Config::load` does with
-- each peer and each list of keys.
use hextet.Base.{
  is_empty, ℕ, Bool, false, not, ◌&&◌, ◌||◌, List, [], ◌∷◌, ◌++◌, contains, ◌==◌, if◌then◌else◌,
  Option, none, some, ℕ_equality, list_equality,
}
use hextet.Addr.{derive_node_addr}
use hextet.Base.Bytes.{Bytes}
use hextet.Base.Outcome.{Outcome, ok, err, ◌>>=◌, ◌>>◌, reject_if, or_err, map_err}
use hextet.Config.{
  Env, RawPeer, Peer, ConfigError, bad_key, ipv4_endpoint, bad_endpoint, bad_route, duplicate_route,
  bad_ddns_fqdn, relay_without_endpoint, addr,
}
use hextet.Crypto.{PublicKey}
use hextet.Endpoint.{Endpoint}
use hextet.RelayServer.Forward.{SocketAddr, v4, v6}
use hextet.Routes.{Ipv6Route, RouteError, invalid, ipv4, new_route, route_equality}
use hextet.Texts.{Std, public_key_from_base64}

-- `str::split_once`.
unfoldable pub split_once : ℕ → Bytes → Option (Bytes × Bytes)
split_once b [] = none
split_once b (c ∷ text) =
    let rest = split_once b text in
    if c == b
    then some ([], text)
    else elim rest [ none ↦ none | some (before, after) ↦ some (c ∷ before, after) ]

unfoldable pub route_from_parts :
    Std → Bytes → Option (Bytes × Bytes) → Outcome RouteError Ipv6Route
route_from_parts std s none = err (invalid s)
route_from_parts std s (some (addr_str, len_str)) = do
  reject_if (contains addr_str b'.' || std.is_ipv4_addr addr_str) (ipv4 s)
  prefix ← or_err (std.ipv6_addr addr_str) (invalid s)
  len ← or_err (std.u8 len_str) (invalid s)
  new_route prefix len

-- `Ipv6Route::from_str`.
unfoldable pub route_from_str : Std → Bytes → Outcome RouteError Ipv6Route
route_from_str std s = route_from_parts std s (split_once b'/' s)

abbrev pub endpoint_of_addr : Bytes → Bytes → Option SocketAddr → Outcome ConfigError Endpoint
endpoint_of_addr name e none = err (bad_endpoint name e)
endpoint_of_addr name e (some v4) = err (ipv4_endpoint name e)
endpoint_of_addr name e (some (v6 ep)) = ok ep

unfoldable pub parse_endpoints : Std → Bytes → List Bytes → Outcome ConfigError (List Endpoint)
parse_endpoints std name [] = ok []
parse_endpoints std name (e ∷ texts) = do
  ep ← endpoint_of_addr name e (std.socket_addr e)
  rest ← parse_endpoints std name texts
  ok (ep ∷ rest)

-- The loop over `rp.routes`, with the routes so far.
unfoldable pub parse_routes :
    Std → Bytes → List Ipv6Route → List Bytes → Outcome ConfigError (List Ipv6Route)
parse_routes std name routes [] = ok routes
parse_routes std name routes (r ∷ texts) = do
  route ← map_err (bad_route name r) (route_from_str std r)
  reject_if (contains routes route) (duplicate_route name r)
  parse_routes std name (routes ++ route ∷ []) texts

abbrev pub first : Bytes → Option ℕ
first [] = none
first (b ∷ text) = some b

abbrev pub last : Bytes → Option ℕ
last [] = none
last (b ∷ []) = some b
last (b ∷ c ∷ text) = last (c ∷ text)

abbrev pub is_byte : ℕ → Option ℕ → Bool
is_byte b none = false
is_byte b (some c) = c == b

-- `starts_with('.')` and `ends_with('.')` look at one byte, since '.' is one.
abbrev pub is_bad_fqdn : Std → Bytes → Bool
is_bad_fqdn std fqdn =
    std.has_whitespace fqdn
    || not (contains fqdn b'.')
    || is_byte b'.' (first fqdn)
    || is_byte b'.' (last fqdn)

abbrev pub fqdn_of : Std → Bytes → Bytes → Outcome ConfigError (Option Bytes)
fqdn_of std name [] = ok none
fqdn_of std name (b ∷ fqdn) =
    if is_bad_fqdn std (b ∷ fqdn) then err (bad_ddns_fqdn name) else ok (some (b ∷ fqdn))

unfoldable pub parse_ddns : Std → Bytes → Option Bytes → Outcome ConfigError (Option Bytes)
parse_ddns std name none = ok none
parse_ddns std name (some text) = fqdn_of std name (std.trim text)

abbrev pub unwrap_or {ℓ} : {A : Type ℓ} → Option A → A → A
unwrap_or none a = a
unwrap_or (some b) a = b

abbrev pub default_relay_port : ℕ
default_relay_port = 4196

-- The body of the loop over `raw.peers`.
unfoldable pub parse_peer : Env → Bytes → RawPeer → Outcome ConfigError Peer
parse_peer env prefix rp = do
  public_key ← map_err (bad_key rp.name) (public_key_from_base64 env.codecs rp.public_key)
  endpoints ← parse_endpoints env.codecs.std rp.name rp.endpoints
  routes ← parse_routes env.codecs.std rp.name [] rp.routes
  ddns ← parse_ddns env.codecs.std rp.name rp.ddns
  node_addr ← map_err addr (derive_node_addr env.sha256 prefix public_key)
  reject_if (unwrap_or rp.relay false && is_empty endpoints) (relay_without_endpoint rp.name)
  ok (record {
    name = rp.name;
    public_key = public_key;
    endpoints = endpoints;
    addr = node_addr;
    relay = unwrap_or rp.relay false;
    relay_port = unwrap_or rp.relay_port default_relay_port;
    routes = routes;
    ddns = ddns;
    keepalive = rp.keepalive;
  })

unfoldable pub parse_peers : Env → Bytes → List RawPeer → Outcome ConfigError (List Peer)
parse_peers env prefix [] = ok []
parse_peers env prefix (rp ∷ raw) = do
  p ← parse_peer env prefix rp
  rest ← parse_peers env prefix raw
  ok (p ∷ rest)

-- The loops over `relay_allow` and `admin_keys`; the error's name is the label with the key.
unfoldable pub parse_keys :
    Env → (Bytes → Bytes) → List Bytes → Outcome ConfigError (List PublicKey)
parse_keys env label [] = ok []
parse_keys env label (key ∷ keys) = do
  public_key ← map_err (bad_key (label key)) (public_key_from_base64 env.codecs key)
  rest ← parse_keys env label keys
  ok (public_key ∷ rest)
