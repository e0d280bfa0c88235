-- ===== src/Invite.antt =====
-- Invite tokens, crates/core/src/invite.rs. The token's payload is JSON; what is signed is the
-- payload's base64 text.
pub mod Splitting
pub mod RoundTrip
pub mod Checked
use hextet.Base.{
  ℕ, ◌+◌, ◌-◌, ◌^◌, ◌≤◌, ◌≡◌, Bool, true, false, not, List, [], ◌∷◌, ◌++◌, map, min, length,
  contains, ltb, ◌==◌, ◌=?◌, if◌then◌else◌, Option, none, some, ℕ_equality, list_equality,
}
use hextet.Base.Bytes.{Bytes}
use hextet.Base.Outcome.{Outcome, ok, err, ◌>>=◌, ◌>>◌, reject_if, or_err, map_err}
use hextet.Crypto.{Base64, PublicKey}
use hextet.Endpoint.{Endpoint}
use hextet.RelayServer.Forward.{SocketAddr, v4, v6}
use hextet.Texts.{
  Codecs, IdentityError, sized, to_base64, public_key_from_base64, network_key_from_base64,
}

pub record BootstrapPeer : Type 0 where
  pub name : Bytes
  pub public_key : PublicKey
  pub endpoints : List Endpoint

pub record Invite : Type 0 where
  pub id : Bytes
  pub network_name : Bytes
  pub network_key : Bytes
  pub issuer : PublicKey
  pub issued_unix : ℕ
  pub expires_unix : ℕ
  pub listen_port : ℕ
  pub bootstrap : List BootstrapPeer

pub record RawBootstrap : Type 0 where
  pub name : Bytes
  pub public_key : Bytes
  pub endpoints : List Bytes

pub record RawInvite : Type 0 where
  pub v : ℕ
  pub id : Bytes
  pub network_name : Bytes
  pub network_key : Bytes
  pub issuer : Bytes
  pub issued_unix : ℕ
  pub expires_unix : ℕ
  pub listen_port : ℕ
  pub bootstrap : List RawBootstrap

-- The JSON error's text is left out.
pub data InviteError : Type 0 where
  malformed bad_prefix bad_json bad_signature no_bootstrap issuer_mismatch : InviteError
  too_large : (len max : ℕ) → InviteError
  bad_version : ℕ → InviteError
  bad_key : IdentityError → InviteError
  too_many_bootstrap : ℕ → InviteError
  ipv4_endpoint bad_endpoint : Bytes → InviteError
  expired : (expires_unix now_unix : ℕ) → InviteError

-- `serde_json` on `RawInvite`, and base64url, whose texts have no dot.
pub record Formats : Type 0 where
  pub codecs : Codecs
  pub to_vec : RawInvite → Option Bytes
  pub from_slice : Bytes → Option RawInvite
  pub written : (raw : RawInvite) → (json : Bytes) × (to_vec raw ≡ some json)
  pub from_slice-to_vec :
      (raw : RawInvite) {json : Bytes} → to_vec raw ≡ some json → from_slice json ≡ some raw
  pub base64url : Base64
  pub url_safe : (raw : Bytes) → contains (base64url.encode raw) b'.' ≡ false

-- "hxi1".
abbrev pub invite_prefix : Bytes
invite_prefix = b'h' ∷ b'x' ∷ b'i' ∷ b'1' ∷ []

abbrev pub max_token_len : ℕ
max_token_len = 8192

-- `Invite::new`, with the random id; `saturating_add` on u64.
unfoldable pub new_invite :
    Bytes → Bytes → Bytes → PublicKey → ℕ → ℕ → ℕ → List BootstrapPeer → Invite
new_invite id network_name network_key issuer issued_unix ttl_secs listen_port bootstrap = record {
  id = id;
  network_name = network_name;
  network_key = network_key;
  issuer = issuer;
  issued_unix = issued_unix;
  expires_unix = min (issued_unix + ttl_secs) (2 ^ 64 - 1);
  listen_port = listen_port;
  bootstrap = bootstrap;
}

unfoldable pub check_bootstrap_len : ℕ → Outcome InviteError (Unit {0})
check_bootstrap_len len =
    if len == 0 then err no_bootstrap else if ltb 8 len then err (too_many_bootstrap len) else ok tt

abbrev pub raw_bootstrap : Formats → BootstrapPeer → RawBootstrap
raw_bootstrap f b = record {
  name = b.name;
  public_key = to_base64 f.codecs b.public_key;
  endpoints = map f.codecs.std.show_endpoint b.endpoints;
}

unfoldable pub raw_invite : Formats → Invite → RawInvite
raw_invite f i = record {
  v = 1;
  id = f.base64url.encode i.id;
  network_name = i.network_name;
  network_key = to_base64 f.codecs i.network_key;
  issuer = to_base64 f.codecs i.issuer;
  issued_unix = i.issued_unix;
  expires_unix = i.expires_unix;
  listen_port = i.listen_port;
  bootstrap = map (raw_bootstrap f) i.bootstrap;
}

abbrev pub token_of : Formats → Bytes → Bytes → Bytes
token_of f payload sig = invite_prefix ++ b'.' ∷ (payload ++ b'.' ∷ f.base64url.encode sig)

-- `Invite::encode`; the issuer is its seed.
unfoldable pub encode : Formats → Bytes → Invite → Outcome InviteError Bytes
encode f seed i = do
  reject_if (not (f.codecs.ed25519.public seed =? i.issuer)) issuer_mismatch
  check_bootstrap_len (length i.bootstrap)
  json ← or_err (f.to_vec (raw_invite f i)) bad_json
  ok (token_of f (f.base64url.encode json) (f.codecs.ed25519.sign seed (f.base64url.encode json)))

abbrev pub push : ℕ → List Bytes → List Bytes
push c [] = (c ∷ []) ∷ []
push c (part ∷ parts) = (c ∷ part) ∷ parts

-- `str::split`.
unfoldable pub split : ℕ → Bytes → List Bytes
split b [] = [] ∷ []
split b (c ∷ text) = let rest = split b text in if c == b then [] ∷ rest else push c rest

abbrev pub three_parts : List Bytes → Option (Bytes × Bytes × Bytes)
three_parts [] = none
three_parts (a ∷ []) = none
three_parts (a ∷ b ∷ []) = none
three_parts (a ∷ b ∷ c ∷ []) = some (a, b, c)
three_parts (a ∷ b ∷ c ∷ d ∷ parts) = none

abbrev pub endpoint_of_addr : Bytes → Option SocketAddr → Outcome InviteError Endpoint
endpoint_of_addr e none = err (bad_endpoint e)
endpoint_of_addr e (some v4) = err (ipv4_endpoint e)
endpoint_of_addr e (some (v6 ep)) = ok ep

unfoldable pub parse_endpoints : Formats → List Bytes → Outcome InviteError (List Endpoint)
parse_endpoints f [] = ok []
parse_endpoints f (e ∷ texts) = do
  ep ← endpoint_of_addr e (f.codecs.std.socket_addr e)
  rest ← parse_endpoints f texts
  ok (ep ∷ rest)

unfoldable pub parse_bootstrap :
    Formats → List RawBootstrap → Outcome InviteError (List BootstrapPeer)
parse_bootstrap f [] = ok []
parse_bootstrap f (rb ∷ raw) = do
  public_key ← map_err bad_key (public_key_from_base64 f.codecs rb.public_key)
  endpoints ← parse_endpoints f rb.endpoints
  rest ← parse_bootstrap f raw
  ok (record { name = rb.name; public_key = public_key; endpoints = endpoints } ∷ rest)

-- From the deserialized payload on.
unfoldable pub decode_raw : Formats → Bytes → Bytes → RawInvite → Outcome InviteError Invite
decode_raw f payload sig raw = do
  reject_if (not (raw.v == 1)) (bad_version raw.v)
  issuer ← map_err bad_key (public_key_from_base64 f.codecs raw.issuer)
  reject_if (not (f.codecs.ed25519.verify issuer payload sig)) bad_signature
  check_bootstrap_len (length raw.bootstrap)
  id_bytes ← or_err (f.base64url.decode raw.id) malformed
  id ← sized 16 malformed id_bytes
  network_key ← map_err bad_key (network_key_from_base64 f.codecs raw.network_key)
  bootstrap ← parse_bootstrap f raw.bootstrap
  ok (record {
    id = id;
    network_name = raw.network_name;
    network_key = network_key;
    issuer = issuer;
    issued_unix = raw.issued_unix;
    expires_unix = raw.expires_unix;
    listen_port = raw.listen_port;
    bootstrap = bootstrap;
  })

unfoldable pub decode_parts : Formats → Bytes × Bytes × Bytes → Outcome InviteError Invite
decode_parts f (prefix, payload, sig_b64) = do
  reject_if (not (prefix =? invite_prefix)) bad_prefix
  json ← or_err (f.base64url.decode payload) malformed
  sig_bytes ← or_err (f.base64url.decode sig_b64) malformed
  sig ← sized 64 malformed sig_bytes
  raw ← or_err (f.from_slice json) bad_json
  decode_raw f payload sig raw

-- `Invite::decode`.
unfoldable pub decode : Formats → Bytes → Outcome InviteError Invite
decode f token = do
  reject_if (ltb max_token_len (length token)) (too_large (length token) max_token_len)
  parts ← or_err (three_parts (split b'.' token)) malformed
  decode_parts f parts

unfoldable pub check_not_expired : Invite → ℕ → Outcome InviteError (Unit {0})
check_not_expired i now_unix =
    reject_if (ltb i.expires_unix now_unix) (expired i.expires_unix now_unix)
