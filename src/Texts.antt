-- ===== src/Texts.antt =====
-- What the code takes from the standard library on texts, as an interface: a text is the list of its
-- UTF-8 bytes. And the base64 forms of keys, crates/core/src/identity.rs and network.rs.
pub mod Keys
pub mod KeyFiles
use hextet.Base.{
  ℕ, ◌^◌, ◌<◌, ◌≡◌, Bool, List, [], ◌∷◌, ◌++◌, length, ◌==◌, if◌then◌else◌, Option, none, some,
}
use hextet.Addr.{Ipv6Addr, IsIpv6Addr}
use hextet.Base.Bytes.{Bytes}
use hextet.Base.Outcome.{Outcome, ok, err, ◌>>=◌, ◌>>◌, or_err, reject_if}
use hextet.Crypto.{Base64, Ed25519, PublicKey}
use hextet.Endpoint.{Endpoint}
use hextet.RelayServer.Forward.{SocketAddr, v6}

-- `str::trim`, `char::is_whitespace` on some character, and the parsers of `std::net` and of `u8`;
-- `SocketAddrV6::to_string`, which leaves the flow label out.
pub record Std : Type 0 where
  pub trim : Bytes → Bytes
  pub has_whitespace : Bytes → Bool
  pub socket_addr : Bytes → Option SocketAddr
  pub ipv6_addr : Bytes → Option Ipv6Addr
  pub is_ipv4_addr : Bytes → Bool
  pub u8 : Bytes → Option ℕ
  pub show_endpoint : Endpoint → Bytes
  pub ipv6_addr-IsIpv6Addr : {text : Bytes} {a : Ipv6Addr} → ipv6_addr text ≡ some a → IsIpv6Addr a
  pub u8_small : {text : Bytes} {n : ℕ} → u8 text ≡ some n → n < 2 ^ 8
  pub socket_addr-show_endpoint :
      (ep : Endpoint)
      → IsIpv6Addr ep.ip
      → ep.port < 2 ^ 16
      → ep.scope_id < 2 ^ 32
      → ep.flowinfo ≡ 0
      → socket_addr (show_endpoint ep) ≡ some (v6 ep)

-- The crates' functions that the text forms rest on; base64 text has no whitespace.
pub record Codecs : Type 0 where
  pub std : Std
  pub base64 : Base64
  pub ed25519 : Ed25519
  pub trimmed : (raw : Bytes) → std.trim (base64.encode raw) ≡ base64.encode raw
  pub trimmed_line : (raw : Bytes) → std.trim (base64.encode raw ++ b'\n' ∷ []) ≡ base64.encode raw

pub data IdentityError : Type 0 where
  io invalid_encoding invalid_public_key : IdentityError

-- `bytes.try_into()` to an array of `n` bytes.
abbrev pub sized {ℓ} : {E : Type ℓ} → ℕ → E → Bytes → Outcome E Bytes
sized n e raw = if length raw == n then ok raw else err e

-- `NodePublicKey::from_bytes`, `from_base64` and `to_base64`.
unfoldable pub public_key_from_bytes : Codecs → Bytes → Outcome IdentityError PublicKey
public_key_from_bytes c raw = if c.ed25519.is_point raw then ok raw else err invalid_public_key

unfoldable pub public_key_from_base64 : Codecs → Bytes → Outcome IdentityError PublicKey
public_key_from_base64 c text = do
  bytes ← or_err (c.base64.decode (c.std.trim text)) invalid_encoding
  raw ← sized 32 invalid_encoding bytes
  public_key_from_bytes c raw

abbrev pub to_base64 : Codecs → Bytes → Bytes
to_base64 c raw = c.base64.encode raw

-- `NetworkKey::from_base64`: any 32 bytes.
unfoldable pub network_key_from_base64 : Codecs → Bytes → Outcome IdentityError Bytes
network_key_from_base64 c text = do
  bytes ← or_err (c.base64.decode (c.std.trim text)) invalid_encoding
  sized 32 invalid_encoding bytes
