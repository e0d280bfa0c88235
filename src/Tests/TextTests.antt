-- ===== src/Tests/TextTests.antt =====
-- Concrete codecs: addresses as their octets, numbers as one byte, base64 text as the data.
use hextet.Base.{
  ◌≡◌, ◌<◌, ◌^◌, ◌++◌, refl, ap, sym, ◌∙◌, ℕ, [], ◌∷◌, arith, true, false, ◌&&◌, Option, none, some,
  length, take, drop, take_append, drop_append, ltb, ◌==◌, ==_iff, if◌then◌else◌, ℕ_equality,
  list_equality, ◌%◌,
}
use hextet.Addr.{Ipv6Addr, IsIpv6Addr, Hkdf}
use hextet.Base.Bytes.{Bytes}
use hextet.Base.Bytes.Endian.{
  to_be_bytes, from_be_bytes, length-to_be_bytes, from_be_bytes-to_be_bytes,
}
use hextet.Base.Outcome.{ok}
use hextet.Crypto.{repeat_byte, Base64, toy_ed25519, checksum, length-repeat_byte}
use hextet.Endpoint.{Endpoint}
use hextet.RelayServer.Forward.{SocketAddr, v6}
use hextet.Tests.{small_bytes, are_bytes, are_bytes-AreBytes}
use hextet.Base.Assoc.{lookup}
use hextet.Texts.KeyFiles.{Medium, write_new, save, load, load-save}
use hextet.Texts.{Std, Codecs}

abbrev read_ipv6_addr : Bytes → Option Ipv6Addr
read_ipv6_addr text = if length text == 16 && are_bytes text then some text else none

pub read_ipv6_addr-IsIpv6Addr :
    (text : Bytes) {a : Ipv6Addr} → read_ipv6_addr text ≡ some a → IsIpv6Addr a
read_ipv6_addr-IsIpv6Addr text {a} h =
    let same : text ≡ a = ground (arith, h) in
    let size : (length text == 16) ≡ true = ground (arith, h) in
    let octets : are_bytes text ≡ true = ground (arith, h) in
    record {
      octet_count = ap length (sym same) ∙ (==_iff _ _).0 size;
      octets = are_bytes-AreBytes a (ap are_bytes (sym same) ∙ octets);
    }

abbrev read_u8 : Bytes → Option ℕ
read_u8 [] = none
read_u8 (b ∷ text) = if ltb b 256 then some b else none

pub read_u8_small : (text : Bytes) {n : ℕ} → read_u8 text ≡ some n → n < 2 ^ 8
read_u8_small [] h = absurd (cc h)
read_u8_small (b ∷ text) h = ground (arith, h)

abbrev show_endpoint : Endpoint → Bytes
show_endpoint ep = ep.ip ++ (to_be_bytes 2 ep.port ++ to_be_bytes 4 ep.scope_id)

abbrev read_endpoint : Bytes → Option SocketAddr
read_endpoint text = some (
    v6 (record {
      ip = take 16 text;
      port = from_be_bytes (take 2 (drop 16 text));
      flowinfo = 0;
      scope_id = from_be_bytes (drop 2 (drop 16 text));
    }))

pub read_endpoint-show_endpoint :
    (ep : Endpoint)
    → IsIpv6Addr ep.ip
    → ep.port < 2 ^ 16
    → ep.scope_id < 2 ^ 32
    → ep.flowinfo ≡ 0
    → read_endpoint (show_endpoint ep) ≡ some (v6 ep)
read_endpoint-show_endpoint ep valid port scope flow =
    let rest = to_be_bytes 2 ep.port ++ to_be_bytes 4 ep.scope_id in
    let ip : take 16 (show_endpoint ep) ≡ ep.ip =
      take_append 16 ep.ip rest (sym valid.octet_count) in
    let after : drop 16 (show_endpoint ep) ≡ rest =
      drop_append 16 ep.ip rest (sym valid.octet_count) in
    let two = sym (length-to_be_bytes 2 ep.port) in
    let first : take 2 rest ≡ to_be_bytes 2 ep.port =
      take_append 2 (to_be_bytes 2 ep.port) (to_be_bytes 4 ep.scope_id) two in
    let second : drop 2 rest ≡ to_be_bytes 4 ep.scope_id =
      drop_append 2 (to_be_bytes 2 ep.port) (to_be_bytes 4 ep.scope_id) two in
    rw
      (
        ip,
        after,
        first,
        second,
        from_be_bytes-to_be_bytes 2 ep.port port,
        from_be_bytes-to_be_bytes 4 ep.scope_id scope,
        sym flow,
      )
      refl

-- A final line feed is white space; base64 texts end in a zero.
abbrev trim_line : Bytes → Bytes
trim_line [] = []
trim_line (b ∷ []) = if b == b'\n' then [] else b ∷ []
trim_line (b ∷ c ∷ text) = b ∷ trim_line (c ∷ text)

abbrev drop_last : Bytes → Bytes
drop_last [] = []
drop_last (b ∷ []) = []
drop_last (b ∷ c ∷ text) = b ∷ drop_last (c ∷ text)

pub drop_last-snoc : (raw : Bytes) → drop_last (raw ++ 0 ∷ []) ≡ raw
drop_last-snoc [] = refl
drop_last-snoc (b ∷ []) = refl
drop_last-snoc (b ∷ c ∷ raw) = ap (◌∷◌ b) (drop_last-snoc (c ∷ raw))

pub trim_line-text : (raw : Bytes) → trim_line (raw ++ 0 ∷ []) ≡ raw ++ 0 ∷ []
trim_line-text [] = refl
trim_line-text (b ∷ []) = refl
trim_line-text (b ∷ c ∷ raw) = ap (◌∷◌ b) (trim_line-text (c ∷ raw))

pub trim_line-line : (raw : Bytes) → trim_line ((raw ++ 0 ∷ []) ++ b'\n' ∷ []) ≡ raw ++ 0 ∷ []
trim_line-line [] = refl
trim_line-line (b ∷ []) = refl
trim_line-line (b ∷ c ∷ raw) = ap (◌∷◌ b) (trim_line-line (c ∷ raw))

abbrev pub text_base64 : Base64
text_base64 = record {
  encode = λ raw. raw ++ 0 ∷ [];
  decode = λ text. some (drop_last text);
  decode-encode = λ raw. ap some (drop_last-snoc raw);
}

abbrev pub toy_std : Std
toy_std = record {
  trim = trim_line;
  has_whitespace = λ text. false;
  socket_addr = read_endpoint;
  ipv6_addr = read_ipv6_addr;
  is_ipv4_addr = λ text. false;
  u8 = read_u8;
  show_endpoint = show_endpoint;
  ipv6_addr-IsIpv6Addr = λ {text} h. read_ipv6_addr-IsIpv6Addr text h;
  u8_small = λ {text} h. read_u8_small text h;
  socket_addr-show_endpoint = read_endpoint-show_endpoint;
}

abbrev pub toy_codecs : Codecs
toy_codecs = record {
  std = toy_std;
  base64 = text_base64;
  ed25519 = toy_ed25519;
  trimmed = trim_line-text;
  trimmed_line = trim_line-line;
}

abbrev pub toy_hkdf : Hkdf
toy_hkdf = record {
  expand = λ key info n. repeat_byte n (checksum key % 256);
  expand_length = λ key info n. length-repeat_byte n (checksum key % 256);
  expand_bytes = λ key info n. small_bytes n (checksum key);
}

abbrev seed : Bytes
seed = repeat_byte 32 4

abbrev medium : Medium
medium = record { creatable = λ path. true; readable = λ path. true; fails_after = λ path. none }

abbrev path : Bytes
path = b'k' ∷ []

load-save_example : load toy_codecs medium (save toy_codecs medium [] path seed).0 path ≡ ok seed
unfolding save write_new lookup
load-save_example = load-save toy_codecs medium [] path seed refl refl refl
