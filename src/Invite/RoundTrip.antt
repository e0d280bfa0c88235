-- ===== src/Invite/RoundTrip.antt =====
-- An invite that is issued is decoded to itself.
use hextet.Base.{
  ◌≡◌, ◌≤◌, ◌<◌, ◌^◌, refl, sym, ap, ◌∙◌, ◌↔◌, ◌+◌, ℕ, suc, true, not, List, [], ◌∷◌, ◌++◌, All,
  map, length, contains, ltb_ge, ==_iff, ◌=?◌, =?_eq, list_same, list_same_iff, some, arith,
  ℕ_equality, list_equality,
}
use hextet.Addr.{IsIpv6Addr}
use hextet.Base.Bytes.{Bytes}
use hextet.Base.Chains.{reject_if-ok, or_err-ok}
use hextet.Base.Outcome.{ok, reject_if, or_err, >>=-eq-ok, ok_injective}
use hextet.Crypto.{PublicKey}
use hextet.Endpoint.{Endpoint}
use hextet.Invite.{
  Formats, Invite, BootstrapPeer, bad_json, issuer_mismatch, encode, decode, decode_parts,
  decode_raw, raw_invite, raw_bootstrap, token_of, invite_prefix, max_token_len, split, three_parts,
  parse_endpoints, parse_bootstrap, check_bootstrap_len, new_invite, check_not_expired,
}
use hextet.Invite.Splitting.{split_whole, split_first}
use hextet.Texts.Keys.{IsKey, public_key_from_base64-to_base64, network_key_from_base64-to_base64}

-- An endpoint that its text determines: `to_string` leaves the flow label out.
pub record IsShown (ep : Endpoint) : Type 0 where
  pub ip : IsIpv6Addr ep.ip
  pub port : ep.port < 2 ^ 16
  pub scope_id : ep.scope_id < 2 ^ 32
  pub flowinfo : ep.flowinfo ≡ 0

pub record IsBootstrap (f : Formats) (b : BootstrapPeer) : Type 0 where
  pub key : IsKey f.codecs b.public_key
  pub endpoints : All IsShown b.endpoints

pub record IsInvite (f : Formats) (i : Invite) : Type 0 where
  pub id_length : length i.id ≡ 16
  pub network_key_length : length i.network_key ≡ 32
  pub some_bootstrap : 1 ≤ length i.bootstrap
  pub few_bootstrap : length i.bootstrap ≤ 8
  pub bootstrap : All (IsBootstrap f) i.bootstrap

pub check_bootstrap_len-ok : (n : ℕ) → (check_bootstrap_len n ≡ ok tt) ↔ ((1 ≤ n) × (n ≤ 8))
unfolding check_bootstrap_len
check_bootstrap_len-ok n =
    (λ h. (ground (arith, h), ground (arith, h)), λ h. ground (arith, h.0, h.1))

module _ (f : Formats) where
  parse_endpoints-shown :
      (eps : List Endpoint)
      → All IsShown eps
      → parse_endpoints f (map f.codecs.std.show_endpoint eps) ≡ ok eps
  unfolding parse_endpoints
  parse_endpoints-shown [] v = refl
  parse_endpoints-shown (ep ∷ eps) v =
      let (one, rest) = v in
      rw
        (
          f.codecs.std.socket_addr-show_endpoint ep one.ip one.port one.scope_id one.flowinfo,
          parse_endpoints-shown eps rest,
        )
        refl

  parse_bootstrap-raw :
      (bs : List BootstrapPeer)
      → All (IsBootstrap f) bs
      → parse_bootstrap f (map (raw_bootstrap f) bs) ≡ ok bs
  unfolding parse_bootstrap
  parse_bootstrap-raw [] v = refl
  parse_bootstrap-raw (b ∷ bs) v =
      let (one, rest) = v in
      rw
        (
          public_key_from_base64-to_base64 f.codecs b.public_key one.key,
          parse_endpoints-shown b.endpoints one.endpoints,
          parse_bootstrap-raw bs rest,
        )
        refl

  length-map_bootstrap : (bs : List BootstrapPeer) → length (map (raw_bootstrap f) bs) ≡ length bs
  length-map_bootstrap [] = refl
  length-map_bootstrap (b ∷ bs) = ap suc (length-map_bootstrap bs)

  decode_raw-raw_invite :
      (payload sig : Bytes) (i : Invite)
      → IsInvite f i
      → IsKey f.codecs i.issuer
      → f.codecs.ed25519.verify i.issuer payload sig ≡ true
      → decode_raw f payload sig (raw_invite f i) ≡ ok i
  unfolding decode_raw raw_invite
  decode_raw-raw_invite payload sig i v key signed =
      let count : check_bootstrap_len (length (map (raw_bootstrap f) i.bootstrap)) ≡ ok tt =
        ap check_bootstrap_len (length-map_bootstrap i.bootstrap)
        ∙ (check_bootstrap_len-ok (length i.bootstrap)).1 (v.some_bootstrap, v.few_bootstrap) in
      rw
        (
          public_key_from_base64-to_base64 f.codecs i.issuer key,
          signed,
          count,
          f.base64url.decode-encode i.id,
          (==_iff (length i.id) 16).1 v.id_length,
          network_key_from_base64-to_base64 f.codecs i.network_key v.network_key_length,
          parse_bootstrap-raw i.bootstrap v.bootstrap,
        )
        refl

  parts-of_token :
      (json sig : Bytes)
      → three_parts (split b'.' (token_of f (f.base64url.encode json) sig))
        ≡ some (invite_prefix, f.base64url.encode json, f.base64url.encode sig)
  unfolding contains
  parts-of_token json sig =
      let payload = f.base64url.encode json in
      let tail = f.base64url.encode sig in
      ap three_parts (
        split_first b'.' invite_prefix (payload ++ b'.' ∷ tail) refl
        ∙ ap (◌∷◌ invite_prefix) (
            split_first b'.' payload tail (f.url_safe json)
            ∙ ap (◌∷◌ payload) (split_whole b'.' tail (f.url_safe sig))))

  -- What issuing came to.
  encode-token :
      (seed : Bytes) (i : Invite) {token : Bytes}
      → encode f seed i ≡ ok token
      → (f.codecs.ed25519.public seed ≡ i.issuer)
        × (json : Bytes) × (f.to_vec (raw_invite f i) ≡ some json)
        × (token_of f
              (f.base64url.encode json)
              (f.codecs.ed25519.sign seed (f.base64url.encode json))
            ≡ token)
  unfolding encode
  encode-token seed i h =
      let (one, mine, h₁) =
        >>=-eq-ok (reject_if (not (f.codecs.ed25519.public seed =? i.issuer)) issuer_mismatch) _
          h in
      let (two, _, h₂) = >>=-eq-ok (check_bootstrap_len (length i.bootstrap)) _ h₁ in
      let (json, written, made) = >>=-eq-ok (or_err (f.to_vec (raw_invite f i)) bad_json) _ h₂ in
      let same : (f.codecs.ed25519.public seed =? i.issuer) ≡ true =
        ground (arith, reject_if-ok _ _ mine) in
      (
        =?_eq {A = Bytes} _ _ same,
        json,
        or_err-ok (f.to_vec (raw_invite f i)) bad_json written,
        ok_injective made,
      )

  decode_parts-signed :
      (seed json : Bytes) (i : Invite)
      → IsInvite f i
      → f.codecs.ed25519.public seed ≡ i.issuer
      → f.to_vec (raw_invite f i) ≡ some json
      → decode_parts f (
        invite_prefix,
        f.base64url.encode json,
        f.base64url.encode (f.codecs.ed25519.sign seed (f.base64url.encode json)),
      )
        ≡ ok i
  unfolding decode_parts list_same
  decode_parts-signed seed json i v mine written =
      let payload = f.base64url.encode json in
      let sig = f.codecs.ed25519.sign seed payload in
      let key : IsKey f.codecs i.issuer = record {
        key_length = ap length (sym mine) ∙ f.codecs.ed25519.length_public seed;
        on_curve = ap f.codecs.ed25519.is_point (sym mine) ∙ f.codecs.ed25519.public_is_point seed;
      } in
      let signed : f.codecs.ed25519.verify i.issuer payload sig ≡ true =
        ap (λ k. f.codecs.ed25519.verify k payload sig) (sym mine)
        ∙ f.codecs.ed25519.verify_sign seed payload in
      rw
        (
          f.base64url.decode-encode json,
          f.base64url.decode-encode sig,
          (==_iff (length sig) 64).1 (f.codecs.ed25519.length_sign seed payload),
          f.from_slice-to_vec (raw_invite f i) written,
        )
        (decode_raw-raw_invite payload sig i v key signed)

  -- An issued token is decoded to the invite that it was made from, where the id and the keys have
  -- their lengths, endpoints no flow label, and the token does not exceed the cap on its length.
  pub decode-encode_invite :
      (seed : Bytes) (i : Invite) {token : Bytes}
      → IsInvite f i
      → encode f seed i ≡ ok token
      → length token ≤ max_token_len
      → decode f token ≡ ok i
  unfolding decode
  decode-encode_invite seed i {token} v h short =
      let (mine, json, written, made) = encode-token seed i h in
      let sig = f.codecs.ed25519.sign seed (f.base64url.encode json) in
      rw
        (
          ltb_ge max_token_len (length token) short,
          ap (λ t. three_parts (split b'.' t)) (sym made) ∙ parts-of_token json sig,
        )
        (decode_parts-signed seed json i v mine written)

  encoded :
      (seed : Bytes) (i : Invite) {json : Bytes}
      → (f.codecs.ed25519.public seed =? i.issuer) ≡ true
      → 1 ≤ length i.bootstrap
      → length i.bootstrap ≤ 8
      → f.to_vec (raw_invite f i) ≡ some json
      → encode f seed i
        ≡ ok (
            token_of f
              (f.base64url.encode json)
              (f.codecs.ed25519.sign seed (f.base64url.encode json)))
  unfolding encode
  encoded seed i {json} same low high written =
      rw (same, (check_bootstrap_len-ok (length i.bootstrap)).1 (low, high), written) refl

  -- Issuing succeeds exactly for one's own invites, with one to eight bootstrap peers.
  encode_ok_iff :
      (seed : Bytes) (i : Invite)
      → ((token : Bytes) × (encode f seed i ≡ ok token)) ↔ (
          (f.codecs.ed25519.public seed ≡ i.issuer)
          × (1 ≤ length i.bootstrap)
          × (length i.bootstrap ≤ 8))
  unfolding encode
  encode_ok_iff seed i = (
    λ made.
        let (token, h) = made in
        let (one, mine, h₁) =
          >>=-eq-ok (reject_if (not (f.codecs.ed25519.public seed =? i.issuer)) issuer_mismatch) _
            h in
        let (two, few, _) = >>=-eq-ok (check_bootstrap_len (length i.bootstrap)) _ h₁ in
        let same : (f.codecs.ed25519.public seed =? i.issuer) ≡ true =
          ground (arith, reject_if-ok _ _ mine) in
        let (low, high) = (check_bootstrap_len-ok (length i.bootstrap)).0 few in
        (=?_eq {A = Bytes} _ _ same, low, high),
    λ h.
        let (mine, low, high) = h in
        let (json, written) = f.written (raw_invite f i) in
        let same : (f.codecs.ed25519.public seed =? i.issuer) ≡ true =
          (list_same_iff (f.codecs.ed25519.public seed) i.issuer).1 mine in
        (_, encoded seed i same low high written),
  )

-- Until when a new invite holds: for the asked number of seconds, however many, on any clock of 64
-- bits; the sum's saturation never shortens it.
pub new_invite-expiry :
    (id name key : Bytes) (issuer : PublicKey) (issued ttl port : ℕ)
    (bootstrap : List BootstrapPeer) (now : ℕ)
    → now < 2 ^ 64
    → (check_not_expired (new_invite id name key issuer issued ttl port bootstrap) now ≡ ok tt)
      ↔ (now ≤ issued + ttl)
unfolding check_not_expired new_invite
new_invite-expiry id name key issuer issued ttl port bootstrap now h =
    (λ k. ground (arith, h, k), λ k. ground (arith, h, k))
