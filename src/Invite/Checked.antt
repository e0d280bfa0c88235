-- ===== src/Invite/Checked.antt =====
-- What a token that was decoded is known to be.
use hextet.Base.{
  ◌≡◌, ◌≤◌, refl, sym, ap, ◌∙◌, subst, suc, true, not, List, [], ◌∷◌, All, length, ltb, ◌==◌, ◌=?◌,
  =?_eq, some, arith, ℕ_equality, list_equality,
}
use hextet.Base.Bytes.{Bytes}
use hextet.Base.Chains.{reject_if-ok, map_err-ok, or_err-ok}
use hextet.Base.Outcome.{ok, reject_if, or_err, map_err, >>=-eq-ok, ok_injective}
use hextet.Invite.{
  Formats, Invite, BootstrapPeer, RawBootstrap, RawInvite, malformed, bad_prefix, bad_json,
  bad_signature, bad_version, bad_key, too_large, decode, decode_parts, decode_raw, invite_prefix,
  max_token_len, split, three_parts, parse_endpoints, parse_bootstrap, check_bootstrap_len,
}
use hextet.Invite.RoundTrip.{check_bootstrap_len-ok}
use hextet.Texts.Keys.{IsKey, sized-ok, public_key_from_base64-IsKey}
use hextet.Texts.{sized, public_key_from_base64, network_key_from_base64}

-- The payload is under the issuer's signature, and what it says is in bounds.
pub record IsSigned (f : Formats) (token : Bytes) (i : Invite) : Type 0 where
  pub short : length token ≤ max_token_len
  pub payload : Bytes
  pub sig_text : Bytes
  pub sig : Bytes
  pub three : split b'.' token ≡ invite_prefix ∷ payload ∷ sig_text ∷ []
  pub sig_decoded : f.base64url.decode sig_text ≡ some sig
  pub verified : f.codecs.ed25519.verify i.issuer payload sig ≡ true
  pub issuer_key : IsKey f.codecs i.issuer
  pub id_length : length i.id ≡ 16
  pub some_bootstrap : 1 ≤ length i.bootstrap
  pub few_bootstrap : length i.bootstrap ≤ 8
  pub bootstrap : All (λ b. IsKey f.codecs b.public_key) i.bootstrap

three_parts-eq :
    (parts : List Bytes) {a b c : Bytes}
    → three_parts parts ≡ some (a, b, c)
    → parts ≡ a ∷ b ∷ c ∷ []
three_parts-eq [] h = absurd (cc h)
three_parts-eq (a ∷ []) h = absurd (cc h)
three_parts-eq (a ∷ b ∷ []) h = absurd (cc h)
three_parts-eq (a ∷ b ∷ c ∷ []) h = cc h
three_parts-eq (a ∷ b ∷ c ∷ d ∷ parts) h = absurd (cc h)

module _ (f : Formats) where
  parse_bootstrap-AreKeys :
      (raw : List RawBootstrap) {bs : List BootstrapPeer}
      → parse_bootstrap f raw ≡ ok bs
      → (length bs ≡ length raw) × All (λ b. IsKey f.codecs b.public_key) bs
  unfolding parse_bootstrap
  parse_bootstrap-AreKeys [] {bs} h =
      subst (λ bs. (length bs ≡ 0) × All (λ b. IsKey f.codecs b.public_key) bs) (ok_injective h)
        (refl, tt)
  parse_bootstrap-AreKeys (rb ∷ raw) {bs} h =
      let (key, is_key, h₁) =
        >>=-eq-ok (map_err bad_key (public_key_from_base64 f.codecs rb.public_key)) _ h in
      let (endpoints, _, h₂) = >>=-eq-ok (parse_endpoints f rb.endpoints) _ h₁ in
      let (rest, others, made) = >>=-eq-ok (parse_bootstrap f raw) _ h₂ in
      let (same, keys) = parse_bootstrap-AreKeys raw others in
      subst (λ bs. (length bs ≡ length (rb ∷ raw)) × All (λ b. IsKey f.codecs b.public_key) bs)
        (ok_injective made)
        (
          ap suc same,
          (public_key_from_base64-IsKey f.codecs rb.public_key (map_err-ok _ _ is_key), keys),
        )

  record IsChecked (payload sig : Bytes) (i : Invite) : Type 0 where
    verified : f.codecs.ed25519.verify i.issuer payload sig ≡ true
    issuer_key : IsKey f.codecs i.issuer
    id_length : length i.id ≡ 16
    some_bootstrap : 1 ≤ length i.bootstrap
    few_bootstrap : length i.bootstrap ≤ 8
    bootstrap : All (λ b. IsKey f.codecs b.public_key) i.bootstrap

  decode_raw-IsChecked :
      (payload sig : Bytes) (raw : RawInvite) {i : Invite}
      → decode_raw f payload sig raw ≡ ok i
      → IsChecked payload sig i
  unfolding decode_raw
  decode_raw-IsChecked payload sig raw {i} h =
      let (one, _, h₁) = >>=-eq-ok (reject_if (not (raw.v == 1)) (bad_version raw.v)) _ h in
      let (issuer, is_key, h₂) =
        >>=-eq-ok (map_err bad_key (public_key_from_base64 f.codecs raw.issuer)) _ h₁ in
      let (two, verified, h₃) =
        >>=-eq-ok (reject_if (not (f.codecs.ed25519.verify issuer payload sig)) bad_signature) _
          h₂ in
      let (three, counted, h₄) = >>=-eq-ok (check_bootstrap_len (length raw.bootstrap)) _ h₃ in
      let (id_bytes, _, h₅) = >>=-eq-ok (or_err (f.base64url.decode raw.id) malformed) _ h₄ in
      let (id, right_size, h₆) = >>=-eq-ok (sized 16 malformed id_bytes) _ h₅ in
      let (key, _, h₇) =
        >>=-eq-ok (map_err bad_key (network_key_from_base64 f.codecs raw.network_key)) _ h₆ in
      let (peers, are_peers, made) = >>=-eq-ok (parse_bootstrap f raw.bootstrap) _ h₇ in
      let (same, keys) = parse_bootstrap-AreKeys raw.bootstrap are_peers in
      let (size, id_same) = sized-ok 16 malformed id_bytes right_size in
      let count = (check_bootstrap_len-ok (length raw.bootstrap)).0 counted in
      subst (IsChecked payload sig) (ok_injective made) (record {
        verified = ground (arith, reject_if-ok _ _ verified);
        issuer_key = public_key_from_base64-IsKey f.codecs raw.issuer (map_err-ok _ _ is_key);
        id_length = ap length (sym id_same) ∙ size;
        some_bootstrap = omega (arith, same, count.0);
        few_bootstrap = omega (arith, same, count.1);
        bootstrap = keys;
      })

  -- Decoding accepts a token only with its three parts, the prefix, a length within the cap, and the
  -- issuer's signature over the payload as it was sent; with an id of 16 bytes, one to eight
  -- bootstrap peers and valid keys of the issuer and of these peers.
  pub decode-IsSigned : (token : Bytes) {i : Invite} → decode f token ≡ ok i → IsSigned f token i
  unfolding decode decode_parts
  decode-IsSigned token {i} h =
      let (one, short, h₁) =
        >>=-eq-ok
          (reject_if (ltb max_token_len (length token)) (too_large (length token) max_token_len)) _
          h in
      let ((prefix, payload, sig_text), three, h₂) =
        >>=-eq-ok (or_err (three_parts (split b'.' token)) malformed) _ h₁ in
      let (two, right_prefix, h₃) =
        >>=-eq-ok (reject_if (not (prefix =? invite_prefix)) bad_prefix) _ h₂ in
      let (json, _, h₄) = >>=-eq-ok (or_err (f.base64url.decode payload) malformed) _ h₃ in
      let (sig_bytes, decoded, h₅) =
        >>=-eq-ok (or_err (f.base64url.decode sig_text) malformed) _ h₄ in
      let (sig, right_size, h₆) = >>=-eq-ok (sized 64 malformed sig_bytes) _ h₅ in
      let (raw, _, h₇) = >>=-eq-ok (or_err (f.from_slice json) bad_json) _ h₆ in
      let same : (prefix =? invite_prefix) ≡ true = ground (arith, reject_if-ok _ _ right_prefix) in
      let (size, sig_same) = sized-ok 64 malformed sig_bytes right_size in
      let checked = decode_raw-IsChecked payload sig raw h₇ in
      let parts = three_parts-eq (split b'.' token) (or_err-ok _ _ three) in
      record {
        short = ground (arith, reject_if-ok _ _ short);
        payload = payload;
        sig_text = sig_text;
        sig = sig;
        three = parts ∙ ap (λ p. p ∷ payload ∷ sig_text ∷ []) (=?_eq {A = Bytes} _ _ same);
        sig_decoded = or_err-ok _ _ decoded ∙ ap some sig_same;
        verified = checked.verified;
        issuer_key = checked.issuer_key;
        id_length = checked.id_length;
        some_bootstrap = checked.some_bootstrap;
        few_bootstrap = checked.few_bootstrap;
        bootstrap = checked.bootstrap;
      }
