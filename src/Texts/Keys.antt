-- ===== src/Texts/Keys.antt =====
-- The text forms of keys, read back.
use hextet.Base.{
  ◌≡◌, ◌≢◌, refl, sym, ap, ◌∙◌, Bool-cases, inl, inr, true, ℕ, length, ◌==◌, ==_iff, if◌then◌else◌,
  arith,
}
use hextet.Base.Bytes.{Bytes}
use hextet.Base.Outcome.{ok, err, panic, or_err, >>=-eq-ok}
use hextet.Base.Chains.{>>=-panic, or_err-panic}
use hextet.Crypto.{PublicKey}
use hextet.Texts.{
  Codecs, IdentityError, sized, to_base64, public_key_from_bytes, public_key_from_base64,
  network_key_from_base64,
}

-- A public key that was read from text.
pub record IsKey (c : Codecs) (key : PublicKey) : Type 0 where
  pub key_length : length key ≡ 32
  pub on_curve : c.ed25519.is_point key ≡ true

pub sized-ok :
    {E : Type 0} (n : ℕ) (e : E) (raw : Bytes) {key : Bytes}
    → sized n e raw ≡ ok key
    → (length raw ≡ n) × (raw ≡ key)
sized-ok n e raw h = elim (Bool-cases (length raw == n)) [
  | inl same ↦ ((==_iff _ _).0 same, ground (arith, same, h))
  | inr other ↦ absurd (ground (arith, other, h))
]

pub public_key_from_base64-IsKey :
    (c : Codecs) (text : Bytes) {key : PublicKey}
    → public_key_from_base64 c text ≡ ok key
    → IsKey c key
unfolding public_key_from_base64 public_key_from_bytes
public_key_from_base64-IsKey c text {key} h =
    let (bytes, decoded, h₁) =
      >>=-eq-ok (or_err (c.base64.decode (c.std.trim text)) IdentityError.invalid_encoding) _ h in
    let (raw, right_size, point) = >>=-eq-ok (sized 32 IdentityError.invalid_encoding bytes) _ h₁ in
    let size = sized-ok 32 IdentityError.invalid_encoding bytes right_size in
    let on_curve : (raw ≡ key) × (c.ed25519.is_point raw ≡ true) = by_test raw point in
    record {
      key_length = ap length (sym (size.1 ∙ on_curve.0)) ∙ size.0;
      on_curve = ap c.ed25519.is_point (sym on_curve.0) ∙ on_curve.1;
    }
  where
    by_test :
        (raw : Bytes)
        → (if c.ed25519.is_point raw then ok raw else err IdentityError.invalid_public_key) ≡ ok key
        → (raw ≡ key) × (c.ed25519.is_point raw ≡ true)
    by_test raw e = ground (arith, e)

pub public_key_from_base64-panic :
    (c : Codecs) (text : Bytes) → public_key_from_base64 c text ≢ panic
unfolding public_key_from_base64 public_key_from_bytes
public_key_from_base64-panic c text =
    >>=-panic (or_err (c.base64.decode (c.std.trim text)) IdentityError.invalid_encoding) _
      (or_err-panic _ _)
      (λ bytes _.
        >>=-panic (sized 32 IdentityError.invalid_encoding bytes) _ (λ h. ground (arith, h))
          (λ raw _ h. ground (arith, h)))

pub sized-eq : {E : Type 0} (n : ℕ) (e : E) (raw : Bytes) → length raw ≡ n → sized n e raw ≡ ok raw
sized-eq n e raw h = rw ((==_iff (length raw) n).1 h) refl

-- What is written is read back.
pub public_key_from_base64-to_base64 :
    (c : Codecs) (key : PublicKey)
    → IsKey c key
    → public_key_from_base64 c (to_base64 c key) ≡ ok key
unfolding public_key_from_base64 public_key_from_bytes
public_key_from_base64-to_base64 c key v =
    rw
      (
        c.trimmed key,
        c.base64.decode-encode key,
        (==_iff (length key) 32).1 v.key_length,
        v.on_curve,
      )
      refl

pub network_key_from_base64-to_base64 :
    (c : Codecs) (key : Bytes)
    → length key ≡ 32
    → network_key_from_base64 c (to_base64 c key) ≡ ok key
unfolding network_key_from_base64
network_key_from_base64-to_base64 c key h =
    rw (c.trimmed key, c.base64.decode-encode key, (==_iff (length key) 32).1 h) refl
