-- ===== src/Crypto.antt =====
-- The cryptography that the program takes from other crates, as interfaces: HMAC-SHA256 (crates
-- hmac and sha2) and ed25519 (ed25519-dalek, behind crates/core/src/identity.rs). Each is a record
-- of operations with the documented facts that the code relies on; concrete instances show that
-- the facts can hold.
use hextet.Base.{
  ℕ, zero, suc, ◌+◌, ◌*◌, ◌%◌, ap, =?_self, =?_eq, length-take, ℕ_equality, list_equality, ◌≡◌,
  refl, Bool, true, ◌&&◌, Option, some, [], ◌∷◌, ◌++◌, ltb, leb, ◌=?◌, take, length, arith,
}
use hextet.Base.Bytes.{Bytes, AreBytes}

-- `Mac::finalize` over `new_from_slice(key)` and `update(message)`: 32 bytes.
pub record Hmac : Type 0 where
  pub tag : Bytes → Bytes → Bytes
  pub length_tag : (key message : Bytes) → length (tag key message) ≡ 32

-- `verify_truncated_left`: a tag that is empty or longer than the output is an error, and
-- otherwise it is compared with that many bytes of the output.
abbrev pub verify_truncated_left : Hmac → Bytes → Bytes → Bytes → Bool
verify_truncated_left h key message t =
    ltb 0 (length t) && leb (length t) 32 && (t =? take (length t) (h.tag key message))

pub verified_tag :
    (h : Hmac) (key message t : Bytes) (n : ℕ)
    → verify_truncated_left h key message t ≡ true
    → length t ≡ n
    → t ≡ take n (h.tag key message)
verified_tag h key message t n v e =
    rw (← e) (=?_eq {A = Bytes} t (take (length t) (h.tag key message)) (ground arith))

pub tag_verifies :
    (h : Hmac) (key message : Bytes)
    → verify_truncated_left h key message (take 16 (h.tag key message)) ≡ true
tag_verifies h key message =
    rw (length-take 16 (h.tag key message) (omega (arith, h.length_tag key message)))
      (=?_self (take 16 (h.tag key message)))

-- A public key is the 32 bytes of `as_bytes`; `from_bytes` accepts those that are a curve point.
-- Two keys are equal when their bytes are.
abbrev pub PublicKey : Type 0
PublicKey = Bytes

-- `VerifyingKey::from_bytes`, `SigningKey::sign` and `verify_strict`. A seed is 32 bytes.
pub record Ed25519 : Type 0 where
  pub is_point : Bytes → Bool
  pub public : Bytes → PublicKey
  pub sign : Bytes → Bytes → Bytes
  pub verify : PublicKey → Bytes → Bytes → Bool
  pub length_public : (seed : Bytes) → length (public seed) ≡ 32
  pub public_is_point : (seed : Bytes) → is_point (public seed) ≡ true
  pub length_sign : (seed message : Bytes) → length (sign seed message) ≡ 64
  pub verify_sign : (seed message : Bytes) → verify (public seed) message (sign seed message) ≡ true

-- What `NodePublicKey` holds.
pub record IsPublicKey (e : Ed25519) (key : PublicKey) : Type 0 where
  pub key_length : length key ≡ 32
  pub key_bytes : AreBytes key
  pub on_curve : e.is_point key ≡ true

-- Concrete instances: a MAC that folds key and message into one byte, and signatures that repeat
-- a checksum. They are no cryptography; they show that the laws can be met, and run in tests.
abbrev pub checksum : Bytes → ℕ
checksum [] = 7
checksum (b ∷ bs) = (b * 3 + 5 * checksum bs) % 251

abbrev pub repeat_byte : ℕ → ℕ → Bytes
repeat_byte zero b = []
repeat_byte (suc n) b = b ∷ repeat_byte n b

pub length-repeat_byte : (n b : ℕ) → length (repeat_byte n b) ≡ n
length-repeat_byte zero b = refl
length-repeat_byte (suc n) b = ap suc (length-repeat_byte n b)

abbrev pub toy_hmac : Hmac
toy_hmac = record {
  tag = λ key message. repeat_byte 32 (checksum (key ++ message));
  length_tag = λ key message. length-repeat_byte 32 (checksum (key ++ message));
}

abbrev pub toy_ed25519 : Ed25519
toy_ed25519 = record {
  is_point = λ key. true;
  public = λ seed. repeat_byte 32 (checksum seed);
  sign = λ seed message. repeat_byte 64 (checksum (repeat_byte 32 (checksum seed) ++ message));
  verify = λ key message sig. sig =? repeat_byte 64 (checksum (key ++ message));
  length_public = λ seed. length-repeat_byte 32 (checksum seed);
  public_is_point = λ seed. refl;
  length_sign =
      λ seed message. length-repeat_byte 64 (checksum (repeat_byte 32 (checksum seed) ++ message));
  verify_sign = λ seed message.
      =?_self {A = Bytes} (repeat_byte 64 (checksum (repeat_byte 32 (checksum seed) ++ message)));
}

-- A codec of binary data as text, of the crate base64: the text of each byte string is decoded to it.
pub record Base64 : Type 0 where
  pub encode : Bytes → Bytes
  pub decode : Bytes → Option Bytes
  pub decode-encode : (raw : Bytes) → decode (encode raw) ≡ some raw

pub encode_injective : (b : Base64) (x y : Bytes) → b.encode x ≡ b.encode y → x ≡ y
encode_injective b x y h = cc (b.decode-encode x, b.decode-encode y, ap b.decode h)

-- The text is the data itself.
abbrev pub toy_base64 : Base64
toy_base64 = record { encode = λ raw. raw; decode = λ text. some text; decode-encode = λ raw. refl }
