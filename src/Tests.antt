-- ===== src/Tests.antt =====
-- Concrete inputs on which the theorems' hypotheses hold.
mod GossipTests
mod WireTests
mod PeerTests
mod RelayTests
mod RouteTests
mod ServiceTests
mod NetworkTests
mod LanTests
mod ResponderTests
mod ClientTests
pub mod TextTests
mod ConfigTests
mod InviteTests
mod DaemonTests
use hextet.Base.{ℕ, zero, suc, ◌%◌, ◌<◌, ◌≡◌, refl, arith, Bool, true, ◌&&◌, [], ◌∷◌, ltb}
use hextet.Base.Bytes.{Bytes, AreBytes}
use hextet.Addr.{Sha256}
use hextet.Crypto.{repeat_byte, toy_ed25519, IsPublicKey, length-repeat_byte, checksum}

pub AreBytes-repeat_byte : (n b : ℕ) → b < 256 → AreBytes (repeat_byte n b)
AreBytes-repeat_byte zero b h = tt
AreBytes-repeat_byte (suc n) b h = (h, AreBytes-repeat_byte n b h)

pub repeat_byte-IsPublicKey : (b : ℕ) → b < 256 → IsPublicKey toy_ed25519 (repeat_byte 32 b)
repeat_byte-IsPublicKey b h = record {
  key_length = length-repeat_byte 32 b;
  key_bytes = AreBytes-repeat_byte 32 b h;
  on_curve = refl;
}

-- A test for concrete bytes.
abbrev pub are_bytes : Bytes → Bool
are_bytes [] = true
are_bytes (b ∷ bs) = ltb b 256 && are_bytes bs

pub are_bytes-AreBytes : (bs : Bytes) → are_bytes bs ≡ true → AreBytes bs
are_bytes-AreBytes [] h = tt
are_bytes-AreBytes (b ∷ bs) h = (ground (arith, h), are_bytes-AreBytes bs (ground (arith, h)))

-- A digest that repeats a checksum.
pub small_bytes : (n m : ℕ) → AreBytes (repeat_byte n (m % 256))
small_bytes n m = AreBytes-repeat_byte n (m % 256) (omega arith)

abbrev pub toy_sha256 : Sha256
toy_sha256 = record {
  digest = λ message. repeat_byte 32 (checksum message % 256);
  digest_length = λ message. length-repeat_byte 32 (checksum message % 256);
  digest_bytes = λ message. small_bytes 32 (checksum message);
}
