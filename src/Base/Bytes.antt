-- ===== src/Base/Bytes.antt =====
-- Byte strings: slices that panic out of bounds, big-endian integers of any width, and the
-- lexicographic order of slices.
pub mod Endian
pub mod Slice
pub mod Glue
pub mod Cut
pub mod Frame
pub mod Order
use Prim.Native.Nat.{ℕ, ◌<◌}
use mathlib.Core.List.{List, [], ◌∷◌, ◌++◌}

abbrev pub Bytes : Type 0
Bytes = List ℕ

abbrev pub IsByte : ℕ → Type 0
IsByte b = b < 256

abbrev pub AreBytes : Bytes → Type 0
AreBytes [] = Unit {0}
AreBytes (b ∷ bs) = IsByte b × AreBytes bs

-- A buffer that was filled by one `extend_from_slice` after another.
abbrev pub concat : List Bytes → Bytes
concat [] = []
concat (p ∷ ps) = p ++ concat ps
