-- ===== src/Base/Bytes/Cut.antt =====
-- The slices and bytes of a buffer that is known to hold `n` bytes at least.
use Prim.Native.Nat.{ℕ, ◌+◌, ◌-◌, ◌^◌, ◌≤◌, ◌<◌}
use mathlib.Core.Path.{◌≡◌, ap, sym, ◌∙◌, subst}
use mathlib.Core.List.{List, [], ◌∷◌, ◌++◌}
use native.Mathlib.Omega.{arith}
use hextet.Base.Lists.{length, take, drop, length-take, length-drop}
use hextet.Base.Outcome.{ok, ok_injective}
use hextet.Base.Bytes.{Bytes, AreBytes, concat}
use hextet.Base.Bytes.Endian.{
  to_be_bytes, from_be_bytes, from_be_bytes-lt, to_be_bytes-from_be_bytes,
}
use hextet.Base.Bytes.Slice.{cut, slice, slice_in, byte_at_in, get_or}
use hextet.Base.Bytes.Glue.{
  AreBytes-take, AreBytes-drop, slice_byte, Layout, end, slice-Layout, slice-glue, take-slice,
}

module _ (E : Type 0) (bytes : Bytes) (n : ℕ) (long : n ≤ length bytes) where
  pub slice-cut : (a b : ℕ) → a ≤ b → b ≤ n → slice {E = E} bytes a b ≡ ok (cut bytes a b)
  slice-cut a b l m = slice_in bytes a b l (omega (arith, long))

  pub cut_byte : (i : ℕ) → i < n → slice {E = E} bytes i (i + 1) ≡ ok (get_or bytes i 0 ∷ [])
  cut_byte i l = slice_byte bytes i (byte_at_in bytes i (omega (arith, long)))

  pub cut_end : Layout E bytes n n []
  cut_end = end long

  pub concat-Layout :
      {ps : List Bytes} (a b : ℕ)
      → a ≤ b
      → b ≤ n
      → Layout E bytes b a ps
      → cut bytes a b ≡ concat ps
  concat-Layout a b l m ps = ok_injective {E = E} (sym (slice-cut a b l m) ∙ slice-Layout ps)

  -- Two layouts that meet make up the front of the buffer.
  pub take-Layout :
      {ps : List Bytes} (a b : ℕ)
      → a ≤ b
      → b ≤ n
      → Layout E bytes a 0 ps
      → take b bytes ≡ concat ps ++ cut bytes a b
  take-Layout a b l m ps =
      take-slice bytes b (slice-glue bytes 0 a b (slice-Layout ps) (slice-cut a b l m))

module _ (bytes : Bytes) (n : ℕ) (long : n ≤ length bytes) where
  pub length-cut : (a b : ℕ) → a ≤ b → b ≤ n → length (cut bytes a b) ≡ b - a
  unfolding cut
  length-cut a b l m = length-take (b - a) (drop a bytes) (omega (arith, length-drop a bytes, long))

module _ (bytes : Bytes) (bs : AreBytes bytes) where
  pub AreBytes-cut : (a b : ℕ) → AreBytes (cut bytes a b)
  unfolding cut
  AreBytes-cut a b = AreBytes-take (b - a) (drop a bytes) (AreBytes-drop a bytes bs)

  -- An integer that was read from the buffer is written back as it was.
  pub be_cut :
      {v : ℕ} (a b w : ℕ)
      → length (cut bytes a b) ≡ w
      → v ≡ from_be_bytes (cut bytes a b)
      → (cut bytes a b ≡ to_be_bytes w v) × (v < 256 ^ w)
  be_cut a b w e q = (
    sym (ap (to_be_bytes w) q ∙ to_be_bytes-from_be_bytes (cut bytes a b) w (AreBytes-cut a b) e),
    subst (λ k. k < 256 ^ w) (sym q) (from_be_bytes-lt (cut bytes a b) w (AreBytes-cut a b) e),
  )
