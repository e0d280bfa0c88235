-- ===== src/Base/Utf8.antt =====
-- `std::str::from_utf8`: well-formed UTF-8, byte by byte. A Rust `String` is modelled by its bytes.
use hextet.Base.Tests.{leb, if◌then◌else◌}
use hextet.Base.Bytes.{Bytes}
use Prim.Native.Nat.{ℕ, zero, suc}
use mathlib.Core.Bool.{Bool, true, false, ◌&&◌}
use mathlib.Core.List.{[], ◌∷◌}
use mathlib.Core.Option.{Option, none, some}

-- Between two characters, or with bytes to come: the first of them from a range, then as many
-- continuation bytes as the number says.
pub data State : Type 0 where
  start : State
  within : ℕ → ℕ → ℕ → State

abbrev between : ℕ → ℕ → ℕ → Bool
between lo hi c = leb lo c && leb c hi

lead : ℕ → Option State
lead c =
    if leb c 0x7f
    then some start
    else if between 0xc2 0xdf c
    then some (within 0x80 0xbf 0)
    else if between 0xe0 0xe0 c
    then some (within 0xa0 0xbf 1)
    else if between 0xed 0xed c
    then some (within 0x80 0x9f 1)
    else if between 0xe1 0xef c
    then some (within 0x80 0xbf 1)
    else if between 0xf0 0xf0 c
    then some (within 0x90 0xbf 2)
    else if between 0xf1 0xf3 c
    then some (within 0x80 0xbf 2)
    else if between 0xf4 0xf4 c
    then some (within 0x80 0x8f 2)
    else none

step : State → ℕ → Option State
unfolding lead
step start c = lead c
step (within lo hi zero) c = if between lo hi c then some start else none
step (within lo hi (suc n)) c = if between lo hi c then some (within 0x80 0xbf n) else none

run : State → Bytes → Bool
run start [] = true
run (within _ _ _) [] = false
run s (c ∷ cs) = elim (step s c) [ none ↦ false | some t ↦ run t cs ]

unfoldable pub is_utf8 : Bytes → Bool
unfolding run step
is_utf8 bs = run start bs
