-- ===== src/Invite/Splitting.antt =====
-- Splitting a text at a byte.
use hextet.Base.{◌≡◌, refl, ℕ, true, false, [], ◌∷◌, ◌++◌, contains, ◌==◌, arith, ℕ_equality}
use hextet.Base.Bytes.{Bytes}
use hextet.Invite.{split}

pub split_whole : (b : ℕ) (text : Bytes) → contains text b ≡ false → split b text ≡ text ∷ []
unfolding split contains
split_whole b [] h = refl
split_whole b (c ∷ text) h =
    let other : (c == b) ≡ false = ground (arith, h) in
    let rest : contains text b ≡ false = ground (arith, h) in
    rw (other, split_whole b text rest) refl

pub split_first :
    (b : ℕ) (text rest : Bytes)
    → contains text b ≡ false
    → split b (text ++ b ∷ rest) ≡ text ∷ split b rest
unfolding split contains
split_first b [] rest h = let same : (b == b) ≡ true = ground arith in rw same refl
split_first b (c ∷ text) rest h =
    let other : (c == b) ≡ false = ground (arith, h) in
    let later : contains text b ≡ false = ground (arith, h) in
    rw (other, split_first b text rest later) refl
