-- ===== src/Config/Loading/Checks.antt =====
-- Loops of checks: what holds when they pass, and when they cannot panic.
use hextet.Base.{◌≡◌, ◌≢◌, List, [], ◌∷◌, All}
use hextet.Base.Chains.{Pairwise, >>=-panic}
use hextet.Base.Outcome.{Outcome, ok, panic, >>=-eq-ok}
use hextet.Config.Loading.{each, each_pair}

pub each-ok {ℓ} :
    {E : Type 0} {A : Type ℓ} (check : A → Outcome E (Unit {0})) (xs : List A)
    → each check xs ≡ ok tt
    → All (λ x. check x ≡ ok tt) xs
unfolding each
each-ok check [] h = tt
each-ok check (x ∷ xs) h =
    let (done, passed, rest) = >>=-eq-ok (check x) (λ _. each check xs) h in
    (passed, each-ok check xs rest)

pub each_pair-ok {ℓ} :
    {E : Type 0} {A : Type ℓ} (check : A → A → Outcome E (Unit {0})) (xs : List A)
    → each_pair check xs ≡ ok tt
    → Pairwise (λ x y. check x y ≡ ok tt) xs
unfolding each_pair
each_pair-ok check [] h = tt
each_pair-ok check (x ∷ xs) h =
    let (done, passed, rest) = >>=-eq-ok (each (check x) xs) (λ _. each_pair check xs) h in
    (each-ok (check x) xs passed, each_pair-ok check xs rest)

pub each-panic {ℓ} :
    {E : Type 0} {A : Type ℓ} (check : A → Outcome E (Unit {0})) (xs : List A)
    → All (λ x. check x ≢ panic) xs
    → each check xs ≢ panic
unfolding each
each-panic check [] v = λ p. cc p
each-panic check (x ∷ xs) v =
    >>=-panic (check x) (λ _. each check xs) v.0 (λ _ _. each-panic check xs v.1)

pub each_pair-panic {ℓ} :
    {E : Type 0} {A : Type ℓ} (check : A → A → Outcome E (Unit {0})) (xs : List A)
    → Pairwise (λ x y. check x y ≢ panic) xs
    → each_pair check xs ≢ panic
unfolding each_pair
each_pair-panic check [] v = λ p. cc p
each_pair-panic check (x ∷ xs) v =
    >>=-panic (each (check x) xs) (λ _. each_pair check xs) (each-panic (check x) xs v.0)
      (λ _ _. each_pair-panic check xs v.1)
