-- ===== src/Gossip/Store/Convergence.antt =====
-- The store's order-free view: histories of merges that are permutations of each other.
use hextet.Base.{
  ap, ◌≤◌, ◌≡◌, refl, sym, List, length, Option, none, some, ◌↔◌, All, [], ◌∷◌, inl, inr, subst,
}
use hextet.Base.Assoc.{lookup}
use hextet.Crypto.{Ed25519}
use hextet.Gossip.Entry.{Entry, IsTyped, kind_equality}
use hextet.Gossip.Store.{Key, replay, max_store_entries}
use hextet.Gossip.Store.Order.{lww_compare_antisym}
use hextet.Gossip.Store.Winner.{Has, IsWinner, lookup-replay}
use hextet.Base.{ℕ_equality, list_equality, pair_equality}

module _ (e : Ed25519) where
  All-Has :
      (history : List Entry) (x : Entry) → All (IsTyped e) history → Has x history → IsTyped e x
  All-Has [] x all h = absurd h
  All-Has (y ∷ history) x all (inl q) = subst (IsTyped e) (sym q) all.0
  All-Has (y ∷ history) x all (inr there) = All-Has history x all.1 there

  unique_winner :
      (xs ys : List Entry) (k : Key) (o p : Option Entry)
      → All (IsTyped e) xs
      → All (IsTyped e) ys
      → ((x : Entry) → Has x xs ↔ Has x ys)
      → IsWinner e xs k o
      → IsWinner e ys k p
      → o ≡ p
  unique_winner xs ys k none none t u same v w = refl
  unique_winner xs ys k none (some b) t u same v w =
      let c = w.candidate b refl in
      let found = v.best b ((same b).1 c.0, c.1, c.2) in absurd (cc found.1)
  unique_winner xs ys k (some a) none t u same v w =
      let c = v.candidate a refl in
      let found = w.best a ((same a).0 c.0, c.1, c.2) in absurd (cc found.1)
  unique_winner xs ys k (some a) (some b) t u same v w =
      let c = v.candidate a refl in
      let d = w.candidate b refl in
      let first = w.best a ((same a).0 c.0, c.1, c.2) in
      let second = v.best b ((same b).1 d.0, d.1, d.2) in
      let q : b ≡ first.0 = cc first.1 in
      let r : a ≡ second.0 = cc second.1 in
      ap some (
        lww_compare_antisym e a b (All-Has xs a t c.0) (All-Has ys b u d.0) c.1 d.1 (rw q first.2)
          (rw r second.2))

  -- Two nodes that merged the same well-typed entries, each in at most 512 merges, in any order
  -- and with any repetitions, hold the same entry, or none, under every key.
  pub replay_convergent :
      (xs ys : List Entry) (k : Key)
      → All (IsTyped e) xs
      → All (IsTyped e) ys
      → length xs ≤ max_store_entries
      → length ys ≤ max_store_entries
      → ((x : Entry) → Has x xs ↔ Has x ys)
      → lookup k (replay e xs) ≡ lookup k (replay e ys)
  replay_convergent xs ys k t u m n same =
      unique_winner xs ys k (lookup k (replay e xs)) (lookup k (replay e ys)) t u same
        (lookup-replay e xs k m) (lookup-replay e ys k n)
