-- ===== src/Gossip/Store/Winner.antt =====
-- What the table holds after a history of merges, said without running the merges.
use hextet.Base.{
  ◌≤◌, ◌<◌, ◌≡◌, ◌≢◌, refl, sym, ◌⊎◌, inl, inr, arith, true, false, List, [], ◌∷◌, length, suc,
  Option, none, some, Ordering, Bool-cases, if◌then◌else◌, ◌=?◌, =?_eq, =?_ne, ℕ_equality,
  list_equality, pair_equality,
}
use hextet.Base.Assoc.{lookup, lookup-insert, length-insert-le}
use hextet.Crypto.{Ed25519}
use hextet.Gossip.Codec.{is_valid}
use hextet.Gossip.Entry.{Entry, kind_equality}
use hextet.Gossip.Store.{
  GossipStore, Key, key_of, merge, replay, max_store_entries, lww_compare, is_greater,
}
use hextet.Gossip.Store.Order.{lww_compare_trans, lww_compare_irrefl}

abbrev pub Has : Entry → List Entry → Type 0
Has x [] = ⊥
Has x (y ∷ ys) = (x ≡ y) ⊎ Has x ys

module _ (e : Ed25519) where
  -- A candidate for a key: in the history, valid, and of that key.
  abbrev pub Candidate : List Entry → Key → Entry → Type 0
  Candidate history k x = Has x history × (is_valid e x ≡ true) × (key_of x ≡ k)

  pub record IsWinner (history : List Entry) (k : Key) (o : Option Entry) : Type 0 where
    pub candidate : (y : Entry) → o ≡ some y → Candidate history k y
    pub best :
        (x : Entry)
        → Candidate history k x
        → (y : Entry) × (o ≡ some y) × (lww_compare x y ≢ Ordering.gt)

  -- The winner of what was there and one more candidate.
  abbrev better : Entry → Option Entry → Option Entry
  better x none = some x
  better x (some y) = if is_greater (lww_compare x y) then some x else some y

  lookup-merge_invalid :
      (store : GossipStore) (x : Entry) → is_valid e x ≡ false → (merge e store x).0 ≡ store
  unfolding merge
  lookup-merge_invalid store x h = rw h refl

  lookup-merge :
      (store : GossipStore) (x : Entry) (k : Key)
      → is_valid e x ≡ true
      → length store < max_store_entries
      → lookup k (merge e store x).0
        ≡ (if key_of x =? k then better x (lookup k store) else lookup k store)
  unfolding merge
  lookup-merge store x k v small =
      ground (arith, lookup-insert (key_of x) k x store, =?_eq (key_of x) k)

  length-merge : (store : GossipStore) (x : Entry) → length (merge e store x).0 ≤ suc (length store)
  unfolding merge
  length-merge store x = ground (arith, length-insert-le (key_of x) x store)

  length-replay : (history : List Entry) → length (replay e history) ≤ length history
  unfolding replay
  length-replay [] = omega arith
  length-replay (x ∷ history) =
      omega (arith, length-replay history, length-merge (replay e history) x)

  -- A winner is also the winner when an entry that is no candidate joins.
  others :
      (history : List Entry) (x : Entry) (k : Key) (o : Option Entry)
      → (Candidate (x ∷ history) k x → ⊥)
      → IsWinner history k o
      → IsWinner (x ∷ history) k o
  others history x k o bar w = record {
    candidate = λ y h. let c = w.candidate y h in (inr c.0, c.1, c.2);
    best = λ y c. elim c.0 [
      | inl q ↦ absurd (bar (inl refl, rw (sym q) c.1, rw (sym q) c.2))
      | inr there ↦ w.best y (there, c.1, c.2)
    ];
  }

  -- And `better` finds the winner when the new entry is a candidate.
  first :
      (history : List Entry) (x : Entry) (k : Key)
      → is_valid e x ≡ true
      → key_of x ≡ k
      → IsWinner history k none
      → IsWinner (x ∷ history) k (some x)
  first history x k v q w = record {
    candidate = λ y h. let same : x ≡ y = cc h in rw (sym same) (inl refl, v, q);
    best = λ y c. elim c.0 [
      | inl same ↦ (x, refl, rw same (lww_compare_irrefl e x v))
      | inr there ↦ let found = w.best y (there, c.1, c.2) in absurd (cc found.1)
    ];
  }

  replaces :
      (history : List Entry) (x z : Entry) (k : Key)
      → is_valid e x ≡ true
      → key_of x ≡ k
      → lww_compare x z ≡ Ordering.gt
      → IsWinner history k (some z)
      → IsWinner (x ∷ history) k (some x)
  replaces history x z k v q newer w = record {
    candidate = λ y h. let same : x ≡ y = cc h in rw (sym same) (inl refl, v, q);
    best = λ y c. elim c.0 [
      | inl same ↦ (x, refl, rw same (lww_compare_irrefl e x v))
      | inr there ↦
          let found = w.best y (there, c.1, c.2) in
          let z_valid = (w.candidate z refl).1 in
          let same : z ≡ found.0 = cc found.1 in
          (x, refl, λ h. found.2 (rw (sym same) (lww_compare_trans e y x z c.1 v z_valid h newer)))
    ];
  }

  keeps :
      (history : List Entry) (x z : Entry) (k : Key)
      → lww_compare x z ≢ Ordering.gt
      → IsWinner history k (some z)
      → IsWinner (x ∷ history) k (some z)
  keeps history x z k older w = record {
    candidate = λ y h. let c = w.candidate y h in (inr c.0, c.1, c.2);
    best = λ y c. elim c.0 [
      | inl same ↦ (z, refl, rw same older)
      | inr there ↦ w.best y (there, c.1, c.2)
    ];
  }

  better-IsWinner :
      (history : List Entry) (x : Entry) (k : Key) (o : Option Entry)
      → is_valid e x ≡ true
      → key_of x ≡ k
      → IsWinner history k o
      → IsWinner (x ∷ history) k (better x o)
  better-IsWinner history x k none v q w = first history x k v q w
  better-IsWinner history x k (some z) v q w = elim (Bool-cases (is_greater (lww_compare x z))) [
    | inl newer ↦ rw newer (replaces history x z k v q (ground (arith, newer)) w)
    | inr older ↦ rw older (keeps history x z k (λ h. ground (arith, older, h)) w)
  ]

  -- A history of at most 512 merges leaves each key's winner in the table.
  pub lookup-replay :
      (history : List Entry) (k : Key)
      → length history ≤ max_store_entries
      → IsWinner history k (lookup k (replay e history))
  unfolding replay lookup
  lookup-replay [] k small = record { candidate = λ y h. absurd (cc h); best = λ y c. absurd c.0 }
  lookup-replay (x ∷ history) k small =
      let held = lookup-replay history k (omega (arith, small)) in
      let room : length (replay e history) < max_store_entries =
        omega (arith, small, length-replay history) in
      elim (Bool-cases (is_valid e x)) [
        | inr bad ↦
            rw (lookup-merge_invalid (replay e history) x bad)
              (others history x k (lookup k (replay e history)) (λ c. absurd (cc (c.1, bad))) held)
        | inl good ↦
            rw (lookup-merge (replay e history) x k good room) (elim (Bool-cases (key_of x =? k)) [
              | inl same ↦ rw same (
                  better-IsWinner history x k (lookup k (replay e history)) good
                    (=?_eq (key_of x) k same) held)
              | inr other ↦ rw other (
                  others history x k (lookup k (replay e history))
                    (λ c. absurd (=?_ne (key_of x) k other c.2)) held)
            ])
      ]
