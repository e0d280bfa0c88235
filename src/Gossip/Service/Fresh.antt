-- ===== src/Gossip/Service/Fresh.antt =====
-- Which of some entries a table would still take: no merge makes an entry fresh again.
use hextet.Base.{
  ℕ, suc, ◌+◌, ◌≤◌, ◌≡◌, refl, sym, ap, ◌∙◌, Bool, true, not, ◌&&◌, ◌⊎◌, List, [], ◌∷◌, Option,
  none, some, if◌then◌else◌, Bool-cases, inl, inr, arith, leb, length, ◌=?◌, =?_eq, Any, ℕ_equality,
  list_equality, pair_equality, Ordering,
}
use hextet.Base.Assoc.{lookup, insert, lookup-insert, length-insert_old, length-insert_new}
use hextet.Crypto.{Ed25519}
use hextet.Gossip.Codec.{is_valid}
use hextet.Gossip.Entry.{Entry, kind_equality}
use hextet.Gossip.Store.{GossipStore, key_of, merge, max_store_entries, is_greater, lww_compare}
use hextet.Gossip.Store.Bounds.{IsStore}
use hextet.Gossip.Store.Order.{lww_compare_trans}
use hextet.Gossip.Service.{is_applied}
use hextet.Gossip.Service.Quiet.{merge-Settled}

abbrev pub is_fresh : Ed25519 → GossipStore → Entry → Bool
is_fresh e store x = is_applied (merge e store x).1

abbrev flag : Bool → ℕ
flag b = if b then 1 else 0

abbrev pub count_fresh : Ed25519 → GossipStore → List Entry → ℕ
count_fresh e store [] = 0
count_fresh e store (x ∷ xs) = flag (is_fresh e store x) + count_fresh e store xs

pub count_fresh-le :
    (e : Ed25519) (store : GossipStore) (xs : List Entry) → count_fresh e store xs ≤ length xs
count_fresh-le e store [] = omega arith
count_fresh-le e store (x ∷ xs) = ground (arith, count_fresh-le e store xs)

-- There is room for an entry: beside the others, or in the place of an older one.
abbrev room : GossipStore → Entry → Option Entry → Bool
room store x none = not (leb max_store_entries (length store))
room store x (some y) = is_greater (lww_compare x y)

is_fresh-room :
    (e : Ed25519) (store : GossipStore) (x : Entry)
    → is_fresh e store x ≡ (is_valid e x && room store x (lookup (key_of x) store))
unfolding merge
is_fresh-room e store x = ground arith

greater_eq : (o : Ordering) → is_greater o ≡ true → o ≡ Ordering.gt
greater_eq o h = ground arith

merge_fresh :
    (e : Ed25519) (store : GossipStore) (y : Entry)
    → ((merge e store y).0 ≡ store)
      ⊎ (((merge e store y).0 ≡ insert (key_of y) y store)
          × (is_valid e y ≡ true)
          × (room store y (lookup (key_of y) store) ≡ true))
unfolding merge
merge_fresh e store y = ground arith

module _ (e : Ed25519) (store : GossipStore) (is : IsStore e store) where
  same_room :
      (x y : Entry) (old : Option Entry)
      → lookup (key_of y) store ≡ old
      → is_valid e x ≡ true
      → is_valid e y ≡ true
      → is_greater (lww_compare x y) ≡ true
      → room store y old ≡ true
      → room store x old ≡ true
  same_room x y none at v w h k = k
  same_room x y (some z) at v w h k = ap is_greater (
      lww_compare_trans e x y z v w (is.held (key_of y) z at).0 (greater_eq (lww_compare x y) h)
        (greater_eq (lww_compare y z) k))

  other_room :
      (x y : Entry) (there old : Option Entry)
      → lookup (key_of y) store ≡ old
      → room (insert (key_of y) y store) x there ≡ true
      → room store x there ≡ true
  other_room x y (some z) old at h = h
  other_room x y none none at h = ground (arith, h, length-insert_new (key_of y) y store at)
  other_room x y none (some w) at h = ground (arith, h, length-insert_old (key_of y) y w store at)

  inserted_room :
      (x y : Entry)
      → is_valid e x ≡ true
      → is_valid e y ≡ true
      → room store y (lookup (key_of y) store) ≡ true
      → room (insert (key_of y) y store) x (lookup (key_of x) (insert (key_of y) y store)) ≡ true
      → room store x (lookup (key_of x) store) ≡ true
  inserted_room x y v w k h =
      let found = lookup-insert (key_of y) (key_of x) y store in
      let h' = rw found at h in
      elim (Bool-cases (key_of y =? key_of x)) [
        | inl same ↦
            let newer : is_greater (lww_compare x y) ≡ true = rw same at h' in
            ap (λ key. room store x (lookup key store)) (sym (=?_eq (key_of y) (key_of x) same))
            ∙ same_room x y (lookup (key_of y) store) refl v w newer k
        | inr other ↦
            other_room x y (lookup (key_of x) store) (lookup (key_of y) store) refl (rw other at h')
      ]

  -- What is fresh after a merge was fresh before it.
  fresh_before : (x y : Entry) → is_fresh e (merge e store y).0 x ≡ true → is_fresh e store x ≡ true
  fresh_before x y h = elim (merge_fresh e store y) [
    | inl kept ↦ ap (λ s. is_fresh e s x) (sym kept) ∙ h
    | inr (made, w, k) ↦
        let h' =
          sym (is_fresh-room e (insert (key_of y) y store) x)
          ∙ ap (λ s. is_fresh e s x) (sym made)
          ∙ h in
        let v : is_valid e x ≡ true = ground (arith, h') in
        is_fresh-room e store x ∙ ground (arith, v, inserted_room x y v w k (ground (arith, h')))
  ]

  flag_before : (x y : Entry) → flag (is_fresh e (merge e store y).0 x) ≤ flag (is_fresh e store x)
  flag_before x y = elim (Bool-cases (is_fresh e (merge e store y).0 x)) [
    | inl fresh ↦ rw (fresh, fresh_before x y fresh) (omega arith)
    | inr old ↦ rw old (omega arith)
  ]

  pub count_fresh-merge :
      (y : Entry) (xs : List Entry) → count_fresh e (merge e store y).0 xs ≤ count_fresh e store xs
  count_fresh-merge y [] = omega arith
  count_fresh-merge y (x ∷ xs) = omega (arith, flag_before x y, count_fresh-merge y xs)

  -- Merging a fresh entry leaves fewer of them.
  pub count_fresh-taken :
      (y : Entry) (xs : List Entry)
      → is_fresh e store y ≡ true
      → Any (λ x. x ≡ y) xs
      → suc (count_fresh e (merge e store y).0 xs) ≤ count_fresh e store xs
  count_fresh-taken y [] h m = absurd m
  count_fresh-taken y (x ∷ xs) h (inl here) =
      let old : flag (is_fresh e (merge e store y).0 x) ≡ 0 =
        rw here (ap flag (merge-Settled e store y).0) in
      let new : flag (is_fresh e store x) ≡ 1 = rw here (ap flag h) in
      omega (arith, old, new, count_fresh-merge y xs)
  count_fresh-taken y (x ∷ xs) h (inr later) =
      omega (arith, flag_before x y, count_fresh-taken y xs h later)
