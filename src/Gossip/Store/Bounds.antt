-- ===== src/Gossip/Store/Bounds.antt =====
-- The table's invariant: a bounded map from node and kind to a valid entry of that node and kind.
use hextet.Base.{
  leb, ◌≤◌, ◌≡◌, true, length, some, Option-cases, Bool-cases, inl, inr, arith, ℕ_equality,
  list_equality, pair_equality, =?_eq,
}
use hextet.Base.Assoc.{
  lookup, insert, IsMap, insert-IsMap, lookup-insert, length-insert_old, length-insert_new,
}
use hextet.Crypto.{Ed25519, PublicKey}
use hextet.Gossip.Codec.{is_valid}
use hextet.Gossip.Entry.{Entry, Kind, kind_equality}
use hextet.Gossip.Store.{
  GossipStore, Key, key_of, merge, is_revoked, max_store_entries, is_greater, lww_compare,
}

pub record IsStore (e : Ed25519) (store : GossipStore) : Type 0 where
  pub is_map : IsMap store
  pub bounded : length store ≤ max_store_entries
  pub held :
      (k : Key) (x : Entry) → lookup k store ≡ some x → (is_valid e x ≡ true) × (key_of x ≡ k)

held_insert :
    (e : Ed25519) (store : GossipStore) (y : Entry)
    → is_valid e y ≡ true
    → ((k : Key) (x : Entry) → lookup k store ≡ some x → (is_valid e x ≡ true) × (key_of x ≡ k))
    → (k : Key) (x : Entry) → lookup k (insert (key_of y) y store) ≡ some x
    → (is_valid e x ≡ true) × (key_of x ≡ k)
held_insert e store y v held k x h =
    ground (arith, lookup-insert (key_of y) k y store, held k x, =?_eq (key_of y) k)

-- Every merge keeps the table a map of at most 512 valid entries, each under its own node and
-- kind.
pub merge-IsStore :
    (e : Ed25519) (store : GossipStore) (x : Entry)
    → IsStore e store
    → IsStore e (merge e store x).0
unfolding merge
merge-IsStore e store x s = elim (Bool-cases (is_valid e x)) [
  | inr bad ↦ rw bad s
  | inl good ↦ rw good (elim (Option-cases (lookup (key_of x) store)) [
    | inl fresh ↦ rw fresh (elim (Bool-cases (leb max_store_entries (length store))) [
      | inl full ↦ rw full s
      | inr room ↦ rw room (inserted good (ground (arith, length-insert_new (key_of x) x store)))
    ])
    | inr (y, old) ↦ rw old (elim (Bool-cases (is_greater (lww_compare x y))) [
      | inr older ↦ rw older s
      | inl newer ↦
          rw newer
            (inserted good (ground (arith, s.bounded, length-insert_old (key_of x) x y store)))
    ])
  ])
]
  where
    inserted :
        is_valid e x ≡ true
        → length (insert (key_of x) x store) ≤ max_store_entries
        → IsStore e (insert (key_of x) x store)
    inserted good small = record {
      is_map = insert-IsMap (key_of x) x store s.is_map;
      bounded = small;
      held = held_insert e store x good s.held;
    }

-- A node that is revoked is still revoked after any merge.
pub merge-is_revoked :
    (e : Ed25519) (store : GossipStore) (x : Entry) (node : PublicKey)
    → is_revoked store node ≡ true
    → is_revoked (merge e store x).0 node ≡ true
unfolding merge
merge-is_revoked e store x node h =
    ground (arith, lookup-insert (key_of x) (node, Kind.revocation) x store)
