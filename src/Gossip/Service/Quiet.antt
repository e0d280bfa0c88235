-- ===== src/Gossip/Service/Quiet.antt =====
-- Merging an entry again, and what an admission does to the store.
use hextet.Base.{
  ℕ, ◌≡◌, ◌≢◌, ◌⊎◌, refl, ap, sym, subst, true, false, Bool-cases, Option-cases, inl, inr, arith,
  leb, length, =?_self, ℕ_equality, list_equality, pair_equality, Ordering,
}
use hextet.Addr.{NodeAddr, AddrError, derive_node_addr}
use hextet.Base.Assoc.{lookup, insert, lookup-insert}
use hextet.Base.Bytes.{Bytes}
use hextet.Base.Outcome.{Outcome, ok, err, panic}
use hextet.Crypto.{Ed25519, PublicKey}
use hextet.Gossip.Codec.{is_valid}
use hextet.Gossip.Entry.{Entry, kind_equality}
use hextet.Gossip.Store.{
  GossipStore, Key, MergeOutcome, applied, stale, invalid, rejected, key_of, merge,
  max_store_entries, is_greater, lww_compare,
}
use hextet.Gossip.Store.Order.{lww_compare_irrefl}
use hextet.Gossip.Service.{GossipConfig, is_applied, admit, handle_entry}

not_greater : (o : Ordering) → o ≢ Ordering.gt → is_greater o ≡ false
not_greater Ordering.lt h = refl
not_greater Ordering.eq h = refl
not_greater Ordering.gt h = absurd (h refl)

-- A merge that changes nothing the second time.
abbrev Settled : Ed25519 → Entry → GossipStore → Type 0
Settled e x store = (is_applied (merge e store x).1 ≡ false) × ((merge e store x).0 ≡ store)

inserted-Settled :
    (e : Ed25519) (store : GossipStore) (x : Entry)
    → is_valid e x ≡ true
    → Settled e x (insert (key_of x) x store)
unfolding merge
inserted-Settled e store x v =
    rw
      (
        v,
        lookup-insert (key_of x) (key_of x) x store,
        =?_self {A = Key} (key_of x),
        not_greater (lww_compare x x) (lww_compare_irrefl e x v),
      )
      (refl, refl)

pub merge_cases :
    (e : Ed25519) (store : GossipStore) (x : Entry)
    → ((o : MergeOutcome) × (merge e store x ≡ (store, o)) × (is_applied o ≡ false))
      ⊎ ((merge e store x ≡ (insert (key_of x) x store, applied)) × (is_valid e x ≡ true))
unfolding merge
merge_cases e store x = elim (Bool-cases (is_valid e x)) [
  | inr bad ↦ rw bad (inl (invalid, refl, refl))
  | inl good ↦ elim (Option-cases (lookup (key_of x) store)) [
    | inl fresh ↦ elim (Bool-cases (leb max_store_entries (length store))) [
      | inl full ↦ rw (good, fresh, full) (inl (rejected, refl, refl))
      | inr room ↦ rw (good, fresh, room) (inr (refl, refl))
    ]
    | inr (y, old) ↦ elim (Bool-cases (is_greater (lww_compare x y))) [
      | inr older ↦ rw (good, old, older) (inl (stale, refl, refl))
      | inl newer ↦ rw (good, old, newer) (inr (refl, refl))
    ]
  ]
]

pub merge-Settled :
    (e : Ed25519) (store : GossipStore) (x : Entry) → Settled e x (merge e store x).0
merge-Settled e store x = elim (merge_cases e store x) [
  | inl (o, unchanged, idle) ↦
      subst (Settled e x) (sym (ap (λ m. m.0) unchanged)) (rw unchanged (idle, refl))
  | inr (inserted, good) ↦
      subst (Settled e x) (sym (ap (λ m. m.0) inserted)) (inserted-Settled e store x good)
]

module _ (c : GossipConfig) where
  admit_store :
      (node : PublicKey) (name : Bytes) (store : GossipStore) (o : Outcome AddrError NodeAddr)
      → (admit node name store o).1 ≡ store
  admit_store node name store (ok a) = refl
  admit_store node name store (err e) = refl
  admit_store node name store panic = refl

  pub member_store :
      (store : GossipStore) (node : PublicKey) (name : Bytes) (site seq : ℕ) (sig : Bytes)
      (issued_by : PublicKey) (invite_id : Bytes)
      → let x = Entry.member node name site seq sig issued_by invite_id in
        (handle_entry c store x).1 ≡ (merge c.ed25519 store x).0
  unfolding handle_entry
  member_store store node name site seq sig issued_by invite_id =
      let m = merge c.ed25519 store (Entry.member node name site seq sig issued_by invite_id) in
      ground (arith, admit_store node name m.0 (derive_node_addr c.sha256 c.prefix node))
