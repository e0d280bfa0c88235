-- ===== src/Gossip/Store.antt =====
-- `GossipStore` and `lww_compare`: the soft-state table with one entry to a node and kind.
pub mod Order
pub mod Bounds
pub mod Winner
pub mod Convergence
use hextet.Base.{
  ℕ, ◌≡◌, Bool, true, false, not, List, [], ◌∷◌, length, leb, if◌then◌else◌, Option, none, some,
  compare, Ordering, ℕ_equality, list_equality, pair_equality, ◌≤◌,
}
use hextet.Base.Assoc.{lookup, insert}
use hextet.Base.Bytes.{Bytes}
use hextet.Base.Bytes.Order.{compare_bytes}
use hextet.Base.Outcome.{Outcome, ok, err, panic}
use hextet.Crypto.{Ed25519, PublicKey}
use hextet.Gossip.Codec.{encode, is_valid}
use hextet.Gossip.Entry.{Entry, Kind, GossipError, kind_of, node_of, seq_of, kind_equality}

pub data MergeOutcome : Type 0 where
  applied stale invalid rejected : MergeOutcome

-- Equal sequence numbers: the smaller encoding wins.
abbrev pub tie : Outcome GossipError Bytes → Outcome GossipError Bytes → Ordering
tie (ok x) (ok y) = compare_bytes y x
tie _ _ = Ordering.eq

unfoldable pub lww_compare : Entry → Entry → Ordering
lww_compare a b = elim (compare (seq_of a) (seq_of b)) [
  | Ordering.eq ↦ tie (encode a) (encode b)
  | Ordering.lt ↦ Ordering.lt
  | Ordering.gt ↦ Ordering.gt
]

abbrev pub Key : Type 0
Key = PublicKey × Kind

abbrev pub key_of : Entry → Key
key_of x = (node_of x, kind_of x)

abbrev pub GossipStore : Type 0
GossipStore = List (Key × Entry)

abbrev pub max_store_entries : ℕ
max_store_entries = 512

abbrev pub is_greater : Ordering → Bool
is_greater Ordering.gt = true
is_greater _ = false

unfoldable pub merge : Ed25519 → GossipStore → Entry → GossipStore × MergeOutcome
merge e store entry =
    if not (is_valid e entry) then (store, invalid) else elim (lookup (key_of entry) store) [
      | some existing ↦
          if is_greater (lww_compare entry existing)
          then (insert (key_of entry) entry store, applied)
          else (store, stale)
      | none ↦
          if leb max_store_entries (length store)
          then (store, rejected)
          else (insert (key_of entry) entry store, applied)
    ]

abbrev pub endpoint_of : GossipStore → PublicKey → Option Entry
endpoint_of store node = lookup (node, Kind.endpoint) store

abbrev pub member_of : GossipStore → PublicKey → Option Entry
member_of store node = lookup (node, Kind.member) store

abbrev pub is_revoked : GossipStore → PublicKey → Bool
is_revoked store node = elim (lookup (node, Kind.revocation) store) [ some _ ↦ true | none ↦ false ]

-- The table after a history of merges, the latest at the head of the list.
unfoldable pub replay : Ed25519 → List Entry → GossipStore
replay e [] = []
replay e (x ∷ history) = (merge e (replay e history) x).0
