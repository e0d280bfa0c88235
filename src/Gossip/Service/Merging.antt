-- ===== src/Gossip/Service/Merging.antt =====
-- What a datagram does to the store of the service.
use hextet.Base.{
  ℕ, ◌≡◌, refl, Bool, true, false, ◌⊎◌, List, none, if◌then◌else◌, Bool-cases, inl, inr, arith,
  ℕ_equality, list_equality,
}
use hextet.Addr.{Ipv6Addr}
use hextet.Base.Bytes.{Bytes}
use hextet.Base.Outcome.{Outcome, ok, err, panic}
use hextet.Crypto.{Ed25519, PublicKey}
use hextet.Gossip.Codec.{decode}
use hextet.Gossip.Entry.{Entry, GossipError}
use hextet.Gossip.Store.{GossipStore, merge}
use hextet.Gossip.Service.{
  GossipConfig, GossipEvent, Handled, merged, handle_entry, handle_decoded, handle_datagram,
  is_within_prefix, lacks_authority, revoked,
}
use hextet.Gossip.Service.Fresh.{is_fresh}
use hextet.Gossip.Service.Quiet.{member_store}

-- What a datagram does to the store: nothing, or it merges an entry, and only a fresh entry makes
-- an event.
abbrev pub Merges : Ed25519 → GossipStore → Entry → Handled → Type 0
Merges e store x h =
    (h ≡ (none, store))
    ⊎ ((h.1 ≡ (merge e store x).0) × ((h.0 ≡ none) ⊎ (is_fresh e store x ≡ true)))

module _ (c : GossipConfig) (store : GossipStore) where
  merged-Merges :
      (x : Entry) (event : GossipEvent) → Merges c.ed25519 store x (merged c store x event)
  merged-Merges x event = ground arith

  endpoint-Merges :
      (node : PublicKey) (eps : List Ipv6Addr) (port seq : ℕ) (sig : Bytes)
      → let x = Entry.endpoint node eps port seq sig in
        Merges c.ed25519 store x (handle_entry c store x)
  unfolding handle_entry
  endpoint-Merges node eps port seq sig = ground arith

  member-Merges :
      (node : PublicKey) (name : Bytes) (site seq : ℕ) (sig : Bytes) (issued_by : PublicKey)
      (invite_id : Bytes)
      → let x = Entry.member node name site seq sig issued_by invite_id in
        Merges c.ed25519 store x (handle_entry c store x)
  unfolding handle_entry
  member-Merges node name site seq sig issued_by invite_id =
      inr (member_store c store node name site seq sig issued_by invite_id, ground arith)

  handle_entry-Merges : (x : Entry) → Merges c.ed25519 store x (handle_entry c store x)
  handle_entry-Merges (Entry.endpoint node eps port seq sig) = endpoint-Merges node eps port seq sig
  handle_entry-Merges (Entry.member node name site seq sig issued_by invite_id) =
      member-Merges node name site seq sig issued_by invite_id
  handle_entry-Merges (Entry.revocation node seq sig issued_by) =
      unfold handle_entry in merged-Merges (Entry.revocation node seq sig issued_by) (revoked node)

  gate-Merges :
      (x : Entry) (b : Bool) (h : Handled)
      → Merges c.ed25519 store x h
      → Merges c.ed25519 store x (if b then (none, store) else h)
  gate-Merges x true h m = inl refl
  gate-Merges x false h m = m

  handle_decoded-Merges :
      (o : Outcome GossipError Entry)
      → (handle_decoded c store o ≡ (none, store))
        ⊎ ((x : Entry) × (o ≡ ok x) × Merges c.ed25519 store x (handle_decoded c store o))
  unfolding handle_decoded
  handle_decoded-Merges (ok x) =
      inr (x, refl, gate-Merges x (lacks_authority c x) _ (handle_entry-Merges x))
  handle_decoded-Merges (err e) = inl refl
  handle_decoded-Merges panic = inl refl

  pub handle_datagram-Merges :
      (buf : Bytes) (src : Ipv6Addr)
      → (handle_datagram c store buf src ≡ (none, store))
        ⊎ ((x : Entry) × (decode c.ed25519 buf ≡ ok x)
            × Merges c.ed25519 store x (handle_datagram c store buf src))
  unfolding handle_datagram
  handle_datagram-Merges buf src = elim (Bool-cases (is_within_prefix src c.prefix)) [
    | inl inside ↦ rw inside (handle_decoded-Merges (decode c.ed25519 buf))
    | inr outside ↦ rw outside (inl refl)
  ]
