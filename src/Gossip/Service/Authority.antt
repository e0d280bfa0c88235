-- ===== src/Gossip/Service/Authority.antt =====
-- Whose word the service takes for an event.
use hextet.Base.{
  is_empty, List, ◌∷◌, ◌≡◌, ◌≢◌, refl, subst, =?_ne, true, false, Bool-cases, inl, inr, arith, some,
  contains, [], ℕ, ◌=?◌, =?_eq, ℕ_equality, list_equality, take,
}
use hextet.Addr.{Ipv6Addr, derive_node_addr, NodeAddr, AddrError}
use hextet.Base.Bytes.{Bytes}
use hextet.Base.Outcome.{Outcome, ok, err, panic}
use hextet.Crypto.{PublicKey}
use hextet.Endpoint.{Endpoint}
use hextet.Gossip.Codec.{decode}
use hextet.Gossip.Entry.{
  Entry, Kind, GossipError, kind_of, node_of, signer_of, endpoint_addrs, kind_equality,
  kind_same_iff,
}
use hextet.Gossip.Store.{GossipStore, merge, applied, is_revoked, MergeOutcome}
use hextet.Gossip.Service.{
  GossipConfig, GossipEvent, discovered, member_admitted, revoked, is_applied, merged, admit,
  own_key, handle_entry, handle_decoded, handle_datagram, is_within_prefix, lacks_authority,
}
use hextet.Peer.Candidates.{DiscoveredEndpoints, gossip}

-- What an event says, by its kind, of the entry it comes from and of the store after it.
abbrev pub Describes : GossipConfig → GossipStore → Entry → GossipEvent → Type 0
Describes c store x (discovered d) =
    (kind_of x ≡ Kind.endpoint)
    × (d.peer_key ≡ c.base64.encode (node_of x))
    × (d.peer_key ≢ own_key c)
    × (d.endpoints ≡ endpoint_addrs x)
    × (d.endpoints ≢ [])
Describes c store x (member_admitted node name address) =
    (kind_of x ≡ Kind.member)
    × (node ≡ node_of x)
    × (is_revoked store node ≡ false)
    × ((a : NodeAddr) × (derive_node_addr c.sha256 c.prefix node ≡ ok a) × (address ≡ a.address))
Describes c store x (revoked node) = (kind_of x ≡ Kind.revocation) × (node ≡ node_of x)

-- The entry behind an event.
pub record IsBacked (c : GossipConfig) (store : GossipStore) (buf : Bytes) (src : Ipv6Addr)
    (event : GossipEvent) (after : GossipStore) : Type 0 where
  pub entry : Entry
  pub inside : take 6 src ≡ c.prefix
  pub authentic : decode c.ed25519 buf ≡ ok entry
  pub accepted : merge c.ed25519 store entry ≡ (after, applied)
  pub described : Describes c after entry event
  pub granted :
      kind_of entry ≢ Kind.endpoint
      → c.admin_keys ≢ []
      → contains c.admin_keys (signer_of entry) ≡ true

is_applied_eq : (o : MergeOutcome) → is_applied o ≡ true → o ≡ applied
is_applied_eq o h = ground arith

not_empty : (eps : List Endpoint) → is_empty eps ≡ false → eps ≢ []
not_empty [] h = cc
not_empty (ep ∷ eps) h = λ q. cc

nonempty : (keys : List PublicKey) → keys ≢ [] → is_empty keys ≡ false
nonempty [] h = absurd (h refl)
nonempty (key ∷ keys) h = refl

module _ (c : GossipConfig) (store : GossipStore) where
  merged_event :
      (x : Entry) (why event : GossipEvent) (after : GossipStore)
      → merged c store x why ≡ (some event, after)
      → (merge c.ed25519 store x ≡ (after, applied)) × (why ≡ event)
  merged_event x why event after h = elim (Bool-cases (is_applied (merge c.ed25519 store x).1)) [
    | inl new ↦ (ground (arith, is_applied_eq (merge c.ed25519 store x).1 new), ground arith)
    | inr old ↦ absurd (ground arith)
  ]

  admit_event :
      (node : PublicKey) (name : Bytes) (held : GossipStore) (o : Outcome AddrError NodeAddr)
      (event : GossipEvent) (after : GossipStore)
      → admit node name held o ≡ (some event, after)
      → (held ≡ after)
        × ((a : NodeAddr) × (o ≡ ok a) × (member_admitted node name a.address ≡ event))
  admit_event node name held (ok a) event after h = (cc, (a, refl, cc))
  admit_event node name held (err e) event after h = absurd (cc h)
  admit_event node name held panic event after h = absurd (cc h)

  -- What the `match` makes an event of.
  abbrev Backed : Entry → GossipEvent → GossipStore → Type 0
  Backed x event after = (merge c.ed25519 store x ≡ (after, applied)) × Describes c after x event

  endpoint_event :
      (node : PublicKey) (eps : List Ipv6Addr) (port seq : ℕ) (sig : Bytes) (event : GossipEvent)
      (after : GossipStore)
      → let x = Entry.endpoint node eps port seq sig in
        handle_entry c store x ≡ (some event, after) → Backed x event after
  unfolding handle_entry
  endpoint_event node eps port seq sig event after h =
      let x = Entry.endpoint node eps port seq sig in
      let key = c.base64.encode node in
      elim (Bool-cases (key =? own_key c)) [
        | inl own ↦ absurd (ground arith)
        | inr other ↦ elim (Bool-cases (is_empty (endpoint_addrs x))) [
          | inl none_usable ↦ absurd (ground arith)
          | inr usable ↦
              let d : DiscoveredEndpoints = record {
                source = gossip;
                peer_key = key;
                endpoints = endpoint_addrs x;
              } in
              let (accepted, is_event) = merged_event x (discovered d) event after (ground arith) in
              (
                accepted,
                subst (Describes c after x) is_event (
                  refl,
                  refl,
                  =?_ne key (own_key c) other,
                  refl,
                  not_empty (endpoint_addrs x) usable,
                ),
              )
        ]
      ]

  member_event :
      (node : PublicKey) (name : Bytes) (site seq : ℕ) (sig : Bytes) (issued_by : PublicKey)
      (invite_id : Bytes) (event : GossipEvent) (after : GossipStore)
      → let x = Entry.member node name site seq sig issued_by invite_id in
        handle_entry c store x ≡ (some event, after) → Backed x event after
  unfolding handle_entry
  member_event node name site seq sig issued_by invite_id event after h =
      let x = Entry.member node name site seq sig issued_by invite_id in
      let m = merge c.ed25519 store x in
      elim (Bool-cases (is_applied m.1)) [
        | inr old ↦ absurd (ground arith)
        | inl new ↦ elim (Bool-cases (is_revoked m.0 node)) [
          | inl out ↦ absurd (ground arith)
          | inr allowed ↦
              let (is_after, (a, derived, is_event)) =
                admit_event node name m.0 (derive_node_addr c.sha256 c.prefix node) event after
                  (rw (new, allowed) at h) in
              (
                ground (arith, is_applied_eq m.1 new),
                subst (Describes c after x) is_event (
                  refl,
                  refl,
                  subst (λ t. is_revoked t node ≡ false) is_after allowed,
                  (a, derived, refl),
                ),
              )
        ]
      ]

  entry_event :
      (x : Entry) (event : GossipEvent) (after : GossipStore)
      → handle_entry c store x ≡ (some event, after)
      → Backed x event after
  entry_event (Entry.endpoint node eps port seq sig) event after h =
      endpoint_event node eps port seq sig event after h
  entry_event (Entry.member node name site seq sig issued_by invite_id) event after h =
      member_event node name site seq sig issued_by invite_id event after h
  entry_event (Entry.revocation node seq sig issued_by) event after h =
      let x = Entry.revocation node seq sig issued_by in
      let (accepted, is_event) =
        merged_event x (revoked node) event after (unfold handle_entry in h) in
      (accepted, subst (Describes c after x) is_event (refl, refl))

  granted_of :
      (x : Entry)
      → lacks_authority c x ≡ false
      → kind_of x ≢ Kind.endpoint
      → c.admin_keys ≢ []
      → contains c.admin_keys (signer_of x) ≡ true
  unfolding lacks_authority
  granted_of x h k a =
      let other : (kind_of x =? Kind.endpoint) ≡ false =
        ground (arith, kind_same_iff (kind_of x) Kind.endpoint) in
      let some_admin : is_empty c.admin_keys ≡ false = nonempty c.admin_keys a in ground arith

  decoded_event :
      (buf : Bytes) (src : Ipv6Addr) (event : GossipEvent) (after : GossipStore)
      (o : Outcome GossipError Entry)
      → take 6 src ≡ c.prefix
      → decode c.ed25519 buf ≡ o
      → handle_decoded c store o ≡ (some event, after)
      → IsBacked c store buf src event after
  unfolding handle_decoded
  decoded_event buf src event after (ok x) inside e h = elim (Bool-cases (lacks_authority c x)) [
    | inl lacks ↦ absurd (cc (rw lacks at h))
    | inr holds ↦
        let (accepted, described) = entry_event x event after (rw holds at h) in
        record {
          entry = x;
          inside = inside;
          authentic = e;
          accepted = accepted;
          described = described;
          granted = granted_of x holds;
        }
  ]
  decoded_event buf src event after (err why) inside e h = absurd (cc h)
  decoded_event buf src event after panic inside e h = absurd (cc h)

-- If a datagram makes the service report something, then it came from inside the network's prefix
-- and decodes to an entry that the store just took over; where there are admins and the entry is
-- an admission or a revocation, an admin signed it. What is reported is that entry's content: for
-- an endpoint entry its usable endpoints, of which there are some, under another node's key; for
-- an admission its node, which the store does not hold for revoked, with the address derived
-- from its key; for a revocation its node.
pub handle_datagram-IsBacked :
    (c : GossipConfig) (store : GossipStore) (buf : Bytes) (src : Ipv6Addr) (event : GossipEvent)
    (after : GossipStore)
    → handle_datagram c store buf src ≡ (some event, after)
    → IsBacked c store buf src event after
unfolding handle_datagram is_within_prefix
handle_datagram-IsBacked c store buf src event after h =
    elim (Bool-cases (take 6 src =? c.prefix)) [
      | inr outside ↦ absurd (cc (rw outside at h))
      | inl within ↦
          decoded_event c store buf src event after (decode c.ed25519 buf)
            (=?_eq (take 6 src) c.prefix within) refl (rw within at h)
    ]
