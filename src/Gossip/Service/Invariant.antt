-- ===== src/Gossip/Service/Invariant.antt =====
-- The service's invariant: the store's and the announcement's.
use hextet.Base.{
  ℕ, ◌+◌, ◌^◌, ◌<◌, ◌≡◌, refl, sym, subst, Bool, true, false, not, none, some, arith, List, take,
  Option, if◌then◌else◌, Bool-cases, inl, inr,
}
use hextet.Addr.{Ipv6Addr}
use hextet.Base.Bytes.{Bytes}
use hextet.Base.Outcome.{Outcome, ok, err, panic}
use hextet.Crypto.{PublicKey}
use hextet.Gossip.Codec.{decode}
use hextet.Gossip.Entry.{Entry, GossipError}
use hextet.Gossip.Service.{
  GossipConfig, GossipEvent, Handled, Service, Surroundings, Wake, ticked, kicked, control,
  received, with_store, handle_entry, handle_decoded, handle_datagram, revoked, broadcast, pass_on,
  serve, lacks_authority, is_within_prefix, merged, buf_len,
}
use hextet.Gossip.Service.Quiet.{member_store}
use hextet.Gossip.Service.Announcing.{IsAnnounced, own_entry-IsAnnounced}
use hextet.Gossip.Store.{GossipStore}
use hextet.Gossip.Store.Bounds.{IsStore, merge-IsStore}
use hextet.RelayServer.Forward.{v4, v6}

pub record IsService (c : GossipConfig) (s : Service) : Type 0 where
  pub is_store : IsStore c.ed25519 s.store
  pub is_announced : IsAnnounced c s.announced

module _ (c : GossipConfig) (store : GossipStore) (is : IsStore c.ed25519 store) where
  merged-IsStore : (x : Entry) (event : GossipEvent) → IsStore c.ed25519 (merged c store x event).1
  merged-IsStore x event = ground (arith, merge-IsStore c.ed25519 store x is)

  gate-IsStore :
      (b : Bool) (handled : Handled)
      → IsStore c.ed25519 handled.1
      → IsStore c.ed25519 (let h : Handled = if b then (none, store) else handled in h).1
  gate-IsStore true handled h = is
  gate-IsStore false handled h = h

  endpoint-IsStore :
      (node : PublicKey) (eps : List Ipv6Addr) (port seq : ℕ) (sig : Bytes)
      → IsStore c.ed25519 (handle_entry c store (Entry.endpoint node eps port seq sig)).1
  unfolding handle_entry
  endpoint-IsStore node eps port seq sig =
      ground (arith, is, merge-IsStore c.ed25519 store (Entry.endpoint node eps port seq sig) is)

  handle_entry-IsStore : (x : Entry) → IsStore c.ed25519 (handle_entry c store x).1
  handle_entry-IsStore (Entry.endpoint node eps port seq sig) =
      endpoint-IsStore node eps port seq sig
  handle_entry-IsStore (Entry.member node name site seq sig issued_by invite_id) =
      subst (IsStore c.ed25519)
        (sym (member_store c store node name site seq sig issued_by invite_id))
        (merge-IsStore c.ed25519 store (Entry.member node name site seq sig issued_by invite_id) is)
  handle_entry-IsStore (Entry.revocation node seq sig issued_by) =
      unfold handle_entry in merged-IsStore (Entry.revocation node seq sig issued_by) (revoked node)

  handle_decoded-IsStore :
      (o : Outcome GossipError Entry) → IsStore c.ed25519 (handle_decoded c store o).1
  unfolding handle_decoded
  handle_decoded-IsStore (ok x) = gate-IsStore (lacks_authority c x) _ (handle_entry-IsStore x)
  handle_decoded-IsStore (err e) = is
  handle_decoded-IsStore panic = is

  handle_datagram-IsStore :
      (buf : Bytes) (src : Ipv6Addr) → IsStore c.ed25519 (handle_datagram c store buf src).1
  unfolding handle_datagram
  handle_datagram-IsStore buf src =
      gate-IsStore (not (is_within_prefix src c.prefix)) _
        (handle_decoded-IsStore (decode c.ed25519 buf))

module _ (c : GossipConfig) (s : Service) (is : IsService c s) (around : Surroundings)
    (small : s.announced.seq + 1 < 2 ^ 64) (clock : around.now < 2 ^ 64) where
  broadcast-IsService :
      (t : Service)
      → t.announced ≡ s.announced
      → IsStore c.ed25519 t.store
      → (addrs : Option (List Ipv6Addr)) → IsService c (broadcast c t addrs around.now).0
  unfolding broadcast
  broadcast-IsService t e is_store none = record {
    is_store = is_store;
    is_announced = subst (IsAnnounced c) (sym e) is.is_announced;
  }
  broadcast-IsService t e is_store (some addrs) = record {
    is_store = is_store;
    is_announced =
        own_entry-IsAnnounced c t.announced addrs around.now
          (subst (IsAnnounced c) (sym e) is.is_announced) (rw e small) clock;
  }

  pass_on-IsService : (h : Handled) → IsStore c.ed25519 h.1 → IsService c (pass_on c s around h).0
  unfolding pass_on
  pass_on-IsService (none, store) k = record { is_store = k; is_announced = is.is_announced }
  pass_on-IsService (some event, store) k =
      let kept = broadcast-IsService (with_store s store) refl k around.addresses in
      elim (Bool-cases around.listening) [ inl on ↦ rw on kept | inr off ↦ rw off kept ]

  -- Whatever wakes the service, its store stays a map of at most 512 valid entries, each under its
  -- own node and kind, and the announcement that it keeps stays a valid endpoint entry of this
  -- node that is not newer than its sequence number, if the clock and the next sequence number
  -- are below 2^64.
  pub serve-IsService : (wake : Wake) → IsService c (serve c s around wake).0
  unfolding serve
  serve-IsService ticked = broadcast-IsService s refl is.is_store around.addresses
  serve-IsService (kicked none) = is
  serve-IsService (kicked (some u)) = broadcast-IsService s refl is.is_store around.addresses
  serve-IsService (control none) = is
  serve-IsService (control (some targets)) = record {
    is_store = is.is_store;
    is_announced = is.is_announced;
  }
  serve-IsService (received none) = is
  serve-IsService (received (some (datagram, v4))) = is
  serve-IsService (received (some (datagram, v6 src))) =
      pass_on-IsService (handle_datagram c s.store (take buf_len datagram) src.ip)
        (handle_datagram-IsStore c s.store is.is_store (take buf_len datagram) src.ip)
