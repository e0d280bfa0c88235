-- ===== src/Tests/NetworkTests.antt =====
-- A network of nodes, of which the first announces its address and knows of a revocation.
use hextet.Base.{
  ℕ, ◌≡◌, ◌≤◌, ◌<◌, refl, subst, true, List, [], ◌∷◌, ◌++◌, some, if◌then◌else◌, Bool-cases, inl,
  inr, arith, All, Any, ◌==◌, list_same,
}
use hextet.Base.Assoc.{lookup, insert}
use hextet.Base.Bytes.{Bytes, concat}
use hextet.Base.Bytes.Endian.{to_be_bytes}
use hextet.Crypto.{repeat_byte, toy_ed25519, length-repeat_byte, checksum}
use hextet.Addr.{Ipv6Addr, IsIpv6Addr}
use hextet.Gossip.Codec.{is_valid, verify, signed_region, no_sig}
use hextet.Gossip.Codec.RoundTrip.{body, wire}
use hextet.Gossip.Entry.{Entry, Kind, IsTyped, kind_equality}
use hextet.Gossip.Service.{
  GossipConfig, Service, Surroundings, ticked, received, serve, broadcast, own_entry, packets_of,
  send_to_targets, send_all,
}
use hextet.Gossip.Service.Settling.{Carries, AreEntries, IsSettled, wire_carries}
use hextet.Gossip.Service.Network.{Network, Run, starts, wakes, wake_up, starting, Run-dies_out}
use hextet.RelayServer.Forward.{v6}
use hextet.Gossip.Store.Bounds.{IsStore, merge-IsStore}
use hextet.Gossip.Store.{merge}
use hextet.Tests.{AreBytes-repeat_byte, repeat_byte-IsPublicKey, are_bytes-AreBytes}
use hextet.Tests.GossipTests.{node, newer, newer-IsTyped, empty-IsStore}
use hextet.Tests.ServiceTests.{config, src, home, away}

checksum_small : (bytes : Bytes) → checksum bytes < 256
checksum_small [] = omega arith
checksum_small (b ∷ bytes) = omega arith

-- What a node with this seed announces.
abbrev announced_by : ℕ → Ipv6Addr → Bytes → Entry
announced_by seed addr sig =
    Entry.endpoint (repeat_byte 32 (checksum (repeat_byte 32 seed))) (addr ∷ []) 4193 1001 sig

abbrev mark : ℕ → Ipv6Addr → ℕ
mark seed addr = checksum (
    repeat_byte 32 (checksum (repeat_byte 32 seed))
    ++ concat (body (announced_by seed addr no_sig)))

abbrev announced : ℕ → Ipv6Addr → Entry
announced seed addr = announced_by seed addr (repeat_byte 64 (mark seed addr))

announced-IsTyped :
    (seed : ℕ) (addr : Ipv6Addr) → IsIpv6Addr addr → IsTyped toy_ed25519 (announced seed addr)
announced-IsTyped seed addr is = record {
  node_is_key =
      repeat_byte-IsPublicKey (checksum (repeat_byte 32 seed))
        (checksum_small (repeat_byte 32 seed));
  signer_is_key =
      repeat_byte-IsPublicKey (checksum (repeat_byte 32 seed))
        (checksum_small (repeat_byte 32 seed));
  seq_u64 = omega arith;
  sig_length = length-repeat_byte 64 (mark seed addr);
  sig_bytes = AreBytes-repeat_byte 64 (mark seed addr) (
      checksum_small (
        repeat_byte 32 (checksum (repeat_byte 32 seed))
        ++ concat (body (announced_by seed addr no_sig))));
  payload = ((is, tt), omega arith);
}

abbrev first : Entry
first = announced 4 home

abbrev second : Entry
second = announced 5 away

first-IsTyped : IsTyped toy_ed25519 first
first-IsTyped =
    announced-IsTyped 4 home (record { octet_count = refl; octets = are_bytes-AreBytes home refl })

second-IsTyped : IsTyped toy_ed25519 second
second-IsTyped =
    announced-IsTyped 5 away (record { octet_count = refl; octets = are_bytes-AreBytes away refl })

first_valid : is_valid toy_ed25519 first ≡ true
unfolding is_valid verify signed_region list_same to_be_bytes
first_valid = refl

second_valid : is_valid toy_ed25519 second ≡ true
unfolding is_valid verify signed_region list_same to_be_bytes
second_valid = refl

newer_valid : is_valid toy_ed25519 newer ≡ true
unfolding is_valid verify signed_region list_same to_be_bytes
newer_valid = refl

abbrev entries : List Entry
entries = first ∷ second ∷ newer ∷ []

are_entries : AreEntries toy_ed25519 entries
are_entries = (
  (first-IsTyped, first_valid),
  ((second-IsTyped, second_valid), ((newer-IsTyped, newer_valid), tt)),
)

-- Node 0 is the first, and all others are like the second.
abbrev nodes : ℕ → GossipConfig
nodes i = if i == 0 then config else record config { own_identity = repeat_byte 32 5 }

abbrev addresses : ℕ → List Ipv6Addr
addresses i = if i == 0 then home ∷ [] else away ∷ []

abbrev first_service : Service
first_service = record {
  store = ((node, Kind.revocation), newer) ∷ [];
  targets = src.ip ∷ [];
  announced = record { last_addrs = home ∷ []; entry_bytes = some (wire first); seq = 1001 };
}

abbrev second_service : Service
second_service = record {
  store = [];
  targets = src.ip ∷ [];
  announced = record { last_addrs = away ∷ []; entry_bytes = some (wire second); seq = 1001 };
}

abbrev services : ℕ → Service
services i = if i == 0 then first_service else second_service

one : (i : ℕ) → (nodes i).ed25519 ≡ toy_ed25519
one i = elim (Bool-cases (i == 0)) [ inl same ↦ rw same refl | inr other ↦ rw other refl ]

merged_newer : (merge toy_ed25519 [] newer).0 ≡ first_service.store
unfolding merge lookup insert is_valid verify signed_region list_same to_be_bytes
merged_newer = refl

first-IsStore : IsStore toy_ed25519 first_service.store
first-IsStore =
    subst (IsStore toy_ed25519) merged_newer (merge-IsStore toy_ed25519 [] newer empty-IsStore)

settled : (i : ℕ) → IsSettled (nodes i) entries (addresses i) (services i)
settled i = elim (Bool-cases (i == 0)) [
  | inl same ↦ rw same (record {
    is_store = first-IsStore;
    held = (inr (inr (inl refl)), tt);
    same = refl;
    own = λ bytes h.
        subst (Carries toy_ed25519 entries) {x = wire first} (cc h)
          (wire_carries (nodes 0) entries are_entries first (inl refl));
  })
  | inr other ↦ rw other (record {
    is_store = empty-IsStore;
    held = tt;
    same = refl;
    own = λ bytes h.
        subst (Carries toy_ed25519 entries) {x = wire second} (cc h)
          (wire_carries (nodes 1) entries are_entries second (inr (inl refl)));
  })
]

-- Node 0 announces itself by the clock, and node 1 hears of it.
abbrev at_home : Surroundings
at_home = record { addresses = some (home ∷ []); now = 2000; listening = true }

abbrev at_away : Surroundings
at_away = record { addresses = some (away ∷ []); now = 2000; listening = true }

abbrev called : Network
called = wake_up nodes (starting services) 0 at_home ticked

abbrev heard : Network
heard = wake_up nodes called 1 at_away (received (some (wire first, v6 src)))

delivered : Any (λ bytes. bytes ≡ wire first) called.datagrams
unfolding serve broadcast own_entry packets_of send_to_targets send_all list_same
delivered = inl refl

run : Run nodes addresses (starting services) heard
run =
    wakes (wakes starts 0 at_home ticked (inr refl) tt) 1 at_away
      (received (some (wire first, v6 src))) (inr refl) delivered

Run-dies_out_example :
    All (Carries toy_ed25519 entries) heard.datagrams × ((i : ℕ) → heard.echoes i ≤ 3)
Run-dies_out_example =
    Run-dies_out toy_ed25519 entries nodes addresses one are_entries services settled run
