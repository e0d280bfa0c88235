-- ===== src/Gossip/Service/Settling.antt =====
-- One wake-up of a service whose addresses stay the same and that hears of known entries only.
use hextet.Base.{
  is_empty, ℕ, ◌≡◌, refl, sym, ap, ◌∙◌, subst, true, ◌⊎◌, List, [], ◌∷◌, ◌++◌, take, Option, none,
  some, if◌then◌else◌, Bool-cases, inl, inr, All, Any, ◌=?◌, =?_self, ℕ_equality, list_equality,
  pair_equality, take_of_length-le, All-append,
}
use hextet.Addr.{Ipv6Addr}
use hextet.Base.Bytes.{Bytes}
use hextet.Base.Outcome.{ok, ok_injective}
use hextet.Crypto.{Ed25519}
use hextet.Gossip.Codec.{max_addrs, decode, encode, is_valid}
use hextet.Gossip.Codec.RoundTrip.{wire, wire-short, decode-wire}
use hextet.Gossip.Entry.{Entry, IsTyped, kind_equality}
use hextet.Gossip.Store.{GossipStore}
use hextet.Gossip.Store.Order.{encode_valid}
use hextet.Gossip.Store.Bounds.{IsStore}
use hextet.Gossip.Service.{
  GossipConfig, Service, Surroundings, Wake, received, Effect, sent, told, Broadcast, own_entry,
  encoded, to_list, packets_of, send_all, send_to_targets, broadcast, buf_len,
}
use hextet.Gossip.Service.Announcing.{empty_kept, same_kept}

abbrev pub IsKnown : List Entry → Entry → Type 0
IsKnown entries x = Any (λ y. y ≡ x) entries

-- A datagram that stands for a known entry, or for none.
abbrev pub Carries : Ed25519 → List Entry → Bytes → Type 0
Carries e entries bytes = (x : Entry) → decode e (take buf_len bytes) ≡ ok x → IsKnown entries x

abbrev pub AreEntries : Ed25519 → List Entry → Type 0
AreEntries e entries = All (λ x. IsTyped e x × (is_valid e x ≡ true)) entries

abbrev pub CarriesSent : Ed25519 → List Entry → Effect → Type 0
CarriesSent e entries (sent bytes target) = Carries e entries bytes
CarriesSent e entries (told event) = Unit

-- The service has announced these addresses, and holds and announces known entries.
pub record IsSettled (c : GossipConfig) (entries : List Entry) (all : List Ipv6Addr) (s : Service)
    : Type 0 where
  pub is_store : IsStore c.ed25519 s.store
  pub held : All (λ kx. IsKnown entries kx.1) s.store
  pub same : take max_addrs all ≡ s.announced.last_addrs
  pub own : (bytes : Bytes) → s.announced.entry_bytes ≡ some bytes → Carries c.ed25519 entries bytes

-- The machine's addresses are these, or cannot be read.
abbrev pub IsSteady : List Ipv6Addr → Surroundings → Type 0
IsSteady all around = (around.addresses ≡ none) ⊎ (around.addresses ≡ some all)

abbrev pub Hears : (Bytes → Type 0) → Wake → Type 0
Hears P (received (some (datagram, src))) = P datagram
Hears P _ = Unit

-- One for a datagram that had an effect.
abbrev pub echo : Wake → List Effect → ℕ
echo (received (some datagram)) effects = if is_empty effects then 0 else 1
echo _ effects = 0

module _ (c : GossipConfig) (entries : List Entry) (are : AreEntries c.ed25519 entries) where
  valid_of :
      (xs : List Entry) (x : Entry)
      → AreEntries c.ed25519 xs
      → IsKnown xs x
      → IsTyped c.ed25519 x × (is_valid c.ed25519 x ≡ true)
  valid_of [] x v m = absurd m
  valid_of (y ∷ xs) x v (inl here) =
      subst (λ z. IsTyped c.ed25519 z × (is_valid c.ed25519 z ≡ true)) here v.0
  valid_of (y ∷ xs) x v (inr later) = valid_of xs x v.1 later

  -- The encoding of a known entry carries just this entry.
  pub wire_carries : (x : Entry) → IsKnown entries x → Carries c.ed25519 entries (wire x)
  wire_carries x m y h =
      let (typed, valid) = valid_of entries x are m in
      subst (IsKnown entries)
        (ok_injective (
          sym (decode-wire c.ed25519 x typed valid)
          ∙ ap (decode c.ed25519)
              (sym (take_of_length-le buf_len (wire x) (wire-short c.ed25519 x typed valid)))
          ∙ h))
        m

  encoded_carries :
      (x : Entry) → IsKnown entries x → All (Carries c.ed25519 entries) (encoded (encode x))
  encoded_carries x m =
      rw (encode_valid c.ed25519 x (valid_of entries x are m).1) (wire_carries x m, tt)

  packets_carry :
      (store : GossipStore)
      → All (λ kx. IsKnown entries kx.1) store
      → All (Carries c.ed25519 entries) (packets_of store)
  unfolding packets_of
  packets_carry [] h = tt
  packets_carry ((key, x) ∷ store) h =
      All-append (Carries c.ed25519 entries) (encoded (encode x)) (packets_of store)
        (encoded_carries x h.0) (packets_carry store h.1)

  sends_carry :
      (target : Ipv6Addr) (port : ℕ) (packets : List Bytes)
      → All (Carries c.ed25519 entries) packets
      → All (CarriesSent c.ed25519 entries) (send_all target port packets)
  unfolding send_all
  sends_carry target port [] h = tt
  sends_carry target port (pkt ∷ packets) h = (h.0, sends_carry target port packets h.1)

  targets_carry :
      (targets : List Ipv6Addr) (port : ℕ) (packets : List Bytes)
      → All (Carries c.ed25519 entries) packets
      → All (CarriesSent c.ed25519 entries) (send_to_targets targets port packets)
  unfolding send_to_targets
  targets_carry [] port packets h = tt
  targets_carry (target ∷ targets) port packets h =
      All-append (CarriesSent c.ed25519 entries) (send_all target port packets)
        (send_to_targets targets port packets) (sends_carry target port packets h)
        (targets_carry targets port packets h)

  module _ (all : List Ipv6Addr) where
    own_kept :
        (bc : Broadcast) (now : ℕ)
        → take max_addrs all ≡ bc.last_addrs
        → (own_entry c bc all now ≡ (none, bc)) ⊎ (own_entry c bc all now ≡ (bc.entry_bytes, bc))
    own_kept bc now same = elim (Bool-cases (is_empty (take max_addrs all))) [
      | inl nothing ↦ inl (empty_kept c bc all now nothing)
      | inr some_addr ↦ inr (
          same_kept c bc all now some_addr
            (subst (λ a. (take max_addrs all =? a) ≡ true) same (=?_self (take max_addrs all))))
    ]

    to_list_carry :
        (o : Option Bytes)
        → ((bytes : Bytes) → o ≡ some bytes → Carries c.ed25519 entries bytes)
        → All (Carries c.ed25519 entries) (to_list o)
    to_list_carry none h = tt
    to_list_carry (some bytes) h = (h bytes refl, tt)

    -- A broadcast of a settled service changes nothing, and sends known entries only.
    abbrev pub Quiet : Service → Service × List Effect → Type 0
    Quiet s r = (r.0 ≡ s) × All (CarriesSent c.ed25519 entries) r.1

    sent-Quiet :
        (s : Service) (o : Option Bytes)
        → IsSettled c entries all s
        → ((bytes : Bytes) → o ≡ some bytes → Carries c.ed25519 entries bytes)
        → Quiet s (s, send_to_targets s.targets c.port (to_list o ++ packets_of s.store))
    sent-Quiet s o is h = (
      refl,
      targets_carry s.targets c.port (to_list o ++ packets_of s.store) (
          All-append (Carries c.ed25519 entries) (to_list o) (packets_of s.store)
            (to_list_carry o h) (packets_carry s.store is.held)),
    )

    pub broadcast-Quiet :
        (s : Service) (addresses : Option (List Ipv6Addr)) (now : ℕ)
        → IsSettled c entries all s
        → (addresses ≡ none) ⊎ (addresses ≡ some all)
        → Quiet s (broadcast c s addresses now)
    unfolding broadcast
    broadcast-Quiet s addresses now is (inl unread) = rw unread (refl, tt)
    broadcast-Quiet s addresses now is (inr steady) =
        rw steady (elim (own_kept s.announced now is.same) [
          | inl silent ↦ rw silent (sent-Quiet s none is (λ bytes h. absurd (cc h)))
          | inr again ↦ rw again (sent-Quiet s s.announced.entry_bytes is is.own)
        ])
