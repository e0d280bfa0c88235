-- ===== src/Gossip/Service/Waking.antt =====
-- The loop's step on a settled service: what it sends, and how many datagrams can have an effect.
use hextet.Base.{
  ℕ, suc, ◌+◌, ◌≤◌, ◌≡◌, refl, sym, subst, Bool, true, false, ◌⊎◌, List, [], ◌∷◌, ◌++◌, take, none,
  some, Bool-cases, inl, inr, arith, All, All-append, ◌=?◌, ℕ_equality, list_equality,
  pair_equality,
}
use hextet.Addr.{Ipv6Addr}
use hextet.Base.Assoc.{insert}
use hextet.Base.Bytes.{Bytes}
use hextet.Base.Outcome.{ok}
use hextet.Gossip.Codec.{decode}
use hextet.Gossip.Entry.{Entry, kind_equality}
use hextet.Gossip.Store.{GossipStore, Key, key_of, merge}
use hextet.Gossip.Store.Bounds.{merge-IsStore}
use hextet.Gossip.Service.{
  GossipConfig, Handled, Service, Surroundings, Wake, ticked, kicked, control, received, Effect,
  told, Served, broadcast, with_store, pass_on, serve, handle_datagram, buf_len,
}
use hextet.Gossip.Service.Fresh.{count_fresh, count_fresh-taken, count_fresh-merge}
use hextet.Gossip.Service.Merging.{Merges, handle_datagram-Merges}
use hextet.Gossip.Service.Quiet.{merge_cases}
use hextet.Gossip.Service.Settling.{
  IsKnown, Carries, CarriesSent, AreEntries, IsSettled, IsSteady, Hears, echo, broadcast-Quiet,
}
use hextet.RelayServer.Forward.{SocketAddr, v4, v6}

-- The service is still settled, sends known entries only, and a datagram that had an effect has
-- used up a fresh one.
pub record Settles (c : GossipConfig) (entries : List Entry) (all : List Ipv6Addr) (s : Service)
    (wake : Wake) (r : Served) : Type 0 where
  pub settled : IsSettled c entries all r.0
  pub carried : All (CarriesSent c.ed25519 entries) r.1
  pub spent :
      echo wake r.1 + count_fresh c.ed25519 r.0.store entries
      ≤ count_fresh c.ed25519 s.store entries

held_insert :
    (P : Entry → Type 0) (k : Key) (x : Entry) (store : GossipStore)
    → P x
    → All (λ kx. P kx.1) store
    → All (λ kx. P kx.1) (insert k x store)
unfolding insert
held_insert P k x [] p h = (p, tt)
held_insert P k x ((j, y) ∷ store) p h = elim (Bool-cases (j =? k)) [
  | inl same ↦ rw same (p, h.1)
  | inr other ↦ rw other (h.0, held_insert P k x store p h.1)
]

module _ (c : GossipConfig) (entries : List Entry) (are : AreEntries c.ed25519 entries)
    (all : List Ipv6Addr) (s : Service) (is : IsSettled c entries all s) where
  merged_held :
      (x : Entry)
      → IsKnown entries x
      → All (λ kx. IsKnown entries kx.1) (merge c.ed25519 s.store x).0
  merged_held x m = elim (merge_cases c.ed25519 s.store x) [
    | inl (o, kept, idle) ↦ rw kept is.held
    | inr (made, valid) ↦ rw made (held_insert (IsKnown entries) (key_of x) x s.store m is.held)
  ]

  merged_settled :
      (x : Entry)
      → IsKnown entries x
      → IsSettled c entries all (with_store s (merge c.ed25519 s.store x).0)
  merged_settled x m = record {
    is_store = merge-IsStore c.ed25519 s.store x is.is_store;
    held = merged_held x m;
    same = is.same;
    own = is.own;
  }

  abbrev left : GossipStore → ℕ
  left store = count_fresh c.ed25519 store entries

  -- What is known of the store after a datagram.
  abbrev Stored : Handled → Type 0
  Stored h =
      IsSettled c entries all (with_store s h.1)
      × (left h.1 ≤ left s.store)
      × ((h.0 ≡ none) ⊎ (suc (left h.1) ≤ left s.store))

  merged-Stored :
      (x : Entry) (h : Handled) → IsKnown entries x → Merges c.ed25519 s.store x h → Stored h
  merged-Stored x h m (inl nothing) = rw nothing (is, omega arith, inl refl)
  merged-Stored x h m (inr (kept, event)) = (
    subst (λ store. IsSettled c entries all (with_store s store)) (sym kept) (merged_settled x m),
    rw kept (count_fresh-merge c.ed25519 s.store is.is_store x entries),
    elim event [
      | inl nothing ↦ inl nothing
      | inr fresh ↦
          inr (rw kept (count_fresh-taken c.ed25519 s.store is.is_store x entries fresh m))
    ],
  )

  stored :
      (buf : Bytes) (src : Ipv6Addr)
      → ((x : Entry) → decode c.ed25519 buf ≡ ok x → IsKnown entries x)
      → Stored (handle_datagram c s.store buf src)
  stored buf src heard = elim (handle_datagram-Merges c s.store buf src) [
    | inl nothing ↦ rw nothing (is, omega arith, inl refl)
    | inr (x, decoded, merges) ↦
        merged-Stored x (handle_datagram c s.store buf src) (heard x decoded) merges
  ]

  module _ (around : Surroundings) (steady : IsSteady all around) where
    broadcasts :
        (wake : Wake)
        → ((effects : List Effect) → echo wake effects ≡ 0)
        → let r = broadcast c s around.addresses around.now in
          Settles c entries all s wake (r.0, r.1, true)
    broadcasts wake silent =
        let (kept, carried) =
          broadcast-Quiet c entries are all s around.addresses around.now is steady in
        record {
          settled = subst (IsSettled c entries all) (sym kept) is;
          carried = carried;
          spent = rw (silent _, kept) (omega arith);
        }

    echo-le : (wake : Wake) (effects : List Effect) → echo wake effects ≤ 1
    echo-le wake effects = ground arith

    used_up :
        (wake : Wake) (store : GossipStore) (effects : List Effect) (next : Service) (on : Bool)
        → IsSettled c entries all (with_store s store)
        → suc (left store) ≤ left s.store
        → next ≡ with_store s store
        → All (CarriesSent c.ed25519 entries) effects
        → Settles c entries all s wake (next, effects, on)
    used_up wake store effects next on settled fewer kept carried = record {
      settled = subst (IsSettled c entries all) (sym kept) settled;
      carried = carried;
      spent = rw kept (omega (arith, fewer, echo-le wake effects));
    }

    passes_on :
        (datagram : Bytes) (src : SocketAddr) (h : Handled)
        → Stored h
        → Settles c entries all s (received (some (datagram, src))) (pass_on c s around h)
    unfolding pass_on
    passes_on datagram src (none, store) k = record {
      settled = k.0;
      carried = tt;
      spent = omega (arith, k.1);
    }
    passes_on datagram src (some event, store) k =
        let (kept, carried) =
          broadcast-Quiet c entries are all (with_store s store) around.addresses around.now k.0
            steady in
        let wake = received (some (datagram, src)) in
        let sent = broadcast c (with_store s store) around.addresses around.now in
        let fewer : suc (left store) ≤ left s.store = elim k.2 [
          | inl nothing ↦ absurd (cc nothing)
          | inr less ↦ less
        ] in
        elim (Bool-cases around.listening) [
          | inl on ↦ rw on (
              used_up wake store (sent.1 ++ told event ∷ []) sent.0 true k.0 fewer kept (
                All-append (CarriesSent c.ed25519 entries) sent.1 (told event ∷ []) carried
                  (tt, tt)))
          | inr off ↦ rw off (used_up wake store sent.1 sent.0 false k.0 fewer kept carried)
        ]

    idle : (wake : Wake) (on : Bool) → echo wake [] ≡ 0 → Settles c entries all s wake (s, [], on)
    idle wake on silent = record { settled = is; carried = tt; spent = omega (arith, silent) }

    -- Whatever wakes it, a settled service stays so.
    pub serve-Settles :
        (wake : Wake)
        → Hears (Carries c.ed25519 entries) wake
        → Settles c entries all s wake (serve c s around wake)
    unfolding serve
    serve-Settles ticked h = broadcasts ticked (λ effects. refl)
    serve-Settles (kicked none) h = idle (kicked none) false refl
    serve-Settles (kicked (some u)) h = broadcasts (kicked (some u)) (λ effects. refl)
    serve-Settles (control none) h = idle (control none) false refl
    serve-Settles (control (some targets)) h = record {
      settled = record { is_store = is.is_store; held = is.held; same = is.same; own = is.own };
      carried = tt;
      spent = omega arith;
    }
    serve-Settles (received none) h = idle (received none) false refl
    serve-Settles (received (some (datagram, v4))) h =
        idle (received (some (datagram, v4))) true refl
    serve-Settles (received (some (datagram, v6 src))) h =
        let buf = take buf_len datagram in
        passes_on datagram (v6 src) (handle_datagram c s.store buf src.ip) (stored buf src.ip h)
