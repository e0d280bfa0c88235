-- ===== src/Gossip/Service/Network.antt =====
-- A network of gossip services, with any loss, repetition and order of the datagrams between them.
use hextet.Base.{
  ℕ, ◌+◌, ◌≤◌, ◌≡◌, sym, subst, List, [], ◌∷◌, ◌++◌, length, some, none, if◌then◌else◌, Bool-cases,
  inl, inr, arith, All, Any, All-append, ◌==◌, =?_eq, ℕ_equality,
}
use hextet.Addr.{Ipv6Addr}
use hextet.Base.Bytes.{Bytes}
use hextet.Crypto.{Ed25519}
use hextet.Gossip.Entry.{Entry}
use hextet.Gossip.Service.{
  GossipConfig, Service, Surroundings, Wake, ticked, kicked, control, received, Effect, sent, told,
  serve,
}
use hextet.Gossip.Service.Fresh.{count_fresh, count_fresh-le}
use hextet.Gossip.Service.Settling.{
  Carries, CarriesSent, AreEntries, IsSettled, IsSteady, Hears, echo,
}
use hextet.Gossip.Service.Waking.{Settles, serve-Settles}

-- The nodes are numbered. Beside their states: every datagram that was sent, and how many
-- datagrams have had an effect at each node.
pub record Network : Type 0 where
  pub services : ℕ → Service
  pub datagrams : List Bytes
  pub echoes : ℕ → ℕ

abbrev pub set : {V : Type 0} → ℕ → V → (ℕ → V) → ℕ → V
set i v f j = if i == j then v else f j

abbrev pub bytes_sent : List Effect → List Bytes
bytes_sent [] = []
bytes_sent (sent bytes target ∷ effects) = bytes ∷ bytes_sent effects
bytes_sent (told event ∷ effects) = bytes_sent effects

abbrev pub wake_up : (ℕ → GossipConfig) → Network → ℕ → Surroundings → Wake → Network
wake_up nodes w i around wake =
    let r = serve (nodes i) (w.services i) around wake in
    record {
      services = set i r.0 w.services;
      datagrams = bytes_sent r.1 ++ w.datagrams;
      echoes = set i (echo wake r.1 + w.echoes i) w.echoes;
    }

-- Any node is woken by anything, a datagram among them, if a node has sent it. The addresses of
-- the machines stay the same.
pub data Run (nodes : ℕ → GossipConfig) (addresses : ℕ → List Ipv6Addr) (start : Network)
    : Network → Type 0 where
  starts : Run nodes addresses start start
  wakes :
      {w : Network}
      → Run nodes addresses start w
      → (i : ℕ) (around : Surroundings) (wake : Wake) → IsSteady (addresses i) around
      → Hears (λ datagram. Any (λ bytes. bytes ≡ datagram) w.datagrams) wake
      → Run nodes addresses start (wake_up nodes w i around wake)

abbrev pub starting : (ℕ → Service) → Network
starting services = record { services = services; datagrams = []; echoes = λ i. 0 }

set_both :
    {V : Type 0} (P : ℕ → V × ℕ → Type 0) (i : ℕ) (v : V) (n : ℕ) (f : ℕ → V) (g : ℕ → ℕ)
    → P i (v, n)
    → ((j : ℕ) → P j (f j, g j))
    → (j : ℕ) → P j (set i v f j, set i n g j)
set_both P i v n f g h k j = elim (Bool-cases (i == j)) [
  | inl same ↦ rw same (subst (λ m. P m (v, n)) (=?_eq i j same) h)
  | inr other ↦ rw other (k j)
]

module _ (e : Ed25519) (entries : List Entry) where
  bytes_carry :
      (effects : List Effect)
      → All (CarriesSent e entries) effects
      → All (Carries e entries) (bytes_sent effects)
  bytes_carry [] h = tt
  bytes_carry (sent bytes target ∷ effects) h = (h.0, bytes_carry effects h.1)
  bytes_carry (told event ∷ effects) h = bytes_carry effects h.1

  carried :
      (datagrams : List Bytes) (datagram : Bytes)
      → All (Carries e entries) datagrams
      → Any (λ bytes. bytes ≡ datagram) datagrams
      → Carries e entries datagram
  carried [] datagram h m = absurd m
  carried (bytes ∷ datagrams) datagram h (inl here) = subst (Carries e entries) here h.0
  carried (bytes ∷ datagrams) datagram h (inr later) = carried datagrams datagram h.1 later

  heard :
      (datagrams : List Bytes) (wake : Wake)
      → All (Carries e entries) datagrams
      → Hears (λ datagram. Any (λ bytes. bytes ≡ datagram) datagrams) wake
      → Hears (Carries e entries) wake
  heard datagrams ticked h m = tt
  heard datagrams (kicked o) h m = tt
  heard datagrams (control o) h m = tt
  heard datagrams (received none) h m = tt
  heard datagrams (received (some (datagram, src))) h m = carried datagrams datagram h m

  module _ (nodes : ℕ → GossipConfig) (addresses : ℕ → List Ipv6Addr)
      (one : (i : ℕ) → (nodes i).ed25519 ≡ e) (are : AreEntries e entries) where
    -- A node that is settled, with its echoes paid for by the entries that it has taken.
    abbrev IsCalm : ℕ → Service × ℕ → Type 0
    IsCalm i (s, echoes) =
        IsSettled (nodes i) entries (addresses i) s
        × (echoes + count_fresh (nodes i).ed25519 s.store entries ≤ length entries)

    record IsCalmNetwork (w : Network) : Type 0 where
      calm : (i : ℕ) → IsCalm i (w.services i, w.echoes i)
      known : All (Carries e entries) w.datagrams

    woken :
        (w : Network) (i : ℕ) (around : Surroundings) (wake : Wake)
        → IsCalmNetwork w
        → IsSteady (addresses i) around
        → Hears (λ datagram. Any (λ bytes. bytes ≡ datagram) w.datagrams) wake
        → Settles
            (nodes i)
            entries
            (addresses i)
            (w.services i)
            wake
            (serve (nodes i) (w.services i) around wake)
    woken w i around wake calm steady h =
        serve-Settles (nodes i) entries (subst (λ f. AreEntries f entries) (sym (one i)) are)
          (addresses i) (w.services i) (calm.calm i).0 around steady wake
          (subst (λ f. Hears (Carries f entries) wake) (sym (one i))
            (heard w.datagrams wake calm.known h))

    wake_up-IsCalm :
        (w : Network) (i : ℕ) (around : Surroundings) (wake : Wake)
        → IsCalmNetwork w
        → IsSteady (addresses i) around
        → Hears (λ datagram. Any (λ bytes. bytes ≡ datagram) w.datagrams) wake
        → IsCalmNetwork (wake_up nodes w i around wake)
    wake_up-IsCalm w i around wake calm steady h =
        let after = woken w i around wake calm steady h in
        let r = serve (nodes i) (w.services i) around wake in
        record {
          calm =
              set_both IsCalm i r.0 (echo wake r.1 + w.echoes i) w.services w.echoes
                (after.settled, omega (arith, after.spent, (calm.calm i).1)) calm.calm;
          known =
              All-append (Carries e entries) (bytes_sent r.1) w.datagrams
                (bytes_carry r.1
                  (subst (λ f. All (CarriesSent f entries) r.1) (one i) after.carried))
                calm.known;
        }

    Run-IsCalm :
        {start w : Network} → IsCalmNetwork start → Run nodes addresses start w → IsCalmNetwork w
    Run-IsCalm calm starts = calm
    Run-IsCalm calm (wakes {w} run i around wake steady h) =
        wake_up-IsCalm w i around wake (Run-IsCalm calm run) steady h

    -- Nodes do not echo each other for ever: let every node of a network have announced its
    -- addresses, which stay the same, let there be valid entries of the right format among which
    -- are all that the nodes hold or announce, and let no datagram be under way. Then, whatever
    -- wakes the nodes, where datagrams come from the nodes and may be lost, repeated and out of
    -- order, every datagram sent decodes to one of these entries or to none, and at each node no
    -- more datagrams have an effect (are passed on or told) than there are entries.
    pub Run-dies_out :
        (services : ℕ → Service) {w : Network}
        → ((i : ℕ) → IsSettled (nodes i) entries (addresses i) (services i))
        → Run nodes addresses (starting services) w
        → All (Carries e entries) w.datagrams × ((i : ℕ) → w.echoes i ≤ length entries)
    Run-dies_out services {w} settled run =
        let start = starting services in
        let calm =
          Run-IsCalm {start = start}
            (record {
              calm = λ i. (
                settled i,
                omega (arith, count_fresh-le (nodes i).ed25519 (services i).store entries),
              );
              known = tt;
            })
            run in
        (calm.known, λ i. omega (arith, (calm.calm i).1))
