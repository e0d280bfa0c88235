-- ===== src/Gossip/Service/Announcing.antt =====
-- The own endpoint entry: when it is made again, and with which sequence number.
use hextet.Base.{
  is_empty, ℕ, ◌+◌, ◌%◌, ◌^◌, ◌≤◌, ◌<◌, max, ◌≡◌, ◌≢◌, ◌⊎◌, refl, sym, ap, ◌∙◌, subst, true, false,
  Bool-cases, inl, inr, arith, List, take, ◌=?◌, =?_eq, =?_self, ℕ_equality, list_equality, some,
  none, Ordering,
}
use hextet.Addr.{Ipv6Addr}
use hextet.Base.Bytes.{Bytes}
use hextet.Base.Outcome.{Outcome, ok, err, panic, ◌>>=◌, >>=-eq-ok}
use hextet.Gossip.Codec.{max_addrs, sign_endpoint, encode, is_valid}
use hextet.Gossip.Codec.Signing.{sign_endpoint_made}
use hextet.Gossip.Entry.{Entry, Kind, GossipError, node_of, seq_of, kind_of}
use hextet.Gossip.Store.{lww_compare}
use hextet.Gossip.Service.{GossipConfig, Broadcast, announce, own_entry}

-- What stands behind the bytes of an announcement: a valid endpoint entry of this node.
pub record IsOwn (c : GossipConfig) (bytes : Bytes) (x : Entry) : Type 0 where
  pub encoded_as : encode x ≡ ok bytes
  pub valid : is_valid c.ed25519 x ≡ true
  pub own : node_of x ≡ c.ed25519.public c.own_identity
  pub is_endpoint : kind_of x ≡ Kind.endpoint

-- The announcement that is kept is one of this node, and not newer than `seq`, a `u64`.
pub record IsAnnounced (c : GossipConfig) (bc : Broadcast) : Type 0 where
  pub seq_u64 : bc.seq < 2 ^ 64
  pub kept :
      (bytes : Bytes)
      → bc.entry_bytes ≡ some bytes
      → (x : Entry) × IsOwn c bytes x × (seq_of x ≤ bc.seq)

abbrev next_seq : Broadcast → ℕ → ℕ
next_seq bc now = max ((bc.seq + 1) % 2 ^ 64) now

module _ (c : GossipConfig) (bc : Broadcast) (all : List Ipv6Addr) (now : ℕ) where
  abbrev addrs : List Ipv6Addr
  addrs = take max_addrs all

  abbrev made : Outcome GossipError Bytes
  made = sign_endpoint c.ed25519 c.own_identity addrs c.listen_port (next_seq bc now) >>= encode

  made-IsOwn :
      (bytes : Bytes)
      → made ≡ ok bytes
      → (x : Entry) × IsOwn c bytes x × (seq_of x ≡ next_seq bc now)
  made-IsOwn bytes h =
      let (x, signed, encoded) =
        >>=-eq-ok (sign_endpoint c.ed25519 c.own_identity addrs c.listen_port (next_seq bc now))
          encode h in
      let (valid, own, seq, endpoint) =
        sign_endpoint_made c.ed25519 c.own_identity addrs c.listen_port (next_seq bc now) x
          signed in
      (x, record { encoded_as = encoded; valid = valid; own = own; is_endpoint = endpoint }, seq)

  -- The three ways through the function.
  pub empty_kept : is_empty addrs ≡ true → own_entry c bc all now ≡ (none, bc)
  unfolding own_entry
  empty_kept h = rw h refl

  pub same_kept :
      is_empty addrs ≡ false
      → (addrs =? bc.last_addrs) ≡ true
      → own_entry c bc all now ≡ (bc.entry_bytes, bc)
  unfolding own_entry
  same_kept h k = rw (h, k) refl

  changed_made :
      is_empty addrs ≡ false
      → (addrs =? bc.last_addrs) ≡ false
      → own_entry c bc all now ≡ announce bc addrs (next_seq bc now) made
  unfolding own_entry
  changed_made h k = rw (h, k) refl

  next_seq_bounds :
      bc.seq + 1 < 2 ^ 64 → now < 2 ^ 64 → (bc.seq < next_seq bc now) × (next_seq bc now < 2 ^ 64)
  next_seq_bounds h k = ground arith

  kept_on :
      IsAnnounced c bc
      → bc.seq + 1 < 2 ^ 64
      → now < 2 ^ 64
      → (bytes : Bytes) → bc.entry_bytes ≡ some bytes
      → (x : Entry) × IsOwn c bytes x × (seq_of x ≤ next_seq bc now)
  kept_on a h k bytes e =
      let (x, own, old) = a.kept bytes e in (x, own, omega (arith, (next_seq_bounds h k).0))

  announce-IsAnnounced :
      (o : Outcome GossipError Bytes)
      → made ≡ o
      → IsAnnounced c bc
      → bc.seq + 1 < 2 ^ 64
      → now < 2 ^ 64
      → IsAnnounced c (announce bc addrs (next_seq bc now) o).1
  announce-IsAnnounced (ok bytes) e a h k =
      let (x, own, seq) = made-IsOwn bytes e in
      record {
        seq_u64 = (next_seq_bounds h k).1;
        kept = λ b q. (x, subst (λ t. IsOwn c t x) (cc q) own, omega (arith, seq));
      }
  announce-IsAnnounced (err why) e a h k = record {
    seq_u64 = (next_seq_bounds h k).1;
    kept = kept_on a h k;
  }
  announce-IsAnnounced panic e a h k = record {
    seq_u64 = (next_seq_bounds h k).1;
    kept = kept_on a h k;
  }

  -- What is kept stays an announcement of this node, not newer than the sequence number.
  pub own_entry-IsAnnounced :
      IsAnnounced c bc
      → bc.seq + 1 < 2 ^ 64
      → now < 2 ^ 64
      → IsAnnounced c (own_entry c bc all now).1
  own_entry-IsAnnounced a h k = elim (Bool-cases (is_empty addrs)) [
    | inl nothing ↦ rw (empty_kept nothing) a
    | inr some_addr ↦ elim (Bool-cases (addrs =? bc.last_addrs)) [
      | inl same ↦ rw (same_kept some_addr same) a
      | inr changed ↦ rw (changed_made some_addr changed) (announce-IsAnnounced made refl a h k)
    ]
  ]

  announced :
      (o : Outcome GossipError Bytes) (bytes : Bytes) (after : Broadcast)
      → announce bc addrs (next_seq bc now) o ≡ (some bytes, after)
      → (o ≡ ok bytes)
        × (after ≡ record { last_addrs = addrs; entry_bytes = some bytes; seq = next_seq bc now })
  announced (ok b) bytes after h = (cc h, cc h)
  announced (err why) bytes after h = absurd (cc h)
  announced panic bytes after h = absurd (cc h)

  -- An announcement is either the one that is kept, or a new one.
  pub own_entry_cases :
      (bytes : Bytes) (after : Broadcast)
      → own_entry c bc all now ≡ (some bytes, after)
      → (is_empty addrs ≡ false)
        × (((addrs ≡ bc.last_addrs) × (bc.entry_bytes ≡ some bytes) × (after ≡ bc))
            ⊎ ((made ≡ ok bytes)
                × (after ≡ record {
                  last_addrs = addrs;
                  entry_bytes = some bytes;
                  seq = next_seq bc now;
                })))
  own_entry_cases bytes after h = elim (Bool-cases (is_empty addrs)) [
    | inl nothing ↦ absurd (cc (h, empty_kept nothing))
    | inr some_addr ↦ (
      some_addr,
      elim (Bool-cases (addrs =? bc.last_addrs)) [
        | inl same ↦
            let kept = sym (same_kept some_addr same) ∙ h in
            inl (=?_eq addrs bc.last_addrs same, ap (λ r. r.0) kept, sym (ap (λ r. r.1) kept))
        | inr changed ↦ inr (announced made bytes after (sym (changed_made some_addr changed) ∙ h))
      ],
    )
  ]

newer_greater : (x y : Entry) → seq_of y < seq_of x → lww_compare x y ≡ Ordering.gt
unfolding lww_compare
newer_greater x y h = ground arith

-- As long as the addresses stay the same, the same bytes are announced, and nothing changes.
own_entry_steady :
    (c : GossipConfig) (bc : Broadcast) (all : List Ipv6Addr) (now : ℕ) (bytes : Bytes)
    (after : Broadcast) (later : ℕ)
    → own_entry c bc all now ≡ (some bytes, after)
    → own_entry c after all later ≡ (some bytes, after)
own_entry_steady c bc all now bytes after later h =
    let (some_addr, ways) = own_entry_cases c bc all now bytes after h in
    let again : (b : Broadcast)
        → take max_addrs all ≡ b.last_addrs
        → b.entry_bytes ≡ some bytes
        → own_entry c b all later ≡ (some bytes, b) =
      λ b e k.
        same_kept c b all later some_addr
          (subst (λ a. (take max_addrs all =? a) ≡ true) e (=?_self (take max_addrs all)))
        ∙ ap (λ o. (o, b)) k in
    elim ways [
      | inl (same, kept, unchanged) ↦ rw unchanged (again bc same kept)
      | inr (made_so, is_after) ↦ rw is_after (again _ refl refl)
    ]

-- An announcement of other addresses wins over every entry that is not newer than the last
-- sequence number, however the clock has been set back, if the clock and the next sequence number
-- are below 2^64.
pub own_entry_supersedes :
    (c : GossipConfig) (bc : Broadcast) (all : List Ipv6Addr) (now : ℕ) (bytes : Bytes)
    (after : Broadcast)
    → bc.seq + 1 < 2 ^ 64
    → now < 2 ^ 64
    → take max_addrs all ≢ bc.last_addrs
    → own_entry c bc all now ≡ (some bytes, after)
    → (x : Entry) × IsOwn c bytes x
      × ((y : Entry) → seq_of y ≤ bc.seq → lww_compare x y ≡ Ordering.gt)
own_entry_supersedes c bc all now bytes after h k other e =
    let (_, ways) = own_entry_cases c bc all now bytes after e in
    elim ways [
      | inl (same, _, _) ↦ absurd (other same)
      | inr (made_so, _) ↦
          let (x, own, seq) = made-IsOwn c bc all now bytes made_so in
          (
            x,
            own,
            λ y old. newer_greater x y (omega (arith, seq, (next_seq_bounds c bc all now h k).0)),
          )
    ]
