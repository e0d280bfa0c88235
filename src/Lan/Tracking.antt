-- ===== src/Lan/Tracking.antt =====
-- The LAN table over time: its invariant, and the sequence numbers that it holds.
use hextet.Base.{
  is_empty, ℕ, ◌≤◌, ◌≡◌, ◌≢◌, refl, sym, ap, ◌∙◌, subst, Bool, false, List, [], ◌∷◌, length, take,
  leb, ltb, ◌=?◌, Option, none, some, arith, Bool-cases, Option-cases, inl, inr, =?_eq, ℕ_equality,
  list_equality,
}
use hextet.Base.Assoc.{
  lookup, insert, IsMap, insert-IsMap, remove_all-IsMap, length-remove_all, length-insert_old,
  length-insert_new, lookup-insert, insert_cases, lookup-remove_all_where, keys_where, keep_unless,
}
use hextet.Base.Bytes.{Bytes}
use hextet.Endpoint.{Endpoint, endpoint_equality}
use hextet.Lan.{
  LanTable, LanConfig, Entry, Handled, Surroundings, Wake, ticked, kicked, received, prune,
  entry_of, is_expired, add_new, record_beacon, max_tracked, own_key, handle_datagram, buf_len,
  announce, serve, tell,
}
use hextet.Lan.Handling.{recorded, handle_datagram_cases}
use hextet.Wire.Beacon.{endpoints}

-- At most 64 nodes, each once, with at least one endpoint; never the own node.
pub record IsTracking (c : LanConfig) (table : LanTable) : Type 0 where
  pub is_map : IsMap table
  pub bounded : length table ≤ max_tracked
  pub not_own : lookup (own_key c) table ≡ none
  pub reachable : (k : Bytes) (e : Entry) → lookup k table ≡ some e → e.endpoints ≢ []

pub lookup-prune :
    (table : LanTable) (now : ℕ) (k : Bytes)
    → IsMap table
    → lookup k (prune table now) ≡ keep_unless (is_expired now) (lookup k table)
unfolding prune
lookup-prune table now k m = lookup-remove_all_where (is_expired now) k table m

kept_some :
    (p : Entry → Bool) (o : Option Entry) (e : Entry) → keep_unless p o ≡ some e → o ≡ some e
kept_some p none e h = absurd (cc h)
kept_some p (some x) e h = ground arith

not_empty : (eps : List Endpoint) → is_empty eps ≡ false → eps ≢ []
not_empty [] h = cc
not_empty (ep ∷ eps) h = λ q. cc

-- Pruning only forgets.
pub pruned_from :
    (table : LanTable) (now : ℕ) (k : Bytes) (e : Entry)
    → IsMap table
    → lookup k (prune table now) ≡ some e
    → lookup k table ≡ some e
pruned_from table now k e m h =
    kept_some (is_expired now) (lookup k table) e (sym (lookup-prune table now k m) ∙ h)

module _ (c : LanConfig) where
  prune-IsTracking :
      (table : LanTable) (now : ℕ) → IsTracking c table → IsTracking c (prune table now)
  prune-IsTracking table now t = record {
    is_map = unfold prune in remove_all-IsMap (keys_where (is_expired now) table) table t.is_map;
    bounded =
        unfold prune in
        omega (arith, t.bounded, length-remove_all (keys_where (is_expired now) table) table);
    not_own =
        lookup-prune table now (own_key c) t.is_map ∙ ap (keep_unless (is_expired now)) t.not_own;
    reachable = λ k e h. t.reachable k e (pruned_from table now k e t.is_map h);
  }

  insert-IsTracking :
      (table : LanTable) (key : Bytes) (e : Entry)
      → IsTracking c table
      → length (insert key e table) ≤ max_tracked
      → key ≢ own_key c
      → e.endpoints ≢ []
      → IsTracking c (insert key e table)
  insert-IsTracking table key e t small other usable = record {
    is_map = insert-IsMap key e table t.is_map;
    bounded = small;
    not_own =
        ground (arith, lookup-insert key (own_key c) e table, =?_eq key (own_key c), t.not_own);
    reachable = λ k x h. elim (insert_cases key k e x table h) [
      | inl (_, is_e) ↦ λ q. usable (ap (λ (y : Entry). y.endpoints) is_e ∙ q)
      | inr (_, old) ↦ t.reachable k x old
    ];
  }

  -- A new node is added to a table that still has room, perhaps after pruning.
  add_new-IsTracking :
      (table : LanTable) (key : Bytes) (eps : List Endpoint) (seq now : ℕ)
      → IsTracking c table
      → lookup key table ≡ none
      → key ≢ own_key c
      → eps ≢ []
      → IsTracking c (add_new table key eps seq now).0
  unfolding add_new
  add_new-IsTracking table key eps seq now t fresh other usable =
      let e = entry_of eps seq now in
      let pruned = prune-IsTracking table now t in
      let gone : lookup key (prune table now) ≡ none =
        lookup-prune table now key t.is_map ∙ ap (keep_unless (is_expired now)) fresh in
      elim (Bool-cases (leb max_tracked (length table))) [
        | inr room ↦ rw room (
            insert-IsTracking table key e t (ground (arith, length-insert_new key e table)) other
              usable)
        | inl full ↦ elim (Bool-cases (leb max_tracked (length (prune table now)))) [
          | inl still ↦ rw (full, still) pruned
          | inr room ↦
              rw (full, room)
                (insert-IsTracking (prune table now) key e pruned
                  (ground (arith, length-insert_new key e (prune table now))) other usable)
        ]
      ]

  record_beacon-IsTracking :
      (table : LanTable) (key : Bytes) (eps : List Endpoint) (seq now : ℕ)
      → IsTracking c table
      → key ≢ own_key c
      → eps ≢ []
      → IsTracking c (record_beacon table key eps seq now).0
  unfolding record_beacon
  record_beacon-IsTracking table key eps seq now t other usable =
      elim (Option-cases (lookup key table)) [
        | inl fresh ↦
            rw (fresh, record_beacon)
              (add_new-IsTracking table key eps seq now t fresh other usable)
        | inr (e, old) ↦
            let put : (x : Entry) → x.endpoints ≢ [] → IsTracking c (insert key x table) = λ x k.
              insert-IsTracking table key x t
                (omega (arith, t.bounded, length-insert_old key x e table old)) other k in
            elim (Bool-cases (ltb seq e.seq)) [
              | inl older ↦ rw (old, record_beacon, older) t
              | inr newer ↦ elim (Bool-cases (e.endpoints =? eps)) [
                | inl same ↦
                    rw (old, record_beacon, newer, same)
                      (put (entry_of e.endpoints seq now) (t.reachable key e old))
                | inr changed ↦
                    rw (old, record_beacon, newer, changed) (put (entry_of eps seq now) usable)
              ]
            ]
      ]

  handle_datagram-IsTracking :
      (table : LanTable) (now : ℕ) (buf : Bytes)
      → IsTracking c table
      → IsTracking c (handle_datagram c table now buf).1
  handle_datagram-IsTracking table now buf t = elim (handle_datagram_cases c table now buf) [
    | inl ignored ↦ rw ignored t
    | inr (b, is, noted) ↦
        let kept =
          record_beacon-IsTracking table (c.base64.encode b.node_public_key) (endpoints b) b.seq now
            t is.not_own is.usable in
        subst (λ h. IsTracking c h.1) (sym noted)
          (elim (Bool-cases (recorded c table now b).1) [
            | inl changed ↦ rw changed kept
            | inr same ↦ rw same kept
          ])
  ]

  pub tell_table : (around : Surroundings) (h : Handled) → (tell around h).0 ≡ h.1
  tell_table around (none, table) = refl
  tell_table around (some update, table) = ground arith

  -- Whatever wakes the loop, the table keeps at most 64 nodes, each once and with at least one
  -- endpoint, and never the own node.
  pub serve-IsTracking :
      (table : LanTable) (around : Surroundings) (wake : Wake)
      → IsTracking c table
      → IsTracking c (serve c table around wake).0
  unfolding serve announce
  serve-IsTracking table around ticked t = prune-IsTracking table around.now t
  serve-IsTracking table around (kicked none) t = t
  serve-IsTracking table around (kicked (some u)) t = prune-IsTracking table around.now t
  serve-IsTracking table around (received none) t = t
  serve-IsTracking table around (received (some datagram)) t =
      let buf = take buf_len datagram in
      rw (tell_table around (handle_datagram c table around.now buf))
        (handle_datagram-IsTracking table around.now buf t)
