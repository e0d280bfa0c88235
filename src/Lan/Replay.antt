-- ===== src/Lan/Replay.antt =====
-- Sequence numbers: what the table holds of a node is replaced by nothing older.
use hextet.Base.{
  ℕ, ◌≤◌, ◌≡◌, refl, sym, ap, subst, ltb, true, false, List, length, take, leb, ◌=?◌, none, some,
  arith, Bool-cases, Option-cases, inl, inr, ℕ_equality, list_equality,
}
use hextet.Base.Assoc.{lookup, insert, IsMap, insert_cases}
use hextet.Base.Bytes.{Bytes}
use hextet.Endpoint.{Endpoint, endpoint_equality}
use hextet.Lan.{
  LanTable, LanConfig, Entry, Surroundings, Wake, ticked, kicked, received, prune, entry_of,
  add_new, record_beacon, max_tracked, buf_len, handle_datagram, announce, serve,
}
use hextet.Lan.Handling.{recorded, notice_table, handle_datagram_cases}
use hextet.Lan.Tracking.{IsTracking, pruned_from, tell_table}
use hextet.Wire.Beacon.{endpoints}

abbrev pub NoOlder : LanTable → LanTable → Type 0
NoOlder before after =
    (k : Bytes) (e e' : Entry)
    → lookup k before ≡ some e
    → lookup k after ≡ some e'
    → e.seq ≤ e'.seq

-- A table whose entries were all in another one.
abbrev Within : LanTable → LanTable → Type 0
Within before after = (k : Bytes) (e : Entry) → lookup k after ≡ some e → lookup k before ≡ some e

Within-NoOlder : (before after : LanTable) → Within before after → NoOlder before after
Within-NoOlder before after w k e e' h h' =
    let same : e ≡ e' = cc (h, w k e' h') in omega (arith, ap (λ (x : Entry). x.seq) same)

insert-NoOlder :
    (before middle : LanTable) (key : Bytes) (x : Entry)
    → Within before middle
    → ((e : Entry) → lookup key before ≡ some e → e.seq ≤ x.seq)
    → NoOlder before (insert key x middle)
insert-NoOlder before middle key x w newer k e e' h h' = elim (insert_cases key k x e' middle h') [
  | inl (is_key, is_x) ↦
      subst (λ (y : Entry). e.seq ≤ y.seq) is_x
        (newer e (subst (λ j. lookup j before ≡ some e) (sym is_key) h))
  | inr (_, old) ↦ Within-NoOlder before middle w k e e' h old
]

-- The ways through `record_beacon`.
module _ (table : LanTable) (key : Bytes) (eps : List Endpoint) (seq now : ℕ) where
  pub fresh_added :
      lookup key table ≡ none → record_beacon table key eps seq now ≡ add_new table key eps seq now
  unfolding record_beacon
  fresh_added fresh = rw (fresh, record_beacon) refl

  module _ (e : Entry) (old : lookup key table ≡ some e) where
    pub older_kept : ltb seq e.seq ≡ true → record_beacon table key eps seq now ≡ (table, false)
    unfolding record_beacon
    older_kept h = rw (old, record_beacon, h) refl

    pub same_refreshed :
        ltb seq e.seq ≡ false
        → (e.endpoints =? eps) ≡ true
        → record_beacon table key eps seq now
          ≡ (insert key (entry_of e.endpoints seq now) table, false)
    unfolding record_beacon
    same_refreshed h k = rw (old, record_beacon, h, k) refl

    pub changed_put :
        ltb seq e.seq ≡ false
        → (e.endpoints =? eps) ≡ false
        → record_beacon table key eps seq now ≡ (insert key (entry_of eps seq now) table, true)
    unfolding record_beacon
    changed_put h k = rw (old, record_beacon, h, k) refl

  add_new-NoOlder :
      IsMap table → lookup key table ≡ none → NoOlder table (add_new table key eps seq now).0
  unfolding add_new
  add_new-NoOlder m fresh =
      let x = entry_of eps seq now in
      let never : (e : Entry) → lookup key table ≡ some e → e.seq ≤ x.seq =
        λ e h. absurd (cc (h, fresh)) in
      elim (Bool-cases (leb max_tracked (length table))) [
        | inr room ↦ rw room (insert-NoOlder table table key x (λ k e h. h) never)
        | inl full ↦
            let forgets : Within table (prune table now) = λ k e h. pruned_from table now k e m h in
            elim (Bool-cases (leb max_tracked (length (prune table now)))) [
              | inl still ↦ rw (full, still) (Within-NoOlder table (prune table now) forgets)
              | inr room ↦
                  rw (full, room) (insert-NoOlder table (prune table now) key x forgets never)
            ]
      ]

  record_beacon-NoOlder : IsMap table → NoOlder table (record_beacon table key eps seq now).0
  record_beacon-NoOlder m = elim (Option-cases (lookup key table)) [
    | inl fresh ↦ subst (λ r. NoOlder table r.0) (sym (fresh_added fresh)) (add_new-NoOlder m fresh)
    | inr (e, old) ↦ elim (Bool-cases (ltb seq e.seq)) [
      | inl older ↦
          subst (λ r. NoOlder table r.0) (sym (older_kept e old older))
            (Within-NoOlder table table (λ k x h. h))
      | inr newer ↦
          let put : (x : Entry) → x.seq ≡ seq → NoOlder table (insert key x table) = λ x is_seq.
            insert-NoOlder table table key x (λ k y h. h) (λ y h. ground (arith, old, h)) in
          elim (Bool-cases (e.endpoints =? eps)) [
            | inl same ↦
                subst (λ r. NoOlder table r.0) (sym (same_refreshed e old newer same))
                  (put (entry_of e.endpoints seq now) refl)
            | inr changed ↦
                subst (λ r. NoOlder table r.0) (sym (changed_put e old newer changed))
                  (put (entry_of eps seq now) refl)
          ]
    ]
  ]

handle_datagram-NoOlder :
    (c : LanConfig) (table : LanTable) (now : ℕ) (buf : Bytes)
    → IsMap table
    → NoOlder table (handle_datagram c table now buf).1
handle_datagram-NoOlder c table now buf m = elim (handle_datagram_cases c table now buf) [
  | inl ignored ↦
      subst (λ h. NoOlder table h.1) (sym ignored) (Within-NoOlder table table (λ k e h. h))
  | inr (b, is, noted) ↦
      let r = recorded c table now b in
      subst (λ h. NoOlder table h.1) (sym noted)
        (subst (NoOlder table) (sym (notice_table c b r)) (
          record_beacon-NoOlder table (c.base64.encode b.node_public_key) (endpoints b) b.seq now
            m))
]

-- Whatever wakes the loop, what the table holds of a node is replaced only by a beacon whose
-- sequence number is at least as large; it can only be forgotten.
pub serve-NoOlder :
    (c : LanConfig) (table : LanTable) (around : Surroundings) (wake : Wake)
    → IsTracking c table
    → NoOlder table (serve c table around wake).0
unfolding serve announce
serve-NoOlder c table around ticked t =
    Within-NoOlder table _ (λ k e h. pruned_from table around.now k e t.is_map h)
serve-NoOlder c table around (kicked none) t = Within-NoOlder table table (λ k e h. h)
serve-NoOlder c table around (kicked (some u)) t =
    Within-NoOlder table _ (λ k e h. pruned_from table around.now k e t.is_map h)
serve-NoOlder c table around (received none) t = Within-NoOlder table table (λ k e h. h)
serve-NoOlder c table around (received (some datagram)) t =
    let buf = take buf_len datagram in
    let h = handle_datagram c table around.now buf in
    subst (NoOlder table) (sym (tell_table c around h))
      (handle_datagram-NoOlder c table around.now buf t.is_map)
