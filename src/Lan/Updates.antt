-- ===== src/Lan/Updates.antt =====
-- What an update tells the daemon, and when the same beacon is told again.
use hextet.Base.{
  ℕ, ◌≤◌, ◌≡◌, ◌≢◌, sym, ap, subst, ◌∙◌, ltb, Bool, true, false, List, ◌=?◌, none, some, arith,
  Bool-cases, Option-cases, inl, inr, =?_ne, =?_self, ℕ_equality, list_equality,
}
use hextet.Base.Assoc.{lookup, insert_self}
use hextet.Base.Bytes.{Bytes}
use hextet.Endpoint.{Endpoint, endpoint_equality}
use hextet.Lan.{
  LanTable, LanConfig, Entry, prune, entry_of, add_new, record_beacon, update_of, handle_datagram,
}
use hextet.Lan.Handling.{IsHeard, recorded, notice, handle_datagram_cases}
use hextet.Lan.Replay.{fresh_added, older_kept, same_refreshed, changed_put}
use hextet.Peer.Candidates.{DiscoveredEndpoints}
use hextet.Wire.Beacon.{Beacon, endpoints}

-- A change that the table reports is stored, is news, and is not older than what it replaces.
pub record IsNews (table after : LanTable) (key : Bytes) (eps : List Endpoint) (seq now : ℕ)
    : Type 0 where
  pub stored : lookup key after ≡ some (entry_of eps seq now)
  pub newer : (e : Entry) → lookup key table ≡ some e → (e.seq ≤ seq) × (e.endpoints ≢ eps)

module _ (table : LanTable) (key : Bytes) (eps : List Endpoint) (seq now : ℕ) where
  added :
      (add_new table key eps seq now).1 ≡ true
      → lookup key (add_new table key eps seq now).0 ≡ some (entry_of eps seq now)
  unfolding add_new
  added h = ground (
    arith,
    insert_self key (entry_of eps seq now) table,
    insert_self key (entry_of eps seq now) (prune table now),
  )

  record_beacon-IsNews :
      (after : LanTable)
      → record_beacon table key eps seq now ≡ (after, true)
      → IsNews table after key eps seq now
  record_beacon-IsNews after h = elim (Option-cases (lookup key table)) [
    | inl fresh ↦
        let e = sym (fresh_added table key eps seq now fresh) ∙ h in
        record {
          stored =
              subst (λ t. lookup key t ≡ some (entry_of eps seq now)) (ap (λ r. r.0) e)
                (added (ap (λ r. r.1) e));
          newer = λ x old. absurd (cc (old, fresh));
        }
    | inr (e, old) ↦ elim (Bool-cases (ltb seq e.seq)) [
      | inl older ↦ absurd (cc (older_kept table key eps seq now e old older, h))
      | inr newer ↦ elim (Bool-cases (e.endpoints =? eps)) [
        | inl same ↦ absurd (cc (same_refreshed table key eps seq now e old newer same, h))
        | inr changed ↦
            let the_same : (x : Entry) → lookup key table ≡ some x → e ≡ x = λ x is. cc (old, is) in
            let put = sym (changed_put table key eps seq now e old newer changed) ∙ h in
            record {
              stored =
                  subst (λ t. lookup key t ≡ some (entry_of eps seq now)) (ap (λ r. r.0) put)
                    (insert_self key (entry_of eps seq now) table);
              newer = λ x is.
                  subst (λ (y : Entry). (y.seq ≤ seq) × (y.endpoints ≢ eps)) (the_same x is)
                    (ground arith, =?_ne e.endpoints eps changed);
            }
      ]
    ]
  ]

-- What stands behind an update: the beacon, and its news.
pub record IsUpdate (c : LanConfig) (table : LanTable) (now : ℕ) (buf : Bytes)
    (update : DiscoveredEndpoints) (after : LanTable) : Type 0 where
  pub beacon : Beacon
  pub heard : IsHeard c now buf beacon
  pub told : update ≡ update_of (c.base64.encode beacon.node_public_key) (endpoints beacon)
  pub news :
      IsNews table after (c.base64.encode beacon.node_public_key) (endpoints beacon) beacon.seq now

module _ (c : LanConfig) (table : LanTable) (now : ℕ) (buf : Bytes) (update : DiscoveredEndpoints)
    (after : LanTable) where
  notice-some :
      (b : Beacon) (r : LanTable × Bool)
      → notice c b r ≡ (some update, after)
      → (r ≡ (after, true)) × (update ≡ update_of (c.base64.encode b.node_public_key) (endpoints b))
  notice-some b (t, true) h = (cc h, cc h)
  notice-some b (t, false) h = absurd (cc h)

  -- A datagram makes the daemon hear of an update only if it holds a beacon that is authentic under
  -- the LAN key, of another node, within 300 seconds of the clock, and with a usable endpoint.
  -- The update is the beacon's key and usable endpoints; they are now what the table holds of
  -- that node, with the beacon's sequence number, and what they replace is not newer and is
  -- another list of endpoints.
  pub handle_datagram-IsUpdate :
      handle_datagram c table now buf ≡ (some update, after) → IsUpdate c table now buf update after
  handle_datagram-IsUpdate h = elim (handle_datagram_cases c table now buf) [
    | inl ignored ↦ absurd (cc (ignored, h))
    | inr (b, is, noted) ↦
        let (changed, is_update) = notice-some b (recorded c table now b) (sym noted ∙ h) in
        record {
          beacon = b;
          heard = is;
          told = is_update;
          news =
              record_beacon-IsNews table (c.base64.encode b.node_public_key) (endpoints b) b.seq now
                after changed;
        }
  ]

-- The beacon of an update tells nothing when it comes again, at whatever time that is.
handle_datagram_repeated :
    (c : LanConfig) (table : LanTable) (now : ℕ) (buf : Bytes) (update : DiscoveredEndpoints)
    (after : LanTable) (later : ℕ)
    → handle_datagram c table now buf ≡ (some update, after)
    → (handle_datagram c after later buf).0 ≡ none
handle_datagram_repeated c table now buf update after later h =
    let u = handle_datagram-IsUpdate c table now buf update after h in
    elim (handle_datagram_cases c after later buf) [
      | inl ignored ↦ ap (λ r. r.0) ignored
      | inr (b, is, noted) ↦
          let same : u.beacon ≡ b = cc (u.heard.authentic, is.authentic) in
          let key = c.base64.encode u.beacon.node_public_key in
          let eps = endpoints u.beacon in
          let refreshed =
            same_refreshed after key eps u.beacon.seq later (entry_of eps u.beacon.seq now)
              u.news.stored (ground arith) (=?_self eps) in
          ap (λ r. r.0) noted
          ∙ subst (λ x. (notice c x (recorded c after later x)).0 ≡ none) same
              (ap (λ r. (notice c u.beacon r).0) refreshed)
    ]
