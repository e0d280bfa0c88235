-- ===== src/Lan/Handling.antt =====
-- The ways a datagram goes through `handle_datagram`.
use hextet.Base.{
  is_empty, ℕ, ◌≤◌, ◌≡◌, ◌≢◌, ◌⊎◌, inl, inr, refl, false, not, Bool, Bool-cases, [], ◌∷◌, List, ltb,
  ◌=?◌, =?_ne, if◌then◌else◌, none, some, arith, ℕ_equality, list_equality,
}
use hextet.Base.Bytes.{Bytes}
use hextet.Base.Outcome.{Outcome, ok, err, panic}
use hextet.Endpoint.{Endpoint}
use hextet.Lan.{
  LanTable, LanConfig, Handled, own_key, update_of, handle_beacon, handle_decoded, handle_datagram,
  record_beacon, seq_skew_tolerance_secs, abs_diff,
}
use hextet.Wire.Beacon.{Beacon, BeaconError, endpoints, decode}

not_empty : (eps : List Endpoint) → is_empty eps ≡ false → eps ≢ []
not_empty [] h = cc
not_empty (ep ∷ eps) h = λ q. cc

-- A beacon that gets as far as the table: authentic, from another node, on time, and of use.
pub record IsHeard (c : LanConfig) (now : ℕ) (buf : Bytes) (b : Beacon) : Type 0 where
  pub authentic : decode c.hmac c.ed25519 buf c.lan_key ≡ ok b
  pub not_own : c.base64.encode b.node_public_key ≢ own_key c
  pub timely : abs_diff b.seq now ≤ seq_skew_tolerance_secs
  pub usable : endpoints b ≢ []

abbrev pub recorded : LanConfig → LanTable → ℕ → Beacon → LanTable × Bool
recorded c table now b =
    record_beacon table (c.base64.encode b.node_public_key) (endpoints b) b.seq now

abbrev pub notice : LanConfig → Beacon → LanTable × Bool → Handled
notice c b r =
    if not r.1
    then (none, r.0)
    else (some (update_of (c.base64.encode b.node_public_key) (endpoints b)), r.0)

pub notice_table : (c : LanConfig) (b : Beacon) (r : LanTable × Bool) → (notice c b r).1 ≡ r.0
notice_table c b r = ground arith

module _ (c : LanConfig) (table : LanTable) (now : ℕ) where
  heard :
      (buf : Bytes) (b : Beacon)
      → decode c.hmac c.ed25519 buf c.lan_key ≡ ok b
      → (handle_beacon c table now b ≡ (none, table))
        ⊎ (IsHeard c now buf b
            × (handle_beacon c table now b ≡ notice c b (recorded c table now b)))
  unfolding handle_beacon
  heard buf b e =
      let key = c.base64.encode b.node_public_key in
      elim (Bool-cases (key =? own_key c)) [
        | inl own ↦ inl (rw own refl)
        | inr other ↦ elim (Bool-cases (ltb seq_skew_tolerance_secs (abs_diff b.seq now))) [
          | inl skewed ↦ inl (rw (other, skewed) refl)
          | inr timely ↦ elim (Bool-cases (is_empty (endpoints b))) [
            | inl nothing ↦ inl (rw (other, timely, nothing) refl)
            | inr usable ↦ inr (
              record {
                authentic = e;
                not_own = =?_ne key (own_key c) other;
                timely = ground arith;
                usable = not_empty (endpoints b) usable;
              },
              rw (other, timely, usable) refl,
            )
          ]
        ]
      ]

  -- A datagram is ignored, or holds a beacon that the table takes note of.
  pub handle_datagram_cases :
      (buf : Bytes)
      → (handle_datagram c table now buf ≡ (none, table))
        ⊎ ((b : Beacon) × IsHeard c now buf b
            × (handle_datagram c table now buf ≡ notice c b (recorded c table now b)))
  unfolding handle_datagram handle_decoded
  handle_datagram_cases buf = decoded (decode c.hmac c.ed25519 buf c.lan_key) refl
    where
      decoded :
          (o : Outcome BeaconError Beacon)
          → decode c.hmac c.ed25519 buf c.lan_key ≡ o
          → (handle_decoded c table now o ≡ (none, table))
            ⊎ ((b : Beacon) × IsHeard c now buf b
                × (handle_decoded c table now o ≡ notice c b (recorded c table now b)))
      decoded (ok b) e = elim (heard buf b e) [
        | inl ignored ↦ inl ignored
        | inr (is, noted) ↦ inr (b, is, noted)
      ]
      decoded (err why) e = inl refl
      decoded panic e = inl refl
