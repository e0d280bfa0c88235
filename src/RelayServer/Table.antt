-- ===== src/RelayServer/Table.antt =====
-- `RelayPolicy` and `RelayTable`.
use hextet.Base.{
  ℕ, ◌-◌, Bool, true, false, List, length, contains, ltb, leb, ◌==◌, if◌then◌else◌, Option, none,
  some, option_same, ℕ_equality, list_equality, pair_equality,
}
use hextet.Base.Assoc.{lookup, insert, keys_where, remove_all}
use hextet.Crypto.{PublicKey}
use hextet.Endpoint.{Endpoint, endpoint_equality}
use hextet.Wire.Relay.{SessionKey}

abbrev pub session_ttl : ℕ
session_ttl = 180

abbrev pub max_sessions : ℕ
max_sessions = 256

pub data RelayPolicy : Type 0 where
  any_member : RelayPolicy
  allowlist : List PublicKey → RelayPolicy

unfoldable pub allows : RelayPolicy → PublicKey → Bool
unfolding contains
allows any_member key = true
allows (allowlist list) key = contains list key

abbrev pub SessionAddrs : Type 0
SessionAddrs = Option Endpoint × Option Endpoint

pub record Session : Type 0 where
  pub port : ℕ
  pub addrs : SessionAddrs
  pub last_seen_unix : ℕ

abbrev pub RelayTable : Type 0
RelayTable = List (SessionKey × Session)

abbrev pub has_session : RelayTable → SessionKey → Bool
has_session table key = elim (lookup key table) [ some _ ↦ true | none ↦ false ]

-- The table after, and whether there was room.
unfoldable pub insert_session : RelayTable → SessionKey → ℕ → ℕ → RelayTable × Bool
insert_session table key port now_unix =
    if leb max_sessions (length table) then (table, false) else (
      insert key (record { port = port; addrs = (none, none); last_seen_unix = now_unix }) table,
      true,
    )

-- `addrs[side.min(1)]`.
abbrev pub slot : SessionAddrs → ℕ → Option Endpoint
slot (a, b) side = if side == 0 then a else b

abbrev pub set_slot : SessionAddrs → ℕ → Endpoint → SessionAddrs
set_slot (a, b) side addr = if side == 0 then (some addr, b) else (a, some addr)

-- The table after, and whether the side's address changed.
unfoldable pub touch_addr : RelayTable → SessionKey → ℕ → Endpoint → ℕ → RelayTable × Bool
touch_addr table key side addr now_unix = elim (lookup key table) [
  | none ↦ (table, false)
  | some session ↦
      if option_same (slot session.addrs side) (some addr)
      then (
        insert key
            (record { port = session.port; addrs = session.addrs; last_seen_unix = now_unix })
            table,
        false,
      )
      else (
        insert key
            (record {
              port = session.port;
              addrs = set_slot session.addrs side addr;
              last_seen_unix = now_unix;
            })
            table,
        true,
      )
]

abbrev pub addrs_of : RelayTable → SessionKey → SessionAddrs
addrs_of table key = elim (lookup key table) [ none ↦ (none, none) | some s ↦ s.addrs ]

abbrev pub port_of : RelayTable → SessionKey → Option ℕ
port_of table key = elim (lookup key table) [ none ↦ none | some s ↦ some s.port ]

abbrev pub is_stale : ℕ → Session → Bool
is_stale now_unix session = ltb session_ttl (now_unix - session.last_seen_unix)

-- `iter().filter().map()` over the map, then a loop of `remove`.
unfoldable pub prune : ℕ → RelayTable → RelayTable × List SessionKey
unfolding keys_where remove_all
prune now_unix table =
    let stale = keys_where (is_stale now_unix) table in (remove_all stale table, stale)
