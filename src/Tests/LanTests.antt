-- ===== src/Tests/LanTests.antt =====
-- A LAN table that hears a beacon.
use hextet.Base.{
  ◌≡◌, refl, [], ◌∷◌, ◌++◌, arith, true, some, none, list_same, ap, ◌∙◌, inl, inr, ℕ_equality,
  list_equality,
}
use hextet.Base.Assoc.{lookup, insert, insert_cases}
use hextet.Base.Bytes.{Bytes}
use hextet.Base.Bytes.Endian.{to_be_bytes, from_be_bytes}
use hextet.Base.Bytes.Slice.{slice, cut, byte_at, get_or}
use hextet.Base.Outcome.{Outcome, ok}
use hextet.Crypto.{repeat_byte, toy_hmac, toy_ed25519, toy_base64}
use hextet.Addr.{Ipv6Addr, is_usable_endpoint_addr, is_ula, is_link_local}
use hextet.Endpoint.{endpoint, endpoints_of}
use hextet.Lan.{
  LanConfig, LanTable, Entry, Surroundings, received, update_of, entry_of, handle_datagram,
  handle_decoded, handle_beacon, record_beacon, add_new, serve,
}
use hextet.Lan.Tracking.{IsTracking, serve-IsTracking}
use hextet.Lan.Replay.{NoOlder, serve-NoOlder}
use hextet.Lan.Updates.{IsUpdate, handle_datagram-IsUpdate}
use hextet.Wire.Addresses.{read_addresses}
use hextet.Wire.Beacon.{Beacon, BeaconError, encode, decode, decode_fields, endpoints}

abbrev bytes_of : Outcome BeaconError Bytes → Bytes
bytes_of (ok bytes) = bytes
bytes_of _ = []

abbrev config : LanConfig
config = record {
  hmac = toy_hmac;
  ed25519 = toy_ed25519;
  base64 = toy_base64;
  port = 4195;
  group = 0xff ∷ 0x02 ∷ repeat_byte 14 0;
  interfaces = 2 ∷ [];
  own_public_key = repeat_byte 32 9;
  lan_key = repeat_byte 32 5;
  listen_port = 4193;
}

-- 2001:db8::1.
abbrev address : Ipv6Addr
address = 0x20 ∷ 0x01 ∷ 0x0d ∷ 0xb8 ∷ repeat_byte 11 0 ++ 1 ∷ []

abbrev beacon : Beacon
beacon = record {
  node_public_key = repeat_byte 32 1;
  listen_port = 51820;
  seq = 1000;
  addresses = address ∷ [];
}

abbrev datagram : Bytes
datagram = bytes_of (encode toy_hmac beacon (repeat_byte 32 5))

abbrev heard : Entry
heard = entry_of (endpoint address 51820 ∷ []) 1000 1001

abbrev table : LanTable
table = (repeat_byte 32 1, heard) ∷ []

hears :
    handle_datagram config [] 1001 datagram
    ≡ (some (update_of (repeat_byte 32 1) (endpoint address 51820 ∷ [])), table)
unfolding handle_datagram handle_decoded handle_beacon record_beacon add_new lookup insert encode
    decode decode_fields read_addresses endpoints endpoints_of is_usable_endpoint_addr is_ula
    is_link_local list_same to_be_bytes from_be_bytes slice cut byte_at get_or
hears = refl

handle_datagram-IsUpdate_example :
    IsUpdate config [] 1001 datagram
      (update_of (repeat_byte 32 1) (endpoint address 51820 ∷ []))
      table
handle_datagram-IsUpdate_example =
    handle_datagram-IsUpdate config [] 1001 datagram
      (update_of (repeat_byte 32 1) (endpoint address 51820 ∷ [])) table hears

empty-IsTracking : IsTracking config []
unfolding lookup
empty-IsTracking = record {
  is_map = tt;
  bounded = omega arith;
  not_own = refl;
  reachable = λ k e h. absurd (cc h);
}

abbrev around : Surroundings
around = record { addresses = none; now = 1001; listening = true }

serve-IsTracking_example : IsTracking config (serve config [] around (received (some datagram))).0
serve-IsTracking_example =
    serve-IsTracking config [] around (received (some datagram)) empty-IsTracking

table-IsTracking : IsTracking config table
unfolding lookup insert list_same
table-IsTracking = record {
  is_map = (refl, tt);
  bounded = omega arith;
  not_own = refl;
  reachable = λ k e h. elim (insert_cases (repeat_byte 32 1) k heard e [] h) [
    | inl (_, is_heard) ↦ λ q. cc (ap (λ (x : Entry). x.endpoints) is_heard ∙ q)
    | inr (_, nothing) ↦ absurd (cc nothing)
  ];
}

serve-NoOlder_example : NoOlder table (serve config table around (received (some datagram))).0
serve-NoOlder_example =
    serve-NoOlder config table around (received (some datagram)) table-IsTracking
