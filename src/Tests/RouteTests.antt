-- ===== src/Tests/RouteTests.antt =====
-- 2001:db8::/32 and one of its subnets.
use hextet.Base.{
  ◌==◌, ℕ, ◌≡◌, ◌≢◌, ◌≤◌, ◌<◌, refl, Bool, true, false, List, [], ◌∷◌, ◌++◌, length, contains,
  unique, get_elem?, arith, inl, inr, ◌↔◌, ◌⊎◌, Option, none, some, ℕ_equality, list_equality,
  pair_equality, list_same,
}
use hextet.Base.Bytes.{Bytes, AreBytes}
use hextet.Crypto.{repeat_byte}
use hextet.Addr.{Ipv6Addr}
use hextet.Routes.{Ipv6Route, overlaps, contains_addr, zip_and, route_equality}
use hextet.Routes.Masks.{octet_masks}
use hextet.Routes.Overlap.{IsRoute, overlaps_iff}
use hextet.Routes.Manager.{Backend, State, sync, routes_of, conclude, drop_unwanted, add_missing}
use hextet.Routes.Manager.Syncing.{sync_failed}
use hextet.Tests.{are_bytes-AreBytes}

abbrev wide_prefix : Ipv6Addr
wide_prefix = 0x20 ∷ 0x01 ∷ 0x0d ∷ 0xb8 ∷ repeat_byte 12 0

abbrev narrow_prefix : Ipv6Addr
narrow_prefix = 0x20 ∷ 0x01 ∷ 0x0d ∷ 0xb8 ∷ 0xab ∷ 0xcd ∷ repeat_byte 10 0

abbrev wide : Ipv6Route
wide = record { prefix = wide_prefix; prefix_len = 32 }

abbrev narrow : Ipv6Route
narrow = record { prefix = narrow_prefix; prefix_len = 48 }

wide_bytes : AreBytes wide_prefix
wide_bytes = are_bytes-AreBytes wide_prefix refl

wide-IsRoute : IsRoute wide
unfolding zip_and octet_masks
wide-IsRoute = record {
  positive = omega arith;
  short = omega arith;
  octets = wide_bytes;
  is_network = refl;
}

narrow-IsRoute : IsRoute narrow
unfolding zip_and octet_masks
narrow-IsRoute = record {
  positive = omega arith;
  short = omega arith;
  octets = are_bytes-AreBytes narrow_prefix refl;
  is_network = refl;
}

overlaps_iff_example : (overlaps wide narrow ≡ some true) ↔ (
    (x : Ipv6Addr) × AreBytes x
    × (contains_addr wide x ≡ some true)
    × (contains_addr narrow x ≡ some true))
overlaps_iff_example = overlaps_iff wide narrow wide-IsRoute narrow-IsRoute

abbrev only_wide : Backend
only_wide = record { add_fails = λ r. r.prefix_len == 48; remove_fails = λ r. false }

abbrev state : State
state = record { table = []; installed = [] }

abbrev key : Bytes
key = b'k' ∷ []

-- The first route is in the system's table, and not tracked.
half_done : (sync only_wide state key (wide ∷ narrow ∷ [])).0.table ≡ wide ∷ []
unfolding sync conclude drop_unwanted add_missing contains hextet.Base.Assoc.lookup
    hextet.Base.Assoc.insert list_same
half_done = refl

refused : (sync only_wide state key (wide ∷ narrow ∷ [])).1 ≡ none
unfolding sync conclude drop_unwanted add_missing contains hextet.Base.Assoc.lookup
    hextet.Base.Assoc.insert list_same
refused = refl

sync_failed_example :
    routes_of (sync only_wide state key (wide ∷ narrow ∷ [])).0 key ≡ routes_of state key
sync_failed_example = sync_failed only_wide state key (wide ∷ narrow ∷ []) refused
