-- ===== src/Routes.antt =====
-- Advertised subnets: crates/core/src/route.rs (`Ipv6Route`), and the routes that are installed
-- for each peer, crates/engine/src/route_manager.rs. Their text form is in Config/Parsing.
pub mod Masks
pub mod Overlap
pub mod Manager
use hextet.Base.{
  ℕ, ◌-◌, ◌*◌, ◌/◌, ◌%◌, ◌^◌, Bool, true, false, not, ◌||◌, ◌&&◌, List, [], ◌∷◌, ◌++◌, contains,
  ltb, leb, ◌==◌, ◌=?◌, ==_iff, arith, Equality, if◌then◌else◌, Option, none, some, ℕ_equality,
  list_equality, list_same_iff, pair_equality, ◌≡◌, ◌↔◌,
}
use Prim.Native.Nat.{bit_and}
use hextet.Base.Outcome.{Outcome, ok, err, panic, or_panic, ◌>>=◌, ◌>>◌, reject_if}
use hextet.Crypto.{repeat_byte}
use hextet.Addr.{Ipv6Addr}

pub record Ipv6Route : Type 0 where
  pub prefix : Ipv6Addr
  pub prefix_len : ℕ

abbrev pub route_same : Ipv6Route → Ipv6Route → Bool
route_same a b = (a.prefix =? b.prefix) && a.prefix_len == b.prefix_len

pub route_same_iff : (a b : Ipv6Route) → (route_same a b ≡ true) ↔ (a ≡ b)
route_same_iff a b = (
  λ h. ground (arith, list_same_iff a.prefix b.prefix),
  λ h. ground (arith, list_same_iff a.prefix b.prefix),
)

instance abbrev pub route_equality : Equality Ipv6Route
route_equality = record { same = route_same; same_iff = route_same_iff }

-- `HostBitsSet` carries the route's text, here the address and the length.
pub data RouteError : Type 0 where
  bad_prefix_len : ℕ → RouteError
  host_bits_set : Ipv6Addr → ℕ → RouteError
  invalid ipv4 : List ℕ → RouteError

-- `0xff << (8 - rem)` on a u8.
abbrev pub shifted : ℕ → ℕ
shifted rem = (0xff * 2 ^ (8 - rem)) % 256

-- The mask's sixteen octets; none where the slice or the index panics.
unfoldable pub mask : ℕ → Option (List ℕ)
mask len =
    let whole = len / 8 in
    let rem = len % 8 in
    if ltb 16 whole
    then none
    else if ltb 0 rem
    then if leb 16 whole
      then none
      else some (repeat_byte whole 0xff ++ shifted rem ∷ repeat_byte (15 - whole) 0)
    else some (repeat_byte whole 0xff ++ repeat_byte (16 - whole) 0)

-- `for (b, mm) in o.iter_mut().zip(m) { *b &= mm }`.
unfoldable pub zip_and : List ℕ → List ℕ → List ℕ
zip_and [] m = []
zip_and (b ∷ bs) [] = b ∷ bs
zip_and (b ∷ bs) (m ∷ ms) = bit_and b m ∷ zip_and bs ms

unfoldable pub apply_mask : Ipv6Addr → ℕ → Option Ipv6Addr
apply_mask addr len = elim (mask len) [ none ↦ none | some m ↦ some (zip_and addr m) ]

unfoldable pub new_route : Ipv6Addr → ℕ → Outcome RouteError Ipv6Route
new_route prefix prefix_len = do
  reject_if (prefix_len == 0 || ltb 128 prefix_len) (bad_prefix_len prefix_len)
  masked ← or_panic (apply_mask prefix prefix_len)
  reject_if (not (masked =? prefix)) (host_bits_set prefix prefix_len)
  ok (record { prefix = prefix; prefix_len = prefix_len })

unfoldable pub contains_addr : Ipv6Route → Ipv6Addr → Option Bool
contains_addr route addr = elim (apply_mask addr route.prefix_len) [
  | none ↦ none
  | some masked ↦ some (masked =? route.prefix)
]

unfoldable pub overlaps : Ipv6Route → Ipv6Route → Option Bool
overlaps route other =
    let second = contains_addr other route.prefix in
    elim (contains_addr route other.prefix) [
      | none ↦ none
      | some first ↦ if first then some true else second
    ]

-- The loop of `allowed_ips_for`.
unfoldable pub push_routes : List (Ipv6Addr × ℕ) → List Ipv6Route → List (Ipv6Addr × ℕ)
unfolding contains
push_routes out [] = out
push_routes out (r ∷ routes) =
    let entry : Ipv6Addr × ℕ = (r.prefix, r.prefix_len) in
    push_routes (if not (contains out entry) then out ++ entry ∷ [] else out) routes

unfoldable pub allowed_ips_for : Ipv6Addr → List Ipv6Route → List (Ipv6Addr × ℕ)
unfolding push_routes
allowed_ips_for site routes = push_routes ((site, 64) ∷ []) routes
