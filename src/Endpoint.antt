-- ===== src/Endpoint.antt =====
-- `SocketAddrV6`, and `normalize` of crates/engine/src/candidates.rs: an endpoint with its flow
-- label and scope cleared.
use hextet.Base.{
  ℕ, ◌≡◌, ◌↔◌, Bool, true, ◌&&◌, List, [], ◌∷◌, ◌==◌, ◌=?◌, Equality, arith, list_same_iff, refl,
  if◌then◌else◌, list_equality, ℕ_equality,
}
use hextet.Addr.{Ipv6Addr, is_usable_endpoint_addr}

pub record Endpoint : Type 0 where
  pub ip : Ipv6Addr
  pub port : ℕ
  pub flowinfo : ℕ
  pub scope_id : ℕ

abbrev pub endpoint : Ipv6Addr → ℕ → Endpoint
endpoint ip port = record { ip = ip; port = port; flowinfo = 0; scope_id = 0 }

-- `PartialEq` compares all four.
abbrev pub endpoint_same : Endpoint → Endpoint → Bool
endpoint_same a b =
    (a.ip =? b.ip) && a.port == b.port && a.flowinfo == b.flowinfo && a.scope_id == b.scope_id

pub endpoint_same_iff : (a b : Endpoint) → (endpoint_same a b ≡ true) ↔ (a ≡ b)
endpoint_same_iff a b =
    (λ h. ground (arith, list_same_iff a.ip b.ip), λ h. ground (arith, list_same_iff a.ip b.ip))

instance abbrev pub endpoint_equality : Equality Endpoint
endpoint_equality = record { same = endpoint_same; same_iff = endpoint_same_iff }

unfoldable pub normalize : Endpoint → Endpoint
normalize ep = endpoint ep.ip ep.port

pub normalize_idempotent : (ep : Endpoint) → normalize (normalize ep) ≡ normalize ep
unfolding normalize
normalize_idempotent ep = refl

-- The filter that beacons, gossip entries and rendezvous records share:
-- `if port == 0 { return Vec::new() }`, then `filter(is_usable_endpoint_addr)` and `map`.
usable_at : ℕ → List Ipv6Addr → List Endpoint
usable_at port [] = []
usable_at port (a ∷ addrs) =
    let rest = usable_at port addrs in
    if is_usable_endpoint_addr a then endpoint a port ∷ rest else rest

unfoldable pub endpoints_of : List Ipv6Addr → ℕ → List Endpoint
unfolding usable_at
endpoints_of addrs port = if port == 0 then [] else usable_at port addrs
