-- ===== src/ProbeResponder/Limits.antt =====
-- The rate limiter: how large it gets, and how often it lets one address through.
use hextet.Base.{
  ℕ, ◌-◌, ◌≤◌, ◌<◌, ◌≡◌, refl, sym, ap, ◌∙◌, subst, Bool, true, false, List, [], ◌∷◌, length, leb,
  ◌=?◌, if◌then◌else◌, Option, none, some, arith, Bool-cases, inl, inr, ℕ_equality, list_equality,
}
use hextet.Addr.{Ipv6Addr}
use hextet.Base.Assoc.{
  lookup, insert, IsMap, insert-IsMap, remove_all-IsMap, length-insert-le, lookup-insert,
  keys_where,
}
use hextet.ProbeResponder.{
  RateLimiter, retain, make_room, is_too_soon, is_expired, allow, rate_table_max,
  min_request_interval,
}

pub record IsLimiter (seen : RateLimiter) : Type 0 where
  pub is_map : IsMap seen
  pub bounded : length seen ≤ rate_table_max

made_room :
    (seen : RateLimiter) (now : ℕ)
    → IsMap seen
    → IsMap (make_room seen now) × (length (make_room seen now) < rate_table_max)
unfolding make_room retain
made_room seen now m =
    let ks = keys_where (is_expired now) seen in
    let left = remove_all-IsMap ks seen m in
    elim (Bool-cases (leb rate_table_max (length seen))) [
      | inr room ↦ rw room (m, ground arith)
      | inl full ↦ elim (Bool-cases (leb rate_table_max (length (retain seen now)))) [
        | inl still ↦ rw (full, still) (tt, omega arith)
        | inr room ↦ rw (full, room) (left, ground arith)
      ]
    ]

-- The limiter keeps at most 64 addresses, each once, whatever it is asked.
allow-IsLimiter :
    (seen : RateLimiter) (ip : Ipv6Addr) (now : ℕ)
    → IsLimiter seen
    → IsLimiter (allow seen ip now).0
unfolding allow
allow-IsLimiter seen ip now s = elim (Bool-cases (is_too_soon (lookup ip seen) now)) [
  | inl soon ↦ rw soon s
  | inr late ↦
      let (m, small) = made_room seen now s.is_map in
      rw late (record {
        is_map = insert-IsMap ip now (make_room seen now) m;
        bounded = omega (arith, length-insert-le ip now (make_room seen now), small);
      })
]

-- What was let through, latest first, when the limiter is asked for each of these in turn.
pub allowed_in : RateLimiter → List (Ipv6Addr × ℕ) → List (Ipv6Addr × ℕ) → List (Ipv6Addr × ℕ)
allowed_in seen log [] = log
allowed_in seen log ((ip, now) ∷ requests) =
    let r = allow seen ip now in allowed_in r.0 (if r.1 then (ip, now) ∷ log else log) requests

-- The table is never full when a request comes.
abbrev pub Uncrowded : RateLimiter → List (Ipv6Addr × ℕ) → Type 0
Uncrowded seen [] = Unit {0}
Uncrowded seen ((ip, now) ∷ requests) =
    (length seen < rate_table_max) × Uncrowded (allow seen ip now).0 requests

-- Each address waits a second.
abbrev pub IsSpaced : List (Ipv6Addr × ℕ) → Type 0
IsSpaced [] = Unit {0}
IsSpaced ((ip, now) ∷ log) =
    ((prev : ℕ) → lookup ip log ≡ some prev → min_request_interval ≤ now - prev) × IsSpaced log

-- The table knows of each address what the log knows.
abbrev Knows : RateLimiter → List (Ipv6Addr × ℕ) → Type 0
Knows seen log = (ip : Ipv6Addr) → lookup ip seen ≡ lookup ip log

allow_room :
    (seen : RateLimiter) (ip : Ipv6Addr) (now : ℕ)
    → length seen < rate_table_max
    → allow seen ip now
      ≡ (if is_too_soon (lookup ip seen) now then (seen, false) else (insert ip now seen, true))
unfolding allow make_room
allow_room seen ip now h = ground arith

-- The log after a request.
abbrev Noted : List (Ipv6Addr × ℕ) → Ipv6Addr → ℕ → RateLimiter × Bool → Type 0
Noted log ip now r =
    let log' : List (Ipv6Addr × ℕ) = if r.1 then (ip, now) ∷ log else log in
    Knows r.0 log' × IsSpaced log'

late_spaced :
    (o : Option ℕ) (now prev : ℕ)
    → is_too_soon o now ≡ false
    → o ≡ some prev
    → min_request_interval ≤ now - prev
late_spaced none now prev h e = absurd (cc e)
late_spaced (some t) now prev h e = ground arith

Noted-allow :
    (seen : RateLimiter) (log : List (Ipv6Addr × ℕ)) (ip : Ipv6Addr) (now : ℕ)
    → length seen < rate_table_max
    → Knows seen log
    → IsSpaced log
    → Noted log ip now (allow seen ip now)
unfolding lookup
Noted-allow seen log ip now room k s = elim (Bool-cases (is_too_soon (lookup ip seen) now)) [
  | inl soon ↦
      let refused : allow seen ip now ≡ (seen, false) =
        allow_room seen ip now room ∙ rw soon refl in
      subst (Noted log ip now) (sym refused) (k, s)
  | inr late ↦
      let passed : allow seen ip now ≡ (insert ip now seen, true) =
        allow_room seen ip now room ∙ rw late refl in
      subst (Noted log ip now) (sym passed) (
        λ j. lookup-insert ip j now seen ∙ ap (λ o. if ip =? j then some now else o) (k j),
        (λ prev e. late_spaced (lookup ip seen) now prev late (k ip ∙ e), s),
      )
]

IsSpaced-from :
    (seen : RateLimiter) (log requests : List (Ipv6Addr × ℕ))
    → Uncrowded seen requests
    → Knows seen log
    → IsSpaced log
    → IsSpaced (allowed_in seen log requests)
unfolding allowed_in
IsSpaced-from seen log [] u k s = s
IsSpaced-from seen log ((ip, now) ∷ requests) (room, u) k s =
    let noted = Noted-allow seen log ip now room k s in
    IsSpaced-from (allow seen ip now).0 _ requests u noted.0 noted.1

-- As long as the table has room for one more address whenever a request comes, a new limiter lets
-- no address through twice within one second, whatever requests come and at whatever times.
pub allowed_in-IsSpaced :
    (requests : List (Ipv6Addr × ℕ)) → Uncrowded [] requests → IsSpaced (allowed_in [] [] requests)
allowed_in-IsSpaced requests u = IsSpaced-from [] [] requests u (λ ip. refl) tt
