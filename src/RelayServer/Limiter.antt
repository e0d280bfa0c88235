-- ===== src/RelayServer/Limiter.antt =====
-- `PacketLimiter`: at most 2000 packets in a window of one second. A time is in nanoseconds;
-- `duration_since` on an `Instant` is zero for a later one.
use hextet.Base.{
  ℕ, ◌+◌, ◌-◌, ◌*◌, ◌/◌, ◌^◌, ◌≤◌, min, suc, arith, Bool, true, false, List, [], ◌∷◌, leb,
  if◌then◌else◌, Bool-cases, inl, inr,
}

abbrev pub max_packets_per_sec : ℕ
max_packets_per_sec = 2000

abbrev pub second : ℕ
second = 1000000000

pub record PacketLimiter : Type 0 where
  pub window_start : ℕ
  pub count : ℕ
  pub dropped : ℕ

abbrev pub limiter_at : ℕ → PacketLimiter
limiter_at now = record { window_start = now; count = 0; dropped = 0 }

-- A new window is a new limiter.
abbrev pub rolled : PacketLimiter → ℕ → PacketLimiter
rolled limiter now = if leb second (now - limiter.window_start) then limiter_at now else limiter

unfoldable pub allow : PacketLimiter → ℕ → PacketLimiter × Bool
allow limiter now =
    let l = rolled limiter now in
    if leb max_packets_per_sec l.count
    then (
      record {
        window_start = l.window_start;
        count = l.count;
        dropped = min (suc l.dropped) (2 ^ 32 - 1);
      },
      false,
    )
    else (record { window_start = l.window_start; count = suc l.count; dropped = l.dropped }, true)

-- How many of the packets that come at these times pass.
unfoldable pub passed : PacketLimiter → List ℕ → ℕ
unfolding allow
passed limiter [] = 0
passed limiter (now ∷ times) =
    let next = allow limiter now in
    let rest = passed next.0 times in if next.1 then suc rest else rest

-- Times in order, from one bound to another.
abbrev pub InOrder : ℕ → List ℕ → ℕ → Type 0
InOrder start [] end = start ≤ end
InOrder start (now ∷ times) end = (start ≤ now) × InOrder now times end

allow_count :
    (limiter : PacketLimiter) (now : ℕ)
    → limiter.count ≤ max_packets_per_sec
    → (allow limiter now).0.count ≤ max_packets_per_sec
unfolding allow
allow_count limiter now h = ground (arith, h)

-- The step's cost in terms of the budget that is left.
allow_budget :
    (limiter : PacketLimiter) (now end rest : ℕ)
    → limiter.count ≤ max_packets_per_sec
    → limiter.window_start ≤ now
    → now ≤ end
    → rest + (allow limiter now).0.count
      ≤ max_packets_per_sec * (1 + (end - (allow limiter now).0.window_start) / second)
    → (if (allow limiter now).1 then suc rest else rest) + limiter.count
      ≤ max_packets_per_sec * (1 + (end - limiter.window_start) / second)
unfolding allow
allow_budget limiter now end rest h k l m =
    elim (Bool-cases (leb second (now - limiter.window_start))) [
      | inl rolls ↦ ground (arith, rolls, h, k, l, m)
      | inr stays ↦ ground (arith, stays, h, k, l, m)
    ]

allow_start :
    (limiter : PacketLimiter) (now : ℕ)
    → limiter.window_start ≤ now
    → (allow limiter now).0.window_start ≤ now
unfolding allow
allow_start limiter now h = ground (arith, h)

InOrder-weaken : (a b end : ℕ) (times : List ℕ) → a ≤ b → InOrder b times end → InOrder a times end
InOrder-weaken a b end [] h k = omega (arith, h, k)
InOrder-weaken a b end (t ∷ times) h k = (omega (arith, h, k.0), k.1)

InOrder-le : (start end : ℕ) (times : List ℕ) → InOrder start times end → start ≤ end
InOrder-le start end [] h = h
InOrder-le start end (t ∷ times) h = omega (arith, h.0, InOrder-le t end times h.1)

passed_budget :
    (limiter : PacketLimiter) (end : ℕ) (times : List ℕ)
    → limiter.count ≤ max_packets_per_sec
    → InOrder limiter.window_start times end
    → passed limiter times + limiter.count
      ≤ max_packets_per_sec * (1 + (end - limiter.window_start) / second)
unfolding passed
passed_budget limiter end [] h k = omega (arith, h)
passed_budget limiter end (now ∷ times) h k =
    let next = allow limiter now in
    allow_budget limiter now end (passed next.0 times) h k.0 (InOrder-le now end times k.1) (
      passed_budget next.0 end times (allow_count limiter now h)
        (InOrder-weaken next.0.window_start now end times (allow_start limiter now k.0) k.1))

-- Of packets that come in order, a new limiter lets pass, up to any later time, at most 2000 for
-- each second that began since it was made.
pub passed-le :
    (start end : ℕ) (times : List ℕ)
    → InOrder start times end
    → passed (limiter_at start) times ≤ max_packets_per_sec * (1 + (end - start) / second)
passed-le start end times h =
    omega (arith, passed_budget (limiter_at start) end times (omega arith) h)
