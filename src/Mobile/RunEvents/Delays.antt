-- ===== src/Mobile/RunEvents/Delays.antt =====
-- apps/mobile/src/api/run-events.ts: how long a connection waits before it asks again.
use Prim.Native.Nat.{max}
use native.Mathlib.Nat.{mul-le-mul_left, min-le_left}
use matrix_agent_workspace.Prelude.{ℕ, zero, suc, ◌+◌, ◌*◌, ◌/◌, ◌^◌, ◌≤◌, min, ◌≡◌, arith}
use matrix_agent_workspace.Mobile.RunEvents.{reconnect_delay}

-- The rounded product of a delay with a number between a half and one.
jittered :
    (e x : ℕ)
    → x ≤ e * 2 ^ 53
    → let r = (2 * (e * 2 ^ 53 + x) + 2 ^ 54) / 2 ^ 55 in (r ≤ e) × (e ≤ 2 * r)
jittered e x h = (omega (arith, h), omega (arith, h))

spread : (e k : ℕ) → 2 * e * (2 ^ 53 + k) ≡ 2 * (e * 2 ^ 53 + e * k)
spread e k = omega arith

power_positive : (n : ℕ) → 1 ≤ 2 ^ n
power_positive zero = omega arith
power_positive (suc n) = omega (arith, power_positive n)

clamped :
    (longest m r : ℕ)
    → 100 ≤ longest
    → 100 ≤ m
    → r ≤ min longest m
    → min longest m ≤ 2 * r
    → let delay = min longest (max 100 r) in
      (100 ≤ delay)
      × ((delay ≤ min longest m) × ((min longest m ≤ 2 * delay) × (min longest m ≤ longest)))
clamped longest m r h k upper lower = (
  omega (arith, h),
  (omega (arith, h, k, upper), (omega (arith, h, k, upper, lower), omega arith)),
)

-- The delay before a reconnect lies between half the exponential delay and the whole of it, which is
-- at most the longest delay; it is at least a tenth of a second. The base is at least that, as the
-- client corrects it, and the longest delay at least the base.
pub reconnect_delay-le :
    (base longest attempt bits : ℕ)
    → 100 ≤ base
    → base ≤ longest
    → let exponential = min longest (base * 2 ^ attempt) in
      let delay = reconnect_delay base longest attempt bits in
      (100 ≤ delay)
      × ((delay ≤ exponential) × ((exponential ≤ 2 * delay) × (exponential ≤ longest)))
unfolding reconnect_delay
reconnect_delay-le base longest attempt bits h k =
    let e = min longest (base * 2 ^ attempt) in
    let x : e * min (2 ^ 53) bits ≤ e * 2 ^ 53 =
      mul-le-mul_left {m = min (2 ^ 53) bits} {n = 2 ^ 53} e (min-le_left (2 ^ 53) bits) in
    let (upper, lower) = jittered e (e * min (2 ^ 53) bits) x in
    let big : base * 1 ≤ base * 2 ^ attempt = mul-le-mul_left base (power_positive attempt) in
    rw (spread e (min (2 ^ 53) bits)) (
      clamped longest (base * 2 ^ attempt) _ (omega (arith, h, k)) (omega (arith, h, big)) upper
        lower)
