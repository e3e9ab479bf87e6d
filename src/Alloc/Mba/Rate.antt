-- ===== src/Alloc/Mba/Rate.antt =====
-- The rounding of a bandwidth rate to the steps of the hardware.
use multi_resource_isolation.Prelude.{
  ℕ, ◌+◌, ◌-◌, ◌*◌, ◌/◌, ◌%◌, ◌^◌, ◌≤◌, ◌<◌, ◌≡◌, refl, arith, u32, max,
}
use multi_resource_isolation.Cap.{CapMba}
use multi_resource_isolation.Alloc.Mba.{delay_of, throttled, rate_of}

-- The multiple of `step` next to `rate`.
abbrev pub rounded : ℕ → ℕ → ℕ
rounded step rate = (rate + step / 2) / step * step

round_near :
    (step rate : ℕ)
    → 0 < step
    → (rounded step rate ≤ rate + step / 2) × (rate ≤ rounded step rate + step / 2)
round_near step rate pos = grind arith

round_le : (step rate : ℕ) → 0 < step → 100 % step ≡ 0 → rate ≤ 100 → rounded step rate ≤ 100
round_le step rate pos e h = grind arith

step_le : (step : ℕ) → 100 % step ≡ 0 → step ≤ 100
step_le step e = grind arith

delay_plain :
    (step rate : ℕ)
    → 0 < step
    → step ≤ 100
    → rate ≤ 100
    → delay_of step rate ≡ (100 + 2 ^ 32 - rounded step rate) % 2 ^ 32
unfolding delay_of
delay_plain step rate pos small h =
    let plain : u32 (rate + step / 2) ≡ rate + step / 2 = omega arith in
    let fits : u32 (rounded step rate) ≡ rounded step rate =
      omega (arith, (round_near step rate pos).0) in
    rw plain (rw fits refl)

-- For a step that divides 100, the delay written for a rate up to 100 stands, as `hw_mba_get` reads
-- it back, for the multiple of the step next to the rate, at most half a step away, or for the
-- least rate that `throttle_max` leaves, where that is more; and it is never above `throttle_max`.
pub throttled_lem :
    (c : CapMba) (rate : ℕ)
    → 0 < c.throttle_step
    → 100 % c.throttle_step ≡ 0
    → c.throttle_max ≤ 100
    → rate ≤ 100
    → (rate_of (throttled c rate) ≡ max (100 - c.throttle_max) (rounded c.throttle_step rate))
      × (throttled c rate ≤ c.throttle_max)
      × (rounded c.throttle_step rate ≤ rate + c.throttle_step / 2)
      × (rate ≤ rounded c.throttle_step rate + c.throttle_step / 2)
unfolding throttled
throttled_lem c rate pos e top h =
    let step = c.throttle_step in
    let below = round_le step rate pos e h in
    let near = round_near step rate pos in
    let plain = delay_plain step rate pos (step_le step e) h in
    (ground (arith, below, plain), ground arith, near.0, near.1)

-- Where the rounding passes 100, which a step that divides 100 never lets happen, the unsigned
-- subtraction wraps and the largest throttling is written for a rate near 100.
pub throttled_wraps :
    (c : CapMba) (rate : ℕ)
    → 0 < c.throttle_step
    → c.throttle_step ≤ 100
    → c.throttle_max < 2 ^ 31
    → rate ≤ 100
    → 100 < rounded c.throttle_step rate
    → throttled c rate ≡ c.throttle_max
unfolding throttled
throttled_wraps c rate pos small top h over =
    ground
      (arith, delay_plain c.throttle_step rate pos small h, round_near c.throttle_step rate pos)
