-- ===== src/I2c/Timing.antt =====
-- The timing that is computed, what was asked for, and the table of the I2C specification.
use native.Mathlib.Nat.{div-lt_iff_lt-mul, mul-le-mul_right}
use sunburst_chip.Base.{
  ℕ, ◌+◌, ◌-◌, ◌*◌, ◌/◌, ◌%◌, ◌^◌, ◌≤◌, ◌<◌, ◌≡◌, refl, arith, ◌∙◌, ap, false, ltb, max, some, u32,
  inl, inr, Bool-cases,
}
use sunburst_chip.Dif.{dif_ok}
use sunburst_chip.I2c.{
  Speed, standard, fast, fast_plus, other_speed, TimingConfig, Config, round_up_divide,
  default_timing_for_speed, speed_khz, nanos_per_kbaud, lengthened, timing_at, timing_for,
  compute_timing,
}

-- A duration that fits the 16 bits of a number of cycles.
abbrev pub Fits : ℕ → ℕ → Type 0
Fits period nanos = (0 < nanos) × (nanos < 2 ^ 32) × (nanos ≤ 65535 * period)

round_up_divide_lem :
    (a b : ℕ) → 0 < b → Fits b a → (a ≤ round_up_divide a b * b) × (round_up_divide a b ≤ 65535)
unfolding round_up_divide
round_up_divide_lem a b h (l, k, f) =
    let q = (a - 1) / b in
    let e : u32 (a + 2 ^ 32 - 1) ≡ a - 1 = omega arith in
    let up : a - 1 < (q + 1) * b =
      (div-lt_iff_lt-mul {k = b} {x = a - 1} {y = q + 1} h).0 (omega arith) in
    let small : q < 65535 = (div-lt_iff_lt-mul {k = b} {x = a - 1} {y = 65535} h).1 (omega arith) in
    let r : u32 (q + 1) % 2 ^ 16 ≡ q + 1 = omega arith in rw (e, r) (omega arith, omega arith)

-- The least high and low times of the clock, in nanoseconds, by table 10 of the specification.
abbrev pub min_high : Speed → ℕ
min_high standard = 4000
min_high fast = 600
min_high fast_plus = 260
min_high (other_speed n) = 0

abbrev pub min_low : Speed → ℕ
min_low standard = 4700
min_low fast = 1300
min_low fast_plus = 500
min_low (other_speed n) = 0

-- A number of cycles lasts for a duration.
abbrev pub Lasts : ℕ → ℕ → ℕ → Type 0
Lasts period cycles nanos = nanos ≤ cycles * period

default_lem :
    (sp : Speed) (period : ℕ)
    → 0 < period
    → let d = default_timing_for_speed sp period in
      Lasts period d.scl_time_high_cycles (min_high sp)
      × Lasts period d.scl_time_low_cycles (min_low sp)
      × (d.scl_time_high_cycles ≤ 65535)
unfolding default_timing_for_speed
default_lem standard period h =
    let (a, b) = round_up_divide_lem 4000 period h (omega arith, omega arith, omega arith) in
    let (c, d) = round_up_divide_lem 4700 period h (omega arith, omega arith, omega arith) in
    (a, c, b)
default_lem fast period h =
    let (a, b) = round_up_divide_lem 600 period h (omega arith, omega arith, omega arith) in
    let (c, d) = round_up_divide_lem 1300 period h (omega arith, omega arith, omega arith) in
    (a, c, b)
default_lem fast_plus period h =
    let (a, b) = round_up_divide_lem 260 period h (omega arith, omega arith, omega arith) in
    let (c, d) = round_up_divide_lem 500 period h (omega arith, omega arith, omega arith) in
    (a, c, b)
default_lem (other_speed n) period h = (omega arith, omega arith, omega arith)

-- What settling the high time leaves.
lengthened_lem :
    (c : Config) (sc : ℕ)
    → sc ≤ 65535
    → let (r, c') = lengthened c sc in
      (r ≡ dif_ok)
      × (c.scl_time_high_cycles ≤ c'.scl_time_high_cycles)
      × (c.scl_time_low_cycles ≤ c'.scl_time_low_cycles)
      × (c'.rise_cycles ≡ c.rise_cycles)
      × (c'.fall_cycles ≡ c.fall_cycles)
      × (sc ≤ c'.scl_time_high_cycles + c'.scl_time_low_cycles + c'.rise_cycles + c'.fall_cycles)
      × (4 ≤ c'.scl_time_high_cycles)
      × (4 ≤ c'.scl_time_low_cycles)
unfolding lengthened
lengthened_lem c sc h =
    let others = c.scl_time_low_cycles + c.rise_cycles + c.fall_cycles in
    elim (Bool-cases (ltb (c.scl_time_high_cycles + others) sc)) [
      | inl e ↦
          let lt : c.scl_time_high_cycles + others < sc = ground arith in
          let f : ltb 0xffff (sc - others) ≡ false = ground arith in
          rw (e, f)
            (refl, omega arith, omega arith, refl, refl, omega arith, omega arith, omega arith)
      | inr e ↦
          let le : sc ≤ c.scl_time_high_cycles + others = ground arith in
          rw e (refl, omega arith, omega arith, refl, refl, omega arith, omega arith, omega arith)
    ]

-- The timing keeps to the table and to the duration of the edges and of the whole period of the
-- clock, and its high and low times are four cycles at least.
abbrev pub IsSound : TimingConfig → ℕ → Config → Type 0
IsSound t khz c =
    let period = t.clock_period_nanos in
    let cycles = c.scl_time_high_cycles + c.scl_time_low_cycles + c.rise_cycles + c.fall_cycles in
    Lasts period c.scl_time_high_cycles (min_high t.lowest_target_device_speed)
    × Lasts period c.scl_time_low_cycles (min_low t.lowest_target_device_speed)
    × Lasts period c.rise_cycles t.sda_rise_nanos
    × Lasts period c.fall_cycles t.sda_fall_nanos
    × Lasts period cycles (max t.scl_period_nanos (nanos_per_kbaud / khz))
    × (4 ≤ c.scl_time_high_cycles)
    × (4 ≤ c.scl_time_low_cycles)

longer : (period a b n : ℕ) → Lasts period a n → a ≤ b → Lasts period b n
longer period a b n h le = let m = mul-le-mul_right {m = a} {n = b} period le in omega (arith, h)

timing_at-IsSound :
    (t : TimingConfig) (khz : ℕ)
    → 0 < t.clock_period_nanos
    → Fits t.clock_period_nanos t.sda_rise_nanos
    → Fits t.clock_period_nanos t.sda_fall_nanos
    → Fits t.clock_period_nanos (max t.scl_period_nanos (nanos_per_kbaud / khz))
    → let (r, c) = timing_at khz t in (r ≡ dif_ok) × IsSound t khz c
unfolding timing_at
timing_at-IsSound t khz h rise fall scl =
    let p = t.clock_period_nanos in
    let T = max t.scl_period_nanos (nanos_per_kbaud / khz) in
    let (dh, dl, dm) = default_lem t.lowest_target_device_speed p h in
    let (r1, r2) = round_up_divide_lem t.sda_rise_nanos p h rise in
    let (f1, f2) = round_up_divide_lem t.sda_fall_nanos p h fall in
    let (s1, s2) = round_up_divide_lem T p h scl in
    let config = default_timing_for_speed t.lowest_target_device_speed p in
    let edges = record config {
      rise_cycles = round_up_divide t.sda_rise_nanos p;
      fall_cycles = round_up_divide t.sda_fall_nanos p;
    } in
    let (ok, high, low, er, ef, sum, h4, l4) = lengthened_lem edges (round_up_divide T p) s2 in
    (
      ok,
      (
        longer p _ _ _ dh high,
        longer p _ _ _ dl low,
        rw er r1,
        rw ef f1,
        longer p _ _ _ s1 sum,
        h4,
        l4,
      ),
    )

-- For a known speed, a clock period above 0 and durations of the edges and of the clock's period
-- that are above 0 and take 65535 cycles at most, the timing is computed. Its high and low times
-- last as long as the table of the specification asks, the edges as long as was said, and all four
-- together for the period that was asked for or the shortest that the speed allows, whichever is
-- longer; the high and the low time are four cycles at least.
pub compute_timing-IsSound :
    (t : TimingConfig) (khz : ℕ)
    → speed_khz t.lowest_target_device_speed ≡ some khz
    → 0 < t.clock_period_nanos
    → Fits t.clock_period_nanos t.sda_rise_nanos
    → Fits t.clock_period_nanos t.sda_fall_nanos
    → Fits t.clock_period_nanos (max t.scl_period_nanos (nanos_per_kbaud / khz))
    → (c : Config) × (compute_timing t ≡ (dif_ok, some c)) × IsSound t khz c
unfolding compute_timing timing_for
compute_timing-IsSound t khz e h rise fall scl =
    let (ok, sound) = timing_at-IsSound t khz h rise fall scl in
    let c = (timing_at khz t).1 in (c, ap (timing_for t) e ∙ ap (λ r. (r, some c)) ok, sound)
