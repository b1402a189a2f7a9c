-- ===== src/RvTimer/Tests.antt =====
-- The machine timer: tick parameters, a counter that ticks at each load, and a comparator.
use sunburst_chip.Base.{
  ℕ, ◌+◌, ◌-◌, ◌*◌, ◌^◌, ◌≤◌, ◌<◌, ◌≡◌, ◌⊎◌, refl, arith, Bool, true, false, ◌||◌, leb, lt→leb,
  Option, some, ◌==◌, if◌then◌else◌,
}
use sunburst_chip.Math.{udiv64_slow}
use sunburst_chip.Mmio.{Bus}
use sunburst_chip.Mmio.Counter.{ticks, ticking, ticking-IsCounter}
use sunburst_chip.Dif.{DifResult, dif_ok}
use sunburst_chip.RvTimer.{
  TickParams, params_of_gcd, counter_read_loop, euclidean_gcd, approximate_tick_params,
  counter_read, arm, v_upper_reg, v_lower_reg, compare_lower_reg, compare_upper_reg,
}
use sunburst_chip.RvTimer.Gcd.{IsGcd, euclidean_gcd-IsGcd}
use sunburst_chip.RvTimer.Ticks.{IsSound, approximate_tick_params-IsSound}
use sunburst_chip.RvTimer.Counter.{counter_read_lem}
use sunburst_chip.RvTimer.Arm.{IsComparator, arm_lem}

abbrev base : ℕ
base = 0x1000

approximate_tick_params_runs :
    approximate_tick_params 48000000 1000000 true
    ≡ some (dif_ok, some (record { prescale = 47; tick_step = 1 }))
unfolding approximate_tick_params euclidean_gcd params_of_gcd udiv64_slow
approximate_tick_params_runs = refl

euclidean_gcd-IsGcd_example : (g : ℕ) × (euclidean_gcd 19 48 18 ≡ some g) × IsGcd 48 18 g
euclidean_gcd-IsGcd_example = euclidean_gcd-IsGcd 19 48 18 (omega arith) (omega arith) (omega arith)

approximate_tick_params-IsSound_example :
    (out : DifResult × Option TickParams) × (approximate_tick_params 48000000 1000000 true
      ≡ some out)
    × IsSound 48000000 1000000 out
approximate_tick_params-IsSound_example =
    approximate_tick_params-IsSound 48000000 1000000 (omega arith) (omega arith)

-- The upper half changes between the first load and the second.
abbrev wrap : ℕ
wrap = 2 ^ 32 - 1

abbrev clock : Bus ℕ
clock = ticking (base + v_upper_reg) (base + v_lower_reg)

counter_read_runs :
    (counter_read clock 2 (some base) 0 true wrap).0 ≡ some (dif_ok, some (2 ^ 32 + 3))
unfolding counter_read counter_read_loop
counter_read_runs = refl

counter_read_lem_example :
    (v : ℕ) × ((counter_read clock 2 (some base) 0 true wrap).0 ≡ some (dif_ok, some v))
    × (ticks wrap ≤ v)
    × (v ≤ ticks (counter_read clock 2 (some base) 0 true wrap).1)
counter_read_lem_example =
    counter_read_lem clock base ticks
      (ticking-IsCounter (base + v_upper_reg) (base + v_lower_reg) (omega arith)) 0 wrap
      (omega arith)

-- A comparator whose counter moves on by 3 at each store.
record Comparator : Type 0 where
  lower : ℕ
  upper : ℕ
  time : ℕ
  raised : Bool
  seen : Bool

abbrev put : ℕ → ℕ → Comparator → Comparator
put upper lower s =
    let now = s.time + 3 in
    let raised = leb (upper * 2 ^ 32 + lower) now in
    record {
      lower = lower;
      upper = upper;
      time = now;
      raised = raised;
      seen = raised || leb (s.upper * 2 ^ 32 + s.lower) now || s.seen;
    }

abbrev comparator : Bus Comparator
comparator = record {
  load = λ a s. (0, s);
  store = λ a v s. if a == base + compare_lower_reg then put s.upper v s else put v s.lower s;
}

-- The threshold set before is 2 ^ 32 + 50, and the time 2 ^ 32: to store the lower half of 2 ^ 33
-- alone would raise the interrupt.
abbrev waiting : Comparator
waiting = record { lower = 50; upper = 1; time = 2 ^ 32; raised = false; seen = false }

put-quiet :
    (upper lower : ℕ) (s : Comparator)
    → s.time + 3 < s.upper * 2 ^ 32 + s.lower
    → s.time + 3 < upper * 2 ^ 32 + lower
    → (put upper lower s).seen ≡ s.seen
put-quiet upper lower s h k =
    rw
      (
        lt→leb (s.time + 3) (upper * 2 ^ 32 + lower) k,
        lt→leb (s.time + 3) (s.upper * 2 ^ 32 + s.lower) h,
      )
      refl

comparator-IsComparator :
    IsComparator comparator
      (base + compare_lower_reg)
      (base + compare_upper_reg)
      (λ s. s.lower)
      (λ s. s.upper)
      (λ s. s.time)
      (λ s. s.raised)
      (λ s. s.seen)
comparator-IsComparator = record {
  lo-store_lower = λ v s. refl;
  hi-store_lower = λ v s. refl;
  lo-store_upper = λ v s. refl;
  hi-store_upper = λ v s. refl;
  time-store_lower = λ v s. omega arith;
  time-store_upper = λ v s. omega arith;
  clear_lower = λ v s h. lt→leb (s.time + 3) (s.upper * 2 ^ 32 + v) h;
  clear_upper = λ v s h. lt→leb (s.time + 3) (v * 2 ^ 32 + s.lower) h;
  quiet_lower = λ v s. put-quiet s.upper v s;
  quiet_upper = λ v s. put-quiet v s.lower s;
}

arm_lem_example :
    let (r, s') = arm comparator (some base) 0 0 (2 ^ 33) waiting in
    (r ≡ dif_ok)
    × (s'.upper * 2 ^ 32 + s'.lower ≡ 2 ^ 33)
    × (s'.raised ≡ false)
    × ((s'.seen ≡ false) ⊎ (2 ^ 32 + 50 ≤ s'.time))
unfolding arm
arm_lem_example =
    arm_lem comparator base (λ s. s.lower) (λ s. s.upper) (λ s. s.time) (λ s. s.raised)
      (λ s. s.seen) comparator-IsComparator (2 ^ 33) waiting (omega arith) (omega arith)
      (omega arith)
