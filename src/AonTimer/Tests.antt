-- ===== src/AonTimer/Tests.antt =====
-- The always-on timer on a memory, on a counter that ticks at each load, and on a lock register that
-- a written 0 clears.
use sunburst_chip.Base.{ℕ, ◌+◌, ◌-◌, ◌^◌, ◌≤◌, ◌<◌, ◌≡◌, refl, arith, true, false, some, bit_and}
use sunburst_chip.Bitfield.{bit32_read}
use sunburst_chip.Mmio.{Bus}
use sunburst_chip.Mmio.Registers.{memory, peek}
use sunburst_chip.Mmio.Counter.{ticks, ticking, ticking-IsCounter}
use sunburst_chip.Dif.{dif_ok}
use sunburst_chip.AonTimer.{
  wkup_count_hi, wkup_count_lo, wdog_regwen, wakeup_get_count, watchdog_lock, watchdog_is_locked,
}
use sunburst_chip.AonTimer.Watchdog.{watchdog_lock_keeps}
use sunburst_chip.AonTimer.Counter.{wakeup_get_count_lem}

abbrev base : ℕ
base = 0x1000

abbrev ones : ℕ → ℕ
ones a = 0xffffffff

abbrev zeros : ℕ → ℕ
zeros a = 0

ones_unlocked : bit32_read (peek memory (base + wdog_regwen) ones) 0 ≡ true
unfolding bit32_read
ones_unlocked = refl

zeros_locked : bit32_read (peek memory (base + wdog_regwen) zeros) 0 ≡ false
unfolding bit32_read
zeros_locked = refl

-- The upper half changes between the first load and the second.
abbrev wrap : ℕ
wrap = 2 ^ 32 - 1

abbrev clock : Bus ℕ
clock = ticking (base + wkup_count_hi) (base + wkup_count_lo)

wrap_near : ticks (wakeup_get_count clock (some base) true wrap).1 < ticks wrap + 2 ^ 32
unfolding wakeup_get_count
wrap_near = omega arith

wakeup_get_count_runs :
    (wakeup_get_count clock (some base) true wrap).0 ≡ (dif_ok, some (2 ^ 32 + 2))
unfolding wakeup_get_count
wakeup_get_count_runs = refl

wakeup_get_count_lem_example :
    (v : ℕ) × ((wakeup_get_count clock (some base) true wrap).0 ≡ (dif_ok, some v))
    × (ticks wrap ≤ v)
    × (v ≤ ticks (wakeup_get_count clock (some base) true wrap).1)
wakeup_get_count_lem_example =
    wakeup_get_count_lem clock base ticks
      (ticking-IsCounter (base + wkup_count_hi) (base + wkup_count_lo) (omega arith)) wrap wrap_near

-- One register that a written 0 clears.
abbrev cleared_by_zero : Bus ℕ
cleared_by_zero = record { load = λ a s. (s, s); store = λ a v s. bit_and s v }

watchdog_lock_keeps_example :
    (watchdog_is_locked cleared_by_zero
      (some base)
      true
      (watchdog_lock cleared_by_zero (some base) 1).1).0
    ≡ (watchdog_is_locked cleared_by_zero (some base) true 1).0
watchdog_lock_keeps_example = watchdog_lock_keeps cleared_by_zero base (λ v s. refl) 1
