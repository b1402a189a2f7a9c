-- ===== src/RvTimer.antt =====
-- sw/device/lib/dif/dif_rv_timer.c, the driver of the machine timer, with the parameters of
-- sw/device/regs/rv_timer_regs.h. Handles and pointers are as in `Plic`. The two `while` loops take
-- fuel, and `none` means that it ran out; `Ticks` and `Counter` show how much is enough.
pub mod Gcd
pub mod Ticks
pub mod Counter
pub mod Arm
mod Tests
use mathlib.Core.Option
use sunburst_chip.Base.{ℕ, zero, suc, ◌+◌, ◌-◌, ◌*◌, ◌/◌, ◌%◌, ◌^◌, Bool, true, false, not, ◌||◌}
use sunburst_chip.Base.{Option, none, some, leb, ltb, ◌==◌, if◌then◌else◌, u8, u32, u64, bit_or}
use sunburst_chip.Base.{◌<<<◌, ◌>>>◌}
use sunburst_chip.Bitfield.{Field32, field32_write, bit32_write}
use sunburst_chip.Math.{udiv64_slow}
use sunburst_chip.Mmio.{Bus, M, pure, ◌>>=◌, ◌>>◌, region_read32, region_write32}
use sunburst_chip.Mmio.{nonatomic_set_bit32, nonatomic_clear_bit32}
use sunburst_chip.Dif.{DifResult, dif_ok, dif_error, bad_arg, locked, unavailable, ip_fifo_full}
use sunburst_chip.Dif.{out_of_range, unaligned, Toggle, enabled, disabled, other_toggle}

abbrev pub n_harts : ℕ
n_harts = 1

abbrev pub n_timers : ℕ
n_timers = 1

abbrev pub ctrl_reg : ℕ
ctrl_reg = 0x4

abbrev pub intr_enable_reg : ℕ
intr_enable_reg = 0x100

abbrev pub intr_state_reg : ℕ
intr_state_reg = 0x104

abbrev pub cfg_reg : ℕ
cfg_reg = 0x10c

abbrev pub v_lower_reg : ℕ
v_lower_reg = 0x110

abbrev pub v_upper_reg : ℕ
v_upper_reg = 0x114

abbrev pub compare_lower_reg : ℕ
compare_lower_reg = 0x118

abbrev pub compare_upper_reg : ℕ
compare_upper_reg = 0x11c

abbrev pub prescale_mask : ℕ
prescale_mask = 0xfff

abbrev pub step_mask : ℕ
step_mask = 0xff

abbrev pub prescale_field : Field32
prescale_field = record { mask = prescale_mask; index = 0 }

abbrev pub step_field : Field32
step_field = record { mask = step_mask; index = 16 }

-- `reg_for_hart`.
abbrev pub reg_for_hart : ℕ → ℕ → ℕ
reg_for_hart hart reg_offset = 0x100 * hart + reg_offset

-- `euclidean_gcd`, with fuel.
unfoldable pub euclidean_gcd : ℕ → ℕ → ℕ → Option ℕ
euclidean_gcd zero a b = none
euclidean_gcd (suc fuel) a b =
    let rest = euclidean_gcd fuel b (udiv64_slow a b).1 in if b == 0 then some a else rest

-- `dif_rv_timer_tick_params_t`.
pub record TickParams : Type 0 where
  pub prescale : ℕ
  pub tick_step : ℕ

-- What is done once the divisor is known.
unfoldable pub params_of_gcd : ℕ → ℕ → ℕ → DifResult × Option TickParams
params_of_gcd clock_freq counter_freq gcd =
    let prescale = u64 ((udiv64_slow clock_freq gcd).0 + 2 ^ 64 - 1) in
    let step = (udiv64_slow counter_freq gcd).0 in
    if ltb prescale_mask prescale || ltb step_mask step
    then (bad_arg, none)
    else (dif_ok, some (record { prescale = prescale % 2 ^ 16; tick_step = u8 step }))

-- `has_out` tells that `out` is not NULL. `counter_freq + 1` rounds are enough.
unfoldable pub approximate_tick_params : ℕ → ℕ → Bool → Option (DifResult × Option TickParams)
approximate_tick_params clock_freq counter_freq false = some (bad_arg, none)
approximate_tick_params clock_freq counter_freq true =
    elim (euclidean_gcd (suc counter_freq) clock_freq counter_freq) [
      | none ↦ none
      | some gcd ↦ some (params_of_gcd clock_freq counter_freq gcd)
    ]

-- `error == kDifOk`.
abbrev pub is_ok : DifResult → Bool
is_ok dif_ok = true
is_ok _ = false

module _ {S : Type 0} (bus : Bus S) where
  unfoldable pub set_tick_params : Option ℕ → ℕ → TickParams → M S DifResult
  set_tick_params none hart_id params = pure bad_arg
  set_tick_params (some base) hart_id params = if leb n_harts hart_id then pure bad_arg else do
    let with_prescale = field32_write 0 prescale_field params.prescale
    let config_value = field32_write with_prescale step_field params.tick_step
    region_write32 bus base (reg_for_hart hart_id cfg_reg) config_value
    pure dif_ok

  -- The switch on the toggle.
  unfoldable pub toggle_counter : ℕ → ℕ → Toggle → M S DifResult
  toggle_counter base hart_id enabled = do
    nonatomic_set_bit32 bus base ctrl_reg hart_id
    pure dif_ok
  toggle_counter base hart_id disabled = do
    nonatomic_clear_bit32 bus base ctrl_reg hart_id
    pure dif_ok
  toggle_counter base hart_id (other_toggle n) = pure bad_arg

  unfoldable pub counter_set_enabled : Option ℕ → ℕ → Toggle → M S DifResult
  unfolding toggle_counter
  counter_set_enabled none hart_id state = pure bad_arg
  counter_set_enabled (some base) hart_id state =
      if leb n_harts hart_id then pure bad_arg else toggle_counter base hart_id state

  -- The loop reads the upper half twice, and starts again where it has changed.
  unfoldable pub counter_read_loop : ℕ → ℕ → ℕ → M S (Option ℕ)
  counter_read_loop zero base hart_id = pure none
  counter_read_loop (suc fuel) base hart_id =
      let again = counter_read_loop fuel base hart_id in
      do
        upper ← region_read32 bus base (reg_for_hart hart_id v_upper_reg)
        lower ← region_read32 bus base (reg_for_hart hart_id v_lower_reg)
        overflow_check ← region_read32 bus base (reg_for_hart hart_id v_upper_reg)
        if upper == overflow_check then pure (some (bit_or (u64 (upper <<< 32)) lower)) else again

  -- `none` where the fuel ran out.
  unfoldable pub counter_read : ℕ → Option ℕ → ℕ → Bool → M S (Option (DifResult × Option ℕ))
  counter_read fuel none hart_id has_out = pure (some (bad_arg, none))
  counter_read fuel (some base) hart_id has_out =
      if not has_out || leb n_harts hart_id then pure (some (bad_arg, none)) else do
        out ← counter_read_loop fuel base hart_id
        pure (Option.map (λ v. (dif_ok, some v)) out)

  unfoldable pub counter_write : Option ℕ → ℕ → ℕ → M S DifResult
  counter_write none hart_id count = pure bad_arg
  counter_write (some base) hart_id count = if leb n_harts hart_id then pure bad_arg else do
    saved ← region_read32 bus base ctrl_reg
    region_write32 bus base ctrl_reg (bit32_write saved hart_id false)
    region_write32 bus base (reg_for_hart hart_id v_lower_reg) (u32 count)
    region_write32 bus base (reg_for_hart hart_id v_upper_reg) (u32 (count >>> 32))
    region_write32 bus base ctrl_reg saved
    pure dif_ok

  unfoldable pub arm : Option ℕ → ℕ → ℕ → ℕ → M S DifResult
  arm none hart_id comp_id threshold = pure bad_arg
  arm (some base) hart_id comp_id threshold =
      if leb n_harts hart_id || leb n_timers comp_id then pure bad_arg else do
        let lower_reg = reg_for_hart hart_id compare_lower_reg + 8 * comp_id
        let upper_reg = reg_for_hart hart_id compare_upper_reg + 8 * comp_id
        region_write32 bus base upper_reg 0xffffffff
        region_write32 bus base lower_reg (u32 threshold)
        region_write32 bus base upper_reg (u32 (threshold >>> 32))
        pure dif_ok

  -- The loops of the reset; a comparator that cannot be armed ends them with its error.
  unfoldable pub reset_comparators : ℕ → ℕ → ℕ → ℕ → M S DifResult
  reset_comparators base hart_id comp_id zero = pure dif_ok
  reset_comparators base hart_id comp_id (suc left) = do
    error ← arm (some base) hart_id comp_id (2 ^ 64 - 1)
    if is_ok error then reset_comparators base hart_id (comp_id + 1) left else pure error

  unfoldable pub reset_harts : ℕ → ℕ → ℕ → M S DifResult
  unfolding reset_comparators
  reset_harts base hart_id zero = pure dif_ok
  reset_harts base hart_id (suc left) = do
    region_write32 bus base (reg_for_hart hart_id intr_enable_reg) 0x0
    region_write32 bus base (reg_for_hart hart_id intr_state_reg) 0xffffffff
    error ← reset_comparators base hart_id 0 n_timers
    if not (is_ok error) then pure error else do
      region_write32 bus base (reg_for_hart hart_id v_lower_reg) 0x0
      region_write32 bus base (reg_for_hart hart_id v_upper_reg) 0x0
      reset_harts base (hart_id + 1) left

  unfoldable pub reset : Option ℕ → M S DifResult
  unfolding reset_harts
  reset none = pure bad_arg
  reset (some base) = do region_write32 bus base ctrl_reg 0x0; reset_harts base 0 n_harts
