-- ===== src/I2c.antt =====
-- sw/device/lib/dif/dif_i2c.c, the driver of the I2C controller: its timing, here, with the FIFOs in
-- Fifos and the rest of the registers in Control. Handles and pointers are as in `Plic`.
pub mod Timing
pub mod Control
pub mod Fifos
mod Tests
use sunburst_chip.Base.{
  ℕ, ◌+◌, ◌-◌, ◌*◌, ◌/◌, ◌%◌, ◌^◌, Bool, true, false, not, ◌||◌, if◌then◌else◌, ltb, Option, none,
  some, u32, max,
}
use sunburst_chip.Bitfield.{Field32, field32_write}
use sunburst_chip.Mmio.{Bus, M, pure, ◌>>=◌, ◌>>◌, region_write32}
use sunburst_chip.Dif.{DifResult, dif_ok, bad_arg, out_of_range}

-- `dif_i2c_speed_t`; C lets any other number stand there too.
pub data Speed : Type 0 where
  standard fast fast_plus : Speed
  other_speed : ℕ → Speed

-- `dif_i2c_timing_config_t`.
pub record TimingConfig : Type 0 where
  pub lowest_target_device_speed : Speed
  pub clock_period_nanos : ℕ
  pub sda_rise_nanos : ℕ
  pub sda_fall_nanos : ℕ
  pub scl_period_nanos : ℕ

-- `dif_i2c_config_t`.
pub record Config : Type 0 where
  pub scl_time_high_cycles : ℕ
  pub scl_time_low_cycles : ℕ
  pub rise_cycles : ℕ
  pub fall_cycles : ℕ
  pub start_signal_setup_cycles : ℕ
  pub start_signal_hold_cycles : ℕ
  pub data_signal_setup_cycles : ℕ
  pub data_signal_hold_cycles : ℕ
  pub stop_signal_setup_cycles : ℕ
  pub stop_signal_hold_cycles : ℕ

-- The divisor is not 0; `a - 1` wraps.
unfoldable pub round_up_divide : ℕ → ℕ → ℕ
round_up_divide a b = u32 (u32 (a + 2 ^ 32 - 1) / b + 1) % 2 ^ 16

-- The literals of one speed, in nanoseconds.
abbrev pub timing_of : ℕ → ℕ → ℕ → ℕ → Config
timing_of period long_ short setup = record {
  scl_time_high_cycles = round_up_divide short period;
  scl_time_low_cycles = round_up_divide long_ period;
  rise_cycles = 0;
  fall_cycles = 0;
  start_signal_setup_cycles = round_up_divide short period;
  start_signal_hold_cycles = round_up_divide short period;
  data_signal_setup_cycles = round_up_divide setup period;
  data_signal_hold_cycles = 1;
  stop_signal_setup_cycles = round_up_divide short period;
  stop_signal_hold_cycles = round_up_divide long_ period;
}

abbrev no_timing : Config
no_timing = record {
  scl_time_high_cycles = 0;
  scl_time_low_cycles = 0;
  rise_cycles = 0;
  fall_cycles = 0;
  start_signal_setup_cycles = 0;
  start_signal_hold_cycles = 0;
  data_signal_setup_cycles = 0;
  data_signal_hold_cycles = 0;
  stop_signal_setup_cycles = 0;
  stop_signal_hold_cycles = 0;
}

unfoldable pub default_timing_for_speed : Speed → ℕ → Config
default_timing_for_speed standard period =
    let timing = timing_of period 4700 4000 250 in
    record timing { start_signal_setup_cycles = round_up_divide 4700 period }
default_timing_for_speed fast period = timing_of period 1300 600 100
default_timing_for_speed fast_plus period = timing_of period 500 260 50
default_timing_for_speed (other_speed n) period = no_timing

-- The `switch` of `dif_i2c_compute_timing`; `none` is a bad argument.
unfoldable pub speed_khz : Speed → Option ℕ
speed_khz standard = some 100
speed_khz fast = some 400
speed_khz fast_plus = some 1000
speed_khz (other_speed n) = none

abbrev pub nanos_per_kbaud : ℕ
nanos_per_kbaud = 1000000

-- The timing once the high time is settled.
abbrev pub at_least_four : Config → Config
at_least_four config = record config {
  scl_time_high_cycles = max 4 config.scl_time_high_cycles;
  scl_time_low_cycles = max 4 config.scl_time_low_cycles;
}

-- The high period is lengthened: C compares the difference as an `int32_t`. Where it exceeds the
-- high time it is not negative.
unfoldable pub lengthened : Config → ℕ → DifResult × Config
lengthened config scl_period_cycles =
    let others = config.scl_time_low_cycles + config.rise_cycles + config.fall_cycles in
    let lengthened_high_cycles = scl_period_cycles - others in
    if ltb (config.scl_time_high_cycles + others) scl_period_cycles
    then (if ltb 0xffff lengthened_high_cycles then (out_of_range, config) else (
      dif_ok,
      at_least_four (record config { scl_time_high_cycles = lengthened_high_cycles % 2 ^ 16 }),
    ))
    else (dif_ok, at_least_four config)

unfoldable pub timing_at : ℕ → TimingConfig → DifResult × Config
timing_at khz t =
    let period = t.clock_period_nanos in
    let config = default_timing_for_speed t.lowest_target_device_speed period in
    let edges = record config {
      rise_cycles = round_up_divide t.sda_rise_nanos period;
      fall_cycles = round_up_divide t.sda_fall_nanos period;
    } in
    let scl_period_nanos = max t.scl_period_nanos (nanos_per_kbaud / khz) in
    lengthened edges (round_up_divide scl_period_nanos period)

-- The rest of `dif_i2c_compute_timing`, with the speed in kHz. `none` leaves what the pointer shows.
unfoldable pub timing_for : TimingConfig → Option ℕ → DifResult × Option Config
timing_for t none = (bad_arg, none)
timing_for t (some khz) = let (r, config) = timing_at khz t in (r, some config)

-- The pointer is not NULL.
unfoldable pub compute_timing : TimingConfig → DifResult × Option Config
compute_timing t = timing_for t (speed_khz t.lowest_target_device_speed)

-- A register of two fields, at bits 0 and 16.
abbrev pub pair_of : ℕ → ℕ → ℕ → ℕ → ℕ
pair_of low_mask low high_mask high =
    field32_write (field32_write 0 (record { mask = low_mask; index = 0 }) low)
      (record { mask = high_mask; index = 16 }) high

module _ {S : Type 0} (bus : Bus S) where
  unfoldable pub configure : Option ℕ → Config → M S DifResult
  configure none config = pure bad_arg
  configure (some base) config = do
    region_write32 bus base 0x3c
        (pair_of 0x1fff config.scl_time_high_cycles 0x1fff config.scl_time_low_cycles)
    region_write32 bus base 0x40 (pair_of 0x3ff config.rise_cycles 0x1ff config.fall_cycles)
    region_write32 bus base 0x44
        (pair_of 0x1fff config.start_signal_setup_cycles 0x1fff config.start_signal_hold_cycles)
    region_write32 bus base 0x48
        (pair_of 0x1ff config.data_signal_setup_cycles 0x1fff config.data_signal_hold_cycles)
    region_write32 bus base 0x4c
        (pair_of 0x1fff config.stop_signal_setup_cycles 0x1fff config.stop_signal_hold_cycles)
    pure dif_ok
