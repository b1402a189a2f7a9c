-- ===== src/I2c/Tests.antt =====
-- A fast bus on a clock of 8 ns.
use sunburst_chip.Base.{◌≡◌, refl, arith, some}
use sunburst_chip.Dif.{dif_ok}
use sunburst_chip.I2c.{TimingConfig, Config, fast, speed_khz, round_up_divide, compute_timing}
use sunburst_chip.I2c.Timing.{IsSound, compute_timing-IsSound}

abbrev fast_bus : TimingConfig
fast_bus = record {
  lowest_target_device_speed = fast;
  clock_period_nanos = 8;
  sda_rise_nanos = 120;
  sda_fall_nanos = 30;
  scl_period_nanos = 0;
}

-- A duration of 0 wraps, to 429496730 cycles of 10 ns, of which the low 16 bits are left.
zero_wraps : round_up_divide 0 10 ≡ 39322
unfolding round_up_divide
zero_wraps = refl

khz : speed_khz fast ≡ some 400
unfolding speed_khz
khz = refl

compute_timing-IsSound_example :
    (c : Config) × (compute_timing fast_bus ≡ (dif_ok, some c)) × IsSound fast_bus 400 c
compute_timing-IsSound_example =
    compute_timing-IsSound fast_bus 400 khz (omega arith) (omega arith, omega arith, omega arith)
      (omega arith, omega arith, omega arith) (omega arith, omega arith, omega arith)
