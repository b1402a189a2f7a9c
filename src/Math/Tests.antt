-- ===== src/Math/Tests.antt =====
-- Divisions at chosen numbers.
use sunburst_chip.Base.{◌+◌, ◌-◌, ◌^◌, ◌≡◌, refl, arith}
use sunburst_chip.Math.{udiv64_slow}
use sunburst_chip.Math.Division.{udiv64_slow_lem}

udiv64_slow_runs : udiv64_slow (2 ^ 64 - 1) 10 ≡ (1844674407370955161, 5)
unfolding udiv64_slow
udiv64_slow_runs = refl

udiv64_slow_lem_example : udiv64_slow (2 ^ 64 - 1) (2 ^ 63 + 1) ≡ (1, 2 ^ 63 - 2)
udiv64_slow_lem_example = udiv64_slow_lem (2 ^ 64 - 1) (2 ^ 63 + 1) (omega arith) (omega arith)
