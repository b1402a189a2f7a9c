-- ===== src/Math.antt =====
-- sw/device/lib/base/math.c and math.h: 64-bit division by shifts, and division rounded up.
pub mod Division
mod Tests
use sunburst_chip.Base.{ℕ, zero, suc, ◌+◌, ◌-◌, ◌*◌, ◌/◌, ◌%◌, ◌^◌, bit_and, bit_or}
use sunburst_chip.Base.{◌==◌, leb, u64, ◌<<<◌, ◌>>>◌, if◌then◌else◌}

-- `ceil_div` at a 32-bit `size_t`. C leaves `b = 0` undefined.
unfoldable pub ceil_div : ℕ → ℕ → ℕ
ceil_div a b = if a % b == 0 then a / b else (a / b + 1) % 2 ^ 32

-- One round of the loop of `udiv64_slow`, with `shift` for `bits - i - 1`.
unfoldable pub udiv64_round : ℕ → ℕ → ℕ → ℕ → ℕ → ℕ × ℕ
udiv64_round a b shift quot rem =
    let quot' = u64 (quot <<< 1) in
    let rem' = bit_or (u64 (rem <<< 1)) (bit_and (a >>> shift) 1) in
    if leb b rem' then (bit_or quot' 1, rem' - b) else (quot', rem')

-- The loop with `left` rounds to go, `bits - i`.
unfoldable pub udiv64_loop : ℕ → ℕ → ℕ → ℕ → ℕ → ℕ × ℕ
udiv64_loop a b zero quot rem = (quot, rem)
udiv64_loop a b (suc left) quot rem =
    let (quot', rem') = udiv64_round a b left quot rem in udiv64_loop a b left quot' rem'

-- The quotient, and what goes through `rem_out` where that is given.
unfoldable pub udiv64_slow : ℕ → ℕ → ℕ × ℕ
unfolding udiv64_loop udiv64_round
udiv64_slow a b = udiv64_loop a b 64 0 0
