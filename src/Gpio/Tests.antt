-- ===== src/Gpio/Tests.antt =====
-- Pins behind masked registers, as the hardware's description has them.
use sunburst_chip.Base.{
  ℕ, ◌+◌, ◌-◌, ◌*◌, ◌/◌, ◌%◌, ◌^◌, ◌<◌, ◌≡◌, arith, ap, ◌==◌, if◌then◌else◌, some, bit_and, bit_or,
}
use sunburst_chip.Bits.{
  bit, bit-bit_and, bit-bit_or, bit-shift_left, bit-shift_right, bit-le-one, bit-high, bit-mod,
  bit-complement,
}
use sunburst_chip.Mmio.{Bus}
use sunburst_chip.Dif.{dif_ok}
use sunburst_chip.Gpio.{write_masked}
use sunburst_chip.Gpio.Masked.{IsMasked, write_masked_lem}

-- The bits of `s` that `m` selects become those of `v`.
abbrev merge : ℕ → ℕ → ℕ → ℕ
merge m v s = bit_or (bit_and v m) (bit_and s (2 ^ 32 - 1 - m))

merge_bits :
    (m v s j : ℕ)
    → m < 2 ^ 32
    → s < 2 ^ 32
    → bit j (merge m v s) ≡ (if bit j m == 1 then bit j v else bit j s)
merge_bits m v s j h k = ground (
  arith,
  bit-bit_or j (bit_and v m) (bit_and s (2 ^ 32 - 1 - m)),
  bit-bit_and j v m,
  bit-bit_and j s (2 ^ 32 - 1 - m),
  bit-complement 32 j m h,
  bit-high 32 j s k,
  bit-le-one j m,
  bit-le-one j v,
  bit-le-one j s,
)

abbrev pins : ℕ → ℕ
pins s = s % 2 ^ 32

abbrev store_pins : ℕ → ℕ → ℕ → ℕ
store_pins a v s =
    if a == 0x1018
    then merge (v / 2 ^ 16) v (pins s)
    else if a == 0x101c
    then merge (v / 2 ^ 16 * 2 ^ 16) (v * 2 ^ 16) (pins s)
    else s

abbrev device : Bus ℕ
device = record { load = λ a s. (pins s, s); store = store_pins }

device-IsMasked : IsMasked device 0x1000 pins
device-IsMasked = record {
  out-store_lower = λ v s j h. ground (
    arith,
    bit-mod 32 j (merge (v / 2 ^ 16) v (pins s)),
    merge_bits (v / 2 ^ 16) v (pins s) j (omega arith) (omega arith),
    bit-shift_right 16 j v,
    bit-high 32 (j + 16) v h,
    bit-high 32 j v h,
    bit-mod 32 j s,
  );
  out-store_upper = λ v s j h. ground (
    arith,
    bit-mod 32 j (merge (v / 2 ^ 16 * 2 ^ 16) (v * 2 ^ 16) (pins s)),
    merge_bits (v / 2 ^ 16 * 2 ^ 16) (v * 2 ^ 16) (pins s) j (omega arith) (omega arith),
    bit-shift_left 16 j (v / 2 ^ 16),
    bit-shift_right 16 (j - 16) v,
    λ (e : j - 16 + 16 ≡ j). ap (λ k. bit k v) e,
    bit-shift_left 16 j v,
    bit-high 32 j v h,
    bit-mod 32 j s,
  );
}

write_masked_lem_example :
    let (r, s') = write_masked device (some 0x1000) 0xff00ff 0x123456 0 in
    (r ≡ dif_ok) × (bit 17 (pins s') ≡ (if bit 17 0xff00ff == 1 then bit 17 0x123456 else bit 17 0))
write_masked_lem_example =
    write_masked_lem device 0x1000 pins device-IsMasked 0xff00ff 0x123456 17 0 (omega arith)
