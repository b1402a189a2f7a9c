-- ===== src/Gpio/Masked.antt =====
-- Masked writes change the pins of the mask and no others.
use sunburst_chip.Base.{
  ℕ, ◌+◌, ◌-◌, ◌*◌, ◌/◌, ◌%◌, ◌^◌, ◌≤◌, ◌<◌, ◌≡◌, refl, arith, ap, true, false, ltb, leb, ◌==◌,
  ◌&&◌, if◌then◌else◌, some, bit_and, u32, ◌<<<◌, ℕ_discrete,
}
use sunburst_chip.Bits.{
  bit, bit-bit_and, bit-bit_or, bit-shift_left, bit-shift_right, bit-zero, bit-le-one, bit-high,
  bit_and_mask, lt_of_bits, bit-mod, bit-complement,
}
use sunburst_chip.Mmio.{Bus}
use sunburst_chip.Dif.{dif_ok}
use sunburst_chip.Gpio.{
  masked_out_lower_reg, masked_out_upper_reg, lower_value, upper_value, masked_write, write_masked,
}

low_ones : (j : ℕ) → bit j 0xffff ≡ (if ltb j 16 then 1 else 0)
low_ones j =
    ground
      (arith, bit-complement 16 j 0 (omega arith), bit-zero j, bit-high 16 j 0xffff (omega arith))

high_ones : (j : ℕ) → bit j 0xffff0000 ≡ (if leb 16 j && ltb j 32 then 1 else 0)
high_ones j = ground (arith, bit-shift_left 16 j 0xffff, low_ones (j - 16))

-- The direct register `out` changes by the documented rule: of a value stored to the lower register,
-- the upper half says which of the lower 16 bits take the value of its lower half, and so for the
-- upper register and the upper 16 bits.
pub record IsMasked {S : Type 0} (bus : Bus S) (base : ℕ) (out : S → ℕ) : Type 0 where
  pub out-store_lower :
      (v : ℕ) (s : S) (j : ℕ)
      → v < 2 ^ 32
      → bit j (out (bus.store (base + masked_out_lower_reg / 4 * 4) v s))
        ≡ (if ltb j 16 && bit (j + 16) v == 1 then bit j v else bit j (out s))
  pub out-store_upper :
      (v : ℕ) (s : S) (j : ℕ)
      → v < 2 ^ 32
      → bit j (out (bus.store (base + masked_out_upper_reg / 4 * 4) v s))
        ≡ (if leb 16 j && bit j v == 1 then bit (j - 16) v else bit j (out s))

lower_bits :
    (mask val j : ℕ)
    → bit j (lower_value mask val)
      ≡ (if ltb j 16 then bit j val else if ltb j 32 then bit (j - 16) mask else 0)
lower_bits mask val j =
    let m : u32 (bit_and mask 0xffff <<< 16) ≡ mask % 2 ^ 16 * 2 ^ 16 =
      omega (arith, bit_and_mask 16 mask) in
    rw m (
      ground (
        arith,
        bit-bit_or j (mask % 2 ^ 16 * 2 ^ 16) (bit_and val 0xffff),
        bit-shift_left 16 j (mask % 2 ^ 16),
        bit-mod 16 (j - 16) mask,
        bit-bit_and j val 0xffff,
        low_ones j,
        bit-le-one j val,
        bit-le-one (j - 16) mask,
      ))

upper_bits :
    (mask val j : ℕ)
    → bit j (upper_value mask val)
      ≡ (if ltb j 16 then bit (j + 16) val else if ltb j 32 then bit j mask else 0)
upper_bits mask val j = ground (
  arith,
  bit-bit_or j (bit_and mask 0xffff0000) (bit_and val 0xffff0000 / 2 ^ 16),
  bit-shift_right 16 j (bit_and val 0xffff0000),
  bit-bit_and j mask 0xffff0000,
  bit-bit_and (j + 16) val 0xffff0000,
  high_ones j,
  high_ones (j + 16),
  bit-le-one j mask,
  bit-le-one (j + 16) val,
)

lower-lt : (mask val : ℕ) → lower_value mask val < 2 ^ 32
lower-lt mask val = lt_of_bits 32 _ λ j le. ground (arith, lower_bits mask val j)

upper-lt : (mask val : ℕ) → upper_value mask val < 2 ^ 32
upper-lt mask val = lt_of_bits 32 _ λ j le. ground (arith, upper_bits mask val j)

-- A half of the mask that is 0 has none of its bits.
no_lower : (mask j : ℕ) → bit_and mask 0xffff ≡ 0 → j < 16 → bit j mask ≡ 0
no_lower mask j e h =
    let z = bit-bit_and j mask 0xffff in
    let y : bit j (bit_and mask 0xffff) ≡ 0 = rw e (bit-zero j) in
    ground (arith, z, y, low_ones j, bit-le-one j mask)

no_upper : (mask j : ℕ) → bit_and mask 0xffff0000 ≡ 0 → 16 ≤ j → j < 32 → bit j mask ≡ 0
no_upper mask j e h k =
    let z = bit-bit_and j mask 0xffff0000 in
    let y : bit j (bit_and mask 0xffff0000) ≡ 0 = rw e (bit-zero j) in
    ground (arith, z, y, high_ones j, bit-le-one j mask)

module _ {S : Type 0} (bus : Bus S) (base : ℕ) (out : S → ℕ) (hw : IsMasked bus base out) where
  -- Where the masked registers change the output register by the documented rule, a masked write
  -- succeeds, and gives each of the 32 pins that the mask selects its bit of the value and leaves
  -- every other pin.
  pub write_masked_lem :
      (mask val j : ℕ) (s : S)
      → j < 32
      → let (r, s') = write_masked bus (some base) mask val s in
        (r ≡ dif_ok) × (bit j (out s') ≡ (if bit j mask == 1 then bit j val else bit j (out s)))
  unfolding write_masked masked_write
  write_masked_lem mask val j s h =
      let v = lower_value mask val in
      let u = upper_value mask val in
      let s1 = bus.store (base + masked_out_lower_reg / 4 * 4) v s in
      let low = hw.out-store_lower v s j (lower-lt mask val) in
      let high = λ (t : S). hw.out-store_upper u t j (upper-lt mask val) in
      let e16 : j + 16 - 16 ≡ j = omega arith in
      let lb = lower_bits mask val (j + 16) in
      let lb' = rw e16 at lb in
      let back = λ (le : 16 ≤ j). ap (λ k. bit k val) {x = j - 16 + 16} {y = j} (omega arith) in
      elim (ℕ_discrete (bit_and mask 0xffff) 0) [
        | yes a ↦
            let ta : (bit_and mask 0xffff == 0) ≡ true = ground arith in
            elim (ℕ_discrete (bit_and mask 0xffff0000) 0) [
              | yes b ↦
                  let tb : (bit_and mask 0xffff0000 == 0) ≡ true = ground arith in
                  rw (ta, tb) (refl, ground (arith, no_lower mask j a, no_upper mask j b))
              | no b ↦
                  let tb : (bit_and mask 0xffff0000 == 0) ≡ false = ground arith in
                  rw (ta, tb)
                    (
                      refl,
                      ground (
                        arith,
                        high s,
                        upper_bits mask val j,
                        upper_bits mask val (j - 16),
                        back,
                        no_lower mask j a,
                      ),
                    )
            ]
        | no a ↦
            let ta : (bit_and mask 0xffff == 0) ≡ false = ground arith in
            elim (ℕ_discrete (bit_and mask 0xffff0000) 0) [
              | yes b ↦
                  let tb : (bit_and mask 0xffff0000 == 0) ≡ true = ground arith in
                  rw (ta, tb)
                    (refl, ground (arith, low, lb', lower_bits mask val j, no_upper mask j b))
              | no b ↦
                  let tb : (bit_and mask 0xffff0000 == 0) ≡ false = ground arith in
                  rw (ta, tb)
                    (
                      refl,
                      ground (
                        arith,
                        low,
                        lb',
                        lower_bits mask val j,
                        high s1,
                        upper_bits mask val j,
                        upper_bits mask val (j - 16),
                        back,
                      ),
                    )
            ]
      ]
