-- ===== src/Bitfield.antt =====
-- sw/device/lib/base/bitfield.h: fields and single bits of a `uint32_t`. A field is a mask and the
-- index that it is shifted to. The functions that only call a compiler builtin are left out.
pub mod Laws
pub mod Bit
pub mod PowerOfTwo
mod Tests
use sunburst_chip.Base.{ℕ, ◌+◌, ◌-◌, ◌*◌, ◌/◌, ◌%◌, ◌^◌, bit_and, bit_or, ◌==◌, u32, ◌<<<◌, ◌>>>◌}
use sunburst_chip.Base.{Bool, true, false, not, ◌&&◌, if◌then◌else◌}

-- `bitfield_field32_t`.
pub record Field32 : Type 0 where
  pub mask : ℕ
  pub index : ℕ

-- `~x` of a `uint32_t`.
abbrev pub not32 : ℕ → ℕ
not32 x = 2 ^ 32 - 1 - x

unfoldable pub field32_read : ℕ → Field32 → ℕ
field32_read bitfield field = bit_and (bitfield >>> field.index) field.mask

unfoldable pub field32_write : ℕ → Field32 → ℕ → ℕ
field32_write bitfield field value =
    let cleared = bit_and bitfield (not32 (u32 (field.mask <<< field.index))) in
    bit_or cleared (u32 (bit_and value field.mask <<< field.index))

abbrev pub bit32_to_field32 : ℕ → Field32
bit32_to_field32 bit_index = record { mask = 1; index = bit_index }

unfoldable pub bit32_read : ℕ → ℕ → Bool
unfolding field32_read
bit32_read bitfield bit_index = field32_read bitfield (bit32_to_field32 bit_index) == 1

unfoldable pub bit32_write : ℕ → ℕ → Bool → ℕ
unfolding field32_write
bit32_write bitfield bit_index value =
    field32_write bitfield (bit32_to_field32 bit_index) (if value then 1 else 0)

unfoldable pub bit32_copy : ℕ → ℕ → ℕ → ℕ → ℕ
unfolding bit32_read bit32_write
bit32_copy dest dest_bit src src_bit = bit32_write dest dest_bit (bit32_read src src_bit)

-- `bitfield - 1` runs only at a value that is not 0.
unfoldable pub is_power_of_two32 : ℕ → Bool
is_power_of_two32 bitfield = not (bitfield == 0) && bit_and bitfield (bitfield - 1) == 0
