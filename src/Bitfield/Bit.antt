-- ===== src/Bitfield/Bit.antt =====
-- Single bits, and how two concrete fields are seen not to meet.
use sunburst_chip.Base.{ℕ, ◌-◌, ◌*◌, ◌/◌, ◌^◌, ◌<◌, bit_and, ◌≡◌, arith, ◌==◌, ◌<<<◌}
use sunburst_chip.Base.{Bool, if◌then◌else◌}
use sunburst_chip.Bits.{
  bit, bit-zero, bit-bit_and, bit-shift_left, bit-shift_right, bit_and_mask, lt_of_bits, bit-one,
  bit-head,
}
use sunburst_chip.Bitfield.{Field32, bit32_to_field32}
use sunburst_chip.Bitfield.{bit32_read, bit32_write}
use sunburst_chip.Bitfield.Laws.{IsField, covers, Disjoint, field32_write_bits, field32_write-lt}

-- Two fields do not meet if their masks, put in place, have no bit in common.
pub Disjoint-of_masks :
    (f g : Field32) → bit_and (f.mask <<< f.index) (g.mask <<< g.index) ≡ 0 → Disjoint f g
Disjoint-of_masks f g h j c = ground (
  arith,
  bit-bit_and j (f.mask * 2 ^ f.index) (g.mask * 2 ^ g.index),
  bit-shift_left f.index j f.mask,
  bit-shift_left g.index j g.mask,
  bit-zero j,
)

pub bit_IsField : (i : ℕ) → i < 32 → IsField (bit32_to_field32 i)
bit_IsField i h = lt_of_bits 32 _ λ j le. ground (arith, bit-shift_left i j 1, bit-one (j - i))

covers_bit : (i j : ℕ) → covers (bit32_to_field32 i) j ≡ (j == i)
covers_bit i j = ground (arith, bit-one (j - i))

-- A bit reads as the bit of the number.
pub bit32_read_lem : (w i : ℕ) → bit32_read w i ≡ (bit i w == 1)
unfolding bit32_read
bit32_read_lem w i =
    ground (arith, bit_and_mask 1 (w / 2 ^ i), bit-shift_right i 0 w, bit-head (w / 2 ^ i))

-- A write to one bit gives that bit the value and leaves every other bit.
pub bit32_write_bits :
    (w i : ℕ) (b : Bool) (j : ℕ)
    → w < 2 ^ 32
    → i < 32
    → bit j (bit32_write w i b) ≡ (if j == i then (if b then 1 else 0) else bit j w)
unfolding bit32_write
bit32_write_bits w i b j hw hi = ground (
  arith,
  field32_write_bits w (bit32_to_field32 i) (if b then 1 else 0) j hw (bit_IsField i hi),
  covers_bit i j,
  bit-one (j - i),
  bit-zero (j - i),
)

pub bit32_write-lt : (w i : ℕ) (b : Bool) → w < 2 ^ 32 → i < 32 → bit32_write w i b < 2 ^ 32
unfolding bit32_write
bit32_write-lt w i b hw hi = field32_write-lt w (bit32_to_field32 i) _ hw (bit_IsField i hi)

-- After a write to bit `i` below 32 of a 32-bit word, bit `i` reads as what was written, and every
-- other bit as before.
pub bit32_read-write :
    (w i j : ℕ) (b : Bool)
    → w < 2 ^ 32
    → i < 32
    → bit32_read (bit32_write w i b) j ≡ (if j == i then b else bit32_read w j)
bit32_read-write w i j b hw hi = ground (
  arith,
  bit32_read_lem (bit32_write w i b) j,
  bit32_read_lem w j,
  bit32_write_bits w i b j hw hi,
)
