-- ===== src/Bitfield/Laws.antt =====
-- The laws of fields: bit by bit, then as a lens, and for two fields that do not meet.
use sunburst_chip.Base.{ℕ, ◌+◌, ◌-◌, ◌*◌, ◌/◌, ◌^◌, ◌<◌, min, bit_and, ◌≡◌}
use sunburst_chip.Base.{arith, ltb, ◌==◌, u32, Bool, true, false, not, ◌&&◌}
use sunburst_chip.Base.{if◌then◌else◌}
use sunburst_chip.Bits.{bit, bit-le-one, bit-bit_and, bit-bit_or, bit_ext, bit-shift_left}
use sunburst_chip.Bits.{bit-shift_right, bit-high, bit-complement, lt_of_bits}
use sunburst_chip.Bitfield.{Field32, not32, field32_read, field32_write}

-- The field lies within 32 bits.
abbrev pub IsField : Field32 → Type 0
IsField f = f.mask * 2 ^ f.index < 2 ^ 32

-- The bits of the word that belong to the field.
abbrev pub covers : Field32 → ℕ → Bool
covers f j = not (ltb j f.index) && bit (j - f.index) f.mask == 1

abbrev pub Disjoint : Field32 → Field32 → Type 0
Disjoint f g = (j : ℕ) → covers f j ≡ true → covers g j ≡ false

shifted_lt : (f : Field32) (v : ℕ) → IsField f → bit_and v f.mask * 2 ^ f.index < 2 ^ 32
shifted_lt f v h = lt_of_bits 32 _ λ j le. ground (
  arith,
  bit-shift_left f.index j (bit_and v f.mask),
  bit-shift_left f.index j f.mask,
  bit-bit_and (j - f.index) v f.mask,
  bit-high 32 j (f.mask * 2 ^ f.index),
)

-- A write to a field within 32 bits of a 32-bit word gives each bit of the field the bit of the
-- value, and leaves every other bit.
pub field32_write_bits :
    (w : ℕ) (f : Field32) (v j : ℕ)
    → w < 2 ^ 32
    → IsField f
    → bit j (field32_write w f v) ≡ (if covers f j then bit (j - f.index) v else bit j w)
unfolding field32_write
field32_write_bits w f v j hw hf =
    let m = f.mask * 2 ^ f.index in
    let em : u32 m ≡ m = omega arith in
    let ev : u32 (bit_and v f.mask * 2 ^ f.index) ≡ bit_and v f.mask * 2 ^ f.index =
      omega (arith, shifted_lt f v hf) in
    rw (em, ev)
      (ground (
        arith,
        bit-bit_or j (bit_and w (not32 m)) (bit_and v f.mask * 2 ^ f.index),
        bit-bit_and j w (not32 m),
        bit-complement 32 j m hf,
        bit-high 32 j w hw,
        bit-high 32 j m hf,
        bit-shift_left f.index j (bit_and v f.mask),
        bit-shift_left f.index j f.mask,
        bit-bit_and (j - f.index) v f.mask,
        bit-le-one (j - f.index) f.mask,
        bit-le-one (j - f.index) v,
        bit-le-one j w,
      ))

pub field32_write-lt :
    (w : ℕ) (f : Field32) (v : ℕ) → w < 2 ^ 32 → IsField f → field32_write w f v < 2 ^ 32
field32_write-lt w f v hw hf = lt_of_bits 32 _ λ j le. ground (
  arith,
  field32_write_bits w f v j hw hf,
  bit-high 32 j w hw,
  bit-high 32 j (f.mask * 2 ^ f.index) hf,
  bit-shift_left f.index j f.mask,
)

-- The bits of what is read.
pub field32_read_bits :
    (w : ℕ) (f : Field32) (j : ℕ)
    → bit j (field32_read w f) ≡ min (bit (j + f.index) w) (bit j f.mask)
unfolding field32_read
field32_read_bits w f j =
    ground (arith, bit-bit_and j (w / 2 ^ f.index) f.mask, bit-shift_right f.index j w)

-- Reading a field within 32 bits of a 32-bit word just after a write gives the value, cut to the
-- mask.
pub field32_read-write :
    (w : ℕ) (f : Field32) (v : ℕ)
    → w < 2 ^ 32
    → IsField f
    → field32_read (field32_write w f v) f ≡ bit_and v f.mask
field32_read-write w f v hw hf = bit_ext _ _ λ j.
    let e : j + f.index - f.index ≡ j = omega arith in
    ground (
      arith,
      e,
      field32_read_bits (field32_write w f v) f j,
      field32_write_bits w f v (j + f.index) hw hf,
      bit-bit_and j v f.mask,
      bit-le-one j f.mask,
      bit-le-one j v,
    )

-- Writing back what a field within 32 bits of a 32-bit word holds changes nothing.
field32_write-read :
    (w : ℕ) (f : Field32) → w < 2 ^ 32 → IsField f → field32_write w f (field32_read w f) ≡ w
field32_write-read w f hw hf = bit_ext _ _ λ j. ground (
  arith,
  field32_read_bits w f (j - f.index),
  field32_write_bits w f (field32_read w f) j hw hf,
  bit-le-one j w,
)

-- The second of two writes to a field within 32 bits of a 32-bit word wins.
field32_write-write :
    (w : ℕ) (f : Field32) (u v : ℕ)
    → w < 2 ^ 32
    → IsField f
    → field32_write (field32_write w f u) f v ≡ field32_write w f v
field32_write-write w f u v hw hf = bit_ext _ _ λ j. ground (
  arith,
  field32_write_bits (field32_write w f u) f v j (field32_write-lt w f u hw hf) hf,
  field32_write_bits w f u j hw hf,
  field32_write_bits w f v j hw hf,
)

-- In a 32-bit word, a write to a field within 32 bits leaves what is read of a field that it does
-- not meet.
pub field32_read-write-Disjoint :
    (w : ℕ) (f g : Field32) (v : ℕ)
    → w < 2 ^ 32
    → IsField f
    → Disjoint f g
    → field32_read (field32_write w f v) g ≡ field32_read w g
field32_read-write-Disjoint w f g v hw hf d = bit_ext _ _ λ j.
    let e : j + g.index - g.index ≡ j = omega arith in
    ground (
      arith,
      e,
      d (j + g.index),
      field32_read_bits (field32_write w f v) g j,
      field32_read_bits w g j,
      field32_write_bits w f v (j + g.index) hw hf,
      bit-le-one j g.mask,
    )

-- Writes to two fields within 32 bits of a 32-bit word that do not meet commute.
field32_write_comm :
    (w : ℕ) (f g : Field32) (u v : ℕ)
    → w < 2 ^ 32
    → IsField f
    → IsField g
    → Disjoint f g
    → field32_write (field32_write w f u) g v ≡ field32_write (field32_write w g v) f u
field32_write_comm w f g u v hw hf hg d = bit_ext _ _ λ j. ground (
  arith,
  d j,
  field32_write_bits (field32_write w f u) g v j (field32_write-lt w f u hw hf) hg,
  field32_write_bits (field32_write w g v) f u j (field32_write-lt w g v hw hg) hf,
  field32_write_bits w f u j hw hf,
  field32_write_bits w g v j hw hg,
)

-- For two fields within 32 bits that do not meet, in a 32-bit word: reading a field just after a
-- write gives the value, cut to the mask; writing back what a field holds changes nothing; the
-- second of two writes to a field wins; a write to one field leaves what is read of the other;
-- writes to both commute.
pub field32_laws :
    (w : ℕ) (f g : Field32) (u v : ℕ)
    → w < 2 ^ 32
    → IsField f
    → IsField g
    → Disjoint f g
    → (field32_read (field32_write w f v) f ≡ bit_and v f.mask)
      × (field32_write w f (field32_read w f) ≡ w)
      × (field32_write (field32_write w f u) f v ≡ field32_write w f v)
      × (field32_read (field32_write w f v) g ≡ field32_read w g)
      × (field32_write (field32_write w f v) g u ≡ field32_write (field32_write w g u) f v)
field32_laws w f g u v hw hf hg d = (
  field32_read-write w f v hw hf,
  field32_write-read w f hw hf,
  field32_write-write w f u v hw hf,
  field32_read-write-Disjoint w f g v hw hf d,
  field32_write_comm w f g v u hw hf hg d,
)
