-- ===== src/Memory/Words.antt =====
-- Words in memory, and where the aligned body of a buffer lies.
use sunburst_chip.Base.{
  ℕ, ◌+◌, ◌-◌, ◌*◌, ◌/◌, ◌%◌, ◌^◌, ◌≤◌, ◌<◌, ◌≡◌, arith, bit_or, Bool, ◌&&◌, if◌then◌else◌, ltb,
  leb, u32, ◌<<<◌,
}
use sunburst_chip.Bits.{bit_and_mask, bit_or_fields}
use sunburst_chip.Memory.{
  Memory, byte_at, word_of, read_32, write_32, compute_num_leading_bytes, compute_alignment,
  repeat_byte_to_u32,
}

abbrev pub AreBytes : Memory → Type 0
AreBytes mem = (a : ℕ) → mem a < 2 ^ 8

-- `a` lies `lo` to `hi` bytes behind `base`.
abbrev pub within : ℕ → ℕ → ℕ → ℕ → Bool
within base lo hi a = leb (base + lo) a && ltb a (base + hi)

-- A body of whole words, with what comes before and after it, makes up the buffer.
abbrev pub IsSplit : ℕ → ℕ × ℕ → Type 0
IsSplit len (body, tail) = (body ≤ tail) × (tail ≤ len) × (body + (tail - body) / 4 * 4 ≡ tail)

leading-le : (left right len : ℕ) → compute_num_leading_bytes left right len ≤ len
unfolding compute_num_leading_bytes
leading-le left right len = ground (arith, bit_and_mask 2 (4 - left % 4))

pub compute_alignment-IsSplit :
    (left right len : ℕ) → IsSplit len (compute_alignment left right len)
unfolding compute_alignment
compute_alignment-IsSplit left right len =
    let h = leading-le left right len in (omega arith, omega arith, omega arith)

-- Writing a word puts its four bytes.
pub write_32_lem :
    (value y : ℕ) (mem : Memory) (a : ℕ)
    → write_32 value y mem a ≡ (if within y 0 4 a then byte_at value (a - y) else mem a)
unfolding write_32
write_32_lem value y mem a = ground arith

-- Copying a word copies its four bytes.
pub write_32-read_32 :
    (x y : ℕ) (mem : Memory) (a : ℕ)
    → AreBytes mem
    → write_32 (read_32 mem x) y mem a ≡ (if within y 0 4 a then mem (x + (a - y)) else mem a)
unfolding write_32 read_32
write_32-read_32 x y mem a h =
    let h0 = h x in
    let h1 = h (x + 1) in
    let h2 = h (x + 2) in
    let h3 = h (x + 3) in
    let w = word_of (mem x) (mem (x + 1)) (mem (x + 2)) (mem (x + 3)) in
    let b0 : byte_at w 0 ≡ mem x = omega arith in
    let b1 : byte_at w 1 ≡ mem (x + 1) = omega arith in
    let b2 : byte_at w 2 ≡ mem (x + 2) = omega arith in
    let b3 : byte_at w 3 ≡ mem (x + 3) = omega arith in rw (b0, b1, b2, b3) (ground arith)

pub repeat_byte_to_u32_lem :
    (byte : ℕ) → byte < 2 ^ 8 → repeat_byte_to_u32 byte ≡ word_of byte byte byte byte
unfolding repeat_byte_to_u32
repeat_byte_to_u32_lem byte h =
    let e24 : u32 (byte <<< 24) ≡ byte * 2 ^ 24 = omega arith in
    let e16 : u32 (byte <<< 16) ≡ byte * 2 ^ 16 = omega arith in
    let e8 : u32 (byte <<< 8) ≡ byte * 2 ^ 8 = omega arith in
    let s1 : bit_or (byte * 2 ^ 24) (byte * 2 ^ 16) ≡ byte * 2 ^ 24 + byte * 2 ^ 16 =
      bit_or_fields 24 byte (byte * 2 ^ 16) (omega arith) in
    let q : byte * 2 ^ 24 + byte * 2 ^ 16 ≡ (byte * 2 ^ 8 + byte) * 2 ^ 16 = omega arith in
    let s2 = bit_or_fields 16 (byte * 2 ^ 8 + byte) (byte * 2 ^ 8) (omega arith) in
    let q2 : (byte * 2 ^ 8 + byte) * 2 ^ 16 + byte * 2 ^ 8
        ≡ (byte * 2 ^ 16 + byte * 2 ^ 8 + byte) * 2 ^ 8 =
      omega arith in
    let s3 = bit_or_fields 8 (byte * 2 ^ 16 + byte * 2 ^ 8 + byte) byte (omega arith) in
    rw (e24, e16, e8, s1, q, s2, q2, s3) (omega arith)
