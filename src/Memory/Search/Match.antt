-- ===== src/Memory/Search/Match.antt =====
-- The word of equal bits has a byte of ones exactly where the two words have the same byte.
use sunburst_chip.Base.{
  ℕ, zero, suc, ◌+◌, ◌-◌, ◌*◌, ◌/◌, ◌^◌, ◌<◌, ◌≡◌, arith, ◌∙◌, ap, bit_xor, if◌then◌else◌, ◌==◌,
}
use sunburst_chip.Bits.{bit, bit_ext, bit-bit_xor, bit-shift_right, bit-mod, bit-le-one, bit-zero}
use sunburst_chip.Bits.{bit_and_mask, bit_xor-lt}
use sunburst_chip.Bitfield.{not32}
use sunburst_chip.Memory.{Memory, byte_at, word_of, read_32, is_match, repeat_byte_to_u32}
use sunburst_chip.Memory.Words.{AreBytes, repeat_byte_to_u32_lem}

-- Bytes of an exclusive or.
byte_at-bit_xor : (v w k : ℕ) → byte_at (bit_xor v w) k ≡ bit_xor (byte_at v k) (byte_at w k)
byte_at-bit_xor v w k = bit_ext _ _ λ j. ground (
  arith,
  bit-bit_xor j (byte_at v k) (byte_at w k),
  bit-mod 8 j (bit_xor v w / 2 ^ (8 * k)),
  bit-mod 8 j (v / 2 ^ (8 * k)),
  bit-mod 8 j (w / 2 ^ (8 * k)),
  bit-shift_right (8 * k) j (bit_xor v w),
  bit-shift_right (8 * k) j v,
  bit-shift_right (8 * k) j w,
  bit-bit_xor (j + 8 * k) v w,
)

-- Numbers whose exclusive or is 0 are the same.
xor-zero : (a b : ℕ) → bit_xor a b ≡ 0 → a ≡ b
xor-zero a b h =
    bit_ext a b λ j.
      omega (arith, bit-bit_xor j a b, ap (bit j) h, bit-zero j, bit-le-one j a, bit-le-one j b)

xor_self : (a : ℕ) → bit_xor a a ≡ 0
xor_self a = bit_ext _ _ λ j. omega (arith, bit-bit_xor j a a, bit-zero j)

byte_at-not32 : (n k : ℕ) → n < 2 ^ 32 → k < 4 → byte_at (not32 n) k ≡ 255 - byte_at n k
byte_at-not32 n zero h p = omega arith
byte_at-not32 n (suc zero) h p = omega arith
byte_at-not32 n (suc (suc zero)) h p = omega arith
byte_at-not32 n (suc (suc (suc zero))) h p = omega arith
byte_at-not32 n (suc (suc (suc (suc k)))) h p = absurd (omega arith)

is_match_lem :
    (v w k : ℕ)
    → v < 2 ^ 32
    → w < 2 ^ 32
    → k < 4
    → is_match (not32 (bit_xor v w)) k ≡ (byte_at v k == byte_at w k)
is_match_lem v w k p q h =
    let n = bit_xor v w in
    let x = byte_at v k in
    let y = byte_at w k in
    let m = bit_and_mask 8 (not32 n / 2 ^ (8 * k)) in
    let c = byte_at-not32 n k (bit_xor-lt 32 v w p q) h in
    let b = byte_at-bit_xor v w k in
    let same = λ (e : x ≡ y). ap (λ t. bit_xor t y) e ∙ xor_self y in
    ground (arith, m, c, b, xor-zero x y, same)

byte_at-word_of :
    (a b c d k : ℕ)
    → a < 2 ^ 8
    → b < 2 ^ 8
    → c < 2 ^ 8
    → d < 2 ^ 8
    → k < 4
    → byte_at (word_of a b c d) k
      ≡ (if k == 0 then a else if k == 1 then b else if k == 2 then c else d)
byte_at-word_of a b c d zero pa pb pc pd h = omega arith
byte_at-word_of a b c d (suc zero) pa pb pc pd h = omega arith
byte_at-word_of a b c d (suc (suc zero)) pa pb pc pd h = omega arith
byte_at-word_of a b c d (suc (suc (suc zero))) pa pb pc pd h = omega arith
byte_at-word_of a b c d (suc (suc (suc (suc k)))) pa pb pc pd h = absurd (omega arith)

-- The test of one byte of the word at an address.
pub is_match-read_32 :
    (mem : Memory) (a value k : ℕ)
    → AreBytes mem
    → value < 2 ^ 8
    → k < 4
    → is_match (not32 (bit_xor (read_32 mem a) (repeat_byte_to_u32 value))) k
      ≡ (mem (a + k) == value)
unfolding read_32
is_match-read_32 mem a value k bytes v h =
    let w = word_of (mem a) (mem (a + 1)) (mem (a + 2)) (mem (a + 3)) in
    let r = word_of value value value value in
    let h0 = bytes a in
    let h1 = bytes (a + 1) in
    let h2 = bytes (a + 2) in
    let h3 = bytes (a + 3) in
    let bw = byte_at-word_of (mem a) (mem (a + 1)) (mem (a + 2)) (mem (a + 3)) k h0 h1 h2 h3 h in
    let br = byte_at-word_of value value value value k v v v v h in
    let z = λ (e : k ≡ 0). ap mem {x = a + k} {y = a} (omega arith) in
    let at = λ (i : ℕ) (e : k ≡ i). ap (λ t. mem (a + t)) e in
    rw (repeat_byte_to_u32_lem value v, is_match_lem w r k (omega arith) (omega arith) h, bw, br)
      (ground (arith, z, at 1, at 2, at 3))
