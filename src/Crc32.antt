-- ===== src/Crc32.antt =====
-- sw/device/lib/base/crc32.c without the instruction-set extension: the CRC-32 of a buffer. A buffer
-- is its address and the list of its bytes, so that `len` is the length of that list.
pub mod Fold
mod Tests
use sunburst_chip.Memory.{byte_at, word_of}
use sunburst_chip.Base.{ℕ, zero, suc, ◌+◌, ◌-◌, ◌*◌, ◌/◌, ◌%◌, ◌^◌, bit_and, bit_xor, u32}
use sunburst_chip.Base.{if◌then◌else◌, ◌==◌, ◌>>>◌, List, [], ◌∷◌}

-- `kCrc32Poly`.
abbrev pub crc32_poly : ℕ
crc32_poly = 0xedb88320

-- The loop over the bits, with `left` of them to go.
unfoldable pub add_bits : ℕ → ℕ → ℕ
add_bits zero ctx = ctx
add_bits (suc left) ctx =
    let shifted = ctx >>> 1 in
    add_bits left (if bit_and ctx 1 == 1 then bit_xor shifted crc32_poly else shifted)

unfoldable pub add8 : ℕ → ℕ → ℕ
unfolding add_bits
add8 ctx byte = add_bits 8 (bit_xor ctx byte)

-- `crc32_internal_add32`, its loop written out.
unfoldable pub add32 : ℕ → ℕ → ℕ
add32 ctx word =
    add8 (add8 (add8 (add8 ctx (byte_at word 0)) (byte_at word 1)) (byte_at word 2))
      (byte_at word 3)

-- The three loops of `crc32_add`; the first two give the state and the bytes that are left.
unfoldable pub add_head : ℕ → ℕ → List ℕ → ℕ × List ℕ
add_head address state [] = (state, [])
add_head address state (x ∷ xs) =
    let rest = add_head (u32 (address + 1)) (add8 state x) xs in
    if bit_and address 0x3 == 0 then (state, x ∷ xs) else rest

unfoldable pub add_body : ℕ → List ℕ → ℕ × List ℕ
add_body state (a ∷ b ∷ c ∷ d ∷ xs) = add_body (add32 state (word_of a b c d)) xs
add_body state xs = (state, xs)

unfoldable pub add_tail : ℕ → List ℕ → ℕ
add_tail state [] = state
add_tail state (x ∷ xs) = add_tail (add8 state x) xs

unfoldable pub crc32_add : ℕ → ℕ → List ℕ → ℕ
crc32_add ctx address buf =
    let (state, aligned) = add_head address ctx buf in
    let (state', tail) = add_body state aligned in add_tail state' tail

abbrev pub crc32_init : ℕ
crc32_init = 2 ^ 32 - 1

unfoldable pub crc32_finish : ℕ → ℕ
crc32_finish ctx = bit_xor ctx (2 ^ 32 - 1)

unfoldable pub crc32 : ℕ → List ℕ → ℕ
crc32 address buf = crc32_finish (crc32_add crc32_init address buf)
