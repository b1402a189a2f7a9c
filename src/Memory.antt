-- ===== src/Memory.antt =====
-- sw/device/lib/base/memory.c and memory.h: copying, filling, comparing and searching memory, by
-- words where the alignment allows it. Memory is a function from addresses to bytes; 0 is NULL. No
-- buffer goes round the end of the address space.
pub mod Words
pub mod Copy
pub mod Fill
pub mod Compare
pub mod Search
mod Tests
use sunburst_chip.Base.{
  ℕ, zero, suc, ◌+◌, ◌-◌, ◌*◌, ◌/◌, ◌%◌, ◌^◌, bit_and, bit_or, bit_xor, Bool, true, false, ◌||◌,
  if◌then◌else◌, ltb, leb, ◌==◌, u32, ◌<<<◌, ◌>>>◌, Option, none, some, ℤ, pos, negsuc,
}
use sunburst_chip.Bitfield.{not32}

abbrev pub Memory : Type 0
Memory = ℕ → ℕ

abbrev pub put8 : ℕ → ℕ → Memory → Memory
put8 a v mem b = if b == a then v else mem b

-- Byte `i` of a word, the lowest first, and the word of four bytes.
abbrev pub byte_at : ℕ → ℕ → ℕ
byte_at word i = word / 2 ^ (8 * i) % 2 ^ 8

abbrev pub word_of : ℕ → ℕ → ℕ → ℕ → ℕ
word_of a b c d = a + b * 2 ^ 8 + c * 2 ^ 16 + d * 2 ^ 24

unfoldable pub read_32 : Memory → ℕ → ℕ
read_32 mem a = word_of (mem a) (mem (a + 1)) (mem (a + 2)) (mem (a + 3))

unfoldable pub write_32 : ℕ → ℕ → Memory → Memory
write_32 value a mem =
    put8 (a + 3) (byte_at value 3) (
      put8 (a + 2) (byte_at value 2)
        (put8 (a + 1) (byte_at value 1) (put8 a (byte_at value 0) mem)))

abbrev pub misalignment32_of : ℕ → ℕ
misalignment32_of addr = addr % 4

unfoldable pub compute_num_leading_bytes : ℕ → ℕ → ℕ → ℕ
compute_num_leading_bytes left right len =
    let left_ahead = misalignment32_of left in
    let right_ahead = misalignment32_of right in
    if ltb len 4
    then len
    else if right == 0 || left_ahead == right_ahead
    then bit_and (4 - left_ahead) 0x3
    else len

-- The offsets of the body and of the tail.
unfoldable pub compute_alignment : ℕ → ℕ → ℕ → ℕ × ℕ
compute_alignment left right len =
    let num_leading_bytes = compute_num_leading_bytes left right len in
    (num_leading_bytes, num_leading_bytes + (len - num_leading_bytes) / 4 * 4)

unfoldable pub repeat_byte_to_u32 : ℕ → ℕ
repeat_byte_to_u32 byte =
    bit_or (bit_or (bit_or (u32 (byte <<< 24)) (u32 (byte <<< 16))) (u32 (byte <<< 8))) byte

-- The loops of `memcpy`, at index `i` with `left` rounds to go.
unfoldable pub copy_bytes : ℕ → ℕ → ℕ → ℕ → Memory → Memory
copy_bytes dest src i zero mem = mem
copy_bytes dest src i (suc left) mem =
    copy_bytes dest src (i + 1) left (put8 (dest + i) (mem (src + i)) mem)

unfoldable pub copy_words : ℕ → ℕ → ℕ → ℕ → Memory → Memory
copy_words dest src i zero mem = mem
copy_words dest src i (suc left) mem =
    copy_words dest src (i + 4) left (write_32 (read_32 mem (src + i)) (dest + i) mem)

-- The memory after the call, which returns `dest`.
unfoldable pub memcpy : ℕ → ℕ → ℕ → Memory → Memory
memcpy dest src len mem =
    let (body, tail) = compute_alignment dest src len in
    let head = copy_bytes dest src 0 body mem in
    let words = copy_words dest src body ((tail - body) / 4) head in
    if dest == 0 || src == 0 then mem else copy_bytes dest src tail (len - tail) words

unfoldable pub fill_bytes : ℕ → ℕ → ℕ → ℕ → Memory → Memory
fill_bytes dest value8 i zero mem = mem
fill_bytes dest value8 i (suc left) mem =
    fill_bytes dest value8 (i + 1) left (put8 (dest + i) value8 mem)

unfoldable pub fill_words : ℕ → ℕ → ℕ → ℕ → Memory → Memory
fill_words dest value32 i zero mem = mem
fill_words dest value32 i (suc left) mem =
    fill_words dest value32 (i + 4) left (write_32 value32 (dest + i) mem)

-- `value` as the unsigned number of its 32 bits.
unfoldable pub memset : ℕ → ℕ → ℕ → Memory → Memory
memset dest value len mem =
    let value8 = value % 2 ^ 8 in
    let (body, tail) = compute_alignment dest 0 len in
    let head = fill_bytes dest value8 0 body mem in
    let words = fill_words dest (repeat_byte_to_u32 value8) body ((tail - body) / 4) head in
    fill_bytes dest value8 tail (len - tail) words

abbrev pub cmp_eq : ℤ
cmp_eq = pos 0

abbrev pub cmp_lt : ℤ
cmp_lt = negsuc 41

abbrev pub cmp_gt : ℤ
cmp_gt = pos 42

-- One comparison: the result that ends the function, or `rest`.
abbrev pub ordered : ℕ → ℕ → ℤ → ℤ
ordered left right rest = if ltb left right then cmp_lt else if ltb right left then cmp_gt else rest

-- `__builtin_bswap32`.
abbrev pub bswap32 : ℕ → ℕ
bswap32 word = word_of (byte_at word 3) (byte_at word 2) (byte_at word 1) (byte_at word 0)

-- The loops of `memcmp`, with what follows each.
unfoldable pub compare_bytes : Memory → ℕ → ℕ → ℕ → ℕ → ℤ → ℤ
compare_bytes mem lhs rhs i zero rest = rest
compare_bytes mem lhs rhs i (suc left) rest =
    ordered (mem (lhs + i)) (mem (rhs + i)) (compare_bytes mem lhs rhs (i + 1) left rest)

unfoldable pub compare_words : Memory → ℕ → ℕ → ℕ → ℕ → ℤ → ℤ
compare_words mem lhs rhs i zero rest = rest
compare_words mem lhs rhs i (suc left) rest =
    ordered (bswap32 (read_32 mem (lhs + i))) (bswap32 (read_32 mem (rhs + i)))
      (compare_words mem lhs rhs (i + 4) left rest)

unfoldable pub memcmp : Memory → ℕ → ℕ → ℕ → ℤ
memcmp mem lhs rhs len =
    let (body, tail) = compute_alignment lhs rhs len in
    compare_bytes mem lhs rhs 0 body (
      compare_words mem lhs rhs body ((tail - body) / 4)
        (compare_bytes mem lhs rhs tail (len - tail) cmp_eq))

-- The loops of `memrcmp`, which go down from `end`.
unfoldable pub compare_bytes_down : Memory → ℕ → ℕ → ℕ → ℕ → ℤ → ℤ
compare_bytes_down mem lhs rhs end zero rest = rest
compare_bytes_down mem lhs rhs end (suc left) rest =
    ordered (mem (lhs + (end - 1))) (mem (rhs + (end - 1)))
      (compare_bytes_down mem lhs rhs (end - 1) left rest)

unfoldable pub compare_words_down : Memory → ℕ → ℕ → ℕ → ℕ → ℤ → ℤ
compare_words_down mem lhs rhs end zero rest = rest
compare_words_down mem lhs rhs end (suc left) rest =
    ordered (read_32 mem (lhs + (end - 4))) (read_32 mem (rhs + (end - 4)))
      (compare_words_down mem lhs rhs (end - 4) left rest)

unfoldable pub memrcmp : Memory → ℕ → ℕ → ℕ → ℤ
memrcmp mem lhs rhs len =
    let (body, tail) = compute_alignment lhs rhs len in
    compare_bytes_down mem lhs rhs len (len - tail) (
      compare_words_down mem lhs rhs tail ((tail - body) / 4)
        (compare_bytes_down mem lhs rhs body body cmp_eq))

-- The loops of `memchr`: the index that is found, or `rest`.
unfoldable pub find_bytes : Memory → ℕ → ℕ → ℕ → ℕ → Option ℕ → Option ℕ
find_bytes mem ptr value8 i zero rest = rest
find_bytes mem ptr value8 i (suc left) rest =
    let later = find_bytes mem ptr value8 (i + 1) left rest in
    if mem (ptr + i) == value8 then some i else later

-- `(bits_eq >> (8 * k)) & UINT8_MAX == UINT8_MAX`.
abbrev pub is_match : ℕ → ℕ → Bool
is_match bits_eq k = bit_and (bits_eq >>> (8 * k)) 0xff == 0xff

unfoldable pub find_words : Memory → ℕ → ℕ → ℕ → ℕ → Option ℕ → Option ℕ
find_words mem ptr value32 i zero rest = rest
find_words mem ptr value32 i (suc left) rest =
    let later = find_words mem ptr value32 (i + 4) left rest in
    let bits_eq = not32 (bit_xor (read_32 mem (ptr + i)) value32) in
    if is_match bits_eq 0
    then some i
    else if is_match bits_eq 1
    then some (i + 1)
    else if is_match bits_eq 2
    then some (i + 2)
    else if is_match bits_eq 3
    then some (i + 3)
    else later

abbrev pub ptrdiff_max : ℕ
ptrdiff_max = 2 ^ 31 - 1

-- The index of the byte that the result points to, `none` for NULL. The index goes on from the end
-- of the loop before.
unfoldable pub memchr : Memory → ℕ → ℕ → ℕ → Option ℕ
memchr mem ptr value len =
    let value8 = value % 2 ^ 8 in
    let (body, tail) = compute_alignment ptr 0 len in
    let tail_offset = if leb ptrdiff_max len then 0 else tail in
    let rounds = (tail_offset - body) / 4 in
    let i = body + rounds * 4 in
    find_bytes mem ptr value8 0 body (
      find_words mem ptr (repeat_byte_to_u32 value8) body rounds
        (find_bytes mem ptr value8 i (len - i) none))

-- The loops of `memrchr`, which go down from `end`.
unfoldable pub find_bytes_down : Memory → ℕ → ℕ → ℕ → ℕ → Option ℕ → Option ℕ
find_bytes_down mem ptr value8 end zero rest = rest
find_bytes_down mem ptr value8 end (suc left) rest =
    let later = find_bytes_down mem ptr value8 (end - 1) left rest in
    if mem (ptr + (end - 1)) == value8 then some (end - 1) else later

unfoldable pub find_words_down : Memory → ℕ → ℕ → ℕ → ℕ → Option ℕ → Option ℕ
find_words_down mem ptr value32 end zero rest = rest
find_words_down mem ptr value32 end (suc left) rest =
    let later = find_words_down mem ptr value32 (end - 4) left rest in
    let bits_eq = not32 (bit_xor (read_32 mem (ptr + (end - 4))) value32) in
    if is_match bits_eq 3
    then some (end - 4 + 3)
    else if is_match bits_eq 2
    then some (end - 4 + 2)
    else if is_match bits_eq 1
    then some (end - 4 + 1)
    else if is_match bits_eq 0
    then some (end - 4)
    else later

unfoldable pub memrchr : Memory → ℕ → ℕ → ℕ → Option ℕ
memrchr mem ptr value len =
    let value8 = value % 2 ^ 8 in
    let (body, tail) = compute_alignment ptr 0 len in
    find_bytes_down mem ptr value8 len (len - tail) (
      find_words_down mem ptr (repeat_byte_to_u32 value8) tail ((tail - body) / 4)
        (find_bytes_down mem ptr value8 body body none))
