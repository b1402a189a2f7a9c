-- ===== src/Usbdev/Buffer.antt =====
-- What is in the packet buffers, in dif_usbdev.c: reading and writing by parts, and whole buffers at
-- once. Main memory is as in `Memory`; the memory after a call is a part of its result.
pub mod Parts
pub mod Store
pub mod Load
pub mod Whole
use sunburst_chip.Base.{
  ℕ, zero, suc, ◌+◌, ◌-◌, ◌*◌, ◌/◌, ◌%◌, ◌^◌, Bool, true, false, not, ◌&&◌, ◌||◌, if◌then◌else◌,
  ltb, leb, ◌==◌, Option, none, some, bit_or, u8, u32, ◌<<<◌, ◌>>>◌, min,
}
use sunburst_chip.Mmio.{Bus, M, pure, ◌>>=◌, ◌>>◌, region_read32, region_write32}
use sunburst_chip.Mmio.Transfer.{memcpy_from_mmio32, memcpy_to_mmio32}
use sunburst_chip.Memory.{Memory, put8, read_32, write_32, misalignment32_of}
use sunburst_chip.Dif.{DifResult, dif_ok, dif_error, bad_arg}
use sunburst_chip.Usbdev.Pool.{BufferPool, add}
use sunburst_chip.Usbdev.Packet.{
  Buffer, BufferType, type_read, type_write, type_stale, is_write, returned,
}

-- `USBDEV_BUFFER_ENTRY_SIZE_BYTES`.
abbrev pub entry_size : ℕ
entry_size = 64

abbrev pub get_buffer_addr : ℕ → ℕ → ℕ
get_buffer_addr buffer_id offset = 0x800 + buffer_id * entry_size + offset

abbrev pub is_read : BufferType → Bool
is_read type_read = true
is_read type_write = false
is_read type_stale = false

-- The buffer after `n` bytes of it were copied.
abbrev pub advanced : Buffer → ℕ → Buffer
advanced buffer n = record {
  id = buffer.id;
  offset = u8 (buffer.offset + n);
  remaining_bytes = buffer.remaining_bytes - n;
  type = buffer.type;
}

-- A read buffer that has nothing left goes back to the pool.
unfoldable pub drained : BufferPool → Buffer → DifResult × BufferPool × Buffer
drained pool buffer =
    if ltb 0 buffer.remaining_bytes
    then (dif_ok, pool, buffer)
    else returned buffer (add pool buffer.id)

abbrev pub count_of : Bool → ℕ → Option ℕ
count_of has_count n = if has_count then some n else none

-- The two checks on a whole buffer.
abbrev pub is_unusable : ℕ → ℕ → Bool
is_unusable address len =
    address == 0 || (not (misalignment32_of address == 0) || ltb entry_size len)

-- The bytes at the end that do not fill a word, from a pointer to them.
unfoldable pub partial_word : ℕ → ℕ → Memory → ℕ
partial_word bs src_len mem =
    let d = mem bs in
    let d' = bit_or d (u32 (mem (bs + 1) <<< 8)) in
    if ltb 1 src_len then if ltb 2 src_len then bit_or d' (u32 (mem (bs + 2) <<< 16)) else d' else d

unfoldable pub put_partial_word : ℕ → ℕ → ℕ → Memory → Memory
put_partial_word d bd dst_len mem =
    let mem1 = put8 bd (u8 d) mem in
    let mem2 = put8 (bd + 1) (u8 (d >>> 8)) mem1 in
    if ltb 1 dst_len
    then if ltb 2 dst_len then put8 (bd + 2) (u8 (d >>> 16)) mem2 else mem2
    else mem1

module _ {S : Type 0} (bus : Bus S) where
  -- The pool and the buffer are not NULL; `has_count` tells whether `bytes_written` is not NULL.
  unfoldable pub buffer_read :
      Option ℕ
      → BufferPool
      → Buffer
      → ℕ
      → ℕ
      → Bool
      → Memory
      → M S ((DifResult × BufferPool × Buffer) × Option ℕ × Memory)
  buffer_read none pool buffer dst dst_len has_count mem = pure ((bad_arg, pool, buffer), none, mem)
  buffer_read (some base) pool buffer dst dst_len has_count mem =
      if not (is_read buffer.type) || dst == 0
      then pure ((bad_arg, pool, buffer), none, mem)
      else do
        let bytes_to_copy = min buffer.remaining_bytes dst_len
        mem' ←
            memcpy_from_mmio32 bus base (get_buffer_addr buffer.id buffer.offset) dst bytes_to_copy
              mem
        pure (drained pool (advanced buffer bytes_to_copy), count_of has_count bytes_to_copy, mem')

  unfoldable pub buffer_write :
      Option ℕ → Buffer → ℕ → ℕ → Bool → Memory → M S ((DifResult × Buffer) × Option ℕ × Memory)
  buffer_write none buffer src src_len has_count mem = pure ((bad_arg, buffer), none, mem)
  buffer_write (some base) buffer src src_len has_count mem =
      if not (is_write buffer.type) || src == 0 then pure ((bad_arg, buffer), none, mem) else do
        let bytes_to_copy = min buffer.remaining_bytes src_len
        let buffer' = advanced buffer bytes_to_copy
        mem' ←
            memcpy_to_mmio32 bus base (get_buffer_addr buffer.id buffer.offset) src bytes_to_copy
              mem
        let result =
            if buffer'.remaining_bytes == 0 && ltb bytes_to_copy src_len then dif_error else dif_ok
        pure ((result, buffer'), count_of has_count bytes_to_copy, mem')

  -- The loops of `dif_usbdev_buffer_raw_write`, with `left` rounds to go.
  unfoldable pub write_words : ℕ → ℕ → ℕ → ℕ → Memory → M S (Unit {0})
  write_words zero base offset ws mem = pure tt
  write_words (suc left) base offset ws mem = do
    region_write32 bus base offset (read_32 mem ws)
    write_words left base (offset + 4) (ws + 4) mem

  unfoldable pub write_blocks : ℕ → ℕ → ℕ → ℕ → Memory → M S (Unit {0})
  write_blocks zero base offset ws mem = pure tt
  write_blocks (suc left) base offset ws mem = do
    region_write32 bus base offset (read_32 mem ws)
    region_write32 bus base (offset + 4) (read_32 mem (ws + 4))
    region_write32 bus base (offset + 8) (read_32 mem (ws + 8))
    region_write32 bus base (offset + 12) (read_32 mem (ws + 12))
    write_blocks left base (offset + 16) (ws + 16) mem

  unfoldable pub write_rest : ℕ → ℕ → ℕ → ℕ → Memory → M S (Unit {0})
  write_rest base offset bs src_len mem =
      if src_len == 0 then pure tt else region_write32 bus base offset (partial_word bs src_len mem)

  unfoldable pub buffer_raw_write : Option ℕ → ℕ → ℕ → ℕ → Memory → M S DifResult
  buffer_raw_write none id src src_len mem = pure bad_arg
  buffer_raw_write (some base) id src src_len mem =
      if is_unusable src src_len then pure bad_arg else do
        let blocks = src_len / 16
        let words = src_len % 16 / 4
        let offset = get_buffer_addr id 0
        let done = blocks * 16 + words * 4
        write_blocks blocks base offset src mem
        write_words words base (offset + blocks * 16) (src + blocks * 16) mem
        write_rest base (offset + done) (src + done) (src_len % 4) mem
        pure dif_ok

  -- The loops of `dif_usbdev_buffer_raw_read`.
  unfoldable pub read_words : ℕ → ℕ → ℕ → ℕ → Memory → M S Memory
  read_words zero base offset wd mem = pure mem
  read_words (suc left) base offset wd mem = do
    word ← region_read32 bus base offset
    read_words left base (offset + 4) (wd + 4) (write_32 word wd mem)

  unfoldable pub read_blocks : ℕ → ℕ → ℕ → ℕ → Memory → M S Memory
  read_blocks zero base offset wd mem = pure mem
  read_blocks (suc left) base offset wd mem = do
    word0 ← region_read32 bus base offset
    let mem0 = write_32 word0 wd mem
    word1 ← region_read32 bus base (offset + 4)
    let mem1 = write_32 word1 (wd + 4) mem0
    word2 ← region_read32 bus base (offset + 8)
    let mem2 = write_32 word2 (wd + 8) mem1
    word3 ← region_read32 bus base (offset + 12)
    read_blocks left base (offset + 16) (wd + 16) (write_32 word3 (wd + 12) mem2)

  unfoldable pub read_rest : ℕ → ℕ → ℕ → ℕ → Memory → M S Memory
  read_rest base offset bd dst_len mem =
      if dst_len == 0
      then pure mem
      else do d ← region_read32 bus base offset; pure (put_partial_word d bd dst_len mem)

  unfoldable pub buffer_raw_read : Option ℕ → ℕ → ℕ → ℕ → Memory → M S (DifResult × Memory)
  buffer_raw_read none id dst dst_len mem = pure (bad_arg, mem)
  buffer_raw_read (some base) id dst dst_len mem =
      if is_unusable dst dst_len then pure (bad_arg, mem) else do
        let blocks = dst_len / 16
        let words = dst_len % 16 / 4
        let offset = get_buffer_addr id 0
        let done = blocks * 16 + words * 4
        mem1 ← read_blocks blocks base offset dst mem
        mem2 ← read_words words base (offset + blocks * 16) (dst + blocks * 16) mem1
        mem3 ← read_rest base (offset + done) (dst + done) (dst_len % 4) mem2
        pure (dif_ok, mem3)
