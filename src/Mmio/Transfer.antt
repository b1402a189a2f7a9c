-- ===== src/Mmio/Transfer.antt =====
-- sw/device/lib/base/mmio.c: copies between main memory and a region of registers, which is read and
-- written by whole words. Main memory is as in `Memory`. No offset goes round the end of the address
-- space.
pub mod Write
pub mod Read
use sunburst_chip.Base.{
  ℕ, zero, suc, ◌+◌, ◌-◌, ◌*◌, ◌/◌, ◌%◌, ◌^◌, Bool, true, false, ◌&&◌, ◌||◌, not, if◌then◌else◌,
  ltb, leb, ◌==◌, min,
}
use sunburst_chip.Mmio.{Bus, M, pure, ◌>>=◌, ◌>>◌, region_read32, region_write32}
use sunburst_chip.Memory.{Memory, byte_at, word_of, misalignment32_of}
use sunburst_chip.Memory.Words.{within}

-- Copies between main memory and a word that is a local variable: of `n` bytes at `buf` to its bytes
-- from `first` on, and back. They call `memcpy`, which copies nothing where `buf` is NULL.
unfoldable pub byte_to_word : ℕ → ℕ → ℕ → ℕ → Memory → ℕ → ℕ
byte_to_word word first n buf mem k =
    if leb first k && ltb k (first + n) then mem (buf + (k - first)) else byte_at word k

unfoldable pub patched_word : ℕ → ℕ → ℕ → ℕ → Memory → ℕ
patched_word word first n buf mem =
    word_of (byte_to_word word first n buf mem 0) (byte_to_word word first n buf mem 1)
      (byte_to_word word first n buf mem 2) (byte_to_word word first n buf mem 3)

unfoldable pub copy_to_word : ℕ → ℕ → ℕ → ℕ → Memory → ℕ
copy_to_word word first n buf mem = if buf == 0 then word else patched_word word first n buf mem

unfoldable pub copy_from_word : ℕ → ℕ → ℕ → ℕ → Memory → Memory
copy_from_word word first n buf mem a =
    if not (buf == 0) && within buf 0 n a then byte_at word (first + (a - buf)) else mem a

module _ {S : Type 0} (bus : Bus S) where
  -- What is done with the current word, which is at `offset`.
  unfoldable pub transfer_word : ℕ → ℕ → ℕ → ℕ → ℕ → Bool → ℕ → Memory → M S Memory
  transfer_word base offset first n buf true current_word mem =
      pure (copy_from_word current_word first n buf mem)
  transfer_word base offset first n buf false current_word mem = do
    region_write32 bus base offset (copy_to_word current_word first n buf mem)
    pure mem

  -- The current word of the loop.
  unfoldable pub current_word_of : ℕ → ℕ → ℕ → Bool → M S ℕ
  current_word_of base offset bytes_to_copy from_mmio =
      if from_mmio || not (bytes_to_copy == 4) then region_read32 bus base offset else pure 0

  -- The loop of `mmio_region_memcpy32`, with `left` rounds to go.
  unfoldable pub transfer_loop : ℕ → ℕ → ℕ → ℕ → ℕ → Bool → Memory → M S Memory
  transfer_loop zero base offset buf len from_mmio mem = pure mem
  transfer_loop (suc left) base offset buf len from_mmio mem = do
    let bytes_to_copy = min 4 len
    current_word ← current_word_of base offset bytes_to_copy from_mmio
    mem' ← transfer_word base offset 0 bytes_to_copy buf from_mmio current_word mem
    transfer_loop left base (offset + bytes_to_copy) (buf + bytes_to_copy) (len - bytes_to_copy)
        from_mmio mem'

  -- The main memory after the call.
  unfoldable pub memcpy32 : ℕ → ℕ → ℕ → ℕ → Bool → Memory → M S Memory
  memcpy32 base offset buf len from_mmio mem =
      let misalignment = misalignment32_of offset in
      let realignment = min (4 - misalignment) len in
      if len == 0
      then pure mem
      else if misalignment == 0
      then transfer_loop ((len + 3) / 4) base offset buf len from_mmio mem
      else do
        current_word ← region_read32 bus base (offset - misalignment)
        mem' ←
            transfer_word base (offset - misalignment) misalignment realignment buf from_mmio
              current_word mem
        transfer_loop ((len - realignment + 3) / 4) base (offset + realignment) (buf + realignment)
            (len - realignment) from_mmio mem'

  unfoldable pub memcpy_from_mmio32 : ℕ → ℕ → ℕ → ℕ → Memory → M S Memory
  memcpy_from_mmio32 base offset dest len mem = memcpy32 base offset dest len true mem

  unfoldable pub memcpy_to_mmio32 : ℕ → ℕ → ℕ → ℕ → Memory → M S Memory
  memcpy_to_mmio32 base offset src len mem = memcpy32 base offset src len false mem
