-- ===== src/Memory/Fill.antt =====
-- `memset` fills the buffer, whatever its alignment.
use sunburst_chip.Base.{
  ℕ, zero, suc, ◌+◌, ◌-◌, ◌*◌, ◌/◌, ◌%◌, ◌^◌, ◌≤◌, ◌<◌, ◌≡◌, arith, ap, if◌then◌else◌,
}
use sunburst_chip.Memory.{
  Memory, put8, byte_at, word_of, write_32, repeat_byte_to_u32, compute_alignment, fill_bytes,
  fill_words, memset,
}
use sunburst_chip.Memory.Words.{
  within, IsSplit, compute_alignment-IsSplit, write_32_lem, repeat_byte_to_u32_lem,
}

abbrev IsFilled : ℕ → ℕ → ℕ → ℕ → Memory → Memory → Type 0
IsFilled dest v lo hi mem mem' = (a : ℕ) → mem' a ≡ (if within dest lo hi a then v else mem a)

IsFilled-compose :
    (dest v lo mid hi : ℕ) (m0 m1 m2 : Memory)
    → lo ≤ mid
    → mid ≤ hi
    → IsFilled dest v lo mid m0 m1
    → IsFilled dest v mid hi m1 m2
    → IsFilled dest v lo hi m0 m2
IsFilled-compose dest v lo mid hi m0 m1 m2 p q c d a = ground (arith, c a, d a)

fill_bytes_lem :
    (left dest v i : ℕ) (mem : Memory)
    → IsFilled dest v i (i + left) mem (fill_bytes dest v i left mem)
unfolding fill_bytes
fill_bytes_lem zero dest v i mem a = ground arith
fill_bytes_lem (suc left) dest v i mem a =
    ground (arith, fill_bytes_lem left dest v (i + 1) (put8 (dest + i) v mem) a)

fill_word :
    (dest v i : ℕ) (mem : Memory)
    → v < 2 ^ 8
    → IsFilled dest v i (i + 4) mem (write_32 (repeat_byte_to_u32 v) (dest + i) mem)
fill_word dest v i mem h a =
    let w = word_of v v v v in
    let b0 : byte_at w 0 ≡ v = omega arith in
    let b1 : byte_at w 1 ≡ v = omega arith in
    let b2 : byte_at w 2 ≡ v = omega arith in
    let b3 : byte_at w 3 ≡ v = omega arith in
    let at = λ (k : ℕ) (p : a - (dest + i) ≡ k). ap (byte_at w) p in
    rw (repeat_byte_to_u32_lem v h)
      (ground (arith, write_32_lem w (dest + i) mem a, at 0, at 1, at 2, at 3))

fill_words_lem :
    (left dest v i : ℕ) (mem : Memory)
    → v < 2 ^ 8
    → IsFilled dest v i (i + left * 4) mem (fill_words dest (repeat_byte_to_u32 v) i left mem)
unfolding fill_words
fill_words_lem zero dest v i mem h a = ground arith
fill_words_lem (suc left) dest v i mem h a =
    let m1 = write_32 (repeat_byte_to_u32 v) (dest + i) mem in
    ground (arith, fill_word dest v i mem h a, fill_words_lem left dest v (i + 4) m1 h a)

loops_lem :
    (dest v len body tail : ℕ) (mem : Memory)
    → v < 2 ^ 8
    → IsSplit len (body, tail)
    → let head = fill_bytes dest v 0 body mem in
      let words = fill_words dest (repeat_byte_to_u32 v) body ((tail - body) / 4) head in
      IsFilled dest v 0 len mem (fill_bytes dest v tail (len - tail) words)
loops_lem dest v len body tail mem h (p, q, e) a =
    let head = fill_bytes dest v 0 body mem in
    let words = fill_words dest (repeat_byte_to_u32 v) body ((tail - body) / 4) head in
    ground (
      arith,
      fill_bytes_lem body dest v 0 mem a,
      fill_words_lem ((tail - body) / 4) dest v body head h a,
      fill_bytes_lem (len - tail) dest v tail words a,
    )

-- `memset` leaves the low byte of the value at each address of the buffer, and every other address
-- as it was.
memset_lem :
    (dest value len : ℕ) (mem : Memory) (a : ℕ)
    → memset dest value len mem a ≡ (if within dest 0 len a then value % 2 ^ 8 else mem a)
unfolding memset
memset_lem dest value len mem a =
    let (body, tail) = compute_alignment dest 0 len in
    loops_lem dest (value % 2 ^ 8) len body tail mem (omega arith)
      (compute_alignment-IsSplit dest 0 len) a
