-- ===== src/Memory/Copy.antt =====
-- `memcpy` copies the buffer, whatever its alignment.
use sunburst_chip.Base.{
  ℕ, zero, suc, ◌+◌, ◌-◌, ◌*◌, ◌/◌, ◌≤◌, ◌≡◌, arith, ap, ◌⊎◌, ◌||◌, if◌then◌else◌, ◌==◌,
}
use sunburst_chip.Memory.{
  Memory, put8, read_32, write_32, compute_alignment, copy_bytes, copy_words, memcpy,
}
use sunburst_chip.Memory.Words.{
  AreBytes, within, IsSplit, compute_alignment-IsSplit, write_32-read_32,
}

-- The two buffers do not overlap.
abbrev pub IsApart : ℕ → ℕ → ℕ → Type 0
IsApart dest src len = (dest + len ≤ src) ⊎ (src + len ≤ dest)

-- `mem'` is `mem` with the bytes from `lo` to `hi` of the buffer copied.
abbrev IsCopied : ℕ → ℕ → ℕ → ℕ → Memory → Memory → Type 0
IsCopied dest src lo hi mem mem' =
    (a : ℕ) → mem' a ≡ (if within dest lo hi a then mem (src + (a - dest)) else mem a)

IsCopied-AreBytes :
    (dest src lo hi : ℕ) (mem mem' : Memory)
    → IsCopied dest src lo hi mem mem'
    → AreBytes mem
    → AreBytes mem'
IsCopied-AreBytes dest src lo hi mem mem' c h a = ground (arith, c a, h a, h (src + (a - dest)))

-- Two copies one after the other.
IsCopied-compose :
    (dest src len lo mid hi : ℕ) (m0 m1 m2 : Memory)
    → IsApart dest src len
    → lo ≤ mid
    → mid ≤ hi
    → hi ≤ len
    → IsCopied dest src lo mid m0 m1
    → IsCopied dest src mid hi m1 m2
    → IsCopied dest src lo hi m0 m2
IsCopied-compose dest src len lo mid hi m0 m1 m2 apart p q r c d a =
    ground (arith, c a, d a, c (src + (a - dest)))

copy_byte :
    (dest src i : ℕ) (mem : Memory)
    → IsCopied dest src i (i + 1) mem (put8 (dest + i) (mem (src + i)) mem)
copy_byte dest src i mem a =
    let e = λ (h : a ≡ dest + i). ap (λ k. mem (src + k)) {x = a - dest} {y = i} (omega arith) in
    ground (arith, e)

copy_bytes_lem :
    (left dest src len i : ℕ) (mem : Memory)
    → IsApart dest src len
    → i + left ≤ len
    → IsCopied dest src i (i + left) mem (copy_bytes dest src i left mem)
unfolding copy_bytes
copy_bytes_lem zero dest src len i mem apart h a = ground arith
copy_bytes_lem (suc left) dest src len i mem apart h a =
    let e : i + suc left ≡ i + 1 + left = omega arith in
    let m1 = put8 (dest + i) (mem (src + i)) mem in
    rw e (
      IsCopied-compose dest src len i (i + 1) (i + 1 + left) mem m1
        (copy_bytes dest src (i + 1) left m1) apart (omega arith) (omega arith) (omega arith)
        (copy_byte dest src i mem) (copy_bytes_lem left dest src len (i + 1) m1 apart (omega arith))
        a)

copy_word :
    (dest src i : ℕ) (mem : Memory)
    → AreBytes mem
    → IsCopied dest src i (i + 4) mem (write_32 (read_32 mem (src + i)) (dest + i) mem)
copy_word dest src i mem h a =
    let e = λ (k : dest + i ≤ a).
      ap mem {x = src + i + (a - (dest + i))} {y = src + (a - dest)} (omega arith) in
    ground (arith, e, write_32-read_32 (src + i) (dest + i) mem a h)

copy_words_lem :
    (left dest src len i : ℕ) (mem : Memory)
    → IsApart dest src len
    → AreBytes mem
    → i + left * 4 ≤ len
    → IsCopied dest src i (i + left * 4) mem (copy_words dest src i left mem)
unfolding copy_words
copy_words_lem zero dest src len i mem apart b h a = ground arith
copy_words_lem (suc left) dest src len i mem apart b h a =
    let e : i + suc left * 4 ≡ i + 4 + left * 4 = omega arith in
    let m1 = write_32 (read_32 mem (src + i)) (dest + i) mem in
    let c = copy_word dest src i mem b in
    rw e (
      IsCopied-compose dest src len i (i + 4) (i + 4 + left * 4) mem m1
        (copy_words dest src (i + 4) left m1) apart (omega arith) (omega arith) (omega arith) c
        (copy_words_lem left dest src len (i + 4) m1 apart
          (IsCopied-AreBytes dest src i (i + 4) mem m1 c b) (omega arith))
        a)

-- The three loops, at any split of the buffer.
loops_lem :
    (dest src len body tail : ℕ) (mem : Memory)
    → IsApart dest src len
    → AreBytes mem
    → IsSplit len (body, tail)
    → let head = copy_bytes dest src 0 body mem in
      let words = copy_words dest src body ((tail - body) / 4) head in
      IsCopied dest src 0 len mem (copy_bytes dest src tail (len - tail) words)
loops_lem dest src len body tail mem apart b (p, q, e) =
    let head = copy_bytes dest src 0 body mem in
    let words = copy_words dest src body ((tail - body) / 4) head in
    let c : IsCopied dest src 0 (0 + body) mem head =
      copy_bytes_lem body dest src len 0 mem apart (omega arith) in
    let d : IsCopied dest src body (body + (tail - body) / 4 * 4) head words =
      copy_words_lem ((tail - body) / 4) dest src len body head apart
        (IsCopied-AreBytes dest src 0 (0 + body) mem head c b) (omega arith) in
    let f : IsCopied dest src tail (tail + (len - tail)) words
        (copy_bytes dest src tail (len - tail) words) =
      copy_bytes_lem (len - tail) dest src len tail words apart (omega arith) in
    let z : 0 + body ≡ body = omega arith in
    let y : tail + (len - tail) ≡ len = omega arith in
    IsCopied-compose dest src len 0 tail len mem words _ apart (omega arith) (omega arith)
      (omega arith)
      (IsCopied-compose dest src len 0 body tail mem head words apart (omega arith) (omega arith)
        (omega arith) (rw z at c) (rw e at d))
      (rw y at f)

-- For buffers that do not overlap, in a memory of bytes, `memcpy` leaves each byte of the
-- destination as the source's byte was, and every other address as it was; NULL copies nothing.
pub memcpy_lem :
    (dest src len : ℕ) (mem : Memory) (a : ℕ)
    → IsApart dest src len
    → AreBytes mem
    → memcpy dest src len mem a ≡ (
        if (dest == 0 || src == 0)
        then mem a
        else if within dest 0 len a
        then mem (src + (a - dest))
        else mem a)
unfolding memcpy
memcpy_lem dest src len mem a apart b =
    let (body, tail) = compute_alignment dest src len in
    ground (
      arith,
      loops_lem dest src len body tail mem apart b (compute_alignment-IsSplit dest src len) a,
    )
