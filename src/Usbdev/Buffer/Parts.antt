-- ===== src/Usbdev/Buffer/Parts.antt =====
-- Reading and writing a packet buffer by parts.
use sunburst_chip.Base.{
  ℕ, ◌+◌, ◌-◌, ◌*◌, ◌/◌, ◌≤◌, ◌<◌, ◌≡◌, ◌≢◌, refl, arith, ◌∙◌, ap, Bool, true, false, ◌&&◌,
  if◌then◌else◌, ltb, leb, ◌==◌, some, min, ◌∷◌, length, Bool-cases, inl, inr,
}
use sunburst_chip.Mmio.{Bus}
use sunburst_chip.Mmio.Registers.{IsRegisterFile}
use sunburst_chip.Mmio.Transfer.Write.{region_byte, ArePlain, IsWritten, memcpy_to_mmio32_lem}
use sunburst_chip.Mmio.Transfer.Read.{IsRead, memcpy_from_mmio32_lem}
use sunburst_chip.Memory.{Memory}
use sunburst_chip.Memory.Words.{AreBytes}
use sunburst_chip.Dif.{dif_ok, dif_error}
use sunburst_chip.Usbdev.Pool.{BufferPool, add}
use sunburst_chip.Usbdev.Pool.Stack.{Stack, IsValid, contents, add_refines}
use sunburst_chip.Usbdev.Packet.{Buffer, type_read, type_write, stale}
use sunburst_chip.Usbdev.Packet.Lifecycle.{returned_lem, push_lem}
use sunburst_chip.Usbdev.Buffer.{
  get_buffer_addr, advanced, drained, count_of, buffer_read, buffer_write,
}

-- The buffer is one of the 32, and what is done and what is left fit into it.
abbrev pub IsInside : Buffer → Type 0
IsInside buffer = (buffer.id < 32) × (buffer.offset + buffer.remaining_bytes ≤ 64)

advanced-IsInside :
    (buffer : Buffer) (n : ℕ)
    → IsInside buffer
    → n ≤ buffer.remaining_bytes
    → IsInside (advanced buffer n) × ((advanced buffer n).offset ≡ buffer.offset + n)
advanced-IsInside buffer n (h, k) le = ((h, omega arith), omega arith)

module _ {S : Type 0} (bus : Bus S) (Plain : ℕ → Type 0) (regs : IsRegisterFile bus Plain)
    (base : ℕ) (packets : ArePlain bus Plain regs base 0x800 0x1000) where
  -- A write within a buffer succeeds unless more is offered than there is room, which is an error
  -- after the room was filled. It moves the buffer on by what was copied.
  pub buffer_write_lem :
      (buffer : Buffer) (src src_len : ℕ) (has_count : Bool) (mem : Memory) (s : S)
      → AreBytes mem
      → IsInside buffer
      → buffer.type ≡ type_write
      → src ≢ 0
      → let n = min buffer.remaining_bytes src_len in
        let (((result, buffer'), count, mem'), s') =
          buffer_write bus (some base) buffer src src_len has_count mem s in
        (result ≡ (if ltb buffer.remaining_bytes src_len then dif_error else dif_ok))
        × (buffer' ≡ advanced buffer n)
        × (count ≡ count_of has_count n)
        × (mem' ≡ mem)
        × IsWritten bus Plain regs base (get_buffer_addr buffer.id buffer.offset) src mem 0 n s s'
  unfolding buffer_write
  buffer_write_lem buffer src src_len has_count mem s h (i, r) t ne =
      let n = min buffer.remaining_bytes src_len in
      let a = get_buffer_addr buffer.id buffer.offset in
      let z : (src == 0) ≡ false = ground arith in
      let (keeps, written) =
        memcpy_to_mmio32_lem bus Plain regs base a src n mem s h
          (λ o x y. packets o (omega arith) (omega arith)) (λ l. omega arith) in
      rw (t, z) (ground arith, refl, refl, keeps, written)

  -- What two writes with room for both leave in the packet buffer.
  abbrev pub HoldsBoth : ℕ → ℕ → ℕ → ℕ → ℕ → Memory → S → S → Type 0
  HoldsBoth a src n src' n' mem s s' =
      (o : ℕ)
      → Plain (base + o / 4 * 4)
      → region_byte bus base o s' ≡ (
          if leb a o && ltb o (a + n)
          then mem (src + (o - a))
          else if leb (a + n) o && ltb o (a + n + n')
          then mem (src' + (o - (a + n)))
          else region_byte bus base o s)

  -- From a memory of bytes, two writes to a write buffer within the packet memory that has room for
  -- both succeed, and leave the bytes of the first and behind them those of the second; the rest of
  -- the packet memory, and main memory, are as before. The buffer has moved on by both. The words
  -- of the packet memory hold what is written.
  pub buffer_write_twice :
      (buffer : Buffer) (src n src' n' : ℕ) (has_count : Bool) (mem : Memory) (s : S)
      → AreBytes mem
      → IsInside buffer
      → buffer.type ≡ type_write
      → src ≢ 0
      → src' ≢ 0
      → n + n' ≤ buffer.remaining_bytes
      → let (((result, buffer1), count, mem1), s1) =
          buffer_write bus (some base) buffer src n has_count mem s in
        let (((result', buffer2), count', mem2), s2) =
          buffer_write bus (some base) buffer1 src' n' has_count mem1 s1 in
        (result ≡ dif_ok)
        × (result' ≡ dif_ok)
        × (buffer2.offset ≡ buffer.offset + n + n')
        × (buffer2.remaining_bytes + (n + n') ≡ buffer.remaining_bytes)
        × (mem2 ≡ mem)
        × HoldsBoth (get_buffer_addr buffer.id buffer.offset) src n src' n' mem s s2
  buffer_write_twice buffer src n src' n' has_count mem s h i t ne ne' le =
      let m : min buffer.remaining_bytes n ≡ n = omega arith in
      let m' : min (buffer.remaining_bytes - n) n' ≡ n' = omega arith in
      let (r1, b1, c1, k1, w1) = buffer_write_lem buffer src n has_count mem s h i t ne in
      let s1 = (buffer_write bus (some base) buffer src n has_count mem s).1 in
      let (inside, moved) = advanced-IsInside buffer n i (omega arith) in
      let (r2, b2, c2, k2, w2) =
        buffer_write_lem (advanced buffer n) src' n' has_count mem s1 h inside t ne' in
      let b1' = rw m at b1 in
      let w1' = rw m at w1 in
      let b2' = rw m' at b2 in
      let w2' = rw m' at w2 in
      let a2 : get_buffer_addr buffer.id (advanced buffer n).offset
          ≡ get_buffer_addr buffer.id buffer.offset + n =
        omega (arith, moved) in
      let w2'' = rw a2 at w2' in
      let offset2 = ap (λ b. b.offset) b2' in
      let left2 = ap (λ b. b.remaining_bytes) b2' in
      rw (b1', k1)
        (
          ground (arith, r1),
          ground (arith, r2),
          omega (arith, offset2),
          omega (arith, left2),
          k2,
          λ o q. ground (arith, w1' o q, w2'' o q),
        )

  -- A read buffer that has nothing left after a read is stale and back in the pool.
  drained_lem :
      (pool : BufferPool) (buffer : Buffer)
      → IsValid pool
      → buffer.id < 32
      → length (contents pool) < 32
      → let (result, pool', buffer') = drained pool buffer in
        (result ≡ dif_ok)
        × IsValid pool'
        × (buffer' ≡ (if ltb 0 buffer.remaining_bytes then buffer else stale buffer))
        × (contents pool'
            ≡ (if ltb 0 buffer.remaining_bytes then contents pool else buffer.id ∷ contents pool))
  unfolding drained
  drained_lem pool buffer v i l = elim (Bool-cases (ltb 0 buffer.remaining_bytes)) [
    | inl e ↦ rw e (refl, v, refl, refl)
    | inr e ↦
        let (a, u) = add_refines pool buffer.id v in
        let a' : ◌≡◌ {A = Bool × Stack} ((add pool buffer.id).0, contents (add pool buffer.id).1)
            (true, buffer.id ∷ contents pool) =
          a ∙ push_lem buffer.id (contents pool) i l in
        rw (e, returned_lem buffer (add pool buffer.id) (ap (λ t. t.0) a'))
          (refl, u, refl, ap (λ t. t.1) a')
  ]

  -- A read of a read buffer within the packet memory succeeds and copies as many bytes as are left,
  -- or as are asked for, to main memory, whose other bytes stay. It moves the buffer on; when
  -- nothing is left, the buffer is stale and back on top of the pool, which was valid and not full.
  -- The words of the packet memory hold what is written.
  pub buffer_read_lem :
      (pool : BufferPool) (buffer : Buffer) (dst dst_len : ℕ) (has_count : Bool) (mem : Memory)
      (s : S)
      → IsInside buffer
      → buffer.type ≡ type_read
      → dst ≢ 0
      → IsValid pool
      → length (contents pool) < 32
      → let n = min buffer.remaining_bytes dst_len in
        let (((result, pool', buffer'), count, mem'), s') =
          buffer_read bus (some base) pool buffer dst dst_len has_count mem s in
        let more = ltb 0 (buffer.remaining_bytes - n) in
        (result ≡ dif_ok)
        × IsValid pool'
        × (buffer' ≡ (if more then advanced buffer n else stale (advanced buffer n)))
        × (contents pool' ≡ (if more then contents pool else buffer.id ∷ contents pool))
        × (count ≡ count_of has_count n)
        × (s' ≡ s)
        × IsRead bus Plain regs base (get_buffer_addr buffer.id buffer.offset) dst s 0 n mem mem'
  unfolding buffer_read
  buffer_read_lem pool buffer dst dst_len has_count mem s (i, r) t ne v l =
      let n = min buffer.remaining_bytes dst_len in
      let a = get_buffer_addr buffer.id buffer.offset in
      let z : (dst == 0) ≡ false = ground arith in
      let (keeps, read) =
        memcpy_from_mmio32_lem bus Plain regs base a dst n mem s
          (λ o x y. packets o (omega arith) (omega arith)) (λ l. omega arith) in
      let (ok, valid, buf, stack) = drained_lem pool (advanced buffer n) v i l in
      rw (t, z) (rw t at ok, rw t at valid, rw t at buf, rw t at stack, refl, keeps, read)
