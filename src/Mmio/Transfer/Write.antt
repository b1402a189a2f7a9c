-- ===== src/Mmio/Transfer/Write.antt =====
-- `mmio_region_memcpy_to_mmio32`, on the bytes of the buffer and of the region.
use sunburst_chip.Base.{
  ℕ, zero, suc, ◌+◌, ◌-◌, ◌*◌, ◌/◌, ◌%◌, ◌^◌, ◌≤◌, ◌<◌, ◌≡◌, refl, arith, ap, true, false, ◌&&◌,
  if◌then◌else◌, ltb, leb, ◌==◌, min, ℕ_discrete,
}
use sunburst_chip.Mmio.{Bus}
use sunburst_chip.Mmio.Registers.{IsRegisterFile, peek}
use sunburst_chip.Memory.{Memory, byte_at, word_of}
use sunburst_chip.Memory.Words.{AreBytes}
use sunburst_chip.Mmio.Transfer.{
  byte_to_word, patched_word, copy_to_word, transfer_word, current_word_of, transfer_loop, memcpy32,
  memcpy_to_mmio32,
}

byte_to_word-lt :
    (word first n buf : ℕ) (mem : Memory) (k : ℕ)
    → AreBytes mem
    → byte_to_word word first n buf mem k < 2 ^ 8
unfolding byte_to_word
byte_to_word-lt word first n buf mem k h = ground (arith, h (buf + (k - first)))

byte_at-word_of :
    (f : ℕ → ℕ) (k : ℕ)
    → ((j : ℕ) → f j < 2 ^ 8)
    → k < 4
    → byte_at (word_of (f 0) (f 1) (f 2) (f 3)) k ≡ f k
byte_at-word_of f k b h =
    let w = word_of (f 0) (f 1) (f 2) (f 3) in
    let b0 = b 0 in
    let b1 = b 1 in
    let b2 = b 2 in
    let b3 = b 3 in
    let e0 : byte_at w 0 ≡ f 0 = omega arith in
    let e1 : byte_at w 1 ≡ f 1 = omega arith in
    let e2 : byte_at w 2 ≡ f 2 = omega arith in
    let e3 : byte_at w 3 ≡ f 3 = omega arith in
    let at = λ (j : ℕ) (p : k ≡ j). ap (byte_at w) p in
    let fat = λ (j : ℕ) (p : k ≡ j). ap f p in
    ground (arith, at 0, at 1, at 2, at 3, fat 0, fat 1, fat 2, fat 3)

patched_word-lt :
    (word first n buf : ℕ) (mem : Memory)
    → AreBytes mem
    → patched_word word first n buf mem < 2 ^ 32
unfolding patched_word
patched_word-lt word first n buf mem h =
    let b = λ (k : ℕ). byte_to_word-lt word first n buf mem k h in omega (arith, b 0, b 1, b 2, b 3)

patched_word_lem :
    (word first n buf : ℕ) (mem : Memory) (k : ℕ)
    → AreBytes mem
    → k < 4
    → byte_at (patched_word word first n buf mem) k
      ≡ (if leb first k && ltb k (first + n) then mem (buf + (k - first)) else byte_at word k)
unfolding patched_word byte_to_word
patched_word_lem word first n buf mem k h lt =
    byte_at-word_of (byte_to_word word first n buf mem) k
      (λ j. byte_to_word-lt word first n buf mem j h) lt

copy_to_word_lem :
    (word first n buf : ℕ) (mem : Memory)
    → 0 < buf
    → copy_to_word word first n buf mem ≡ patched_word word first n buf mem
unfolding copy_to_word
copy_to_word_lem word first n buf mem h = let e : (buf == 0) ≡ false = ground arith in rw e refl

-- The byte at an offset of the region.
abbrev pub region_byte : {S : Type 0} → Bus S → ℕ → ℕ → S → ℕ
region_byte bus base o s = byte_at (peek bus (base + o / 4 * 4) s) (o % 4)

module _ {S : Type 0} (bus : Bus S) (Plain : ℕ → Type 0) (regs : IsRegisterFile bus Plain)
    (base : ℕ) where
  -- The bytes from `lo` to `hi` of the buffer were written to the region, which starts at `offset`.
  abbrev pub IsWritten : ℕ → ℕ → Memory → ℕ → ℕ → S → S → Type 0
  IsWritten offset buf mem lo hi s s' =
      (o : ℕ)
      → Plain (base + o / 4 * 4)
      → region_byte bus base o s' ≡ (
          if leb (offset + lo) o && ltb o (offset + hi)
          then mem (buf + (o - offset))
          else region_byte bus base o s)

  pub IsWritten-compose :
      (offset buf : ℕ) (mem : Memory) (lo mid hi : ℕ) (s0 s1 s2 : S)
      → lo ≤ mid
      → mid ≤ hi
      → IsWritten offset buf mem lo mid s0 s1
      → IsWritten offset buf mem mid hi s1 s2
      → IsWritten offset buf mem lo hi s0 s2
  IsWritten-compose offset buf mem lo mid hi s0 s1 s2 p q c d o h = ground (arith, c o h, d o h)

  -- Storing the word with the bytes from index `i` on, `first` bytes behind its start.
  pub store_word :
      (offset buf : ℕ) (mem : Memory) (i w first n current : ℕ) (s : S)
      → AreBytes mem
      → Plain (base + w / 4 * 4)
      → w % 4 ≡ 0
      → w + first ≡ offset + i
      → first + n ≤ 4
      → ((k : ℕ)
          → k < 4
          → (leb first k && ltb k (first + n)) ≡ false
          → byte_at current k ≡ byte_at (peek bus (base + w / 4 * 4) s) k)
      → IsWritten offset buf mem i
          (i + n)
          s
          (bus.store (base + w / 4 * 4) (patched_word current first n (buf + i) mem) s)
  store_word offset buf mem i w first n current s h p a e le same o q =
      let v = patched_word current first n (buf + i) mem in
      let l =
        regs.load-store (base + w / 4 * 4) (base + o / 4 * 4) v s p q
          (patched_word-lt current first n (buf + i) mem h) in
      let m = patched_word_lem current first n (buf + i) mem (o % 4) h (omega arith) in
      let sub = λ (e : base + o / 4 * 4 ≡ base + w / 4 * 4). same (o % 4) (omega arith) in
      let src = λ (e : buf + i + (o % 4 - first) ≡ buf + (o - offset)). ap mem e in
      ground (arith, l, m, sub, src)

  -- Every word that the bytes from `lo` to `hi` of the region lie in is a plain register.
  abbrev pub ArePlain : ℕ → ℕ → Type 0
  ArePlain lo hi = (o : ℕ) → lo ≤ o → o < hi → Plain (base + o / 4 * 4)

  -- The current word agrees with the register outside of what is overwritten.
  current_word_lem :
      (w n : ℕ) (s : S)
      → Plain (base + w / 4 * 4)
      → n ≤ 4
      → let (current, s1) = current_word_of bus base w n false s in
        (s1 ≡ s)
        × ((k : ℕ)
            → k < 4
            → (leb 0 k && ltb k (0 + n)) ≡ false
            → byte_at current k ≡ byte_at (peek bus (base + w / 4 * 4) s) k)
  unfolding current_word_of
  current_word_lem w n s p le = elim (ℕ_discrete n 4) [
    | yes e ↦
        rw e (refl, λ (k : ℕ) (lt : k < 4) (f : (leb 0 k && ltb k (0 + 4)) ≡ false). ground arith)
    | no ne ↦
        let t : (n == 4) ≡ false = ground arith in rw t (regs.load_keeps _ s p, λ k lt f. refl)
  ]

  -- One round of the loop.
  round_lem :
      (offset buf : ℕ) (mem : Memory) (i n : ℕ) (s : S)
      → AreBytes mem
      → Plain (base + (offset + i) / 4 * 4)
      → (offset + i) % 4 ≡ 0
      → n ≤ 4
      → 0 < buf
      → let (current, s1) = current_word_of bus base (offset + i) n false s in
        let (mem', s') = transfer_word bus base (offset + i) 0 n (buf + i) false current mem s1 in
        (mem' ≡ mem) × IsWritten offset buf mem i (i + n) s s'
  unfolding transfer_word
  round_lem offset buf mem i n s h p a le pos =
      let (keeps, same) = current_word_lem (offset + i) n s p le in
      let z : offset + i + 0 ≡ offset + i = omega arith in
      let current = (current_word_of bus base (offset + i) n false s).0 in
      rw (keeps, copy_to_word_lem current 0 n (buf + i) mem (omega arith))
        (
          refl,
          store_word offset buf mem i (offset + i) 0 n current s h p a z (omega (arith, le)) same,
        )

  transfer_loop_lem :
      (left : ℕ) (offset buf : ℕ) (mem : Memory) (i len : ℕ) (s : S)
      → AreBytes mem
      → ArePlain (offset + i) (offset + i + len)
      → (0 < len → (offset + i) % 4 ≡ 0)
      → left ≡ (len + 3) / 4
      → 0 < buf
      → let (mem', s') = transfer_loop bus left base (offset + i) (buf + i) len false mem s in
        (mem' ≡ mem) × IsWritten offset buf mem i (i + len) s s'
  unfolding transfer_loop transfer_word
  transfer_loop_lem zero offset buf mem i len s h p a le pos = (refl, λ o q. ground arith)
  transfer_loop_lem (suc left) offset buf mem i len s h p a le pos =
      let n = min 4 len in
      let (current, s1) = current_word_of bus base (offset + i) n false s in
      let (mem1, s2) = transfer_word bus base (offset + i) 0 n (buf + i) false current mem s1 in
      let al = a (omega arith) in
      let (keeps, written) =
        round_lem offset buf mem i n s h (p (offset + i) (omega arith) (omega arith)) al
          (omega arith) pos in
      let eo : offset + i + n ≡ offset + (i + n) = omega arith in
      let eb : buf + i + n ≡ buf + (i + n) = omega arith in
      let el : i + n + (len - n) ≡ i + len = omega arith in
      let (keeps', written') =
        transfer_loop_lem left offset buf mem (i + n) (len - n) s2 h
          (λ o x y. p o (omega arith) (omega arith)) (λ t. omega (arith, al)) (omega arith) pos in
      rw (keeps, eo, eb)
        (
          keeps',
          IsWritten-compose offset buf mem i (i + n) (i + len) s s2 _ (omega arith) (omega arith)
              written (rw el at written'),
        )

  head_lem : (offset len : ℕ) → 0 < len → min (4 - offset % 4) len + offset % 4 ≤ 4
  head_lem offset len h = omega arith

  -- Bytes of main memory that are copied to plain registers, at any offset, from an address that is
  -- not NULL unless there are none to copy, are then the bytes of the region; its other bytes in
  -- plain registers, and main memory, are as before.
  pub memcpy_to_mmio32_lem :
      (offset src len : ℕ) (mem : Memory) (s : S)
      → AreBytes mem
      → ArePlain offset (offset + len)
      → (0 < len → 0 < src)
      → let (mem', s') = memcpy_to_mmio32 bus base offset src len mem s in
        (mem' ≡ mem) × IsWritten offset src mem 0 len s s'
  unfolding memcpy_to_mmio32 memcpy32 transfer_word
  memcpy_to_mmio32_lem offset src len mem s h p some_src =
      let m = offset % 4 in
      let n = min (4 - m) len in
      let w = offset - m in
      let z0 : offset + 0 ≡ offset = omega arith in
      let z1 : src + 0 ≡ src = omega arith in
      let z2 : 0 + len ≡ len = omega arith in
      elim (ℕ_discrete len 0) [
        | yes e ↦ let t : (len == 0) ≡ true = ground arith in rw t (refl, λ o q. ground arith)
        | no ne ↦
            let t : (len == 0) ≡ false = ground arith in
            let pos : 0 < src = some_src (omega arith) in
            elim (ℕ_discrete m 0) [
              | yes a ↦
                  let u : (m == 0) ≡ true = ground arith in
                  rw (t, u, z0)
                    (rw (z0, z1, z2) at
                      (transfer_loop_lem ((len + 3) / 4) offset src mem 0 len s h
                        (λ o x y. p o (omega arith) (omega arith)) (λ l. omega arith) refl pos))
              | no na ↦
                  let u : (m == 0) ≡ false = ground arith in
                  let pw = p offset (omega arith) (omega arith) in
                  let ew : offset / 4 * 4 ≡ w / 4 * 4 = omega arith in
                  let pw' = rw ew at pw in
                  let current = peek bus (base + w / 4 * 4) s in
                  let s2 = bus.store (base + w / 4 * 4) (patched_word current m n src mem) s in
                  let written =
                    store_word offset src mem 0 w m n current s h pw' (omega arith) (omega arith)
                      (omega arith) (λ k l f. refl) in
                  let (keeps, later) =
                    transfer_loop_lem ((len - n + 3) / 4) offset src mem n (len - n) s2 h
                      (λ o x y. p o (omega arith) (omega arith)) (λ l. omega arith) refl pos in
                  let z2' : 0 + n ≡ n = omega arith in
                  let el : n + (len - n) ≡ len = omega arith in
                  rw
                    (
                      t,
                      u,
                      regs.load_keeps (base + w / 4 * 4) s pw',
                      copy_to_word_lem current m n src mem pos,
                    )
                    (
                      keeps,
                      IsWritten-compose offset src mem 0 n len s s2 _ (omega arith) (omega arith)
                          (rw (z2', z1) at written) (rw el at later),
                    )
            ]
      ]
