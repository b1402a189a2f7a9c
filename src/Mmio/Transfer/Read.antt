-- ===== src/Mmio/Transfer/Read.antt =====
-- `mmio_region_memcpy_from_mmio32`, on the bytes of the region and of the buffer.
use sunburst_chip.Base.{
  ℕ, zero, suc, ◌+◌, ◌-◌, ◌*◌, ◌/◌, ◌%◌, ◌≤◌, ◌<◌, ◌≡◌, refl, arith, ◌∙◌, ap, true, false,
  if◌then◌else◌, ◌==◌, min, ℕ_discrete,
}
use sunburst_chip.Mmio.{Bus}
use sunburst_chip.Mmio.Registers.{IsRegisterFile, peek}
use sunburst_chip.Memory.{Memory, byte_at}
use sunburst_chip.Memory.Words.{within}
use sunburst_chip.Mmio.Transfer.{
  copy_from_word, transfer_word, current_word_of, transfer_loop, memcpy32, memcpy_from_mmio32,
}
use sunburst_chip.Mmio.Transfer.Write.{region_byte, ArePlain}

module _ {S : Type 0} (bus : Bus S) (Plain : ℕ → Type 0) (regs : IsRegisterFile bus Plain)
    (base : ℕ) where
  -- The bytes from `lo` to `hi` of the buffer were read from the region, which starts at `offset`.
  abbrev pub IsRead : ℕ → ℕ → S → ℕ → ℕ → Memory → Memory → Type 0
  IsRead offset buf s lo hi mem mem' =
      (a : ℕ)
      → mem' a ≡ (if within buf lo hi a then region_byte bus base (offset + (a - buf)) s else mem a)

  pub IsRead-compose :
      (offset buf : ℕ) (s : S) (lo mid hi : ℕ) (m0 m1 m2 : Memory)
      → lo ≤ mid
      → mid ≤ hi
      → IsRead offset buf s lo mid m0 m1
      → IsRead offset buf s mid hi m1 m2
      → IsRead offset buf s lo hi m0 m2
  IsRead-compose offset buf s lo mid hi m0 m1 m2 p q c d a = ground (arith, c a, d a)

  -- Taking the bytes of the word at `w`, from `first` on, to the buffer at index `i`.
  load_word :
      (offset buf : ℕ) (mem : Memory) (i w first n : ℕ) (s : S)
      → w % 4 ≡ 0
      → w + first ≡ offset + i
      → first + n ≤ 4
      → 0 < buf
      → IsRead offset buf s i
          (i + n)
          mem
          (copy_from_word (peek bus (base + w / 4 * 4) s) first n (buf + i) mem)
  unfolding copy_from_word
  load_word offset buf mem i w first n s a e le pos y =
      let byte = λ (k j : ℕ). byte_at (peek bus (base + k) s) j in
      let same =
        λ (p : w / 4 * 4 ≡ (offset + (y - buf)) / 4 * 4)
            (q : first + (y - (buf + i)) ≡ (offset + (y - buf)) % 4).
          ap (λ k. byte k (first + (y - (buf + i)))) p
          ∙ ap (byte ((offset + (y - buf)) / 4 * 4)) q in
      let z : (buf + i == 0) ≡ false = ground arith in rw z (ground (arith, same))

  transfer_loop_lem :
      (left : ℕ) (offset buf : ℕ) (mem : Memory) (i len : ℕ) (s : S)
      → ArePlain bus Plain regs base (offset + i) (offset + i + len)
      → (0 < len → (offset + i) % 4 ≡ 0)
      → left ≡ (len + 3) / 4
      → 0 < buf
      → let (mem', s') = transfer_loop bus left base (offset + i) (buf + i) len true mem s in
        (s' ≡ s) × IsRead offset buf s i (i + len) mem mem'
  unfolding transfer_loop transfer_word current_word_of
  transfer_loop_lem zero offset buf mem i len s p a le pos = (refl, λ o. ground arith)
  transfer_loop_lem (suc left) offset buf mem i len s p a le pos =
      let n = min 4 len in
      let al = a (omega arith) in
      let w = offset + i in
      let word = peek bus (base + w / 4 * 4) s in
      let mem1 = copy_from_word word 0 n (buf + i) mem in
      let z : w + 0 ≡ offset + i = omega arith in
      let read = load_word offset buf mem i w 0 n s al z (omega arith) pos in
      let eo : offset + i + n ≡ offset + (i + n) = omega arith in
      let eb : buf + i + n ≡ buf + (i + n) = omega arith in
      let el : i + n + (len - n) ≡ i + len = omega arith in
      let (keeps, later) =
        transfer_loop_lem left offset buf mem1 (i + n) (len - n) s
          (λ o x y. p o (omega arith) (omega arith)) (λ t. omega (arith, al)) (omega arith) pos in
      rw (regs.load_keeps (base + w / 4 * 4) s (p w (omega arith) (omega arith)), eo, eb)
        (
          keeps,
          IsRead-compose offset buf s i (i + n) (i + len) mem mem1 _ (omega arith) (omega arith)
              read (rw el at later),
        )

  -- Bytes of plain registers, at any offset, that are copied to a buffer in main memory, which is
  -- not NULL unless there are none to copy, are then the bytes of the buffer; the rest of main
  -- memory, and the hardware, are as before.
  pub memcpy_from_mmio32_lem :
      (offset dest len : ℕ) (mem : Memory) (s : S)
      → ArePlain bus Plain regs base offset (offset + len)
      → (0 < len → 0 < dest)
      → let (mem', s') = memcpy_from_mmio32 bus base offset dest len mem s in
        (s' ≡ s) × IsRead offset dest s 0 len mem mem'
  unfolding memcpy_from_mmio32 memcpy32 transfer_word
  memcpy_from_mmio32_lem offset dest len mem s p some_dest =
      let m = offset % 4 in
      let n = min (4 - m) len in
      let w = offset - m in
      let z0 : offset + 0 ≡ offset = omega arith in
      let z1 : dest + 0 ≡ dest = omega arith in
      let z2 : 0 + len ≡ len = omega arith in
      elim (ℕ_discrete len 0) [
        | yes e ↦ let t : (len == 0) ≡ true = ground arith in rw t (refl, λ o. ground arith)
        | no ne ↦
            let t : (len == 0) ≡ false = ground arith in
            let pos : 0 < dest = some_dest (omega arith) in
            elim (ℕ_discrete m 0) [
              | yes a ↦
                  let u : (m == 0) ≡ true = ground arith in
                  let (keeps, read) =
                    transfer_loop_lem ((len + 3) / 4) offset dest mem 0 len s
                      (λ o x y. p o (omega arith) (omega arith)) (λ l. omega arith) refl pos in
                  let read' = rw (z0, z1, z2) at read in
                  rw (t, u) (rw (z0, z1) at keeps, λ y. ground (arith, read' y))
              | no na ↦
                  let u : (m == 0) ≡ false = ground arith in
                  let pw = p offset (omega arith) (omega arith) in
                  let ew : offset / 4 * 4 ≡ w / 4 * 4 = omega arith in
                  let pw' = rw ew at pw in
                  let mem1 = copy_from_word (peek bus (base + w / 4 * 4) s) m n dest mem in
                  let read =
                    load_word offset dest mem 0 w m n s (omega arith) (omega arith) (omega arith)
                      pos in
                  let (keeps, later) =
                    transfer_loop_lem ((len - n + 3) / 4) offset dest mem1 n (len - n) s
                      (λ o x y. p o (omega arith) (omega arith)) (λ l. omega arith) refl pos in
                  let z2' : 0 + n ≡ n = omega arith in
                  let el : n + (len - n) ≡ len = omega arith in
                  rw (t, u, regs.load_keeps (base + w / 4 * 4) s pw')
                    (
                      keeps,
                      IsRead-compose offset dest s 0 n len mem mem1 _ (omega arith) (omega arith)
                          (λ y. ground (arith, (rw (z2', z1) at read) y)) (rw el at later),
                    )
            ]
      ]
