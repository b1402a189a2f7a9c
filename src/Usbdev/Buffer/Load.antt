-- ===== src/Usbdev/Buffer/Load.antt =====
-- The loops that read a whole packet buffer.
use sunburst_chip.Base.{
  ℕ, zero, suc, ◌+◌, ◌-◌, ◌*◌, ◌/◌, ◌%◌, ◌≤◌, ◌<◌, ◌≡◌, refl, arith, ◌∙◌, ap, true, false,
  if◌then◌else◌, ◌==◌, ℕ_discrete,
}
use sunburst_chip.Mmio.{Bus}
use sunburst_chip.Mmio.Registers.{IsRegisterFile, peek}
use sunburst_chip.Mmio.Transfer.Write.{ArePlain}
use sunburst_chip.Mmio.Transfer.Read.{IsRead, IsRead-compose}
use sunburst_chip.Memory.{Memory, byte_at, write_32}
use sunburst_chip.Memory.Words.{within, write_32_lem}
use sunburst_chip.Usbdev.Buffer.{put_partial_word, read_words, read_blocks, read_rest}

module _ {S : Type 0} (bus : Bus S) (Plain : ℕ → Type 0) (regs : IsRegisterFile bus Plain)
    (base : ℕ) where
  read_blocks_lem :
      (left offset wd : ℕ) (mem : Memory) (s : S)
      → read_blocks bus left base offset wd mem s ≡ read_words bus (left * 4) base offset wd mem s
  unfolding read_blocks read_words
  read_blocks_lem zero offset wd mem s = refl
  read_blocks_lem (suc left) offset wd mem s =
      let e : suc left * 4 ≡ suc (suc (suc (suc (left * 4)))) = omega arith in
      let o2 : offset + 4 + 4 ≡ offset + 8 = omega arith in
      let o3 : offset + 8 + 4 ≡ offset + 12 = omega arith in
      let o4 : offset + 12 + 4 ≡ offset + 16 = omega arith in
      let w2 : wd + 4 + 4 ≡ wd + 8 = omega arith in
      let w3 : wd + 8 + 4 ≡ wd + 12 = omega arith in
      let w4 : wd + 12 + 4 ≡ wd + 16 = omega arith in
      rw (e, o2, o3, o4, w2, w3, w4) (read_blocks_lem left (offset + 16) (wd + 16) _ _)

  -- Putting the first `n` bytes of a word at index `i` of the buffer.
  put_lem :
      (offset buf i n : ℕ) (mem mem' : Memory) (s : S)
      → (offset + i) % 4 ≡ 0
      → n ≤ 4
      → ((y : ℕ)
          → mem' y ≡ (
              if within (buf + i) 0 n y
              then byte_at (peek bus (base + (offset + i) / 4 * 4) s) (y - (buf + i))
              else mem y))
      → IsRead bus Plain regs base offset buf s i (i + n) mem mem'
  put_lem offset buf i n mem mem' s a le h y =
      let byte = λ (k j : ℕ). byte_at (peek bus (base + k) s) j in
      let same =
        λ (p : (offset + i) / 4 * 4 ≡ (offset + (y - buf)) / 4 * 4)
            (q : y - (buf + i) ≡ (offset + (y - buf)) % 4).
          ap (λ k. byte k (y - (buf + i))) p ∙ ap (byte ((offset + (y - buf)) / 4 * 4)) q in
      ground (arith, h y, same)

  read_words_lem :
      (left offset buf i : ℕ) (mem : Memory) (s : S)
      → ArePlain bus Plain regs base offset (offset + i + left * 4)
      → (offset + i) % 4 ≡ 0
      → let (mem', s') = read_words bus left base (offset + i) (buf + i) mem s in
        (s' ≡ s) × IsRead bus Plain regs base offset buf s i (i + left * 4) mem mem'
  unfolding read_words
  read_words_lem zero offset buf i mem s p a = (refl, λ y. ground arith)
  read_words_lem (suc left) offset buf i mem s p a =
      let eo : offset + i + 4 ≡ offset + (i + 4) = omega arith in
      let eb : buf + i + 4 ≡ buf + (i + 4) = omega arith in
      let el : i + suc left * 4 ≡ i + 4 + left * 4 = omega arith in
      let word = peek bus (base + (offset + i) / 4 * 4) s in
      let mem1 = write_32 word (buf + i) mem in
      let step : read_words bus (suc left) base (offset + i) (buf + i) mem s
          ≡ read_words bus left base (offset + i + 4) (buf + i + 4) mem1
              (bus.load (base + (offset + i) / 4 * 4) s).1 =
        refl in
      let first =
        put_lem offset buf i 4 mem mem1 s a (omega arith)
          (λ y. write_32_lem word (buf + i) mem y) in
      let (keeps, later) =
        read_words_lem left offset buf (i + 4) mem1 s (λ o x y. p o (omega arith) (omega arith))
          (omega arith) in
      rw
        (
          step,
          regs.load_keeps (base + (offset + i) / 4 * 4) s
              (p (offset + i) (omega arith) (omega arith)),
          eo,
          eb,
          el,
        )
        (
          keeps,
          IsRead-compose bus Plain regs base offset buf s i (i + 4) (i + 4 + left * 4) mem mem1 _
              (omega arith) (omega arith) first later,
        )

  read_rest_lem :
      (offset buf i n : ℕ) (mem : Memory) (s : S)
      → (offset + i) % 4 ≡ 0
      → n < 4
      → ArePlain bus Plain regs base offset (offset + i + n)
      → let (mem', s') = read_rest bus base (offset + i) (buf + i) n mem s in
        (s' ≡ s) × IsRead bus Plain regs base offset buf s i (i + n) mem mem'
  unfolding read_rest put_partial_word
  read_rest_lem offset buf i n mem s a k p = elim (ℕ_discrete n 0) [
    | yes e ↦ let t : (n == 0) ≡ true = ground arith in rw t (refl, λ y. ground arith)
    | no ne ↦
        let t : (n == 0) ≡ false = ground arith in
        let word = peek bus (base + (offset + i) / 4 * 4) s in
        let byte = λ (y j : ℕ) (q : y - (buf + i) ≡ j). ap (byte_at word) q in
        rw
          (
            t,
            regs.load_keeps (base + (offset + i) / 4 * 4) s
                (p (offset + i) (omega arith) (omega arith)),
          )
          (
            refl,
            put_lem offset buf i n mem (put_partial_word word (buf + i) n mem) s a (omega arith)
                λ y. ground (arith, byte y 0, byte y 1, byte y 2),
          )
  ]

  pub read_all_lem :
      (offset buf blocks words n : ℕ) (mem : Memory) (s : S)
      → offset % 4 ≡ 0
      → n < 4
      → let done = blocks * 16 + words * 4 in
        ArePlain bus Plain regs base offset (offset + done + n)
        → let (mem1, s1) = read_blocks bus blocks base offset buf mem s in
          let (mem2, s2) =
            read_words bus words base (offset + blocks * 16) (buf + blocks * 16) mem1 s1 in
          let (mem3, s3) = read_rest bus base (offset + done) (buf + done) n mem2 s2 in
          (s3 ≡ s) × IsRead bus Plain regs base offset buf s 0 (done + n) mem mem3
  read_all_lem offset buf blocks words n mem s a k p =
      let done = blocks * 16 + words * 4 in
      let z0 : offset + 0 ≡ offset = omega arith in
      let z1 : buf + 0 ≡ buf = omega arith in
      let z2 : 0 + blocks * 4 * 4 ≡ blocks * 16 = omega arith in
      let (k1, r1) =
        read_words_lem (blocks * 4) offset buf 0 mem s (λ o x y. p o (omega arith) (omega arith))
          (omega arith) in
      let k1' = rw (z0, z1, ← read_blocks_lem blocks offset buf mem s) at k1 in
      let r1' = rw (z0, z1, z2, ← read_blocks_lem blocks offset buf mem s) at r1 in
      let mem1 = (read_blocks bus blocks base offset buf mem s).0 in
      let (k2, r2) =
        read_words_lem words offset buf (blocks * 16) mem1 s
          (λ o x y. p o (omega arith) (omega arith)) (omega arith) in
      let mem2 = (read_words bus words base (offset + blocks * 16) (buf + blocks * 16) mem1 s).0 in
      let (k3, r3) =
        read_rest_lem offset buf done n mem2 s (omega arith) k
          (λ o x y. p o (omega arith) (omega arith)) in
      rw (k1', k2)
        (
          k3,
          IsRead-compose bus Plain regs base offset buf s 0 done (done + n) mem mem2 _ (omega arith)
              (omega arith)
              (IsRead-compose bus Plain regs base offset buf s 0 (blocks * 16) done mem mem1 mem2
                (omega arith) (omega arith) (λ y. ground (arith, r1' y)) r2)
              r3,
        )
