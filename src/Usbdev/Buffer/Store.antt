-- ===== src/Usbdev/Buffer/Store.antt =====
-- The loops that write a whole packet buffer.
use sunburst_chip.Base.{
  ℕ, zero, suc, ◌+◌, ◌-◌, ◌*◌, ◌/◌, ◌%◌, ◌^◌, ◌≤◌, ◌<◌, ◌≡◌, refl, arith, ◌∙◌, true, false,
  if◌then◌else◌, ltb, ◌==◌, u32, ◌<<<◌, bit_or, ℕ_discrete,
}
use sunburst_chip.Bits.{bit_or_fields, bit_or_comm}
use sunburst_chip.Mmio.{Bus}
use sunburst_chip.Mmio.Registers.{IsRegisterFile}
use sunburst_chip.Mmio.Transfer.{patched_word, byte_to_word}
use sunburst_chip.Mmio.Transfer.Write.{ArePlain, IsWritten, IsWritten-compose, store_word}
use sunburst_chip.Memory.{Memory, read_32}
use sunburst_chip.Memory.Words.{AreBytes}
use sunburst_chip.Usbdev.Buffer.{partial_word, write_words, write_blocks, write_rest}

-- The buffer, with zeros behind its end.
abbrev pub padded : ℕ → Memory → Memory
padded end mem a = if ltb a end then mem a else 0

padded-AreBytes : (end : ℕ) (mem : Memory) → AreBytes mem → AreBytes (padded end mem)
padded-AreBytes end mem h a = ground (arith, h a)

-- A whole word of the buffer, and the bytes that are left, as words of the padded buffer.
patched-read_32 :
    (buf : ℕ) (mem : Memory) (current : ℕ) → patched_word current 0 4 buf mem ≡ read_32 mem buf
unfolding patched_word byte_to_word read_32
patched-read_32 buf mem current = let z : buf + (0 - 0) ≡ buf = omega arith in rw z refl

whole-word :
    (end buf : ℕ) (mem : Memory) → buf + 4 ≤ end → read_32 (padded end mem) buf ≡ read_32 mem buf
unfolding read_32
whole-word end buf mem h = ground arith

partial-word :
    (buf n : ℕ) (mem : Memory)
    → AreBytes mem
    → 0 < n
    → n < 4
    → partial_word buf n mem ≡ read_32 (padded (buf + n) mem) buf
unfolding read_32 partial_word
partial-word buf n mem h l k =
    let d = mem buf in
    let b = mem (buf + 1) in
    let c = mem (buf + 2) in
    let hd = h buf in
    let hb = h (buf + 1) in
    let hc = h (buf + 2) in
    let eb : u32 (b <<< 8) ≡ b * 2 ^ 8 = omega arith in
    let ec : u32 (c <<< 16) ≡ c * 2 ^ 16 = omega arith in
    let o1 : bit_or d (b * 2 ^ 8) ≡ b * 2 ^ 8 + d =
      bit_or_comm d (b * 2 ^ 8) ∙ bit_or_fields 8 b d (omega arith) in
    let o2 : bit_or (b * 2 ^ 8 + d) (c * 2 ^ 16) ≡ c * 2 ^ 16 + (b * 2 ^ 8 + d) =
      bit_or_comm (b * 2 ^ 8 + d) (c * 2 ^ 16) ∙ bit_or_fields 16 c (b * 2 ^ 8 + d) (omega arith) in
    rw (eb, ec, o1, o2) (ground arith)

module _ {S : Type 0} (bus : Bus S) (Plain : ℕ → Type 0) (regs : IsRegisterFile bus Plain)
    (base : ℕ) where
  write_blocks_lem :
      (left offset ws : ℕ) (mem : Memory)
      → write_blocks bus left base offset ws mem ≡ write_words bus (left * 4) base offset ws mem
  unfolding write_blocks write_words
  write_blocks_lem zero offset ws mem = refl
  write_blocks_lem (suc left) offset ws mem =
      let e : suc left * 4 ≡ suc (suc (suc (suc (left * 4)))) = omega arith in
      let o2 : offset + 4 + 4 ≡ offset + 8 = omega arith in
      let o3 : offset + 8 + 4 ≡ offset + 12 = omega arith in
      let o4 : offset + 12 + 4 ≡ offset + 16 = omega arith in
      let w2 : ws + 4 + 4 ≡ ws + 8 = omega arith in
      let w3 : ws + 8 + 4 ≡ ws + 12 = omega arith in
      let w4 : ws + 12 + 4 ≡ ws + 16 = omega arith in
      rw (e, o2, o3, o4, w2, w3, w4, write_blocks_lem left (offset + 16) (ws + 16) mem) refl

  -- Storing a word of the buffer, at index `i`.
  store_lem :
      (offset buf i : ℕ) (mem : Memory) (s : S)
      → AreBytes mem
      → Plain (base + (offset + i) / 4 * 4)
      → (offset + i) % 4 ≡ 0
      → IsWritten bus Plain regs base offset buf mem i
          (i + 4)
          s
          (bus.store (base + (offset + i) / 4 * 4) (read_32 mem (buf + i)) s)
  store_lem offset buf i mem s h p a =
      let z : offset + i + 0 ≡ offset + i = omega arith in
      rw (← patched-read_32 (buf + i) mem 0) (
        store_word bus Plain regs base offset buf mem i (offset + i) 0 4 0 s h p a z (omega arith)
          λ k lt f. ground arith)

  write_words_lem :
      (left offset buf i end : ℕ) (mem : Memory) (s : S)
      → AreBytes mem
      → ArePlain bus Plain regs base offset (offset + i + left * 4)
      → (offset + i) % 4 ≡ 0
      → buf + i + left * 4 ≤ end
      → IsWritten bus Plain regs base offset buf
          (padded end mem)
          i
          (i + left * 4)
          s
          (write_words bus left base (offset + i) (buf + i) mem s).1
  unfolding write_words
  write_words_lem zero offset buf i end mem s h p a le = λ o q. ground arith
  write_words_lem (suc left) offset buf i end mem s h p a le =
      let eo : offset + i + 4 ≡ offset + (i + 4) = omega arith in
      let eb : buf + i + 4 ≡ buf + (i + 4) = omega arith in
      let el : i + suc left * 4 ≡ i + 4 + left * 4 = omega arith in
      let word = whole-word end (buf + i) mem (omega arith) in
      let first =
        store_lem offset buf i (padded end mem) s (padded-AreBytes end mem h)
          (p (offset + i) (omega arith) (omega arith)) a in
      rw (eo, eb, el)
        (IsWritten-compose bus Plain regs base offset buf (padded end mem) i (i + 4)
          (i + 4 + left * 4) s _ _ (omega arith) (omega arith) (rw word at first)
          (write_words_lem left offset buf (i + 4) end mem _ h
            (λ o x y. p o (omega arith) (omega arith)) (omega arith) (omega arith)))

  write_rest_lem :
      (offset buf i n : ℕ) (mem : Memory) (s : S)
      → AreBytes mem
      → (offset + i) % 4 ≡ 0
      → n < 4
      → ArePlain bus Plain regs base offset (offset + i + n)
      → IsWritten bus Plain regs base offset buf
          (padded (buf + i + n) mem)
          i
          (i + (n + 3) / 4 * 4)
          s
          (write_rest bus base (offset + i) (buf + i) n mem s).1
  unfolding write_rest
  write_rest_lem offset buf i n mem s h a k p = elim (ℕ_discrete n 0) [
    | yes e ↦ let t : (n == 0) ≡ true = ground arith in rw t λ o q. ground arith
    | no ne ↦
        let t : (n == 0) ≡ false = ground arith in
        let r : (n + 3) / 4 * 4 ≡ 4 = omega arith in
        rw (t, r, partial-word (buf + i) n mem h (omega arith) k)
          (store_lem offset buf i (padded (buf + i + n) mem) s (padded-AreBytes (buf + i + n) mem h)
            (p (offset + i) (omega arith) (omega arith)) a)
  ]

  -- A buffer that is written as a whole: its bytes, and zeros up to the next whole word.
  pub write_all_lem :
      (offset buf blocks words n : ℕ) (mem : Memory) (s : S)
      → AreBytes mem
      → offset % 4 ≡ 0
      → n < 4
      → let done = blocks * 16 + words * 4 in
        ArePlain bus Plain regs base offset (offset + done + n)
        → let (_, s1) = write_blocks bus blocks base offset buf mem s in
          let (_, s2) =
            write_words bus words base (offset + blocks * 16) (buf + blocks * 16) mem s1 in
          let (_, s3) = write_rest bus base (offset + done) (buf + done) n mem s2 in
          IsWritten bus Plain regs base offset buf
            (padded (buf + (done + n)) mem)
            0
            (done + (n + 3) / 4 * 4)
            s
            s3
  write_all_lem offset buf blocks words n mem s h a k p =
      let done = blocks * 16 + words * 4 in
      let end = buf + (done + n) in
      let z0 : offset + 0 ≡ offset = omega arith in
      let z1 : buf + 0 ≡ buf = omega arith in
      let z2 : 0 + blocks * 4 * 4 ≡ blocks * 16 = omega arith in
      let e : buf + done + n ≡ end = omega arith in
      let w1 =
        write_words_lem (blocks * 4) offset buf 0 end mem s h
          (λ o x y. p o (omega arith) (omega arith)) (omega arith) (omega arith) in
      let w2 =
        write_words_lem words offset buf (blocks * 16) end mem
          (write_blocks bus blocks base offset buf mem s).1 h
          (λ o x y. p o (omega arith) (omega arith)) (omega arith) (omega arith) in
      let w3 =
        write_rest_lem offset buf done n mem
          (write_words bus words base (offset + blocks * 16) (buf + blocks * 16) mem
            (write_blocks bus blocks base offset buf mem s).1).1
          h (omega arith) k (λ o x y. p o (omega arith) (omega arith)) in
      let w1' = rw (z0, z1, z2, ← write_blocks_lem blocks offset buf mem) at w1 in
      IsWritten-compose bus Plain regs base offset buf (padded end mem) 0 done
        (done + (n + 3) / 4 * 4) s _ _ (omega arith) (omega arith)
        (IsWritten-compose bus Plain regs base offset buf (padded end mem) 0 (blocks * 16) done s _
          _ (omega arith) (omega arith) (λ o q. ground (arith, w1' o q)) w2)
        (rw e at w3)
