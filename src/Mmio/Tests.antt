-- ===== src/Mmio/Tests.antt =====
-- Copies between the counting memory of bytes and a region of memory words.
use sunburst_chip.Base.{ℕ, ◌%◌, ◌^◌, ◌≡◌, refl, arith, ◌*◌}
use sunburst_chip.Memory.{Memory}
use sunburst_chip.Memory.Words.{AreBytes}
use sunburst_chip.Mmio.Registers.{memory, memory-IsRegisterFile}
use sunburst_chip.Mmio.Transfer.{memcpy_to_mmio32, memcpy_from_mmio32}
use sunburst_chip.Mmio.Transfer.Write.{IsWritten, memcpy_to_mmio32_lem}
use sunburst_chip.Mmio.Transfer.Read.{IsRead, memcpy_from_mmio32_lem}

abbrev counting : Memory
counting a = a % 2 ^ 8

counting-AreBytes : AreBytes counting
counting-AreBytes a = omega arith

abbrev All : ℕ → Type 0
All a = a ≡ a

abbrev words : ℕ → ℕ
words a = a * 0x10203

memcpy_to_mmio32_lem_example :
    let (mem', s') = memcpy_to_mmio32 memory 0x1000 0x803 0x2001 9 counting words in
    (mem' ≡ counting)
    × IsWritten memory All (memory-IsRegisterFile All) 0x1000 0x803 0x2001 counting 0 9 words s'
memcpy_to_mmio32_lem_example =
    memcpy_to_mmio32_lem memory All (memory-IsRegisterFile All) 0x1000 0x803 0x2001 9 counting words
      counting-AreBytes (λ o x y. refl) (λ h. omega arith)

memcpy_from_mmio32_lem_example :
    let (mem', s') = memcpy_from_mmio32 memory 0x1000 0x803 0x2001 9 counting words in
    (s' ≡ words)
    × IsRead memory All (memory-IsRegisterFile All) 0x1000 0x803 0x2001 words 0 9 counting mem'
memcpy_from_mmio32_lem_example =
    memcpy_from_mmio32_lem memory All (memory-IsRegisterFile All) 0x1000 0x803 0x2001 9 counting
      words (λ o x y. refl) (λ h. omega arith)
