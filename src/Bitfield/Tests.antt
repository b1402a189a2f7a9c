-- ===== src/Bitfield/Tests.antt =====
-- Fields and bits of chosen words.
use sunburst_chip.Base.{ℕ, ◌≡◌, refl, arith, bit_and}
use sunburst_chip.Bitfield.{Field32, field32_read, field32_write}
use sunburst_chip.Bitfield.{bit32_copy}
use sunburst_chip.Bitfield.Laws.{field32_laws}
use sunburst_chip.Bitfield.Bit.{Disjoint-of_masks}

abbrev word : ℕ
word = 0xdeadbeef

abbrev low : Field32
low = record { mask = 0xff; index = 4 }

abbrev high : Field32
high = record { mask = 0xfff; index = 20 }

write_runs : field32_write word low 0x12 ≡ 0xdeadb12f
unfolding field32_write
write_runs = refl

copy_runs : bit32_copy 0 31 word 0 ≡ 0x80000000
unfolding bit32_copy
copy_runs = refl

field32_laws_example :
    (field32_read (field32_write word low 0x345) low ≡ bit_and 0x345 0xff)
    × (field32_write word low (field32_read word low) ≡ word)
    × (field32_write (field32_write word low 0x12) low 0x345 ≡ field32_write word low 0x345)
    × (field32_read (field32_write word low 0x345) high ≡ field32_read word high)
    × (field32_write (field32_write word low 0x345) high 0x12
        ≡ field32_write (field32_write word high 0x12) low 0x345)
field32_laws_example =
    field32_laws word low high 0x12 0x345 (omega arith) (omega arith) (omega arith)
      (Disjoint-of_masks low high refl)
