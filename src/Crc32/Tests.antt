-- ===== src/Crc32/Tests.antt =====
-- The check value of CRC-32, and buffers at chosen addresses.
use sunburst_chip.Base.{ℕ, ◌≡◌, refl, arith, List, [], ◌∷◌, ◌++◌}
use sunburst_chip.Crc32.{
  add8, add32, add_head, add_body, add_tail, crc32_add, crc32_init, crc32_finish, crc32,
}
use sunburst_chip.Crc32.Fold.{AreBytes, fold, crc32_add_lem, crc32_add-append}

-- The characters from `1` to `9`.
abbrev digits : List ℕ
digits = 0x31 ∷ 0x32 ∷ 0x33 ∷ 0x34 ∷ 0x35 ∷ 0x36 ∷ 0x37 ∷ 0x38 ∷ 0x39 ∷ []

check_value : crc32 0x1002 digits ≡ 0xcbf43926
unfolding crc32 crc32_finish crc32_add add_head add_body add_tail add32 add8
check_value = refl

digits-AreBytes : AreBytes digits
digits-AreBytes = (
  omega arith,
  (
    omega arith,
    (
      omega arith,
      (omega arith, (omega arith, (omega arith, (omega arith, (omega arith, (omega arith, tt)))))),
    ),
  ),
)

crc32_add_lem_example : crc32_add crc32_init 0x1003 digits ≡ fold crc32_init digits
crc32_add_lem_example = crc32_add_lem crc32_init 0x1003 digits digits-AreBytes

crc32_add-append_example :
    crc32_finish (crc32_add (crc32_add crc32_init 1 digits) 2 digits) ≡ crc32 0 (digits ++ digits)
crc32_add-append_example = crc32_add-append 1 2 0 digits digits digits-AreBytes digits-AreBytes
