-- ===== src/Memory/Tests.antt =====
-- The memory routines on a memory whose addresses count up and start again at every 256.
use sunburst_chip.Base.{◌-◌, ◌+◌, ◌%◌, ◌^◌, ◌≡◌, refl, arith, inl, if◌then◌else◌, ◌==◌, ◌||◌, some}
use sunburst_chip.Memory.{
  Memory, read_32, write_32, compute_num_leading_bytes, copy_bytes, copy_words, compare_bytes,
  compare_words, find_bytes_down, find_words_down, repeat_byte_to_u32, cmp_lt, compute_alignment,
  memcpy, memcmp, memrchr,
}
use sunburst_chip.Memory.Words.{AreBytes, within}
use sunburst_chip.Memory.Copy.{memcpy_lem}

abbrev counting : Memory
counting a = a % 2 ^ 8

counting-AreBytes : AreBytes counting
counting-AreBytes a = omega arith

alignment_runs : compute_alignment 0x1003 0x2003 14 ≡ (1, 13)
unfolding compute_alignment compute_num_leading_bytes
alignment_runs = refl

copy_runs : memcpy 0x1003 0x2003 14 counting 0x1010 ≡ 0x10
unfolding memcpy compute_alignment compute_num_leading_bytes copy_bytes copy_words write_32 read_32
copy_runs = refl

compare_runs : memcmp counting 0x1003 0x1104 9 ≡ cmp_lt
unfolding memcmp compute_alignment compute_num_leading_bytes compare_bytes compare_words read_32
compare_runs = refl

search_runs : memrchr counting 0x1003 0x0a 14 ≡ some 7
unfolding memrchr compute_alignment compute_num_leading_bytes find_bytes_down find_words_down
    read_32 repeat_byte_to_u32
search_runs = refl

memcpy_lem_example : memcpy 0x1003 0x2003 14 counting 0x1007 ≡ (
    if (0x1003 == 0 || 0x2003 == 0)
    then counting 0x1007
    else if within 0x1003 0 14 0x1007
    then counting (0x2003 + (0x1007 - 0x1003))
    else counting 0x1007)
memcpy_lem_example =
    memcpy_lem 0x1003 0x2003 14 counting 0x1007 (inl (omega arith)) counting-AreBytes
