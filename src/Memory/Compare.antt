-- ===== src/Memory/Compare.antt =====
-- What comparing two buffers means: their first and their last difference; and how words compare.
pub mod Forward
pub mod Backward
use sunburst_chip.Base.{
  ℕ, zero, suc, ◌+◌, ◌-◌, ◌*◌, ◌/◌, ◌%◌, ◌^◌, ◌≤◌, ◌<◌, ◌≡◌, ◌≢◌, refl, arith, ◌∙◌, ap, ◌⊎◌, inl,
  inr, Bool, true, false, if◌then◌else◌, ltb, leb, ◌==◌, ℤ, pos, negsuc, ℕ_discrete,
}
use sunburst_chip.Memory.{
  Memory, byte_at, word_of, bswap32, read_32, ordered, cmp_eq, cmp_lt, cmp_gt, compute_alignment,
  compare_bytes, compare_words, memcmp, compare_bytes_down, compare_words_down, memrcmp,
}
use sunburst_chip.Memory.Words.{AreBytes, IsSplit, compute_alignment-IsSplit}

-- The bytes at the indices from `lo` up to `hi` are the same.
abbrev pub Agree : Memory → ℕ → ℕ → ℕ → ℕ → Type 0
Agree mem lhs rhs lo hi = (j : ℕ) → lo ≤ j → j < hi → mem (lhs + j) ≡ mem (rhs + j)

-- The bytes at index `k` differ, and the result tells which is the lower one.
abbrev pub DiffersAt : Memory → ℕ → ℕ → ℤ → ℕ → Type 0
DiffersAt mem lhs rhs out k =
    ((mem (lhs + k) < mem (rhs + k)) × (out ≡ cmp_lt))
    ⊎ ((mem (rhs + k) < mem (lhs + k)) × (out ≡ cmp_gt))

-- All bytes agree, or the result is that of the first difference, or of the last one.
abbrev pub IsFirstDifference : Memory → ℕ → ℕ → ℕ → ℕ → ℤ → Type 0
IsFirstDifference mem lhs rhs lo hi out =
    (Agree mem lhs rhs lo hi × (out ≡ cmp_eq))
    ⊎ ((k : ℕ) × (lo ≤ k) × (k < hi) × Agree mem lhs rhs lo k × DiffersAt mem lhs rhs out k)

abbrev pub IsLastDifference : Memory → ℕ → ℕ → ℕ → ℤ → Type 0
IsLastDifference mem lhs rhs hi out =
    (Agree mem lhs rhs 0 hi × (out ≡ cmp_eq))
    ⊎ ((k : ℕ) × (k < hi) × Agree mem lhs rhs (k + 1) hi × DiffersAt mem lhs rhs out k)

-- Two words that are read compare as their bytes do, the highest first.
pub ordered-word_of :
    (a0 a1 a2 a3 b0 b1 b2 b3 : ℕ) (rest : ℤ)
    → a0 < 2 ^ 8
    → a1 < 2 ^ 8
    → a2 < 2 ^ 8
    → a3 < 2 ^ 8
    → b0 < 2 ^ 8
    → b1 < 2 ^ 8
    → b2 < 2 ^ 8
    → b3 < 2 ^ 8
    → ordered (word_of a0 a1 a2 a3) (word_of b0 b1 b2 b3) rest
      ≡ ordered a3 b3 (ordered a2 b2 (ordered a1 b1 (ordered a0 b0 rest)))
ordered-word_of a0 a1 a2 a3 b0 b1 b2 b3 rest p0 p1 p2 p3 q0 q1 q2 q3 = ground arith

pub bswap32-word_of :
    (a b c d : ℕ)
    → a < 2 ^ 8
    → b < 2 ^ 8
    → c < 2 ^ 8
    → d < 2 ^ 8
    → bswap32 (word_of a b c d) ≡ word_of d c b a
bswap32-word_of a b c d pa pb pc pd =
    let w = word_of a b c d in
    let e0 : byte_at w 0 ≡ a = omega arith in
    let e1 : byte_at w 1 ≡ b = omega arith in
    let e2 : byte_at w 2 ≡ c = omega arith in
    let e3 : byte_at w 3 ≡ d = omega arith in rw (e0, e1, e2, e3) refl

-- One comparison where nothing follows gives what the bytes show.
abbrev pub ordered_at : Memory → ℕ → ℕ → ℕ → ℤ → ℤ
ordered_at mem lhs rhs i rest = ordered (mem (lhs + i)) (mem (rhs + i)) rest
