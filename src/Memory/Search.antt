-- ===== src/Memory/Search.antt =====
-- `memchr` and `memrchr` find the first and the last byte of a value.
pub mod Match
pub mod Forward
pub mod Backward
use sunburst_chip.Base.{ℕ, ◌+◌, ◌≤◌, ◌<◌, ◌≡◌, ◌≢◌, ◌⊎◌, Option, none, some}
use sunburst_chip.Memory.{Memory}

-- No byte at the indices from `lo` up to `hi` has the value.
abbrev pub Absent : Memory → ℕ → ℕ → ℕ → ℕ → Type 0
Absent mem ptr value lo hi = (j : ℕ) → lo ≤ j → j < hi → mem (ptr + j) ≢ value

abbrev pub IsFirst : Memory → ℕ → ℕ → ℕ → ℕ → Option ℕ → Type 0
IsFirst mem ptr value lo hi out =
    (Absent mem ptr value lo hi × (out ≡ none))
    ⊎ ((k : ℕ) × (lo ≤ k)
        × (k < hi)
        × (mem (ptr + k) ≡ value)
        × Absent mem ptr value lo k
        × (out ≡ some k))

abbrev pub IsLast : Memory → ℕ → ℕ → ℕ → Option ℕ → Type 0
IsLast mem ptr value hi out =
    (Absent mem ptr value 0 hi × (out ≡ none))
    ⊎ ((k : ℕ) × (k < hi)
        × (mem (ptr + k) ≡ value)
        × Absent mem ptr value (k + 1) hi
        × (out ≡ some k))
