-- ===== src/Memory/Search/Backward.antt =====
-- `memrchr` finds the last byte.
use sunburst_chip.Base.{
  ℕ, zero, suc, ◌+◌, ◌-◌, ◌*◌, ◌/◌, ◌%◌, ◌^◌, ◌<◌, ◌≡◌, ◌≢◌, refl, arith, ◌∙◌, ap, inl, inr,
  if◌then◌else◌, ◌==◌, Option, none, some, ℕ_discrete, bit_xor,
}
use sunburst_chip.Bitfield.{not32}
use sunburst_chip.Memory.{
  Memory, read_32, is_match, repeat_byte_to_u32, compute_alignment, find_bytes_down,
  find_words_down, memrchr,
}
use sunburst_chip.Memory.Words.{AreBytes, IsSplit, compute_alignment-IsSplit}
use sunburst_chip.Memory.Search.{Absent, IsLast}
use sunburst_chip.Memory.Search.Match.{is_match-read_32}

module _ (mem : Memory) (ptr value : ℕ) (bytes : AreBytes mem) (small : value < 2 ^ 8) where
  match_at :
      (i k : ℕ)
      → k < 4
      → is_match (not32 (bit_xor (read_32 mem (ptr + i)) (repeat_byte_to_u32 value))) k
        ≡ (mem (ptr + (i + k)) == value)
  match_at i k h =
      let e : ptr + i + k ≡ ptr + (i + k) = omega arith in
      is_match-read_32 mem (ptr + i) value k bytes small h ∙ ap (λ a. mem a == value) e

  backward_words :
      (left i : ℕ) (rest : Option ℕ)
      → find_words_down mem ptr (repeat_byte_to_u32 value) (i + left * 4) left rest
        ≡ find_bytes_down mem ptr value (i + left * 4) (left * 4) rest
  unfolding find_words_down find_bytes_down
  backward_words zero i rest = refl
  backward_words (suc left) i rest =
      let b = i + left * 4 in
      let e : suc left * 4 ≡ suc (suc (suc (suc (left * 4)))) = omega arith in
      let f : i + suc (suc (suc (suc (left * 4)))) ≡ b + 4 = omega arith in
      let d0 : b + 4 - 4 ≡ b = omega arith in
      let d1 : b + 4 - 1 ≡ b + 3 = omega arith in
      let d2 : b + 3 - 1 ≡ b + 2 = omega arith in
      let d3 : b + 2 - 1 ≡ b + 1 = omega arith in
      let d4 : b + 1 - 1 ≡ b = omega arith in
      let b0 : b + 0 ≡ b = omega arith in
      let m0 : is_match (not32 (bit_xor (read_32 mem (ptr + b)) (repeat_byte_to_u32 value))) 0
          ≡ (mem (ptr + b) == value) =
        match_at b 0 (omega arith) ∙ ap (λ t. mem (ptr + t) == value) b0 in
      rw
        (
          e,
          f,
          d0,
          d1,
          d2,
          d3,
          d4,
          m0,
          match_at b 1 (omega arith),
          match_at b 2 (omega arith),
          match_at b 3 (omega arith),
          backward_words left i rest,
        )
        refl

  backward-append :
      (m n end : ℕ) (rest : Option ℕ)
      → find_bytes_down mem ptr value end m (find_bytes_down mem ptr value (end - m) n rest)
        ≡ find_bytes_down mem ptr value end (m + n) rest
  unfolding find_bytes_down
  backward-append zero n end rest =
      let z : end - 0 ≡ end = omega arith in let y : 0 + n ≡ n = omega arith in rw (z, y) refl
  backward-append (suc m) n end rest =
      let e : end - suc m ≡ end - 1 - m = omega arith in
      let f : suc m + n ≡ suc (m + n) = omega arith in
      rw (e, f, backward-append m n (end - 1) rest) refl

  -- The test at `i` put before a search of what lies below it.
  extend :
      (i : ℕ) (out : Option ℕ)
      → IsLast mem ptr value i out
      → IsLast mem ptr value (i + 1) (if mem (ptr + i) == value then some i else out)
  extend i out d = elim (ℕ_discrete (mem (ptr + i)) value) [
    | yes p ↦ inr (i, omega arith, p, (λ j u v. absurd (omega arith)), ground arith)
    | no p ↦
        let skip : (if mem (ptr + i) == value then some i else out) ≡ out = ground arith in
        rw skip (elim d [
          | inl (away, e) ↦ inl (longer 0 away p, e)
          | inr (k, up, found, away, e) ↦ inr (k, omega arith, found, longer (k + 1) away p, e)
        ])
  ]
    where
      longer :
          (bottom : ℕ)
          → Absent mem ptr value bottom i
          → mem (ptr + i) ≢ value
          → Absent mem ptr value bottom (i + 1)
      longer bottom away p j u v = elim (ℕ_discrete j i) [
        | yes e ↦ rw e p
        | no ne ↦ away j u (omega arith)
      ]

  bytewise : (n : ℕ) → IsLast mem ptr value n (find_bytes_down mem ptr value n n none)
  unfolding find_bytes_down
  bytewise zero = inl ((λ j p q. absurd (omega arith)), refl)
  bytewise (suc n) =
      let d : suc n - 1 ≡ n = omega arith in
      let e : n + 1 ≡ suc n = omega arith in
      rw d (rw e at (extend n (find_bytes_down mem ptr value n n none) (bytewise n)))

  -- The three loops, at any split of the buffer.
  loops_lem :
      (len body tail : ℕ)
      → IsSplit len (body, tail)
      → find_bytes_down mem ptr value len (len - tail) (
          find_words_down mem ptr
            (repeat_byte_to_u32 value)
            tail
            ((tail - body) / 4)
            (find_bytes_down mem ptr value body body none))
        ≡ find_bytes_down mem ptr value len len none
  loops_lem len body tail (p, q, e) =
      let n = (tail - body) / 4 * 4 in
      let low = find_bytes_down mem ptr value body body none in
      let w : find_words_down mem ptr (repeat_byte_to_u32 value) tail ((tail - body) / 4) low
          ≡ find_bytes_down mem ptr value tail n low =
        rw e at (backward_words ((tail - body) / 4) body low) in
      let d : tail - n ≡ body = omega arith in
      let a : find_bytes_down mem ptr value tail n low
          ≡ find_bytes_down mem ptr value tail (n + body) none =
        rw d at (backward-append n body tail none) in
      let f : n + body ≡ tail = omega arith in
      let g : len - (len - tail) ≡ tail = omega arith in
      let b : find_bytes_down mem ptr value len (len - tail)
            (find_bytes_down mem ptr value tail tail none)
          ≡ find_bytes_down mem ptr value len (len - tail + tail) none =
        rw g at (backward-append (len - tail) tail len none) in
      let y : len - tail + tail ≡ len = omega arith in rw (w, a, f, b, y) refl

-- `memrchr` answers the last index whose byte is the low byte of the value.
memrchr_lem :
    (mem : Memory) (ptr value len : ℕ)
    → AreBytes mem
    → IsLast mem ptr (value % 2 ^ 8) len (memrchr mem ptr value len)
unfolding memrchr
memrchr_lem mem ptr value len bytes =
    let (body, tail) = compute_alignment ptr 0 len in
    let v = value % 2 ^ 8 in
    rw (loops_lem mem ptr v bytes (omega arith) len body tail (compute_alignment-IsSplit ptr 0 len))
      (bytewise mem ptr v bytes (omega arith) len)
