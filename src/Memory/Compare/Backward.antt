-- ===== src/Memory/Compare/Backward.antt =====
-- `memrcmp` finds the last difference.
use sunburst_chip.Base.{
  ℕ, zero, suc, ◌+◌, ◌-◌, ◌*◌, ◌/◌, ◌≡◌, refl, arith, inl, inr, ℤ, ℕ_discrete, dec_lt,
}
use sunburst_chip.Memory.{
  Memory, read_32, ordered, cmp_eq, compute_alignment, compare_bytes_down, compare_words_down,
  memrcmp,
}
use sunburst_chip.Memory.Words.{AreBytes, IsSplit, compute_alignment-IsSplit}
use sunburst_chip.Memory.Compare.{Agree, IsLastDifference, ordered-word_of, ordered_at}

module _ (mem : Memory) (lhs rhs : ℕ) (bytes : AreBytes mem) where
  abbrev at : ℕ → ℤ → ℤ
  at = ordered_at mem lhs rhs

  backward_word :
      (i : ℕ) (rest : ℤ)
      → ordered (read_32 mem (lhs + i)) (read_32 mem (rhs + i)) rest
        ≡ at (i + 3) (at (i + 2) (at (i + 1) (at i rest)))
  unfolding read_32
  backward_word i rest =
      let l = lhs + i in
      let r = rhs + i in
      let o =
        ordered-word_of (mem l) (mem (l + 1)) (mem (l + 2)) (mem (l + 3)) (mem r) (mem (r + 1))
          (mem (r + 2)) (mem (r + 3)) rest (bytes _) (bytes _) (bytes _) (bytes _) (bytes _)
          (bytes _) (bytes _) (bytes _) in
      let l1 : l + 1 ≡ lhs + (i + 1) = omega arith in
      let l2 : l + 2 ≡ lhs + (i + 2) = omega arith in
      let l3 : l + 3 ≡ lhs + (i + 3) = omega arith in
      let r1 : r + 1 ≡ rhs + (i + 1) = omega arith in
      let r2 : r + 2 ≡ rhs + (i + 2) = omega arith in
      let r3 : r + 3 ≡ rhs + (i + 3) = omega arith in rw (o, l1, l2, l3, r1, r2, r3) refl

  backward_words :
      (left i : ℕ) (rest : ℤ)
      → compare_words_down mem lhs rhs (i + left * 4) left rest
        ≡ compare_bytes_down mem lhs rhs (i + left * 4) (left * 4) rest
  unfolding compare_words_down compare_bytes_down
  backward_words zero i rest = refl
  backward_words (suc left) i rest =
      let b = i + left * 4 in
      let e : suc left * 4 ≡ suc (suc (suc (suc (left * 4)))) = omega arith in
      let f : i + suc (suc (suc (suc (left * 4)))) ≡ b + 4 = omega arith in
      let d0 : b + 4 - 4 ≡ b = omega arith in
      let d1 : b + 4 - 1 ≡ b + 3 = omega arith in
      let d2 : b + 3 - 1 ≡ b + 2 = omega arith in
      let d3 : b + 2 - 1 ≡ b + 1 = omega arith in
      let d4 : b + 1 - 1 ≡ b = omega arith in
      rw (e, f, d0, d1, d2, d3, d4, backward_word b, backward_words left i rest) refl

  backward-append :
      (m n end : ℕ) (rest : ℤ)
      → compare_bytes_down mem lhs rhs end m (compare_bytes_down mem lhs rhs (end - m) n rest)
        ≡ compare_bytes_down mem lhs rhs end (m + n) rest
  unfolding compare_bytes_down
  backward-append zero n end rest =
      let z : end - 0 ≡ end = omega arith in let y : 0 + n ≡ n = omega arith in rw (z, y) refl
  backward-append (suc m) n end rest =
      let e : end - suc m ≡ end - 1 - m = omega arith in
      let f : suc m + n ≡ suc (m + n) = omega arith in
      rw (e, f, backward-append m n (end - 1) rest) refl

  -- The comparison at `i` put before a comparison of what lies below it.
  extend :
      (i : ℕ) (out : ℤ)
      → IsLastDifference mem lhs rhs i out
      → IsLastDifference mem lhs rhs (i + 1) (at i out)
  extend i out d = elim (dec_lt (mem (lhs + i)) (mem (rhs + i))) [
    | yes p ↦ inr (i, omega arith, (λ j u v. absurd (omega arith)), inl (p, ground arith))
    | no p ↦ elim (dec_lt (mem (rhs + i)) (mem (lhs + i))) [
      | yes q ↦ inr (i, omega arith, (λ j u v. absurd (omega arith)), inr (q, ground arith))
      | no q ↦
          let same : mem (lhs + i) ≡ mem (rhs + i) = omega arith in
          let skip : at i out ≡ out = ground arith in
          rw skip (elim d [
            | inl (agree, e) ↦ inl (longer 0 agree same, e)
            | inr (k, up, agree, differs) ↦ inr (k, omega arith, longer (k + 1) agree same, differs)
          ])
    ]
  ]
    where
      longer :
          (bottom : ℕ)
          → Agree mem lhs rhs bottom i
          → mem (lhs + i) ≡ mem (rhs + i)
          → Agree mem lhs rhs bottom (i + 1)
      longer bottom agree same j u v = elim (ℕ_discrete j i) [
        | yes e ↦ rw e same
        | no ne ↦ agree j u (omega arith)
      ]

  bytewise : (n : ℕ) → IsLastDifference mem lhs rhs n (compare_bytes_down mem lhs rhs n n cmp_eq)
  unfolding compare_bytes_down
  bytewise zero = inl ((λ j p q. absurd (omega arith)), refl)
  bytewise (suc n) =
      let d : suc n - 1 ≡ n = omega arith in
      let e : n + 1 ≡ suc n = omega arith in
      rw d (rw e at (extend n (compare_bytes_down mem lhs rhs n n cmp_eq) (bytewise n)))

  -- The three loops, at any split of the buffers.
  loops_lem :
      (len body tail : ℕ)
      → IsSplit len (body, tail)
      → compare_bytes_down mem lhs rhs len (len - tail) (
          compare_words_down mem lhs rhs tail
            ((tail - body) / 4)
            (compare_bytes_down mem lhs rhs body body cmp_eq))
        ≡ compare_bytes_down mem lhs rhs len len cmp_eq
  loops_lem len body tail (p, q, e) =
      let n = (tail - body) / 4 * 4 in
      let low = compare_bytes_down mem lhs rhs body body cmp_eq in
      let w : compare_words_down mem lhs rhs tail ((tail - body) / 4) low
          ≡ compare_bytes_down mem lhs rhs tail n low =
        rw e at (backward_words ((tail - body) / 4) body low) in
      let d : tail - n ≡ body = omega arith in
      let a : compare_bytes_down mem lhs rhs tail n low
          ≡ compare_bytes_down mem lhs rhs tail (n + body) cmp_eq =
        rw d at (backward-append n body tail cmp_eq) in
      let f : n + body ≡ tail = omega arith in
      let g : len - (len - tail) ≡ tail = omega arith in
      let b : compare_bytes_down mem lhs rhs len (len - tail)
            (compare_bytes_down mem lhs rhs tail tail cmp_eq)
          ≡ compare_bytes_down mem lhs rhs len (len - tail + tail) cmp_eq =
        rw g at (backward-append (len - tail) tail len cmp_eq) in
      let y : len - tail + tail ≡ len = omega arith in rw (w, a, f, b, y) refl

  -- `memrcmp` answers by the last bytes in which the two buffers differ.
  memrcmp_lem : (len : ℕ) → IsLastDifference mem lhs rhs len (memrcmp mem lhs rhs len)
  unfolding memrcmp
  memrcmp_lem len =
      let (body, tail) = compute_alignment lhs rhs len in
      rw (loops_lem len body tail (compute_alignment-IsSplit lhs rhs len)) (bytewise len)
