-- ===== src/Memory/Compare/Forward.antt =====
-- `memcmp` finds the first difference.
use sunburst_chip.Base.{
  ℕ, zero, suc, ◌+◌, ◌-◌, ◌*◌, ◌/◌, ◌<◌, ◌≡◌, refl, arith, inl, inr, ℤ, ℕ_discrete, dec_lt,
}
use sunburst_chip.Memory.{
  Memory, bswap32, read_32, ordered, cmp_eq, compute_alignment, compare_bytes, compare_words,
  memcmp,
}
use sunburst_chip.Memory.Words.{AreBytes, IsSplit, compute_alignment-IsSplit}
use sunburst_chip.Memory.Compare.{
  Agree, IsFirstDifference, ordered-word_of, bswap32-word_of, ordered_at,
}

module _ (mem : Memory) (lhs rhs : ℕ) (bytes : AreBytes mem) where
  abbrev at : ℕ → ℤ → ℤ
  at = ordered_at mem lhs rhs

  forward_word :
      (i : ℕ) (rest : ℤ)
      → ordered (bswap32 (read_32 mem (lhs + i))) (bswap32 (read_32 mem (rhs + i))) rest
        ≡ at i (at (i + 1) (at (i + 2) (at (i + 3) rest)))
  unfolding read_32
  forward_word i rest =
      let l = lhs + i in
      let r = rhs + i in
      let s =
        bswap32-word_of (mem l) (mem (l + 1)) (mem (l + 2)) (mem (l + 3)) (bytes l) (bytes (l + 1))
          (bytes (l + 2)) (bytes (l + 3)) in
      let t =
        bswap32-word_of (mem r) (mem (r + 1)) (mem (r + 2)) (mem (r + 3)) (bytes r) (bytes (r + 1))
          (bytes (r + 2)) (bytes (r + 3)) in
      let o =
        ordered-word_of (mem (l + 3)) (mem (l + 2)) (mem (l + 1)) (mem l) (mem (r + 3))
          (mem (r + 2)) (mem (r + 1)) (mem r) rest (bytes _) (bytes _) (bytes _) (bytes _) (bytes _)
          (bytes _) (bytes _) (bytes _) in
      let l1 : l + 1 ≡ lhs + (i + 1) = omega arith in
      let l2 : l + 2 ≡ lhs + (i + 2) = omega arith in
      let l3 : l + 3 ≡ lhs + (i + 3) = omega arith in
      let r1 : r + 1 ≡ rhs + (i + 1) = omega arith in
      let r2 : r + 2 ≡ rhs + (i + 2) = omega arith in
      let r3 : r + 3 ≡ rhs + (i + 3) = omega arith in rw (s, t, o, l1, l2, l3, r1, r2, r3) refl

  forward_words :
      (left i : ℕ) (rest : ℤ)
      → compare_words mem lhs rhs i left rest ≡ compare_bytes mem lhs rhs i (left * 4) rest
  unfolding compare_words compare_bytes
  forward_words zero i rest = refl
  forward_words (suc left) i rest =
      let e : suc left * 4 ≡ suc (suc (suc (suc (left * 4)))) = omega arith in
      let i2 : i + 1 + 1 ≡ i + 2 = omega arith in
      let i3 : i + 2 + 1 ≡ i + 3 = omega arith in
      let i4 : i + 3 + 1 ≡ i + 4 = omega arith in
      rw (e, i2, i3, i4, forward_word i, forward_words left (i + 4) rest) refl

  forward-append :
      (m n i : ℕ) (rest : ℤ)
      → compare_bytes mem lhs rhs i m (compare_bytes mem lhs rhs (i + m) n rest)
        ≡ compare_bytes mem lhs rhs i (m + n) rest
  unfolding compare_bytes
  forward-append zero n i rest =
      let z : i + 0 ≡ i = omega arith in let y : 0 + n ≡ n = omega arith in rw (z, y) refl
  forward-append (suc m) n i rest =
      let e : i + suc m ≡ i + 1 + m = omega arith in
      let f : suc m + n ≡ suc (m + n) = omega arith in
      rw (e, f, forward-append m n (i + 1) rest) refl

  -- The comparison at `i` put before a comparison of what follows.
  extend :
      (hi i : ℕ) (out : ℤ)
      → i < hi
      → IsFirstDifference mem lhs rhs (i + 1) hi out
      → IsFirstDifference mem lhs rhs i hi (at i out)
  extend hi i out h d = elim (dec_lt (mem (lhs + i)) (mem (rhs + i))) [
    | yes p ↦ inr (i, omega arith, h, (λ j u v. absurd (omega arith)), inl (p, ground arith))
    | no p ↦ elim (dec_lt (mem (rhs + i)) (mem (lhs + i))) [
      | yes q ↦ inr (i, omega arith, h, (λ j u v. absurd (omega arith)), inr (q, ground arith))
      | no q ↦
          let same : mem (lhs + i) ≡ mem (rhs + i) = omega arith in
          let skip : at i out ≡ out = ground arith in
          rw skip (elim d [
            | inl (agree, e) ↦ inl (longer hi agree same, e)
            | inr (k, lo, up, agree, differs) ↦
                inr (k, omega arith, up, longer k agree same, differs)
          ])
    ]
  ]
    where
      longer :
          (top : ℕ)
          → Agree mem lhs rhs (i + 1) top
          → mem (lhs + i) ≡ mem (rhs + i)
          → Agree mem lhs rhs i top
      longer top agree same j u v = elim (ℕ_discrete j i) [
        | yes e ↦ rw e same
        | no ne ↦ agree j (omega arith) v
      ]

  bytewise :
      (n i : ℕ) → IsFirstDifference mem lhs rhs i (i + n) (compare_bytes mem lhs rhs i n cmp_eq)
  unfolding compare_bytes
  bytewise zero i = inl ((λ j p q. absurd (omega arith)), refl)
  bytewise (suc n) i =
      let e : i + suc n ≡ i + 1 + n = omega arith in
      rw e (
        extend (i + 1 + n) i (compare_bytes mem lhs rhs (i + 1) n cmp_eq) (omega arith)
          (bytewise n (i + 1)))

  -- The three loops, at any split of the buffers.
  loops_lem :
      (len body tail : ℕ)
      → IsSplit len (body, tail)
      → compare_bytes mem lhs rhs 0 body (
          compare_words mem lhs rhs body
            ((tail - body) / 4)
            (compare_bytes mem lhs rhs tail (len - tail) cmp_eq))
        ≡ compare_bytes mem lhs rhs 0 len cmp_eq
  loops_lem len body tail (p, q, e) =
      let n = (tail - body) / 4 * 4 in
      let w =
        forward_words ((tail - body) / 4) body
          (compare_bytes mem lhs rhs tail (len - tail) cmp_eq) in
      let a : compare_bytes mem lhs rhs body n (compare_bytes mem lhs rhs tail (len - tail) cmp_eq)
          ≡ compare_bytes mem lhs rhs body (n + (len - tail)) cmp_eq =
        rw e at (forward-append n (len - tail) body cmp_eq) in
      let z : 0 + body ≡ body = omega arith in
      let b : compare_bytes mem lhs rhs 0 body
            (compare_bytes mem lhs rhs body (n + (len - tail)) cmp_eq)
          ≡ compare_bytes mem lhs rhs 0 (body + (n + (len - tail))) cmp_eq =
        rw z at (forward-append body (n + (len - tail)) 0 cmp_eq) in
      let y : body + (n + (len - tail)) ≡ len = omega arith in rw (w, a, b, y) refl

  -- In a memory of bytes, `memcmp` answers that the buffers are equal where all their bytes agree,
  -- and else by the first bytes that differ: less where the left one is the lower, greater where
  -- the right one is.
  memcmp_lem : (len : ℕ) → IsFirstDifference mem lhs rhs 0 len (memcmp mem lhs rhs len)
  unfolding memcmp
  memcmp_lem len =
      let (body, tail) = compute_alignment lhs rhs len in
      let z : 0 + len ≡ len = omega arith in
      rw (loops_lem len body tail (compute_alignment-IsSplit lhs rhs len))
        (rw z at (bytewise len 0))
