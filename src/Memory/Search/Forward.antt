-- ===== src/Memory/Search/Forward.antt =====
-- `memchr` finds the first byte.
use sunburst_chip.Base.{
  ℕ, zero, suc, ◌+◌, ◌-◌, ◌*◌, ◌/◌, ◌%◌, ◌^◌, ◌≤◌, ◌<◌, ◌≡◌, ◌≢◌, refl, arith, ◌∙◌, ap, ◌⊎◌, inl,
  inr, true, false, if◌then◌else◌, leb, ◌==◌, Option, none, some, ℕ_discrete, bit_xor,
}
use sunburst_chip.Bitfield.{not32}
use sunburst_chip.Memory.{
  Memory, read_32, is_match, repeat_byte_to_u32, compute_alignment, find_bytes, find_words,
  ptrdiff_max, memchr,
}
use sunburst_chip.Memory.Words.{AreBytes, IsSplit, compute_alignment-IsSplit}
use sunburst_chip.Memory.Search.{Absent, IsFirst}
use sunburst_chip.Memory.Search.Match.{is_match-read_32}

module _ (mem : Memory) (ptr value : ℕ) (bytes : AreBytes mem) (small : value < 2 ^ 8) where
  -- The test of the byte at index `i + k` in the word at index `i`.
  match_at :
      (i k : ℕ)
      → k < 4
      → is_match (not32 (bit_xor (read_32 mem (ptr + i)) (repeat_byte_to_u32 value))) k
        ≡ (mem (ptr + (i + k)) == value)
  match_at i k h =
      let e : ptr + i + k ≡ ptr + (i + k) = omega arith in
      is_match-read_32 mem (ptr + i) value k bytes small h ∙ ap (λ a. mem a == value) e

  forward_words :
      (left i : ℕ) (rest : Option ℕ)
      → find_words mem ptr (repeat_byte_to_u32 value) i left rest
        ≡ find_bytes mem ptr value i (left * 4) rest
  unfolding find_words find_bytes
  forward_words zero i rest = refl
  forward_words (suc left) i rest =
      let e : suc left * 4 ≡ suc (suc (suc (suc (left * 4)))) = omega arith in
      let i0 : i + 0 ≡ i = omega arith in
      let i2 : i + 1 + 1 ≡ i + 2 = omega arith in
      let i3 : i + 2 + 1 ≡ i + 3 = omega arith in
      let i4 : i + 3 + 1 ≡ i + 4 = omega arith in
      let m0 : is_match (not32 (bit_xor (read_32 mem (ptr + i)) (repeat_byte_to_u32 value))) 0
          ≡ (mem (ptr + i) == value) =
        match_at i 0 (omega arith) ∙ ap (λ t. mem (ptr + t) == value) i0 in
      rw
        (
          e,
          i2,
          i3,
          i4,
          m0,
          match_at i 1 (omega arith),
          match_at i 2 (omega arith),
          match_at i 3 (omega arith),
          forward_words left (i + 4) rest,
        )
        refl

  forward-append :
      (m n i : ℕ) (rest : Option ℕ)
      → find_bytes mem ptr value i m (find_bytes mem ptr value (i + m) n rest)
        ≡ find_bytes mem ptr value i (m + n) rest
  unfolding find_bytes
  forward-append zero n i rest =
      let z : i + 0 ≡ i = omega arith in let y : 0 + n ≡ n = omega arith in rw (z, y) refl
  forward-append (suc m) n i rest =
      let e : i + suc m ≡ i + 1 + m = omega arith in
      let f : suc m + n ≡ suc (m + n) = omega arith in
      rw (e, f, forward-append m n (i + 1) rest) refl

  -- The test at `i` put before a search of what follows.
  extend :
      (hi i : ℕ) (out : Option ℕ)
      → i < hi
      → IsFirst mem ptr value (i + 1) hi out
      → IsFirst mem ptr value i hi (if mem (ptr + i) == value then some i else out)
  extend hi i out h d = elim (ℕ_discrete (mem (ptr + i)) value) [
    | yes p ↦ inr (i, omega arith, h, p, (λ j u v. absurd (omega arith)), ground arith)
    | no p ↦
        let skip : (if mem (ptr + i) == value then some i else out) ≡ out = ground arith in
        rw skip (elim d [
          | inl (away, e) ↦ inl (longer hi away p, e)
          | inr (k, lo, up, found, away, e) ↦ inr (k, omega arith, up, found, longer k away p, e)
        ])
  ]
    where
      longer :
          (top : ℕ)
          → Absent mem ptr value (i + 1) top
          → mem (ptr + i) ≢ value
          → Absent mem ptr value i top
      longer top away p j u v = elim (ℕ_discrete j i) [
        | yes e ↦ rw e p
        | no ne ↦ away j (omega arith) v
      ]

  bytewise : (n i : ℕ) → IsFirst mem ptr value i (i + n) (find_bytes mem ptr value i n none)
  unfolding find_bytes
  bytewise zero i = inl ((λ j p q. absurd (omega arith)), refl)
  bytewise (suc n) i =
      let e : i + suc n ≡ i + 1 + n = omega arith in
      rw e (
        extend (i + 1 + n) i (find_bytes mem ptr value (i + 1) n none) (omega arith)
          (bytewise n (i + 1)))

  -- The three loops, for any number of words that fit.
  loops_lem :
      (len body rounds : ℕ)
      → body + rounds * 4 ≤ len
      → find_bytes mem ptr value 0 body (
          find_words mem ptr
            (repeat_byte_to_u32 value)
            body
            rounds
            (find_bytes mem ptr value (body + rounds * 4) (len - (body + rounds * 4)) none))
        ≡ find_bytes mem ptr value 0 len none
  loops_lem len body rounds p =
      let n = len - (body + rounds * 4) in
      let w = forward_words rounds body (find_bytes mem ptr value (body + rounds * 4) n none) in
      let a = forward-append (rounds * 4) n body none in
      let z : 0 + body ≡ body = omega arith in
      let b : find_bytes mem ptr value 0 body (find_bytes mem ptr value body (rounds * 4 + n) none)
          ≡ find_bytes mem ptr value 0 (body + (rounds * 4 + n)) none =
        rw z at (forward-append body (rounds * 4 + n) 0 none) in
      let y : body + (rounds * 4 + n) ≡ len = omega arith in rw (w, a, b, y) refl

rounds_fit :
    (len body tail : ℕ)
    → IsSplit len (body, tail)
    → body + ((if leb ptrdiff_max len then 0 else tail) - body) / 4 * 4 ≤ len
rounds_fit len body tail (p, q, e) = elim (leb-cases len) [
  | inl t ↦ rw t (omega arith)
  | inr t ↦ rw t (omega arith)
]
  where
    leb-cases : (n : ℕ) → (leb ptrdiff_max n ≡ true) ⊎ (leb ptrdiff_max n ≡ false)
    leb-cases n = ground arith

-- In a memory of bytes, `memchr` answers the first index of the buffer whose byte is the low byte
-- of the value, and nothing where no byte is.
memchr_lem :
    (mem : Memory) (ptr value len : ℕ)
    → AreBytes mem
    → IsFirst mem ptr (value % 2 ^ 8) 0 len (memchr mem ptr value len)
unfolding memchr
memchr_lem mem ptr value len bytes =
    let (body, tail) = compute_alignment ptr 0 len in
    let z : 0 + len ≡ len = omega arith in
    let v = value % 2 ^ 8 in
    rw
      (loops_lem mem ptr v bytes (omega arith) len body
        (((if leb ptrdiff_max len then 0 else tail) - body) / 4)
        (rounds_fit len body tail (compute_alignment-IsSplit ptr 0 len)))
      (rw z at (bytewise mem ptr v bytes (omega arith) len 0))
