-- ===== src/Print/HexDump.antt =====
-- What `hex_dump` prints, whatever its buffering.
use mathlib.Core.List.{append_assoc}
use sunburst_chip.Base.{
  ℕ, zero, suc, ◌+◌, ◌-◌, ◌≤◌, ◌<◌, ◌≡◌, refl, sym, ap, ap₂, ◌∙◌, arith, ◌==◌, ltb, if◌then◌else◌,
  Bool, false, List, [], ◌∷◌, ◌++◌, length, length-append, get_or, ℕ_discrete, Bool-cases, inl, inr,
}
use sunburst_chip.Print.{Calls, replicate, hex_pad_loop, hex_pair, hex_bytes_loop, hex_dump}
use sunburst_chip.Uart.Stream.Transmit.{slice}

-- The bytes of calls, one call after the other.
abbrev pub concat : Calls → List ℕ
concat [] = []
concat (c ∷ cs) = c ++ concat cs

pub concat-append : (a b : Calls) → concat (a ++ b) ≡ concat a ++ concat b
concat-append [] b = refl
concat-append (c ∷ a) b =
    ap (λ t. c ++ t) (concat-append a b) ∙ sym (append_assoc c (concat a) (concat b))

-- The two digits of each byte.
abbrev pub hex_text : List ℕ → List ℕ → List ℕ
hex_text glyphs [] = []
hex_text glyphs (b ∷ bytes) = hex_pair glyphs b ++ hex_text glyphs bytes

abbrev pub reverse : List ℕ → List ℕ
reverse [] = []
reverse (b ∷ bytes) = reverse bytes ++ (b ∷ [])

length-reverse : (bytes : List ℕ) → length (reverse bytes) ≡ length bytes
length-reverse [] = refl
length-reverse (b ∷ bytes) =
    omega (arith, length-append (reverse bytes) (b ∷ []), length-reverse bytes)

get_or_left : (xs ys : List ℕ) (i : ℕ) → i < length xs → get_or (xs ++ ys) i 0 ≡ get_or xs i 0
get_or_left [] ys i h = absurd (omega arith)
get_or_left (x ∷ xs) ys zero h = refl
get_or_left (x ∷ xs) ys (suc i) h = get_or_left xs ys i (omega arith)

get_or_last : (xs : List ℕ) (b : ℕ) → get_or (xs ++ (b ∷ [])) (length xs) 0 ≡ b
get_or_last [] b = refl
get_or_last (x ∷ xs) b = get_or_last xs b

get_or-reverse :
    (bytes : List ℕ) (i : ℕ)
    → i < length bytes
    → get_or (reverse bytes) i 0 ≡ get_or bytes (length bytes - i - 1) 0
get_or-reverse [] i h = absurd (omega arith)
get_or-reverse (b ∷ bytes) i h = elim (ℕ_discrete i (length bytes)) [
  | yes e ↦
      let last : i ≡ length (reverse bytes) = e ∙ sym (length-reverse bytes) in
      let first : suc (length bytes) - i - 1 ≡ 0 = omega arith in
      ap (λ k. get_or (reverse bytes ++ (b ∷ [])) k 0) last
      ∙ get_or_last (reverse bytes) b
      ∙ ap (λ k. get_or (b ∷ bytes) k 0) (sym first)
  | no ne ↦
      let later : suc (length bytes) - i - 1 ≡ suc (length bytes - i - 1) = omega arith in
      get_or_left (reverse bytes) (b ∷ []) i (omega (arith, length-reverse bytes))
      ∙ get_or-reverse bytes i (omega arith)
      ∙ ap (λ k. get_or (b ∷ bytes) k 0) (sym later)
]

replicate-append :
    (n m padding : ℕ) → replicate n padding ++ replicate m padding ≡ replicate (n + m) padding
replicate-append zero m padding = ap (λ k. replicate k padding) {x = m} {y = 0 + m} (omega arith)
replicate-append (suc n) m padding =
    ap (λ t. padding ∷ t) (replicate-append n m padding)
    ∙ ap (λ k. replicate k padding) {x = suc (n + m)} {y = suc n + m} (omega arith)

hex_pad_loop_lem :
    (fuel width padding : ℕ)
    → width ≤ fuel
    → concat (hex_pad_loop fuel width padding) ≡ replicate width padding
unfolding hex_pad_loop
hex_pad_loop_lem zero width padding h =
    ap (λ k. replicate k padding) {x = 0} {y = width} (omega arith)
hex_pad_loop_lem (suc fuel) width padding h = elim (Bool-cases (width == 0)) [
  | inl e ↦ rw e (ap (λ k. replicate k padding) {x = 0} {y = width} (ground arith))
  | inr e ↦
      let n = if ltb 32 width then 32 else width in
      let all : n + (width - n) ≡ width = ground arith in
      let fewer : width - n ≤ fuel = ground arith in
      rw e (
        ap (λ t. replicate n padding ++ t) (hex_pad_loop_lem fuel (width - n) padding fewer)
        ∙ replicate-append n (width - n) padding
        ∙ ap (λ k. replicate k padding) all)
]

slice_shift : (n i b : ℕ) (xs : List ℕ) → slice (b ∷ xs) (i + 1) n ≡ slice xs i n
slice_shift zero i b xs = refl
slice_shift (suc n) i b xs =
    ap₂ (λ c t. c ∷ t) (ap (λ k. get_or (b ∷ xs) k 0) {x = i + 1} {y = suc i} (omega arith))
      (slice_shift n (i + 1) b xs)

slice_whole : (xs : List ℕ) → slice xs 0 (length xs) ≡ xs
slice_whole [] = refl
slice_whole (b ∷ xs) = ap (λ t. b ∷ t) (slice_shift (length xs) 0 b xs ∙ slice_whole xs)

module _ (glyphs bytes : List ℕ) (big_endian : Bool) where
  abbrev order : List ℕ
  order = if big_endian then reverse bytes else bytes

  byte_lem :
      (i : ℕ)
      → i < length bytes
      → get_or bytes (if big_endian then length bytes - i - 1 else i) 0 ≡ get_or order i 0
  byte_lem i h = elim (Bool-cases big_endian) [
    | inl e ↦ rw e (sym (get_or-reverse bytes i h))
    | inr e ↦ rw e refl
  ]

  hex_bytes_loop_lem :
      (left i : ℕ) (buf : List ℕ)
      → i + left ≤ length bytes
      → concat (hex_bytes_loop bytes (length bytes) big_endian glyphs buf i left)
        ≡ buf ++ hex_text glyphs (slice order i left)
  unfolding hex_bytes_loop
  hex_bytes_loop_lem zero i [] h = refl
  hex_bytes_loop_lem zero i (b ∷ buf) h =
      let e : (suc (length buf) == 0) ≡ false = ground arith in rw e refl
  hex_bytes_loop_lem (suc left) i buf h =
      let pair = hex_pair glyphs (get_or order i 0) in
      let rest = hex_text glyphs (slice order (i + 1) left) in
      let go = hex_bytes_loop bytes (length bytes) big_endian glyphs in
      let next = λ (buf' : List ℕ). hex_bytes_loop_lem left (i + 1) buf' (omega arith) in
      rw (byte_lem i (omega arith)) (elim (Bool-cases (length (buf ++ pair) == 32)) [
        | inl e ↦ rw e (ap (λ t. (buf ++ pair) ++ t) (next []) ∙ append_assoc buf pair rest)
        | inr e ↦ rw e (next (buf ++ pair) ∙ append_assoc buf pair rest)
      ])

  order_whole : slice order 0 (length bytes) ≡ order
  order_whole = elim (Bool-cases big_endian) [
    | inl e ↦
        rw e
          (ap (slice (reverse bytes) 0) (sym (length-reverse bytes)) ∙ slice_whole (reverse bytes))
    | inr e ↦ rw e (slice_whole bytes)
  ]

  -- What a hex dump of all the bytes of a buffer prints, over all its calls of the sink, is the
  -- padding for the part of the width that exceeds the number of bytes, then two digits for each
  -- byte, from the last byte to the first where it is big-endian.
  pub hex_dump_lem :
      (width padding : ℕ)
      → concat (hex_dump bytes (length bytes) width padding big_endian glyphs)
        ≡ replicate (width - length bytes) padding ++ hex_text glyphs order
  unfolding hex_dump
  hex_dump_lem width padding =
      let len = length bytes in
      let pad = if ltb len width then hex_pad_loop (width - len) (width - len) padding else [] in
      let padded : concat pad ≡ replicate (width - len) padding =
        elim (Bool-cases (ltb len width)) [
          | inl e ↦ rw e (hex_pad_loop_lem (width - len) (width - len) padding (omega arith))
          | inr e ↦ rw e (ap (λ k. replicate k padding) {x = 0} {y = width - len} (ground arith))
        ] in
      concat-append pad (hex_bytes_loop bytes len big_endian glyphs [] 0 len)
      ∙ ap₂ ◌++◌ padded
          (hex_bytes_loop_lem len 0 [] (omega arith) ∙ ap (hex_text glyphs) order_whole)
