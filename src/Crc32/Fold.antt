-- ===== src/Crc32/Fold.antt =====
-- The word-wise routine and the fold of its bytes.
use sunburst_chip.Base.{
  ℕ, ◌+◌, ◌^◌, ◌<◌, ◌≡◌, refl, arith, ◌∙◌, ap, u32, bit_and, Bool-cases, inl, inr, List, [], ◌∷◌,
  ◌++◌, ◌==◌,
}
use sunburst_chip.Memory.{byte_at, word_of}
use sunburst_chip.Crc32.{
  add8, add32, add_head, add_body, add_tail, crc32_add, crc32_init, crc32_finish, crc32,
}

abbrev pub AreBytes : List ℕ → Type 0
AreBytes [] = Unit
AreBytes (x ∷ xs) = (x < 2 ^ 8) × AreBytes xs

-- The bytes taken in one at a time.
abbrev pub fold : ℕ → List ℕ → ℕ
fold state [] = state
fold state (x ∷ xs) = fold (add8 state x) xs

add32_lem :
    (state a b c d : ℕ)
    → a < 2 ^ 8
    → b < 2 ^ 8
    → c < 2 ^ 8
    → d < 2 ^ 8
    → add32 state (word_of a b c d) ≡ add8 (add8 (add8 (add8 state a) b) c) d
unfolding add32
add32_lem state a b c d pa pb pc pd =
    let ea : byte_at (word_of a b c d) 0 ≡ a = omega arith in
    let eb : byte_at (word_of a b c d) 1 ≡ b = omega arith in
    let ec : byte_at (word_of a b c d) 2 ≡ c = omega arith in
    let ed : byte_at (word_of a b c d) 3 ≡ d = omega arith in rw (ea, eb, ec, ed) refl

tail_lem : (state : ℕ) (xs : List ℕ) → add_tail state xs ≡ fold state xs
unfolding add_tail
tail_lem state [] = refl
tail_lem state (x ∷ xs) = tail_lem (add8 state x) xs

-- The aligned words and the tail together.
body_lem :
    (state : ℕ) (xs : List ℕ)
    → AreBytes xs
    → add_tail (add_body state xs).0 (add_body state xs).1 ≡ fold state xs
unfolding add_body
body_lem state [] h = tail_lem state []
body_lem state (a ∷ []) h = tail_lem state (a ∷ [])
body_lem state (a ∷ b ∷ []) h = tail_lem state (a ∷ b ∷ [])
body_lem state (a ∷ b ∷ c ∷ []) h = tail_lem state (a ∷ b ∷ c ∷ [])
body_lem state (a ∷ b ∷ c ∷ d ∷ xs) (pa, (pb, (pc, (pd, h)))) =
    body_lem (add32 state (word_of a b c d)) xs h
    ∙ ap (λ t. fold t xs) (add32_lem state a b c d pa pb pc pd)

-- What the unaligned head leaves is bytes, and folding it gives what folding all gives.
head_lem :
    (address state : ℕ) (xs : List ℕ)
    → AreBytes xs
    → AreBytes (add_head address state xs).1
      × (fold (add_head address state xs).0 (add_head address state xs).1 ≡ fold state xs)
unfolding add_head
head_lem address state [] h = (h, refl)
head_lem address state (x ∷ xs) h = elim (Bool-cases (bit_and address 0x3 == 0)) [
  | inl t ↦ rw t (h, refl)
  | inr t ↦ rw t (head_lem (u32 (address + 1)) (add8 state x) xs h.1)
]

-- Adding a buffer of bytes at any address, with its unaligned head, aligned words and tail, gives
-- what taking its bytes in one at a time gives.
pub crc32_add_lem :
    (ctx address : ℕ) (buf : List ℕ) → AreBytes buf → crc32_add ctx address buf ≡ fold ctx buf
unfolding crc32_add
crc32_add_lem ctx address buf h =
    let (p, e) = head_lem address ctx buf h in
    body_lem (add_head address ctx buf).0 (add_head address ctx buf).1 p ∙ e

fold-append : (state : ℕ) (xs ys : List ℕ) → fold state (xs ++ ys) ≡ fold (fold state xs) ys
fold-append state [] ys = refl
fold-append state (x ∷ xs) ys = fold-append (add8 state x) xs ys

AreBytes-append : (xs ys : List ℕ) → AreBytes xs → AreBytes ys → AreBytes (xs ++ ys)
AreBytes-append [] ys p q = q
AreBytes-append (x ∷ xs) ys (p, ps) q = (p, AreBytes-append xs ys ps q)

-- For two buffers of bytes, wherever they lie, adding one after the other from the initial value
-- and finishing gives the CRC-32 of both joined in one buffer at any address.
pub crc32_add-append :
    (a b c : ℕ) (xs ys : List ℕ)
    → AreBytes xs
    → AreBytes ys
    → crc32_finish (crc32_add (crc32_add crc32_init a xs) b ys) ≡ crc32 c (xs ++ ys)
unfolding crc32
crc32_add-append a b c xs ys p q =
    rw
      (
        crc32_add_lem crc32_init a xs p,
        crc32_add_lem (fold crc32_init xs) b ys q,
        crc32_add_lem crc32_init c (xs ++ ys) (AreBytes-append xs ys p q),
        fold-append crc32_init xs ys,
      )
      refl
