-- ===== src/Ujson/Escapes.antt =====
-- How each byte of a string is written.
use sunburst_chip.Base.{
  ℕ, zero, suc, ◌+◌, ◌*◌, ◌/◌, ◌%◌, ◌^◌, ◌<◌, ◌≡◌, ◌≢◌, ◌⊎◌, inl, inr, refl, arith, ltb, leb, ◌==◌,
  ◌||◌, false, Bool-cases, ℕ_discrete, bit_and, bit_or, u8, List, [], ◌∷◌, get_or,
}
use sunburst_chip.Bits.{bit_and_mask, bit_or_fields, zero-bit_or}
use sunburst_chip.Mmio.{M}
use sunburst_chip.Ujson.{Ujson, return}
use sunburst_chip.Ujson.Write.{hex, escaped}
use sunburst_chip.Ujson.Read.{hex_value, unescape}
use sunburst_chip.Ujson.Channel.{}

-- How a character is written: as itself, after a backslash, or in hexadecimal.
abbrev pub IsPlain : ℕ → Type 0
IsPlain c = (escaped c ≡ c ∷ []) × (c ≢ b'"') × (c ≢ b'\\')

module _ {W : Type 0} (getc : M W ℕ) where
  abbrev pub IsShort : ℕ → Type 0
  IsShort c =
      (e : ℕ) × (escaped c ≡ b'\\' ∷ e ∷ [])
      × (e < 256)
      × ((uj : Ujson W) → unescape getc e uj ≡ return c uj)

  abbrev pub IsHex : ℕ → Type 0
  IsHex c =
      escaped c
      ≡ b'\\' ∷ b'u' ∷ b'0' ∷ b'0' ∷ get_or hex (c / 2 ^ 4) 0 ∷ get_or hex (bit_and c 0xf) 0 ∷ []

  rest_cases :
      (c : ℕ)
      → c ≢ b'"'
      → c ≢ b'\\'
      → c ≢ 8
      → c ≢ 12
      → c ≢ b'\n'
      → c ≢ b'\r'
      → c ≢ b'\t'
      → IsPlain c ⊎ (IsShort c ⊎ IsHex c)
  unfolding escaped
  rest_cases c n1 n2 n3 n4 n5 n6 n7 =
      let f1 : (c == b'"') ≡ false = ground arith in
      let f2 : (c == b'\\') ≡ false = ground arith in
      let f3 : (c == 8) ≡ false = ground arith in
      let f4 : (c == 12) ≡ false = ground arith in
      let f5 : (c == b'\n') ≡ false = ground arith in
      let f6 : (c == b'\r') ≡ false = ground arith in
      let f7 : (c == b'\t') ≡ false = ground arith in
      elim (Bool-cases (ltb c 0x20 || c == b'"' || c == b'\\' || leb 0x7f c)) [
        | inl e ↦ let long : IsHex c = rw (e, f1, f2, f3, f4, f5, f6, f7) refl in inr (inr long)
        | inr e ↦ let plain : escaped c ≡ c ∷ [] = rw e refl in inl (plain, n1, n2)
      ]

  pub escaped-cases : (c : ℕ) → IsPlain c ⊎ (IsShort c ⊎ IsHex c)
  unfolding escaped unescape
  escaped-cases c = elim (ℕ_discrete c b'"') [
    | yes e ↦ rw e (inr (inl (b'"', refl, omega arith, λ uj. refl)))
    | no n1 ↦ elim (ℕ_discrete c b'\\') [
      | yes e ↦ rw e (inr (inl (b'\\', refl, omega arith, λ uj. refl)))
      | no n2 ↦ elim (ℕ_discrete c 8) [
        | yes e ↦ rw e (inr (inl (b'b', refl, omega arith, λ uj. refl)))
        | no n3 ↦ elim (ℕ_discrete c 12) [
          | yes e ↦ rw e (inr (inl (b'f', refl, omega arith, λ uj. refl)))
          | no n4 ↦ elim (ℕ_discrete c b'\n') [
            | yes e ↦ rw e (inr (inl (b'n', refl, omega arith, λ uj. refl)))
            | no n5 ↦ elim (ℕ_discrete c b'\r') [
              | yes e ↦ rw e (inr (inl (b'r', refl, omega arith, λ uj. refl)))
              | no n6 ↦ elim (ℕ_discrete c b'\t') [
                | yes e ↦ rw e (inr (inl (b't', refl, omega arith, λ uj. refl)))
                | no n7 ↦ rest_cases c n1 n2 n3 n4 n5 n6 n7
              ]
            ]
          ]
        ]
      ]
    ]
  ]

  pub hex_value_lem :
      (n : ℕ) (uj : Ujson W) → n < 16 → hex_value getc (get_or hex n 0) uj ≡ return n uj
  unfolding hex_value
  hex_value_lem zero uj h = refl
  hex_value_lem (suc zero) uj h = refl
  hex_value_lem (suc (suc zero)) uj h = refl
  hex_value_lem (suc (suc (suc zero))) uj h = refl
  hex_value_lem (suc (suc (suc (suc zero)))) uj h = refl
  hex_value_lem (suc (suc (suc (suc (suc zero))))) uj h = refl
  hex_value_lem (suc (suc (suc (suc (suc (suc zero)))))) uj h = refl
  hex_value_lem (suc (suc (suc (suc (suc (suc (suc zero))))))) uj h = refl
  hex_value_lem (suc (suc (suc (suc (suc (suc (suc (suc zero)))))))) uj h = refl
  hex_value_lem (suc (suc (suc (suc (suc (suc (suc (suc (suc zero))))))))) uj h = refl
  hex_value_lem (suc (suc (suc (suc (suc (suc (suc (suc (suc (suc zero)))))))))) uj h = refl
  hex_value_lem (suc (suc (suc (suc (suc (suc (suc (suc (suc (suc (suc zero))))))))))) uj h = refl
  hex_value_lem (suc (suc (suc (suc (suc (suc (suc (suc (suc (suc (suc (suc zero)))))))))))) uj h =
      refl
  hex_value_lem (suc (suc (suc (suc (suc (suc (suc (suc (suc (suc (suc (suc (suc zero)))))))))))))
        uj h =
      refl
  hex_value_lem
        (suc (suc (suc (suc (suc (suc (suc (suc (suc (suc (suc (suc (suc (suc zero)))))))))))))) uj
        h =
      refl
  hex_value_lem
        (suc
          (suc (suc (suc (suc (suc (suc (suc (suc (suc (suc (suc (suc (suc (suc zero)))))))))))))))
        uj h =
      refl
  hex_value_lem
        (suc (
          suc
            (suc (suc (suc (suc (suc (suc (suc (suc (suc (suc (suc (suc (suc (suc n))))))))))))))))
        uj h =
      absurd (omega arith)

abbrev AreBelow : List ℕ → Type 0
AreBelow [] = Unit {0}
AreBelow (c ∷ s) = (c < 256) × AreBelow s

get_or-lt : (s : List ℕ) (n : ℕ) → AreBelow s → get_or s n 0 < 256
get_or-lt [] n h = omega arith
get_or-lt (c ∷ s) zero (h, all) = h
get_or-lt (c ∷ s) (suc n) (h, all) = get_or-lt s n all

pub hex_digit-lt : (n : ℕ) → get_or hex n 0 < 256
hex_digit-lt n = get_or-lt hex n (
  omega arith,
  (
    omega arith,
    (
      omega arith,
      (
        omega arith,
        (
          omega arith,
          (
            omega arith,
            (
              omega arith,
              (
                omega arith,
                (
                  omega arith,
                  (
                    omega arith,
                    (
                      omega arith,
                      (omega arith, (omega arith, (omega arith, (omega arith, (omega arith, tt))))),
                    ),
                  ),
                ),
              ),
            ),
          ),
        ),
      ),
    ),
  ),
)

-- The byte of the two digits.
pub hex_byte :
    (c : ℕ)
    → c < 256
    → u8 (bit_or (bit_or (bit_or (0 * 2 ^ 12) (0 * 2 ^ 8)) (c / 2 ^ 4 * 2 ^ 4)) (bit_and c 0xf)) ≡ c
hex_byte c h =
    let low : bit_and c 0xf ≡ c % 2 ^ 4 = bit_and_mask 4 c in
    let zeros : bit_or (bit_or (0 * 2 ^ 12) (0 * 2 ^ 8)) (c / 2 ^ 4 * 2 ^ 4) ≡ c / 2 ^ 4 * 2 ^ 4 =
      zero-bit_or (c / 2 ^ 4 * 2 ^ 4) in
    let all : bit_or (c / 2 ^ 4 * 2 ^ 4) (bit_and c 0xf) ≡ c / 2 ^ 4 * 2 ^ 4 + bit_and c 0xf =
      bit_or_fields 4 (c / 2 ^ 4) (bit_and c 0xf) (omega arith) in
    rw (zeros, all) (omega arith)
