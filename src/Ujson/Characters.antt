-- ===== src/Ujson/Characters.antt =====
-- Reading back what a byte of a string is written as.
use sunburst_chip.Base.{
  ℕ, ◌*◌, ◌/◌, ◌^◌, ◌<◌, ◌≡◌, ◌≢◌, inl, inr, refl, ap, ◌∙◌, arith, ◌==◌, false, bit_and, bit_or, u8,
  List, ◌∷◌, ◌++◌, get_or,
}
use sunburst_chip.Bits.{bit_and_mask}
use sunburst_chip.Mmio.{M}
use sunburst_chip.Ujson.{Ujson, ok, return}
use sunburst_chip.Ujson.Write.{hex, escaped}
use sunburst_chip.Ujson.Read.{
  ujson_getc, hex_value, consume_hexdigit, consume_hex, unescape, qs_char,
}
use sunburst_chip.Ujson.Channel.{IsSource, pending, IsRead, IsRead-then, ujson_getc_lem}
use sunburst_chip.Ujson.Escapes.{
  IsPlain, IsShort, IsHex, escaped-cases, hex_value_lem, hex_digit-lt, hex_byte,
}

module _ {W : Type 0} (getc : M W ℕ) (text : W → List ℕ) (source : IsSource getc text) where
  hexdigit_lem :
      (n : ℕ) (uj : Ujson W) (rest : List ℕ)
      → n < 16
      → pending text uj ≡ get_or hex n 0 ∷ rest
      → IsRead text (consume_hexdigit getc) uj n rest
  unfolding consume_hexdigit
  hexdigit_lem n uj rest h p =
      IsRead-then text (ujson_getc getc) (hex_value getc) uj (get_or hex n 0) n rest rest
        (ujson_getc_lem getc text source uj (get_or hex n 0) rest (hex_digit-lt n) p)
        (λ uj' q. (uj', hex_value_lem getc n uj' h, q))

  hex_lem :
      (c : ℕ) (uj : Ujson W) (rest : List ℕ)
      → c < 256
      → pending text uj
        ≡ b'0' ∷ b'0' ∷ get_or hex (c / 2 ^ 4) 0 ∷ get_or hex (bit_and c 0xf) 0 ∷ rest
      → IsRead text
          (consume_hex getc)
          uj
          (bit_or (bit_or (bit_or (0 * 2 ^ 12) (0 * 2 ^ 8)) (c / 2 ^ 4 * 2 ^ 4)) (bit_and c 0xf))
          rest
  unfolding consume_hex
  hex_lem c uj rest h p =
      let low : bit_and c 0xf < 16 = omega (arith, bit_and_mask 4 c) in
      IsRead-then text (consume_hexdigit getc) _ uj 0 _ _ rest (hexdigit_lem 0 uj _ (omega arith) p)
        λ uj1 p1.
          IsRead-then text (consume_hexdigit getc) _ uj1 0 _ _ rest
            (hexdigit_lem 0 uj1 _ (omega arith) p1)
            λ uj2 p2.
              IsRead-then text (consume_hexdigit getc) _ uj2 (c / 2 ^ 4) _ _ rest
                (hexdigit_lem (c / 2 ^ 4) uj2 _ (omega arith) p2)
                λ uj3 p3.
                  IsRead-then text (consume_hexdigit getc) _ uj3 (bit_and c 0xf) _ _ rest
                    (hexdigit_lem (bit_and c 0xf) uj3 _ low p3) λ uj4 p4. (uj4, refl, p4)

  -- What is to be read starts with a character, after which the byte `c` is read.
  abbrev IsCharRead : ℕ → Ujson W → List ℕ → Type 0
  IsCharRead c uj rest =
      (x : ℕ) × (mid : List ℕ) × (x < 256)
      × (x ≢ b'"')
      × (pending text uj ≡ x ∷ mid)
      × ((uj' : Ujson W) → pending text uj' ≡ mid → IsRead text (qs_char getc x) uj' c rest)

  plain_char :
      (c : ℕ) (uj : Ujson W) (rest : List ℕ)
      → c < 256
      → IsPlain c
      → pending text uj ≡ escaped c ++ rest
      → IsCharRead c uj rest
  unfolding qs_char
  plain_char c uj rest h (plain, nq, nb) p =
      let e : (c == b'\\') ≡ false = ground arith in
      (c, rest, h, nq, p ∙ ap (λ t. t ++ rest) plain, λ uj' q. (uj', rw e refl, q))

  short_char :
      (c : ℕ) (uj : Ujson W) (rest : List ℕ)
      → IsShort getc c
      → pending text uj ≡ escaped c ++ rest
      → IsCharRead c uj rest
  unfolding qs_char
  short_char c uj rest (e, short, h, gives) p =
      let same : u8 e ≡ e = omega arith in
      (
        b'\\',
        e ∷ rest,
        omega arith,
        omega arith,
        p ∙ ap (λ t. t ++ rest) short,
        λ uj' q.
            IsRead-then text (ujson_getc getc) (λ v. unescape getc (u8 v)) uj' e c rest rest
              (ujson_getc_lem getc text source uj' e rest h q)
              (λ uj'' q'. (uj'', ap (λ v. unescape getc v uj'') same ∙ gives uj'', q')),
      )

  hex_char :
      (c : ℕ) (uj : Ujson W) (rest : List ℕ)
      → c < 256
      → IsHex getc c
      → pending text uj ≡ escaped c ++ rest
      → IsCharRead c uj rest
  unfolding qs_char unescape
  hex_char c uj rest h long p =
      let digits = b'0' ∷ b'0' ∷ get_or hex (c / 2 ^ 4) 0 ∷ get_or hex (bit_and c 0xf) 0 ∷ rest in
      (
        b'\\',
        b'u' ∷ digits,
        omega arith,
        omega arith,
        p ∙ ap (λ t. t ++ rest) long,
        λ uj' q.
            IsRead-then text (ujson_getc getc) (λ v. unescape getc (u8 v)) uj' b'u' c digits rest
              (ujson_getc_lem getc text source uj' b'u' digits (omega arith) q)
              λ uj1 q1.
                IsRead-then text (consume_hex getc) (λ v. return (u8 v)) uj1 _ c rest rest
                  (hex_lem c uj1 rest h q1)
                  (λ uj2 q2. (uj2, ap (λ (v : ℕ). (ok v, uj2)) (hex_byte c h), q2)),
      )

  pub char_lem :
      (c : ℕ) (uj : Ujson W) (rest : List ℕ)
      → c < 256
      → pending text uj ≡ escaped c ++ rest
      → IsCharRead c uj rest
  char_lem c uj rest h p = elim (escaped-cases getc c) [
    | inl plain ↦ plain_char c uj rest h plain p
    | inr (inl short) ↦ short_char c uj rest short p
    | inr (inr long) ↦ hex_char c uj rest h long p
  ]
