-- ===== src/Status/Extract.antt =====
-- A status word taken apart again.
use sunburst_chip.Base.{
  ℕ, ◌+◌, ◌*◌, ◌/◌, ◌%◌, ◌^◌, ◌<◌, true, ◌≡◌, refl, false, Bool-cases, inl, inr, ◌∙◌, ap, ap₂,
  arith, ltb, leb, ◌==◌, if◌then◌else◌, bit_and, bit_or, List, [], ◌∷◌, get_or,
}
use sunburst_chip.Bits.{
  bit_and_mask, bit_or_fields, bit_or_comm, bit_or_assoc, zero-bit_or, zero-bit_and,
}
use sunburst_chip.Bitfield.{not32, field32_read, field32_write, bit32_write}
use sunburst_chip.Status.{
  ascii_5bit, make_module_id, basename_char, packed, status_create, status_err, status_codes,
  mod_id_of, status_extract,
}

ascii_5bit-lt : (v : ℕ) → ascii_5bit v < 32
unfolding ascii_5bit
ascii_5bit-lt v = ground arith

make_module_id_lem :
    (a b c : ℕ)
    → make_module_id a b c ≡ (ascii_5bit c * 2 ^ 10 + ascii_5bit b * 2 ^ 5 + ascii_5bit a) * 2 ^ 16
unfolding make_module_id
make_module_id_lem a b c =
    let la = ascii_5bit-lt a in
    let lb = ascii_5bit-lt b in
    let low : bit_or (ascii_5bit a * 2 ^ 16) (ascii_5bit b * 2 ^ 21)
        ≡ ascii_5bit b * 2 ^ 21 + ascii_5bit a * 2 ^ 16 =
      bit_or_comm (ascii_5bit a * 2 ^ 16) (ascii_5bit b * 2 ^ 21)
      ∙ bit_or_fields 21 (ascii_5bit b) (ascii_5bit a * 2 ^ 16) (omega arith) in
    rw (low, bit_or_comm (ascii_5bit b * 2 ^ 21 + ascii_5bit a * 2 ^ 16) (ascii_5bit c * 2 ^ 26))
      (bit_or_fields 26 (ascii_5bit c) (ascii_5bit b * 2 ^ 21 + ascii_5bit a * 2 ^ 16) (omega arith)
        ∙ omega arith)

-- The error word as a sum, for a module in its field.
packed_lem :
    (m code arg : ℕ)
    → m < 2 ^ 15
    → code < 32
    → arg < 2 ^ 11
    → packed (m * 2 ^ 16) code arg ≡ (2 ^ 15 + m) * 2 ^ 16 + (arg * 2 ^ 5 + code)
unfolding packed bit32_write field32_write
packed_lem m code arg hm hc ha =
    let ec : bit_or (bit_and 0 (not32 0x1f)) ((bit_and code 0x1f * 2 ^ 0) % 2 ^ 32) ≡ code =
      ap (λ t. bit_or t ((bit_and code 0x1f * 2 ^ 0) % 2 ^ 32)) (zero-bit_and (not32 0x1f))
      ∙ zero-bit_or ((bit_and code 0x1f * 2 ^ 0) % 2 ^ 32)
      ∙ omega (arith, bit_and_mask 5 code) in
    let ea : bit_or (bit_and 0 (not32 0xffe0)) ((bit_and arg 0x7ff * 2 ^ 5) % 2 ^ 32)
        ≡ arg * 2 ^ 5 =
      ap (λ t. bit_or t ((bit_and arg 0x7ff * 2 ^ 5) % 2 ^ 32)) (zero-bit_and (not32 0xffe0))
      ∙ zero-bit_or ((bit_and arg 0x7ff * 2 ^ 5) % 2 ^ 32)
      ∙ omega (arith, bit_and_mask 11 arg) in
    let top : bit_or (m * 2 ^ 16) (2 ^ 31) ≡ (2 ^ 15 + m) * 2 ^ 16 =
      bit_or_comm (m * 2 ^ 16) (2 ^ 31)
      ∙ bit_or_fields 31 1 (m * 2 ^ 16) (omega arith)
      ∙ omega arith in
    let low : bit_or code (arg * 2 ^ 5) ≡ arg * 2 ^ 5 + code =
      bit_or_comm code (arg * 2 ^ 5) ∙ bit_or_fields 5 arg code hc in
    ap₂ bit_or (ap₂ bit_or top ec) ea
    ∙ bit_or_assoc ((2 ^ 15 + m) * 2 ^ 16) code (arg * 2 ^ 5)
    ∙ ap (bit_or ((2 ^ 15 + m) * 2 ^ 16)) low
    ∙ bit_or_fields 16 (2 ^ 15 + m) (arg * 2 ^ 5 + code) (omega arith)

mod_id_of_lem :
    (x y z : ℕ)
    → x < 32
    → y < 32
    → z < 32
    → mod_id_of (z * 2 ^ 10 + y * 2 ^ 5 + x) ≡ (b'@' + x) ∷ (b'@' + y) ∷ (b'@' + z) ∷ []
unfolding mod_id_of
mod_id_of_lem x y z hx hy hz =
    let m = z * 2 ^ 10 + y * 2 ^ 5 + x in
    let e0 : bit_and m 0x1f ≡ x = omega (arith, bit_and_mask 5 m) in
    let e1 : bit_and (m / 2 ^ 5) 0x1f ≡ y = omega (arith, bit_and_mask 5 (m / 2 ^ 5)) in
    let e2 : bit_and (m / 2 ^ 10) 0x1f ≡ z = omega (arith, bit_and_mask 5 (m / 2 ^ 10)) in
    rw (e0, e1, e2) refl

-- What `status_extract` makes of an error word with module `m`.
extract_word :
    (m code arg : ℕ)
    → m < 2 ^ 15
    → 0 < code
    → code < 32
    → arg < 2 ^ 11
    → status_extract ((2 ^ 15 + m) * 2 ^ 16 + (arg * 2 ^ 5 + code)) ≡ record {
      is_error = true;
      code = get_or status_codes code [];
      arg = arg;
      mod_id = mod_id_of m;
    }
unfolding status_extract status_err field32_read
extract_word m code arg hm pos hc ha =
    let w = (2 ^ 15 + m) * 2 ^ 16 + (arg * 2 ^ 5 + code) in
    let sign : ltb w (2 ^ 31) ≡ false = ground arith in
    let sign' : leb (2 ^ 31) w ≡ true = ground arith in
    let e : bit_and (w / 1) 31 ≡ code = omega (arith, bit_and_mask 5 (w / 1)) in
    let ne : (code == 0) ≡ false = ground arith in
    let ea : bit_and (w / 2 ^ 5) 0x7ff ≡ arg = omega (arith, bit_and_mask 11 (w / 2 ^ 5)) in
    let em : bit_and (w / 2 ^ 16) 0x7fff ≡ m = omega (arith, bit_and_mask 15 (w / 2 ^ 16)) in
    rw (sign, sign', e, ne, ne, ea, em) refl

status_extract-packed :
    (a b c code arg : ℕ)
    → 0 < code
    → code < 32
    → arg < 2 ^ 11
    → status_extract (packed (make_module_id a b c) code arg) ≡ record {
      is_error = true;
      code = get_or status_codes code [];
      arg = arg;
      mod_id = (b'@' + ascii_5bit a) ∷ (b'@' + ascii_5bit b) ∷ (b'@' + ascii_5bit c) ∷ [];
    }
status_extract-packed a b c code arg pos hc ha =
    let x = ascii_5bit a in
    let y = ascii_5bit b in
    let z = ascii_5bit c in
    let lx : x < 32 = ascii_5bit-lt a in
    let ly : y < 32 = ascii_5bit-lt b in
    let lz : z < 32 = ascii_5bit-lt c in
    let m = z * 2 ^ 10 + y * 2 ^ 5 + x in
    let small : m < 2 ^ 15 = omega arith in
    ap (λ t. status_extract (packed t code arg)) (make_module_id_lem a b c)
    ∙ ap status_extract (packed_lem m code arg small hc ha)
    ∙ extract_word m code arg small pos hc ha
    ∙ ap
        (λ t. record { is_error = true; code = get_or status_codes code []; arg = arg; mod_id = t })
        (mod_id_of_lem x y z lx ly lz)

-- An error created with a code from 1 to 31, an argument below 2 ^ 11 and a module identifier made
-- of three characters is taken apart into the text of that code, the argument and the three letters
-- that stand for the characters; where the identifier is 0, the letters are those of the first
-- three characters of the file's name after its last slash.
pub status_extract-create :
    (a b c code arg : ℕ) (file : List ℕ)
    → 0 < code
    → code < 32
    → arg < 2 ^ 11
    → let given = make_module_id a b c in
      let letter = λ (i v : ℕ). if given == 0 then basename_char file i else v in
      status_extract (status_create code given file arg) ≡ record {
        is_error = true;
        code = get_or status_codes code [];
        arg = arg;
        mod_id =
            (b'@' + ascii_5bit (letter 0 a))
            ∷ (b'@' + ascii_5bit (letter 1 b))
            ∷ (b'@' + ascii_5bit (letter 2 c))
            ∷ [];
      }
unfolding status_create
status_extract-create a b c code arg file pos hc ha =
    let ne : (code == 0) ≡ false = ground arith in
    elim (Bool-cases (make_module_id a b c == 0)) [
      | inl e ↦
          rw (ne, e)
            (status_extract-packed (basename_char file 0) (basename_char file 1)
              (basename_char file 2) code arg pos hc ha)
      | inr e ↦ rw (ne, e) (status_extract-packed a b c code arg pos hc ha)
    ]
