-- ===== src/Ujson/Numbers.antt =====
-- Reading the digits of a number and its sign.
use sunburst_chip.Base.{
  ℕ, zero, suc, ◌+◌, ◌-◌, ◌*◌, ◌%◌, ◌^◌, ◌≤◌, ◌<◌, ◌≡◌, refl, sym, ap, ◌∙◌, arith, ◌==◌, not, Bool,
  true, false, u8, u64, if◌then◌else◌, List, [], ◌∷◌, ◌++◌, length, Option, none, some,
}
use sunburst_chip.Mmio.{M}
use sunburst_chip.Print.Digits.{horner, AllBelow}
use sunburst_chip.Print.Specifier.{ascii_digits, horner-le}
use sunburst_chip.Ujson.{
  Ujson, Result, ok, Io, return, after, ◌>>=◌, ◌>>◌, is_space, is_digit, ujson_ungetc, ungetc_over,
  refuse, not_found,
}
use sunburst_chip.Ujson.Read.{
  ujson_getc, getc_after, consume_whitespace, digits_loop, after_digit, put_back,
  ujson_parse_integer,
}
use sunburst_chip.Ujson.Channel.{IsSource, pending, put_before, IsRead, IsRead-then, ujson_getc_lem}

abbrev pub signed : Bool → List ℕ → List ℕ
signed neg digits = if neg then b'-' ∷ digits else digits

module _ {W : Type 0} (getc : M W ℕ) (text : W → List ℕ) (source : IsSource getc text) where
  -- After a read nothing is put back.
  getc_after-buffer : (b : Option ℕ) (uj : Ujson W) → (getc_after getc b uj).1.buffer ≡ none
  unfolding getc_after
  getc_after-buffer none uj = refl
  getc_after-buffer (some b) uj = refl

  -- `m` gives `a`, leaves `rest` to be read and nothing put back.
  abbrev IsClean : {A : Type 0} → Io W A → Ujson W → A → List ℕ → Type 0
  IsClean m uj a rest =
      (uj' : Ujson W) × (m uj ≡ (ok a, uj')) × (pending text uj' ≡ rest) × (uj'.buffer ≡ none)

  IsClean-getc :
      (uj : Ujson W) (c : ℕ) (rest : List ℕ)
      → c < 256
      → pending text uj ≡ c ∷ rest
      → IsClean (ujson_getc getc) uj c rest
  unfolding ujson_getc
  IsClean-getc uj c rest h p =
      let (uj', e, q) = ujson_getc_lem getc text source uj c rest h p in
      (
        uj',
        e,
        q,
        ap (λ (r : Result ℕ × Ujson W). r.1.buffer) (sym e) ∙ getc_after-buffer uj.buffer uj,
      )

  digit_step :
      (fuel acc d x : ℕ) (uj uj' : Ujson W)
      → d < 10
      → acc * 10 + d < 2 ^ 64
      → x < 256
      → ujson_getc getc uj ≡ (ok x, uj')
      → digits_loop getc (suc fuel) acc (b'0' + d) uj ≡ digits_loop getc fuel (acc * 10 + d) x uj'
  unfolding digits_loop after_digit
  digit_step fuel acc d x uj uj' h fits small e =
      let digit : is_digit (b'0' + d) ≡ true = ground arith in
      let v : u64 (acc * 10 + (b'0' + d - b'0')) ≡ acc * 10 + d = omega arith in
      let s : u8 x ≡ x = omega arith in rw (digit, v, e, s) refl

  digits_loop_lem :
      (ds : List ℕ) (fuel acc d c : ℕ) (uj : Ujson W) (rest : List ℕ)
      → d < 10
      → AllBelow 10 ds
      → horner 10 (acc * 10 + d) ds < 2 ^ 64
      → length ds + 1 < fuel
      → c < 256
      → is_digit c ≡ false
      → pending text uj ≡ ascii_digits ds ++ (c ∷ rest)
      → IsClean (digits_loop getc fuel acc (b'0' + d)) uj (horner 10 (acc * 10 + d) ds, some c) rest
  unfolding digits_loop
  digits_loop_lem ds zero acc d c uj rest h all fits enough small other p = absurd (omega arith)
  digits_loop_lem [] (suc zero) acc d c uj rest h all fits enough small other p =
      absurd (omega arith)
  digits_loop_lem [] (suc (suc fuel)) acc d c uj rest h all fits enough small other p =
      let (uj', e, q, b) = IsClean-getc uj c rest small p in
      (uj', digit_step (suc fuel) acc d c uj uj' h fits small e ∙ rw other refl, q, b)
  digits_loop_lem (f ∷ ds) (suc fuel) acc d c uj rest h (hf, all) fits enough small other p =
      let (uj1, e1, q1, b1) =
        IsClean-getc uj (b'0' + f) (ascii_digits ds ++ (c ∷ rest)) (omega arith) p in
      let grows : acc * 10 + d ≤ (acc * 10 + d) * 10 + f = omega arith in
      let bound = horner-le 10 ((acc * 10 + d) * 10 + f) ds (omega arith) in
      let (uj', e, q, b) =
        digits_loop_lem ds fuel (acc * 10 + d) f c uj1 rest hf all fits (omega arith) small other
          q1 in
      (uj', digit_step fuel acc d (b'0' + f) uj uj1 h (omega arith) (omega arith) e1 ∙ e, q, b)

  ungetc_over_lem :
      (b : Option ℕ) (c : ℕ) (uj : Ujson W) (rest : List ℕ)
      → b ≡ none
      → put_before b (text uj.io_context) ≡ rest
      → IsRead text (ungetc_over b c) uj 0 (c ∷ rest)
  unfolding ungetc_over
  ungetc_over_lem none c uj rest e q = (_, refl, ap (λ t. c ∷ t) q)
  ungetc_over_lem (some b) c uj rest e q = absurd (ground (arith, e))

  space_lem :
      (fuel x : ℕ) (uj : Ujson W) (rest : List ℕ)
      → is_space x ≡ false
      → x < 256
      → 0 < fuel
      → pending text uj ≡ x ∷ rest
      → IsRead text (consume_whitespace getc fuel) uj x rest
  unfolding consume_whitespace
  space_lem zero x uj rest e h pos p = absurd (omega arith)
  space_lem (suc fuel) x uj rest e h pos p =
      IsRead-then text (ujson_getc getc) _ uj x x rest rest
        (ujson_getc_lem getc text source uj x rest h p) (λ uj' q. rw e (uj', refl, q))

  -- The rest of the parser after the sign and the first digit.
  number_lem :
      (neg : Bool) (ds : List ℕ) (fuel rsz d c : ℕ) (uj : Ujson W) (rest : List ℕ)
      → d < 10
      → AllBelow 10 ds
      → horner 10 (0 * 10 + d) ds < 2 ^ 64
      → length ds + 1 < fuel
      → c < 256
      → is_digit c ≡ false
      → pending text uj ≡ ascii_digits ds ++ (c ∷ rest)
      → let n = horner 10 (0 * 10 + d) ds in
        IsRead text
          (if not (is_digit (u8 (b'0' + d))) then refuse not_found 168 else (do
            v ← digits_loop getc fuel 0 (u8 (b'0' + d))
            put_back getc v.1
            return ((if neg then u64 (2 ^ 64 - v.0) else v.0) % 2 ^ (8 * rsz))))
          uj
          ((if neg then u64 (2 ^ 64 - n) else n) % 2 ^ (8 * rsz))
          (c ∷ rest)
  unfolding put_back ujson_ungetc
  number_lem neg ds fuel rsz d c uj rest h all fits enough small other p =
      let digit : is_digit (b'0' + d) ≡ true = ground arith in
      let same : u8 (b'0' + d) ≡ b'0' + d = omega arith in
      let (uj1, e, q, b) = digits_loop_lem ds fuel 0 d c uj rest h all fits enough small other p in
      let n = horner 10 (0 * 10 + d) ds in
      let (uj2, e2, q2) = ungetc_over_lem uj1.buffer c uj1 rest b q in
      rw (same, digit)
        (
          uj2,
          ap
                (λ (r : Result (ℕ × Option ℕ) × Ujson W). after r λ v. do
                  put_back getc v.1
                  return ((if neg then u64 (2 ^ 64 - v.0) else v.0) % 2 ^ (8 * rsz)))
                e
              ∙ ap
                  (λ (r : Result ℕ × Ujson W).
                    after r λ _. return ((if neg then u64 (2 ^ 64 - n) else n) % 2 ^ (8 * rsz)))
                  e2,
          q2,
        )

  pub parse_lem :
      (neg : Bool) (ds : List ℕ) (fuel rsz d c : ℕ) (uj : Ujson W) (rest : List ℕ)
      → d < 10
      → AllBelow 10 ds
      → horner 10 (0 * 10 + d) ds < 2 ^ 64
      → length ds + 1 < fuel
      → c < 256
      → is_digit c ≡ false
      → pending text uj ≡ signed neg (ascii_digits (d ∷ ds)) ++ (c ∷ rest)
      → let n = horner 10 (0 * 10 + d) ds in
        IsRead text
          (ujson_parse_integer getc fuel rsz)
          uj
          ((if neg then u64 (2 ^ 64 - n) else n) % 2 ^ (8 * rsz))
          (c ∷ rest)
  unfolding ujson_parse_integer is_space
  parse_lem false ds fuel rsz d c uj rest h all fits enough small other p =
      let more = ascii_digits ds ++ (c ∷ rest) in
      let minus : (u8 (b'0' + d) == b'-') ≡ false = ground arith in
      IsRead-then text (consume_whitespace getc fuel) _ uj (b'0' + d) _ more (c ∷ rest)
        (space_lem fuel (b'0' + d) uj more (ground arith) (omega arith) (omega arith) p)
        (λ uj1 q1.
          rw minus (number_lem false ds fuel rsz d c uj1 rest h all fits enough small other q1))
  parse_lem true ds fuel rsz d c uj rest h all fits enough small other p =
      let more = ascii_digits ds ++ (c ∷ rest) in
      IsRead-then text (consume_whitespace getc fuel) _ uj b'-' _ ((b'0' + d) ∷ more) (c ∷ rest)
        (space_lem fuel b'-' uj ((b'0' + d) ∷ more) refl (omega arith) (omega arith) p)
        (λ uj1 q1.
          IsRead-then text (ujson_getc getc) _ uj1 (b'0' + d) _ more (c ∷ rest)
            (ujson_getc_lem getc text source uj1 (b'0' + d) more (omega arith) q1)
            (λ uj2 q2. number_lem true ds fuel rsz d c uj2 rest h all fits enough small other q2))
