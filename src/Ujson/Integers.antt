-- ===== src/Ujson/Integers.antt =====
-- Reading back a 32-bit number that was written.
use mathlib.Core.List.{append-nil}
use native.Mathlib.Nat.{pow-suc}
use sunburst_chip.Base.{
  ℕ, zero, suc, ◌+◌, ◌-◌, ◌*◌, ◌/◌, ◌%◌, ◌^◌, ◌≤◌, ◌<◌, ◌≡◌, inl, inr, refl, sym, ap, ◌∙◌, arith,
  ◌==◌, Bool, true, false, Bool-cases, u32, u64, if◌then◌else◌, List, [], ◌∷◌, ◌++◌, length,
  length-append,
}
use sunburst_chip.Mmio.{M}
use sunburst_chip.Print.Digits.{horner, AllBelow, horner-append, AllBelow-append}
use sunburst_chip.Print.Specifier.{ascii_digits}
use sunburst_chip.Ujson.{Ujson, Result, ok, return, after, is_digit}
use sunburst_chip.Ujson.Write.{decimal_loop32, ujson_serialize_integer32}
use sunburst_chip.Ujson.Read.{ujson_parse_integer}
use sunburst_chip.Ujson.Channel.{
  IsSource, IsTarget, pending, IsRead, IsWritten, ujson_putbuf_lem, append_cancel,
}
use sunburst_chip.Ujson.Numbers.{signed, parse_lem}

-- The digits of a value, of which there is one at least.
abbrev IsDecimal : ℕ → ℕ → List ℕ → List ℕ → Type 0
IsDecimal fuel value buf out =
    (d : ℕ) × (ds : List ℕ) × (out ≡ ascii_digits (d ∷ ds) ++ buf)
    × (horner 10 0 (d ∷ ds) ≡ value)
    × (d < 10)
    × AllBelow 10 ds
    × (length ds < fuel)

ascii_append :
    (ds : List ℕ) (d : ℕ) (rest : List ℕ)
    → ascii_digits ds ++ ((b'0' + d) ∷ rest) ≡ ascii_digits (ds ++ (d ∷ [])) ++ rest
ascii_append [] d rest = refl
ascii_append (e ∷ ds) d rest = ap (λ t. (b'0' + e) ∷ t) (ascii_append ds d rest)

decimal_loop32_lem :
    (fuel value : ℕ) (buf : List ℕ)
    → value < 10 ^ suc fuel
    → IsDecimal (suc fuel) value buf (decimal_loop32 (suc fuel) value buf)
unfolding decimal_loop32
decimal_loop32_lem zero value buf h =
    let e : (value / 10 == 0) ≡ true = ground arith in
    let one : value % 10 ≡ value = omega arith in
    rw e (value % 10, [], refl, omega arith, omega arith, tt, omega arith)
decimal_loop32_lem (suc fuel) value buf h = elim (Bool-cases (value / 10 == 0)) [
  | inl e ↦
      let z : value / 10 ≡ 0 = ground arith in
      rw e (value % 10, [], refl, omega arith, omega arith, tt, omega arith)
  | inr e ↦
      let r = value % 10 in
      let small : value / 10 < 10 ^ suc fuel = omega (arith, pow-suc 10 (suc fuel)) in
      let (d, ds, out, val, below, all, len) =
        decimal_loop32_lem fuel (value / 10) ((b'0' + r) ∷ buf) small in
      rw e (
        d,
        ds ++ (r ∷ []),
        out ∙ ascii_append (d ∷ ds) r buf,
        horner-append 10 0 r (d ∷ ds) ∙ ap (λ t. t * 10 + r) val ∙ omega arith,
        below,
        AllBelow-append 10 r ds (omega arith) all,
        omega (arith, length-append ds (r ∷ [])),
      )
]

-- What is written for a value and its sign.
abbrev magnitude : ℕ → Bool → ℕ
magnitude value neg = if neg then u32 (2 ^ 32 - 1 - value + 1) else value

serialize_lem :
    {W : Type 0} (putbuf : List ℕ → M W ℕ) (written : W → List ℕ) (value : ℕ) (neg : Bool)
    (uj : Ujson W)
    → IsTarget putbuf written
    → IsWritten written
        (ujson_serialize_integer32 putbuf value neg)
        uj
        0
        (signed neg (decimal_loop32 10 (magnitude value neg) []))
unfolding ujson_serialize_integer32
serialize_lem putbuf written value neg uj target =
    let text = signed neg (decimal_loop32 10 (magnitude value neg) []) in
    let (uj', e, q) = ujson_putbuf_lem putbuf written target text uj in
    (uj', ap (λ (r : Result ℕ × Ujson _). after r (λ _. return 0)) e, q)

magnitude-lt : (value : ℕ) (neg : Bool) → value < 2 ^ 32 → magnitude value neg < 2 ^ 32
magnitude-lt value true h = omega arith
magnitude-lt value false h = h

-- The value from its magnitude and sign.
signed_value :
    (value : ℕ) (neg : Bool)
    → value < 2 ^ 32
    → (neg ≡ true → 0 < value)
    → let n = magnitude value neg in (if neg then u64 (2 ^ 64 - n) else n) % 2 ^ 32 ≡ value
signed_value value true h pos = let p : 0 < value = pos refl in omega arith
signed_value value false h pos = omega arith

-- Writing a 32-bit word as a number, with a minus sign or without, to a channel that takes
-- everything succeeds, where a word with a minus sign is not 0; where what was written is then read
-- from a channel, followed by a character that is not a digit, the parser of a 32-bit number gives
-- the same word, and leaves that character and what follows it, and 11 rounds are enough.
pub ujson_parse_integer-serialize :
    {W V : Type 0} (putbuf : List ℕ → M W ℕ) (written : W → List ℕ) (getc : M V ℕ)
    (text : V → List ℕ) (value c : ℕ) (neg : Bool) (t rest : List ℕ) (fuel : ℕ) (uj : Ujson W)
    (vj : Ujson V)
    → IsTarget putbuf written
    → IsSource getc text
    → value < 2 ^ 32
    → (neg ≡ true → 0 < value)
    → 11 ≤ fuel
    → c < 256
    → is_digit c ≡ false
    → written (ujson_serialize_integer32 putbuf value neg uj).1.io_context
      ≡ written uj.io_context ++ t
    → pending text vj ≡ t ++ (c ∷ rest)
    → ((ujson_serialize_integer32 putbuf value neg uj).0 ≡ ok 0)
      × IsRead text (ujson_parse_integer getc fuel 4) vj value (c ∷ rest)
ujson_parse_integer-serialize putbuf written getc text value c neg t rest fuel uj vj target source h
      pos enough small other w p =
    let n = magnitude value neg in
    let fits = magnitude-lt value neg h in
    let digits = decimal_loop32 10 n [] in
    let (uj', e, q) = serialize_lem putbuf written value neg uj target in
    let same : written uj.io_context ++ signed neg digits ≡ written uj.io_context ++ t =
      sym q ∙ sym (ap (λ (r : Result ℕ × Ujson _). written r.1.io_context) e) ∙ w in
    let out : signed neg digits ≡ t =
      append_cancel (written uj.io_context) (signed neg digits) t same in
    let (d, ds, shape, val, below, all, len) = decimal_loop32_lem 9 n [] (omega arith) in
    let shape' : digits ≡ ascii_digits (d ∷ ds) = shape ∙ append-nil (ascii_digits (d ∷ ds)) in
    let ready : pending text vj ≡ signed neg (ascii_digits (d ∷ ds)) ++ (c ∷ rest) =
      p ∙ ap (λ l. l ++ (c ∷ rest)) (sym out ∙ ap (signed neg) shape') in
    let (vj', e', q') =
      parse_lem getc text source neg ds fuel 4 d c vj rest below all (omega arith) (omega arith)
        small other ready in
    (
      ap (λ (r : Result ℕ × Ujson _). r.0) e,
      (
        vj',
        e'
            ∙ ap (λ (v : ℕ). (ok v, vj'))
                (ap (λ k. (if neg then u64 (2 ^ 64 - k) else k) % 2 ^ 32) val
                  ∙ signed_value value neg h pos),
        q',
      ),
    )
