-- ===== src/Print/Specifier.antt =====
-- Format specifiers as text, and parsing them back.
use native.Mathlib.Nat.{mul-le-mul_left}
use sunburst_chip.Base.{
  ℕ, ◌+◌, ◌-◌, ◌*◌, ◌^◌, ◌≤◌, ◌<◌, ◌≡◌, ◌≢◌, ◌⊎◌, inl, inr, refl, sym, ap, ◌∙◌, arith, ltb, ◌==◌,
  ◌&&◌, ◌||◌, not, u32, if◌then◌else◌, List, [], ◌∷◌, ◌++◌, map, get_or, Bool-cases, true, false,
}
use sunburst_chip.Print.Digits.{horner, AllBelow, IsNumeral}
use sunburst_chip.Print.Format.{
  FormatSpecifier, consumed, consume_width, consume_bang, specifier_of, consume_format_specifier,
}

-- The text of a specifier after its percent sign, with the digits of its width, before `rest`.
abbrev pub ascii_digits : List ℕ → List ℕ
ascii_digits ds = map (λ d. b'0' + d) ds

abbrev pub width_text : ℕ → List ℕ → List ℕ
width_text padding ds = if padding == b'0' then b'0' ∷ ascii_digits ds else ascii_digits ds

abbrev pub spec_text : FormatSpecifier → List ℕ → List ℕ → List ℕ
spec_text spec ds rest =
    let text = width_text spec.padding ds ++ (spec.type ∷ rest) in
    if spec.is_nonstd then b'!' ∷ text else text

-- No width, or one from 1 to 32 that is padded with zeros or with spaces.
abbrev pub IsWidth : ℕ → ℕ → List ℕ → Type 0
IsWidth padding width ds =
    ((padding ≡ 0) × (width ≡ 0) × (ds ≡ []))
    ⊎ (((padding ≡ b'0') ⊎ (padding ≡ b' ')) × IsNumeral 10 width ds × (0 < width) × (width ≤ 32))

-- A character that can stand after the width.
abbrev pub IsConversion : ℕ → Type 0
IsConversion c = (c ≢ 0) × (c ≢ b'!') × ((c < b'0') ⊎ (b'9' < c))

pub horner-le : (base acc : ℕ) (ds : List ℕ) → 1 ≤ base → acc ≤ horner base acc ds
horner-le base acc [] h = omega arith
horner-le base acc (d ∷ ds) h =
    let grows : acc * 1 ≤ acc * base = mul-le-mul_left acc h in
    let rest = horner-le base (acc * base + d) ds h in omega arith

consume_width_end :
    (w p c : ℕ) (rest : List ℕ) → IsConversion c → consume_width w p (c ∷ rest) ≡ (w, p, c ∷ rest)
unfolding consume_width
consume_width_end w p c rest (_, _, other) =
    let e : (ltb c b'0' || ltb b'9' c) ≡ true = ground arith in rw e refl

consume_width_step :
    (w p d : ℕ) (s : List ℕ)
    → d < 10
    → p ≢ 0
    → w * 10 + d < 2 ^ 32
    → consume_width w p ((b'0' + d) ∷ s) ≡ consume_width (w * 10 + d) p s
unfolding consume_width
consume_width_step w p d s h ne fits =
    let e : (ltb (b'0' + d) b'0' || ltb b'9' (b'0' + d)) ≡ false = ground arith in
    let z : (p == 0) ≡ false = ground arith in
    let v : u32 (w * 10 + (b'0' + d - b'0')) ≡ w * 10 + d = omega arith in rw (e, z, v) refl

consume_width_digits :
    (w p c : ℕ) (ds rest : List ℕ)
    → IsConversion c
    → p ≢ 0
    → AllBelow 10 ds
    → horner 10 w ds < 2 ^ 32
    → consume_width w p (ascii_digits ds ++ (c ∷ rest)) ≡ (horner 10 w ds, p, c ∷ rest)
consume_width_digits w p c [] rest conv ne all fits = consume_width_end w p c rest conv
consume_width_digits w p c (d ∷ ds) rest conv ne (h, all) fits =
    let small : w * 10 + d ≤ horner 10 (w * 10 + d) ds =
      horner-le 10 (w * 10 + d) ds (omega arith) in
    consume_width_step w p d (ascii_digits ds ++ (c ∷ rest)) h ne (omega arith)
    ∙ consume_width_digits (w * 10 + d) p c ds rest conv ne all fits

-- The first digit settles the padding.
consume_width_zero : (s : List ℕ) → consume_width 0 0 (b'0' ∷ s) ≡ consume_width 0 b'0' s
unfolding consume_width
consume_width_zero s = refl

consume_width_first :
    (d : ℕ) (s : List ℕ)
    → d < 10
    → d ≢ 0
    → consume_width 0 0 ((b'0' + d) ∷ s) ≡ consume_width d b' ' s
unfolding consume_width
consume_width_first d s h ne =
    let e : (ltb (b'0' + d) b'0' || ltb b'9' (b'0' + d)) ≡ false = ground arith in
    let z : (b'0' + d == b'0') ≡ false = ground arith in
    let v : u32 (0 * 10 + (b'0' + d - b'0')) ≡ d = omega arith in rw (e, z, v) refl

consume_width_spaces :
    (c : ℕ) (ds rest : List ℕ)
    → IsConversion c
    → AllBelow 10 ds
    → get_or ds 0 0 ≢ 0
    → horner 10 0 ds < 2 ^ 32
    → consume_width 0 0 (ascii_digits ds ++ (c ∷ rest)) ≡ (horner 10 0 ds, b' ', c ∷ rest)
consume_width_spaces c [] rest conv all lead fits = absurd (lead refl)
consume_width_spaces c (d ∷ ds) rest conv (h, all) lead fits =
    let z : 0 * 10 + d ≡ d = omega arith in
    consume_width_first d (ascii_digits ds ++ (c ∷ rest)) h lead
    ∙ consume_width_digits d b' ' c ds rest conv (omega arith) all (rw z at fits)
    ∙ ap (λ t. (horner 10 t ds, b' ', c ∷ rest)) (sym z)

IsNumeral-lead : (w : ℕ) (ds : List ℕ) → IsNumeral 10 w ds → 0 < w → get_or ds 0 0 ≢ 0
IsNumeral-lead w ds (val, _, lead) h z =
    let e : horner 10 0 ds ≡ 0 = ap (horner 10 0) (lead z) ∙ omega arith in omega arith

consume_width_text :
    (p w c : ℕ) (ds rest : List ℕ)
    → IsConversion c
    → IsWidth p w ds
    → consume_width 0 0 (width_text p ds ++ (c ∷ rest)) ≡ (w, p, c ∷ rest)
consume_width_text p w c ds rest conv (inl (ep, ew, ed)) =
    rw (ep, ew, ed) (consume_width_end 0 0 c rest conv)
consume_width_text p w c ds rest conv (inr (inl ep, (val, all, lead), pos, le)) = rw ep (
    consume_width_zero (ascii_digits ds ++ (c ∷ rest))
    ∙ consume_width_digits 0 b'0' c ds rest conv (omega arith) all (omega arith)
    ∙ ap (λ t. (t, b'0', c ∷ rest)) val)
consume_width_text p w c ds rest conv (inr (inr ep, (val, all, lead), pos, le)) = rw ep (
    consume_width_spaces c ds rest conv all (IsNumeral-lead w ds (val, all, lead) pos) (omega arith)
    ∙ ap (λ t. (t, b' ', c ∷ rest)) val)

-- A width text does not start with a `!`.
no_bang :
    (p w c : ℕ) (ds rest : List ℕ)
    → IsConversion c
    → IsWidth p w ds
    → consume_bang (width_text p ds ++ (c ∷ rest)) ≡ (false, width_text p ds ++ (c ∷ rest))
unfolding consume_bang
no_bang p w c ds rest (_, ne, _) (inl (ep, ew, ed)) =
    let e : (c == b'!') ≡ false = ground arith in rw (ep, ed, e) refl
no_bang p w c ds rest conv (inr (inl ep, _, _, _)) = rw ep refl
no_bang p w c [] rest (_, ne, _) (inr (inr ep, _, _, _)) =
    let e : (c == b'!') ≡ false = ground arith in rw (ep, e) refl
no_bang p w c (d ∷ ds) rest conv (inr (inr ep, (val, (h, all), lead), pos, le)) =
    let e : (b'0' + d == b'!') ≡ false = ground arith in rw (ep, e) refl

specifier_of_lem :
    (spec : FormatSpecifier) (ds rest : List ℕ)
    → IsConversion spec.type
    → IsWidth spec.padding spec.width ds
    → specifier_of spec.is_nonstd spec.width spec.padding (spec.type ∷ rest) ≡ consumed spec rest
unfolding specifier_of
specifier_of_lem spec ds rest (ne, _, _) width =
    let z : (spec.type == 0) ≡ false = ground arith in
    let ok : ((spec.width == 0 && not (spec.padding == 0)) || ltb 32 spec.width) ≡ false =
      ground arith in
    rw (z, ok) refl

consume_bang_lem :
    (spec : FormatSpecifier) (ds rest : List ℕ)
    → IsConversion spec.type
    → IsWidth spec.padding spec.width ds
    → consume_bang (spec_text spec ds rest)
      ≡ (spec.is_nonstd, width_text spec.padding ds ++ (spec.type ∷ rest))
unfolding consume_bang
consume_bang_lem spec ds rest conv width = elim (Bool-cases spec.is_nonstd) [
  | inl e ↦ rw e refl
  | inr e ↦ rw e (no_bang spec.padding spec.width spec.type ds rest conv width)
]

-- A specifier that is written as `spec_text` has it is parsed as itself.
pub consume_format_specifier-spec_text :
    (spec : FormatSpecifier) (ds rest : List ℕ)
    → IsConversion spec.type
    → IsWidth spec.padding spec.width ds
    → consume_format_specifier (spec_text spec ds rest) ≡ consumed spec rest
unfolding consume_format_specifier
consume_format_specifier-spec_text spec ds rest conv width =
    rw
      (
        consume_bang_lem spec ds rest conv width,
        consume_width_text spec.padding spec.width spec.type ds rest conv width,
      )
      (specifier_of_lem spec ds rest conv width)
