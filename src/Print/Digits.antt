-- ===== src/Print/Digits.antt =====
-- Numbers are printed so that they read back.
use mathlib.Core.List.{append-nil}
use native.Mathlib.Nat.{div-add-mod, mod-lt, mul-le-mul_right, mul_comm, pow-suc}
use sunburst_chip.Base.{
  ℕ, zero, suc, ◌+◌, ◌-◌, ◌*◌, ◌/◌, ◌%◌, ◌^◌, ◌≤◌, ◌<◌, min, ◌≡◌, ◌≢◌, refl, sym, ap, ap₂, ◌∙◌,
  ℕ_discrete, arith, ◌==◌, if◌then◌else◌, List, [], ◌∷◌, ◌++◌, map, length, length-append, get_or,
  Bool-cases, inl, inr,
}
use sunburst_chip.Print.{digits_loop, pad_loop, write_digits, replicate}

-- The value of digits, the highest first.
abbrev pub horner : ℕ → ℕ → List ℕ → ℕ
horner base acc [] = acc
horner base acc (d ∷ ds) = horner base (acc * base + d) ds

abbrev pub AllBelow : ℕ → List ℕ → Type 0
AllBelow base [] = Unit {0}
AllBelow base (d ∷ ds) = (d < base) × AllBelow base ds

-- The numeral of a value in a base, with no leading zero but for the value 0.
abbrev pub IsNumeral : ℕ → ℕ → List ℕ → Type 0
IsNumeral base value ds =
    (horner base 0 ds ≡ value) × AllBelow base ds × (get_or ds 0 0 ≡ 0 → ds ≡ 0 ∷ [])

pub horner-append :
    (base acc d : ℕ) (ds : List ℕ)
    → horner base acc (ds ++ (d ∷ [])) ≡ horner base acc ds * base + d
horner-append base acc d [] = refl
horner-append base acc d (e ∷ ds) = horner-append base (acc * base + e) d ds

pub AllBelow-append :
    (base d : ℕ) (ds : List ℕ) → d < base → AllBelow base ds → AllBelow base (ds ++ (d ∷ []))
AllBelow-append base d [] h all = (h, tt)
AllBelow-append base d (e ∷ ds) h (p, all) = (p, AllBelow-append base d ds h all)

pad_loop_lem :
    (n padding : ℕ) (buffer : List ℕ) → pad_loop n padding buffer ≡ replicate n padding ++ buffer
unfolding pad_loop
pad_loop_lem zero padding buffer = refl
pad_loop_lem (suc n) padding buffer = pad_loop_lem n padding (padding ∷ buffer) ∙ sym (shift n)
  where
    shift :
        (k : ℕ)
        → padding ∷ (replicate k padding ++ buffer) ≡ replicate k padding ++ (padding ∷ buffer)
    shift zero = refl
    shift (suc k) = ap (λ t. padding ∷ t) (shift k)

-- A quotient by a base is at most half.
half_lem : (base value bound : ℕ) → 2 ≤ base → value < bound * 2 → value / base < bound
half_lem base value bound two h =
    let q = value / base in
    let e : base * q + value % base ≡ value = div-add-mod value base in
    let f : 2 * q ≤ base * q = mul-le-mul_right q two in omega arith

length-map : (f : ℕ → ℕ) (xs : List ℕ) → length (map f xs) ≡ length xs
length-map f [] = refl
length-map f (x ∷ xs) = ap suc (length-map f xs)

module _ (base : ℕ) (glyphs : List ℕ) (two : 2 ≤ base) where
  abbrev glyph : ℕ → ℕ
  glyph d = get_or glyphs d 0

  -- The digits of a value that is not 0, or none.
  abbrev IsDigits : ℕ → ℕ → List ℕ → List ℕ → Type 0
  IsDigits fuel value buffer out =
      (ds : List ℕ) × (out ≡ map glyph ds ++ buffer)
      × (horner base 0 ds ≡ value)
      × AllBelow base ds
      × (length ds ≤ fuel)
      × ((value ≢ 0) → get_or ds 0 0 ≢ 0)
      × (value ≡ 0 → ds ≡ [])

  digits_loop_lem :
      (fuel value : ℕ) (buffer : List ℕ)
      → value < 2 ^ fuel
      → IsDigits fuel value buffer (digits_loop fuel value base glyphs buffer)
  unfolding digits_loop
  digits_loop_lem zero value buffer h =
      ([], refl, omega arith, tt, omega arith, λ ne. absurd (omega arith), λ e. refl)
  digits_loop_lem (suc fuel) value buffer h = elim (Bool-cases (value == 0)) [
    | inl e ↦
        let z : value ≡ 0 = ground arith in
        rw e ([], refl, sym z, tt, omega arith, λ ne. absurd (ne z), λ _. refl)
    | inr e ↦
        let d = value % base in
        let q = value / base in
        let ne : value ≢ 0 = ground arith in
        let below : d < base = mod-lt value (omega arith) in
        let small : q < 2 ^ fuel =
          half_lem base value (2 ^ fuel) two (omega (arith, pow-suc 2 fuel)) in
        let (ds, out, val, all, len, lead, none_left) =
          digits_loop_lem fuel q (glyph d ∷ buffer) small in
        let split : base * q + d ≡ value = div-add-mod value base in
        rw e (
          ds ++ (d ∷ []),
          out ∙ digits_append ds d buffer,
          horner-append base 0 d ds ∙ ap (λ t. t * base + d) val ∙ omega (arith, mul_comm base q),
          AllBelow-append base d ds below all,
          omega (arith, length-append ds (d ∷ [])),
          λ _. leads value q d ds ne split lead none_left,
          λ z. absurd (ne z),
        )
  ]
    where
      digits_append :
          (ds : List ℕ) (d : ℕ) (rest : List ℕ)
          → map glyph ds ++ (glyph d ∷ rest) ≡ map glyph (ds ++ (d ∷ [])) ++ rest
      digits_append [] d rest = refl
      digits_append (e ∷ ds) d rest = ap (λ t. glyph e ∷ t) (digits_append ds d rest)

      nonempty : (e : ℕ) (ds : List ℕ) → e ∷ ds ≢ []
      nonempty e ds h = ground arith

      leads :
          (v q d : ℕ) (ds : List ℕ)
          → v ≢ 0
          → base * q + d ≡ v
          → (q ≢ 0 → get_or ds 0 0 ≢ 0)
          → (q ≡ 0 → ds ≡ [])
          → get_or (ds ++ (d ∷ [])) 0 0 ≢ 0
      leads v q d [] ne split lead none_left = elim (ℕ_discrete q 0) [
        | yes z ↦ λ dz. ne (sym split ∙ ap (λ t. base * t + d) z ∙ omega arith)
        | no nz ↦ absurd (lead nz refl)
      ]
      leads v q d (e ∷ ds) ne split lead none_left = elim (ℕ_discrete q 0) [
        | yes z ↦ absurd (nonempty e ds (none_left z))
        | no nz ↦ lead nz
      ]

-- A value below 2 ^ 32 is printed in a base of 2 or more by one call of the sink: the glyphs of its
-- numeral in that base, which reads back as the value, has every digit below the base, no leading
-- zero but for the value 0 and at most 32 digits, after as much padding as brings it to the width,
-- at least 1 and at most 32.
pub write_digits_lem :
    (value width padding base : ℕ) (glyphs : List ℕ)
    → value < 2 ^ 32
    → 2 ≤ base
    → (ds : List ℕ) × IsNumeral base value ds
      × (length ds ≤ 32)
      × (write_digits value width padding base glyphs
          ≡ (replicate (min (if width == 0 then 1 else width) 32 - length ds) padding
              ++ map (λ d. get_or glyphs d 0) ds)
            ∷ [])
unfolding write_digits
write_digits_lem value width padding base glyphs h two = elim (Bool-cases (value == 0)) [
  | inl e ↦
      let z : value ≡ 0 = ground arith in
      rw e (
        0 ∷ [],
        (omega arith, (omega arith, tt), λ _. refl),
        omega arith,
        ap (λ t. t ∷ []) (pad_loop_lem _ padding (get_or glyphs 0 0 ∷ [])),
      )
  | inr e ↦
      let ne : value ≢ 0 = ground arith in
      let (ds, out, val, all, len, lead, _) = digits_loop_lem base glyphs two 32 value [] h in
      let out' = out ∙ append-nil (map (λ d. get_or glyphs d 0) ds) in
      let size : length (digits_loop 32 value base glyphs []) ≡ length ds =
        ap length out' ∙ length-map (λ d. get_or glyphs d 0) ds in
      let w = min (if width == 0 then 1 else width) 32 in
      rw e (
        ds,
        (val, all, λ z. absurd (lead ne z)),
        len,
        ap (λ t. t ∷ [])
            (pad_loop_lem _ padding (digits_loop 32 value base glyphs [])
              ∙ ap₂ (λ n t. replicate (w - n) padding ++ t) size out'),
      )
]
