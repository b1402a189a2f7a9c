-- ===== src/Math/Division.antt =====
-- `udiv64_slow` and division with remainder on `uint64_t`.
use native.Mathlib.Nat.{pow-suc, div-div-eq-div-mul, div-le_self, one-le-pow, mod-lt}
use native.Mathlib.Nat.{div-eq_of_lt-le, mul-add-mod_self_right, mod-eq_of_lt, div-add-mod}
use sunburst_chip.Base.{◌↔◌}
use sunburst_chip.Base.{ℕ, zero, suc, ◌+◌, ◌-◌, ◌*◌, ◌/◌, ◌%◌, ◌^◌, ◌≤◌, ◌<◌, bit_and}
use sunburst_chip.Base.{◌≡◌, arith, ap, refl, sym, u64}
use sunburst_chip.Base.{leb, if◌then◌else◌, Bool-cases, inl, inr, ◌∙◌, ℕ_discrete, dec_lt, ◌==◌}
use sunburst_chip.Bits.{bit_and_mask, bit_or_fields}
use sunburst_chip.Math.{udiv64_round, udiv64_loop, udiv64_slow, ceil_div}

-- `a >> (left + 1)` is half of `a >> left`.
halves : (a left : ℕ) → a / 2 ^ suc left ≡ a / 2 ^ left / 2
halves a left = rw (pow-suc 2 left) (sym (div-div-eq-div-mul a (2 ^ left) 2))

-- One round as arithmetic, where the shifts drop no bit.
round_eq :
    (a b left quot rem : ℕ)
    → quot < 2 ^ 63
    → rem < 2 ^ 63
    → let x = a / 2 ^ left in
      udiv64_round a b left quot rem ≡ (
        if leb b (rem * 2 + x % 2)
        then (quot * 2 + 1, rem * 2 + x % 2 - b)
        else (quot * 2, rem * 2 + x % 2))
unfolding udiv64_round
round_eq a b left quot rem hq hr =
    let x = a / 2 ^ left in
    let wq : u64 (quot * 2 ^ 1) ≡ quot * 2 ^ 1 = omega arith in
    let wr : u64 (rem * 2 ^ 1) ≡ rem * 2 ^ 1 = omega arith in
    let low : bit_and x 1 ≡ x % 2 = bit_and_mask 1 x in
    rw
      (wq, wr, low, bit_or_fields 1 quot 1 (omega arith), bit_or_fields 1 rem (x % 2) (omega arith))
      refl

-- A round brings down the next bit of `a`, while the quotient fits 63 bits.
round_step :
    (a b left quot rem : ℕ)
    → a < 2 ^ 64
    → quot * b + rem ≡ a / 2 ^ suc left
    → rem < b
    → let (q, r) = udiv64_round a b left quot rem in (q * b + r ≡ a / 2 ^ left) × (r < b)
round_step a b left quot rem ha e h =
    let x = a / 2 ^ left in
    let top : x ≤ a = div-le_self a (2 ^ left) in
    let half = halves a left in
    let big : quot ≤ quot * b = grind arith in
    let y = rem * 2 + x % 2 in
    rw (round_eq a b left quot rem (omega arith) (omega arith)) (elim (Bool-cases (leb b y)) [
      | inl le ↦ rw le (ground arith, ground arith)
      | inr gt ↦ rw gt (ground arith, ground arith)
    ])

loop_lem :
    (a b left quot rem : ℕ)
    → a < 2 ^ 64
    → quot * b + rem ≡ a / 2 ^ left
    → rem < b
    → let (q, r) = udiv64_loop a b left quot rem in (q * b + r ≡ a) × (r < b)
unfolding udiv64_loop
loop_lem a b zero quot rem ha e h = (omega arith, h)
loop_lem a b (suc left) quot rem ha e h =
    let (e', h') = round_step a b left quot rem ha e h in
    loop_lem a b left (udiv64_round a b left quot rem).0 (udiv64_round a b left quot rem).1 ha e' h'

-- A quotient and a remainder below the divisor are those of the division.
division_unique : (a b q r : ℕ) → q * b + r ≡ a → r < b → (q ≡ a / b) × (r ≡ a % b)
division_unique a b q r e h =
    let p : a / b ≡ q = div-eq_of_lt-le {k = q} b {m = a} (omega arith) (omega arith) in
    (sym p, sym (mod-eq_of_lt h) ∙ sym (mul-add-mod_self_right q b r) ∙ ap (λ t. t % b) e)

-- For a 64-bit dividend and a divisor that is not 0, the loop returns the quotient and the
-- remainder.
pub udiv64_slow_lem : (a b : ℕ) → a < 2 ^ 64 → 0 < b → udiv64_slow a b ≡ (a / b, a % b)
unfolding udiv64_slow
udiv64_slow_lem a b ha hb =
    let start : 0 * b + 0 ≡ a / 2 ^ 64 = omega arith in
    let (e, h) = loop_lem a b 64 0 0 ha start hb in
    let (p, q) = division_unique a b (udiv64_loop a b 64 0 0).0 (udiv64_loop a b 64 0 0).1 e h in
    λ i. (p i, q i)

-- With divisor 0 every round subtracts nothing and sets a bit.
zero_round :
    (a left quot rem : ℕ)
    → quot < 2 ^ 63
    → rem < 2 ^ 63
    → rem ≡ a / 2 ^ suc left
    → udiv64_round a 0 left quot rem ≡ (quot * 2 + 1, a / 2 ^ left)
zero_round a left quot rem hq hr e =
    let y : rem * 2 + a / 2 ^ left % 2 ≡ a / 2 ^ left = omega (arith, halves a left) in
    round_eq a 0 left quot rem hq hr ∙ ground (arith, y)

zero_loop :
    (a left quot rem : ℕ)
    → a < 2 ^ 64
    → rem ≡ a / 2 ^ left
    → (quot + 1) * 2 ^ left ≡ 2 ^ 64
    → udiv64_loop a 0 left quot rem ≡ (2 ^ 64 - 1, a)
unfolding udiv64_loop
zero_loop a zero quot rem ha e c =
    λ i. ((let p : quot ≡ 2 ^ 64 - 1 = omega arith in p) i, (let p : rem ≡ a = omega arith in p) i)
zero_loop a (suc left) quot rem ha e c =
    let k : 1 ≤ 2 ^ left = one-le-pow left 2 (omega arith) in
    let d : (quot * 2 + 1 + 1) * 2 ^ left ≡ 2 ^ 64 =
      omega (arith, ap (λ (t : ℕ). (quot + 1) * t) (pow-suc 2 left)) in
    let m : quot * 2 + 1 + 1 ≤ (quot * 2 + 1 + 1) * 2 ^ left = grind arith in
    let small : a / 2 ^ left ≤ a = div-le_self a (2 ^ left) in
    rw (zero_round a left quot rem (omega arith) (omega (arith, halves a left)) e)
      (zero_loop a left (quot * 2 + 1) (a / 2 ^ left) ha refl d)

-- For a 64-bit dividend and the divisor 0, the quotient is all ones and the remainder is the
-- dividend.
udiv64_slow-zero : (a : ℕ) → a < 2 ^ 64 → udiv64_slow a 0 ≡ (2 ^ 64 - 1, a)
unfolding udiv64_slow
udiv64_slow-zero a ha = zero_loop a 64 0 0 ha (omega arith) refl

le_of_mul-lt : (b q c : ℕ) → q * b < (c + 1) * b → q ≤ c
le_of_mul-lt b q c h = elim (dec_lt c q) [
  | yes p ↦ let k : (c + 1) * b ≤ q * b = grind arith in absurd (omega arith)
  | no p ↦ omega arith
]

-- `ceil_div` is the least number whose product with `b` reaches `a`.
ceil_div_least :
    (a b : ℕ)
    → a < 2 ^ 32
    → 0 < b
    → (a ≤ ceil_div a b * b) × ((c : ℕ) → a ≤ c * b → ceil_div a b ≤ c)
unfolding ceil_div
ceil_div_least a b ha hb =
    let e : b * (a / b) + a % b ≡ a = div-add-mod a b in
    let r : a % b < b = mod-lt a hb in
    let small : a / b ≤ b * (a / b) = grind arith in
    elim (ℕ_discrete (a % b) 0) [
      | yes z ↦ rw z (omega arith, λ c h. le_of_mul-lt b (a / b) c (omega arith))
      | no n ↦
          let fits : (a / b + 1) % 2 ^ 32 ≡ a / b + 1 = mod-eq_of_lt (omega arith) in
          let up : (if a % b == 0 then a / b else (a / b + 1) % 2 ^ 32) ≡ a / b + 1 =
            ground arith in
          rw up (omega arith, λ c h. le_of_mul-lt b (a / b + 1) c (omega arith))
    ]

-- For a 32-bit dividend and a divisor that is not 0, `ceil_div` is at most `c` exactly where `c`
-- times the divisor is at least the dividend: it is the quotient rounded up.
ceil_div_lem : (a b c : ℕ) → a < 2 ^ 32 → 0 < b → (ceil_div a b ≤ c) ↔ (a ≤ c * b)
ceil_div_lem a b c ha hb =
    let (reaches, least) = ceil_div_least a b ha hb in (λ h. grind arith, least c)
