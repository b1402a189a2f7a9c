-- ===== src/Bits.antt =====
-- The bits of a number, and what C's bit operations do to each.
mod Step
pub use Step.*
use native.Mathlib.Nat.{pow-suc, mul_comm, div-div-eq-div-mul, one-le-pow, mod-eq_of_lt, mod-lt}
use native.Mathlib.Nat.{div-add-mod, mul-add-mod_self_left}
use sunburst_chip.Base.{ℕ, zero, suc, ◌+◌, ◌-◌, ◌*◌, ◌/◌, ◌%◌, ◌^◌, ◌≤◌, ◌<◌, min, max}
use sunburst_chip.Base.{
  bit_and, bit_or, bit_xor, ◌≡◌, refl, sym, ◌∙◌, ap, arith, ltb, ◌==◌, if◌then◌else◌,
}
use Step.{bit_and_step, bit_or_step, bit_xor_step}

-- Bit `j` of `n`, as 0 or 1.
pub bit : ℕ → ℕ → ℕ
bit zero n = n % 2
bit (suc j) n = bit j (n / 2)

pub bit-le-one : (j n : ℕ) → bit j n ≤ 1
unfolding bit
bit-le-one zero n = omega arith
bit-le-one (suc j) n = bit-le-one j (n / 2)

pub bit-zero : (j : ℕ) → bit j 0 ≡ 0
unfolding bit
bit-zero zero = refl
bit-zero (suc j) = bit-zero j

pub bit-one : (j : ℕ) → bit j 1 ≡ (if j == 0 then 1 else 0)
unfolding bit
bit-one zero = refl
bit-one (suc j) = ground (arith, bit-zero j)

pub bit-head : (n : ℕ) → bit 0 n ≡ n % 2
unfolding bit
bit-head n = refl

pub bit-bit_and : (j a b : ℕ) → bit j (bit_and a b) ≡ min (bit j a) (bit j b)
unfolding bit
bit-bit_and zero a b = omega (arith, bit_and_step a b)
bit-bit_and (suc j) a b =
    let e : bit_and a b / 2 ≡ bit_and (a / 2) (b / 2) = omega (arith, bit_and_step a b) in
    rw e (bit-bit_and j (a / 2) (b / 2))

pub bit-bit_or : (j a b : ℕ) → bit j (bit_or a b) ≡ max (bit j a) (bit j b)
unfolding bit
bit-bit_or zero a b = omega (arith, bit_or_step a b)
bit-bit_or (suc j) a b =
    let e : bit_or a b / 2 ≡ bit_or (a / 2) (b / 2) = omega (arith, bit_or_step a b) in
    rw e (bit-bit_or j (a / 2) (b / 2))

pub bit-bit_xor : (j a b : ℕ) → bit j (bit_xor a b) ≡ (bit j a + bit j b) % 2
unfolding bit
bit-bit_xor zero a b = omega (arith, bit_xor_step a b)
bit-bit_xor (suc j) a b =
    let e : bit_xor a b / 2 ≡ bit_xor (a / 2) (b / 2) = omega (arith, bit_xor_step a b) in
    rw e (bit-bit_xor j (a / 2) (b / 2))

-- Two numbers with the same bits are equal.
bit_ext_fuel : (f a b : ℕ) → a ≤ f → b ≤ f → ((j : ℕ) → bit j a ≡ bit j b) → a ≡ b
unfolding bit
bit_ext_fuel zero a b p q h = omega arith
bit_ext_fuel (suc f) a b p q h =
    let low : a % 2 ≡ b % 2 = h 0 in
    let high : a / 2 ≡ b / 2 =
      bit_ext_fuel f (a / 2) (b / 2) (omega arith) (omega arith) (λ j. h (suc j)) in
    omega arith

pub bit_ext : (a b : ℕ) → ((j : ℕ) → bit j a ≡ bit j b) → a ≡ b
bit_ext a b h = bit_ext_fuel (a + b) a b (omega arith) (omega arith) h

two_shift : (w v : ℕ) → v * 2 ^ suc w ≡ v * 2 ^ w * 2
two_shift w v =
    let double : 2 ^ suc w ≡ 2 ^ w * 2 = pow-suc 2 w in omega (arith, ap (λ (m : ℕ). v * m) double)

div-two-pow-suc : (q k : ℕ) → q / 2 ^ suc k ≡ q / 2 / 2 ^ k
div-two-pow-suc q k = rw (pow-suc 2 k, mul_comm (2 ^ k) 2) (sym (div-div-eq-div-mul q 2 (2 ^ k)))

pub bit-shift_left : (k j n : ℕ) → bit j (n * 2 ^ k) ≡ (if ltb j k then 0 else bit (j - k) n)
unfolding bit
bit-shift_left zero j n = ground arith
bit-shift_left (suc k) zero n = ground (arith, two_shift k n)
bit-shift_left (suc k) (suc j) n =
    let e : n * 2 ^ suc k / 2 ≡ n * 2 ^ k = omega (arith, two_shift k n) in
    rw e (ground (arith, bit-shift_left k j n))

pub bit-shift_right : (k j n : ℕ) → bit j (n / 2 ^ k) ≡ bit (j + k) n
unfolding bit
bit-shift_right zero j n = ground arith
bit-shift_right (suc k) j n =
    rw (div-two-pow-suc n k, bit-shift_right k j (n / 2))
      (ap (λ i. bit i n) {x = suc (j + k)} {y = j + suc k} (omega arith))

mod-double : (n k : ℕ) → 0 < k → n % (2 * k) ≡ 2 * (n / 2 % k) + n % 2
mod-double n k h =
    let r = 2 * (n / 2 % k) + n % 2 in
    let e : n ≡ 2 * k * (n / 2 / k) + r = omega (arith, div-add-mod (n / 2) k) in
    ap (λ t. t % (2 * k)) e
    ∙ mul-add-mod_self_left (2 * k) (n / 2 / k) r
    ∙ mod-eq_of_lt (omega (arith, mod-lt (n / 2) h))

mod-two-pow-suc : (n w : ℕ) → n % 2 ^ suc w ≡ 2 * (n / 2 % 2 ^ w) + n % 2
mod-two-pow-suc n w =
    rw (pow-suc 2 w, mul_comm (2 ^ w) 2) (mod-double n (2 ^ w) (one-le-pow w 2 (omega arith)))

-- Only the bits below `w` are left by a remainder.
pub bit-mod : (w j n : ℕ) → bit j (n % 2 ^ w) ≡ (if ltb j w then bit j n else 0)
unfolding bit
bit-mod zero j n = ground (arith, bit-zero j)
bit-mod (suc w) zero n = ground (arith, mod-two-pow-suc n w)
bit-mod (suc w) (suc j) n =
    let e : n % 2 ^ suc w / 2 ≡ n / 2 % 2 ^ w = omega (arith, mod-two-pow-suc n w) in
    rw e (ground (arith, bit-mod w j (n / 2)))

-- A number below `2 ^ w` has no bit from `w` on.
pub bit-high : (w j n : ℕ) → n < 2 ^ w → w ≤ j → bit j n ≡ 0
bit-high w j n h le = let e : n % 2 ^ w ≡ n = mod-eq_of_lt h in ground (arith, bit-mod w j n)

-- `~n` at `w` bits.
pub bit-complement :
    (w j n : ℕ) → n < 2 ^ w → bit j (2 ^ w - 1 - n) ≡ (if ltb j w then 1 - bit j n else 0)
unfolding bit
bit-complement zero j n h = ground (arith, bit-zero j)
bit-complement (suc w) zero n h = ground (arith, pow-suc 2 w)
bit-complement (suc w) (suc j) n h =
    let e : (2 ^ suc w - 1 - n) / 2 ≡ 2 ^ w - 1 - n / 2 = omega (arith, pow-suc 2 w) in
    rw e (ground (arith, pow-suc 2 w, bit-complement w j (n / 2)))

-- A number whose bits from `w` on are 0 is below `2 ^ w`.
pub lt_of_bits : (w n : ℕ) → ((j : ℕ) → w ≤ j → bit j n ≡ 0) → n < 2 ^ w
lt_of_bits w n h =
    let e : n % 2 ^ w ≡ n = bit_ext (n % 2 ^ w) n (λ j. ground (arith, bit-mod w j n, h j)) in
    rw e at (mod-lt n {m = 2 ^ w} (one-le-pow w 2 (omega arith)))

-- A mask of `w` ones is the remainder by `2 ^ w`.
pub bit_and_mask : (w v : ℕ) → bit_and v (2 ^ w - 1) ≡ v % 2 ^ w
bit_and_mask w v = bit_ext _ _ λ j. ground (
  arith,
  bit-bit_and j v (2 ^ w - 1),
  bit-complement w j 0 (one-le-pow w 2 (omega arith)),
  bit-mod w j v,
  bit-zero j,
  bit-le-one j v,
)

-- `|` of a number with nothing.
pub zero-bit_or : (v : ℕ) → bit_or 0 v ≡ v
zero-bit_or v = bit_ext _ _ λ j. ground (arith, bit-bit_or j 0 v, bit-zero j)

pub zero-bit_and : (v : ℕ) → bit_and 0 v ≡ 0
zero-bit_and v = bit_ext _ _ λ j. ground (arith, bit-bit_and j 0 v, bit-zero j)

pub bit_and_self : (v : ℕ) → bit_and v v ≡ v
bit_and_self v = bit_ext _ _ λ j. ground (arith, bit-bit_and j v v)

pub bit_or_comm : (a b : ℕ) → bit_or a b ≡ bit_or b a
bit_or_comm a b = bit_ext _ _ λ j. omega (arith, bit-bit_or j a b, bit-bit_or j b a)

-- `hi | lo` is a sum where `hi` is a multiple of `2 ^ k` and `lo` is below it.
pub bit_or_fields : (k q r : ℕ) → r < 2 ^ k → bit_or (q * 2 ^ k) r ≡ q * 2 ^ k + r
bit_or_fields zero q r fits =
    let e : r ≡ 0 = omega arith in ground (arith, bit_or_comm q 0, zero-bit_or q)
bit_or_fields (suc k) q r fits =
    ground
      (arith, bit_or_step (q * 2 ^ suc k) r, two_shift k q, bit_or_fields k q (r / 2) (omega arith))

pub bit_or_assoc : (a b c : ℕ) → bit_or (bit_or a b) c ≡ bit_or a (bit_or b c)
bit_or_assoc a b c = bit_ext _ _ λ j. omega (
  arith,
  bit-bit_or j a b,
  bit-bit_or j b c,
  bit-bit_or j (bit_or a b) c,
  bit-bit_or j a (bit_or b c),
)

-- Bitwise operations stay within the width.
pub bit_or-lt : (w a b : ℕ) → a < 2 ^ w → b < 2 ^ w → bit_or a b < 2 ^ w
bit_or-lt w a b p q =
    lt_of_bits w _ λ j le. omega (arith, bit-bit_or j a b, bit-high w j a p le, bit-high w j b q le)

pub bit_xor-lt : (w a b : ℕ) → a < 2 ^ w → b < 2 ^ w → bit_xor a b < 2 ^ w
bit_xor-lt w a b p q =
    lt_of_bits w _
      λ j le. omega (arith, bit-bit_xor j a b, bit-high w j a p le, bit-high w j b q le)

pub bit_xor_assoc : (a b c : ℕ) → bit_xor (bit_xor a b) c ≡ bit_xor a (bit_xor b c)
bit_xor_assoc a b c = bit_ext _ _ λ j. omega (
  arith,
  bit-bit_xor j a b,
  bit-bit_xor j b c,
  bit-bit_xor j (bit_xor a b) c,
  bit-bit_xor j a (bit_xor b c),
)

pub bit_xor_comm : (a b : ℕ) → bit_xor a b ≡ bit_xor b a
bit_xor_comm a b = bit_ext _ _ λ j. omega (arith, bit-bit_xor j a b, bit-bit_xor j b a)
