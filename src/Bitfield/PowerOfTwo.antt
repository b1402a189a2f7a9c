-- ===== src/Bitfield/PowerOfTwo.antt =====
-- `bitfield_is_power_of_two32` finds exactly the powers of two.
use native.Mathlib.Nat.{pow-suc, one-le-pow, mul_comm}
use sunburst_chip.Base.{ℕ, zero, suc, ◌+◌, ◌-◌, ◌*◌, ◌/◌, ◌%◌, ◌^◌, ◌≤◌, bit_and, ◌≡◌, ◌≢◌, arith}
use sunburst_chip.Base.{true, refl, ◌↔◌, min, ℕ_discrete, ap, ap₂, sym, ◌∙◌}
use sunburst_chip.Bits.{bit_and_step, bit_and_self}
use sunburst_chip.Bitfield.{is_power_of_two32}

-- The clearing step on an even number is that on its half.
clear-double : (m : ℕ) → m ≢ 0 → bit_and (2 * m) (2 * m - 1) ≡ 2 * bit_and m (m - 1)
clear-double m ne =
    let e : 2 * m / 2 ≡ m = omega arith in
    let c : (2 * m - 1) / 2 ≡ m - 1 = omega arith in
    let s : bit_and (2 * m) (2 * m - 1)
        ≡ bit_and (2 * m / 2) ((2 * m - 1) / 2) * 2 + min (2 * m % 2) ((2 * m - 1) % 2) =
      bit_and_step (2 * m) (2 * m - 1) in
    omega (arith, rw (e, c) at s)

-- Clearing the lowest bit of an odd number leaves the others.
clear-odd : (m : ℕ) → bit_and (2 * m + 1) (2 * m) ≡ 2 * m
clear-odd m =
    let e : (2 * m + 1) / 2 ≡ m = omega arith in
    let c : 2 * m / 2 ≡ m = omega arith in
    let s : bit_and (2 * m + 1) (2 * m)
        ≡ bit_and ((2 * m + 1) / 2) (2 * m / 2) * 2 + min ((2 * m + 1) % 2) (2 * m % 2) =
      bit_and_step (2 * m + 1) (2 * m) in
    omega (arith, rw (e, c) at s, bit_and_self m)

-- Clearing the lowest bit of `n` leaves nothing only if `n` is a power of two.
power_of_clear : (f n : ℕ) → n ≤ f → n ≢ 0 → bit_and n (n - 1) ≡ 0 → (k : ℕ) × (n ≡ 2 ^ k)
power_of_clear zero n le ne h = absurd (omega arith)
power_of_clear (suc f) n le ne h = elim (ℕ_discrete (n % 2) 0) [
  | yes even ↦
      let m = n / 2 in
      let e : n ≡ 2 * m = omega arith in
      let s : bit_and m (m - 1) ≡ 0 =
        omega (arith, clear-double m (omega arith), ap (λ (t : ℕ). bit_and t (t - 1)) e) in
      let (k, p) = power_of_clear f m (omega arith) (omega arith) s in
      (suc k, omega (arith, pow-suc 2 k))
  | no odd ↦
      let m = n / 2 in
      let e : n ≡ 2 * m + 1 = omega arith in
      let e' : n - 1 ≡ 2 * m = omega arith in
      let s : bit_and (2 * m + 1) (2 * m) ≡ 0 = ap₂ bit_and (sym e) (sym e') ∙ h in
      (0, omega (arith, clear-odd m))
]

clear_power : (k : ℕ) → bit_and (2 ^ k) (2 ^ k - 1) ≡ 0
clear_power zero = refl
clear_power (suc k) =
    rw (pow-suc 2 k, mul_comm (2 ^ k) 2)
      (omega
        (arith, clear-double (2 ^ k) (omega (arith, one-le-pow k 2 (omega arith))), clear_power k))

-- `bitfield_is_power_of_two32` holds of a number exactly when it is a power of two.
is_power_of_two32_iff : (n : ℕ) → (is_power_of_two32 n ≡ true) ↔ ((k : ℕ) × (n ≡ 2 ^ k))
unfolding is_power_of_two32
is_power_of_two32_iff n = (
  λ h. power_of_clear n n (omega arith) (ground arith) (ground arith),
  λ (k, e). rw e (ground (arith, clear_power k, one-le-pow k 2 (omega arith))),
)
