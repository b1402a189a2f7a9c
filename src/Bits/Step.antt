-- ===== src/Bits/Step.antt =====
-- The native bit operations by their lowest digit: each is defined by binary digits with fuel, and
-- more fuel than the first operand makes no difference.
use Prim.Native.Nat.{digits, bitwise, differ, bit_and-bitwise, bit_or-bitwise, bit_xor-bitwise}
use sunburst_chip.Base.{ℕ, zero, suc, ◌+◌, ◌*◌, ◌/◌, ◌%◌, ◌≤◌, ◌<◌, min, max}
use sunburst_chip.Base.{bit_and, bit_or, bit_xor, ◌≡◌, refl, arith}

-- `rest` is what is taken of the second operand where the first has run out.
module _ (rest : ℕ → ℕ) (op : ℕ → ℕ → ℕ) where
  spare :
      (x more less y : ℕ) → x ≤ less → x ≤ more → digits rest op more x y ≡ digits rest op less x y
  spare zero zero zero y enough also = refl
  spare zero (suc more) zero y enough also = refl
  spare zero zero (suc less) y enough also = refl
  spare zero (suc more) (suc less) y enough also = refl
  spare (suc x) zero less y enough also = absurd (omega arith)
  spare (suc x) (suc more) zero y enough also = absurd (omega arith)
  spare (suc x) (suc more) (suc less) y enough also =
      let half : suc x / 2 ≤ less = omega arith in
      rw (spare (suc x / 2) more less (y / 2) half (omega arith)) refl

  low_digit :
      (x y : ℕ)
      → bitwise rest op (suc x) y ≡ bitwise rest op (suc x / 2) (y / 2) * 2 + op (suc x % 2) (y % 2)
  low_digit x y =
      let half : suc x / 2 ≤ x = omega arith in
      omega (arith, spare (suc x / 2) x (suc x / 2) (y / 2) (omega arith) half)

pub bit_and_step : (x y : ℕ) → bit_and x y ≡ bit_and (x / 2) (y / 2) * 2 + min (x % 2) (y % 2)
bit_and_step zero y = simp bit_and-bitwise (omega arith)
bit_and_step (suc x) y = simp bit_and-bitwise (low_digit (λ v. 0) min x y)

pub bit_or_step : (x y : ℕ) → bit_or x y ≡ bit_or (x / 2) (y / 2) * 2 + max (x % 2) (y % 2)
bit_or_step zero y = simp bit_or-bitwise (omega arith)
bit_or_step (suc x) y = simp bit_or-bitwise (low_digit (λ v. v) max x y)

differ_low : (x y : ℕ) → x < 2 → y < 2 → differ x y ≡ (x + y) % 2
differ_low zero y p q = omega arith
differ_low (suc zero) zero p q = refl
differ_low (suc zero) (suc zero) p q = refl
differ_low (suc zero) (suc (suc y)) p q = absurd (omega arith)
differ_low (suc (suc x)) y p q = absurd (omega arith)

pub bit_xor_step : (x y : ℕ) → bit_xor x y ≡ bit_xor (x / 2) (y / 2) * 2 + (x + y) % 2
bit_xor_step zero y = simp bit_xor-bitwise (omega arith)
bit_xor_step (suc x) y = simp bit_xor-bitwise (
    omega (
      arith,
      low_digit (λ v. v) differ x y,
      differ_low (suc x % 2) (y % 2) (omega arith) (omega arith),
    ))
