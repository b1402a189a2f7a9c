-- ===== src/RvTimer/Gcd.antt =====
-- The divisor that the tick parameters are reduced by.
use Prim.Native.Nat.{◌∣◌}
use native.Mathlib.Nat.{dvd_refl, dvd-zero, dvd-mod_iff, mod-lt}
use sunburst_chip.Base.{ℕ, zero, suc, ◌%◌, ◌^◌, ◌<◌, ◌≡◌, refl, arith, ◌==◌, ◌∙◌}
use sunburst_chip.Base.{some, false, ℕ_discrete}
use sunburst_chip.Math.Division.{udiv64_slow_lem}
use sunburst_chip.RvTimer.{euclidean_gcd}

-- `g` is the greatest common divisor of `a` and `b`.
pub record IsGcd (a b g : ℕ) : Type 0 where
  pub left : g ∣ a
  pub right : g ∣ b
  pub greatest : (d : ℕ) → d ∣ a → d ∣ b → d ∣ g

euclidean_gcd-step :
    (fuel a b : ℕ)
    → a < 2 ^ 64
    → 0 < b
    → euclidean_gcd (suc fuel) a b ≡ euclidean_gcd fuel b (a % b)
unfolding euclidean_gcd
euclidean_gcd-step fuel a b ha hb =
    let t : (b == 0) ≡ false = ground arith in rw (t, udiv64_slow_lem a b ha hb) refl

-- For two 64-bit numbers, more rounds than the second one are enough for the loop to return, and it
-- returns their greatest common divisor.
pub euclidean_gcd-IsGcd :
    (fuel a b : ℕ)
    → b < fuel
    → a < 2 ^ 64
    → b < 2 ^ 64
    → (g : ℕ) × (euclidean_gcd fuel a b ≡ some g) × IsGcd a b g
euclidean_gcd-IsGcd zero a b h ha hb = absurd (omega arith)
euclidean_gcd-IsGcd (suc fuel) a b h ha hb = elim (ℕ_discrete b 0) [
  | yes e ↦ (
    a,
    unfold euclidean_gcd in rw e refl,
    rw e (record { left = dvd_refl a; right = dvd-zero a; greatest = λ d p q. p }),
  )
  | no ne ↦
      let pos : 0 < b = omega arith in
      let less = mod-lt a pos in
      let (g, e, k) = euclidean_gcd-IsGcd fuel b (a % b) (omega arith) hb (omega arith) in
      (
        g,
        euclidean_gcd-step fuel a b ha pos ∙ e,
        record {
          left = (dvd-mod_iff g k.left).0 k.right;
          right = k.left;
          greatest = λ d p q. k.greatest d q ((dvd-mod_iff d q).1 p);
        },
      )
]
