-- ===== src/RvTimer/Ticks.antt =====
-- The tick parameters and the ratio that they stand for.
use native.Mathlib.Nat.{mul-div_cancel', div-le_self, eq-zero_of_zero-dvd}
use sunburst_chip.Base.{
  ℕ, suc, ◌+◌, ◌-◌, ◌*◌, ◌/◌, ◌%◌, ◌^◌, ◌≤◌, ◌<◌, ◌≡◌, refl, arith, ap, sym, ◌∙◌, u8, u64,
}
use sunburst_chip.Base.{
  Option, none, some, true, if◌then◌else◌, ◌||◌, ltb, ℕ_discrete, Bool-cases, inl, inr,
}
use sunburst_chip.Math.{udiv64_slow}
use sunburst_chip.Math.Division.{udiv64_slow_lem}
use sunburst_chip.Dif.{DifResult, dif_ok, bad_arg}
use sunburst_chip.RvTimer.{TickParams, params_of_gcd, approximate_tick_params}
use sunburst_chip.RvTimer.{prescale_mask, step_mask}
use sunburst_chip.RvTimer.Gcd.{IsGcd, euclidean_gcd-IsGcd}

-- Either the parameters fit their registers and divide the clock exactly as asked for, or the
-- request is refused.
abbrev pub IsSound : ℕ → ℕ → DifResult × Option TickParams → Type 0
IsSound clock counter (r, none) = r ≡ bad_arg
IsSound clock counter (r, some p) =
    (r ≡ dif_ok)
    × (p.prescale ≤ prescale_mask)
    × (p.tick_step ≤ step_mask)
    × ((p.prescale + 1) * counter ≡ clock * p.tick_step)

-- With the quotients by the divisor known.
params_eq :
    (clock counter gcd : ℕ)
    → clock < 2 ^ 64
    → counter < 2 ^ 64
    → 0 < gcd
    → params_of_gcd clock counter gcd ≡ (
        if ltb prescale_mask (u64 (clock / gcd + 2 ^ 64 - 1)) || ltb step_mask (counter / gcd)
        then (bad_arg, none)
        else (
          dif_ok,
          some (record {
            prescale = u64 (clock / gcd + 2 ^ 64 - 1) % 2 ^ 16;
            tick_step = u8 (counter / gcd);
          }),
        ))
unfolding params_of_gcd
params_eq clock counter gcd h k pos =
    rw (udiv64_slow_lem clock gcd h pos, udiv64_slow_lem counter gcd k pos) refl

cross : (g x y : ℕ) → x * (g * y) ≡ g * x * y
cross g x y = grind arith

-- Two frequencies of 0 are refused, though their divisor is 0.
zero_refused : params_of_gcd 0 0 0 ≡ (bad_arg, none)
unfolding params_of_gcd udiv64_slow
zero_refused = refl

params-IsSound :
    (clock counter g : ℕ)
    → clock < 2 ^ 64
    → counter < 2 ^ 64
    → IsGcd clock counter g
    → IsSound clock counter (params_of_gcd clock counter g)
params-IsSound clock counter g h k d = elim (ℕ_discrete g 0) [
  | yes z ↦
      let ec : clock ≡ 0 = eq-zero_of_zero-dvd (rw z at d.left) in
      let en : counter ≡ 0 = eq-zero_of_zero-dvd (rw z at d.right) in
      rw (z, ec, en, zero_refused) refl
  | no nz ↦
      let x = clock / g in
      let y = counter / g in
      let ex : g * x ≡ clock = mul-div_cancel' g d.left in
      let ey : g * y ≡ counter = mul-div_cancel' g d.right in
      let bound : x ≤ clock = div-le_self clock g in
      let pre = u64 (x + 2 ^ 64 - 1) in
      rw (params_eq clock counter g h k (omega arith))
        (elim (Bool-cases (ltb prescale_mask pre || ltb step_mask y)) [
          | inl bad ↦ rw bad refl
          | inr good ↦
              let p : pre ≤ prescale_mask = ground arith in
              let q : y ≤ step_mask = ground arith in
              let e : pre % 2 ^ 16 + 1 ≡ x = omega arith in
              let f : u8 y ≡ y = omega arith in
              rw good (
                refl,
                omega arith,
                omega arith,
                rw (e, f) (ap (λ (t : ℕ). x * t) (sym ey) ∙ cross g x y ∙ ap (λ (t : ℕ). t * y) ex),
              )
        ])
]

-- For every two 64-bit frequencies the function returns. Either it refuses the request, or the
-- parameters fit their registers and (prescale + 1) * counter = clock * step.
pub approximate_tick_params-IsSound :
    (clock counter : ℕ)
    → clock < 2 ^ 64
    → counter < 2 ^ 64
    → (out : DifResult × Option TickParams) × (approximate_tick_params clock counter true
        ≡ some out)
      × IsSound clock counter out
unfolding approximate_tick_params
approximate_tick_params-IsSound clock counter h k =
    let (g, e, d) = euclidean_gcd-IsGcd (suc counter) clock counter (omega arith) h k in
    (
      params_of_gcd clock counter g,
      rw (e, approximate_tick_params) refl,
      params-IsSound clock counter g h k d,
    )
