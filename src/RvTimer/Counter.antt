-- ===== src/RvTimer/Counter.antt =====
-- Reading the machine timer while it runs.
use sunburst_chip.Base.{
  ℕ, suc, ◌+◌, ◌*◌, ◌/◌, ◌%◌, ◌^◌, ◌≤◌, ◌<◌, ◌≡◌, ◌≢◌, refl, arith, ◌==◌, ap, ◌∙◌,
}
use sunburst_chip.Base.{some, true, false, u64, bit_or, ◌<<<◌, ℕ_discrete}
use sunburst_chip.Bits.{bit_or_fields}
use sunburst_chip.Mmio.{Bus}
use sunburst_chip.Mmio.Counter.{IsCounter}
use sunburst_chip.Dif.{dif_ok}
use sunburst_chip.RvTimer.{v_upper_reg, v_lower_reg, counter_read_loop, counter_read}

module _ {S : Type 0} (bus : Bus S) (base : ℕ) (count : S → ℕ)
    (counter : IsCounter bus (base + v_upper_reg) (base + v_lower_reg) count) where
  -- The hardware after one, two and three loads of a round.
  abbrev after1 : S → S
  after1 s = (bus.load (base + v_upper_reg) s).1

  abbrev after2 : S → S
  after2 s = (bus.load (base + v_lower_reg) (after1 s)).1

  abbrev after3 : S → S
  after3 s = (bus.load (base + v_upper_reg) (after2 s)).1

  round_grows :
      (s : S)
      → (count s ≤ count (after1 s))
        × (count (after1 s) ≤ count (after2 s))
        × (count (after2 s) ≤ count (after3 s))
  round_grows s = (counter.grows_hi s, counter.grows_lo (after1 s), counter.grows_hi (after2 s))

  -- A round that saw the same upper half twice gives the counter at its second load.
  settled :
      (s : S)
      → count s / 2 ^ 32 ≡ count (after2 s) / 2 ^ 32
      → bit_or
          (u64 ((bus.load (base + v_upper_reg) s).0 <<< 32))
          (bus.load (base + v_lower_reg) (after1 s)).0
        ≡ count (after1 s)
  settled s e =
      let (p, q, r) = round_grows s in
      let hi = count s / 2 ^ 32 in
      let lo = count (after1 s) % 2 ^ 32 in
      let w : u64 (hi <<< 32) ≡ hi * 2 ^ 32 = omega (arith, counter.fits s) in
      rw (counter.load_hi s, counter.load_lo (after1 s), w, bit_or_fields 32 hi lo (omega arith))
        (omega arith)

  loop_settled :
      (fuel : ℕ) (s : S)
      → count s / 2 ^ 32 ≡ count (after2 s) / 2 ^ 32
      → counter_read_loop bus (suc fuel) base 0 s ≡ (some (count (after1 s)), after3 s)
  unfolding counter_read_loop
  loop_settled fuel s e =
      let t : ((bus.load (base + v_upper_reg) s).0 == (bus.load (base + v_upper_reg) (after2 s)).0)
          ≡ true =
        ground (arith, counter.load_hi s, counter.load_hi (after2 s)) in
      rw t (ap (λ v. (some v, after3 s)) (settled s e))

  loop_again :
      (fuel : ℕ) (s : S)
      → count s / 2 ^ 32 ≢ count (after2 s) / 2 ^ 32
      → counter_read_loop bus (suc fuel) base 0 s ≡ counter_read_loop bus fuel base 0 (after3 s)
  unfolding counter_read_loop
  loop_again fuel s ne =
      let t : ((bus.load (base + v_upper_reg) s).0 == (bus.load (base + v_upper_reg) (after2 s)).0)
          ≡ false =
        ground (arith, counter.load_hi s, counter.load_hi (after2 s)) in
      rw t refl

  -- The loop ends in its first or its second round.
  loop_lem :
      (fuel : ℕ) (s : S)
      → count (after3 (after3 s)) < count s + 2 ^ 32
      → (v : ℕ) × (s' : S) × (counter_read_loop bus (suc (suc fuel)) base 0 s ≡ (some v, s'))
        × (count s ≤ v)
        × (v ≤ count s')
  loop_lem fuel s near =
      let g = round_grows s in
      let g' = round_grows (after3 s) in
      elim (ℕ_discrete (count s / 2 ^ 32) (count (after2 s) / 2 ^ 32)) [
        | yes e ↦
            (count (after1 s), after3 s, loop_settled (suc fuel) s e, omega arith, omega arith)
        | no ne ↦
            let e : count (after3 s) / 2 ^ 32 ≡ count (after2 (after3 s)) / 2 ^ 32 = omega arith in
            (
              count (after1 (after3 s)),
              after3 (after3 s),
              loop_again (suc fuel) s ne ∙ loop_settled fuel (after3 s) e,
              omega arith,
              omega arith,
            )
      ]

  read_some :
      (fuel v : ℕ) (s s' : S)
      → counter_read_loop bus fuel base 0 s ≡ (some v, s')
      → counter_read bus fuel (some base) 0 true s ≡ (some (dif_ok, some v), s')
  unfolding counter_read
  read_some fuel v s s' e = rw e refl

  -- If the counter of hart 0 does not run backwards and advances by less than 2 ^ 32 over six
  -- loads, two rounds of the loop or more are enough, the call succeeds, and the value that is read
  -- lies between the counter's values before and after the call.
  pub counter_read_lem :
      (fuel : ℕ) (s : S)
      → count (after3 (after3 s)) < count s + 2 ^ 32
      → (v : ℕ) × ((counter_read bus (suc (suc fuel)) (some base) 0 true s).0
          ≡ some (dif_ok, some v))
        × (count s ≤ v)
        × (v ≤ count (counter_read bus (suc (suc fuel)) (some base) 0 true s).1)
  counter_read_lem fuel s near =
      let (v, s', e, p, q) = loop_lem fuel s near in
      let r = read_some (suc (suc fuel)) v s s' e in (v, ap (λ t. t.0) r, p, rw r q)
