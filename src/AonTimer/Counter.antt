-- ===== src/AonTimer/Counter.antt =====
-- Reading the wakeup counter while it runs.
use sunburst_chip.Base.{ℕ, ◌+◌, ◌*◌, ◌/◌, ◌%◌, ◌^◌, ◌≤◌, ◌<◌, ◌≡◌, arith, ◌==◌}
use sunburst_chip.Base.{some, true, false, u64, bit_or, ◌<<<◌, ap, ℕ_discrete}
use sunburst_chip.Bits.{bit_or_fields, bit_or_comm}
use sunburst_chip.Mmio.{Bus}
use sunburst_chip.Mmio.Counter.{IsCounter}
use sunburst_chip.Dif.{dif_ok}
use sunburst_chip.AonTimer.{wkup_count_hi, wkup_count_lo, wakeup_get_count, settle_count}

-- The two halves of a word put together.
pub join_halves :
    (hi lo : ℕ) → hi < 2 ^ 32 → lo < 2 ^ 32 → bit_or lo (u64 (hi <<< 32)) ≡ hi * 2 ^ 32 + lo
join_halves hi lo p q =
    let e : u64 (hi <<< 32) ≡ hi * 2 ^ 32 = omega arith in
    rw (e, bit_or_comm lo (hi * 2 ^ 32)) (bit_or_fields 32 hi lo q)

module _ {S : Type 0} (bus : Bus S) (base : ℕ) (count : S → ℕ)
    (counter : IsCounter bus (base + wkup_count_hi) (base + wkup_count_lo) count) where
  -- The second half of the read, from what the first three loads showed.
  settle_lem :
      (hi lo hi2 c c1 c2 : ℕ) (s3 : S)
      → c1 < 2 ^ 64
      → hi ≡ c / 2 ^ 32
      → lo ≡ c1 % 2 ^ 32
      → hi2 ≡ c2 / 2 ^ 32
      → c ≤ c1
      → c1 ≤ c2
      → c2 ≤ count s3
      → count (settle_count bus base hi lo hi2 s3).1 < c + 2 ^ 32
      → let (halves, s4) = settle_count bus base hi lo hi2 s3 in
        (halves.0 < 2 ^ 32)
        × (halves.1 < 2 ^ 32)
        × (c ≤ halves.0 * 2 ^ 32 + halves.1)
        × (halves.0 * 2 ^ 32 + halves.1 ≤ count s4)
  unfolding settle_count
  settle_lem hi lo hi2 c c1 c2 s3 b1 e1 e2 e3 m1 m2 m3 near = elim (ℕ_discrete hi2 hi) [
    | yes e ↦ let t : (hi2 == hi) ≡ true = ground arith in rw t (omega arith)
    | no ne ↦
        let t : (hi2 == hi) ≡ false = ground arith in
        let near' : count (bus.load (base + 0x14) s3).1 < c + 2 ^ 32 = rw t at near in
        rw t (omega (arith, counter.load_lo s3, counter.grows_lo s3, counter.fits s3))
  ]

  -- If the counter does not run backwards and advances by less than 2 ^ 32 during the call, reading
  -- it succeeds, and the value that is read lies between the counter's values before and after the
  -- call, though no single load shows all of it.
  pub wakeup_get_count_lem :
      (s : S)
      → count (wakeup_get_count bus (some base) true s).1 < count s + 2 ^ 32
      → (v : ℕ) × ((wakeup_get_count bus (some base) true s).0 ≡ (dif_ok, some v))
        × (count s ≤ v)
        × (v ≤ count (wakeup_get_count bus (some base) true s).1)
  unfolding wakeup_get_count
  wakeup_get_count_lem s near =
      let s1 = (bus.load (base + 0x10) s).1 in
      let s2 = (bus.load (base + 0x14) s1).1 in
      let s3 = (bus.load (base + 0x10) s2).1 in
      let (p, q, lower, upper) =
        settle_lem (bus.load (base + 0x10) s).0 (bus.load (base + 0x14) s1).0
          (bus.load (base + 0x10) s2).0 (count s) (count s1) (count s2) s3 (counter.fits s1)
          (counter.load_hi s) (counter.load_lo s1) (counter.load_hi s2) (counter.grows_hi s)
          (counter.grows_lo s1) (counter.grows_hi s2) near in
      (_, ap (λ n. (dif_ok, some n)) (join_halves _ _ p q), lower, upper)
