-- ===== src/RvTimer/Arm.antt =====
-- Setting a threshold while the counter runs: what the registers hold, and what happens on the way.
use sunburst_chip.Base.{ℕ, ◌+◌, ◌*◌, ◌/◌, ◌^◌, ◌≤◌, ◌<◌, ◌≡◌, ◌⊎◌, inl, inr, refl, arith, ◌∙◌, u32}
use sunburst_chip.Base.{Bool, false, Bool-cases, leb, some}
use sunburst_chip.Mmio.{Bus}
use sunburst_chip.Dif.{dif_ok}
use sunburst_chip.RvTimer.{compare_lower_reg, compare_upper_reg, arm}

-- A comparator of a counter that runs on, short of going round. The hardware is a parameter that
-- shows the two halves of the threshold, the `time`, whether the interrupt is `raised`, and whether it
-- was `seen` raised at any time so far. A state that follows a store is the moment at which the store
-- took effect.
pub record IsComparator {S : Type 0} (bus : Bus S) (lower upper : ℕ) (lo hi time : S → ℕ)
    (raised seen : S → Bool) : Type 0 where
  pub lo-store_lower : (v : ℕ) (s : S) → lo (bus.store lower v s) ≡ v
  pub hi-store_lower : (v : ℕ) (s : S) → hi (bus.store lower v s) ≡ hi s
  pub lo-store_upper : (v : ℕ) (s : S) → lo (bus.store upper v s) ≡ lo s
  pub hi-store_upper : (v : ℕ) (s : S) → hi (bus.store upper v s) ≡ v
  pub time-store_lower : (v : ℕ) (s : S) → time s ≤ time (bus.store lower v s)
  pub time-store_upper : (v : ℕ) (s : S) → time s ≤ time (bus.store upper v s)
  -- A store to either half clears the interrupt, unless the time has reached the new threshold.
  pub clear_lower :
      (v : ℕ) (s : S)
      → let s' = bus.store lower v s in time s' < hi s * 2 ^ 32 + v → raised s' ≡ false
  pub clear_upper :
      (v : ℕ) (s : S)
      → let s' = bus.store upper v s in time s' < v * 2 ^ 32 + lo s → raised s' ≡ false
  -- Up to a store nothing is raised if its time has reached neither the old threshold nor the new.
  pub quiet_lower :
      (v : ℕ) (s : S)
      → let s' = bus.store lower v s in
        time s' < hi s * 2 ^ 32 + lo s → time s' < hi s * 2 ^ 32 + v → seen s' ≡ seen s
  pub quiet_upper :
      (v : ℕ) (s : S)
      → let s' = bus.store upper v s in
        time s' < hi s * 2 ^ 32 + lo s → time s' < v * 2 ^ 32 + lo s → seen s' ≡ seen s

module _ {S : Type 0} (bus : Bus S) (base : ℕ) (lo hi time : S → ℕ) (raised seen : S → Bool)
    (cmp : IsComparator bus
      (base + compare_lower_reg)
      (base + compare_upper_reg)
      lo
      hi
      time
      raised
      seen) where
  -- While the counter runs on, short of going round, and where a store to either half of the
  -- threshold clears the interrupt and raises it only if the time has reached the new threshold:
  -- arming comparator 0 of hart 0 with a 64-bit threshold that the time has not reached when the
  -- call is done, nor 0xffffffff * 2 ^ 32, succeeds, sets that threshold, and leaves no interrupt
  -- raised. On the way none is raised either, unless the time reaches the threshold that was set
  -- before.
  pub arm_lem :
      (threshold : ℕ) (s : S)
      → threshold < 2 ^ 64
      → time (arm bus (some base) 0 0 threshold s).1 < threshold
      → time (arm bus (some base) 0 0 threshold s).1 < 0xffffffff * 2 ^ 32
      → let (r, s') = arm bus (some base) 0 0 threshold s in
        (r ≡ dif_ok)
        × (hi s' * 2 ^ 32 + lo s' ≡ threshold)
        × (raised s' ≡ false)
        × ((seen s' ≡ seen s) ⊎ (hi s * 2 ^ 32 + lo s ≤ time s'))
  unfolding arm
  arm_lem threshold s h ahead early =
      let s1 = bus.store (base + 0x11c) 0xffffffff s in
      let s2 = bus.store (base + 0x118) (u32 threshold) s1 in
      let s3 = bus.store (base + 0x11c) (u32 (threshold / 2 ^ 32)) s2 in
      let l1 : lo s1 ≡ lo s = cmp.lo-store_upper _ s in
      let h1 : hi s1 ≡ 0xffffffff = cmp.hi-store_upper _ s in
      let l2 : lo s2 ≡ u32 threshold = cmp.lo-store_lower _ s1 in
      let h2 : hi s2 ≡ 0xffffffff = cmp.hi-store_lower _ s1 ∙ h1 in
      let l3 : lo s3 ≡ u32 threshold = cmp.lo-store_upper _ s2 ∙ l2 in
      let h3 : hi s3 ≡ u32 (threshold / 2 ^ 32) = cmp.hi-store_upper _ s2 in
      let t1 : time s1 ≤ time s2 = cmp.time-store_lower _ s1 in
      let t2 : time s2 ≤ time s3 = cmp.time-store_upper _ s2 in
      let q1 = λ (old : time s3 < hi s * 2 ^ 32 + lo s).
        cmp.quiet_upper 0xffffffff s (omega arith) (omega arith) in
      let q2 : seen s2 ≡ seen s1 = cmp.quiet_lower (u32 threshold) s1 (omega arith) (omega arith) in
      let q3 : seen s3 ≡ seen s2 =
        cmp.quiet_upper (u32 (threshold / 2 ^ 32)) s2 (omega arith) (omega arith) in
      (
        refl,
        omega arith,
        cmp.clear_upper (u32 (threshold / 2 ^ 32)) s2 (omega arith),
        elim (Bool-cases (leb (hi s * 2 ^ 32 + lo s) (time s3))) [
          | inl e ↦ inr (ground (arith, e))
          | inr e ↦ inl (q3 ∙ q2 ∙ q1 (ground (arith, e)))
        ],
      )
