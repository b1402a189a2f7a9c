-- ===== src/AonTimer/Watchdog.antt =====
-- The watchdog: what its lock prevents, what a start leaves in the registers, and what writing the
-- lock register does.
use sunburst_chip.Base.{ℕ, ◌+◌, ◌-◌, ◌^◌, ◌<◌, ◌≡◌, refl, arith, ◌⊎◌, inl, inr}
use sunburst_chip.Base.{Bool, true, false, if◌then◌else◌, some, u32, bit_and, ◌∙◌}
use sunburst_chip.Bits.{bit-le-one, bit-bit_and, bit-one}
use sunburst_chip.Bitfield.{bit32_read, bit32_write}
use sunburst_chip.Bitfield.Bit.{bit32_read_lem}
use sunburst_chip.Mmio.{Bus}
use sunburst_chip.Mmio.Registers.{IsRegisterFile, peek, peek-store_self, peek-store_ne}
use sunburst_chip.Dif.{DifResult, dif_ok, locked}
use sunburst_chip.AonTimer.{wdog_regwen, wdog_ctrl, wdog_bark_thold, wdog_bite_thold, wdog_count}
use sunburst_chip.AonTimer.{watchdog_start}
use sunburst_chip.AonTimer.{
  watchdog_stop, watchdog_restart, watchdog_is_enabled, watchdog_lock, watchdog_is_locked,
  watchdog_get_count,
}

-- The watchdog's registers that hold what is written while it is not locked.
abbrev pub IsPlain : ℕ → ℕ → Type 0
IsPlain base a =
    (a ≡ base + wdog_ctrl)
    ⊎ (a ≡ base + wdog_bark_thold)
    ⊎ (a ≡ base + wdog_bite_thold)
    ⊎ (a ≡ base + wdog_count)

-- If the lock bit reads 0, starting, stopping and restarting the watchdog report the lock, and do
-- no more to the hardware than that load.
locked_keeps :
    {S : Type 0} (bus : Bus S) (base bark bite : ℕ) (pause lock : Bool) (s : S)
    → bit32_read (peek bus (base + wdog_regwen) s) 0 ≡ false
    → let out : DifResult × S = (locked, (bus.load (base + wdog_regwen) s).1) in
      (watchdog_start bus (some base) bark bite pause lock s ≡ out)
      × (watchdog_stop bus (some base) s ≡ out)
      × (watchdog_restart bus (some base) s ≡ out)
unfolding watchdog_start watchdog_stop watchdog_restart
locked_keeps bus base bark bite pause lock s h = (rw h refl, rw h refl, rw h refl)

module _ {S : Type 0} (bus : Bus S) (base : ℕ) (regs : IsRegisterFile bus (IsPlain base))
    (load_regwen : (s : S) → (bus.load (base + wdog_regwen) s).1 ≡ s) where
  -- The control register that a start writes.
  abbrev control : Bool → ℕ
  control pause = if pause then bit32_write (bit32_write 0 0 true) 1 true else bit32_write 0 0 true

  control_bits :
      (pause : Bool)
      → (control pause < 2 ^ 32)
        × (bit32_read (control pause) 0 ≡ true)
        × (bit32_read (control pause) 1 ≡ pause)
  unfolding bit32_read bit32_write
  control_bits true = (omega arith, refl, refl)
  control_bits false = (omega arith, refl, refl)

  -- The hardware after the stores of a start.
  abbrev started : ℕ → ℕ → Bool → S → S
  started bark bite pause s =
      let cleared =
        bus.store (base + wdog_ctrl) (bit32_write (peek bus (base + wdog_ctrl) s) 0 false) s in
      let stopped = bus.store (base + wdog_count) 0 cleared in
      let barks = bus.store (base + wdog_bark_thold) (u32 (bark + 2 ^ 32 - 1)) stopped in
      let bites = bus.store (base + wdog_bite_thold) (u32 (bite + 2 ^ 32 - 1)) barks in
      bus.store (base + wdog_ctrl) (control pause) bites

  start_eq :
      (bark bite : ℕ) (pause : Bool) (s : S)
      → bit32_read (peek bus (base + wdog_regwen) s) 0 ≡ true
      → watchdog_start bus (some base) bark bite pause false s ≡ (dif_ok, started bark bite pause s)
  unfolding watchdog_start
  start_eq bark bite pause s unlocked =
      rw (unlocked, load_regwen s, regs.load_keeps (base + wdog_ctrl) s (inl refl)) refl

  -- On a watchdog whose lock bit reads 1, a start without lock, with 32-bit thresholds above 0,
  -- succeeds, and leaves it enabled, its counter at 0, both thresholds one below what was asked for
  -- and the pause bit as asked for. Loads of the lock register change nothing.
  watchdog_start_lem :
      (bark bite : ℕ) (pause : Bool) (s : S)
      → 0 < bark
      → bark < 2 ^ 32
      → 0 < bite
      → bite < 2 ^ 32
      → bit32_read (peek bus (base + wdog_regwen) s) 0 ≡ true
      → let (r, s') = watchdog_start bus (some base) bark bite pause false s in
        (r ≡ dif_ok)
        × ((watchdog_is_enabled bus (some base) true s').0 ≡ (dif_ok, some true))
        × ((watchdog_get_count bus (some base) true s').0 ≡ (dif_ok, some 0))
        × (peek bus (base + wdog_bark_thold) s' + 1 ≡ bark)
        × (peek bus (base + wdog_bite_thold) s' + 1 ≡ bite)
        × (bit32_read (peek bus (base + wdog_ctrl) s') 1 ≡ pause)
  watchdog_start_lem bark bite pause s b1 b2 b3 b4 unlocked =
      let z = control_bits pause in
      let s1 =
        bus.store (base + wdog_ctrl) (bit32_write (peek bus (base + wdog_ctrl) s) 0 false) s in
      let s2 = bus.store (base + wdog_count) 0 s1 in
      let s3 = bus.store (base + wdog_bark_thold) (u32 (bark + 2 ^ 32 - 1)) s2 in
      let s4 = bus.store (base + wdog_bite_thold) (u32 (bite + 2 ^ 32 - 1)) s3 in
      let s5 = started bark bite pause s in
      let ctrl : peek bus (base + wdog_ctrl) s5 ≡ control pause =
        peek-store_self regs s4 (inl refl) z.0 in
      let count : peek bus (base + wdog_count) s5 ≡ 0 =
        peek-store_ne regs s4 (inl refl) (inr (inr (inr refl))) (omega arith) z.0
        ∙ peek-store_ne regs s3 (inr (inr (inl refl))) (inr (inr (inr refl))) (omega arith)
            (omega arith)
        ∙ peek-store_ne regs s2 (inr (inl refl)) (inr (inr (inr refl))) (omega arith) (omega arith)
        ∙ peek-store_self regs s1 (inr (inr (inr refl))) (omega arith) in
      let barks : peek bus (base + wdog_bark_thold) s5 ≡ u32 (bark + 2 ^ 32 - 1) =
        peek-store_ne regs s4 (inl refl) (inr (inl refl)) (omega arith) z.0
        ∙ peek-store_ne regs s3 (inr (inr (inl refl))) (inr (inl refl)) (omega arith) (omega arith)
        ∙ peek-store_self regs s2 (inr (inl refl)) (omega arith) in
      let bites : peek bus (base + wdog_bite_thold) s5 ≡ u32 (bite + 2 ^ 32 - 1) =
        peek-store_ne regs s4 (inl refl) (inr (inr (inl refl))) (omega arith) z.0
        ∙ peek-store_self regs s3 (inr (inr (inl refl))) (omega arith) in
      rw (start_eq bark bite pause s unlocked) (
        refl,
        unfold watchdog_is_enabled in rw (ctrl, z.1) refl,
        unfold watchdog_get_count in rw count refl,
        rw barks (omega arith),
        rw bites (omega arith),
        rw (ctrl, z.2) refl,
      )

-- If a store to the lock register keeps a bit only where a 1 is written, as the hardware's
-- description says (`rw0c`), then locking, which writes 1, leaves the answer to whether the
-- watchdog is locked as it was.
pub watchdog_lock_keeps :
    {S : Type 0} (bus : Bus S) (base : ℕ)
    → ((v : ℕ) (s : S)
        → peek bus (base + wdog_regwen) (bus.store (base + wdog_regwen) v s)
          ≡ bit_and (peek bus (base + wdog_regwen) s) v)
    → (s : S)
    → (watchdog_is_locked bus (some base) true (watchdog_lock bus (some base) s).1).0
      ≡ (watchdog_is_locked bus (some base) true s).0
unfolding watchdog_lock watchdog_is_locked
watchdog_lock_keeps bus base rw0c s =
    let r = peek bus (base + wdog_regwen) s in
    let e : bit32_read (bit_and r 1) 0 ≡ bit32_read r 0 = ground (
      arith,
      bit32_read_lem (bit_and r 1) 0,
      bit32_read_lem r 0,
      bit-bit_and 0 r 1,
      bit-one 0,
      bit-le-one 0 r,
    ) in
    rw (rw0c 1 s, e) refl
