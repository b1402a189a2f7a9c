-- ===== src/AonTimer.antt =====
-- sw/device/lib/dif/dif_aon_timer.c, the driver of the always-on timer: the 64-bit wakeup counter
-- and the watchdog. Handles and pointers are as in `Plic`.
pub mod Watchdog
pub mod Wakeup
pub mod Counter
mod Tests
use sunburst_chip.Base.{
  ℕ, ◌+◌, ◌-◌, ◌*◌, ◌/◌, ◌%◌, ◌^◌, Bool, true, false, not, ◌||◌, if◌then◌else◌,
}
use sunburst_chip.Base.{Option, none, some, ltb, ◌==◌, u32, u64, bit_or, bit_and, ◌<<<◌, ◌>>>◌}
use sunburst_chip.Bitfield.{Field32, field32_write, bit32_read, bit32_write}
use sunburst_chip.Mmio.{Bus, M, pure, ◌>>=◌, ◌>>◌, region_read32, region_write32}
use sunburst_chip.Dif.{DifResult, dif_ok, bad_arg, locked}

-- The register offsets of sw/device/regs/aon_timer_regs.h.
abbrev pub wkup_ctrl : ℕ
wkup_ctrl = 0x4

abbrev pub wkup_thold_hi : ℕ
wkup_thold_hi = 0x8

abbrev pub wkup_thold_lo : ℕ
wkup_thold_lo = 0xc

abbrev pub wkup_count_hi : ℕ
wkup_count_hi = 0x10

abbrev pub wkup_count_lo : ℕ
wkup_count_lo = 0x14

abbrev pub wdog_regwen : ℕ
wdog_regwen = 0x18

abbrev pub wdog_ctrl : ℕ
wdog_ctrl = 0x1c

abbrev pub wdog_bark_thold : ℕ
wdog_bark_thold = 0x20

abbrev pub wdog_bite_thold : ℕ
wdog_bite_thold = 0x24

abbrev pub wdog_count : ℕ
wdog_count = 0x28

abbrev pub wkup_cause : ℕ
wkup_cause = 0x34

abbrev pub prescaler_mask : ℕ
prescaler_mask = 0xfff

abbrev pub prescaler_field : Field32
prescaler_field = record { mask = 0xfff; index = 1 }

module _ {S : Type 0} (bus : Bus S) where
  unfoldable pub wakeup_clear_counter : ℕ → M S (Unit {0})
  wakeup_clear_counter base = do
    region_write32 bus base wkup_count_lo 0
    region_write32 bus base wkup_count_hi 0

  unfoldable pub wakeup_toggle : ℕ → Bool → M S (Unit {0})
  wakeup_toggle base enable = do
    reg ← region_read32 bus base wkup_ctrl
    region_write32 bus base wkup_ctrl (bit32_write reg 0 enable)

  unfoldable pub watchdog_clear_counter : ℕ → M S (Unit {0})
  watchdog_clear_counter base = region_write32 bus base wdog_count 0

  unfoldable pub watchdog_toggle : ℕ → Bool → M S (Unit {0})
  watchdog_toggle base enable = do
    reg ← region_read32 bus base wdog_ctrl
    region_write32 bus base wdog_ctrl (bit32_write reg 0 enable)

  -- `aon_timer_watchdog_lock` and `aon_timer_watchdog_is_locked`, the static helpers.
  unfoldable pub write_lock : ℕ → M S (Unit {0})
  write_lock base = region_write32 bus base wdog_regwen 0x00000001

  unfoldable pub read_lock : ℕ → M S Bool
  read_lock base = do reg ← region_read32 bus base wdog_regwen; pure (not (bit32_read reg 0))

  unfoldable pub wakeup_start : Option ℕ → ℕ → ℕ → M S DifResult
  unfolding wakeup_toggle wakeup_clear_counter
  wakeup_start none threshold prescaler = pure bad_arg
  wakeup_start (some base) threshold prescaler =
      if ltb prescaler_mask prescaler then pure bad_arg else do
        wakeup_toggle base false
        wakeup_clear_counter base
        let threshold_dec = u64 (threshold + 2 ^ 64 - 1)
        region_write32 bus base wkup_thold_lo (u32 (bit_and threshold_dec 0xffffffff))
        region_write32 bus base wkup_thold_hi (u32 (threshold_dec >>> 32))
        let reg = bit32_write (field32_write 0 prescaler_field prescaler) 0 true
        region_write32 bus base wkup_ctrl reg
        pure dif_ok

  unfoldable pub wakeup_stop : Option ℕ → M S DifResult
  unfolding wakeup_toggle
  wakeup_stop none = pure bad_arg
  wakeup_stop (some base) = do wakeup_toggle base false; pure dif_ok

  unfoldable pub wakeup_restart : Option ℕ → M S DifResult
  unfolding wakeup_toggle wakeup_clear_counter
  wakeup_restart none = pure bad_arg
  wakeup_restart (some base) = do
    wakeup_toggle base false
    wakeup_clear_counter base
    wakeup_toggle base true
    pure dif_ok

  unfoldable pub wakeup_is_enabled : Option ℕ → Bool → M S (DifResult × Option Bool)
  wakeup_is_enabled none has_out = pure (bad_arg, none)
  wakeup_is_enabled (some base) has_out =
      if not has_out
      then pure (bad_arg, none)
      else do reg ← region_read32 bus base wkup_ctrl; pure (dif_ok, some (bit32_read reg 0))

  unfoldable pub get_wakeup_cause : Option ℕ → Bool → M S (DifResult × Option Bool)
  get_wakeup_cause none has_out = pure (bad_arg, none)
  get_wakeup_cause (some base) has_out =
      if not has_out
      then pure (bad_arg, none)
      else do reg ← region_read32 bus base wkup_cause; pure (dif_ok, some (bit32_read reg 0))

  unfoldable pub clear_wakeup_cause : Option ℕ → M S DifResult
  clear_wakeup_cause none = pure bad_arg
  clear_wakeup_cause (some base) = do region_write32 bus base wkup_cause 0; pure dif_ok

  -- The second half of the read: the low word again where the high word has moved on.
  unfoldable pub settle_count : ℕ → ℕ → ℕ → ℕ → M S (ℕ × ℕ)
  settle_count base count_hi count_lo count_hi_2 =
      if count_hi_2 == count_hi
      then pure (count_hi, count_lo)
      else do count_lo' ← region_read32 bus base wkup_count_lo; pure (count_hi_2, count_lo')

  unfoldable pub wakeup_get_count : Option ℕ → Bool → M S (DifResult × Option ℕ)
  unfolding settle_count
  wakeup_get_count none has_out = pure (bad_arg, none)
  wakeup_get_count (some base) has_out = if not has_out then pure (bad_arg, none) else do
    count_hi ← region_read32 bus base wkup_count_hi
    count_lo ← region_read32 bus base wkup_count_lo
    count_hi_2 ← region_read32 bus base wkup_count_hi
    halves ← settle_count base count_hi count_lo count_hi_2
    pure (dif_ok, some (bit_or halves.1 (u64 (halves.0 <<< 32))))

  unfoldable pub set_watchdog : ℕ → ℕ → ℕ → Bool → Bool → M S DifResult
  unfolding watchdog_toggle watchdog_clear_counter write_lock
  set_watchdog base bark_threshold bite_threshold pause_in_sleep lock = do
    watchdog_toggle base false
    watchdog_clear_counter base
    region_write32 bus base wdog_bark_thold (u32 (bark_threshold + 2 ^ 32 - 1))
    region_write32 bus base wdog_bite_thold (u32 (bite_threshold + 2 ^ 32 - 1))
    let reg = bit32_write 0 0 true
    region_write32 bus base wdog_ctrl (if pause_in_sleep then bit32_write reg 1 true else reg)
    if lock then write_lock base else pure tt
    pure dif_ok

  -- The rest of the function runs only if the watchdog is not locked.
  unfoldable pub watchdog_start : Option ℕ → ℕ → ℕ → Bool → Bool → M S DifResult
  unfolding read_lock set_watchdog
  watchdog_start none bark_threshold bite_threshold pause_in_sleep lock = pure bad_arg
  watchdog_start (some base) bark_threshold bite_threshold pause_in_sleep lock = do
    is_locked ← read_lock base
    if is_locked
        then pure locked
        else set_watchdog base bark_threshold bite_threshold pause_in_sleep lock

  unfoldable pub watchdog_stop : Option ℕ → M S DifResult
  unfolding read_lock watchdog_toggle
  watchdog_stop none = pure bad_arg
  watchdog_stop (some base) = do
    is_locked ← read_lock base
    if is_locked then pure locked else do watchdog_toggle base false; pure dif_ok

  unfoldable pub watchdog_restart : Option ℕ → M S DifResult
  unfolding read_lock watchdog_toggle watchdog_clear_counter
  watchdog_restart none = pure bad_arg
  watchdog_restart (some base) = do
    is_locked ← read_lock base
    if is_locked
        then pure locked
        else do watchdog_clear_counter base; watchdog_toggle base true; pure dif_ok

  unfoldable pub watchdog_is_enabled : Option ℕ → Bool → M S (DifResult × Option Bool)
  watchdog_is_enabled none has_out = pure (bad_arg, none)
  watchdog_is_enabled (some base) has_out =
      if not has_out
      then pure (bad_arg, none)
      else do reg ← region_read32 bus base wdog_ctrl; pure (dif_ok, some (bit32_read reg 0))

  unfoldable pub watchdog_get_count : Option ℕ → Bool → M S (DifResult × Option ℕ)
  watchdog_get_count none has_out = pure (bad_arg, none)
  watchdog_get_count (some base) has_out =
      if not has_out
      then pure (bad_arg, none)
      else do count ← region_read32 bus base wdog_count; pure (dif_ok, some count)

  unfoldable pub watchdog_pet : Option ℕ → M S DifResult
  unfolding watchdog_clear_counter
  watchdog_pet none = pure bad_arg
  watchdog_pet (some base) = do watchdog_clear_counter base; pure dif_ok

  unfoldable pub watchdog_lock : Option ℕ → M S DifResult
  unfolding write_lock
  watchdog_lock none = pure bad_arg
  watchdog_lock (some base) = do write_lock base; pure dif_ok

  unfoldable pub watchdog_is_locked : Option ℕ → Bool → M S (DifResult × Option Bool)
  unfolding read_lock
  watchdog_is_locked none has_out = pure (bad_arg, none)
  watchdog_is_locked (some base) has_out =
      if not has_out
      then pure (bad_arg, none)
      else do is_locked ← read_lock base; pure (dif_ok, some is_locked)
