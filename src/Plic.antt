-- ===== src/Plic.antt =====
-- sw/device/lib/dif/dif_rv_plic.c, the driver of the interrupt controller, with the parameters of
-- sw/device/regs/rv_plic_regs.h. A handle is `none` for NULL, or the base address of the registers.
-- What a function stores through a pointer is the option beside its result, `none` if it stores
-- nothing; where the code tests that pointer for NULL, a Boolean tells that it is not NULL.
pub mod Laws
pub mod Settings
pub mod Reset
mod Tests
use sunburst_chip.Base.{
  ℕ, zero, suc, ◌+◌, ◌*◌, ◌/◌, ◌%◌, Bool, true, false, not, ◌||◌, if◌then◌else◌,
}
use sunburst_chip.Base.{Option, none, some, leb, ltb, ◌==◌, u8}
use sunburst_chip.Bitfield.{bit32_read, bit32_write}
use sunburst_chip.Mmio.{Bus, M, pure, ◌>>=◌, ◌>>◌, region_read32, region_write32}
use sunburst_chip.Dif.{DifResult, dif_ok, bad_arg, Toggle, enabled, disabled, other_toggle}
use sunburst_chip.Dif.{bool_to_toggle}

abbrev pub num_src : ℕ
num_src = 32

abbrev pub num_target : ℕ
num_target = 1

abbrev pub reg_width : ℕ
reg_width = 32

abbrev pub ie_multireg_count : ℕ
ie_multireg_count = 1

abbrev pub max_priority : ℕ
max_priority = 0x3

-- `plic_reg_info_t`.
pub record RegInfo : Type 0 where
  pub offset : ℕ
  pub bit_index : ℕ

abbrev pub offset_from_reg0 : ℕ → ℕ
offset_from_reg0 irq = u8 (irq / reg_width) * 4

abbrev pub irq_bit_index : ℕ → ℕ
irq_bit_index irq = u8 (irq % reg_width)

abbrev pub irq_enable_base_for_target : ℕ → ℕ
irq_enable_base_for_target target = 0x2000 + ie_multireg_count * 4 * target

abbrev pub software_irq_base_for_target : ℕ → ℕ
software_irq_base_for_target target = 0x4000000 + target * 4

abbrev pub threshold_base_for_target : ℕ → ℕ
threshold_base_for_target target = 0x200000 + target * 4

abbrev pub claim_complete_base_for_target : ℕ → ℕ
claim_complete_base_for_target target = 0x200004 + target * 4

abbrev pub irq_enable_reg_info : ℕ → ℕ → RegInfo
irq_enable_reg_info irq target = record {
  offset = irq_enable_base_for_target target + offset_from_reg0 irq;
  bit_index = irq_bit_index irq;
}

abbrev pub irq_pending_reg_info : ℕ → RegInfo
irq_pending_reg_info irq = record {
  offset = 0x1000 + offset_from_reg0 irq;
  bit_index = irq_bit_index irq;
}

abbrev pub priority_reg_offset : ℕ → ℕ
priority_reg_offset irq = 0x0 + irq * 4

-- The switch on the toggle: the flag of a valid one.
unfoldable pub toggle_flag : Toggle → Option Bool
toggle_flag enabled = some true
toggle_flag disabled = some false
toggle_flag (other_toggle n) = none

module _ {S : Type 0} (bus : Bus S) where
  -- The loop over the priority registers, with `left` sources to go.
  unfoldable pub clear_priorities : ℕ → ℕ → ℕ → M S (Unit {0})
  clear_priorities base i zero = pure tt
  clear_priorities base i (suc left) = do
    region_write32 bus base (priority_reg_offset i) 0
    clear_priorities base (i + 1) left

  unfoldable pub clear_enables : ℕ → ℕ → ℕ → ℕ → M S (Unit {0})
  clear_enables base offset i zero = pure tt
  clear_enables base offset i (suc left) = do
    region_write32 bus base (offset + i * 4) 0
    clear_enables base offset (i + 1) left

  unfoldable pub clear_targets : ℕ → ℕ → ℕ → M S (Unit {0})
  unfolding clear_enables
  clear_targets base target zero = pure tt
  clear_targets base target (suc left) = do
    clear_enables base (irq_enable_base_for_target target) 0 ie_multireg_count
    region_write32 bus base (threshold_base_for_target target) 0
    region_write32 bus base (software_irq_base_for_target target) 0
    clear_targets base (target + 1) left

  unfoldable pub reset : Option ℕ → M S DifResult
  reset none = pure bad_arg
  reset (some base) = do
    clear_priorities base 0 num_src
    clear_targets base 0 num_target
    pure dif_ok

  unfoldable pub irq_get_enabled : Option ℕ → ℕ → ℕ → M S (DifResult × Option Toggle)
  irq_get_enabled none irq target = pure (bad_arg, none)
  irq_get_enabled (some base) irq target =
      if leb num_src irq || leb num_target target then pure (bad_arg, none) else do
        let reg_info = irq_enable_reg_info irq target
        reg ← region_read32 bus base reg_info.offset
        pure (dif_ok, some (bool_to_toggle (bit32_read reg reg_info.bit_index)))

  unfoldable pub write_enabled : ℕ → ℕ → ℕ → Option Bool → M S DifResult
  write_enabled base irq target none = pure bad_arg
  write_enabled base irq target (some flag) = do
    let reg_info = irq_enable_reg_info irq target
    reg ← region_read32 bus base reg_info.offset
    region_write32 bus base reg_info.offset (bit32_write reg reg_info.bit_index flag)
    pure dif_ok

  unfoldable pub irq_set_enabled : Option ℕ → ℕ → ℕ → Toggle → M S DifResult
  unfolding write_enabled toggle_flag
  irq_set_enabled none irq target state = pure bad_arg
  irq_set_enabled (some base) irq target state =
      if leb num_src irq || leb num_target target
      then pure bad_arg
      else write_enabled base irq target (toggle_flag state)

  unfoldable pub irq_set_priority : Option ℕ → ℕ → ℕ → M S DifResult
  irq_set_priority none irq priority = pure bad_arg
  irq_set_priority (some base) irq priority =
      if leb num_src irq || ltb max_priority priority
      then pure bad_arg
      else do region_write32 bus base (priority_reg_offset irq) priority; pure dif_ok

  unfoldable pub target_set_threshold : Option ℕ → ℕ → ℕ → M S DifResult
  target_set_threshold none target threshold = pure bad_arg
  target_set_threshold (some base) target threshold =
      if leb num_target target || ltb max_priority threshold
      then pure bad_arg
      else do region_write32 bus base (threshold_base_for_target target) threshold; pure dif_ok

  unfoldable pub irq_is_pending : Option ℕ → ℕ → Bool → M S (DifResult × Option Bool)
  irq_is_pending none irq has_out = pure (bad_arg, none)
  irq_is_pending (some base) irq has_out =
      if leb num_src irq || not has_out then pure (bad_arg, none) else do
        let reg_info = irq_pending_reg_info irq
        reg ← region_read32 bus base reg_info.offset
        pure (dif_ok, some (bit32_read reg reg_info.bit_index))

  unfoldable pub irq_claim : Option ℕ → ℕ → Bool → M S (DifResult × Option ℕ)
  irq_claim none target has_out = pure (bad_arg, none)
  irq_claim (some base) target has_out =
      if leb num_target target || not has_out then pure (bad_arg, none) else do
        claim_data ← region_read32 bus base (claim_complete_base_for_target target)
        pure (dif_ok, some claim_data)

  unfoldable pub irq_complete : Option ℕ → ℕ → ℕ → M S DifResult
  irq_complete none target complete_data = pure bad_arg
  irq_complete (some base) target complete_data = if leb num_target target then pure bad_arg else do
    region_write32 bus base (claim_complete_base_for_target target) complete_data
    pure dif_ok

  unfoldable pub software_irq_force : Option ℕ → ℕ → M S DifResult
  software_irq_force none target = pure bad_arg
  software_irq_force (some base) target =
      if leb num_target target
      then pure bad_arg
      else do region_write32 bus base (software_irq_base_for_target target) 1; pure dif_ok

  unfoldable pub software_irq_acknowledge : Option ℕ → ℕ → M S DifResult
  software_irq_acknowledge none target = pure bad_arg
  software_irq_acknowledge (some base) target =
      if leb num_target target
      then pure bad_arg
      else do region_write32 bus base (software_irq_base_for_target target) 0; pure dif_ok

  unfoldable pub software_irq_is_pending : Option ℕ → ℕ → Bool → M S (DifResult × Option Bool)
  software_irq_is_pending none target has_out = pure (bad_arg, none)
  software_irq_is_pending (some base) target has_out =
      if leb num_target target || not has_out then pure (bad_arg, none) else do
        register_value ← region_read32 bus base (software_irq_base_for_target target)
        pure (dif_ok, some (register_value == 1))
