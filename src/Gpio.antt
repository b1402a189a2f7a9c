-- ===== src/Gpio.antt =====
-- sw/device/lib/dif/dif_gpio.c, the driver of the general-purpose pins. Handles and pointers are as in
-- `Plic`.
pub mod Masked
mod Tests
use sunburst_chip.Base.{
  ℕ, ◌+◌, ◌-◌, ◌*◌, ◌/◌, ◌%◌, ◌^◌, Bool, true, false, not, ◌||◌, if◌then◌else◌, ltb, leb, ◌==◌,
  Option, none, some, bit_and, bit_or, u32, ◌<<<◌, ◌>>>◌,
}
use sunburst_chip.Mmio.{
  Bus, M, pure, ◌>>=◌, ◌>>◌, region_read32, region_write32, nonatomic_set_field32, get_bit32,
}
use sunburst_chip.Dif.{
  DifResult, dif_ok, dif_error, bad_arg, Toggle, enabled, disabled, other_toggle,
}

abbrev pub num_pins : ℕ
num_pins = 32

abbrev pub rising_reg : ℕ
rising_reg = 0x2c

abbrev pub falling_reg : ℕ
falling_reg = 0x30

abbrev pub lvlhigh_reg : ℕ
lvlhigh_reg = 0x34

abbrev pub lvllow_reg : ℕ
lvllow_reg = 0x38

abbrev pub direct_out_reg : ℕ
direct_out_reg = 0x14

abbrev pub masked_out_lower_reg : ℕ
masked_out_lower_reg = 0x18

abbrev pub masked_out_upper_reg : ℕ
masked_out_upper_reg = 0x1c

abbrev pub masked_oe_lower_reg : ℕ
masked_oe_lower_reg = 0x24

abbrev pub masked_oe_upper_reg : ℕ
masked_oe_upper_reg = 0x28

-- `dif_gpio_irq_trigger_t`; C lets any other number stand there too.
pub data IrqTrigger : Type 0 where
  edge_rising edge_falling level_low level_high edge_rising_falling edge_rising_level_low
        edge_falling_level_high :
      IrqTrigger
  other_trigger : ℕ → IrqTrigger

abbrev pub index_to_mask : ℕ → ℕ
index_to_mask index = u32 (1 <<< index)

-- What is written for the two halves of a mask.
abbrev pub lower_value : ℕ → ℕ → ℕ
lower_value mask val = bit_or (u32 (bit_and mask 0xffff <<< 16)) (bit_and val 0xffff)

abbrev pub upper_value : ℕ → ℕ → ℕ
upper_value mask val = bit_or (bit_and mask 0xffff0000) (bit_and val 0xffff0000 >>> 16)

-- A toggle that is passed for a `bool`.
abbrev pub toggle_as_bool : Toggle → Bool
toggle_as_bool enabled = true
toggle_as_bool disabled = false
toggle_as_bool (other_toggle n) = not (n == 0)

module _ {S : Type 0} (bus : Bus S) where
  unfoldable pub masked_write : Option ℕ → ℕ → ℕ → ℕ → ℕ → M S DifResult
  masked_write none reg_lower reg_upper mask val = pure bad_arg
  masked_write (some base) reg_lower reg_upper mask val = do
    if bit_and mask 0xffff == 0
        then pure tt
        else region_write32 bus base reg_lower (lower_value mask val)
    if bit_and mask 0xffff0000 == 0
        then pure tt
        else region_write32 bus base reg_upper (upper_value mask val)
    pure dif_ok

  unfoldable pub masked_bit_write : Option ℕ → ℕ → ℕ → ℕ → Bool → M S DifResult
  masked_bit_write none reg_lower reg_upper index val = pure bad_arg
  masked_bit_write (some base) reg_lower reg_upper index val =
      if leb num_pins index then pure bad_arg else do
        let offset = if ltb index 16 then reg_lower else reg_upper
        let mask = index_to_mask (index % 16)
        region_write32 bus base offset (bit_or (u32 (mask <<< 16)) (if val then mask else 0))
        pure dif_ok

  unfoldable pub reset : Option ℕ → M S DifResult
  reset none = pure bad_arg
  reset (some base) = do
    region_write32 bus base 0x4 0
    region_write32 bus base 0x20 0
    region_write32 bus base direct_out_reg 0
    region_write32 bus base rising_reg 0
    region_write32 bus base falling_reg 0
    region_write32 bus base lvlhigh_reg 0
    region_write32 bus base lvllow_reg 0
    region_write32 bus base 0x3c 0
    region_write32 bus base 0x0 0xffffffff
    pure dif_ok

  -- `mmio_region_nonatomic_clear_mask32` and `mmio_region_nonatomic_set_mask32`, at index 0.
  unfoldable pub clear_mask : ℕ → ℕ → ℕ → M S (Unit {0})
  clear_mask base offset mask =
      nonatomic_set_field32 bus base offset (record { mask = mask; index = 0 }) 0

  unfoldable pub set_mask : ℕ → ℕ → ℕ → M S (Unit {0})
  set_mask base offset mask =
      nonatomic_set_field32 bus base offset (record { mask = mask; index = 0 }) 0xffffffff

  -- The `switch` of `dif_gpio_irq_set_trigger`.
  unfoldable pub set_trigger : ℕ → ℕ → IrqTrigger → M S DifResult
  unfolding set_mask
  set_trigger base mask edge_rising = do set_mask base rising_reg mask; pure dif_ok
  set_trigger base mask edge_falling = do set_mask base falling_reg mask; pure dif_ok
  set_trigger base mask level_low = do set_mask base lvllow_reg mask; pure dif_ok
  set_trigger base mask level_high = do set_mask base lvlhigh_reg mask; pure dif_ok
  set_trigger base mask edge_rising_falling = do
    set_mask base rising_reg mask
    set_mask base falling_reg mask
    pure dif_ok
  set_trigger base mask edge_rising_level_low = do
    set_mask base rising_reg mask
    set_mask base lvllow_reg mask
    pure dif_ok
  set_trigger base mask edge_falling_level_high = do
    set_mask base falling_reg mask
    set_mask base lvlhigh_reg mask
    pure dif_ok
  set_trigger base mask (other_trigger n) = pure dif_error

  unfoldable pub irq_set_trigger : Option ℕ → ℕ → IrqTrigger → M S DifResult
  irq_set_trigger none mask trigger = pure bad_arg
  irq_set_trigger (some base) mask trigger = do
    clear_mask base rising_reg mask
    clear_mask base falling_reg mask
    clear_mask base lvlhigh_reg mask
    clear_mask base lvllow_reg mask
    set_trigger base mask trigger

  unfoldable pub read_all : Option ℕ → Bool → M S (DifResult × Option ℕ)
  read_all none has_state = pure (bad_arg, none)
  read_all (some base) has_state =
      if not has_state
      then pure (bad_arg, none)
      else do state ← region_read32 bus base 0x10; pure (dif_ok, some state)

  unfoldable pub read : Option ℕ → ℕ → Bool → M S (DifResult × Option Bool)
  read none pin has_state = pure (bad_arg, none)
  read (some base) pin has_state =
      if not has_state || leb num_pins pin
      then pure (bad_arg, none)
      else do state ← get_bit32 bus base 0x10 pin; pure (dif_ok, some state)

  unfoldable pub write_all : Option ℕ → ℕ → M S DifResult
  write_all none state = pure bad_arg
  write_all (some base) state = do region_write32 bus base direct_out_reg state; pure dif_ok

  unfoldable pub write : Option ℕ → ℕ → Bool → M S DifResult
  write gpio pin state = masked_bit_write gpio masked_out_lower_reg masked_out_upper_reg pin state

  unfoldable pub write_masked : Option ℕ → ℕ → ℕ → M S DifResult
  write_masked gpio mask state =
      masked_write gpio masked_out_lower_reg masked_out_upper_reg mask state

  unfoldable pub output_set_enabled_all : Option ℕ → ℕ → M S DifResult
  output_set_enabled_all none state = pure bad_arg
  output_set_enabled_all (some base) state = do region_write32 bus base 0x20 state; pure dif_ok

  unfoldable pub output_set_enabled : Option ℕ → ℕ → Toggle → M S DifResult
  output_set_enabled gpio pin state =
      masked_bit_write gpio masked_oe_lower_reg masked_oe_upper_reg pin (toggle_as_bool state)

  unfoldable pub output_set_enabled_masked : Option ℕ → ℕ → ℕ → M S DifResult
  output_set_enabled_masked gpio mask state =
      masked_write gpio masked_oe_lower_reg masked_oe_upper_reg mask state

  unfoldable pub input_noise_filter_set_enabled : Option ℕ → ℕ → Toggle → M S DifResult
  input_noise_filter_set_enabled none mask state = pure bad_arg
  input_noise_filter_set_enabled (some base) mask enabled = do set_mask base 0x3c mask; pure dif_ok
  input_noise_filter_set_enabled (some base) mask disabled = do
    clear_mask base 0x3c mask
    pure dif_ok
  input_noise_filter_set_enabled (some base) mask (other_toggle n) = pure bad_arg
