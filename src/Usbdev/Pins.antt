-- ===== src/Usbdev/Pins.antt =====
-- The pins of dif_usbdev.c: the transceiver's test mode, waking from sleep, and the pins that are
-- sensed and driven.
pub mod Drive
use sunburst_chip.Base.{ℕ, ◌+◌, ◌*◌, ◌/◌, Bool, true, false, not, if◌then◌else◌, Option, none, some}
use sunburst_chip.Bitfield.{bit32_read, bit32_write}
use sunburst_chip.Mmio.{Bus, M, pure, ◌>>=◌, ◌>>◌, region_read32, region_write32}
use sunburst_chip.Dif.{DifResult, dif_ok, bad_arg, Toggle, is_valid_toggle, toggle_to_bool}
use sunburst_chip.Usbdev.Status.{read_out}

-- `dif_usbdev_wake_status_t`, `dif_usbdev_phy_pins_sense_t` and `dif_usbdev_phy_pins_drive_t`.
pub record WakeStatus : Type 0 where
  pub is_active : Bool
  pub is_disconnected : Bool
  pub bus_reset : Bool
  pub bus_not_idle : Bool

pub record PhyPinsSense : Type 0 where
  pub rx_dp : Bool
  pub rx_dn : Bool
  pub rx_d : Bool
  pub tx_dp : Bool
  pub tx_dn : Bool
  pub tx_d : Bool
  pub tx_se0 : Bool
  pub output_enable : Bool
  pub vbus_sense : Bool

pub record PhyPinsDrive : Type 0 where
  pub dp : Bool
  pub dn : Bool
  pub data_ : Bool
  pub se0 : Bool
  pub output_enable : Bool
  pub diff_receiver_enable : Bool
  pub dp_pullup_en : Bool
  pub dn_pullup_en : Bool

abbrev pub phy_pins_drive_reg : ℕ
phy_pins_drive_reg = 0x88

-- The register of the pins, with the enable bit, that drives them.
unfoldable pub drive_of : PhyPinsDrive → ℕ → ℕ
drive_of overrides enabled_val =
    let v0 = bit32_write enabled_val 0 overrides.dp in
    let v1 = bit32_write v0 1 overrides.dn in
    let v2 = bit32_write v1 2 overrides.data_ in
    let v3 = bit32_write v2 3 overrides.se0 in
    let v4 = bit32_write v3 4 overrides.output_enable in
    let v5 = bit32_write v4 5 overrides.diff_receiver_enable in
    let v6 = bit32_write v5 6 overrides.dp_pullup_en in bit32_write v6 7 overrides.dn_pullup_en

module _ {S : Type 0} (bus : Bus S) where
  unfoldable pub set_osc_test_mode : Option ℕ → Toggle → M S DifResult
  set_osc_test_mode none new_state = pure bad_arg
  set_osc_test_mode (some base) new_state =
      if not (is_valid_toggle new_state) then pure bad_arg else do
        reg_val ← region_read32 bus base 0x8c
        region_write32 bus base 0x8c (bit32_write reg_val 7 (toggle_to_bool new_state))
        pure dif_ok

  unfoldable pub set_wake_enable : Option ℕ → Toggle → M S DifResult
  set_wake_enable none new_state = pure bad_arg
  set_wake_enable (some base) new_state =
      if not (is_valid_toggle new_state) then pure bad_arg else do
        let reg_val =
            if toggle_to_bool new_state then bit32_write 0 0 true else bit32_write 0 1 true
        region_write32 bus base 0x90 reg_val
        pure dif_ok

  unfoldable pub get_wake_status : Option ℕ → Bool → M S (DifResult × Option WakeStatus)
  unfolding read_out
  get_wake_status usbdev has_out = read_out bus 0x94 usbdev has_out λ reg_val. record {
    is_active = bit32_read reg_val 0;
    is_disconnected = bit32_read reg_val 8;
    bus_reset = bit32_read reg_val 9;
    bus_not_idle = bit32_read reg_val 10;
  }

  unfoldable pub get_phy_pins_status : Option ℕ → Bool → M S (DifResult × Option PhyPinsSense)
  unfolding read_out
  get_phy_pins_status usbdev has_out = read_out bus 0x84 usbdev has_out λ reg_val. record {
    rx_dp = bit32_read reg_val 0;
    rx_dn = bit32_read reg_val 1;
    rx_d = bit32_read reg_val 2;
    tx_dp = bit32_read reg_val 8;
    tx_dn = bit32_read reg_val 9;
    tx_d = bit32_read reg_val 10;
    tx_se0 = bit32_read reg_val 11;
    output_enable = bit32_read reg_val 12;
    vbus_sense = bit32_read reg_val 16;
  }

  unfoldable pub set_phy_pins_state : Option ℕ → Toggle → PhyPinsDrive → M S DifResult
  set_phy_pins_state none override_enable overrides = pure bad_arg
  set_phy_pins_state (some base) override_enable overrides =
      if not (is_valid_toggle override_enable) then pure bad_arg else do
        let drive_en = toggle_to_bool override_enable
        let reg_val = bit32_write 0 16 drive_en
        region_write32 bus base phy_pins_drive_reg
            (if drive_en then drive_of overrides reg_val else reg_val)
        pure dif_ok
