-- ===== src/Usbdev/Endpoint.antt =====
-- The endpoints of dif_usbdev.c: what is switched on for each, and the configuration of the whole.
pub mod Stall
use sunburst_chip.Base.{
  ℕ, ◌+◌, ◌*◌, ◌/◌, Bool, true, false, not, ◌||◌, if◌then◌else◌, ltb, ◌==◌, Option, none, some,
}
use sunburst_chip.Bitfield.{bit32_read, bit32_write}
use sunburst_chip.Mmio.{Bus, M, pure, ◌>>=◌, ◌>>◌, region_read32, region_write32}
use sunburst_chip.Dif.{DifResult, dif_ok, dif_error, bad_arg, Toggle}
use sunburst_chip.Dif.{is_valid_toggle, toggle_to_bool}
use sunburst_chip.Usbdev.Pool.{BufferPool, init}

-- `dif_usbdev_endpoint_id_t`.
pub record EndpointId : Type 0 where
  pub number : ℕ
  pub direction : ℕ

-- `dif_usbdev_config_t`.
pub record Config : Type 0 where
  pub have_differential_receiver : Toggle
  pub use_tx_d_se0 : Toggle
  pub single_bit_eop : Toggle
  pub pin_flip : Toggle
  pub clock_sync_signals : Toggle

unfoldable pub is_valid_endpoint : ℕ → Bool
is_valid_endpoint endpoint_number = ltb endpoint_number 12

-- The fields of `kEndpointHwInfos`.
abbrev pub bit_index : ℕ → ℕ
bit_index endpoint = endpoint

abbrev pub config_in_reg_offset : ℕ → ℕ
config_in_reg_offset endpoint = 0x44 + 4 * endpoint

-- The offset for an IN endpoint or for an OUT endpoint.
abbrev pub by_direction : EndpointId → ℕ → ℕ → ℕ
by_direction endpoint in_reg out_reg = if endpoint.direction == 1 then in_reg else out_reg

unfoldable pub is_invalid_config : Config → Bool
is_invalid_config config =
    not (is_valid_toggle config.have_differential_receiver)
    || (not (is_valid_toggle config.use_tx_d_se0)
        || (not (is_valid_toggle config.single_bit_eop)
            || (not (is_valid_toggle config.pin_flip)
                || not (is_valid_toggle config.clock_sync_signals))))

-- The value of the PHY_CONFIG register.
unfoldable pub phy_config_of : Config → ℕ
phy_config_of config =
    let rcvr = bit32_write 0 0 (toggle_to_bool config.have_differential_receiver) in
    let se0 = bit32_write rcvr 1 (toggle_to_bool config.use_tx_d_se0) in
    let eop = bit32_write se0 2 (toggle_to_bool config.single_bit_eop) in
    let flip = bit32_write eop 5 (toggle_to_bool config.pin_flip) in
    bit32_write flip 6 (not (toggle_to_bool config.clock_sync_signals))

module _ {S : Type 0} (bus : Bus S) where
  unfoldable pub endpoint_functionality_enable : Option ℕ → ℕ → ℕ → Toggle → M S DifResult
  endpoint_functionality_enable none reg_offset endpoint new_state = pure bad_arg
  endpoint_functionality_enable (some base) reg_offset endpoint new_state =
      if not (is_valid_endpoint endpoint) || not (is_valid_toggle new_state)
      then pure bad_arg
      else do
        reg_val ← region_read32 bus base reg_offset
        region_write32 bus base reg_offset
            (bit32_write reg_val (bit_index endpoint) (toggle_to_bool new_state))
        pure dif_ok

  unfoldable pub endpoint_setup_enable : Option ℕ → ℕ → Toggle → M S DifResult
  endpoint_setup_enable usbdev endpoint new_state =
      endpoint_functionality_enable usbdev 0x2c endpoint new_state

  unfoldable pub endpoint_out_enable : Option ℕ → ℕ → Toggle → M S DifResult
  endpoint_out_enable usbdev endpoint new_state =
      endpoint_functionality_enable usbdev 0x30 endpoint new_state

  unfoldable pub endpoint_set_nak_out_enable : Option ℕ → ℕ → Toggle → M S DifResult
  endpoint_set_nak_out_enable usbdev endpoint new_state =
      endpoint_functionality_enable usbdev 0x34 endpoint new_state

  unfoldable pub endpoint_stall_enable : Option ℕ → EndpointId → Toggle → M S DifResult
  endpoint_stall_enable usbdev endpoint new_state =
      endpoint_functionality_enable usbdev (by_direction endpoint 0x40 0x3c) endpoint.number
        new_state

  unfoldable pub endpoint_stall_get : Option ℕ → EndpointId → Bool → M S (DifResult × Option Bool)
  endpoint_stall_get none endpoint has_state = pure (bad_arg, none)
  endpoint_stall_get (some base) endpoint has_state =
      if not has_state || not (is_valid_endpoint endpoint.number) then pure (bad_arg, none) else do
        reg_val ← region_read32 bus base (by_direction endpoint 0x40 0x3c)
        pure (dif_ok, some (bit32_read reg_val (bit_index endpoint.number)))

  unfoldable pub endpoint_iso_enable : Option ℕ → EndpointId → Toggle → M S DifResult
  endpoint_iso_enable usbdev endpoint new_state =
      endpoint_functionality_enable usbdev (by_direction endpoint 0x78 0x74) endpoint.number
        new_state

  unfoldable pub endpoint_enable : Option ℕ → EndpointId → Toggle → M S DifResult
  endpoint_enable usbdev endpoint new_state =
      endpoint_functionality_enable usbdev (by_direction endpoint 0x18 0x14) endpoint.number
        new_state

  unfoldable pub interface_enable : Option ℕ → Toggle → M S DifResult
  interface_enable none new_state = pure bad_arg
  interface_enable (some base) new_state =
      if not (is_valid_toggle new_state) then pure bad_arg else do
        reg_val ← region_read32 bus base 0x10
        region_write32 bus base 0x10 (bit32_write reg_val 0 (toggle_to_bool new_state))
        pure dif_ok

  -- What is left of the configuration once the pool was initialized.
  unfoldable pub configure_phy :
      ℕ → Config → Bool × BufferPool → M S (DifResult × Option BufferPool)
  configure_phy base config (false, pool) = pure (dif_error, some pool)
  configure_phy base config (true, pool) =
      if is_invalid_config config
      then pure (bad_arg, some pool)
      else do region_write32 bus base 0x8c (phy_config_of config); pure (dif_ok, some pool)

  unfoldable pub configure :
      Option ℕ → Option BufferPool → Config → M S (DifResult × Option BufferPool)
  configure none buffer_pool config = pure (bad_arg, buffer_pool)
  configure (some base) none config = pure (bad_arg, none)
  configure (some base) (some pool) config = configure_phy base config (init pool)
