-- ===== src/Usbdev/Status.antt =====
-- The rest of dif_usbdev.c but for the pins: the device's address, data toggles and status.
pub mod Laws
use sunburst_chip.Base.{
  ℕ, ◌+◌, ◌*◌, ◌/◌, ◌%◌, ◌^◌, Bool, true, false, not, ◌||◌, if◌then◌else◌, ◌==◌, Option, none, some,
  u8, u32, ◌<<<◌, bit_or,
}
use sunburst_chip.Bitfield.{Field32, field32_read, field32_write, bit32_read, bit32_write}
use sunburst_chip.Mmio.{Bus, M, pure, ◌>>=◌, ◌>>◌, region_read32, region_write32, get_bit32}
use sunburst_chip.Dif.{DifResult, dif_ok, dif_error, bad_arg}
use sunburst_chip.Usbdev.Fifos.{usbstat_reg, av_setup_depth_field}

abbrev pub usbctrl_reg : ℕ
usbctrl_reg = 0x10

abbrev pub out_data_toggle_reg : ℕ
out_data_toggle_reg = 0x7c

abbrev pub in_data_toggle_reg : ℕ
in_data_toggle_reg = 0x80

abbrev pub device_address_field : Field32
device_address_field = record { mask = 0x7f; index = 16 }

abbrev pub frame_field : Field32
frame_field = record { mask = 0x7ff; index = 0 }

abbrev pub link_state_field : Field32
link_state_field = record { mask = 0x7; index = 12 }

abbrev pub av_out_depth_field : Field32
av_out_depth_field = record { mask = 0xf; index = 16 }

abbrev pub rx_depth_field : Field32
rx_depth_field = record { mask = 0xf; index = 24 }

-- `dif_usbdev_link_state_t`.
pub data LinkState : Type 0 where
  disconnected powered powered_suspended active suspended active_no_sof resuming : LinkState

-- The `switch` of `dif_usbdev_status_get_link_state`.
unfoldable pub link_state_of : ℕ → DifResult × Option LinkState
link_state_of val =
    if val == 0
    then (dif_ok, some disconnected)
    else if val == 1
    then (dif_ok, some powered)
    else if val == 2
    then (dif_ok, some powered_suspended)
    else if val == 3
    then (dif_ok, some active)
    else if val == 4
    then (dif_ok, some suspended)
    else if val == 5
    then (dif_ok, some active_no_sof)
    else if val == 6
    then (dif_ok, some resuming)
    else (dif_error, none)

-- The value that moves the toggles of `mask` to `state`, both of 16 bits.
abbrev pub toggles_of : ℕ → ℕ → ℕ
toggles_of mask state = bit_or (u32 (mask <<< 16)) state

module _ {S : Type 0} (bus : Bus S) where
  unfoldable pub address_set : Option ℕ → ℕ → M S DifResult
  address_set none addr = pure bad_arg
  address_set (some base) addr = do
    reg_val ← region_read32 bus base usbctrl_reg
    region_write32 bus base usbctrl_reg (field32_write reg_val device_address_field addr)
    pure dif_ok

  -- In the functions that read a register, `has_out` tells that no pointer to a result is NULL.
  unfoldable pub read_out :
      {A : Type 0} → ℕ → Option ℕ → Bool → (ℕ → A) → M S (DifResult × Option A)
  read_out offset none has_out f = pure (bad_arg, none)
  read_out offset (some base) has_out f =
      if not has_out
      then pure (bad_arg, none)
      else do reg_val ← region_read32 bus base offset; pure (dif_ok, some (f reg_val))

  unfoldable pub address_get : Option ℕ → Bool → M S (DifResult × Option ℕ)
  unfolding read_out
  address_get usbdev has_out =
      read_out usbctrl_reg usbdev has_out λ reg_val. u8 (field32_read reg_val device_address_field)

  unfoldable pub data_toggle_out_read : Option ℕ → Bool → M S (DifResult × Option ℕ)
  unfolding read_out
  data_toggle_out_read usbdev has_out =
      read_out out_data_toggle_reg usbdev has_out λ reg_val. reg_val % 2 ^ 16

  unfoldable pub data_toggle_in_read : Option ℕ → Bool → M S (DifResult × Option ℕ)
  unfolding read_out
  data_toggle_in_read usbdev has_out =
      read_out in_data_toggle_reg usbdev has_out λ reg_val. reg_val % 2 ^ 16

  unfoldable pub data_toggle_out_write : Option ℕ → ℕ → ℕ → M S DifResult
  data_toggle_out_write none mask state = pure bad_arg
  data_toggle_out_write (some base) mask state = do
    region_write32 bus base out_data_toggle_reg (toggles_of mask state)
    pure dif_ok

  unfoldable pub data_toggle_in_write : Option ℕ → ℕ → ℕ → M S DifResult
  data_toggle_in_write none mask state = pure bad_arg
  data_toggle_in_write (some base) mask state = do
    region_write32 bus base in_data_toggle_reg (toggles_of mask state)
    pure dif_ok

  -- C leaves the shift open for an endpoint of 16 or more; here it gives 0.
  unfoldable pub clear_data_toggle : Option ℕ → ℕ → M S DifResult
  clear_data_toggle none endpoint = pure bad_arg
  clear_data_toggle (some base) endpoint = do
    let reg_val = u32 (1 <<< (endpoint + 16))
    region_write32 bus base out_data_toggle_reg reg_val
    region_write32 bus base in_data_toggle_reg reg_val
    pure dif_ok

  unfoldable pub status_get_frame : Option ℕ → Bool → M S (DifResult × Option ℕ)
  unfolding read_out
  status_get_frame usbdev has_out =
      read_out usbstat_reg usbdev has_out λ reg_val. u8 (field32_read reg_val frame_field)

  unfoldable pub status_get_host_lost : Option ℕ → Bool → M S (DifResult × Option Bool)
  status_get_host_lost none has_out = pure (bad_arg, none)
  status_get_host_lost (some base) has_out =
      if not has_out
      then pure (bad_arg, none)
      else do host_lost ← get_bit32 bus base usbstat_reg 11; pure (dif_ok, some host_lost)

  unfoldable pub status_get_link_state : Option ℕ → Bool → M S (DifResult × Option LinkState)
  status_get_link_state none has_out = pure (bad_arg, none)
  status_get_link_state (some base) has_out = if not has_out then pure (bad_arg, none) else do
    val ← region_read32 bus base usbstat_reg
    pure (link_state_of (field32_read val link_state_field))

  unfoldable pub status_get_sense : Option ℕ → Bool → M S (DifResult × Option Bool)
  status_get_sense none has_out = pure (bad_arg, none)
  status_get_sense (some base) has_out =
      if not has_out
      then pure (bad_arg, none)
      else do sense ← get_bit32 bus base usbstat_reg 15; pure (dif_ok, some sense)

  -- The depths of the SETUP and the OUT FIFO.
  unfoldable pub status_get_available_fifo_depths :
      Option ℕ → Bool → M S (DifResult × Option (ℕ × ℕ))
  unfolding read_out
  status_get_available_fifo_depths usbdev has_out = read_out usbstat_reg usbdev has_out λ reg_val.
      (u8 (field32_read reg_val av_setup_depth_field), u8 (field32_read reg_val av_out_depth_field))

  unfoldable pub status_get_available_fifo_full :
      Option ℕ → Bool → M S (DifResult × Option (Bool × Bool))
  unfolding read_out
  status_get_available_fifo_full usbdev has_out =
      read_out usbstat_reg usbdev has_out λ reg_val. (bit32_read reg_val 30, bit32_read reg_val 23)

  unfoldable pub status_get_rx_fifo_depth : Option ℕ → Bool → M S (DifResult × Option ℕ)
  unfolding read_out
  status_get_rx_fifo_depth usbdev has_out =
      read_out usbstat_reg usbdev has_out λ reg_val. u8 (field32_read reg_val rx_depth_field)

  unfoldable pub status_get_rx_fifo_empty : Option ℕ → Bool → M S (DifResult × Option Bool)
  unfolding read_out
  status_get_rx_fifo_empty usbdev has_out =
      read_out usbstat_reg usbdev has_out λ reg_val. bit32_read reg_val 31

  unfoldable pub resume_link_to_active : Option ℕ → M S DifResult
  resume_link_to_active none = pure bad_arg
  resume_link_to_active (some base) = do
    reg_val ← region_read32 bus base usbctrl_reg
    region_write32 bus base usbctrl_reg (bit32_write reg_val 1 true)
    pure dif_ok
