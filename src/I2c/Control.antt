-- ===== src/I2c/Control.antt =====
-- The registers of dif_i2c.c but for its FIFOs: status, events, switches, pins, watermarks and
-- timeouts. In the functions that read, `has_out` tells that no pointer to a result is NULL.
use sunburst_chip.Base.{
  ℕ, ◌+◌, Bool, true, false, not, ◌||◌, if◌then◌else◌, ltb, leb, Option, none, some,
}
use sunburst_chip.Bitfield.{Field32, field32_write, bit32_read, bit32_write}
use sunburst_chip.Mmio.{Bus, M, pure, ◌>>=◌, ◌>>◌, region_read32, region_write32}
use sunburst_chip.Dif.{DifResult, dif_ok, bad_arg, Toggle, is_valid_toggle, toggle_to_bool}

abbrev pub ctrl_reg : ℕ
ctrl_reg = 0x10

abbrev pub status_reg : ℕ
status_reg = 0x14

abbrev pub fifo_ctrl_reg : ℕ
fifo_ctrl_reg = 0x20

-- `dif_i2c_status_t`, `dif_i2c_controller_halt_events_t` and `dif_i2c_target_tx_halt_events_t`.
pub record Status : Type 0 where
  pub enable_host : Bool
  pub enable_target : Bool
  pub line_loopback : Bool
  pub ack_control_en : Bool
  pub fmt_fifo_full : Bool
  pub rx_fifo_full : Bool
  pub fmt_fifo_empty : Bool
  pub rx_fifo_empty : Bool
  pub host_idle : Bool
  pub target_idle : Bool
  pub tx_fifo_full : Bool
  pub acq_fifo_full : Bool
  pub tx_fifo_empty : Bool
  pub acq_fifo_empty : Bool
  pub ack_ctrl_stretch : Bool

pub record ControllerHaltEvents : Type 0 where
  pub nack_received : Bool
  pub unhandled_nack_timeout : Bool
  pub bus_timeout : Bool
  pub arbitration_lost : Bool

pub record TargetTxHaltEvents : Type 0 where
  pub tx_pending : Bool
  pub bus_timeout : Bool
  pub arbitration_lost : Bool

-- `dif_i2c_id_t`, and `dif_i2c_scl_timeout_t`; C lets any other number stand there too.
pub record DeviceId : Type 0 where
  pub mask : ℕ
  pub address : ℕ

pub data SclTimeout : Type 0 where
  timeout_disabled timeout_stretch timeout_bus : SclTimeout
  other_timeout : ℕ → SclTimeout

unfoldable pub status_of : ℕ → ℕ → Status
status_of ctrl reg = record {
  enable_host = bit32_read ctrl 0;
  enable_target = bit32_read ctrl 1;
  line_loopback = bit32_read ctrl 2;
  ack_control_en = bit32_read ctrl 4;
  fmt_fifo_full = bit32_read reg 0;
  rx_fifo_full = bit32_read reg 1;
  fmt_fifo_empty = bit32_read reg 2;
  rx_fifo_empty = bit32_read reg 5;
  host_idle = bit32_read reg 3;
  target_idle = bit32_read reg 4;
  tx_fifo_full = bit32_read reg 6;
  acq_fifo_full = bit32_read reg 7;
  tx_fifo_empty = bit32_read reg 8;
  acq_fifo_empty = bit32_read reg 9;
  ack_ctrl_stretch = bit32_read reg 10;
}

-- The enable bit and the mode of a kind of timeout; `none` is a bad argument.
unfoldable pub timeout_of : SclTimeout → Option (Bool × Bool)
timeout_of timeout_disabled = some (false, false)
timeout_of timeout_stretch = some (true, false)
timeout_of timeout_bus = some (true, true)
timeout_of (other_timeout n) = none

-- The two fields of a device id, at `index`; without one the address is 0x7f.
unfoldable pub with_id : Option DeviceId → ℕ → ℕ → ℕ
with_id (some id) index config =
    field32_write (field32_write config (record { mask = 0x7f; index = index }) id.address)
      (record { mask = 0x7f; index = index + 7 }) id.mask
with_id none index config = field32_write config (record { mask = 0x7f; index = index }) 0x7f

abbrev pub low_threshold : Field32
low_threshold = record { mask = 0xfff; index = 0 }

abbrev pub high_threshold : Field32
high_threshold = record { mask = 0xfff; index = 16 }

module _ {S : Type 0} (bus : Bus S) where
  unfoldable pub get_status : Option ℕ → Bool → M S (DifResult × Option Status)
  get_status none has_out = pure (bad_arg, none)
  get_status (some base) has_out = if not has_out then pure (bad_arg, none) else do
    ctrl ← region_read32 bus base ctrl_reg
    reg ← region_read32 bus base status_reg
    pure (dif_ok, some (status_of ctrl reg))

  unfoldable pub get_controller_halt_events :
      Option ℕ → Bool → M S (DifResult × Option ControllerHaltEvents)
  get_controller_halt_events none has_out = pure (bad_arg, none)
  get_controller_halt_events (some base) has_out = if not has_out then pure (bad_arg, none) else do
    reg ← region_read32 bus base 0x78
    pure (
      dif_ok,
      some (record {
        nack_received = bit32_read reg 0;
        unhandled_nack_timeout = bit32_read reg 1;
        bus_timeout = bit32_read reg 2;
        arbitration_lost = bit32_read reg 3;
      }),
    )

  unfoldable pub clear_controller_halt_events : Option ℕ → ControllerHaltEvents → M S DifResult
  clear_controller_halt_events none events = pure bad_arg
  clear_controller_halt_events (some base) events = do
    let nack = bit32_write 0 0 events.nack_received
    let unhandled = bit32_write nack 1 events.unhandled_nack_timeout
    let timeout = bit32_write unhandled 2 events.bus_timeout
    region_write32 bus base 0x78 (bit32_write timeout 3 events.arbitration_lost)
    pure dif_ok

  unfoldable pub get_target_tx_halt_events :
      Option ℕ → Bool → M S (DifResult × Option TargetTxHaltEvents)
  get_target_tx_halt_events none has_out = pure (bad_arg, none)
  get_target_tx_halt_events (some base) has_out = if not has_out then pure (bad_arg, none) else do
    reg ← region_read32 bus base 0x7c
    pure (
      dif_ok,
      some (record {
        tx_pending = bit32_read reg 0;
        bus_timeout = bit32_read reg 1;
        arbitration_lost = bit32_read reg 2;
      }),
    )

  unfoldable pub clear_target_tx_halt_events : Option ℕ → TargetTxHaltEvents → M S DifResult
  clear_target_tx_halt_events none events = pure bad_arg
  clear_target_tx_halt_events (some base) events = do
    let tx = bit32_write 0 0 events.tx_pending
    let timeout = bit32_write tx 1 events.bus_timeout
    region_write32 bus base 0x7c (bit32_write timeout 2 events.arbitration_lost)
    pure dif_ok

  -- Setting a bit of the FIFO control register.
  unfoldable pub reset_fifo : ℕ → Option ℕ → M S DifResult
  reset_fifo reset_bit none = pure bad_arg
  reset_fifo reset_bit (some base) = do
    reg ← region_read32 bus base fifo_ctrl_reg
    region_write32 bus base fifo_ctrl_reg (bit32_write reg reset_bit true)
    pure dif_ok

  unfoldable pub reset_rx_fifo : Option ℕ → M S DifResult
  unfolding reset_fifo
  reset_rx_fifo i2c = reset_fifo 0 i2c

  unfoldable pub reset_fmt_fifo : Option ℕ → M S DifResult
  unfolding reset_fifo
  reset_fmt_fifo i2c = reset_fifo 1 i2c

  unfoldable pub reset_tx_fifo : Option ℕ → M S DifResult
  unfolding reset_fifo
  reset_tx_fifo i2c = reset_fifo 8 i2c

  unfoldable pub reset_acq_fifo : Option ℕ → M S DifResult
  unfolding reset_fifo
  reset_acq_fifo i2c = reset_fifo 7 i2c

  unfoldable pub set_host_watermarks : Option ℕ → ℕ → ℕ → M S DifResult
  set_host_watermarks none rx_level fmt_level = pure bad_arg
  set_host_watermarks (some base) rx_level fmt_level =
      if ltb 64 rx_level || leb 64 fmt_level then pure bad_arg else do
        ctrl_value ← region_read32 bus base 0x24
        let rx = field32_write ctrl_value low_threshold rx_level
        region_write32 bus base 0x24 (field32_write rx high_threshold fmt_level)
        pure dif_ok

  unfoldable pub set_target_watermarks : Option ℕ → ℕ → ℕ → M S DifResult
  set_target_watermarks none tx_level acq_level = pure bad_arg
  set_target_watermarks (some base) tx_level acq_level =
      if ltb 268 acq_level || leb 64 tx_level then pure bad_arg else do
        ctrl_value ← region_read32 bus base 0x28
        let tx = field32_write ctrl_value low_threshold tx_level
        region_write32 bus base 0x28 (field32_write tx high_threshold acq_level)
        pure dif_ok

  -- Writing a toggle to a bit of a register.
  unfoldable pub set_enabled : ℕ → ℕ → Option ℕ → Toggle → M S DifResult
  set_enabled offset bit none state = pure bad_arg
  set_enabled offset bit (some base) state =
      if not (is_valid_toggle state) then pure bad_arg else do
        reg ← region_read32 bus base offset
        region_write32 bus base offset (bit32_write reg bit (toggle_to_bool state))
        pure dif_ok

  unfoldable pub host_set_enabled : Option ℕ → Toggle → M S DifResult
  unfolding set_enabled
  host_set_enabled i2c state = set_enabled ctrl_reg 0 i2c state

  unfoldable pub device_set_enabled : Option ℕ → Toggle → M S DifResult
  unfolding set_enabled
  device_set_enabled i2c state = set_enabled ctrl_reg 1 i2c state

  unfoldable pub line_loopback_set_enabled : Option ℕ → Toggle → M S DifResult
  unfolding set_enabled
  line_loopback_set_enabled i2c state = set_enabled ctrl_reg 2 i2c state

  unfoldable pub addr_nack_set_enabled : Option ℕ → Toggle → M S DifResult
  unfolding set_enabled
  addr_nack_set_enabled i2c state = set_enabled ctrl_reg 3 i2c state

  unfoldable pub ack_ctrl_set_enabled : Option ℕ → Toggle → M S DifResult
  unfolding set_enabled
  ack_ctrl_set_enabled i2c state = set_enabled ctrl_reg 4 i2c state

  unfoldable pub multi_controller_monitor_set_enabled : Option ℕ → Toggle → M S DifResult
  unfolding set_enabled
  multi_controller_monitor_set_enabled i2c state = set_enabled ctrl_reg 5 i2c state

  unfoldable pub target_tx_stretch_ctrl_set_enabled : Option ℕ → Toggle → M S DifResult
  unfolding set_enabled
  target_tx_stretch_ctrl_set_enabled i2c state = set_enabled ctrl_reg 6 i2c state

  unfoldable pub override_set_enabled : Option ℕ → Toggle → M S DifResult
  unfolding set_enabled
  override_set_enabled i2c state = set_enabled 0x34 0 i2c state

  unfoldable pub override_drive_pins : Option ℕ → Bool → Bool → M S DifResult
  override_drive_pins none scl sda = pure bad_arg
  override_drive_pins (some base) scl sda = do
    override_val ← region_read32 bus base 0x34
    region_write32 bus base 0x34 (bit32_write (bit32_write override_val 1 scl) 2 sda)
    pure dif_ok

  unfoldable pub enable_clock_timeout : Option ℕ → SclTimeout → ℕ → M S DifResult
  enable_clock_timeout none timeout_type cycles = pure bad_arg
  enable_clock_timeout (some base) timeout_type cycles = elim (timeout_of timeout_type) [
    | none ↦ pure bad_arg
    | some (timeout_en, timeout_mode) ↦ do
      let config = bit32_write (bit32_write 0 31 timeout_en) 30 timeout_mode
      region_write32 bus base 0x50
          (field32_write config (record { mask = 0x3fffffff; index = 0 }) cycles)
      pure dif_ok
  ]

  unfoldable pub set_device_id : Option ℕ → Option DeviceId → Option DeviceId → M S DifResult
  set_device_id none id0 id1 = pure bad_arg
  set_device_id (some base) id0 id1 = do
    region_write32 bus base 0x54 (with_id id1 14 (with_id id0 0 0))
    pure dif_ok

  unfoldable pub set_host_timeout : Option ℕ → ℕ → M S DifResult
  set_host_timeout none cycles = pure bad_arg
  set_host_timeout (some base) cycles = do region_write32 bus base 0x60 cycles; pure dif_ok
