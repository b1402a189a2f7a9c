-- ===== src/Uart.antt =====
-- sw/device/lib/dif/dif_uart.c, the driver of the serial port: its configuration, watermarks, loopback
-- and timeout. Handles and pointers are as in `Plic`; the FIFOs are in Uart/Stream.antt.
pub mod Stream
pub mod Control
pub mod Configure
pub mod Timeout
mod Tests
use sunburst_chip.Base.{
  ℕ, zero, suc, ◌+◌, ◌-◌, ◌*◌, ◌/◌, ◌%◌, ◌^◌, Bool, true, false, not, ◌&&◌, ◌||◌, if◌then◌else◌,
}
use sunburst_chip.Base.{Option, none, some, ◌==◌, u32, u64, bit_and, ◌<<<◌, ◌>>>◌}
use sunburst_chip.Bitfield.{Field32, not32, field32_read, field32_write, bit32_read, bit32_write}
use sunburst_chip.Math.{udiv64_slow}
use sunburst_chip.Mmio.{Bus, M, pure, ◌>>=◌, ◌>>◌, region_read32, region_write32}
use sunburst_chip.Dif.{
  DifResult, dif_ok, dif_error, bad_arg, Toggle, enabled, disabled, other_toggle,
}
use sunburst_chip.Dif.{is_valid_toggle, toggle_to_bool, bool_to_toggle}

-- The register offsets of sw/device/regs/uart_regs.h.
abbrev pub intr_state_reg : ℕ
intr_state_reg = 0x0

abbrev pub intr_enable_reg : ℕ
intr_enable_reg = 0x4

abbrev pub ctrl_reg : ℕ
ctrl_reg = 0x10

abbrev pub fifo_ctrl_reg : ℕ
fifo_ctrl_reg = 0x20

abbrev pub ovrd_reg : ℕ
ovrd_reg = 0x28

abbrev pub timeout_ctrl_reg : ℕ
timeout_ctrl_reg = 0x30

abbrev pub rxblvl_field : Field32
rxblvl_field = record { mask = 0x3; index = 8 }

abbrev pub nco_field : Field32
nco_field = record { mask = 0xffff; index = 16 }

abbrev pub rxilvl_field : Field32
rxilvl_field = record { mask = 0x7; index = 2 }

abbrev pub txilvl_field : Field32
txilvl_field = record { mask = 0x7; index = 5 }

abbrev pub timeout_val_field : Field32
timeout_val_field = record { mask = 0xffffff; index = 0 }

-- `dif_uart_parity_t`, `dif_uart_datapath_t`, `dif_uart_loopback_t` and `dif_uart_watermark_t`, the
-- last ones with the other numbers that C lets stand there.
pub data Parity : Type 0 where
  parity_odd parity_even : Parity

pub data Datapath : Type 0 where
  datapath_rx datapath_tx datapath_all : Datapath
  other_datapath : ℕ → Datapath

pub data Loopback : Type 0 where
  loopback_system loopback_line : Loopback

pub data Watermark : Type 0 where
  byte1 byte2 byte4 byte8 byte16 byte32 byte62 : Watermark
  other_watermark : ℕ → Watermark

-- `dif_uart_config_t`.
pub record Config : Type 0 where
  pub baudrate : ℕ
  pub clk_freq_hz : ℕ
  pub parity_enable : Toggle
  pub parity : Parity
  pub tx_enable : Toggle
  pub rx_enable : Toggle
  pub rx_break_level : ℕ

abbrev pub is_enabled : Toggle → Bool
is_enabled enabled = true
is_enabled disabled = false
is_enabled (other_toggle n) = false

abbrev pub is_odd : Parity → Bool
is_odd parity_odd = true
is_odd parity_even = false

abbrev pub loopback_index : Loopback → ℕ
loopback_index loopback_system = 4
loopback_index loopback_line = 5

-- The loop that counts the bits of the NCO mask, with `left` bits to go.
unfoldable pub nco_width_loop : ℕ → ℕ → ℕ → ℕ
nco_width_loop i zero nco_width = nco_width
nco_width_loop i (suc left) nco_width =
    nco_width_loop (i + 1) left (u32 (nco_width + bit_and (0xffff >>> i) 1))

unfoldable pub nco_of : Config → ℕ
nco_of config =
    if config.baudrate == 1500000 && config.clk_freq_hz == 24000000
    then 0xffff
    else (udiv64_slow (u64 (config.baudrate <<< (nco_width_loop 0 32 0 + 4))) config.clk_freq_hz).0

unfoldable pub is_invalid_config : Config → Bool
is_invalid_config config =
    config.baudrate == 0
    || (config.clk_freq_hz == 0
        || (not (is_valid_toggle config.tx_enable) || not (is_valid_toggle config.rx_enable)))

-- A bit that is set if `c`.
abbrev pub set_if : Bool → ℕ → ℕ → ℕ
set_if c i reg = if c then bit32_write reg i true else reg

-- The control register of a configuration.
unfoldable pub ctrl_of : Config → ℕ → ℕ
ctrl_of config nco_masked =
    let baud = field32_write 0 nco_field nco_masked in
    let levels = field32_write baud rxblvl_field config.rx_break_level in
    let tx = set_if (toggle_to_bool config.tx_enable) 0 levels in
    let rx = set_if (toggle_to_bool config.rx_enable) 1 tx in
    set_if (is_odd config.parity) 7 (set_if (is_enabled config.parity_enable) 6 rx)

unfoldable pub rx_level : Watermark → Option ℕ
rx_level byte1 = some 0x0
rx_level byte2 = some 0x1
rx_level byte4 = some 0x2
rx_level byte8 = some 0x3
rx_level byte16 = some 0x4
rx_level byte32 = some 0x5
rx_level byte62 = some 0x6
rx_level (other_watermark n) = none

unfoldable pub tx_level : Watermark → Option ℕ
tx_level byte1 = some 0x0
tx_level byte2 = some 0x1
tx_level byte4 = some 0x2
tx_level byte8 = some 0x3
tx_level byte16 = some 0x4
tx_level byte32 = none
tx_level byte62 = none
tx_level (other_watermark n) = none

-- Both switches on a datapath write `value` to one bit or to two; `none` is their default case.
unfoldable pub write_datapath : Datapath → ℕ → ℕ → Bool → ℕ → Option ℕ
write_datapath datapath_rx rx tx value reg = some (bit32_write reg rx value)
write_datapath datapath_tx rx tx value reg = some (bit32_write reg tx value)
write_datapath datapath_all rx tx value reg = some (bit32_write (bit32_write reg rx value) tx value)
write_datapath (other_datapath n) rx tx value reg = none

module _ {S : Type 0} (bus : Bus S) where
  unfoldable pub uart_reset : ℕ → M S (Unit {0})
  uart_reset base = do
    region_write32 bus base ctrl_reg 0
    region_write32 bus base fifo_ctrl_reg (bit32_write (bit32_write 0 0 true) 1 true)
    region_write32 bus base ovrd_reg 0
    region_write32 bus base timeout_ctrl_reg 0
    region_write32 bus base intr_enable_reg 0
    region_write32 bus base intr_state_reg 0xffffffff

  -- The stores of a configuration that was accepted.
  unfoldable pub write_config : ℕ → Config → ℕ → M S DifResult
  unfolding uart_reset
  write_config base config nco_masked = do
    uart_reset base
    region_write32 bus base ctrl_reg (ctrl_of config nco_masked)
    region_write32 bus base intr_enable_reg 0
    pure dif_ok

  unfoldable pub configure : Option ℕ → Config → M S DifResult
  configure none config = pure bad_arg
  configure (some base) config =
      let nco = nco_of config in
      let nco_masked = bit_and nco 0xffff in
      let rxblvl = config.rx_break_level in
      if is_invalid_config config
      then pure bad_arg
      else if not (nco == nco_masked)
      then pure bad_arg
      else if not (bit_and rxblvl 0x3 == rxblvl)
      then pure bad_arg
      else write_config base config nco_masked

  unfoldable pub rx_break_level_set : Option ℕ → ℕ → M S DifResult
  rx_break_level_set none rx_break_level = pure bad_arg
  rx_break_level_set (some base) rx_break_level = do
    reg ← region_read32 bus base ctrl_reg
    region_write32 bus base ctrl_reg (field32_write reg rxblvl_field rx_break_level)
    pure dif_ok

  -- The end of both watermark functions, after their switch.
  unfoldable pub write_watermark : ℕ → Field32 → Option ℕ → M S DifResult
  write_watermark base field none = pure dif_error
  write_watermark base field (some value) = do
    reg ← region_read32 bus base fifo_ctrl_reg
    region_write32 bus base fifo_ctrl_reg (field32_write reg field value)
    pure dif_ok

  unfoldable pub watermark_rx_set : Option ℕ → Watermark → M S DifResult
  watermark_rx_set none watermark = pure bad_arg
  watermark_rx_set (some base) watermark = write_watermark base rxilvl_field (rx_level watermark)

  unfoldable pub watermark_tx_set : Option ℕ → Watermark → M S DifResult
  watermark_tx_set none watermark = pure bad_arg
  watermark_tx_set (some base) watermark = write_watermark base txilvl_field (tx_level watermark)

  -- The end of `set_enable` and `fifo_reset`, after their switch.
  unfoldable pub write_switched : ℕ → ℕ → Option ℕ → M S DifResult
  write_switched base offset none = pure bad_arg
  write_switched base offset (some reg) = do region_write32 bus base offset reg; pure dif_ok

  unfoldable pub set_enable : Option ℕ → Datapath → Toggle → M S DifResult
  unfolding write_switched
  set_enable none datapath state = pure bad_arg
  set_enable (some base) datapath state = if not (is_valid_toggle state) then pure bad_arg else do
    reg ← region_read32 bus base ctrl_reg
    write_switched base ctrl_reg (write_datapath datapath 1 0 (toggle_to_bool state) reg)

  unfoldable pub fifo_reset : Option ℕ → Datapath → M S DifResult
  unfolding write_switched
  fifo_reset none fifo = pure bad_arg
  fifo_reset (some base) fifo = do
    reg ← region_read32 bus base fifo_ctrl_reg
    write_switched base fifo_ctrl_reg (write_datapath fifo 0 1 true reg)

  unfoldable pub loopback_set : Option ℕ → Loopback → Toggle → M S DifResult
  loopback_set none loopback state = pure bad_arg
  loopback_set (some base) loopback state = do
    reg ← region_read32 bus base ctrl_reg
    region_write32 bus base ctrl_reg (bit32_write reg (loopback_index loopback) (is_enabled state))
    pure dif_ok

  unfoldable pub enable_rx_timeout : Option ℕ → ℕ → M S DifResult
  enable_rx_timeout none duration_ticks = pure bad_arg
  enable_rx_timeout (some base) duration_ticks =
      if not (bit_and duration_ticks (not32 0xffffff) == 0) then pure bad_arg else do
        let reg = field32_write (bit32_write 0 31 true) timeout_val_field duration_ticks
        region_write32 bus base timeout_ctrl_reg reg
        pure dif_ok

  unfoldable pub disable_rx_timeout : Option ℕ → M S DifResult
  disable_rx_timeout none = pure bad_arg
  disable_rx_timeout (some base) = do
    let reg = field32_write (bit32_write 0 31 false) timeout_val_field 0
    region_write32 bus base timeout_ctrl_reg reg
    pure dif_ok

  -- The status pointer is `has_status`; the duration is given for each call, and a caller that
  -- passes NULL for it drops it.
  unfoldable pub get_rx_timeout : Option ℕ → Bool → M S (DifResult × Option (Toggle × ℕ))
  get_rx_timeout none has_status = pure (bad_arg, none)
  get_rx_timeout (some base) has_status = if not has_status then pure (bad_arg, none) else do
    reg ← region_read32 bus base timeout_ctrl_reg
    pure (dif_ok, some (bool_to_toggle (bit32_read reg 31), field32_read reg timeout_val_field))
