-- ===== src/SpiHost.antt =====
-- sw/device/lib/dif/dif_spi_host.c: the SPI host. A wait that polls the hardware runs on fuel, and
-- `none` means that it ran out. `write8` is a store of one byte. A buffer to send is its address and
-- the list of its bytes, so that its length is that list's; one to receive is its address.
pub mod Fifos
pub mod Send
pub mod Transaction
mod Tests
use sunburst_chip.Base.{
  ℕ, zero, suc, ◌+◌, ◌-◌, ◌*◌, ◌/◌, ◌%◌, ◌^◌, bit_and, bit_or, Bool, true, false, not, ◌&&◌, ◌||◌,
  if◌then◌else◌, ◌==◌, u32, Option, none, some,
}
use sunburst_chip.Bitfield.{Field32, not32, field32_read, field32_write, bit32_read, bit32_write}
use sunburst_chip.Mmio.{Bus, M, pure, region_read32, region_write32}
use sunburst_chip.Dif.{DifResult, dif_ok, bad_arg}

abbrev pub control_reg : ℕ
control_reg = 0x10

abbrev pub status_reg : ℕ
status_reg = 0x14

abbrev pub configopts_reg : ℕ
configopts_reg = 0x18

abbrev pub error_enable_reg : ℕ
error_enable_reg = 0x2c

abbrev pub error_status_reg : ℕ
error_status_reg = 0x30

abbrev pub event_enable_reg : ℕ
event_enable_reg = 0x34

abbrev pub txqd_field : Field32
txqd_field = record { mask = 0xff; index = 0 }

abbrev pub rxqd_field : Field32
rxqd_field = record { mask = 0xff; index = 8 }

abbrev pub cmdqd_field : Field32
cmdqd_field = record { mask = 0xf; index = 16 }

-- Code that may run out of fuel.
abbrev pub Polling : Type 0 → Type 0 → Type 0
Polling S A = S → Option A × S

abbrev pub after : {S A B : Type 0} → Option A × S → (A → Polling S B) → Option B × S
after (none, s) k = (none, s)
after (some a, s) k = k a s

infixl 5 ◌>>=◌ ◌>>◌
abbrev pub ◌>>=◌ : {S A B : Type 0} → Polling S A → (A → Polling S B) → Polling S B
◌>>=◌ m k s = after (m s) k

abbrev pub ◌>>◌ : {S A B : Type 0} → Polling S A → Polling S B → Polling S B
◌>>◌ m k s = after (m s) (λ _. k)

abbrev pub done : {S A : Type 0} → A → Polling S A
done a s = (some a, s)

abbrev pub lift : {S A : Type 0} → M S A → Polling S A
lift m s = (some (m s).0, (m s).1)

-- `dif_spi_host_config_t`.
pub record Config : Type 0 where
  pub spi_clock : ℕ
  pub peripheral_clock_freq_hz : ℕ
  pub idle : ℕ
  pub trail : ℕ
  pub lead : ℕ
  pub full_cycle : Bool
  pub cpha : Bool
  pub cpol : Bool
  pub tx_watermark : ℕ
  pub rx_watermark : ℕ

-- `dif_spi_host_status_t`.
pub record Status : Type 0 where
  pub ready : Bool
  pub active : Bool
  pub tx_full : Bool
  pub tx_empty : Bool
  pub tx_stall : Bool
  pub tx_water_mark : Bool
  pub rx_full : Bool
  pub rx_empty : Bool
  pub rx_stall : Bool
  pub least_significant_first : Bool
  pub rx_water_mark : Bool
  pub cmd_queue_depth : ℕ
  pub rx_queue_depth : ℕ
  pub tx_queue_depth : ℕ

unfoldable pub status_of : ℕ → Status
unfolding bit32_read field32_read
status_of reg = record {
  ready = bit32_read reg 31;
  active = bit32_read reg 30;
  tx_full = bit32_read reg 29;
  tx_empty = bit32_read reg 28;
  tx_stall = bit32_read reg 27;
  tx_water_mark = bit32_read reg 26;
  rx_full = bit32_read reg 25;
  rx_empty = bit32_read reg 24;
  rx_stall = bit32_read reg 23;
  least_significant_first = bit32_read reg 22;
  rx_water_mark = bit32_read reg 20;
  cmd_queue_depth = field32_read reg cmdqd_field;
  rx_queue_depth = field32_read reg rxqd_field;
  tx_queue_depth = field32_read reg txqd_field;
}

unfoldable pub divider_of : Config → ℕ
divider_of config = u32 (config.peripheral_clock_freq_hz / config.spi_clock / 2 + 2 ^ 32 - 1)

-- The value for the options register.
unfoldable pub configopts_of : Config → ℕ
unfolding divider_of field32_write bit32_write
configopts_of config =
    let divider = field32_write 0 (record { mask = 0xffff; index = 0 }) (divider_of config) in
    let idle = field32_write divider (record { mask = 0xf; index = 16 }) config.idle in
    let trail = field32_write idle (record { mask = 0xf; index = 20 }) config.trail in
    let lead = field32_write trail (record { mask = 0xf; index = 24 }) config.lead in
    let full_cycle = bit32_write lead 29 config.full_cycle in
    let cpha = bit32_write full_cycle 30 config.cpha in bit32_write cpha 31 config.cpol

module _ {S : Type 0} (bus : Bus S) where
  -- Polls the status register until `test` holds for it.
  unfoldable pub wait_until : ℕ → ℕ → (ℕ → Bool) → Polling S (Unit {0})
  wait_until zero base test s = (none, s)
  wait_until (suc fuel) base test s =
      let (reg, s') = region_read32 bus base status_reg s in
      let rest = wait_until fuel base test s' in if test reg then (some tt, s') else rest

  unfoldable pub spi_host_reset : ℕ → ℕ → Polling S (Unit {0})
  unfolding wait_until
  spi_host_reset fuel base = do
    reg ← lift (region_read32 bus base control_reg)
    lift (region_write32 bus base control_reg (bit32_write reg 30 true))
    wait_until fuel base (λ reg'. not (bit32_read reg' 30))
    wait_until fuel base
        (λ reg'. field32_read reg' txqd_field == 0 && field32_read reg' rxqd_field == 0)
    lift (region_write32 bus base control_reg (bit32_write 0 30 false))

  unfoldable pub spi_host_enable : ℕ → Bool → M S (Unit {0})
  spi_host_enable base enabled s =
      let (reg, s') = region_read32 bus base control_reg s in
      region_write32 bus base control_reg (bit32_write reg 31 enabled) s'

  unfoldable pub set_watermarks : ℕ → Config → M S (Unit {0})
  set_watermarks base config s =
      let (reg, s') = region_read32 bus base control_reg s in
      let tx = field32_write reg (record { mask = 0xff; index = 8 }) config.tx_watermark in
      let rx = field32_write tx (record { mask = 0xff; index = 0 }) config.rx_watermark in
      region_write32 bus base control_reg rx s'

  unfoldable pub configure : ℕ → Option ℕ → Config → Polling S DifResult
  unfolding spi_host_reset configopts_of set_watermarks spi_host_enable
  configure fuel none config = done bad_arg
  configure fuel (some base) config =
      let apply : Polling S DifResult = (do
        spi_host_reset fuel base
        lift (region_write32 bus base configopts_reg (configopts_of config))
        lift (set_watermarks base config)
        lift (spi_host_enable base true)
        done dif_ok) in
      if config.peripheral_clock_freq_hz == 0 || config.spi_clock == 0
      then done bad_arg
      else if not (bit_and (divider_of config) (not32 0xffff) == 0)
      then done bad_arg
      else apply

  unfoldable pub output_set_enabled : Option ℕ → Bool → M S DifResult
  output_set_enabled none enabled s = (bad_arg, s)
  output_set_enabled (some base) enabled s =
      let (reg, s') = region_read32 bus base control_reg s in
      (dif_ok, (region_write32 bus base control_reg (bit32_write reg 29 enabled) s').1)

  -- Sets or clears the bits of `flags` in an enable register; only those of `all` are known.
  unfoldable pub flags_set_enabled : ℕ → ℕ → Option ℕ → ℕ → Bool → M S DifResult
  flags_set_enabled register all none flags enabled s = (bad_arg, s)
  flags_set_enabled register all (some base) flags enabled s =
      let (reg, s') = region_read32 bus base register s in
      let reg' = if enabled then bit_or reg flags else bit_and reg (not32 flags) in
      if not (bit_and flags (not32 all) == 0)
      then (bad_arg, s)
      else (dif_ok, (region_write32 bus base register reg' s').1)

  unfoldable pub event_set_enabled : Option ℕ → ℕ → Bool → M S DifResult
  unfolding flags_set_enabled
  event_set_enabled spi_host events enabled =
      flags_set_enabled event_enable_reg 0x3f spi_host events enabled

  unfoldable pub error_set_enabled : Option ℕ → ℕ → Bool → M S DifResult
  unfolding flags_set_enabled
  error_set_enabled spi_host errors enabled =
      flags_set_enabled error_enable_reg 0x1f spi_host errors enabled

  -- What is read of a register; `has_out` tells whether there is where to store it.
  unfoldable pub read_register : ℕ → Option ℕ → Bool → M S (DifResult × Option ℕ)
  read_register register none has_out s = ((bad_arg, none), s)
  read_register register (some base) false s = ((bad_arg, none), s)
  read_register register (some base) true s =
      let (reg, s') = region_read32 bus base register s in ((dif_ok, some reg), s')

  unfoldable pub event_get_enabled : Option ℕ → Bool → M S (DifResult × Option ℕ)
  unfolding read_register
  event_get_enabled = read_register event_enable_reg

  unfoldable pub error_get_enabled : Option ℕ → Bool → M S (DifResult × Option ℕ)
  unfolding read_register
  error_get_enabled = read_register error_enable_reg

  unfoldable pub get_error : Option ℕ → Bool → M S (DifResult × Option ℕ)
  unfolding read_register
  get_error = read_register error_status_reg

  unfoldable pub get_status : Option ℕ → Bool → M S (DifResult × Option Status)
  unfolding status_of
  get_status none has_out s = ((bad_arg, none), s)
  get_status (some base) false s = ((bad_arg, none), s)
  get_status (some base) true s =
      let (reg, s') = region_read32 bus base status_reg s in ((dif_ok, some (status_of reg)), s')

  unfoldable pub wait_until_idle : ℕ → Option ℕ → Polling S DifResult
  unfolding wait_until
  wait_until_idle fuel none = done bad_arg
  wait_until_idle fuel (some base) = do
    wait_until fuel base (λ reg. not (bit32_read reg 30))
    done dif_ok
