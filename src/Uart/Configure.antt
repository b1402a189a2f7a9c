-- ===== src/Uart/Configure.antt =====
-- Configuring: the baud rate that is set, the other settings, and the requests that are refused.
use sunburst_chip.Base.{ℕ, ◌+◌, ◌*◌, ◌/◌, ◌^◌, ◌≤◌, ◌<◌, ◌≡◌, refl, arith, bit_and, ◌⊎◌, inl, inr}
use sunburst_chip.Base.{true, false, ◌&&◌, if◌then◌else◌, ◌==◌, some, u64, ◌<<<◌}
use sunburst_chip.Bits.{bit_and_mask}
use sunburst_chip.Bitfield.{}
use sunburst_chip.Bitfield.Laws.{}
use sunburst_chip.Bitfield.Bit.{}
use sunburst_chip.Math.Division.{udiv64_slow_lem}
use sunburst_chip.Mmio.{Bus}
use sunburst_chip.Mmio.Registers.{IsRegisterFile, peek, peek-store_self, peek-store_ne}
use sunburst_chip.Dif.{dif_ok, bad_arg, is_valid_toggle}
use sunburst_chip.Uart.{
  Config, ctrl_reg, intr_enable_reg, nco_width_loop, nco_of, is_invalid_config, configure,
  write_config,
}
use sunburst_chip.Uart.Control.{Holds, ctrl_of-Holds}

abbrev pub IsPlain : ℕ → ℕ → Type 0
IsPlain base a = (a ≡ base + ctrl_reg) ⊎ (a ≡ base + intr_enable_reg)

-- The divider that a configuration asks for: 16 times the baud rate over the clock, in units of
-- 2 ^ -16, but 0xffff at 1.5 Mbaud from 24 MHz.
abbrev pub requested_nco : Config → ℕ
requested_nco c =
    if c.baudrate == 1500000 && c.clk_freq_hz == 24000000
    then 0xffff
    else c.baudrate * 2 ^ 20 / c.clk_freq_hz

-- The rates are 32-bit numbers that are not 0, and both enables are valid.
pub record IsValid (c : Config) : Type 0 where
  pub baud_pos : 0 < c.baudrate
  pub baud-lt : c.baudrate < 2 ^ 32
  pub clk_pos : 0 < c.clk_freq_hz
  pub tx_valid : is_valid_toggle c.tx_enable ≡ true
  pub rx_valid : is_valid_toggle c.rx_enable ≡ true

valid_config : (c : Config) → IsValid c → is_invalid_config c ≡ false
unfolding is_invalid_config
valid_config c v =
    let p = v.baud_pos in
    let q = v.clk_pos in
    let e : (c.baudrate == 0) ≡ false = ground arith in
    let f : (c.clk_freq_hz == 0) ≡ false = ground arith in rw (e, f, v.tx_valid, v.rx_valid) refl

nco_width : nco_width_loop 0 32 0 ≡ 16
unfolding nco_width_loop
nco_width = refl

nco_eq : (c : Config) → IsValid c → nco_of c ≡ requested_nco c
unfolding nco_of
nco_eq c v =
    let h = v.baud-lt in
    let w : u64 (c.baudrate <<< (16 + 4)) ≡ c.baudrate * 2 ^ 20 = omega arith in
    let d = udiv64_slow_lem (c.baudrate * 2 ^ 20) c.clk_freq_hz (omega arith) v.clk_pos in
    rw (nco_width, w, d) refl

module _ {S : Type 0} (bus : Bus S) (base : ℕ) where
  configure_accepts :
      (c : Config) (s : S)
      → IsValid c
      → requested_nco c < 2 ^ 16
      → c.rx_break_level < 4
      → configure bus (some base) c s ≡ write_config bus base c (requested_nco c) s
  unfolding configure
  configure_accepts c s v h k =
      let m : bit_and (requested_nco c) 0xffff ≡ requested_nco c =
        omega (arith, bit_and_mask 16 (requested_nco c)) in
      let l : bit_and c.rx_break_level 0x3 ≡ c.rx_break_level =
        omega (arith, bit_and_mask 2 c.rx_break_level) in
      let t : (requested_nco c == requested_nco c) ≡ true = ground arith in
      let u : (c.rx_break_level == c.rx_break_level) ≡ true = ground arith in
      rw (valid_config c v, nco_eq c v, m, l, t, u) refl

  -- A valid configuration whose divider is 2 ^ 16 or more, or whose break level is 4 or more, is
  -- refused and leaves the hardware as it was.
  configure_refuses :
      (c : Config) (s : S)
      → IsValid c
      → (2 ^ 16 ≤ requested_nco c) ⊎ (4 ≤ c.rx_break_level)
      → configure bus (some base) c s ≡ (bad_arg, s)
  unfolding configure
  configure_refuses c s v h =
      let m = bit_and_mask 16 (requested_nco c) in
      let l = bit_and_mask 2 c.rx_break_level in rw (valid_config c v, nco_eq c v) (ground arith)

  -- A valid configuration whose divider is below 2 ^ 16 and whose break level is below 4 is
  -- accepted: the control register holds the divider, the break level, both enables and the parity
  -- that were asked for, and the interrupt enables are 0.
  pub configure-Holds :
      (c : Config) (s : S)
      → IsRegisterFile bus (IsPlain base)
      → IsValid c
      → requested_nco c < 2 ^ 16
      → c.rx_break_level < 4
      → let (r, s') = configure bus (some base) c s in
        (r ≡ dif_ok)
        × Holds (peek bus (base + ctrl_reg) s') c (requested_nco c)
        × (peek bus (base + intr_enable_reg) s' ≡ 0)
  unfolding write_config
  configure-Holds c s regs v h k =
      let (lt, holds) = ctrl_of-Holds c (requested_nco c) h k in
      rw (configure_accepts c s v h k) (
        refl,
        rw
            (
              peek-store_ne regs {a = base + 0x4} {c = base + 0x10} {v = 0} _ (inr refl) (inl refl)
                  (omega arith) (omega arith),
              peek-store_self regs {a = base + 0x10} _ (inl refl) lt,
            )
            holds,
        peek-store_self regs _ (inr refl) (omega arith),
      )
