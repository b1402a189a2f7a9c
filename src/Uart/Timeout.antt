-- ===== src/Uart/Timeout.antt =====
-- Setting the receive timeout, and reading it back.
use sunburst_chip.Base.{ℕ, ◌+◌, ◌^◌, ◌≤◌, ◌<◌, ◌≡◌, refl, arith, ◌∙◌, bit_and}
use sunburst_chip.Base.{Bool, true, false, if◌then◌else◌, ltb, some}
use sunburst_chip.Bits.{bit, bit-bit_and, bit-complement, bit-high, bit-zero, bit-le-one}
use sunburst_chip.Bits.{bit_ext, lt_of_bits, bit_and_mask}
use sunburst_chip.Bitfield.{field32_read, field32_write, bit32_read, bit32_write}
use sunburst_chip.Bitfield.Laws.{field32_read-write, field32_write-lt, field32_write_bits}
use sunburst_chip.Bitfield.Bit.{bit32_read_lem, bit32_write-lt, bit32_write_bits}
use sunburst_chip.Mmio.{Bus}
use sunburst_chip.Mmio.Registers.{IsRegisterFile, peek-store_self}
use sunburst_chip.Dif.{dif_ok, bad_arg, enabled, disabled, bool_to_toggle}
use sunburst_chip.Uart.{timeout_ctrl_reg, timeout_val_field, enable_rx_timeout, disable_rx_timeout}
use sunburst_chip.Uart.{get_rx_timeout}

abbrev pub IsPlain : ℕ → ℕ → Type 0
IsPlain base a = a ≡ base + timeout_ctrl_reg

mask_bits : (j : ℕ) → bit j 0xff000000 ≡ (if ltb j 24 then 0 else if ltb j 32 then 1 else 0)
mask_bits j = ground (
  arith,
  bit-complement 32 j 0xffffff (omega arith),
  bit-complement 24 j 0 (omega arith),
  bit-zero j,
  bit-high 24 j 0xffffff (omega arith),
)

fits_of : (ticks : ℕ) → ticks < 2 ^ 24 → bit_and ticks 0xff000000 ≡ 0
fits_of ticks h = bit_ext _ _ λ j.
    ground (arith, bit-bit_and j ticks 0xff000000, mask_bits j, bit-high 24 j ticks h, bit-zero j)

of_fits : (ticks : ℕ) → ticks < 2 ^ 32 → bit_and ticks 0xff000000 ≡ 0 → ticks < 2 ^ 24
of_fits ticks h e = lt_of_bits 24 ticks λ j le. ground (
  arith,
  bit-bit_and j ticks 0xff000000,
  mask_bits j,
  bit-high 32 j ticks h,
  bit-zero j,
  bit-le-one j ticks,
)

-- The register as it is written, in both functions.
abbrev control : Bool → ℕ → ℕ
control on ticks = field32_write (bit32_write 0 31 on) timeout_val_field ticks

control-lt : (on : Bool) (ticks : ℕ) → control on ticks < 2 ^ 32
control-lt on ticks =
    field32_write-lt (bit32_write 0 31 on) timeout_val_field ticks
      (bit32_write-lt 0 31 on (omega arith) (omega arith)) (omega arith)

control_value :
    (on : Bool) (ticks : ℕ)
    → ticks < 2 ^ 24
    → field32_read (control on ticks) timeout_val_field ≡ ticks
control_value on ticks h =
    let lt = bit32_write-lt 0 31 on (omega arith) (omega arith) in
    let m : bit_and ticks 0xffffff ≡ ticks = omega (arith, bit_and_mask 24 ticks) in
    field32_read-write (bit32_write 0 31 on) timeout_val_field ticks lt (omega arith) ∙ m

control_on : (on : Bool) (ticks : ℕ) → bit32_read (control on ticks) 31 ≡ on
control_on on ticks =
    let lt = bit32_write-lt 0 31 on (omega arith) (omega arith) in
    ground (
      arith,
      bit32_read_lem (control on ticks) 31,
      field32_write_bits (bit32_write 0 31 on) timeout_val_field ticks 31 lt (omega arith),
      bit32_write_bits 0 31 on 31 (omega arith) (omega arith),
      bit-high 24 31 0xffffff (omega arith),
    )

module _ {S : Type 0} (bus : Bus S) (base : ℕ) (regs : IsRegisterFile bus (IsPlain base)) where
  get_after :
      (on : Bool) (ticks : ℕ) (s : S)
      → ticks < 2 ^ 24
      → (get_rx_timeout bus (some base) true (bus.store (base + 0x30) (control on ticks) s)).0
        ≡ (dif_ok, some (bool_to_toggle on, ticks))
  unfolding get_rx_timeout
  get_after on ticks s h =
      rw
        (
          peek-store_self regs s refl (control-lt on ticks),
          control_on on ticks,
          control_value on ticks h,
        )
        refl

  -- A timeout below 2 ^ 24 is accepted, and is read back as enabled with that duration; disabling
  -- it succeeds, and it is then read back as disabled with duration 0.
  get_rx_timeout-enable :
      (ticks : ℕ) (s : S)
      → ticks < 2 ^ 24
      → let (r, s') = enable_rx_timeout bus (some base) ticks s in
        let (q, s'') = disable_rx_timeout bus (some base) s' in
        (r ≡ dif_ok)
        × ((get_rx_timeout bus (some base) true s').0 ≡ (dif_ok, some (enabled, ticks)))
        × (q ≡ dif_ok)
        × ((get_rx_timeout bus (some base) true s'').0 ≡ (dif_ok, some (disabled, 0)))
  unfolding enable_rx_timeout disable_rx_timeout bool_to_toggle
  get_rx_timeout-enable ticks s h =
      let s1 = bus.store (base + 0x30) (control true ticks) s in
      rw (fits_of ticks h)
        (refl, get_after true ticks s h, refl, get_after false 0 s1 (omega arith))

  -- A 32-bit timeout of 2 ^ 24 or more is refused, and leaves the hardware as it was.
  enable_rx_timeout_refused :
      (ticks : ℕ) (s : S)
      → 2 ^ 24 ≤ ticks
      → ticks < 2 ^ 32
      → enable_rx_timeout bus (some base) ticks s ≡ (bad_arg, s)
  unfolding enable_rx_timeout
  enable_rx_timeout_refused ticks s big h = ground (arith, of_fits ticks h)
