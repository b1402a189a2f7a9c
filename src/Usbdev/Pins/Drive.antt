-- ===== src/Usbdev/Pins/Drive.antt =====
-- The register that drives the pins.
use sunburst_chip.Base.{
  ℕ, ◌+◌, ◌*◌, ◌/◌, ◌^◌, ◌<◌, ◌≡◌, refl, arith, Bool, true, false, some, ◌==◌, ◌&&◌, if◌then◌else◌,
}
use sunburst_chip.Bits.{bit-zero}
use sunburst_chip.Bitfield.{bit32_read, bit32_write}
use sunburst_chip.Bitfield.Bit.{bit32_read_lem, bit32_read-write, bit32_write-lt}
use sunburst_chip.Mmio.{Bus}
use sunburst_chip.Mmio.Registers.{IsRegisterFile, peek, peek-store_self}
use sunburst_chip.Dif.{dif_ok, bool_to_toggle}
use sunburst_chip.Usbdev.Endpoint.Stall.{toggle_valid, toggle_flag}
use sunburst_chip.Usbdev.Pins.{PhyPinsDrive, phy_pins_drive_reg, drive_of, set_phy_pins_state}

-- What each bit of the register says: bit 16 that the pins are driven, and bits 0 to 7 how.
abbrev pub driven_bit : Bool → PhyPinsDrive → ℕ → Bool
driven_bit drive_en o j =
    if j == 16
    then drive_en
    else drive_en
      && (if j == 0
          then o.dp
          else if j == 1
          then o.dn
          else if j == 2
          then o.data_
          else if j == 3
          then o.se0
          else if j == 4
          then o.output_enable
          else if j == 5
          then o.diff_receiver_enable
          else if j == 6
          then o.dp_pullup_en
          else if j == 7
          then o.dn_pullup_en
          else false)

zero_bit : (j : ℕ) → bit32_read 0 j ≡ false
zero_bit j = ground (arith, bit32_read_lem 0 j, bit-zero j)

enabled-lt : (b : Bool) → bit32_write 0 16 b < 2 ^ 32
enabled-lt b = bit32_write-lt 0 16 b (omega arith) (omega arith)

drive_of_bits :
    (o : PhyPinsDrive) (j : ℕ)
    → let v = drive_of o (bit32_write 0 16 true) in
      (v < 2 ^ 32) × (bit32_read v j ≡ driven_bit true o j)
unfolding drive_of
drive_of_bits o j =
    let e = bit32_write 0 16 true in
    let v0 = bit32_write e 0 o.dp in
    let v1 = bit32_write v0 1 o.dn in
    let v2 = bit32_write v1 2 o.data_ in
    let v3 = bit32_write v2 3 o.se0 in
    let v4 = bit32_write v3 4 o.output_enable in
    let v5 = bit32_write v4 5 o.diff_receiver_enable in
    let v6 = bit32_write v5 6 o.dp_pullup_en in
    let le = enabled-lt true in
    let l0 = bit32_write-lt e 0 o.dp le (omega arith) in
    let l1 = bit32_write-lt v0 1 o.dn l0 (omega arith) in
    let l2 = bit32_write-lt v1 2 o.data_ l1 (omega arith) in
    let l3 = bit32_write-lt v2 3 o.se0 l2 (omega arith) in
    let l4 = bit32_write-lt v3 4 o.output_enable l3 (omega arith) in
    let l5 = bit32_write-lt v4 5 o.diff_receiver_enable l4 (omega arith) in
    let l6 = bit32_write-lt v5 6 o.dp_pullup_en l5 (omega arith) in
    (
      bit32_write-lt v6 7 o.dn_pullup_en l6 (omega arith),
      ground (
        arith,
        bit32_read-write v6 7 j o.dn_pullup_en l6 (omega arith),
        bit32_read-write v5 6 j o.dp_pullup_en l5 (omega arith),
        bit32_read-write v4 5 j o.diff_receiver_enable l4 (omega arith),
        bit32_read-write v3 4 j o.output_enable l3 (omega arith),
        bit32_read-write v2 3 j o.se0 l2 (omega arith),
        bit32_read-write v1 2 j o.data_ l1 (omega arith),
        bit32_read-write v0 1 j o.dn l0 (omega arith),
        bit32_read-write e 0 j o.dp le (omega arith),
        bit32_read-write 0 16 j true (omega arith) (omega arith),
        zero_bit j,
      ),
    )

value_lem :
    (flag : Bool) (o : PhyPinsDrive) (j : ℕ)
    → let e = bit32_write 0 16 flag in
      let v = if flag then drive_of o e else e in
      (v < 2 ^ 32) × (bit32_read v j ≡ driven_bit flag o j)
value_lem true o j = drive_of_bits o j
value_lem false o j = (
  enabled-lt false,
  ground (arith, bit32_read-write 0 16 j false (omega arith) (omega arith), zero_bit j),
)

module _ {S : Type 0} (bus : Bus S) (base : ℕ)
    (regs : IsRegisterFile bus (λ a. a ≡ base + phy_pins_drive_reg / 4 * 4)) where
  -- Driving the pins, or leaving them to the controller, succeeds; the register, which holds what
  -- is written, then says whether they are driven, and how if they are; its other bits are clear.
  set_phy_pins_state_lem :
      (flag : Bool) (o : PhyPinsDrive) (j : ℕ) (s : S)
      → let (r, s') = set_phy_pins_state bus (some base) (bool_to_toggle flag) o s in
        (r ≡ dif_ok)
        × (bit32_read (peek bus (base + phy_pins_drive_reg / 4 * 4) s') j ≡ driven_bit flag o j)
  unfolding set_phy_pins_state
  set_phy_pins_state_lem flag o j s =
      let e = bit32_write 0 16 flag in
      let v = if flag then drive_of o e else e in
      let (lt, bits) = value_lem flag o j in
      rw (toggle_valid flag, toggle_flag flag)
        (refl, rw (peek-store_self regs {v = v} s refl lt) bits)
