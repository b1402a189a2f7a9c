-- ===== src/Uart/Control.antt =====
-- The word of the control register: its fields after `dif_uart_configure` has set each.
use sunburst_chip.Base.{ℕ, ◌^◌, ◌<◌, ◌≡◌, refl, arith, ◌∙◌, bit_and}
use sunburst_chip.Base.{Bool, true, false, ◌||◌, if◌then◌else◌, ◌==◌, ◌<<<◌}
use sunburst_chip.Bits.{bit-zero, bit_and_mask}
use sunburst_chip.Bitfield.{
  Field32, bit32_to_field32, field32_read, field32_write, bit32_read, bit32_write,
}
use sunburst_chip.Bitfield.Laws.{
  field32_read-write, field32_write-lt, field32_write_bits, field32_read-write-Disjoint,
}
use sunburst_chip.Bitfield.Bit.{
  Disjoint-of_masks, bit_IsField, bit32_read_lem, bit32_write-lt, bit32_read-write,
}
use sunburst_chip.Dif.{toggle_to_bool}
use sunburst_chip.Uart.{Config, nco_field, rxblvl_field, is_enabled, is_odd, set_if, ctrl_of}

set_if-lt : (c : Bool) (i w : ℕ) → i < 32 → w < 2 ^ 32 → set_if c i w < 2 ^ 32
set_if-lt true i w hi hw = bit32_write-lt w i true hw hi
set_if-lt false i w hi hw = hw

set_if_bit :
    (c : Bool) (i j w : ℕ)
    → i < 32
    → w < 2 ^ 32
    → bit32_read (set_if c i w) j ≡ (if j == i then c || bit32_read w j else bit32_read w j)
set_if_bit true i j w hi hw = ground (arith, bit32_read-write w i j true hw hi)
set_if_bit false i j w hi hw = ground arith

set_if_field :
    (c : Bool) (i w : ℕ) (f : Field32)
    → i < 32
    → w < 2 ^ 32
    → bit_and (1 <<< i) (f.mask <<< f.index) ≡ 0
    → field32_read (set_if c i w) f ≡ field32_read w f
unfolding bit32_write
set_if_field true i w f hi hw e =
    field32_read-write-Disjoint w (bit32_to_field32 i) f 1 hw (bit_IsField i hi)
      (Disjoint-of_masks (bit32_to_field32 i) f e)
set_if_field false i w f hi hw e = refl

-- The register before its single bits are set.
abbrev levels : ℕ → ℕ → ℕ
levels nco level = field32_write (field32_write 0 nco_field nco) rxblvl_field level

baud-lt : (nco : ℕ) → field32_write 0 nco_field nco < 2 ^ 32
baud-lt nco = field32_write-lt 0 nco_field nco (omega arith) (omega arith)

levels-lt : (nco level : ℕ) → levels nco level < 2 ^ 32
levels-lt nco level =
    field32_write-lt (field32_write 0 nco_field nco) rxblvl_field level (baud-lt nco) (omega arith)

levels_low : (nco level j : ℕ) → j < 8 → bit32_read (levels nco level) j ≡ false
levels_low nco level j h = ground (
  arith,
  bit32_read_lem (levels nco level) j,
  field32_write_bits (field32_write 0 nco_field nco) rxblvl_field level j (baud-lt nco)
      (omega arith),
  field32_write_bits 0 nco_field nco j (omega arith) (omega arith),
  bit-zero j,
)

levels_nco : (nco level : ℕ) → nco < 2 ^ 16 → field32_read (levels nco level) nco_field ≡ nco
levels_nco nco level h =
    let m : bit_and nco 0xffff ≡ nco = omega (arith, bit_and_mask 16 nco) in
    field32_read-write-Disjoint (field32_write 0 nco_field nco) rxblvl_field nco_field level
      (baud-lt nco) (omega arith) (Disjoint-of_masks rxblvl_field nco_field refl)
    ∙ field32_read-write 0 nco_field nco (omega arith) (omega arith)
    ∙ m

levels_level : (nco level : ℕ) → level < 4 → field32_read (levels nco level) rxblvl_field ≡ level
levels_level nco level h =
    let m : bit_and level 0x3 ≡ level = omega (arith, bit_and_mask 2 level) in
    field32_read-write (field32_write 0 nco_field nco) rxblvl_field level (baud-lt nco)
      (omega arith)
    ∙ m

-- The settings that the control register holds.
pub record Holds (v : ℕ) (c : Config) (nco : ℕ) : Type 0 where
  pub divider : field32_read v nco_field ≡ nco
  pub break_level : field32_read v rxblvl_field ≡ c.rx_break_level
  pub tx : bit32_read v 0 ≡ toggle_to_bool c.tx_enable
  pub rx : bit32_read v 1 ≡ toggle_to_bool c.rx_enable
  pub parity_on : bit32_read v 6 ≡ is_enabled c.parity_enable
  pub odd : bit32_read v 7 ≡ is_odd c.parity

-- The four single bits set on a word.
abbrev flags : Bool → Bool → Bool → Bool → ℕ → ℕ
flags a b c d w = set_if d 7 (set_if c 6 (set_if b 1 (set_if a 0 w)))

flags-lt : (a b c d : Bool) (w : ℕ) → w < 2 ^ 32 → flags a b c d w < 2 ^ 32
flags-lt a b c d w h = set_if-lt d 7 _ (omega arith) (
    set_if-lt c 6 _ (omega arith) (set_if-lt b 1 _ (omega arith) (set_if-lt a 0 w (omega arith) h)))

flags_field :
    (a b c d : Bool) (w : ℕ) (f : Field32)
    → w < 2 ^ 32
    → bit_and (1 <<< 0) (f.mask <<< f.index) ≡ 0
    → bit_and (1 <<< 1) (f.mask <<< f.index) ≡ 0
    → bit_and (1 <<< 6) (f.mask <<< f.index) ≡ 0
    → bit_and (1 <<< 7) (f.mask <<< f.index) ≡ 0
    → field32_read (flags a b c d w) f ≡ field32_read w f
flags_field a b c d w f h p0 p1 p6 p7 =
    let h0 = set_if-lt a 0 w (omega arith) h in
    let h1 = set_if-lt b 1 _ (omega arith) h0 in
    let h6 = set_if-lt c 6 _ (omega arith) h1 in
    set_if_field d 7 _ f (omega arith) h6 p7
    ∙ set_if_field c 6 _ f (omega arith) h1 p6
    ∙ set_if_field b 1 _ f (omega arith) h0 p1
    ∙ set_if_field a 0 w f (omega arith) h p0

flags_bit :
    (a b c d : Bool) (w j : ℕ)
    → w < 2 ^ 32
    → bit32_read w j ≡ false
    → bit32_read (flags a b c d w) j ≡ (
        if j == 7
        then d
        else if j == 6
        then c
        else if j == 1
        then b
        else if j == 0
        then a
        else false)
flags_bit a b c d w j h z =
    let h0 = set_if-lt a 0 w (omega arith) h in
    let h1 = set_if-lt b 1 _ (omega arith) h0 in
    let h6 = set_if-lt c 6 _ (omega arith) h1 in
    ground (
      arith,
      set_if_bit a 0 j w (omega arith) h,
      set_if_bit b 1 j (set_if a 0 w) (omega arith) h0,
      set_if_bit c 6 j (set_if b 1 (set_if a 0 w)) (omega arith) h1,
      set_if_bit d 7 j (set_if c 6 (set_if b 1 (set_if a 0 w))) (omega arith) h6,
    )

pub ctrl_of-Holds :
    (c : Config) (nco : ℕ)
    → nco < 2 ^ 16
    → c.rx_break_level < 4
    → (ctrl_of c nco < 2 ^ 32) × Holds (ctrl_of c nco) c nco
unfolding ctrl_of
ctrl_of-Holds c nco h k =
    let w = levels nco c.rx_break_level in
    let lt = levels-lt nco c.rx_break_level in
    let p = toggle_to_bool c.tx_enable in
    let q = toggle_to_bool c.rx_enable in
    let r = is_enabled c.parity_enable in
    let o = is_odd c.parity in
    let low = λ (j : ℕ) (hj : j < 8). levels_low nco c.rx_break_level j hj in
    (
      flags-lt p q r o w lt,
      record {
        divider =
            flags_field p q r o w nco_field lt refl refl refl refl
            ∙ levels_nco nco c.rx_break_level h;
        break_level =
            flags_field p q r o w rxblvl_field lt refl refl refl refl
            ∙ levels_level nco c.rx_break_level k;
        tx = flags_bit p q r o w 0 lt (low 0 (omega arith));
        rx = flags_bit p q r o w 1 lt (low 1 (omega arith));
        parity_on = flags_bit p q r o w 6 lt (low 6 (omega arith));
        odd = flags_bit p q r o w 7 lt (low 7 (omega arith));
      },
    )
