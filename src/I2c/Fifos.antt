-- ===== src/I2c/Fifos.antt =====
-- The FIFOs of dif_i2c.c. A wait that polls the hardware runs on fuel: `none` means that the fuel ran
-- out. Each `has` tells that a pointer to a result is not NULL.
use sunburst_chip.Base.{
  ℕ, zero, suc, ◌%◌, ◌^◌, Bool, true, false, not, ◌||◌, ◌&&◌, if◌then◌else◌, ltb, Option, none,
  some, u8, bit_and, List, [], ◌∷◌,
}
use sunburst_chip.Bitfield.{Field32, field32_read, field32_write, bit32_read, bit32_write}
use sunburst_chip.Mmio.{Bus, M, pure, ◌>>=◌, ◌>>◌, region_read32, region_write32}
use sunburst_chip.Dif.{DifResult, dif_ok, bad_arg}
use sunburst_chip.I2c.Control.{status_reg}

abbrev pub byte_field : Field32
byte_field = record { mask = 0xff; index = 0 }

abbrev pub level_field : ℕ → Field32
level_field index = record { mask = 0xfff; index = index }

abbrev pub nbytes_field : Field32
nbytes_field = record { mask = 0x1ff; index = 0 }

-- `dif_i2c_fmt_flags_t`, and `dif_i2c_fmt_t`; C lets any other number stand there too.
pub record FmtFlags : Type 0 where
  pub start : Bool
  pub stop : Bool
  pub read : Bool
  pub read_cont : Bool
  pub suppress_nak_irq : Bool

pub data Fmt : Type 0 where
  fmt_start fmt_tx fmt_tx_stop fmt_rx fmt_rx_continue fmt_rx_stop : Fmt
  other_fmt : ℕ → Fmt

-- The format byte, or a bad argument.
unfoldable pub parse_flags : FmtFlags → Option ℕ
parse_flags flags =
    let has_write_flags = flags.start || flags.suppress_nak_irq in
    let has_read_flags = flags.read || flags.read_cont in
    let b0 = bit32_write 0 8 flags.start in
    let b1 = bit32_write b0 9 flags.stop in
    let b2 = bit32_write b1 10 flags.read in
    let b3 = bit32_write b2 11 flags.read_cont in
    if has_write_flags && has_read_flags
    then none
    else if flags.read_cont && not flags.read
    then none
    else some (bit32_write b3 12 flags.suppress_nak_irq)

abbrev pub flags_with : Bool → Bool → Bool → Bool → Bool → FmtFlags
flags_with start stop read read_cont suppress = record {
  start = start;
  stop = stop;
  read = read;
  read_cont = read_cont;
  suppress_nak_irq = suppress;
}

-- The two `switch`es of `dif_i2c_write_byte`.
unfoldable pub flags_of : Fmt → Bool → Option FmtFlags
flags_of fmt_start suppress = some (flags_with true false false false suppress)
flags_of fmt_tx suppress = some (flags_with false false false false suppress)
flags_of fmt_tx_stop suppress = some (flags_with false true false false suppress)
flags_of fmt_rx suppress =
    if suppress then none else some (flags_with false false true false suppress)
flags_of fmt_rx_continue suppress =
    if suppress then none else some (flags_with false false true true suppress)
flags_of fmt_rx_stop suppress =
    if suppress then none else some (flags_with false true true false suppress)
flags_of (other_fmt n) suppress = none

abbrev pub if_wanted : Bool → ℕ → Option ℕ
if_wanted has v = if has then some v else none

module _ {S : Type 0} (bus : Bus S) where
  -- `spin_while_status_bit` with the flag `true`, as in every call.
  unfoldable pub spin_while_status_bit : ℕ → ℕ → ℕ → M S (Option (Unit {0}))
  spin_while_status_bit zero base bit = pure none
  spin_while_status_bit (suc fuel) base bit = do
    reg ← region_read32 bus base status_reg
    if bit32_read reg bit then spin_while_status_bit fuel base bit else pure (some tt)

  -- The samples of both pins.
  unfoldable pub override_sample_pins :
      Option ℕ → Bool → Bool → M S (DifResult × Option ℕ × Option ℕ)
  override_sample_pins none has_scl has_sda = pure (bad_arg, none, none)
  override_sample_pins (some base) has_scl has_sda = do
    samples ← region_read32 bus base 0x38
    let scl = field32_read samples (record { mask = 0xffff; index = 0 })
    let sda = field32_read samples (record { mask = 0xffff; index = 16 })
    pure (dif_ok, if_wanted has_scl (scl % 2 ^ 16), if_wanted has_sda (sda % 2 ^ 16))

  -- The levels of the format, receive, transmit and acquire FIFO.
  unfoldable pub get_fifo_levels :
      Option ℕ
      → Bool
      → Bool
      → Bool
      → Bool
      → M S (DifResult × Option ℕ × Option ℕ × Option ℕ × Option ℕ)
  get_fifo_levels none has_fmt has_rx has_tx has_acq = pure (bad_arg, none, none, none, none)
  get_fifo_levels (some base) has_fmt has_rx has_tx has_acq = do
    host ← region_read32 bus base 0x2c
    target ← region_read32 bus base 0x30
    pure (
      dif_ok,
      if_wanted has_fmt (field32_read host (level_field 0) % 2 ^ 16),
      if_wanted has_rx (field32_read host (level_field 16) % 2 ^ 16),
      if_wanted has_tx (field32_read target (level_field 0) % 2 ^ 16),
      if_wanted has_acq (field32_read target (level_field 16) % 2 ^ 16),
    )

  unfoldable pub get_auto_ack_count : Option ℕ → Bool → M S (DifResult × Option ℕ)
  get_auto_ack_count none has_out = pure (bad_arg, none)
  get_auto_ack_count (some base) has_out = if not has_out then pure (bad_arg, none) else do
    reg ← region_read32 bus base 0x6c
    pure (dif_ok, some (field32_read reg nbytes_field % 2 ^ 16))

  unfoldable pub set_auto_ack_count : Option ℕ → ℕ → M S DifResult
  set_auto_ack_count none count = pure bad_arg
  set_auto_ack_count (some base) count =
      if ltb 0x1ff count
      then pure bad_arg
      else do region_write32 bus base 0x6c (field32_write 0 nbytes_field count); pure dif_ok

  unfoldable pub nack_transaction : Option ℕ → M S DifResult
  nack_transaction none = pure bad_arg
  nack_transaction (some base) = do
    region_write32 bus base 0x6c (bit32_write 0 31 true)
    pure dif_ok

  unfoldable pub get_pending_acq_byte : Option ℕ → Bool → M S (DifResult × Option ℕ)
  get_pending_acq_byte none has_out = pure (bad_arg, none)
  get_pending_acq_byte (some base) has_out =
      if not has_out
      then pure (bad_arg, none)
      else do reg ← region_read32 bus base 0x70; pure (dif_ok, some (bit_and 0xff reg))

  unfoldable pub read_byte : Option ℕ → Bool → M S (DifResult × Option ℕ)
  read_byte none has_out = pure (bad_arg, none)
  read_byte (some base) has_out = do
    values ← region_read32 bus base 0x18
    pure (dif_ok, if_wanted has_out (u8 (field32_read values byte_field)))

  -- The loop of `dif_i2c_read_bytes`; each wait has the same fuel.
  unfoldable pub read_loop : ℕ → ℕ → ℕ → M S (Option (List ℕ))
  read_loop fuel base zero = pure (some [])
  read_loop fuel base (suc size) = do
    waited ← spin_while_status_bit fuel base 5
    elim waited [
      | none ↦ pure none
      | some u ↦ do
        values ← region_read32 bus base 0x18
        rest ← read_loop fuel base size
        elim rest [
          | none ↦ pure none
          | some bytes ↦ pure (some (u8 (field32_read values byte_field) ∷ bytes))
        ]
    ]

  unfoldable pub read_bytes : ℕ → Option ℕ → ℕ → Bool → M S (Option (DifResult × List ℕ))
  read_bytes fuel none size has_out = pure (some (bad_arg, []))
  read_bytes fuel (some base) size has_out = if not has_out then pure (some (bad_arg, [])) else do
    out ← read_loop fuel base size
    elim out [ none ↦ pure none | some bytes ↦ pure (some (dif_ok, bytes)) ]

  -- The loop of `dif_i2c_write_bytes_raw`.
  unfoldable pub write_loop : ℕ → ℕ → ℕ → List ℕ → M S (Option (Unit {0}))
  write_loop fuel base fmt_byte [] = pure (some tt)
  write_loop fuel base fmt_byte (byte ∷ bytes) = do
    region_write32 bus base 0x1c (field32_write fmt_byte byte_field byte)
    waited ← spin_while_status_bit fuel base 0
    elim waited [ none ↦ pure none | some u ↦ write_loop fuel base fmt_byte bytes ]

  -- `bytes` are the `size` bytes behind the pointer.
  unfoldable pub write_bytes_raw : ℕ → Option ℕ → Bool → List ℕ → FmtFlags → M S (Option DifResult)
  write_bytes_raw fuel none has_bytes bytes flags = pure (some bad_arg)
  write_bytes_raw fuel (some base) has_bytes [] flags = pure (some bad_arg)
  write_bytes_raw fuel (some base) has_bytes (byte ∷ bytes) flags =
      if not has_bytes then pure (some bad_arg) else elim (parse_flags flags) [
        | none ↦ pure (some bad_arg)
        | some fmt_byte ↦ do
          out ← write_loop fuel base fmt_byte (byte ∷ bytes)
          elim out [ none ↦ pure none | some u ↦ pure (some dif_ok) ]
      ]

  unfoldable pub write_byte_raw : Option ℕ → ℕ → FmtFlags → M S DifResult
  write_byte_raw none byte flags = pure bad_arg
  write_byte_raw (some base) byte flags = elim (parse_flags flags) [
    | none ↦ pure bad_arg
    | some fmt_byte ↦ do
      region_write32 bus base 0x1c (field32_write fmt_byte byte_field byte)
      pure dif_ok
  ]

  unfoldable pub write_byte : Option ℕ → ℕ → Fmt → Bool → M S DifResult
  write_byte none byte code suppress_nak_irq = pure bad_arg
  write_byte (some base) byte code suppress_nak_irq = elim (flags_of code suppress_nak_irq) [
    | none ↦ pure bad_arg
    | some flags ↦ write_byte_raw (some base) byte flags
  ]

  unfoldable pub transmit_byte : Option ℕ → ℕ → M S DifResult
  transmit_byte none byte = pure bad_arg
  transmit_byte (some base) byte = do
    region_write32 bus base 0x5c (field32_write 0 byte_field byte)
    pure dif_ok

  -- The byte and the signal.
  unfoldable pub acquire_byte : Option ℕ → Bool → Bool → M S (DifResult × Option ℕ × Option ℕ)
  acquire_byte none has_byte has_signal = pure (bad_arg, none, none)
  acquire_byte (some base) has_byte has_signal = do
    acq_byte ← region_read32 bus base 0x58
    let signal = field32_read acq_byte (record { mask = 0x7; index = 8 })
    pure (
      dif_ok,
      if_wanted has_byte (u8 (field32_read acq_byte byte_field)),
      if_wanted has_signal signal,
    )
