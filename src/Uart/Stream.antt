-- ===== src/Uart/Stream.antt =====
-- The FIFOs of dif_uart.c. Data that a function stores through a pointer is the list it returns.
-- A wait that polls the hardware runs on fuel: `none` means that the fuel ran out.
pub mod Transmit
use sunburst_chip.Base.{
  ℕ, zero, suc, ◌+◌, ◌-◌, ◌%◌, ◌^◌, Bool, true, false, not, if◌then◌else◌, Option, none, some, u8,
}
use sunburst_chip.Base.{List, [], ◌∷◌, get_or, set, u32}
use sunburst_chip.Bitfield.{Field32, field32_read, field32_write, bit32_read}
use sunburst_chip.Mmio.{Bus, M, pure, ◌>>=◌, ◌>>◌, region_read32, region_write32}
use sunburst_chip.Dif.{DifResult, dif_ok, bad_arg}

abbrev pub status_reg : ℕ
status_reg = 0x14

abbrev pub rdata_reg : ℕ
rdata_reg = 0x18

abbrev pub wdata_reg : ℕ
wdata_reg = 0x1c

abbrev pub fifo_status_reg : ℕ
fifo_status_reg = 0x24

abbrev pub byte_field : Field32
byte_field = record { mask = 0xff; index = 0 }

abbrev pub txlvl_field : Field32
txlvl_field = record { mask = 0xff; index = 0 }

abbrev pub rxlvl_field : Field32
rxlvl_field = record { mask = 0xff; index = 16 }

-- `kDifUartFifoSizeBytes`.
abbrev pub fifo_size_bytes : ℕ
fifo_size_bytes = 32

module _ {S : Type 0} (bus : Bus S) where
  unfoldable pub tx_full : ℕ → M S Bool
  tx_full base = do reg ← region_read32 bus base status_reg; pure (bit32_read reg 0)

  unfoldable pub tx_idle : ℕ → M S Bool
  tx_idle base = do reg ← region_read32 bus base status_reg; pure (bit32_read reg 3)

  unfoldable pub rx_empty : ℕ → M S Bool
  rx_empty base = do reg ← region_read32 bus base status_reg; pure (bit32_read reg 5)

  unfoldable pub rx_fifo_read : ℕ → M S ℕ
  rx_fifo_read base = do
    reg ← region_read32 bus base rdata_reg
    pure (u8 (field32_read reg byte_field))

  unfoldable pub tx_fifo_write : ℕ → ℕ → M S (Unit {0})
  tx_fifo_write base byte = region_write32 bus base wdata_reg (field32_write 0 byte_field byte)

  -- The loop of `uart_bytes_send`, with `left` bytes to go: how many were written in all.
  unfoldable pub send_loop : ℕ → List ℕ → ℕ → ℕ → M S ℕ
  unfolding tx_full tx_fifo_write
  send_loop base data_ bytes_written zero = pure bytes_written
  send_loop base data_ bytes_written (suc left) = do
    full ← tx_full base
    if full then pure bytes_written else do
      tx_fifo_write base (get_or data_ bytes_written 0)
      send_loop base data_ (bytes_written + 1) left

  -- The loop of `uart_bytes_receive`: how many were read in all, and the data.
  unfoldable pub receive_loop : ℕ → List ℕ → ℕ → ℕ → M S (ℕ × List ℕ)
  unfolding rx_empty rx_fifo_read
  receive_loop base data_ bytes_read zero = pure (bytes_read, data_)
  receive_loop base data_ bytes_read (suc left) = do
    is_empty ← rx_empty base
    if is_empty then pure (bytes_read, data_) else do
      byte ← rx_fifo_read base
      receive_loop base (set data_ bytes_read byte) (bytes_read + 1) left

  unfoldable pub bytes_send : Option ℕ → Option (List ℕ) → ℕ → M S (DifResult × Option ℕ)
  bytes_send none data_ bytes_requested = pure (bad_arg, none)
  bytes_send (some base) none bytes_requested = pure (bad_arg, none)
  bytes_send (some base) (some data_) bytes_requested = do
    res ← send_loop base data_ 0 bytes_requested
    pure (dif_ok, some res)

  unfoldable pub bytes_receive :
      Option ℕ → ℕ → Option (List ℕ) → M S (DifResult × Option (ℕ × List ℕ))
  bytes_receive none bytes_requested data_ = pure (bad_arg, none)
  bytes_receive (some base) bytes_requested none = pure (bad_arg, none)
  bytes_receive (some base) bytes_requested (some data_) = do
    res ← receive_loop base data_ 0 bytes_requested
    pure (dif_ok, some res)

  -- A busy wait while `busy` holds: whether it ended.
  unfoldable pub wait_while : ℕ → M S Bool → M S Bool
  wait_while zero busy = pure false
  wait_while (suc fuel) busy = do b ← busy; if not b then pure true else wait_while fuel busy

  unfoldable pub byte_send_polled : ℕ → Option ℕ → ℕ → M S (Option DifResult)
  byte_send_polled fuel none byte = pure (some bad_arg)
  byte_send_polled fuel (some base) byte = do
    free ← wait_while fuel (tx_full base)
    if not free then pure none else do
      _ ← send_loop base (byte ∷ []) 0 1
      done ← wait_while fuel (do idle ← tx_idle base; pure (not idle))
      pure (if done then some dif_ok else none)

  -- `byte` is what the pointer shows before the call, `none` for NULL; what it shows after is given.
  unfoldable pub byte_receive_polled : ℕ → Option ℕ → Option ℕ → M S (Option (DifResult × Option ℕ))
  byte_receive_polled fuel none byte = pure (some (bad_arg, none))
  byte_receive_polled fuel (some base) none = pure (some (bad_arg, none))
  byte_receive_polled fuel (some base) (some byte) = do
    there ← wait_while fuel (rx_empty base)
    if not there then pure none else do
      res ← receive_loop base (byte ∷ []) 0 1
      pure (some (dif_ok, some (get_or res.1 0 0)))

  unfoldable pub rx_bytes_available : Option ℕ → Bool → M S (DifResult × Option ℕ)
  rx_bytes_available none has_out = pure (bad_arg, none)
  rx_bytes_available (some base) has_out = if not has_out then pure (bad_arg, none) else do
    reg ← region_read32 bus base fifo_status_reg
    pure (dif_ok, some (field32_read reg rxlvl_field))

  unfoldable pub tx_bytes_available : Option ℕ → Bool → M S (DifResult × Option ℕ)
  tx_bytes_available none has_out = pure (bad_arg, none)
  tx_bytes_available (some base) has_out = if not has_out then pure (bad_arg, none) else do
    reg ← region_read32 bus base fifo_status_reg
    let fill_bytes = field32_read reg txlvl_field
    pure (dif_ok, some (u32 (fifo_size_bytes + 2 ^ 32 - fill_bytes)))
