-- ===== src/Usbdev/Fifos.antt =====
-- `dif_usbdev_fill_available_fifos`: buffers leave the pool for the two FIFOs from which the device
-- takes them. `none` means that the fuel ran out.
pub mod Conservation
use sunburst_chip.Base.{
  ℕ, zero, suc, Bool, true, false, ◌&&◌, if◌then◌else◌, leb, Option, none, some,
}
use sunburst_chip.Bitfield.{Field32, field32_read, field32_write, bit32_read}
use sunburst_chip.Mmio.{Bus, M, pure, ◌>>=◌, ◌>>◌, region_read32, region_write32}
use sunburst_chip.Dif.{DifResult, dif_ok, dif_error, bad_arg}
use sunburst_chip.Usbdev.Pool.{BufferPool, is_empty, remove}

abbrev pub usbstat_reg : ℕ
usbstat_reg = 0x1c

abbrev pub av_out_buffer_reg : ℕ
av_out_buffer_reg = 0x20

abbrev pub av_setup_buffer_reg : ℕ
av_setup_buffer_reg = 0x24

abbrev pub av_setup_depth_field : Field32
av_setup_depth_field = record { mask = 0x7; index = 20 }

abbrev pub buffer_field : Field32
buffer_field = record { mask = 0x1f; index = 0 }

module _ {S : Type 0} (bus : Bus S) where
  -- The buffer goes to the OUT FIFO if two are available for SETUP, else to the SETUP FIFO.
  unfoldable pub supply : ℕ → ℕ → ℕ → M S (Unit {0})
  supply base av_setup_depth buffer_id =
      if leb 2 av_setup_depth
      then region_write32 bus base av_out_buffer_reg (field32_write 0 buffer_field buffer_id)
      else region_write32 bus base av_setup_buffer_reg (field32_write 0 buffer_field buffer_id)

  -- The rest of a round, with what was removed from the pool.
  unfoldable pub supply_removed :
      ℕ
      → ℕ
      → (BufferPool → M S (Option (DifResult × BufferPool)))
      → Option ℕ × BufferPool
      → M S (Option (DifResult × BufferPool))
  supply_removed base av_setup_depth again (none, pool) = pure (some (dif_error, pool))
  supply_removed base av_setup_depth again (some buffer_id, pool) = do
    supply base av_setup_depth buffer_id
    again pool

  unfoldable pub fill_loop : ℕ → ℕ → BufferPool → M S (Option (DifResult × BufferPool))
  fill_loop zero base pool = pure none
  fill_loop (suc fuel) base pool = if is_empty pool then pure (some (dif_ok, pool)) else do
    status ← region_read32 bus base usbstat_reg
    let av_setup_depth = field32_read status av_setup_depth_field
    if leb 2 av_setup_depth && bit32_read status 23
        then pure (some (dif_ok, pool))
        else supply_removed base av_setup_depth (fill_loop fuel base) (remove pool)

  -- A pool holds at most 32 buffers, so 33 rounds are enough.
  unfoldable pub fill_available_fifos :
      Option ℕ → Option BufferPool → M S (Option (DifResult × Option BufferPool))
  fill_available_fifos none pool = pure (some (bad_arg, pool))
  fill_available_fifos (some base) none = pure (some (bad_arg, none))
  fill_available_fifos (some base) (some pool) = do
    out ← fill_loop 33 base pool
    pure (elim out [ none ↦ none | some (r, pool') ↦ some (r, some pool') ])
