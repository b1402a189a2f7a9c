-- ===== src/Usbdev/Packet.antt =====
-- Packets and their buffers in dif_usbdev.c: receiving, requesting and returning a buffer, sending,
-- and what became of a packet that was sent. A pool and a buffer that a pointer shows are given back
-- as they are after the call.
pub mod Lifecycle
use sunburst_chip.Base.{
  ℕ, ◌+◌, ◌*◌, ◌/◌, ◌%◌, ◌^◌, Bool, true, false, not, ◌||◌, if◌then◌else◌, Option, none, some, u8,
  u32, ◌<<<◌,
}
use sunburst_chip.Bitfield.{Field32, field32_read, field32_write, bit32_read, bit32_write}
use sunburst_chip.Mmio.{Bus, M, pure, ◌>>=◌, ◌>>◌, region_read32, region_write32}
use sunburst_chip.Dif.{DifResult, dif_ok, dif_error, bad_arg, unavailable}
use sunburst_chip.Usbdev.Pool.{BufferPool, is_empty, add, remove}
use sunburst_chip.Usbdev.Fifos.{usbstat_reg, buffer_field}
use sunburst_chip.Usbdev.Endpoint.{is_valid_endpoint, bit_index, config_in_reg_offset}

abbrev pub size_field : Field32
size_field = record { mask = 0x7f; index = 8 }

abbrev pub ep_field : Field32
ep_field = record { mask = 0xf; index = 20 }

-- `dif_usbdev_buffer_type_t`, `dif_usbdev_buffer_t`, `dif_usbdev_rx_packet_info_t` and
-- `dif_usbdev_tx_status_t`.
pub data BufferType : Type 0 where
  type_read type_write type_stale : BufferType

pub record Buffer : Type 0 where
  pub id : ℕ
  pub offset : ℕ
  pub remaining_bytes : ℕ
  pub type : BufferType

pub record PacketInfo : Type 0 where
  pub endpoint : ℕ
  pub length : ℕ
  pub is_setup : Bool

pub data TxStatus : Type 0 where
  no_packet pending sent cancelled : TxStatus

-- What `recv` makes of an entry of the RX FIFO.
unfoldable pub packet_of : ℕ → PacketInfo × Buffer
packet_of fifo_entry =
    let length = u8 (field32_read fifo_entry size_field) in
    (
      record {
        endpoint = u8 (field32_read fifo_entry ep_field);
        length = length;
        is_setup = bit32_read fifo_entry 19;
      },
      record {
        id = u8 (field32_read fifo_entry buffer_field);
        offset = 0;
        remaining_bytes = length;
        type = type_read;
      },
    )

abbrev pub stale : Buffer → Buffer
stale buffer = record {
  id = buffer.id;
  offset = buffer.offset;
  remaining_bytes = buffer.remaining_bytes;
  type = type_stale;
}

-- The result of `buffer_request` after the removal. `none` leaves the buffer as it was.
unfoldable pub requested : Option ℕ × BufferPool → DifResult × BufferPool × Option Buffer
requested (none, pool) = (dif_error, pool, none)
requested (some buffer_id, pool) = (
  dif_ok,
  pool,
  some (record { id = buffer_id; offset = 0; remaining_bytes = 64; type = type_write }),
)

-- The handle and the pointers are not NULL in these two; they do not use the hardware.
unfoldable pub buffer_request : BufferPool → DifResult × BufferPool × Option Buffer
buffer_request pool = if is_empty pool then (unavailable, pool, none) else requested (remove pool)

-- The result of `buffer_return` after the buffer was added.
unfoldable pub returned : Buffer → Bool × BufferPool → DifResult × BufferPool × Buffer
returned buffer (true, pool) = (dif_ok, pool, stale buffer)
returned buffer (false, pool) = (dif_error, pool, buffer)

unfoldable pub return_by_type : BufferType → BufferPool → Buffer → DifResult × BufferPool × Buffer
return_by_type type_read pool buffer = returned buffer (add pool buffer.id)
return_by_type type_write pool buffer = returned buffer (add pool buffer.id)
return_by_type type_stale pool buffer = (bad_arg, pool, buffer)

unfoldable pub buffer_return : BufferPool → Buffer → DifResult × BufferPool × Buffer
buffer_return pool buffer = return_by_type buffer.type pool buffer

abbrev pub is_write : BufferType → Bool
is_write type_read = false
is_write type_write = true
is_write type_stale = false

-- The value that `send` stores first.
abbrev pub config_in_of : Buffer → ℕ
config_in_of buffer =
    field32_write (field32_write 0 buffer_field buffer.id) size_field buffer.offset

-- The result of `clear_tx_status` after the buffer was added.
abbrev pub cleared : Bool × BufferPool → DifResult × BufferPool
cleared (true, pool) = (dif_ok, pool)
cleared (false, pool) = (dif_error, pool)

module _ {S : Type 0} (bus : Bus S) where
  -- `has_out` tells that both pointers are not NULL.
  unfoldable pub recv : Option ℕ → Bool → M S (DifResult × Option (PacketInfo × Buffer))
  recv none has_out = pure (bad_arg, none)
  recv (some base) has_out = if not has_out then pure (bad_arg, none) else do
    fifo_status ← region_read32 bus base usbstat_reg
    if bit32_read fifo_status 31
        then pure (unavailable, none)
        else do fifo_entry ← region_read32 bus base 0x28; pure (dif_ok, some (packet_of fifo_entry))

  unfoldable pub send : Option ℕ → ℕ → Buffer → M S (DifResult × Buffer)
  send none endpoint buffer = pure (bad_arg, buffer)
  send (some base) endpoint buffer =
      if not (is_valid_endpoint endpoint) || not (is_write buffer.type)
      then pure (bad_arg, buffer)
      else do
        let config_in_val = config_in_of buffer
        region_write32 bus base (config_in_reg_offset endpoint) config_in_val
        region_write32 bus base (config_in_reg_offset endpoint) (bit32_write config_in_val 31 true)
        pure (dif_ok, stale buffer)

  unfoldable pub get_tx_sent : Option ℕ → Bool → M S (DifResult × Option ℕ)
  get_tx_sent none has_out = pure (bad_arg, none)
  get_tx_sent (some base) has_out =
      if not has_out
      then pure (bad_arg, none)
      else do sent_bits ← region_read32 bus base 0x38; pure (dif_ok, some (sent_bits % 2 ^ 16))

  unfoldable pub clear_tx_status : Option ℕ → BufferPool → ℕ → M S (DifResult × BufferPool)
  clear_tx_status none pool endpoint = pure (bad_arg, pool)
  clear_tx_status (some base) pool endpoint =
      if not (is_valid_endpoint endpoint) then pure (bad_arg, pool) else do
        config_in_reg_val ← region_read32 bus base (config_in_reg_offset endpoint)
        let buffer = u8 (field32_read config_in_reg_val buffer_field)
        region_write32 bus base (config_in_reg_offset endpoint) (u32 (1 <<< 30))
        region_write32 bus base 0x38 (u32 (1 <<< endpoint))
        pure (cleared (add pool buffer))

  unfoldable pub get_tx_status : Option ℕ → ℕ → Bool → M S (DifResult × Option TxStatus)
  get_tx_status none endpoint has_out = pure (bad_arg, none)
  get_tx_status (some base) endpoint has_out =
      if not has_out || not (is_valid_endpoint endpoint) then pure (bad_arg, none) else do
        config_in_val ← region_read32 bus base (config_in_reg_offset endpoint)
        if bit32_read config_in_val 31 then pure (dif_ok, some pending) else do
          in_sent ← region_read32 bus base 0x38
          if bit32_read in_sent (bit_index endpoint)
              then pure (dif_ok, some sent)
              else if bit32_read config_in_val 30
              then pure (dif_ok, some cancelled)
              else pure (dif_ok, some no_packet)
