-- ===== src/SpiHost/Transaction.antt =====
-- The transactions of dif_spi_host.c, and the commands that they are made of. What is received is a
-- list of one buffer for each segment that receives.
use sunburst_chip.Base.{
  ℕ, ◌+◌, ◌-◌, ◌%◌, ◌^◌, Bool, not, if◌then◌else◌, ltb, ◌==◌, u32, ◌>>>◌, List, [], ◌∷◌, length,
  Option, none, some,
}
use sunburst_chip.Bitfield.{field32_write, bit32_read, bit32_write}
use sunburst_chip.Memory.{byte_at, word_of}
use sunburst_chip.Mmio.{Bus, region_write32}
use sunburst_chip.Dif.{DifResult, dif_ok, bad_arg}
use sunburst_chip.SpiHost.{Polling, ◌>>=◌, ◌>>◌, done, lift, wait_until}
use sunburst_chip.SpiHost.Fifos.{txdata_reg, wait_tx_fifo, put8, fifo_write, fifo_read}

abbrev pub csid_reg : ℕ
csid_reg = 0x1c

abbrev pub command_reg : ℕ
command_reg = 0x20

-- `dif_spi_host_width_t` and `dif_spi_host_direction_t`.
pub data Width : Type 0 where
  standard dual quad : Width

pub data Direction : Type 0 where
  dummy receive transmit bidirectional : Direction

abbrev pub width_value : Width → ℕ
width_value standard = 0
width_value dual = 1
width_value quad = 2

abbrev pub direction_value : Direction → ℕ
direction_value dummy = 0
direction_value receive = 1
direction_value transmit = 2
direction_value bidirectional = 3

-- `dif_spi_host_addr_mode_t`.
pub data AddrMode : Type 0 where
  three_bytes four_bytes : AddrMode

-- `dif_spi_host_segment_t`; the last constructor is for a type that the enumeration does not have.
-- The lengths are of type `size_t`; a buffer to send that is not NULL has as many bytes.
pub data Segment : Type 0 where
  opcode_segment : Width → ℕ → Segment
  address_segment : Width → AddrMode → ℕ → Segment
  dummy_segment : Width → ℕ → Segment
  tx_segment : Width → Option (ℕ × List ℕ) → ℕ → Segment
  rx_segment : Width → Option ℕ → ℕ → Segment
  bidir_segment : Width → Option (ℕ × List ℕ) → Option ℕ → ℕ → Segment
  unknown_segment : Segment

abbrev pub u16 : ℕ → ℕ
u16 n = n % 2 ^ 16

-- The word of a command; `length - 1` is an `int`, and -1 has all bits.
unfoldable pub command_of : ℕ → Width → Direction → Bool → ℕ
unfolding field32_write bit32_write
command_of len speed direction last_segment =
    let len' = field32_write 0 (record { mask = 0xfffff; index = 5 }) (u32 (len + 2 ^ 32 - 1)) in
    let speed' = field32_write len' (record { mask = 3; index = 1 }) (width_value speed) in
    let direction' =
      field32_write speed' (record { mask = 3; index = 3 }) (direction_value direction) in
    bit32_write direction' 0 (not last_segment)

abbrev pub byteswap32 : ℕ → ℕ
byteswap32 v = word_of (byte_at v 3) (byte_at v 2) (byte_at v 1) (byte_at v 0)

module _ {S : Type 0} (bus : Bus S) (write8 : ℕ → ℕ → S → S) where
  unfoldable pub write_command_reg : ℕ → ℕ → Width → Direction → Bool → Polling S (Unit {0})
  unfolding command_of
  write_command_reg base len speed direction last_segment =
      lift (region_write32 bus base command_reg (command_of len speed direction last_segment))

  unfoldable pub write_command : Option ℕ → ℕ → Width → Direction → Bool → Polling S DifResult
  unfolding write_command_reg
  write_command none len speed direction last_segment = done bad_arg
  write_command (some base) len speed direction last_segment = do
    write_command_reg base len speed direction last_segment
    done dif_ok

  unfoldable pub issue_opcode : ℕ → ℕ → Width → ℕ → Bool → Polling S (Unit {0})
  unfolding wait_tx_fifo put8 write_command_reg
  issue_opcode fuel base width opcode last_segment = do
    wait_tx_fifo bus write8 fuel base
    put8 bus write8 base opcode
    write_command_reg base 1 width transmit last_segment

  unfoldable pub issue_address : ℕ → ℕ → Width → AddrMode → ℕ → Bool → Polling S (Unit {0})
  unfolding wait_tx_fifo write_command_reg
  issue_address fuel base width three_bytes address last_segment = do
    wait_tx_fifo bus write8 fuel base
    lift (region_write32 bus base txdata_reg (byteswap32 address >>> 8))
    write_command_reg base 3 width transmit last_segment
  issue_address fuel base width four_bytes address last_segment = do
    wait_tx_fifo bus write8 fuel base
    lift (region_write32 bus base txdata_reg (byteswap32 address))
    write_command_reg base 4 width transmit last_segment

  unfoldable pub issue_dummy : ℕ → Width → ℕ → Bool → Polling S (Unit {0})
  unfolding write_command_reg
  issue_dummy base width len last_segment =
      let command = write_command_reg base (u16 len) width dummy last_segment in
      if ltb 0 len then command else done tt

  -- The result of `dif_spi_host_fifo_write` is not looked at.
  unfoldable pub issue_data_phase : ℕ → ℕ → Segment → Bool → Polling S DifResult
  unfolding write_command_reg fifo_write
  issue_data_phase fuel base (tx_segment width buf len) last_segment = do
    write_command_reg base (u16 len) width transmit last_segment
    fifo_write bus write8 fuel (some base) buf (u16 len)
    done dif_ok
  issue_data_phase fuel base (bidir_segment width txbuf rxbuf len) last_segment = do
    write_command_reg base (u16 len) width bidirectional last_segment
    fifo_write bus write8 fuel (some base) txbuf (u16 len)
    done dif_ok
  issue_data_phase fuel base (rx_segment width buf len) last_segment = do
    write_command_reg base (u16 len) width receive last_segment
    done dif_ok
  issue_data_phase fuel base segment last_segment = done bad_arg

  unfoldable pub issue_segment : ℕ → ℕ → Segment → Bool → Polling S DifResult
  unfolding issue_opcode issue_address issue_dummy issue_data_phase
  issue_segment fuel base (opcode_segment width opcode) last_segment = do
    issue_opcode fuel base width opcode last_segment
    done dif_ok
  issue_segment fuel base (address_segment width mode address) last_segment = do
    issue_address fuel base width mode address last_segment
    done dif_ok
  issue_segment fuel base (dummy_segment width len) last_segment = do
    issue_dummy base width len last_segment
    done dif_ok
  issue_segment fuel base segment last_segment = issue_data_phase fuel base segment last_segment

  -- The first loop of a transaction; it stops at an error.
  unfoldable pub issue_loop : ℕ → ℕ → List Segment → Polling S DifResult
  unfolding wait_until issue_segment
  issue_loop fuel base [] = done dif_ok
  issue_loop fuel base (segment ∷ segments) = do
    wait_until bus fuel base (λ reg. bit32_read reg 31)
    result ← issue_segment fuel base segment (length segments == 0)
    elim result [ dif_ok ↦ issue_loop fuel base segments | other ↦ done other ]

  -- The second loop: what is received.
  unfoldable pub receive_loop : ℕ → ℕ → List Segment → Polling S (List (List ℕ))
  unfolding fifo_read
  receive_loop fuel base [] = done []
  receive_loop fuel base (rx_segment width buf len ∷ segments) = do
    result ← fifo_read bus write8 fuel (some base) buf (u16 len)
    rest ← receive_loop fuel base segments
    done (result.1 ∷ rest)
  receive_loop fuel base (bidir_segment width txbuf rxbuf len ∷ segments) = do
    result ← fifo_read bus write8 fuel (some base) rxbuf (u16 len)
    rest ← receive_loop fuel base segments
    done (result.1 ∷ rest)
  receive_loop fuel base (segment ∷ segments) = receive_loop fuel base segments

  unfoldable pub transaction : ℕ → ℕ → ℕ → List Segment → Polling S (DifResult × List (List ℕ))
  unfolding issue_loop receive_loop
  transaction fuel base csid segments = do
    lift (region_write32 bus base csid_reg csid)
    result ← issue_loop fuel base segments
    elim result [
      | dif_ok ↦ do received ← receive_loop fuel base segments; done (dif_ok, received)
      | other ↦ done (other, [])
    ]
