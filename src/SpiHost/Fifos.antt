-- ===== src/SpiHost/Fifos.antt =====
-- The FIFOs of dif_spi_host.c.
use sunburst_chip.Base.{
  ℕ, zero, suc, ◌+◌, ◌-◌, ◌%◌, not, if◌then◌else◌, ltb, ◌==◌, u32, List, [], ◌∷◌, ◌++◌, get_or, set,
  take, Option, none, some,
}
use sunburst_chip.Bitfield.{field32_read}
use sunburst_chip.Memory.{byte_at, word_of, misalignment32_of}
use sunburst_chip.Mmio.{Bus, region_read32, region_write32}
use sunburst_chip.Dif.{DifResult, dif_ok, bad_arg}
use sunburst_chip.SpiHost.{txqd_field, rxqd_field, Polling, ◌>>=◌, ◌>>◌, done, lift, wait_until}

abbrev pub rxdata_reg : ℕ
rxdata_reg = 0x24

abbrev pub txdata_reg : ℕ
txdata_reg = 0x28

abbrev pub tx_depth : ℕ
tx_depth = 72

-- `queue_t`: eight bytes of which `size` are taken.
pub record Queue : Type 0 where
  pub size : ℕ
  pub bytes : List ℕ

unfoldable pub enqueue_byte : ℕ → Queue → Queue
enqueue_byte byte queue = record { size = queue.size + 1; bytes = set queue.bytes queue.size byte }

-- Both branches store the four bytes of the word, the lowest first.
unfoldable pub enqueue_word : ℕ → Queue → Queue
unfolding enqueue_byte
enqueue_word word queue =
    let n = queue.size in
    let aligned =
      set
        (set (set (set queue.bytes n (byte_at word 0)) (n + 1) (byte_at word 1)) (n + 2)
          (byte_at word 2))
        (n + 3) (byte_at word 3) in
    if n % 4 == 0
    then record { size = n + 4; bytes = aligned }
    else enqueue_byte (byte_at word 3) (
        enqueue_byte (byte_at word 2)
          (enqueue_byte (byte_at word 1) (enqueue_byte (byte_at word 0) queue)))

-- A 64-bit shift to the right by one byte.
abbrev pub shifted : List ℕ → List ℕ
shifted [] = []
shifted (b ∷ bytes) = bytes ++ (0 ∷ [])

unfoldable pub dequeue_byte : Queue → ℕ × Queue
dequeue_byte queue =
    (get_or queue.bytes 0 0, record { size = queue.size - 1; bytes = shifted queue.bytes })

-- The upper word is copied over the lower one.
unfoldable pub dequeue_word : Queue → List ℕ × Queue
dequeue_word queue =
    let at = λ (i : ℕ). get_or queue.bytes i 0 in
    (
      at 0 ∷ at 1 ∷ at 2 ∷ at 3 ∷ [],
      record {
        size = queue.size - 4;
        bytes = at 4 ∷ at 5 ∷ at 6 ∷ at 7 ∷ at 4 ∷ at 5 ∷ at 6 ∷ at 7 ∷ [];
      },
    )

abbrev pub empty_queue : Queue
empty_queue = record { size = 0; bytes = 0 ∷ 0 ∷ 0 ∷ 0 ∷ 0 ∷ 0 ∷ 0 ∷ 0 ∷ [] }

module _ {S : Type 0} (bus : Bus S) (write8 : ℕ → ℕ → S → S) where
  unfoldable pub wait_tx_fifo : ℕ → ℕ → Polling S (Unit {0})
  unfolding wait_until
  wait_tx_fifo fuel base =
      wait_until bus fuel base (λ reg. not (field32_read reg txqd_field == tx_depth))

  unfoldable pub wait_rx_fifo : ℕ → ℕ → Polling S (Unit {0})
  unfolding wait_until
  wait_rx_fifo fuel base = wait_until bus fuel base (λ reg. not (field32_read reg rxqd_field == 0))

  unfoldable pub put8 : ℕ → ℕ → Polling S (Unit {0})
  put8 base byte s = (some tt, write8 (base + txdata_reg) byte s)

  unfoldable pub tx_fifo_write8 : ℕ → ℕ → ℕ → Polling S (Unit {0})
  unfolding wait_tx_fifo put8
  tx_fifo_write8 fuel base byte = do wait_tx_fifo fuel base; put8 base byte

  unfoldable pub tx_fifo_write32 : ℕ → ℕ → ℕ → Polling S (Unit {0})
  unfolding wait_tx_fifo
  tx_fifo_write32 fuel base val = do
    wait_tx_fifo fuel base
    lift (region_write32 bus base txdata_reg val)

  -- The last loop of `dif_spi_host_fifo_write`, then the second, then the first.
  unfoldable pub write_tail : ℕ → ℕ → List ℕ → Polling S (Unit {0})
  unfolding tx_fifo_write8
  write_tail fuel base [] = done tt
  write_tail fuel base (b ∷ src) = do tx_fifo_write8 fuel base b; write_tail fuel base src

  unfoldable pub write_body : ℕ → ℕ → List ℕ → Polling S (Unit {0})
  unfolding tx_fifo_write32 write_tail
  write_body fuel base (a ∷ b ∷ c ∷ d ∷ src) = do
    tx_fifo_write32 fuel base (word_of a b c d)
    write_body fuel base src
  write_body fuel base src = write_tail fuel base src

  unfoldable pub write_head : ℕ → ℕ → ℕ → List ℕ → Polling S (Unit {0})
  unfolding tx_fifo_write8 write_body
  write_head fuel base ptr [] = done tt
  write_head fuel base ptr (b ∷ src) =
      let rest : Polling S (Unit {0}) = (do
        tx_fifo_write8 fuel base b
        write_head fuel base (u32 (ptr + 1)) src) in
      if misalignment32_of ptr == 0 then write_body fuel base (b ∷ src) else rest

  -- A buffer is its address and the bytes from there on, at least `len` of them.
  unfoldable pub fifo_write : ℕ → Option ℕ → Option (ℕ × List ℕ) → ℕ → Polling S DifResult
  unfolding write_head
  fifo_write fuel none src len = done bad_arg
  fifo_write fuel (some base) none len = done (if ltb 0 len then bad_arg else dif_ok)
  fifo_write fuel (some base) (some (ptr, bytes)) len = do
    write_head fuel base ptr (take len bytes)
    done dif_ok

  -- A word more for a queue that has fewer than `least` bytes.
  unfoldable pub refill : ℕ → ℕ → ℕ → Queue → Polling S Queue
  unfolding wait_rx_fifo enqueue_word
  refill fuel base least queue =
      let more : Polling S Queue = (do
        wait_rx_fifo fuel base
        word ← lift (region_read32 bus base rxdata_reg)
        done (enqueue_word word queue)) in
      if ltb queue.size least then more else done queue

  -- The loops of `dif_spi_host_fifo_read`, with `len` bytes to go: the bytes for the destination.
  unfoldable pub read_tail : ℕ → ℕ → ℕ → Queue → Polling S (List ℕ)
  unfolding refill dequeue_byte
  read_tail fuel base zero queue = done []
  read_tail fuel base (suc len) queue = do
    q ← refill fuel base 1 queue
    rest ← read_tail fuel base len (dequeue_byte q).1
    done ((dequeue_byte q).0 ∷ rest)

  unfoldable pub read_body : ℕ → ℕ → ℕ → Queue → Polling S (List ℕ)
  unfolding refill dequeue_word read_tail
  read_body fuel base (suc (suc (suc (suc len)))) queue = do
    q ← refill fuel base 4 queue
    rest ← read_body fuel base len (dequeue_word q).1
    done ((dequeue_word q).0 ++ rest)
  read_body fuel base len queue = read_tail fuel base len queue

  unfoldable pub read_head : ℕ → ℕ → ℕ → ℕ → Queue → Polling S (List ℕ)
  unfolding refill dequeue_byte read_body
  read_head fuel base ptr zero queue = done []
  read_head fuel base ptr (suc len) queue =
      let byte : Polling S (List ℕ) = (do
        q ← refill fuel base 1 queue
        rest ← read_head fuel base (u32 (ptr + 1)) len (dequeue_byte q).1
        done ((dequeue_byte q).0 ∷ rest)) in
      if misalignment32_of ptr == 0 then read_body fuel base (suc len) queue else byte

  -- The bytes that are stored at the destination, whose address is `dst`.
  unfoldable pub fifo_read : ℕ → Option ℕ → Option ℕ → ℕ → Polling S (DifResult × List ℕ)
  unfolding read_head
  fifo_read fuel none dst len = done (bad_arg, [])
  fifo_read fuel (some base) none len = done (if ltb 0 len then bad_arg else dif_ok, [])
  fifo_read fuel (some base) (some ptr) len = do
    bytes ← read_head fuel base ptr len empty_queue
    done (dif_ok, bytes)
