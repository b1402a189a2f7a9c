-- ===== src/Uart/Stream/Transmit.antt =====
-- Sending, to hardware that sends while it is filled.
use mathlib.Core.List.{append_assoc, append-nil}
use sunburst_chip.Base.{ℕ, zero, suc, ◌+◌, ◌≤◌, ◌<◌, min, ◌≡◌, refl, arith, ◌∙◌, ap, sym}
use sunburst_chip.Base.{◌==◌, some, bit_and, Bool-cases, inl, inr}
use sunburst_chip.Base.{List, [], ◌∷◌, ◌++◌, get_or}
use sunburst_chip.Bits.{bit_and_mask}
use sunburst_chip.Bitfield.{field32_read, field32_write, bit32_read}
use sunburst_chip.Bitfield.Laws.{field32_read-write}
use sunburst_chip.Mmio.{Bus}
use sunburst_chip.Dif.{dif_ok}
use sunburst_chip.Uart.Stream.{status_reg, wdata_reg, byte_field, send_loop, bytes_send}

-- The transmitter: the bytes that it was given and the room in its FIFO. It sends all the while, so
-- that the room may grow at each access; a byte is taken only where there is room.
pub record IsTransmitter {S : Type 0} (bus : Bus S) (base : ℕ) (sent : S → List ℕ) (room : S → ℕ)
    : Type 0 where
  pub full-load : (s : S) → bit32_read (bus.load (base + status_reg) s).0 0 ≡ (room s == 0)
  pub sent-load : (s : S) → sent (bus.load (base + status_reg) s).1 ≡ sent s
  pub room-load : (s : S) → room s ≤ room (bus.load (base + status_reg) s).1
  pub sent-store :
      (v : ℕ) (s : S)
      → 0 < room s
      → sent (bus.store (base + wdata_reg) v s) ≡ sent s ++ (field32_read v byte_field ∷ [])
  pub room-store : (v : ℕ) (s : S) → room s ≤ room (bus.store (base + wdata_reg) v s) + 1

-- The `n` bytes of the data that start at index `i`.
abbrev pub slice : List ℕ → ℕ → ℕ → List ℕ
slice bytes i zero = []
slice bytes i (suc n) = get_or bytes i 0 ∷ slice bytes (i + 1) n

byte_of : (byte : ℕ) → byte < 256 → field32_read (field32_write 0 byte_field byte) byte_field ≡ byte
byte_of byte h =
    let m : bit_and byte 0xff ≡ byte = omega (arith, bit_and_mask 8 byte) in
    field32_read-write 0 byte_field byte (omega arith) (omega arith) ∙ m

module _ {S : Type 0} (bus : Bus S) (base : ℕ) (sent : S → List ℕ) (room : S → ℕ)
    (transmitter : IsTransmitter bus base sent room) (bytes : List ℕ)
    (small : (i : ℕ) → get_or bytes i 0 < 256) where
  -- The hardware after the status was read, and after one more byte was written.
  abbrev polled : S → S
  polled s = (bus.load (base + 0x14) s).1

  abbrev written : ℕ → S → S
  written i s = bus.store (base + 0x1c) (field32_write 0 byte_field (get_or bytes i 0)) (polled s)

  -- What the loop gives and leaves, from index `i` with `left` bytes to go.
  abbrev IsSent : ℕ → ℕ → S → ℕ × S → Type 0
  IsSent i left s (total, s') =
      (n : ℕ) × (total ≡ i + n)
      × (n ≤ left)
      × (min left (room s) ≤ n)
      × (sent s' ≡ sent s ++ slice bytes i n)

  send_loop_lem : (left i : ℕ) (s : S) → IsSent i left s (send_loop bus base bytes i left s)
  unfolding send_loop
  send_loop_lem zero i s = (0, omega arith, omega arith, omega arith, sym (append-nil (sent s)))
  send_loop_lem (suc left) i s = elim (Bool-cases (room s == 0)) [
    | inl full ↦
        rw (transmitter.full-load s, full)
          (
            0,
            omega arith,
            omega arith,
            ground arith,
            transmitter.sent-load s ∙ sym (append-nil (sent s)),
          )
    | inr free ↦
        let has_room : 0 < room s = ground arith in
        let (n, e, p, q, r) = send_loop_lem left (i + 1) (written i s) in
        let grows : room s ≤ room (polled s) = transmitter.room-load s in
        let shrinks : room (polled s) ≤ room (written i s) + 1 =
          transmitter.room-store _ (polled s) in
        let one : sent (written i s) ≡ sent s ++ (get_or bytes i 0 ∷ []) =
          transmitter.sent-store _ (polled s) (omega arith)
          ∙ ap (λ x. sent (polled s) ++ (x ∷ [])) (byte_of (get_or bytes i 0) (small i))
          ∙ ap (λ t. t ++ (get_or bytes i 0 ∷ [])) (transmitter.sent-load s) in
        rw (transmitter.full-load s, free)
          (
            suc n,
            omega arith,
            omega arith,
            omega arith,
            r
                ∙ ap (λ t. t ++ slice bytes (i + 1) n) one
                ∙ append_assoc (sent s) (get_or bytes i 0 ∷ []) (slice bytes (i + 1) n),
          )
  ]

  -- With data of bytes below 256 and a transmitter that takes a byte where it has room, sending
  -- succeeds and returns a number of bytes that is at most what was asked for and, unless that was
  -- less, at least the room at the start. What the transmitter was given is that many bytes of the
  -- data, from index 0, in order.
  pub bytes_send_lem :
      (requested : ℕ) (s : S)
      → let (out, s') = bytes_send bus (some base) (some bytes) requested s in
        (n : ℕ) × (out ≡ (dif_ok, some n))
        × (n ≤ requested)
        × (min requested (room s) ≤ n)
        × (sent s' ≡ sent s ++ slice bytes 0 n)
  unfolding bytes_send
  bytes_send_lem requested s =
      let (n, e, p, q, r) = send_loop_lem requested 0 s in
      let z : 0 + n ≡ n = omega arith in (n, rw (e, z) refl, p, q, r)
