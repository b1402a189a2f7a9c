-- ===== src/Uart/Tests.antt =====
-- The serial port on a memory, and on a transmitter with room for four bytes.
use sunburst_chip.Base.{ℕ, suc, ◌+◌, ◌-◌, ◌≤◌, ◌<◌, min, ◌≡◌, refl, arith, ◌==◌, if◌then◌else◌}
use sunburst_chip.Base.{
  some, true, List, [], ◌∷◌, ◌++◌, get_or, length, length-append, Bool, false, zero,
}
use sunburst_chip.Bitfield.{field32_read, field32_write, bit32_read}
use sunburst_chip.Mmio.{Bus}
use sunburst_chip.Mmio.Registers.{memory, memory-IsRegisterFile, peek}
use sunburst_chip.Dif.{dif_ok, enabled, disabled, is_valid_toggle}
use sunburst_chip.Uart.{Config, parity_odd, ctrl_reg, intr_enable_reg, configure}
use sunburst_chip.Uart.Configure
use sunburst_chip.Uart.Control.{Holds}
use sunburst_chip.Uart.Configure.{IsValid, requested_nco, configure-Holds}
use sunburst_chip.Uart.Stream.{byte_field, send_loop, bytes_send}
use sunburst_chip.Uart.Stream.Transmit.{IsTransmitter, slice, bytes_send_lem}

abbrev base : ℕ
base = 0x1000

abbrev ones : ℕ → ℕ
ones a = 0xffffffff

-- 115200 baud from 50 MHz, with odd parity.
abbrev slow : Config
slow = record {
  baudrate = 115200;
  clk_freq_hz = 50000000;
  parity_enable = enabled;
  parity = parity_odd;
  tx_enable = enabled;
  rx_enable = disabled;
  rx_break_level = 2;
}

-- The baud rate is too high for the clock.
abbrev fast : Config
fast = record slow { baudrate = 4000000 }

slow-IsValid : IsValid slow
unfolding is_valid_toggle
slow-IsValid = record {
  baud_pos = omega arith;
  baud-lt = omega arith;
  clk_pos = omega arith;
  tx_valid = refl;
  rx_valid = refl;
}

fast-IsValid : IsValid fast
unfolding is_valid_toggle
fast-IsValid = record {
  baud_pos = omega arith;
  baud-lt = omega arith;
  clk_pos = omega arith;
  tx_valid = refl;
  rx_valid = refl;
}

configure-Holds_example :
    let (r, s') = configure memory (some base) slow ones in
    (r ≡ dif_ok)
    × Holds (peek memory (base + ctrl_reg) s') slow 2415
    × (peek memory (base + intr_enable_reg) s' ≡ 0)
configure-Holds_example =
    configure-Holds memory base slow ones (memory-IsRegisterFile (Configure.IsPlain base))
      slow-IsValid (omega arith) (omega arith)

-- The room in a FIFO of four bytes that sends nothing.
abbrev room : List ℕ → ℕ
room s = 4 - length s

abbrev sent : List ℕ → List ℕ
sent s = s

abbrev fifo : Bus (List ℕ)
fifo = record {
  load = λ a s. (if room s == 0 then 1 else 0, s);
  store = λ a v s. s ++ (field32_read v byte_field ∷ []);
}

full_bit : (b : Bool) → bit32_read (if b then 1 else 0) 0 ≡ b
unfolding bit32_read
full_bit true = refl
full_bit false = refl

fifo-IsTransmitter : IsTransmitter fifo base sent room
fifo-IsTransmitter = record {
  full-load = λ s. full_bit (room s == 0);
  sent-load = λ s. refl;
  room-load = λ s. omega arith;
  sent-store = λ v s h. refl;
  room-store = λ v s. omega (arith, length-append s (field32_read v byte_field ∷ []));
}

-- More bytes than the FIFO has room for.
abbrev bytes : List ℕ
bytes = 0x61 ∷ 0x62 ∷ 0x63 ∷ 0x64 ∷ 0xff ∷ []

bytes_small : (i : ℕ) → get_or bytes i 0 < 256
bytes_small zero = omega arith
bytes_small (suc zero) = omega arith
bytes_small (suc (suc zero)) = omega arith
bytes_small (suc (suc (suc zero))) = omega arith
bytes_small (suc (suc (suc (suc zero)))) = omega arith
bytes_small (suc (suc (suc (suc (suc i))))) = omega arith

bytes_send_runs : (bytes_send fifo (some base) (some bytes) 5 []).0 ≡ (dif_ok, some 4)
unfolding bytes_send send_loop bit32_read field32_read field32_write
bytes_send_runs = refl

bytes_send_lem_example :
    let (out, s') = bytes_send fifo (some base) (some bytes) 5 [] in
    (n : ℕ) × (out ≡ (dif_ok, some n))
    × (n ≤ 5)
    × (min 5 (room []) ≤ n)
    × (s' ≡ [] ++ slice bytes 0 n)
bytes_send_lem_example =
    bytes_send_lem fifo base sent room fifo-IsTransmitter bytes bytes_small 5 []
