-- ===== src/Usbdev/Tests.antt =====
-- The USB device: the pool, endpoints and packets on a memory, and the FIFOs of a device that notes
-- the buffers that it took.
use sunburst_chip.Base.{ℕ, ◌≡◌, refl, arith, true, some, List, [], ◌∷◌, leb, if◌then◌else◌}
use sunburst_chip.Base.{false, pos}
use sunburst_chip.Bitfield.{field32_read, bit32_read}
use sunburst_chip.Bits.{bit_and_mask}
use sunburst_chip.Mmio.{Bus}
use sunburst_chip.Mmio.Registers.{memory, memory-IsRegisterFile, peek}
use sunburst_chip.Dif.{dif_ok}
use sunburst_chip.Usbdev.Packet.{
  Buffer, type_write, stale, buffer_request, buffer_return, send, get_tx_status, pending,
  size_field,
}
use sunburst_chip.Usbdev.Packet.Lifecycle
use sunburst_chip.Usbdev.Packet.Lifecycle.{IsReturned, buffer_return-request, get_tx_status-send}
use sunburst_chip.Usbdev.Pool.{BufferPool, add, remove, init}
use sunburst_chip.Usbdev.Pool.Stack.{
  IsValid, contents, countdown, push, pop, add_refines, remove_refines, init_lem,
}
use sunburst_chip.Usbdev.Fifos.{buffer_field, av_setup_depth_field, fill_available_fifos}
use sunburst_chip.Usbdev.Fifos.Conservation.{
  IsReceiver, IsDone, hand_over, fill_available_fifos_lem,
}
use sunburst_chip.Base.{◌+◌, ◌-◌, ◌*◌, ◌/◌, ◌<◌, ◌%◌, ◌^◌, ◌==◌, min}
use sunburst_chip.Memory.{Memory}
use sunburst_chip.Memory.Words.{AreBytes, within}
use sunburst_chip.Mmio.Registers.{IsRegisterFile}
use sunburst_chip.Mmio.Transfer.Read.{IsRead}
use sunburst_chip.Usbdev.Packet.{type_read}
use sunburst_chip.Usbdev.Buffer.{
  get_buffer_addr, advanced, buffer_read, buffer_write, buffer_raw_read, buffer_raw_write,
}
use sunburst_chip.Usbdev.Buffer.Parts.{HoldsBoth, buffer_write_twice, buffer_read_lem}
use sunburst_chip.Usbdev.Buffer.Whole.{buffer_raw_read-write}
use sunburst_chip.Usbdev.Pins.{PhyPinsDrive}

abbrev eight : List ℕ
eight = 0 ∷ 0 ∷ 0 ∷ 0 ∷ 0 ∷ 0 ∷ 0 ∷ 0 ∷ []

abbrev storage : List ℕ
storage =
    7 ∷ 9 ∷ 31 ∷ 3 ∷ 0 ∷ 0 ∷ 0 ∷ 0 ∷ 0 ∷ 0 ∷ 0 ∷ 0 ∷ 0 ∷ 0 ∷ 0 ∷ 0 ∷ 0 ∷ 0 ∷ 0 ∷ 0 ∷ 0 ∷ 0 ∷ 0 ∷ 0
    ∷ 0 ∷ 0 ∷ 0 ∷ 0 ∷ 0 ∷ 0 ∷ 0 ∷ 0 ∷ []

-- Four buffers, 3 on top.
abbrev four : BufferPool
four = record { buffers = storage; top = pos 3 }

four-IsValid : IsValid four
four-IsValid = record { room = refl; in_range = omega arith }

add_refines_example :
    let (added, pool) = add four 12 in
    ((added, contents pool) ≡ push (contents four) 12) × IsValid pool
add_refines_example = add_refines four 12 four-IsValid

remove_refines_example :
    let (id, pool) = remove four in ((id, contents pool) ≡ pop (contents four)) × IsValid pool
remove_refines_example = remove_refines four four-IsValid

init_lem_example :
    let (ok, pool) = init four in (ok ≡ true) × IsValid pool × (contents pool ≡ countdown 32)
init_lem_example = init_lem four refl

-- A device with a FIFO of four buffers for SETUP and one of eight for OUT; a buffer that is stored to
-- a full one is lost.
record Device : Type 0 where
  setup : ℕ
  out : ℕ
  taken : List ℕ

abbrev usbstat : Device → ℕ
usbstat s = min s.setup 4 * 2 ^ 20 + (if leb 8 s.out then 2 ^ 23 else 0)

abbrev take_out : ℕ → Device → Device
take_out v s =
    if leb 8 s.out
    then s
    else record { setup = s.setup; out = s.out + 1; taken = field32_read v buffer_field ∷ s.taken }

abbrev take_setup : ℕ → Device → Device
take_setup v s =
    if leb 4 s.setup
    then s
    else record { setup = s.setup + 1; out = s.out; taken = field32_read v buffer_field ∷ s.taken }

abbrev device : Bus Device
device = record {
  load = λ a s. (usbstat s, s);
  store = λ a v s. if a == 0x1020 then take_out v s else take_setup v s;
}

out_has_room : (s : Device) → bit32_read (usbstat s) 23 ≡ false → leb 8 s.out ≡ false
unfolding bit32_read field32_read
out_has_room s h = ground (arith, bit_and_mask 1 (usbstat s / 2 ^ 23), h)

setup_has_room :
    (s : Device) → field32_read (usbstat s) av_setup_depth_field < 4 → leb 4 s.setup ≡ false
unfolding field32_read
setup_has_room s h = ground (arith, bit_and_mask 3 (usbstat s / 2 ^ 20), h)

abbrev given : Device → List ℕ
given s = s.taken

device-IsReceiver : IsReceiver device 0x1000 given
device-IsReceiver = record {
  given-load = λ s. refl;
  given-store_out = λ v s h. rw (out_has_room s h) refl;
  given-store_setup = λ v s h. rw (setup_has_room s h) refl;
}

-- One buffer is there for SETUP, and six for OUT.
abbrev partly_filled : Device
partly_filled = record { setup = 1; out = 6; taken = [] }

fill_available_fifos_lem_example :
    let (out, s') = fill_available_fifos device (some 0x1000) (some four) partly_filled in
    (left : BufferPool) × (out ≡ some (dif_ok, some left))
    × IsValid left
    × (hand_over (contents left) s'.taken ≡ hand_over (contents four) [])
    × IsDone device 0x1000 given device-IsReceiver left s'
fill_available_fifos_lem_example =
    fill_available_fifos_lem device 0x1000 given device-IsReceiver four partly_filled four-IsValid

abbrev ones : ℕ → ℕ
ones a = 0xffffffff

buffer_return-request_example :
    (taken : BufferPool) × (buffer : Buffer) × (buffer_request four ≡ (dif_ok, taken, some buffer))
    × (contents taken ≡ 31 ∷ 9 ∷ 7 ∷ [])
    × IsReturned (contents four) (buffer_return taken buffer)
buffer_return-request_example =
    buffer_return-request four 3 (31 ∷ 9 ∷ 7 ∷ []) four-IsValid refl (omega arith)

-- A buffer with 18 bytes to send.
abbrev packet : Buffer
packet = record { id = 9; offset = 18; remaining_bytes = 46; type = type_write }

get_tx_status-send_example :
    let (out, s') = send memory (some 0x1000) 2 packet ones in
    let config_in = peek memory 0x104c s' in
    (out ≡ (dif_ok, stale packet))
    × (field32_read config_in buffer_field ≡ 9)
    × (field32_read config_in size_field ≡ 18)
    × ((get_tx_status memory (some 0x1000) 2 true s').0 ≡ (dif_ok, some pending))
get_tx_status-send_example =
    get_tx_status-send memory 0x1000 2 (memory-IsRegisterFile (Lifecycle.IsPlain 0x1000 2)) packet
      ones (omega arith) refl (omega arith) (omega arith)

-- Main memory, whose bytes count up.
abbrev counting : Memory
counting a = a % 2 ^ 8

counting-AreBytes : AreBytes counting
counting-AreBytes a = omega arith

abbrev All : ℕ → Type 0
All a = a ≡ a

abbrev all : IsRegisterFile memory All
all = memory-IsRegisterFile All

buffer_write_twice_example :
    let (((result, buffer1), count, mem1), s1) =
      buffer_write memory (some 0x1000) packet 0x2001 7 true counting ones in
    let (((result', buffer2), count', mem2), s2) =
      buffer_write memory (some 0x1000) buffer1 0x3002 30 true mem1 s1 in
    (result ≡ dif_ok)
    × (result' ≡ dif_ok)
    × (buffer2.offset ≡ 55)
    × (buffer2.remaining_bytes + 37 ≡ 46)
    × (mem2 ≡ counting)
    × HoldsBoth memory All all 0x1000
        (λ o x y. refl)
        (get_buffer_addr 9 18)
        0x2001
        7
        0x3002
        30
        counting
        ones
        s2
buffer_write_twice_example =
    buffer_write_twice memory All all 0x1000 (λ o x y. refl) packet 0x2001 7 0x3002 30 true counting
      ones counting-AreBytes (omega arith, omega arith) refl (omega arith) (omega arith)
      (omega arith)

-- A buffer with 46 bytes to read.
abbrev arrived : Buffer
arrived = record { id = 9; offset = 18; remaining_bytes = 46; type = type_read }

buffer_read_lem_example :
    let (((result, pool', buffer'), count, mem'), s') =
      buffer_read memory (some 0x1000) four arrived 0x2001 64 true counting ones in
    (result ≡ dif_ok)
    × IsValid pool'
    × (buffer' ≡ stale (advanced arrived 46))
    × (contents pool' ≡ 9 ∷ contents four)
    × (count ≡ some 46)
    × (s' ≡ ones)
    × IsRead memory All all 0x1000 (get_buffer_addr 9 18) 0x2001 ones 0 46 counting mem'
buffer_read_lem_example =
    buffer_read_lem memory All all 0x1000 (λ o x y. refl) four arrived 0x2001 64 true counting ones
      (omega arith, omega arith) refl (omega arith) four-IsValid (omega arith)

buffer_raw_read-write_example :
    let (result, s1) = buffer_raw_write memory (some 0x1000) 9 0x2000 39 counting ones in
    let ((result', mem'), s2) = buffer_raw_read memory (some 0x1000) 9 0x3000 39 counting s1 in
    (result ≡ dif_ok)
    × (result' ≡ dif_ok)
    × (s2 ≡ s1)
    × ((y : ℕ)
        → mem' y ≡ (if within 0x3000 0 39 y then counting (0x2000 + (y - 0x3000)) else counting y))
buffer_raw_read-write_example =
    buffer_raw_read-write memory All all 0x1000 (λ o x y. refl) 9 0x2000 39 0x3000 39 counting ones
      counting-AreBytes (omega arith) refl refl (omega arith)

abbrev pulled_up : PhyPinsDrive
pulled_up = record {
  dp = true;
  dn = false;
  data_ = true;
  se0 = false;
  output_enable = false;
  diff_receiver_enable = true;
  dp_pullup_en = true;
  dn_pullup_en = false;
}
