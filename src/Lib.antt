-- ===== src/Lib.antt =====
-- The device software of the Sunburst chip: the drivers that run on it and what they are built on.
--
-- The program is a library of C functions, one file per hardware block, that access memory-mapped
-- registers. Modelled are
--   * Bitfield.antt: sw/device/lib/base/bitfield.h, fields and bits of 32-bit words;
--   * Memory.antt: sw/device/lib/base/memory.c, copying, filling, comparing and searching by words;
--   * Math.antt: sw/device/lib/base/math.c and math.h, division without a 64-bit divider;
--   * Crc32.antt: sw/device/lib/base/crc32.c, the CRC-32 of a buffer, without the instruction-set
--     extension;
--   * Mmio.antt: sw/device/lib/base/mmio.h, register accesses (`mmio_region_*`), and
--     Mmio/Transfer.antt: mmio.c, copies between registers and main memory;
--   * Dif.antt: sw/device/lib/dif/dif_base.h, results and toggles;
--   * Plic.antt: sw/device/lib/dif/dif_rv_plic.c, the interrupt controller;
--   * AonTimer.antt: sw/device/lib/dif/dif_aon_timer.c, wakeup timer and watchdog;
--   * RvTimer.antt: sw/device/lib/dif/dif_rv_timer.c, the machine timer;
--   * Uart.antt and Uart/Stream.antt: sw/device/lib/dif/dif_uart.c, the serial port;
--   * Usbdev.antt: sw/device/lib/dif/dif_usbdev.c, the pool of packet buffers, the filling of the
--     FIFOs from it, endpoints, packets and what is in their buffers, status and pins;
--   * I2c.antt with its children Control and Fifos: sw/device/lib/dif/dif_i2c.c, the I2C controller;
--   * Gpio.antt: sw/device/lib/dif/dif_gpio.c, the general-purpose pins;
--   * SpiHost.antt: sw/device/lib/dif/dif_spi_host.c, the SPI host, with its children Fifos and
--     Transaction;
--   * Status.antt: sw/device/lib/base/status.c and status.h, status words;
--   * Print.antt: sw/device/lib/runtime/print.c, formatted printing, with its children Format (the
--     format strings), Capture (base_snprintf), Hexdump and Stdout;
--   * Ujson.antt: sw/device/lib/ujson/ujson.c, with its halves Ujson/Read.antt and Ujson/Write.antt,
--     JSON values on a pair of functions that get a character and put a buffer.
-- Base.antt and Bits.antt are shared: names of the libraries, C's tests and shifts, and the laws of
-- the bits of a number. A file's children hold what is proved about it, its Tests the runs at chosen
-- inputs.
--
-- How the code is represented. A function keeps its name without the prefix of its file
-- (`dif_rv_plic_irq_claim` is `Plic.irq_claim`). Numbers are natural numbers, and each place where C
-- wraps has its `% 2 ^ w`. The hardware is a parameter: a `Bus` on a state of any type, with a load
-- that may change the state, too, and a store; a function passes that state through each of its
-- accesses, in the order of the code. What is relied on of the hardware is a record that a theorem
-- takes: `IsRegisterFile` for registers that hold what is written (only those that `IsPlain` names
-- for the block), `IsCounter` for a running 64-bit counter behind two registers, `IsComparator` for
-- a comparator whose counter runs on between the stores, `IsTransmitter` for a FIFO that sends while
-- it is filled, `IsReceiver` for the FIFOs of packet buffers, which may lose what is stored while they
-- are full, `IsMasked` for registers that write the pins of a mask, `IsTxFifo` for a FIFO that is full
-- for some polls and may lose what is stored meanwhile; of the functions of a JSON channel `IsSource`
-- and `IsTarget`. Each has an instance in a Tests module.
-- A handle is `none` for NULL or the base address. A pointer that receives a result is a part of the
-- result; a Boolean tells where it may be NULL.
--
-- Loops whose number of rounds is known are structural recursion on the rounds left. The others take
-- fuel, and `none` says that it ran out: `euclidean_gcd` needs one round more than its second
-- argument, `counter_read` two rounds while the counter advances by less than 2 ^ 32 over them,
-- `fill_available_fifos` 33 rounds as the pool holds at most 32 buffers. The polling loops of the
-- serial port, of the I2C controller and of the SPI host end when the hardware says so; only for
-- sending by the SPI host is their number of rounds bounded by the hardware's. The loops of a hex
-- dump end where the sink goes on writing, and formatting takes as many rounds as the format has
-- characters at most. Reading JSON takes one round more than there are characters to read.
--
-- A printing function is the list of the calls that it makes of its sink, as it only adds up what
-- they return. A sink is any function of the bytes that may change a state and returns a number. The
-- variable arguments are a list of words and pointers; want of one is `none`, the undefined case.
--
-- Main memory is a function from addresses to bytes where a routine copies or compares buffers
-- (`Memory`), and a list of bytes where one only walks over a buffer. The library's `memcpy` copies
-- nothing from or to NULL, and so do the routines that call it.
--
-- Not modelled: in dif_base.h the conversions to multi-bit encodings; in mmio.h all but 32-bit
-- accesses and the operations on fields and bits; in memory.h the 64-bit accesses. Not modelled at
-- all: the other drivers, the wrappers of the JSON routines that differ in a width only, the macros
-- on status words; generated code, assembly, test programs and hardware. `size_t` and pointers are
-- taken at 32 bits.
pub mod Base
pub mod Bits
pub mod Bitfield
pub mod Math
pub mod Memory
pub mod I2c
pub mod Gpio
pub mod Status
pub mod Print
pub mod Ujson
pub mod SpiHost
pub mod Crc32
pub mod Mmio
pub mod Dif
pub mod Plic
pub mod AonTimer
pub mod RvTimer
pub mod Usbdev
pub mod Uart
