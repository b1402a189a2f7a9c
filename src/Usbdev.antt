-- ===== src/Usbdev.antt =====
-- sw/device/lib/dif/dif_usbdev.c, the driver of the USB device: the pool of packet buffers, the
-- FIFOs that are filled from it, endpoints, and packets. Handles and pointers are as in `Plic`.
pub mod Pool
pub mod Fifos
pub mod Endpoint
pub mod Packet
pub mod Buffer
pub mod Status
pub mod Pins
mod Tests
