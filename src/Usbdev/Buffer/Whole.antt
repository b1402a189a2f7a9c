-- ===== src/Usbdev/Buffer/Whole.antt =====
-- A whole packet buffer that is written and read back.
use sunburst_chip.Base.{
  ℕ, ◌+◌, ◌-◌, ◌*◌, ◌/◌, ◌%◌, ◌≤◌, ◌<◌, ◌≡◌, refl, arith, false, if◌then◌else◌, some,
}
use sunburst_chip.Mmio.{Bus}
use sunburst_chip.Mmio.Registers.{IsRegisterFile}
use sunburst_chip.Mmio.Transfer.Write.{ArePlain, IsWritten}
use sunburst_chip.Mmio.Transfer.Read.{IsRead}
use sunburst_chip.Memory.{Memory}
use sunburst_chip.Memory.Words.{AreBytes, within}
use sunburst_chip.Dif.{dif_ok}
use sunburst_chip.Usbdev.Buffer.{get_buffer_addr, is_unusable, buffer_raw_write, buffer_raw_read}
use sunburst_chip.Usbdev.Buffer.Store.{padded, write_all_lem}
use sunburst_chip.Usbdev.Buffer.Load.{read_all_lem}

module _ {S : Type 0} (bus : Bus S) (Plain : ℕ → Type 0) (regs : IsRegisterFile bus Plain)
    (base : ℕ) (packets : ArePlain bus Plain regs base 0x800 0x1000) where
  pub buffer_raw_write_lem :
      (id src len : ℕ) (mem : Memory) (s : S)
      → AreBytes mem
      → id < 32
      → is_unusable src len ≡ false
      → len ≤ 64
      → let (result, s') = buffer_raw_write bus (some base) id src len mem s in
        (result ≡ dif_ok)
        × IsWritten bus Plain regs base
            (get_buffer_addr id 0)
            src
            (padded (src + len) mem)
            0
            ((len + 3) / 4 * 4)
            s
            s'
  unfolding buffer_raw_write
  buffer_raw_write_lem id src len mem s h i u le =
      let e : len / 16 * 16 + len % 16 / 4 * 4 + len % 4 ≡ len = omega arith in
      let f : len / 16 * 16 + len % 16 / 4 * 4 + (len % 4 + 3) / 4 * 4 ≡ (len + 3) / 4 * 4 =
        omega arith in
      rw u (
        refl,
        rw (e, f) at
            (write_all_lem bus Plain regs base (get_buffer_addr id 0) src (len / 16) (len % 16 / 4)
              (len % 4) mem s h (omega arith) (omega arith)
              (λ o x y. packets o (omega arith) (omega arith))),
      )

  pub buffer_raw_read_lem :
      (id dst len : ℕ) (mem : Memory) (s : S)
      → id < 32
      → is_unusable dst len ≡ false
      → len ≤ 64
      → let ((result, mem'), s') = buffer_raw_read bus (some base) id dst len mem s in
        (result ≡ dif_ok)
        × (s' ≡ s)
        × IsRead bus Plain regs base (get_buffer_addr id 0) dst s 0 len mem mem'
  unfolding buffer_raw_read
  buffer_raw_read_lem id dst len mem s i u le =
      let e : len / 16 * 16 + len % 16 / 4 * 4 + len % 4 ≡ len = omega arith in
      let (keeps, read) =
        read_all_lem bus Plain regs base (get_buffer_addr id 0) dst (len / 16) (len % 16 / 4)
          (len % 4) mem s (omega arith) (omega arith)
          (λ o x y. packets o (omega arith) (omega arith)) in
      rw u (refl, keeps, rw e at read)

  -- What is written to one of the 32 packet buffers as a whole, from a word-aligned address and at
  -- most 64 bytes, reads back: reading no more bytes of it to another such address puts them there
  -- and changes nothing else in main memory. Both calls succeed. The words of the packet memory
  -- hold what is written.
  pub buffer_raw_read-write :
      (id src len dst n : ℕ) (mem : Memory) (s : S)
      → AreBytes mem
      → id < 32
      → is_unusable src len ≡ false
      → is_unusable dst n ≡ false
      → n ≤ len
      → let (result, s1) = buffer_raw_write bus (some base) id src len mem s in
        let ((result', mem'), s2) = buffer_raw_read bus (some base) id dst n mem s1 in
        (result ≡ dif_ok)
        × (result' ≡ dif_ok)
        × (s2 ≡ s1)
        × ((y : ℕ) → mem' y ≡ (if within dst 0 n y then mem (src + (y - dst)) else mem y))
  buffer_raw_read-write id src len dst n mem s h i u v le =
      let l : len ≤ 64 = ground arith in
      let s1 = (buffer_raw_write bus (some base) id src len mem s).1 in
      let (ok, written) = buffer_raw_write_lem id src len mem s h i u l in
      let (ok', keeps, read) = buffer_raw_read_lem id dst n mem s1 i v (omega arith) in
      (
        ok,
        ok',
        keeps,
        λ y.
            let o = get_buffer_addr id 0 + (y - dst) in
            let at = λ (q : y - dst < n). written o (packets o (omega arith) (omega arith)) in
            let back : src + (o - get_buffer_addr id 0) ≡ src + (y - dst) = omega arith in
            ground (arith, read y, rw back at at),
      )
