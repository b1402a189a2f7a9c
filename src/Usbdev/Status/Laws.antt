-- ===== src/Usbdev/Status/Laws.antt =====
-- The address, the link's state and the toggles.
use sunburst_chip.Base.{
  ℕ, zero, suc, ◌+◌, ◌*◌, ◌/◌, ◌%◌, ◌^◌, ◌<◌, ◌≡◌, ◌≢◌, refl, arith, ◌∙◌, true, Option, none, some,
  bit_and, u8, u32, ◌<<<◌,
}
use native.Mathlib.Nat.{pow-suc}
use sunburst_chip.Bits.{bit_and_mask, bit_or_comm, zero-bit_or}
use sunburst_chip.Bitfield.{field32_read, field32_write, bit32_read, bit32_write, bit32_to_field32}
use sunburst_chip.Bitfield.Laws.{
  field32_read-write, field32_read-write-Disjoint, field32_write-lt, field32_write_bits,
}
use sunburst_chip.Bitfield.Bit.{Disjoint-of_masks, bit32_read_lem, bit32_read-write, bit32_write-lt}
use sunburst_chip.Mmio.{Bus}
use sunburst_chip.Mmio.Registers.{IsRegisterFile, peek, peek-store_self}
use sunburst_chip.Dif.{DifResult, dif_ok, dif_error}
use sunburst_chip.Usbdev.Status.{
  LinkState, disconnected, powered, powered_suspended, active, suspended, active_no_sof, resuming,
  link_state_of, usbctrl_reg, device_address_field, link_state_field, read_out, address_set,
  address_get, data_toggle_out_write, data_toggle_in_write, clear_data_toggle,
  status_get_link_state, resume_link_to_active, toggles_of,
}
use sunburst_chip.Usbdev.Fifos.{usbstat_reg}

-- The code of a state in the status register.
abbrev pub link_code : LinkState → ℕ
link_code disconnected = 0
link_code powered = 1
link_code powered_suspended = 2
link_code active = 3
link_code suspended = 4
link_code active_no_sof = 5
link_code resuming = 6

-- The code reads as the state that has it, and as an error if none has.
abbrev pub IsDecoded : ℕ → DifResult × Option LinkState → Type 0
IsDecoded val (r, none) = (r ≡ dif_error) × ((st : LinkState) → link_code st ≢ val)
IsDecoded val (r, some st) = (r ≡ dif_ok) × (link_code st ≡ val)

code-lt : (st : LinkState) → link_code st < 7
code-lt disconnected = omega arith
code-lt powered = omega arith
code-lt powered_suspended = omega arith
code-lt active = omega arith
code-lt suspended = omega arith
code-lt active_no_sof = omega arith
code-lt resuming = omega arith

link_state_lem : (val : ℕ) → IsDecoded val (link_state_of val)
unfolding link_state_of
link_state_lem zero = (refl, refl)
link_state_lem (suc zero) = (refl, refl)
link_state_lem (suc (suc zero)) = (refl, refl)
link_state_lem (suc (suc (suc zero))) = (refl, refl)
link_state_lem (suc (suc (suc (suc zero)))) = (refl, refl)
link_state_lem (suc (suc (suc (suc (suc zero))))) = (refl, refl)
link_state_lem (suc (suc (suc (suc (suc (suc zero)))))) = (refl, refl)
link_state_lem (suc (suc (suc (suc (suc (suc (suc n))))))) =
    let v = suc (suc (suc (suc (suc (suc (suc n)))))) in
    let e : ◌≡◌ {A = DifResult × Option LinkState} (link_state_of v) (dif_error, none) =
      ground arith in
    rw e (refl, λ st f. absurd (omega (arith, code-lt st)))

two_pow_add : (m : ℕ) → 2 ^ (m + 16) ≡ 2 ^ m * 2 ^ 16
two_pow_add zero = refl
two_pow_add (suc m) =
    let e : suc m + 16 ≡ suc (m + 16) = omega arith in
    rw (e, pow-suc 2 (m + 16), pow-suc 2 m) (omega (arith, two_pow_add m))

address_resume :
    (v : ℕ)
    → v < 2 ^ 32
    → field32_read (bit32_write v 1 true) device_address_field ≡ field32_read v device_address_field
unfolding bit32_write
address_resume v h =
    field32_read-write-Disjoint v (bit32_to_field32 1) device_address_field 1 h (omega arith)
      (Disjoint-of_masks (bit32_to_field32 1) device_address_field refl)

enable_kept :
    (w addr : ℕ)
    → w < 2 ^ 32
    → bit32_read (field32_write w device_address_field addr) 0 ≡ bit32_read w 0
enable_kept w addr h = ground (
  arith,
  bit32_read_lem (field32_write w device_address_field addr) 0,
  bit32_read_lem w 0,
  field32_write_bits w device_address_field addr 0 h (omega arith),
)

module _ {S : Type 0} (bus : Bus S) (base : ℕ) where
  -- The state of the link that is read is the one whose code the status register shows; a code that
  -- no state has is an error.
  status_get_link_state_lem :
      (s : S)
      → IsDecoded
          (field32_read (peek bus (base + usbstat_reg / 4 * 4) s) link_state_field)
          (status_get_link_state bus (some base) true s).0
  unfolding status_get_link_state
  status_get_link_state_lem s = link_state_lem _

  -- Clearing the toggle of an endpoint below 16 writes what moving the toggle of that endpoint alone
  -- to 0 writes, for OUT and then for IN.
  clear_data_toggle_lem :
      (endpoint : ℕ) (s : S)
      → endpoint < 16
      → let (r, s1) = data_toggle_out_write bus (some base) (2 ^ endpoint) 0 s in
        let (r', s2) = data_toggle_in_write bus (some base) (2 ^ endpoint) 0 s1 in
        clear_data_toggle bus (some base) endpoint s ≡ (r', s2)
  unfolding data_toggle_out_write data_toggle_in_write clear_data_toggle
  clear_data_toggle_lem endpoint s h =
      let t = two_pow_add endpoint in
      let z =
        bit_or_comm (u32 ((2 ^ endpoint) <<< 16)) 0 ∙ zero-bit_or (u32 ((2 ^ endpoint) <<< 16)) in
      let e : u32 (1 <<< (endpoint + 16)) ≡ toggles_of (2 ^ endpoint) 0 = rw (z, t) (omega arith) in
      rw e refl

  module _ (regs : IsRegisterFile bus (λ a. a ≡ base + usbctrl_reg / 4 * 4)) where
    -- Setting the address succeeds and the low seven bits of it read back, also after the link was
    -- made to resume; whether the interface is enabled stays as it was. The control register holds
    -- what is written.
    address_get-set :
        (addr : ℕ) (s : S)
        → let (r, s1) = address_set bus (some base) addr s in
          let (r', s2) = resume_link_to_active bus (some base) s1 in
          (r ≡ dif_ok)
          × ((address_get bus (some base) true s1).0 ≡ (dif_ok, some (addr % 2 ^ 7)))
          × (r' ≡ dif_ok)
          × ((address_get bus (some base) true s2).0 ≡ (dif_ok, some (addr % 2 ^ 7)))
          × (bit32_read (peek bus (base + usbctrl_reg / 4 * 4) s2) 0
              ≡ bit32_read (peek bus (base + usbctrl_reg / 4 * 4) s) 0)
    unfolding address_set address_get read_out resume_link_to_active
    address_get-set addr s =
        let a = base + usbctrl_reg / 4 * 4 in
        let f = device_address_field in
        let w = peek bus a s in
        let v1 = field32_write w f addr in
        let v2 = bit32_write v1 1 true in
        let s1 = bus.store a v1 s in
        let w-lt = regs.load-lt a s refl in
        let v1-lt = field32_write-lt w f addr w-lt (omega arith) in
        let v2-lt = bit32_write-lt v1 1 true v1-lt (omega arith) in
        let low : u8 (bit_and addr 0x7f) ≡ addr % 2 ^ 7 = omega (arith, bit_and_mask 7 addr) in
        let r1 : field32_read v1 f ≡ bit_and addr 0x7f =
          field32_read-write w f addr w-lt (omega arith) in
        let r2 : field32_read v2 f ≡ bit_and addr 0x7f = address_resume v1 v1-lt ∙ r1 in
        let b2 : bit32_read v2 0 ≡ bit32_read w 0 =
          bit32_read-write v1 1 0 true v1-lt (omega arith) ∙ enable_kept w addr w-lt in
        let p1 : peek bus a s1 ≡ v1 = peek-store_self regs {v = v1} s refl v1-lt in
        let p2 : peek bus a (bus.store a v2 s1) ≡ v2 =
          peek-store_self regs {v = v2} s1 refl v2-lt in
        rw (regs.load_keeps a s refl, regs.load_keeps a s1 refl, p1, p2, r1, r2, low)
          (refl, refl, refl, refl, b2)
