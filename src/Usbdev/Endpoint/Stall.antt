-- ===== src/Usbdev/Endpoint/Stall.antt =====
-- Stalling an endpoint, and reading whether it is stalled.
use sunburst_chip.Base.{
  ℕ, ◌+◌, ◌*◌, ◌/◌, ◌<◌, ◌≡◌, refl, arith, ◌⊎◌, inl, inr, Bool, true, false, if◌then◌else◌, ◌==◌,
  lt→ltb, some, Option, Bool-cases,
}
use sunburst_chip.Bitfield.{bit32_read}
use sunburst_chip.Bitfield.Bit.{bit32_read-write, bit32_write-lt}
use sunburst_chip.Mmio.{Bus}
use sunburst_chip.Mmio.Registers.{IsRegisterFile, peek, peek-store_self}
use sunburst_chip.Dif.{DifResult, dif_ok, bool_to_toggle, toggle_to_bool, is_valid_toggle}
use sunburst_chip.Usbdev.Endpoint.{
  EndpointId, by_direction, is_valid_endpoint, endpoint_functionality_enable, endpoint_stall_enable,
  endpoint_stall_get,
}

-- The two registers of stalled endpoints.
abbrev pub IsPlain : ℕ → ℕ → Type 0
IsPlain base a = (a ≡ base + 0x3c) ⊎ (a ≡ base + 0x40)

abbrev pub endpoint_of : ℕ → ℕ → EndpointId
endpoint_of number direction = record { number = number; direction = direction }

pub toggle_valid : (flag : Bool) → is_valid_toggle (bool_to_toggle flag) ≡ true
unfolding is_valid_toggle bool_to_toggle
toggle_valid true = refl
toggle_valid false = refl

pub toggle_flag : (flag : Bool) → toggle_to_bool (bool_to_toggle flag) ≡ flag
unfolding toggle_to_bool bool_to_toggle
toggle_flag true = refl
toggle_flag false = refl

valid_endpoint : (n : ℕ) → n < 12 → is_valid_endpoint n ≡ true
unfolding is_valid_endpoint
valid_endpoint n h = lt→ltb n 12 h

if_some :
    (c a b : Bool)
    → ◌≡◌ {A = DifResult × Option Bool}
        (dif_ok, some (if c then a else b))
        (if c then (dif_ok, some a) else (dif_ok, some b))
if_some true a b = refl
if_some false a b = refl

module _ {S : Type 0} (bus : Bus S) (base : ℕ) (regs : IsRegisterFile bus (IsPlain base)) where
  plain : (n d : ℕ) → IsPlain base (base + by_direction (endpoint_of n d) 0x40 0x3c / 4 * 4)
  plain n d = elim (Bool-cases (d == 1)) [ inl t ↦ rw t (inr refl) | inr t ↦ rw t (inl refl) ]

  -- For endpoints below 12 of one direction, stalling one or not succeeds and is what reading it
  -- then gives; every other one reads as before. The two stall registers hold what is written.
  endpoint_stall_get-enable :
      (n other d : ℕ) (flag : Bool) (s : S)
      → n < 12
      → other < 12
      → let (r, s') =
          endpoint_stall_enable bus (some base) (endpoint_of n d) (bool_to_toggle flag) s in
        (r ≡ dif_ok)
        × ((endpoint_stall_get bus (some base) (endpoint_of other d) true s').0 ≡ (
            if other == n
            then (dif_ok, some flag)
            else (endpoint_stall_get bus (some base) (endpoint_of other d) true s).0))
  unfolding endpoint_stall_enable endpoint_functionality_enable endpoint_stall_get
  endpoint_stall_get-enable n other d flag s h k =
      let a = base + by_direction (endpoint_of n d) 0x40 0x3c / 4 * 4 in
      let w = peek bus a s in
      let lt = regs.load-lt a s (plain n d) in
      let v_lt = bit32_write-lt w n flag lt (omega arith) in
      rw
        (
          valid_endpoint n h,
          valid_endpoint other k,
          toggle_valid flag,
          toggle_flag flag,
          regs.load_keeps a s (plain n d),
        )
        (
          refl,
          rw
              (
                peek-store_self regs {a = a} s (plain n d) v_lt,
                bit32_read-write w n other flag lt (omega arith),
              )
              (if_some (other == n) flag (bit32_read w other)),
        )
