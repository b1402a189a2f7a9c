-- ===== src/Plic/Laws.antt =====
-- Enabling and disabling sources, and asking which are enabled.
use sunburst_chip.Base.{ℕ, ◌+◌, ◌*◌, ◌/◌, ◌%◌, ◌^◌, ◌≤◌, ◌<◌, ◌≡◌, refl, arith, ◌⊎◌, inl, inr}
use sunburst_chip.Base.{Bool, true, false, if◌then◌else◌, ◌==◌, Option, some, u8, lt→leb}
use sunburst_chip.Bitfield.{bit32_read, bit32_write}
use sunburst_chip.Bitfield.Bit.{bit32_read-write, bit32_write-lt}
use sunburst_chip.Mmio.{Bus}
use sunburst_chip.Mmio.Registers.{IsRegisterFile, peek}
use sunburst_chip.Dif.{DifResult, dif_ok, Toggle, bool_to_toggle}
use sunburst_chip.Plic.{num_src, irq_get_enabled, irq_set_enabled, toggle_flag}

-- The registers that hold what is written: priorities, enables, the threshold and MSIP.
abbrev pub IsPlain : ℕ → ℕ → Type 0
IsPlain base a =
    (base ≤ a) × (a < base + 0x80)
    ⊎ (a ≡ base + 0x2000)
    ⊎ (a ≡ base + 0x200000)
    ⊎ (a ≡ base + 0x4000000)

toggle_flag-bool_to_toggle : (flag : Bool) → toggle_flag (bool_to_toggle flag) ≡ some flag
unfolding toggle_flag bool_to_toggle
toggle_flag-bool_to_toggle true = refl
toggle_flag-bool_to_toggle false = refl

if_some :
    (c a b : Bool)
    → ◌≡◌ {A = DifResult × Option Toggle}
        (dif_ok, some (bool_to_toggle (if c then a else b)))
        (if c then (dif_ok, some (bool_to_toggle a)) else (dif_ok, some (bool_to_toggle b)))
if_some true a b = refl
if_some false a b = refl

module _ {S : Type 0} (bus : Bus S) (base : ℕ) (regs : IsRegisterFile bus (IsPlain base)) where
  abbrev enable_reg : ℕ
  enable_reg = base + 0x2000

  get_eq :
      (irq : ℕ) (s : S)
      → irq < num_src
      → (irq_get_enabled bus (some base) irq 0 s).0
        ≡ (dif_ok, some (bool_to_toggle (bit32_read (peek bus enable_reg s) irq)))
  unfolding irq_get_enabled
  get_eq irq s h =
      let z : 0x2000 + 0 + u8 (irq / 32) * 4 ≡ 0x2000 = omega arith in
      let b : u8 (irq % 32) ≡ irq = omega arith in rw (lt→leb irq 32 h, z, b) refl

  pub set_eq :
      (irq : ℕ) (flag : Bool) (s : S)
      → irq < num_src
      → irq_set_enabled bus (some base) irq 0 (bool_to_toggle flag) s
        ≡ (dif_ok, bus.store enable_reg (bit32_write (peek bus enable_reg s) irq flag) s)
  unfolding irq_set_enabled bool_to_toggle
  set_eq irq flag s h =
      let z : 0x2000 + 0 + u8 (irq / 32) * 4 ≡ 0x2000 = omega arith in
      let b : u8 (irq % 32) ≡ irq = omega arith in
      let k = regs.load_keeps enable_reg s (inr (inl refl)) in
      rw (lt→leb irq 32 h, toggle_flag-bool_to_toggle flag, z, b, k) refl

  -- For target 0, enabling or disabling a source below 32 succeeds and is what reading that source
  -- then gives; every other source below 32 reads as before.
  pub irq_get_enabled-set :
      (irq other : ℕ) (flag : Bool) (s : S)
      → irq < num_src
      → other < num_src
      → let (r, s') = irq_set_enabled bus (some base) irq 0 (bool_to_toggle flag) s in
        (r ≡ dif_ok)
        × ((irq_get_enabled bus (some base) other 0 s').0 ≡ (
            if other == irq
            then (dif_ok, some (bool_to_toggle flag))
            else (irq_get_enabled bus (some base) other 0 s).0))
  irq_get_enabled-set irq other flag s hi ho =
      let w = peek bus enable_reg s in
      let lt = regs.load-lt enable_reg s (inr (inl refl)) in
      let v = bit32_write w irq flag in
      let v_lt : v < 2 ^ 32 = bit32_write-lt w irq flag lt hi in
      let back = regs.load-store enable_reg enable_reg v s (inr (inl refl)) (inr (inl refl)) v_lt in
      let e : peek bus enable_reg (bus.store enable_reg v s) ≡ v = ground arith in
      rw (set_eq irq flag s hi) (
        refl,
        rw
            (
              get_eq other (bus.store enable_reg v s) ho,
              get_eq other s ho,
              e,
              bit32_read-write w irq other flag lt hi,
            )
            (if_some (other == irq) flag (bit32_read w other)),
      )
