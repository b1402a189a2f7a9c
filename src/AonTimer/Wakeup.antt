-- ===== src/AonTimer/Wakeup.antt =====
-- Starting and restarting the wakeup timer.
use sunburst_chip.Base.{ℕ, ◌+◌, ◌-◌, ◌*◌, ◌^◌, ◌≤◌, ◌<◌, ◌≡◌, refl, arith, ◌⊎◌, inl, inr, ◌∙◌}
use sunburst_chip.Base.{Bool, true, false, if◌then◌else◌, le→ltb, some, u32, u64, bit_and, ◌>>>◌}
use sunburst_chip.Bits.{bit_and_mask}
use sunburst_chip.Bitfield.{field32_read, field32_write, bit32_read, bit32_write, bit32_to_field32}
use sunburst_chip.Bitfield.Laws.{IsField, field32_read-write, field32_write-lt}
use sunburst_chip.Bitfield.Laws.{field32_read-write-Disjoint}
use sunburst_chip.Bitfield.Bit.{bit32_read-write, bit32_write-lt, Disjoint-of_masks}
use sunburst_chip.Mmio.{Bus}
use sunburst_chip.Mmio.Registers.{IsRegisterFile, peek, peek-store_self, peek-store_ne}
use sunburst_chip.Dif.{dif_ok}
use sunburst_chip.AonTimer.{wkup_ctrl, wkup_thold_hi, wkup_thold_lo, wkup_count_hi, wkup_count_lo}
use sunburst_chip.AonTimer.{prescaler_mask, prescaler_field, wakeup_start, wakeup_is_enabled}

-- The wakeup registers, which hold what is written at the moment of each access.
abbrev pub IsPlain : ℕ → ℕ → Type 0
IsPlain base a =
    (a ≡ base + wkup_ctrl)
    ⊎ (a ≡ base + wkup_thold_hi)
    ⊎ (a ≡ base + wkup_thold_lo)
    ⊎ (a ≡ base + wkup_count_hi)
    ⊎ (a ≡ base + wkup_count_lo)

prescaler_IsField : IsField prescaler_field
prescaler_IsField = omega arith

-- Setting the enable bit leaves the prescaler's field.
prescaler-enable :
    (w : ℕ) (b : Bool)
    → w < 2 ^ 32
    → field32_read (bit32_write w 0 b) prescaler_field ≡ field32_read w prescaler_field
unfolding bit32_write
prescaler-enable w b h =
    field32_read-write-Disjoint w (bit32_to_field32 0) prescaler_field (if b then 1 else 0) h
      (omega arith) (Disjoint-of_masks (bit32_to_field32 0) prescaler_field refl)

module _ {S : Type 0} (bus : Bus S) (base : ℕ) (regs : IsRegisterFile bus (IsPlain base)) where
  at_ctrl : IsPlain base (base + wkup_ctrl)
  at_ctrl = inl refl

  at_hi : IsPlain base (base + wkup_thold_hi)
  at_hi = inr (inl refl)

  at_lo : IsPlain base (base + wkup_thold_lo)
  at_lo = inr (inr (inl refl))

  at_count_hi : IsPlain base (base + wkup_count_hi)
  at_count_hi = inr (inr (inr (inl refl)))

  at_count_lo : IsPlain base (base + wkup_count_lo)
  at_count_lo = inr (inr (inr (inr refl)))

  -- The hardware with the timer stopped and its counter cleared.
  abbrev cleared : S → S
  cleared s =
      let s1 =
        bus.store (base + wkup_ctrl) (bit32_write (peek bus (base + wkup_ctrl) s) 0 false) s in
      bus.store (base + wkup_count_hi) 0 (bus.store (base + wkup_count_lo) 0 s1)

  -- The control word and the threshold's halves that a start writes.
  abbrev control : ℕ → ℕ
  control prescaler = bit32_write (field32_write 0 prescaler_field prescaler) 0 true

  abbrev low_half : ℕ → ℕ
  low_half threshold = u32 (bit_and (u64 (threshold + 2 ^ 64 - 1)) 0xffffffff)

  abbrev high_half : ℕ → ℕ
  high_half threshold = u32 (u64 (threshold + 2 ^ 64 - 1) >>> 32)

  abbrev started : ℕ → ℕ → S → S
  started threshold prescaler s =
      let s1 = bus.store (base + wkup_thold_lo) (low_half threshold) (cleared s) in
      bus.store (base + wkup_ctrl) (control prescaler)
        (bus.store (base + wkup_thold_hi) (high_half threshold) s1)

  start_eq :
      (threshold prescaler : ℕ) (s : S)
      → prescaler ≤ prescaler_mask
      → wakeup_start bus (some base) threshold prescaler s ≡ (dif_ok, started threshold prescaler s)
  unfolding wakeup_start
  start_eq threshold prescaler s h =
      rw (le→ltb prescaler_mask prescaler h, regs.load_keeps (base + wkup_ctrl) s at_ctrl) refl

  control_lem :
      (prescaler : ℕ)
      → prescaler ≤ prescaler_mask
      → (control prescaler < 2 ^ 32)
        × (bit32_read (control prescaler) 0 ≡ true)
        × (field32_read (control prescaler) prescaler_field ≡ prescaler)
  control_lem prescaler h =
      let w = field32_write 0 prescaler_field prescaler in
      let lt : w < 2 ^ 32 =
        field32_write-lt 0 prescaler_field prescaler (omega arith) prescaler_IsField in
      (
        bit32_write-lt w 0 true lt (omega arith),
        bit32_read-write w 0 0 true lt (omega arith),
        prescaler-enable w true lt
            ∙ field32_read-write 0 prescaler_field prescaler (omega arith) prescaler_IsField
            ∙ (let e : bit_and prescaler 0xfff ≡ prescaler =
                  omega (arith, bit_and_mask 12 prescaler) in
                e),
      )

  -- A start with a prescaler that fits its field and a 64-bit threshold above 0 succeeds. It leaves
  -- the timer enabled, its counter at 0, the prescaler as asked for and the threshold one below
  -- what was asked for.
  wakeup_start_lem :
      (threshold prescaler : ℕ) (s : S)
      → 0 < threshold
      → threshold < 2 ^ 64
      → prescaler ≤ prescaler_mask
      → let (r, s') = wakeup_start bus (some base) threshold prescaler s in
        (r ≡ dif_ok)
        × ((wakeup_is_enabled bus (some base) true s').0 ≡ (dif_ok, some true))
        × (field32_read (peek bus (base + wkup_ctrl) s') prescaler_field ≡ prescaler)
        × (peek bus (base + wkup_count_lo) s' ≡ 0)
        × (peek bus (base + wkup_count_hi) s' ≡ 0)
        × (peek bus (base + wkup_thold_hi) s' * 2 ^ 32 + peek bus (base + wkup_thold_lo) s' + 1
            ≡ threshold)
  wakeup_start_lem threshold prescaler s t1 t2 h =
      let (k, on, field) = control_lem prescaler h in
      let s0 =
        bus.store (base + wkup_ctrl) (bit32_write (peek bus (base + wkup_ctrl) s) 0 false) s in
      let s1 = bus.store (base + wkup_count_lo) 0 s0 in
      let s2 = cleared s in
      let s3 = bus.store (base + wkup_thold_lo) (low_half threshold) s2 in
      let s4 = bus.store (base + wkup_thold_hi) (high_half threshold) s3 in
      let s5 = started threshold prescaler s in
      let ctrl : peek bus (base + wkup_ctrl) s5 ≡ control prescaler =
        peek-store_self regs s4 at_ctrl k in
      let hi : peek bus (base + wkup_thold_hi) s5 ≡ high_half threshold =
        peek-store_ne regs s4 at_ctrl at_hi (omega arith) k
        ∙ peek-store_self regs s3 at_hi (omega arith) in
      let lo : peek bus (base + wkup_thold_lo) s5 ≡ low_half threshold =
        peek-store_ne regs s4 at_ctrl at_lo (omega arith) k
        ∙ peek-store_ne regs s3 at_hi at_lo (omega arith) (omega arith)
        ∙ peek-store_self regs s2 at_lo (omega arith) in
      let chi : peek bus (base + wkup_count_hi) s5 ≡ 0 =
        peek-store_ne regs s4 at_ctrl at_count_hi (omega arith) k
        ∙ peek-store_ne regs s3 at_hi at_count_hi (omega arith) (omega arith)
        ∙ peek-store_ne regs s2 at_lo at_count_hi (omega arith) (omega arith)
        ∙ peek-store_self regs s1 at_count_hi (omega arith) in
      let clo : peek bus (base + wkup_count_lo) s5 ≡ 0 =
        peek-store_ne regs s4 at_ctrl at_count_lo (omega arith) k
        ∙ peek-store_ne regs s3 at_hi at_count_lo (omega arith) (omega arith)
        ∙ peek-store_ne regs s2 at_lo at_count_lo (omega arith) (omega arith)
        ∙ peek-store_ne regs s1 at_count_hi at_count_lo (omega arith) (omega arith)
        ∙ peek-store_self regs s0 at_count_lo (omega arith) in
      let mask = bit_and_mask 32 (u64 (threshold + 2 ^ 64 - 1)) in
      rw (start_eq threshold prescaler s h) (
        refl,
        unfold wakeup_is_enabled in rw (ctrl, on) refl,
        rw ctrl field,
        clo,
        chi,
        rw (hi, lo) (omega (arith, mask)),
      )
