-- ===== src/Plic/Settings.antt =====
-- What the calls that set something mean: requests on the settings of the controller.
use sunburst_chip.Base.{
  ℕ, ◌+◌, ◌*◌, ◌/◌, ◌^◌, ◌<◌, ◌≡◌, ◌⊎◌, inl, inr, refl, arith, Bool, true, false, Bool-cases, ◌&&◌,
  if◌then◌else◌, ◌==◌, ltb, lt→leb, some,
}
use sunburst_chip.Bitfield.{bit32_read, bit32_write}
use sunburst_chip.Bitfield.Bit.{bit32_read-write, bit32_write-lt}
use sunburst_chip.Mmio.{Bus, M}
use sunburst_chip.Mmio.Registers.{IsRegisterFile, peek}
use sunburst_chip.Dif.{
  DifResult, dif_ok, bad_arg, Toggle, enabled, disabled, other_toggle, is_valid_toggle,
  toggle_to_bool, bool_to_toggle,
}
use sunburst_chip.Plic.{
  irq_set_enabled, irq_set_priority, target_set_threshold, software_irq_force,
  software_irq_acknowledge, toggle_flag,
}
use sunburst_chip.Plic.Laws.{IsPlain, set_eq}

is_valid_toggle-bool_to_toggle : (flag : Bool) → is_valid_toggle (bool_to_toggle flag) ≡ true
unfolding is_valid_toggle bool_to_toggle
is_valid_toggle-bool_to_toggle true = refl
is_valid_toggle-bool_to_toggle false = refl

toggle_to_bool-bool_to_toggle : (flag : Bool) → toggle_to_bool (bool_to_toggle flag) ≡ flag
unfolding toggle_to_bool bool_to_toggle
toggle_to_bool-bool_to_toggle true = refl
toggle_to_bool-bool_to_toggle false = refl

-- What is set: priorities and enables by source, and the threshold and the software interrupt of the
-- only target.
pub record Settings : Type 0 where
  pub priority : ℕ → ℕ
  pub is_enabled : ℕ → Bool
  pub threshold : ℕ
  pub software : ℕ

pub data Request : Type 0 where
  set_enabled : ℕ → ℕ → Toggle → Request
  set_priority set_threshold : ℕ → ℕ → Request
  force acknowledge : ℕ → Request

-- There are 32 sources, one target, and four priorities.
abbrev pub is_accepted : Request → Bool
is_accepted (set_enabled irq target state) = ltb irq 32 && target == 0 && is_valid_toggle state
is_accepted (set_priority irq n) = ltb irq 32 && ltb n 4
is_accepted (set_threshold target n) = target == 0 && ltb n 4
is_accepted (force target) = target == 0
is_accepted (acknowledge target) = target == 0

abbrev pub applied : Request → Settings → Settings
applied (set_enabled irq target state) v = record v {
  is_enabled = λ i. if i == irq then toggle_to_bool state else v.is_enabled i;
}
applied (set_priority irq n) v = record v { priority = λ i. if i == irq then n else v.priority i }
applied (set_threshold target n) v = record v { threshold = n }
applied (force target) v = record v { software = 1 }
applied (acknowledge target) v = record v { software = 0 }

-- The settings of the 32 sources and of the target are the same.
pub record Agree (v w : Settings) : Type 0 where
  pub priorities : (i : ℕ) → i < 32 → v.priority i ≡ w.priority i
  pub enables : (i : ℕ) → i < 32 → v.is_enabled i ≡ w.is_enabled i
  pub thresholds : v.threshold ≡ w.threshold
  pub softwares : v.software ≡ w.software

module _ {S : Type 0} (bus : Bus S) (base : ℕ) where
  abbrev pub perform : Request → M S DifResult
  perform (set_enabled irq target state) = irq_set_enabled bus (some base) irq target state
  perform (set_priority irq n) = irq_set_priority bus (some base) irq n
  perform (set_threshold target n) = target_set_threshold bus (some base) target n
  perform (force target) = software_irq_force bus (some base) target
  perform (acknowledge target) = software_irq_acknowledge bus (some base) target

  -- What the registers say.
  abbrev pub settings : S → Settings
  settings s = record {
    priority = λ i. peek bus (base + i * 4) s;
    is_enabled = λ i. bit32_read (peek bus (base + 0x2000) s) i;
    threshold = peek bus (base + 0x200000) s;
    software = peek bus (base + 0x4000000) s;
  }

  -- `out` is what the request asks for.
  abbrev pub Implements : Request → S → DifResult × S → Type 0
  Implements r s out =
      (is_accepted r ≡ true) × (out.0 ≡ dif_ok) × Agree (settings out.1) (applied r (settings s))
      ⊎ (is_accepted r ≡ false) × (out ≡ (bad_arg, s))

module _ {S : Type 0} (bus : Bus S) (base : ℕ) (regs : IsRegisterFile bus (IsPlain base)) where
  -- Storing to a register leaves the others.
  stored_priority :
      (irq n : ℕ) (s : S)
      → irq < 32
      → n < 4
      → Agree
          (settings bus base (bus.store (base + irq * 4) n s))
          (applied (set_priority irq n) (settings bus base s))
  stored_priority irq n s h k =
      let a = base + irq * 4 in
      let p : IsPlain base a = inl (omega arith, omega arith) in
      let at = λ (c : ℕ) (q : IsPlain base c). regs.load-store a c n s p q (omega arith) in
      let e = at (base + 0x2000) (inr (inl refl)) in
      let kept : peek bus (base + 0x2000) (bus.store a n s) ≡ peek bus (base + 0x2000) s =
        ground (arith, e) in
      record {
        priorities = λ i l. ground (arith, at (base + i * 4) (inl (omega arith, omega arith)));
        enables = λ i l. rw kept refl;
        thresholds = ground (arith, at (base + 0x200000) (inr (inr (inl refl))));
        softwares = ground (arith, at (base + 0x4000000) (inr (inr (inr refl))));
      }

  stored_enables :
      (irq target : ℕ) (state : Toggle) (flag : Bool) (s : S)
      → irq < 32
      → toggle_to_bool state ≡ flag
      → Agree
          (settings bus base
            (bus.store (base + 0x2000) (bit32_write (peek bus (base + 0x2000) s) irq flag) s))
          (applied (set_enabled irq target state) (settings bus base s))
  stored_enables irq target state flag s h same =
      let a = base + 0x2000 in
      let w = peek bus a s in
      let v = bit32_write w irq flag in
      let p : IsPlain base a = inr (inl refl) in
      let lt = regs.load-lt a s p in
      let small : v < 2 ^ 32 = bit32_write-lt w irq flag lt h in
      let at = λ (c : ℕ) (q : IsPlain base c). regs.load-store a c v s p q small in
      let back : peek bus a (bus.store a v s) ≡ v = ground (arith, at a p) in
      record {
        priorities = λ i l. ground (arith, at (base + i * 4) (inl (omega arith, omega arith)));
        enables = λ i l. rw (back, same) (bit32_read-write w irq i flag lt h);
        thresholds = ground (arith, at (base + 0x200000) (inr (inr (inl refl))));
        softwares = ground (arith, at (base + 0x4000000) (inr (inr (inr refl))));
      }

  stored_threshold :
      (target n : ℕ) (s : S)
      → n < 4
      → Agree
          (settings bus base (bus.store (base + 0x200000) n s))
          (applied (set_threshold target n) (settings bus base s))
  stored_threshold target n s k =
      let a = base + 0x200000 in
      let p : IsPlain base a = inr (inr (inl refl)) in
      let at = λ (c : ℕ) (q : IsPlain base c). regs.load-store a c n s p q (omega arith) in
      let e = at (base + 0x2000) (inr (inl refl)) in
      let kept : peek bus (base + 0x2000) (bus.store a n s) ≡ peek bus (base + 0x2000) s =
        ground (arith, e) in
      record {
        priorities = λ i l. ground (arith, at (base + i * 4) (inl (omega arith, omega arith)));
        enables = λ i l. rw kept refl;
        thresholds = ground (arith, at a p);
        softwares = ground (arith, at (base + 0x4000000) (inr (inr (inr refl))));
      }

  stored_software :
      (n : ℕ) (s : S)
      → n < 4
      → Agree
          (settings bus base (bus.store (base + 0x4000000) n s))
          (record (settings bus base s) { software = n })
  stored_software n s k =
      let a = base + 0x4000000 in
      let p : IsPlain base a = inr (inr (inr refl)) in
      let at = λ (c : ℕ) (q : IsPlain base c). regs.load-store a c n s p q (omega arith) in
      let e = at (base + 0x2000) (inr (inl refl)) in
      let kept : peek bus (base + 0x2000) (bus.store a n s) ≡ peek bus (base + 0x2000) s =
        ground (arith, e) in
      record {
        priorities = λ i l. ground (arith, at (base + i * 4) (inl (omega arith, omega arith)));
        enables = λ i l. rw kept refl;
        thresholds = ground (arith, at (base + 0x200000) (inr (inr (inl refl))));
        softwares = ground (arith, at a p);
      }

  done_lem :
      (r : Request) (s : S) (out : DifResult × S) (s' : S)
      → is_accepted r ≡ true
      → out ≡ (dif_ok, s')
      → Agree (settings bus base s') (applied r (settings bus base s))
      → Implements bus base r s out
  done_lem r s out s' e p agree = rw p (inl (e, refl, agree))

  enabled_lem :
      (irq target : ℕ) (flag : Bool) (s : S)
      → let r = set_enabled irq target (bool_to_toggle flag) in
        Implements bus base r s (perform bus base r s)
  unfolding irq_set_enabled
  enabled_lem irq target flag s =
      let ok = is_valid_toggle-bool_to_toggle flag in
      elim (Bool-cases (ltb irq 32 && target == 0 && is_valid_toggle (bool_to_toggle flag))) [
        | inl e ↦
            let h : irq < 32 = ground (arith, e) in
            let z : target ≡ 0 = ground (arith, e) in
            let w = peek bus (base + 0x2000) s in
            done_lem (set_enabled irq target (bool_to_toggle flag)) s _
              (bus.store (base + 0x2000) (bit32_write w irq flag) s) e
              (rw z (set_eq bus base regs irq flag s h))
              (stored_enables irq target (bool_to_toggle flag) flag s h
                (toggle_to_bool-bool_to_toggle flag))
        | inr e ↦ inr (e, ground (arith, e, ok))
      ]

  priority_lem :
      (irq n : ℕ) (s : S)
      → let r = set_priority irq n in Implements bus base r s (perform bus base r s)
  unfolding irq_set_priority
  priority_lem irq n s = elim (Bool-cases (ltb irq 32 && ltb n 4)) [
    | inl e ↦
        let h : irq < 32 = ground (arith, e) in
        let k : n < 4 = ground (arith, e) in
        let f : ltb 3 n ≡ false = ground arith in
        let a : (0x0 + irq * 4) / 4 * 4 ≡ irq * 4 = omega arith in
        done_lem (set_priority irq n) s _ (bus.store (base + irq * 4) n s) e
          (rw (lt→leb irq 32 h, f, a) refl) (stored_priority irq n s h k)
    | inr e ↦ inr (e, ground (arith, e))
  ]

  threshold_lem :
      (target n : ℕ) (s : S)
      → let r = set_threshold target n in Implements bus base r s (perform bus base r s)
  unfolding target_set_threshold
  threshold_lem target n s = elim (Bool-cases (target == 0 && ltb n 4)) [
    | inl e ↦
        let h : target ≡ 0 = ground (arith, e) in
        let k : n < 4 = ground (arith, e) in
        done_lem (set_threshold target n) s _ (bus.store (base + 0x200000) n s) e
          (rw h (ground (arith, k))) (stored_threshold target n s k)
    | inr e ↦ inr (e, ground (arith, e))
  ]

  force_lem :
      (target : ℕ) (s : S) → let r = force target in Implements bus base r s (perform bus base r s)
  unfolding software_irq_force
  force_lem target s = elim (Bool-cases (target == 0)) [
    | inl e ↦
        let h : target ≡ 0 = ground (arith, e) in
        done_lem (force target) s _ (bus.store (base + 0x4000000) 1 s) e (rw h refl)
          (stored_software 1 s (omega arith))
    | inr e ↦ inr (e, ground (arith, e))
  ]

  acknowledge_lem :
      (target : ℕ) (s : S)
      → let r = acknowledge target in Implements bus base r s (perform bus base r s)
  unfolding software_irq_acknowledge
  acknowledge_lem target s = elim (Bool-cases (target == 0)) [
    | inl e ↦
        let h : target ≡ 0 = ground (arith, e) in
        done_lem (acknowledge target) s _ (bus.store (base + 0x4000000) 0 s) e (rw h refl)
          (stored_software 0 s (omega arith))
    | inr e ↦ inr (e, ground (arith, e))
  ]

  -- For every request to enable or disable a source, to set a priority or the threshold, or to
  -- force or acknowledge the software interrupt, where the registers hold what is written: one on a
  -- source below 32 and target 0, with a valid toggle and a value below 4, succeeds, changes the
  -- setting that it names to what it asks for, and leaves every other setting; any other one is
  -- refused as a bad argument and leaves the hardware as it was.
  pub perform_refines : (r : Request) (s : S) → Implements bus base r s (perform bus base r s)
  unfolding irq_set_enabled bool_to_toggle is_valid_toggle toggle_flag
  perform_refines (set_enabled irq target enabled) s = enabled_lem irq target true s
  perform_refines (set_enabled irq target disabled) s = enabled_lem irq target false s
  perform_refines (set_enabled irq target (other_toggle n)) s = inr (ground arith, ground arith)
  perform_refines (set_priority irq n) s = priority_lem irq n s
  perform_refines (set_threshold target n) s = threshold_lem target n s
  perform_refines (force target) s = force_lem target s
  perform_refines (acknowledge target) s = acknowledge_lem target s
