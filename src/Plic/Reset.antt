-- ===== src/Plic/Reset.antt =====
-- The reset of the interrupt controller, and its software interrupt.
use sunburst_chip.Base.{ℕ, zero, suc, ◌+◌, ◌*◌, ◌/◌, ◌≤◌, ◌<◌, ◌≡◌, ◌≢◌, refl, arith, inl, inr, ◌∙◌}
use sunburst_chip.Base.{true, false, if◌then◌else◌, ◌==◌, some, ℕ_discrete}
use sunburst_chip.Mmio.{Bus}
use sunburst_chip.Mmio.Registers.{IsRegisterFile, peek}
use sunburst_chip.Dif.{dif_ok}
use sunburst_chip.Plic.{clear_priorities, clear_targets, reset, software_irq_force}
use sunburst_chip.Plic.{software_irq_acknowledge, software_irq_is_pending}
use sunburst_chip.Plic.Laws.{IsPlain}

module _ {S : Type 0} (bus : Bus S) (base : ℕ) (regs : IsRegisterFile bus (IsPlain base)) where
  -- A store of 0 seen from a plain register.
  peek-clear :
      (a c : ℕ) (s : S)
      → IsPlain base a
      → IsPlain base c
      → peek bus c (bus.store a 0 s) ≡ (if c == a then 0 else peek bus c s)
  peek-clear a c s pa pc = regs.load-store a c 0 s pa pc (omega arith)

  priorities_keep :
      (i left c : ℕ) (s : S)
      → i + left ≤ 32
      → IsPlain base c
      → ((k : ℕ) → i ≤ k → k < i + left → c ≢ base + k * 4)
      → peek bus c (clear_priorities bus base i left s).1 ≡ peek bus c s
  unfolding clear_priorities
  priorities_keep i zero c s h pc far = refl
  priorities_keep i (suc left) c s h pc far =
      let a = base + (0 + i * 4) / 4 * 4 in
      let ne : c ≢ a = λ e. far i (omega arith) (omega arith) (omega arith) in
      let ih =
        priorities_keep (i + 1) left c (bus.store a 0 s) (omega arith) pc
          λ k p q. far k (omega arith) (omega arith) in
      let here : peek bus c (bus.store a 0 s) ≡ peek bus c s =
        ground (arith, peek-clear a c s (inl (omega arith, omega arith)) pc) in
      ih ∙ here

  priorities_clear :
      (i left k : ℕ) (s : S)
      → i + left ≤ 32
      → i ≤ k
      → k < i + left
      → peek bus (base + k * 4) (clear_priorities bus base i left s).1 ≡ 0
  unfolding clear_priorities
  priorities_clear i zero k s h p q = absurd (omega arith)
  priorities_clear i (suc left) k s h p q =
      let a = base + (0 + i * 4) / 4 * 4 in
      let c = base + k * 4 in
      elim (ℕ_discrete k i) [
        | yes e ↦
            let here : peek bus c (bus.store a 0 s) ≡ 0 = ground (
              arith,
              peek-clear a c s (inl (omega arith, omega arith)) (inl (omega arith, omega arith)),
            ) in
            let ih =
              priorities_keep (i + 1) left c (bus.store a 0 s) (omega arith)
                (inl (omega arith, omega arith)) (λ k' p' q'. omega arith) in
            ih ∙ here
        | no ne ↦
            priorities_clear (i + 1) left k (bus.store a 0 s) (omega arith) (omega arith)
              (omega arith)
      ]

  -- The three stores for the one target.
  targets_keep :
      (c : ℕ) (s : S)
      → IsPlain base c
      → peek bus c (clear_targets bus base 0 1 s).1 ≡ (
          if c == base + 0x4000000
          then 0
          else if c == base + 0x200000
          then 0
          else if c == base + 0x2000
          then 0
          else peek bus c s)
  unfolding clear_targets
  targets_keep c s pc = ground (
    arith,
    peek-clear (base + 0x2000) c s (inr (inl refl)) pc,
    peek-clear (base + 0x200000) c (bus.store (base + 0x2000) 0 s) (inr (inr (inl refl))) pc,
    peek-clear (base + 0x4000000) c (bus.store (base + 0x200000) 0 (bus.store (base + 0x2000) 0 s))
        (inr (inr (inr refl))) pc,
  )

  -- A reset succeeds, and leaves the priority of each of the 32 sources, the enables, the threshold
  -- and the software interrupt of target 0 at 0.
  pub reset_lem :
      (irq : ℕ) (s : S)
      → irq < 32
      → let (r, s') = reset bus (some base) s in
        (r ≡ dif_ok)
        × (peek bus (base + irq * 4) s' ≡ 0)
        × (peek bus (base + 0x2000) s' ≡ 0)
        × (peek bus (base + 0x200000) s' ≡ 0)
        × ((software_irq_is_pending bus (some base) 0 true s').0 ≡ (dif_ok, some false))
  unfolding reset software_irq_is_pending
  reset_lem irq s h =
      let t = (clear_priorities bus base 0 32 s).1 in
      (
        refl,
        ground (
          arith,
          targets_keep (base + irq * 4) t (inl (omega arith, omega arith)),
          priorities_clear 0 32 irq s (omega arith) (omega arith) (omega arith),
        ),
        ground (arith, targets_keep (base + 0x2000) t (inr (inl refl))),
        ground (arith, targets_keep (base + 0x200000) t (inr (inr (inl refl)))),
        ground (arith, targets_keep (base + 0x4000000) t (inr (inr (inr refl)))),
      )

  -- For target 0, forcing the software interrupt succeeds and it is then pending; acknowledging it
  -- succeeds and it is then not pending.
  software_irq_pending :
      (s : S)
      → let (r, forced) = software_irq_force bus (some base) 0 s in
        let (q, quiet) = software_irq_acknowledge bus (some base) 0 forced in
        (r ≡ dif_ok)
        × (q ≡ dif_ok)
        × ((software_irq_is_pending bus (some base) 0 true forced).0 ≡ (dif_ok, some true))
        × ((software_irq_is_pending bus (some base) 0 true quiet).0 ≡ (dif_ok, some false))
  unfolding software_irq_force software_irq_acknowledge software_irq_is_pending
  software_irq_pending s =
      let a = base + 0x4000000 in
      (
        refl,
        refl,
        ground (
          arith,
          regs.load-store a a 1 s (inr (inr (inr refl))) (inr (inr (inr refl))) (omega arith),
        ),
        ground
            (arith, peek-clear a a (bus.store a 1 s) (inr (inr (inr refl))) (inr (inr (inr refl)))),
      )
