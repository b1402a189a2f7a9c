-- ===== src/Plic/Tests.antt =====
-- The interrupt controller on a memory at 0x1000.
use sunburst_chip.Base.{ℕ, ◌+◌, ◌*◌, ◌≡◌, arith, true, false, some}
use sunburst_chip.Mmio.Registers.{IsRegisterFile, memory, memory-IsRegisterFile, peek}
use sunburst_chip.Dif.{dif_ok, bool_to_toggle}
use sunburst_chip.Plic.{reset, irq_get_enabled, irq_set_enabled, software_irq_is_pending}
use sunburst_chip.Plic.Laws.{IsPlain, irq_get_enabled-set}
use sunburst_chip.Plic.Settings.{set_priority, perform, Implements, perform_refines}
use sunburst_chip.Plic.Reset.{reset_lem}

abbrev base : ℕ
base = 0x1000

abbrev ones : ℕ → ℕ
ones a = 0xffffffff

regs : IsRegisterFile memory (IsPlain base)
regs = memory-IsRegisterFile (IsPlain base)

irq_get_enabled-set_example :
    let (r, s') = irq_set_enabled memory (some base) 5 0 (bool_to_toggle false) ones in
    (r ≡ dif_ok)
    × ((irq_get_enabled memory (some base) 5 0 s').0 ≡ (dif_ok, some (bool_to_toggle false)))
irq_get_enabled-set_example =
    irq_get_enabled-set memory base regs 5 5 false ones (omega arith) (omega arith)

perform_refines_example :
    Implements memory base (set_priority 3 2) ones (perform memory base (set_priority 3 2) ones)
perform_refines_example = perform_refines memory base regs (set_priority 3 2) ones

reset_lem_example :
    let (r, s') = reset memory (some base) ones in
    (r ≡ dif_ok)
    × (peek memory (base + 31 * 4) s' ≡ 0)
    × (peek memory (base + 0x2000) s' ≡ 0)
    × (peek memory (base + 0x200000) s' ≡ 0)
    × ((software_irq_is_pending memory (some base) 0 true s').0 ≡ (dif_ok, some false))
reset_lem_example = reset_lem memory base regs 31 ones (omega arith)
