-- ===== src/Mmio/Registers.antt =====
-- What the drivers rely on of plain registers: a read has no effect and gives what was last
-- written, and a write to one leaves the others. A memory is a bus whose registers are all plain.
use sunburst_chip.Base.{ℕ, ◌^◌, ◌%◌, ◌<◌, ◌≡◌, ◌≢◌, refl, arith, ◌==◌, if◌then◌else◌}
use sunburst_chip.Mmio.{Bus}

module _ {S : Type 0} (bus : Bus S) where
  -- What a load of `a` returns at `s`.
  abbrev pub peek : ℕ → S → ℕ
  peek a s = (bus.load a s).0

  -- The addresses that `Plain` marks are plain 32-bit registers.
  pub record IsRegisterFile (Plain : ℕ → Type 0) : Type 0 where
    pub load_keeps : (a : ℕ) (s : S) → Plain a → (bus.load a s).1 ≡ s
    pub load-store :
        (a c v : ℕ) (s : S)
        → Plain a
        → Plain c
        → v < 2 ^ 32
        → (bus.load c (bus.store a v s)).0 ≡ (if c == a then v else (bus.load c s).0)
    pub load-lt : (a : ℕ) (s : S) → Plain a → (bus.load a s).0 < 2 ^ 32

module _ {S : Type 0} {bus : Bus S} {Plain : ℕ → Type 0} (regs : IsRegisterFile bus Plain) where
  -- A plain register reads as what was just stored there, and as before after another store.
  pub peek-store_self : {a v : ℕ} (s : S) → Plain a → v < 2 ^ 32 → peek bus a (bus.store a v s) ≡ v
  peek-store_self {a} {v} s p h = ground (arith, regs.load-store a a v s p p h)

  pub peek-store_ne :
      {a c v : ℕ} (s : S)
      → Plain a
      → Plain c
      → c ≢ a
      → v < 2 ^ 32
      → peek bus c (bus.store a v s) ≡ peek bus c s
  peek-store_ne {a} {c} {v} s p q ne h = ground (arith, regs.load-store a c v s p q h)

-- The bus of a memory of words.
abbrev pub memory : Bus (ℕ → ℕ)
memory = record { load = λ a s. (s a % 2 ^ 32, s); store = λ a v s c. if c == a then v else s c }

pub memory-IsRegisterFile : (Plain : ℕ → Type 0) → IsRegisterFile memory Plain
memory-IsRegisterFile Plain = record {
  load_keeps = λ a s p. refl;
  load-store = λ a c v s p q h. ground arith;
  load-lt = λ a s p. omega arith;
}
