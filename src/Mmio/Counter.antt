-- ===== src/Mmio/Counter.antt =====
-- A 64-bit counter that the hardware runs and that software reads through two 32-bit registers.
-- The hardware is a parameter: all that is said of it is that it does not run backwards.
use sunburst_chip.Base.{
  ℕ, suc, ◌-◌, ◌/◌, ◌%◌, ◌^◌, ◌≤◌, ◌<◌, ◌≡◌, ◌≢◌, min, arith, ◌==◌, if◌then◌else◌,
}
use sunburst_chip.Mmio.{Bus}

module _ {S : Type 0} (bus : Bus S) where
  -- The registers at `hi` and `lo` show the halves of `count`, which may grow at each access.
  pub record IsCounter (hi lo : ℕ) (count : S → ℕ) : Type 0 where
    pub fits : (s : S) → count s < 2 ^ 64
    pub load_hi : (s : S) → (bus.load hi s).0 ≡ count s / 2 ^ 32
    pub load_lo : (s : S) → (bus.load lo s).0 ≡ count s % 2 ^ 32
    pub grows_hi : (s : S) → count s ≤ count (bus.load hi s).1
    pub grows_lo : (s : S) → count s ≤ count (bus.load lo s).1

-- A counter that stands at its largest value once it has got there.
abbrev pub ticks : ℕ → ℕ
ticks s = min s (2 ^ 64 - 1)

-- The counter that advances by one at each load.
abbrev pub ticking : ℕ → ℕ → Bus ℕ
ticking hi lo = record {
  load = λ a s. (if a == hi then ticks s / 2 ^ 32 else ticks s % 2 ^ 32, suc s);
  store = λ a v s. s;
}

pub ticking-IsCounter : (hi lo : ℕ) → lo ≢ hi → IsCounter (ticking hi lo) hi lo ticks
ticking-IsCounter hi lo ne = record {
  fits = λ s. omega arith;
  load_hi = λ s. ground arith;
  load_lo = λ s. ground arith;
  grows_hi = λ s. omega arith;
  grows_lo = λ s. omega arith;
}
