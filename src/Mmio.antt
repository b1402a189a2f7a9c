-- ===== src/Mmio.antt =====
-- sw/device/lib/base/mmio.h: 32-bit accesses to device registers, and the read-modify-write
-- operations on one register. The hardware behind the addresses is a parameter, a `Bus`.
pub mod Registers
pub mod Counter
pub mod Transfer
mod Tests
use sunburst_chip.Base.{ℕ, ◌+◌, ◌*◌, ◌/◌, Bool, true, false}
use sunburst_chip.Bitfield.{Field32, field32_write, bit32_read, bit32_write}

-- Volatile loads and stores of the hardware state `S`, by address: a load may change the state too.
pub record Bus (S : Type 0) : Type 0 where
  pub load : ℕ → S → ℕ × S
  pub store : ℕ → ℕ → S → S

-- Code that accesses the hardware.
abbrev pub M : Type 0 → Type 0 → Type 0
M S A = S → A × S

abbrev pub pure : {S A : Type 0} → A → M S A
pure a s = (a, s)

infixl 5 ◌>>=◌ ◌>>◌
abbrev pub ◌>>=◌ : {S A B : Type 0} → M S A → (A → M S B) → M S B
◌>>=◌ m f s = f (m s).0 (m s).1

abbrev pub ◌>>◌ : {S B : Type 0} → M S (Unit {0}) → M S B → M S B
◌>>◌ m k s = k (m s).1

module _ {S : Type 0} (bus : Bus S) where
  -- `mmio_region_read32` and `mmio_region_write32`: the region is indexed by whole words.
  abbrev pub region_read32 : ℕ → ℕ → M S ℕ
  region_read32 base offset = bus.load (base + offset / 4 * 4)

  abbrev pub region_write32 : ℕ → ℕ → ℕ → M S (Unit {0})
  region_write32 base offset value s = (tt, bus.store (base + offset / 4 * 4) value s)

  unfoldable pub nonatomic_set_field32 : ℕ → ℕ → Field32 → ℕ → M S (Unit {0})
  nonatomic_set_field32 base offset field value = do
    register_value ← region_read32 base offset
    region_write32 base offset (field32_write register_value field value)

  unfoldable pub nonatomic_clear_bit32 : ℕ → ℕ → ℕ → M S (Unit {0})
  nonatomic_clear_bit32 base offset bit_index = do
    register_value ← region_read32 base offset
    region_write32 base offset (bit32_write register_value bit_index false)

  unfoldable pub nonatomic_set_bit32 : ℕ → ℕ → ℕ → M S (Unit {0})
  nonatomic_set_bit32 base offset bit_index = do
    register_value ← region_read32 base offset
    region_write32 base offset (bit32_write register_value bit_index true)

  unfoldable pub write_only_set_field32 : ℕ → ℕ → Field32 → ℕ → M S (Unit {0})
  write_only_set_field32 base offset field value =
      region_write32 base offset (field32_write 0 field value)

  unfoldable pub write_only_set_bit32 : ℕ → ℕ → ℕ → M S (Unit {0})
  write_only_set_bit32 base offset bit_index =
      region_write32 base offset (bit32_write 0 bit_index true)

  unfoldable pub get_bit32 : ℕ → ℕ → ℕ → M S Bool
  get_bit32 base offset bit_index = do
    register_value ← region_read32 base offset
    pure (bit32_read register_value bit_index)
