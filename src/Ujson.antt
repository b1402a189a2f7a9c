-- ===== src/Ujson.antt =====
-- sw/device/lib/ujson/ujson.c: a reader and writer of JSON. The functions that get a character and put
-- a buffer are parameters; they return status words. A `while` loop over the input runs on fuel.
pub mod Write
pub mod Read
pub mod Channel
mod Escapes
mod Characters
pub mod Strings
mod Numbers
pub mod Integers
mod Tests
use sunburst_chip.Base.{
  ℕ, zero, suc, ◌+◌, ◌-◌, ◌*◌, ◌/◌, ◌%◌, ◌^◌, bit_and, bit_or, Bool, true, false, not, ◌&&◌, ◌||◌,
  if◌then◌else◌, ltb, leb, ◌==◌, u8, u32, u64, ◌<<<◌, ◌>>>◌, List, [], ◌∷◌, ◌++◌, length, get_or,
  codes, Option, none, some,
}
use sunburst_chip.Mmio.{M}
use sunburst_chip.Crc32.{add8, crc32_add, crc32_init, crc32_finish}
use sunburst_chip.Status.{status_create, status_ok, status_err}

-- `ujson_t`, with what its `io_context` shows and the character that was put back, if any.
pub record Ujson (W : Type 0) : Type 0 where
  pub io_context : W
  pub buffer : Option ℕ
  pub crc32 : ℕ

-- A value, an error status, or no more fuel.
pub data Result (A : Type 0) : Type 0 where
  ok : A → Result A
  err : ℕ → Result A
  no_fuel : Result A

abbrev pub Io : Type 0 → Type 0 → Type 0
Io W A = Ujson W → Result A × Ujson W

abbrev pub return : {W A : Type 0} → A → Io W A
return a uj = (ok a, uj)

-- `TRY`, which hands an error on, by what came before.
abbrev pub after : {W A B : Type 0} → Result A × Ujson W → (A → Io W B) → Result B × Ujson W
after (ok a, uj) k = k a uj
after (err s, uj) k = (err s, uj)
after (no_fuel, uj) k = (no_fuel, uj)

infixl 5 ◌>>=◌ ◌>>◌
abbrev pub ◌>>=◌ : {W A B : Type 0} → Io W A → (A → Io W B) → Io W B
◌>>=◌ m k uj = after (m uj) k

abbrev pub ◌>>◌ : {W A B : Type 0} → Io W A → Io W B → Io W B
◌>>◌ m k uj = after (m uj) (λ _. k)

-- An error status is taken to have a code other than `kOk`.
abbrev pub of_status : ℕ → Result ℕ
of_status s = if ltb s (2 ^ 31) then ok s else err s

-- `__FILE__`.
abbrev pub file_name : List ℕ
file_name = codes "sw/device/lib/ujson/ujson.c"

-- An error of this file with the number of its line.
abbrev pub refuse : {W A : Type 0} → ℕ → ℕ → Io W A
refuse code line uj = (err (status_create code 0 file_name line), uj)

abbrev pub not_found : ℕ
not_found = 5

abbrev pub failed_precondition : ℕ
failed_precondition = 9

abbrev pub out_of_range : ℕ
out_of_range = 11

unfoldable pub is_space : ℕ → Bool
is_space c = c == b' ' || ltb (u32 (c + 2 ^ 32 - b'\t')) 5

abbrev pub is_digit : ℕ → Bool
is_digit ch = leb b'0' ch && leb ch b'9'

unfoldable pub ujson_init : {W : Type 0} → W → Ujson W
ujson_init context = record { io_context = context; buffer = none; crc32 = 2 ^ 32 - 1 }

unfoldable pub ujson_crc32_reset : {W : Type 0} → Ujson W → Ujson W
ujson_crc32_reset uj = record { io_context = uj.io_context; buffer = uj.buffer; crc32 = crc32_init }

unfoldable pub ujson_crc32_finish : {W : Type 0} → Ujson W → ℕ
ujson_crc32_finish uj = crc32_finish uj.crc32

-- `ujson_ungetc` by the character that was put back before.
unfoldable pub ungetc_over : {W : Type 0} → Option ℕ → ℕ → Io W ℕ
ungetc_over (some b) ch uj = refuse failed_precondition 49 uj
ungetc_over none ch uj =
    (ok 0, record { io_context = uj.io_context; buffer = some ch; crc32 = uj.crc32 })

unfoldable pub ujson_ungetc : {W : Type 0} → ℕ → Io W ℕ
unfolding ungetc_over
ujson_ungetc ch uj = ungetc_over uj.buffer ch uj

unfoldable pub ujson_streq : List ℕ → List ℕ → Bool
ujson_streq [] [] = true
ujson_streq [] (b ∷ bs) = b == 0
ujson_streq (a ∷ xs) [] = a == 0
ujson_streq (a ∷ xs) (b ∷ bs) =
    let rest = ujson_streq xs bs in if not (a == 0) && not (b == 0) && a == b then rest else a == b
