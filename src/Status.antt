-- ===== src/Status.antt =====
-- sw/device/lib/base/status.c and status.h: a status is a 32-bit word; with the sign bit clear it is
-- a result, and else an error with its code, an argument and the module that it comes from.
pub mod Extract
mod Tests
use sunburst_chip.Base.{
  ℕ, zero, suc, ◌+◌, ◌-◌, ◌*◌, ◌/◌, ◌^◌, Bool, true, false, ◌&&◌, ◌||◌, if◌then◌else◌, ltb, leb,
  ◌==◌, bit_and, bit_or, u32, ◌<<<◌, ◌>>>◌, List, [], ◌∷◌, length, get_or, codes,
}
use sunburst_chip.Bitfield.{Field32, field32_read, field32_write, bit32_write}

abbrev pub code_field : Field32
code_field = record { mask = 0x1f; index = 0 }

abbrev pub arg_field : Field32
arg_field = record { mask = 0x7ff; index = 5 }

abbrev pub module_id_field : Field32
module_id_field = record { mask = 0x7fff; index = 16 }

-- The characters from `@` on keep their low bits, small letters become capital ones, and all else an
-- underscore.
unfoldable pub ascii_5bit : ℕ → ℕ
ascii_5bit v =
    if leb b'@' v && leb v b'_'
    then v - b'@'
    else if leb b'`' v && leb v b'z'
    then v - b'`'
    else b'_' - b'@'

unfoldable pub make_module_id : ℕ → ℕ → ℕ → ℕ
make_module_id a b c =
    bit_or (bit_or (ascii_5bit a <<< 16) (ascii_5bit b <<< 21)) (ascii_5bit c <<< 26)

-- The second loop of `basename`, from the end: where the last component of the path starts.
unfoldable pub component_start : List ℕ → ℕ → ℕ
component_start file zero = zero
component_start file (suc f) =
    let before = component_start file f in
    if get_or file f 0 == b'/' || get_or file f 0 == b'\\' then suc f else before

-- Character `i` of the last component; NUL ends it.
unfoldable pub basename_char : List ℕ → ℕ → ℕ
basename_char file i = get_or file (component_start file (length file) + i) 0

-- `__LINE__` in `status_create`.
abbrev pub ok_line : ℕ
ok_line = 33

unfoldable pub packed : ℕ → ℕ → ℕ → ℕ
packed module_id code arg =
    bit_or (bit_or (bit_or module_id (bit32_write 0 31 true)) (field32_write 0 code_field code))
      (field32_write 0 arg_field arg)

-- `arg` as the unsigned number of its 32 bits.
unfoldable pub status_create : ℕ → ℕ → List ℕ → ℕ → ℕ
status_create code module_id file arg =
    let arg' = if code == 0 then ok_line else arg in
    let module_id' =
      if module_id == 0
      then make_module_id (basename_char file 0) (basename_char file 1) (basename_char file 2)
      else module_id in
    if code == 0 && ltb arg (2 ^ 31) then arg else packed module_id' code arg'

unfoldable pub status_ok : ℕ → Bool
status_ok s = ltb s (2 ^ 31)

unfoldable pub status_err : ℕ → ℕ
status_err s = if ltb s (2 ^ 31) then 0 else field32_read s code_field

abbrev pub status_codes : List (List ℕ)
status_codes =
    codes "Ok"
    ∷ codes "Cancelled"
    ∷ codes "Unknown"
    ∷ codes "InvalidArgument"
    ∷ codes "DeadlineExceeded"
    ∷ codes "NotFound"
    ∷ codes "AlreadyExists"
    ∷ codes "PermissionDenied"
    ∷ codes "ResourceExhausted"
    ∷ codes "FailedPrecondition"
    ∷ codes "Aborted"
    ∷ codes "OutOfRange"
    ∷ codes "Unimplemented"
    ∷ codes "Internal"
    ∷ codes "Unavailable"
    ∷ codes "DataLoss"
    ∷ codes "Unauthenticated"
    ∷ codes "Undefined17"
    ∷ codes "Undefined18"
    ∷ codes "Undefined19"
    ∷ codes "Undefined20"
    ∷ codes "Undefined21"
    ∷ codes "Undefined22"
    ∷ codes "Undefined23"
    ∷ codes "Undefined24"
    ∷ codes "Undefined25"
    ∷ codes "Undefined26"
    ∷ codes "Undefined27"
    ∷ codes "Undefined28"
    ∷ codes "Undefined29"
    ∷ codes "Undefined30"
    ∷ codes "Undefined31"
    ∷ codes "ErrorError"
    ∷ []

-- What `status_extract` stores; the module is written for an error only.
pub record Extracted : Type 0 where
  pub is_error : Bool
  pub code : List ℕ
  pub arg : ℕ
  pub mod_id : List ℕ

unfoldable pub mod_id_of : ℕ → List ℕ
mod_id_of module_id =
    (b'@' + bit_and module_id 0x1f)
    ∷ (b'@' + bit_and (module_id >>> 5) 0x1f)
    ∷ (b'@' + bit_and (module_id >>> 10) 0x1f)
    ∷ []

unfoldable pub status_extract : ℕ → Extracted
status_extract s =
    let err = if leb (2 ^ 31) s && status_err s == 0 then 32 else status_err s in
    if err == 0
    then record { is_error = false; code = get_or status_codes err []; arg = s; mod_id = [] }
    else record {
      is_error = true;
      code = get_or status_codes err [];
      arg = field32_read s arg_field;
      mod_id = mod_id_of (field32_read s module_id_field);
    }
