-- ===== src/Print/Format.antt =====
-- The format strings of print.c. A string ends at its NUL or at the end of the list. What a variable
-- argument list holds is a list; reading one that is missing or of another kind is undefined.
use sunburst_chip.Base.{
  ℕ, zero, suc, ◌+◌, ◌-◌, ◌*◌, ◌^◌, bit_and, Bool, true, false, not, ◌&&◌, ◌||◌, if◌then◌else◌, ltb,
  leb, ◌==◌, u8, u32, ◌>>>◌, List, [], ◌∷◌, ◌++◌, length, get_or, take, codes, Option, none, some,
}
use sunburst_chip.Mmio.{M}
use sunburst_chip.Print.{
  Sink, or_null, Calls, emit, digits_low, digits_high, write_digits, write_status, hex_dump,
}

-- A word, or a pointer to bytes.
pub data Arg : Type 0 where
  word : ℕ → Arg
  pointer : List ℕ → Arg

-- `format_specifier_t`; `type` is the character.
pub record FormatSpecifier : Type 0 where
  pub type : ℕ
  pub width : ℕ
  pub padding : ℕ
  pub is_nonstd : Bool

abbrev pub error_nul : List ℕ
error_nul = codes "%<unexpected nul>"

abbrev pub unknown_spec : List ℕ
unknown_spec = codes "%<unknown spec>"

abbrev pub error_too_wide : List ℕ
error_too_wide = codes "%<bad width>"

-- The characters of a string before its NUL.
unfoldable pub c_string : List ℕ → List ℕ
c_string [] = []
c_string (c ∷ s) = let rest = c_string s in if c == 0 then [] else c ∷ rest

-- The text before the next `%` or NUL, and what the format is from there on.
unfoldable pub text_before : List ℕ → List ℕ × List ℕ
text_before [] = ([], [])
text_before (c ∷ s) =
    let rest = text_before s in if c == 0 || c == b'%' then ([], c ∷ s) else (c ∷ rest.0, rest.1)

-- The calls, the rest of the format, and whether that starts with a `%`.
unfoldable pub consume_until_percent : List ℕ → Calls × List ℕ × Bool
unfolding text_before
consume_until_percent format =
    let (text, rest) = text_before format in
    (if length text == 0 then [] else text ∷ [], rest, not (get_or rest 0 0 == 0))

-- The width and the padding, and the format from the character after them on.
unfoldable pub consume_width : ℕ → ℕ → List ℕ → ℕ × ℕ × List ℕ
consume_width width padding [] = (width, padding, [])
consume_width width padding (c ∷ s) =
    let is_zero = padding == 0 && c == b'0' in
    let width' = if is_zero then width else u32 (width * 10 + (c - b'0')) in
    let padding' = if is_zero then b'0' else if padding == 0 then b' ' else padding in
    let rest = consume_width width' padding' s in
    if ltb c b'0' || ltb b'9' c then (width, padding, c ∷ s) else rest

-- The format without its `!`, and whether it had one.
unfoldable pub consume_bang : List ℕ → Bool × List ℕ
consume_bang [] = (false, [])
consume_bang (c ∷ s) = if c == b'!' then (true, s) else (false, c ∷ s)

-- What the parse gives: the specifier and the rest of the format, or the call that reports an error.
pub data Consumed : Type 0 where
  consumed : FormatSpecifier → List ℕ → Consumed
  refused : Calls → Consumed

unfoldable pub specifier_of : Bool → ℕ → ℕ → List ℕ → Consumed
specifier_of is_nonstd width padding [] = refused (error_nul ∷ [])
specifier_of is_nonstd width padding (c ∷ rest) =
    if c == 0
    then refused (error_nul ∷ [])
    else if (width == 0 && not (padding == 0)) || ltb 32 width
    then refused (error_too_wide ∷ [])
    else consumed (record { type = c; width = width; padding = padding; is_nonstd = is_nonstd })
        rest

-- `format` starts at the character after the percent sign.
unfoldable pub consume_format_specifier : List ℕ → Consumed
unfolding consume_bang consume_width specifier_of
consume_format_specifier format =
    let (is_nonstd, s) = consume_bang format in
    let (width, padding, rest) = consume_width 0 0 s in specifier_of is_nonstd width padding rest

-- What a specifier does with its arguments, and the arguments that are left.
abbrev pub Processed : Type 0
Processed = Option (Calls × List Arg)

abbrev pub with_word : (ℕ → Calls) → List Arg → Processed
with_word f [] = none
with_word f (word v ∷ args) = some (f v, args)
with_word f (pointer p ∷ args) = none

abbrev pub with_pointer : (List ℕ → Calls) → List Arg → Processed
with_pointer f [] = none
with_pointer f (word v ∷ args) = none
with_pointer f (pointer p ∷ args) = some (f p, args)

abbrev pub with_buffer : (ℕ → List ℕ → Calls) → List Arg → Processed
with_buffer f [] = none
with_buffer f (word len ∷ args) = with_pointer (f len) args
with_buffer f (pointer p ∷ args) = none

-- The rounds of `%C`, with `n` to go.
unfoldable pub four_cc : ℕ → ℕ → Calls
four_cc zero value = []
four_cc (suc n) value =
    let ch = u8 value in
    let rest = four_cc n (value >>> 8) in
    if leb 32 ch && ltb ch 127
    then (ch ∷ []) ∷ rest
    else codes "\\x"
      ∷ (get_or digits_low (ch >>> 4) 0 ∷ [])
      ∷ (get_or digits_low (bit_and ch 15) 0 ∷ [])
      ∷ rest

unfoldable pub signed_dec : FormatSpecifier → ℕ → Calls
signed_dec spec value =
    let negative = leb (2 ^ 31) value in
    let magnitude = if negative then u32 (2 ^ 32 - value) else value in
    (if negative then codes "-" ∷ [] else [])
    ++ write_digits magnitude spec.width spec.padding 10 digits_low

-- Pointers have 32 bits.
unfoldable pub process_specifier : FormatSpecifier → List Arg → Processed
unfolding c_string four_cc signed_dec
process_specifier spec args =
    let bad_spec : Processed = some (unknown_spec ∷ [], args) in
    let standard = λ (p : Processed). if spec.is_nonstd then bad_spec else p in
    let digits = λ (base : ℕ) (glyphs : List ℕ).
      with_word (λ v. write_digits v spec.width spec.padding base glyphs) args in
    let dump = λ (big_endian : Bool) (glyphs : List ℕ).
      with_buffer (λ len p. hex_dump p len spec.width spec.padding big_endian glyphs) args in
    let c = spec.type in
    if c == b'%'
    then standard (some (codes "%" ∷ [], args))
    else if c == b'c'
    then standard (with_word (λ v. (u8 v ∷ []) ∷ []) args)
    else if c == b'C'
    then with_word (four_cc 4) args
    else if c == b's'
    then (if spec.is_nonstd
        then with_buffer (λ len p. take len p ∷ []) args
        else with_pointer (λ p. c_string p ∷ []) args)
    else if c == b'd' || c == b'i'
    then standard (with_word (signed_dec spec) args)
    else if c == b'o'
    then standard (digits 8 digits_low)
    else if c == b'p'
    then standard (with_word (λ v. codes "0x" ∷ write_digits v 8 b'0' 16 digits_low) args)
    else if c == b'x'
    then (if spec.is_nonstd then dump true digits_low else digits 16 digits_low)
    else if c == b'h'
    then digits 16 digits_low
    else if c == b'X'
    then (if spec.is_nonstd then dump true digits_high else digits 16 digits_high)
    else if c == b'H'
    then digits 16 digits_high
    else if c == b'y'
    then (if not spec.is_nonstd then bad_spec else dump false digits_low)
    else if c == b'Y'
    then (if not spec.is_nonstd then bad_spec else dump false digits_high)
    else if c == b'u'
    then standard (digits 10 digits_low)
    else if c == b'b'
    then (if spec.is_nonstd
        then with_word (λ v. codes (if not (v == 0) then "true" else "false") ∷ []) args
        else digits 2 digits_low)
    else if c == b'r'
    then with_word (λ v. write_status v spec.is_nonstd) args
    else bad_spec

-- What `base_vfprintf` comes to: the calls it makes; undefined for want of an argument; or the fuel
-- ran out.
pub data Printed : Type 0 where
  printed : Calls → Printed
  bad_args : Printed
  no_fuel : Printed

unfoldable pub after_calls : Calls → Printed → Printed
after_calls calls (printed rest) = printed (calls ++ rest)
after_calls calls bad_args = bad_args
after_calls calls no_fuel = no_fuel

abbrev pub drop_one : List ℕ → List ℕ
drop_one [] = []
drop_one (c ∷ s) = s

-- A round of the loop after the text: `loop` is the loop from the next round on.
unfoldable pub vfprintf_process : (List ℕ → List Arg → Printed) → Processed → List ℕ → Printed
unfolding after_calls
vfprintf_process loop none format = bad_args
vfprintf_process loop (some (calls, args)) format = after_calls calls (loop format args)

unfoldable pub vfprintf_specifier : (List ℕ → List Arg → Printed) → Consumed → List Arg → Printed
unfolding vfprintf_process process_specifier
vfprintf_specifier loop (refused calls) args = printed calls
vfprintf_specifier loop (consumed spec format) args =
    vfprintf_process loop (process_specifier spec args) format

unfoldable pub vfprintf_loop : ℕ → List ℕ → List Arg → Printed
unfolding consume_until_percent consume_format_specifier vfprintf_specifier
vfprintf_loop zero format args = no_fuel
vfprintf_loop (suc fuel) [] args = printed []
vfprintf_loop (suc fuel) (c ∷ s) args =
    let (calls, rest, percent) = consume_until_percent (c ∷ s) in
    let spec = consume_format_specifier (drop_one rest) in
    let next = vfprintf_specifier (vfprintf_loop fuel) spec args in
    after_calls calls (if percent then next else printed [])

-- Each round but the last takes a `%`, so that one round more than the format has characters is
-- enough.
unfoldable pub format_calls : List ℕ → List Arg → Printed
unfolding vfprintf_loop
format_calls format args = vfprintf_loop (suc (length format)) format args

unfoldable pub run_printed : {W : Type 0} → Sink W → Printed → Option (M W ℕ)
unfolding emit
run_printed out (printed calls) = some (emit out calls)
run_printed out bad_args = none
run_printed out no_fuel = none

-- `none` is undefined.
unfoldable pub base_vfprintf : {W : Type 0} → Option (Sink W) → List ℕ → List Arg → Option (M W ℕ)
unfolding format_calls run_printed or_null
base_vfprintf out format args = run_printed (or_null out) (format_calls format args)
