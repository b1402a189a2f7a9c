-- ===== src/Ujson/Write.antt =====
-- The writing half of ujson.c.
use sunburst_chip.Base.{
  ℕ, zero, suc, ◌+◌, ◌-◌, ◌/◌, ◌%◌, ◌^◌, bit_and, Bool, false, ◌||◌, if◌then◌else◌, ltb, leb, ◌==◌,
  u32, u64, ◌>>>◌, List, [], ◌∷◌, get_or, codes,
}
use sunburst_chip.Bitfield.{not32}
use sunburst_chip.Mmio.{M}
use sunburst_chip.Math.{udiv64_slow}
use sunburst_chip.Crc32.{crc32_add}
use sunburst_chip.Ujson.{Io, return, ◌>>◌, of_status}

abbrev pub hex : List ℕ
hex = codes "0123456789abcdef"

-- What `ujson_serialize_string` puts for a byte.
unfoldable pub escaped : ℕ → List ℕ
escaped ch =
    if ltb ch 0x20 || ch == b'"' || ch == b'\\' || leb 0x7f ch
    then (if ch == b'"'
        then b'\\' ∷ b'"' ∷ []
        else if ch == b'\\'
        then b'\\' ∷ b'\\' ∷ []
        else if ch == 8
        then b'\\' ∷ b'b' ∷ []
        else if ch == 12
        then b'\\' ∷ b'f' ∷ []
        else if ch == b'\n'
        then b'\\' ∷ b'n' ∷ []
        else if ch == b'\r'
        then b'\\' ∷ b'r' ∷ []
        else if ch == b'\t'
        then b'\\' ∷ b't' ∷ []
        else b'\\'
          ∷ b'u'
          ∷ b'0'
          ∷ b'0'
          ∷ get_or hex (ch >>> 4) 0
          ∷ get_or hex (bit_and ch 0xf) 0
          ∷ [])
    else ch ∷ []

-- The digits of a number before those of the buffer; the loop runs once at least.
unfoldable pub decimal_loop : ℕ → ℕ → List ℕ → List ℕ
decimal_loop zero value buf = buf
decimal_loop (suc fuel) value buf =
    let (quotient, remainder) = udiv64_slow value 10 in
    let buf' = (b'0' + remainder) ∷ buf in
    let rest = decimal_loop fuel quotient buf' in if quotient == 0 then buf' else rest

unfoldable pub decimal_loop32 : ℕ → ℕ → List ℕ → List ℕ
decimal_loop32 zero value buf = buf
decimal_loop32 (suc fuel) value buf =
    let buf' = (b'0' + value % 10) ∷ buf in
    let rest = decimal_loop32 fuel (value / 10) buf' in if value / 10 == 0 then buf' else rest

module _ {W : Type 0} (putbuf : List ℕ → M W ℕ) where
  -- The CRC does not hang on the buffer's address.
  unfoldable pub ujson_putbuf : List ℕ → Io W ℕ
  unfolding crc32_add
  ujson_putbuf buf uj =
      let (s, w) = putbuf buf uj.io_context in
      (of_status s, record { io_context = w; buffer = uj.buffer; crc32 = crc32_add uj.crc32 0 buf })

  -- The loop of `ujson_serialize_string`.
  unfoldable pub string_loop : List ℕ → Io W ℕ
  unfolding ujson_putbuf escaped
  string_loop [] = return 0
  string_loop (ch ∷ buf) =
      let rest : Io W ℕ = (do ujson_putbuf (escaped ch); string_loop buf) in
      if ch == 0 then return 0 else rest

  unfoldable pub ujson_serialize_string : List ℕ → Io W ℕ
  unfolding string_loop
  ujson_serialize_string buf = do
    ujson_putbuf (b'"' ∷ [])
    string_loop buf
    ujson_putbuf (b'"' ∷ [])
    return 0

  -- A word and whether it is negative; 20 digits are enough for 64 bits, and 10 for 32.
  unfoldable pub ujson_serialize_integer64 : ℕ → Bool → Io W ℕ
  unfolding decimal_loop
  ujson_serialize_integer64 value neg =
      let magnitude = if neg then u64 (2 ^ 64 - 1 - value + 1) else value in
      let digits = decimal_loop 20 magnitude [] in
      let text = if neg then b'-' ∷ digits else digits in (do ujson_putbuf text; return 0)

  unfoldable pub ujson_serialize_integer32 : ℕ → Bool → Io W ℕ
  unfolding decimal_loop32
  ujson_serialize_integer32 value neg =
      let magnitude = if neg then u32 (not32 value + 1) else value in
      let digits = decimal_loop32 10 magnitude [] in
      let text = if neg then b'-' ∷ digits else digits in (do ujson_putbuf text; return 0)

  unfoldable pub ujson_serialize_bool : Bool → Io W ℕ
  ujson_serialize_bool value = do
    ujson_putbuf (if value then codes "true" else codes "false")
    return 0

  -- The types of 32 bits and less; a signed value is its word.
  unfoldable pub ujson_serialize_uint32_t : ℕ → Io W ℕ
  unfolding ujson_serialize_integer32
  ujson_serialize_uint32_t value = ujson_serialize_integer32 value false

  unfoldable pub ujson_serialize_int32_t : ℕ → Io W ℕ
  unfolding ujson_serialize_integer32
  ujson_serialize_int32_t value = ujson_serialize_integer32 value (leb (2 ^ 31) value)

  unfoldable pub ujson_serialize_uint64_t : ℕ → Io W ℕ
  unfolding ujson_serialize_integer64
  ujson_serialize_uint64_t value = ujson_serialize_integer64 value false

  unfoldable pub ujson_serialize_int64_t : ℕ → Io W ℕ
  unfolding ujson_serialize_integer64
  ujson_serialize_int64_t value = ujson_serialize_integer64 value (leb (2 ^ 63) value)
