-- ===== src/Ujson/Read.antt =====
-- The reading half of ujson.c. What a function stores through a pointer is a part of its result.
use sunburst_chip.Base.{
  ℕ, zero, suc, ◌+◌, ◌-◌, ◌*◌, ◌%◌, ◌^◌, bit_or, Bool, true, false, not, ◌&&◌, ◌||◌, if◌then◌else◌,
  ltb, leb, ◌==◌, u8, u32, u64, ◌<<<◌, List, [], ◌∷◌, ◌++◌, length, get_or, Option, none, some,
}
use sunburst_chip.Mmio.{M}
use sunburst_chip.Crc32.{add8}
use sunburst_chip.Status.{status_create, status_err, make_module_id}
use sunburst_chip.Ujson.{
  Ujson, Result, ok, err, no_fuel, Io, return, ◌>>=◌, ◌>>◌, of_status, file_name, refuse, not_found,
  out_of_range, is_space, is_digit, ujson_ungetc,
}

module _ {W : Type 0} (getc : M W ℕ) where
  -- `ujson_getc` by the character that was put back.
  unfoldable pub getc_after : Option ℕ → Io W ℕ
  unfolding status_err
  getc_after (some b) uj =
      (ok b, record { io_context = uj.io_context; buffer = none; crc32 = uj.crc32 })
  getc_after none uj =
      let (s, w) = getc uj.io_context in
      let crc = if status_err s == 0 then add8 uj.crc32 (u8 s) else uj.crc32 in
      (of_status s, record { io_context = w; buffer = none; crc32 = crc })

  unfoldable pub ujson_getc : Io W ℕ
  unfolding getc_after
  ujson_getc uj = getc_after uj.buffer uj

  unfoldable pub consume_whitespace : ℕ → Io W ℕ
  unfolding ujson_getc is_space
  consume_whitespace zero uj = (no_fuel, uj)
  consume_whitespace (suc fuel) uj =
      (do ch ← ujson_getc; if is_space ch then consume_whitespace fuel else return ch) uj

  unfoldable pub hex_value : ℕ → Io W ℕ
  hex_value ch =
      if is_digit ch
      then return (ch - b'0')
      else if leb b'A' ch && leb ch b'F'
      then return (ch - b'A' + 10)
      else if leb b'a' ch && leb ch b'f'
      then return (ch - b'a' + 10)
      else refuse out_of_range 81

  unfoldable pub consume_hexdigit : Io W ℕ
  unfolding ujson_getc hex_value
  consume_hexdigit = do ch ← ujson_getc; hex_value ch

  unfoldable pub consume_hex : Io W ℕ
  unfolding consume_hexdigit
  consume_hex = do
    a ← consume_hexdigit
    b ← consume_hexdigit
    c ← consume_hexdigit
    d ← consume_hexdigit
    return (bit_or (bit_or (bit_or (a <<< 12) (b <<< 8)) (c <<< 4)) d)

  unfoldable pub ujson_consume : ℕ → ℕ → Io W ℕ
  unfolding consume_whitespace
  ujson_consume fuel ch = do
    got ← consume_whitespace fuel
    if not (ch == got) then refuse not_found 95 else return 0

  -- A call of `ujson_ungetc` whose status is not looked at.
  unfoldable pub unget_quietly : ℕ → Io W ℕ
  unfolding ujson_ungetc
  unget_quietly ch uj = (ok 0, (ujson_ungetc ch uj).1)

  unfoldable pub ujson_consume_maybe : ℕ → ℕ → Io W ℕ
  unfolding consume_whitespace unget_quietly
  ujson_consume_maybe fuel ch = do
    got ← consume_whitespace fuel
    if not (ch == u8 got) then unget_quietly (u8 got) else return 1

  -- What stands for an escaped character.
  unfoldable pub unescape : ℕ → Io W ℕ
  unfolding consume_hex
  unescape ch =
      if ch == b'"' || ch == b'\\' || ch == b'/'
      then return ch
      else if ch == b'b'
      then return 8
      else if ch == b'f'
      then return 12
      else if ch == b'n'
      then return b'\n'
      else if ch == b'r'
      then return b'\r'
      else if ch == b't'
      then return b'\t'
      else if ch == b'u'
      then (do h ← consume_hex; return (u8 h))
      else refuse out_of_range 144

  unfoldable pub qs_char : ℕ → Io W ℕ
  unfolding ujson_getc unescape
  qs_char ch = if ch == b'\\' then (do e ← ujson_getc; unescape (u8 e)) else return ch

  -- The loop of `ujson_parse_qs`, with room for `len` more characters after those of `str`.
  unfoldable pub qs_loop : ℕ → ℕ → List ℕ → Io W (List ℕ)
  unfolding ujson_getc qs_char
  qs_loop zero len str uj = (no_fuel, uj)
  qs_loop (suc fuel) len str uj =
      (do
        ch ← ujson_getc
        if u8 ch == b'"' then return str else do
          ch' ← qs_char (u8 ch)
          qs_loop fuel (len - 1) (if ltb 0 len then str ++ (ch' ∷ []) else str))
        uj

  -- The number of characters, and the characters, which a NUL ends; `len` counts the NUL.
  unfoldable pub ujson_parse_qs : ℕ → ℕ → Io W (ℕ × List ℕ)
  unfolding ujson_consume qs_loop
  ujson_parse_qs fuel len = do
    ujson_consume fuel b'"'
    str ← qs_loop fuel (u32 (len + 2 ^ 32 - 1)) []
    return (length str, str ++ (0 ∷ []))

  -- What follows the read after a digit: an error ends the number.
  unfoldable pub after_digit :
      ℕ → Result ℕ × Ujson W → (ℕ → Io W (ℕ × Option ℕ)) → Result (ℕ × Option ℕ) × Ujson W
  after_digit value (ok c, uj) k = k (u8 c) uj
  after_digit value (err s, uj) k = (ok (value, none), uj)
  after_digit value (no_fuel, uj) k = (no_fuel, uj)

  -- The loop of `ujson_parse_integer`: the value, and the character after the digits if there is one.
  unfoldable pub digits_loop : ℕ → ℕ → ℕ → Io W (ℕ × Option ℕ)
  unfolding ujson_getc after_digit
  digits_loop zero value ch uj = (no_fuel, uj)
  digits_loop (suc fuel) value ch uj =
      let value' = u64 (value * 10 + (ch - b'0')) in
      let rest = after_digit value' (ujson_getc uj) (digits_loop fuel value') in
      if is_digit ch then rest else (ok (value, some ch), uj)

  unfoldable pub put_back : Option ℕ → Io W ℕ
  unfolding ujson_ungetc
  put_back none = return 0
  put_back (some ch) = ujson_ungetc ch

  -- The `rsz` bytes of the value, as a number.
  unfoldable pub ujson_parse_integer : ℕ → ℕ → Io W ℕ
  unfolding consume_whitespace ujson_getc digits_loop put_back
  ujson_parse_integer fuel rsz = do
    first ← consume_whitespace fuel
    let neg = u8 first == b'-'
    ch ← (if neg then ujson_getc else return first)
    if not (is_digit (u8 ch)) then refuse not_found 168 else do
      v ← digits_loop fuel 0 (u8 ch)
      put_back v.1
      return ((if neg then u64 (2 ^ 64 - v.0) else v.0) % 2 ^ (8 * rsz))

  -- The rest of a Boolean after its first character.
  unfoldable pub bool_after : ℕ → ℕ → Io W Bool
  unfolding ujson_consume unget_quietly
  bool_after fuel got =
      let rue : Io W Bool = (do
        ujson_consume fuel b'r'
        ujson_consume fuel b'u'
        ujson_consume fuel b'e'
        return true) in
      let alse : Io W Bool = (do
        ujson_consume fuel b'a'
        ujson_consume fuel b'l'
        ujson_consume fuel b's'
        ujson_consume fuel b'e'
        return false) in
      let other : Io W Bool = (do unget_quietly got; refuse not_found 202) in
      if got == b't' then rue else if got == b'f' then alse else other

  unfoldable pub ujson_deserialize_bool : ℕ → Io W Bool
  unfolding consume_whitespace bool_after
  ujson_deserialize_bool fuel = do got ← consume_whitespace fuel; bool_after fuel (u8 got)

  -- The argument and the module of a status, in brackets or alone.
  unfoldable pub status_arg : ℕ → ℕ → Io W (ℕ × ℕ)
  unfolding ujson_parse_qs ujson_consume ujson_parse_integer
  status_arg fuel bracket =
      if not (bracket == 0)
      then (do
        m ← ujson_parse_qs fuel 4
        ujson_consume fuel b','
        arg ← ujson_parse_integer fuel 4
        ujson_consume fuel b']'
        return (make_module_id (get_or m.1 0 0) (get_or m.1 1 0) (get_or m.1 2 0), arg))
      else (do arg ← ujson_parse_integer fuel 4; return (0, arg))

  -- The parser of the code is generated.
  module _ (deserialize_private_status : Io W ℕ) where
    unfoldable pub ujson_deserialize_status_t : ℕ → Io W ℕ
    unfolding ujson_consume ujson_consume_maybe status_arg
    ujson_deserialize_status_t fuel = do
      ujson_consume fuel b'{'
      code ← deserialize_private_status
      ujson_consume fuel b':'
      bracket ← ujson_consume_maybe fuel b'['
      v ← status_arg fuel bracket
      ujson_consume fuel b'}'
      return (status_create code v.0 file_name v.1)
