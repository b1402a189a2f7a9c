-- ===== src/Print/Hexdump.antt =====
-- The hex dump by lines of print.c. Its loops run on fuel, and `none` means that it ran out.
pub mod Progress
pub mod Stuck
use sunburst_chip.Base.{
  ℕ, zero, suc, ◌+◌, ◌-◌, ◌*◌, ◌%◌, ◌^◌, min, if◌then◌else◌, ltb, leb, ◌==◌, false, u8, u32, List,
  [], ◌∷◌, ◌++◌, length, get_or, codes, Option, none, some,
}
use sunburst_chip.Mmio.{M, pure, ◌>>=◌}
use sunburst_chip.Memory.{Memory}
use sunburst_chip.Print.{Sink, Calls, or_null, emit, replicate, digits_low, hex_dump}
use sunburst_chip.Print.Format.{
  Arg, word, pointer, Printed, printed, bad_args, no_fuel, format_calls,
}
use sunburst_chip.Print.Capture.{Captures, snprintf_sink}

-- `base_hexdump_fmt_t`.
pub record HexdumpFmt : Type 0 where
  pub bytes_per_word : ℕ
  pub words_per_line : ℕ
  pub alphabet : List ℕ

abbrev pub default_alphabet : List ℕ
default_alphabet =
    replicate 32 b'.'
    ++ (codes
          " !\"#$%&'()*+,-./0123456789:;<=>?@ABCDEFGHIJKLMNOPQRSTUVWXYZ[\\]^_`abcdefghijklmnopqrstuvwxyz{|}~"
        ++ replicate 129 b'.')

abbrev pub default_fmt : HexdumpFmt
default_fmt = record { bytes_per_word = 2; words_per_line = 8; alphabet = default_alphabet }

-- The calls that `base_fprintf` makes; the formats below have their arguments.
unfoldable pub printed_calls : Printed → Calls
printed_calls (printed calls) = calls
printed_calls bad_args = []
printed_calls no_fuel = []

unfoldable pub fprintf_calls : List ℕ → List Arg → Calls
unfolding format_calls printed_calls
fprintf_calls format args = printed_calls (format_calls format args)

-- `buf + n`.
abbrev pub drop : ℕ → List ℕ → List ℕ
drop zero bytes = bytes
drop (suc n) [] = []
drop (suc n) (b ∷ bytes) = drop n bytes

-- What follows a loop that ended.
unfoldable pub when_some : {W : Type 0} → Option ℕ → (ℕ → M W (Option ℕ)) → M W (Option ℕ)
when_some none k = pure none
when_some (some n) k = k n

unfoldable pub print_buffer : List ℕ → Calls
unfolding fprintf_calls
print_buffer bytes = fprintf_calls (codes "%!s") (word (length bytes) ∷ pointer bytes ∷ [])

abbrev pub flush : List ℕ → Calls
flush glyph_buffer = if length glyph_buffer == 0 then [] else print_buffer glyph_buffer

abbrev pub spaces : List ℕ
spaces = codes "                "

module _ (fmt : HexdumpFmt) where
  abbrev pub bytes_per_line : ℕ
  bytes_per_line = u32 (fmt.bytes_per_word * fmt.words_per_line)

  abbrev pub chars_per_line : ℕ
  chars_per_line = u32 (bytes_per_line * 2 + fmt.words_per_line)

  -- The characters of a line from byte `byte` on, with `left` to go and `glyph_buffer` filled so far.
  unfoldable pub glyphs_loop : List ℕ → ℕ → ℕ → ℕ → ℕ → List ℕ → Calls
  unfolding print_buffer
  glyphs_loop buf len line byte zero glyph_buffer = flush glyph_buffer
  glyphs_loop buf len line byte (suc left) glyph_buffer =
      let full = length glyph_buffer == 16 in
      let room = if full then [] else glyph_buffer in
      let glyph = get_or fmt.alphabet (u8 (get_or buf (line + byte) 0)) 0 in
      let rest = glyphs_loop buf len line (byte + 1) left (room ++ (glyph ∷ [])) in
      (if full then print_buffer glyph_buffer else [])
      ++ (if leb len (u32 (line + byte)) then flush room else rest)

  module _ {W : Type 0} (out : Sink W) where
    -- The padding of a line: how many bytes were written for its words in all.
    unfoldable pub spaces_loop : ℕ → ℕ → M W (Option ℕ)
    unfolding emit fprintf_calls
    spaces_loop zero line_bytes_written = pure none
    spaces_loop (suc fuel) line_bytes_written =
        let to_print = min (chars_per_line - line_bytes_written) 16 in
        let calls = fprintf_calls (codes "%!s") (word to_print ∷ pointer spaces ∷ []) in
        let more : M W (Option ℕ) = (do
          n ← emit out calls
          spaces_loop fuel (u32 (line_bytes_written + n))) in
        if ltb line_bytes_written chars_per_line then more else pure (some line_bytes_written)

    -- The words of a line.
    unfoldable pub words_loop : ℕ → ℕ → List ℕ → ℕ → ℕ → ℕ → ℕ → M W (Option ℕ)
    unfolding spaces_loop hex_dump
    words_loop limit zero buf len line index line_bytes_written = pure none
    words_loop limit (suc fuel) buf len line index line_bytes_written =
        let bytes_left = min (u32 (len + (2 ^ 32 - line) + (2 ^ 32 - index))) fmt.bytes_per_word in
        let bytes = drop (line + index) buf in
        let more : M W (Option ℕ) = (do
          n ← emit out (fprintf_calls (codes " ") [])
          m ← emit out (hex_dump bytes bytes_left bytes_left b'0' false digits_low)
          words_loop limit fuel buf len line (u32 (index + fmt.bytes_per_word))
              (u32 (u32 (line_bytes_written + n) + m))) in
        if ltb index bytes_per_line
        then (if ltb len (u32 (line + index)) then spaces_loop limit line_bytes_written else more)
        else pure (some line_bytes_written)

    -- The rest of a line, after its words.
    unfoldable pub line_end : List ℕ → ℕ → ℕ → M W ℕ
    unfolding emit fprintf_calls glyphs_loop
    line_end buf len line = do
      a ← emit out (fprintf_calls (codes "  ") [])
      b ← emit out (glyphs_loop buf len line 0 bytes_per_line [])
      c ← emit out (fprintf_calls (10 ∷ []) [])
      pure (u32 (a + b + c))

    -- The lines from offset `line` on.
    unfoldable pub lines_loop : ℕ → ℕ → List ℕ → ℕ → ℕ → ℕ → M W (Option ℕ)
    unfolding words_loop line_end when_some
    lines_loop limit zero buf len line bytes_written = pure none
    lines_loop limit (suc fuel) buf len line bytes_written =
        let more : M W (Option ℕ) = (do
          n ← emit out (fprintf_calls (codes "%08x:") (word line ∷ []))
          words ← words_loop limit limit buf len line 0 0
          when_some words λ m. do
            e ← line_end buf len line
            lines_loop limit fuel buf len (u32 (line + bytes_per_line))
                (u32 (u32 (u32 (bytes_written + n) + m) + e))) in
        if ltb line len then more else pure (some bytes_written)

-- `limit` bounds the rounds of the loops of a line, `fuel` the lines.
unfoldable pub base_fhexdump_with :
    {W : Type 0} → ℕ → ℕ → Option (Sink W) → HexdumpFmt → List ℕ → ℕ → M W (Option ℕ)
unfolding or_null lines_loop
base_fhexdump_with limit fuel out fmt buf len = lines_loop fmt (or_null out) limit fuel buf len 0 0

unfoldable pub base_fhexdump : {W : Type 0} → ℕ → ℕ → Option (Sink W) → List ℕ → ℕ → M W (Option ℕ)
unfolding base_fhexdump_with
base_fhexdump limit fuel out buf len = base_fhexdump_with limit fuel out default_fmt buf len

-- Dumps `buf` to the `out_len` bytes at the address `out`: what is returned, and the memory after it.
unfoldable pub base_snhexdump_with :
    ℕ → ℕ → ℕ → ℕ → HexdumpFmt → List ℕ → ℕ → Memory → Option ℕ × Memory
unfolding base_fhexdump_with snprintf_sink
base_snhexdump_with limit fuel out out_len fmt buf len mem =
    let (n, captures) =
      base_fhexdump_with limit fuel (some snprintf_sink) fmt buf len
        (record { memory = mem; buf = out; bytes_left = out_len }) in
    (n, captures.memory)

unfoldable pub base_snhexdump : ℕ → ℕ → ℕ → ℕ → List ℕ → ℕ → Memory → Option ℕ × Memory
unfolding base_snhexdump_with
base_snhexdump limit fuel out out_len buf len mem =
    base_snhexdump_with limit fuel out out_len default_fmt buf len mem
