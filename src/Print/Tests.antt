-- ===== src/Print/Tests.antt =====
-- Formatting at concrete formats.
use sunburst_chip.Base.{
  ◌+◌, min, map, ◌++◌, length, get_or, ◌≤◌, ◌≢◌, inl, inr, arith, true, false, ◌==◌, ltb, leb, ◌&&◌,
  if◌then◌else◌, some, none, ℕ, ◌-◌, ◌^◌, ◌≡◌, refl, List, [], ◌∷◌, codes,
}
use sunburst_chip.Memory.{Memory}
use sunburst_chip.Print.Digits.{IsNumeral, write_digits_lem}
use sunburst_chip.Print.Specifier.{IsWidth, IsConversion}
use sunburst_chip.Print.Pieces.{Piece, ArePieces, print_pieces, format_calls-format_text}
use sunburst_chip.Print.Rounds.{format_calls_ends}
use sunburst_chip.Print.HexDump.{concat, hex_text, hex_dump_lem}
use sunburst_chip.Print.Capture.{
  Captures, store_bytes, copy_text, snprintf_sink, base_snprintf, base_snprintf_lem,
}
use sunburst_chip.Print.Hexdump.{
  default_fmt, base_snhexdump, base_snhexdump_with, base_fhexdump_with, lines_loop, words_loop,
  spaces_loop, line_end, glyphs_loop, print_buffer, fprintf_calls, printed_calls, when_some,
}
use sunburst_chip.Print.Hexdump.Progress.{IsWriting, Ended, base_fhexdump_with-Ended}
use sunburst_chip.Print.Hexdump.Stuck.{IsStuck, base_fhexdump_with-IsStuck}
use sunburst_chip.Print.{
  Sink, digits_low, replicate, emit, or_null, write_digits, digits_loop, pad_loop, write_status,
  hex_dump, hex_pad_loop, hex_bytes_loop,
}
use sunburst_chip.Status.{status_extract, status_err, mod_id_of}
use sunburst_chip.Bitfield.{field32_read}
use sunburst_chip.Print.Format.{
  FormatSpecifier, word, pointer, no_fuel, printed, format_calls, vfprintf_loop,
  consume_until_percent, text_before, consume_format_specifier, consume_bang, consume_width,
  specifier_of, vfprintf_specifier, vfprintf_process, after_calls, process_specifier, c_string,
  four_cc, signed_dec,
}

mixed :
    format_calls (codes "a=%04x %s%%") (word 0x2b ∷ pointer (codes "xy") ∷ [])
    ≡ printed (codes "a=" ∷ codes "002b" ∷ codes " " ∷ codes "xy" ∷ codes "%" ∷ [])
unfolding format_calls vfprintf_loop consume_until_percent text_before consume_format_specifier
    consume_bang consume_width specifier_of vfprintf_specifier vfprintf_process after_calls
    process_specifier c_string four_cc signed_dec write_digits digits_loop pad_loop write_status
    status_extract status_err mod_id_of field32_read hex_dump hex_pad_loop hex_bytes_loop
mixed = refl

-- The padding follows the sign.
negative_padded :
    format_calls (codes "%5d") (word (2 ^ 32 - 3) ∷ []) ≡ printed (codes "-" ∷ codes "    3" ∷ [])
unfolding format_calls vfprintf_loop consume_until_percent text_before consume_format_specifier
    consume_bang consume_width specifier_of vfprintf_specifier vfprintf_process after_calls
    process_specifier c_string four_cc signed_dec write_digits digits_loop pad_loop write_status
    status_extract status_err mod_id_of field32_read hex_dump hex_pad_loop hex_bytes_loop
negative_padded = refl

-- A width wraps before it is compared.
wrapped_width : format_calls (codes "%4294967298u") (word 7 ∷ []) ≡ printed (codes " 7" ∷ [])
unfolding format_calls vfprintf_loop consume_until_percent text_before consume_format_specifier
    consume_bang consume_width specifier_of vfprintf_specifier vfprintf_process after_calls
    process_specifier c_string four_cc signed_dec write_digits digits_loop pad_loop write_status
    status_extract status_err mod_id_of field32_read hex_dump hex_pad_loop hex_bytes_loop
wrapped_width = refl

status_json :
    format_calls (codes "%!r") (word (2 ^ 31) ∷ [])
    ≡ printed (
        codes "{\""
        ∷ codes "ErrorError"
        ∷ codes "\""
        ∷ codes ":"
        ∷ codes "["
        ∷ codes "\"@@@\","
        ∷ codes "0"
        ∷ codes "]"
        ∷ codes "}"
        ∷ [])
unfolding format_calls vfprintf_loop consume_until_percent text_before consume_format_specifier
    consume_bang consume_width specifier_of vfprintf_specifier vfprintf_process after_calls
    process_specifier c_string four_cc signed_dec write_digits digits_loop pad_loop write_status
    status_extract status_err mod_id_of field32_read hex_dump hex_pad_loop hex_bytes_loop
status_json = refl

dumped :
    format_calls
      (codes "%!y|%!X")
      (word 3 ∷ pointer (1 ∷ 0xab ∷ 3 ∷ []) ∷ word 2 ∷ pointer (1 ∷ 0xab ∷ []) ∷ [])
    ≡ printed (codes "01ab03" ∷ codes "|" ∷ codes "AB01" ∷ [])
unfolding format_calls vfprintf_loop consume_until_percent text_before consume_format_specifier
    consume_bang consume_width specifier_of vfprintf_specifier vfprintf_process after_calls
    process_specifier c_string four_cc signed_dec write_digits digits_loop pad_loop write_status
    status_extract status_err mod_id_of field32_read hex_dump hex_pad_loop hex_bytes_loop
dumped = refl

-- Where the characters of a line of 13 and of 14 bytes start: the second line is too short.
abbrev letters : List ℕ
letters = codes "ABCDEFGHIJKLMNOP"

abbrev dump_at : ℕ → ℕ → ℕ
dump_at n i = (base_snhexdump 100 10 1000 100 letters n (λ a. 0)).1 (1000 + i)

aligned : dump_at 13 51 ≡ b'A'
unfolding base_snhexdump base_snhexdump_with base_fhexdump_with lines_loop words_loop spaces_loop
    line_end glyphs_loop print_buffer fprintf_calls printed_calls when_some snprintf_sink copy_text
    store_bytes emit or_null format_calls vfprintf_loop consume_until_percent text_before
    consume_format_specifier consume_bang consume_width specifier_of vfprintf_specifier
    vfprintf_process after_calls process_specifier c_string four_cc signed_dec write_digits
    digits_loop pad_loop write_status status_extract status_err mod_id_of field32_read hex_dump
    hex_pad_loop hex_bytes_loop
aligned = refl

misaligned : dump_at 14 47 ≡ b'A'
unfolding base_snhexdump base_snhexdump_with base_fhexdump_with lines_loop words_loop spaces_loop
    line_end glyphs_loop print_buffer fprintf_calls printed_calls when_some snprintf_sink copy_text
    store_bytes emit or_null format_calls vfprintf_loop consume_until_percent text_before
    consume_format_specifier consume_bang consume_width specifier_of vfprintf_specifier
    vfprintf_process after_calls process_specifier c_string four_cc signed_dec write_digits
    digits_loop pad_loop write_status status_extract status_err mod_id_of field32_read hex_dump
    hex_pad_loop hex_bytes_loop
misaligned = refl

write_digits_lem_example :
    (ds : List ℕ) × IsNumeral 16 0x2b ds
    × (length ds ≤ 32)
    × (write_digits 0x2b 4 b'0' 16 digits_low
        ≡ (replicate (min 4 32 - length ds) b'0' ++ map (λ d. get_or digits_low d 0) ds) ∷ [])
write_digits_lem_example = write_digits_lem 0x2b 4 b'0' 16 digits_low (omega arith) (omega arith)

-- `%08x`.
abbrev hex8 : FormatSpecifier
hex8 = record { type = b'x'; width = 8; padding = b'0'; is_nonstd = false }

abbrev hex8-IsWidth : IsWidth b'0' 8 (8 ∷ [])
hex8-IsWidth =
    inr (inl refl, (refl, (omega arith, tt), λ z. absurd (omega arith)), omega arith, omega arith)

abbrev hex8-IsConversion : IsConversion b'x'
hex8-IsConversion = (omega arith, omega arith, inr (omega arith))

abbrev hex8_piece : Piece
hex8_piece = record { text = codes "n="; spec = hex8; digits = 8 ∷ [] }

abbrev hex8_pieces : List Piece
hex8_pieces = hex8_piece ∷ []

abbrev hex8_pieces-ArePieces : ArePieces hex8_pieces
hex8_pieces-ArePieces = (
  (omega arith, omega arith, (omega arith, omega arith, tt)),
  hex8-IsConversion,
  hex8-IsWidth,
  tt,
)

format_calls-format_text_example :
    format_calls (codes "n=%08x.") (word 0x2b ∷ [])
    ≡ print_pieces hex8_pieces (codes ".") (word 0x2b ∷ [])
format_calls-format_text_example =
    format_calls-format_text hex8_pieces (codes ".") (word 0x2b ∷ []) hex8_pieces-ArePieces
      (omega arith, omega arith, tt)

format_calls_ends_example : format_calls (codes "%d%") (word 1 ∷ []) ≢ no_fuel
format_calls_ends_example = format_calls_ends (codes "%d%") (word 1 ∷ [])

hex_dump_lem_example :
    concat (hex_dump (1 ∷ 0xab ∷ []) 2 5 b'0' true digits_low)
    ≡ replicate (5 - 2) b'0' ++ hex_text digits_low (0xab ∷ 1 ∷ [])
hex_dump_lem_example = hex_dump_lem digits_low (1 ∷ 0xab ∷ []) true 5 b'0'

abbrev cut : List ℕ
cut = codes "a=002"

base_snprintf_lem_example :
    (mem' : Memory) × (base_snprintf 1000 5 (codes "a=%04x") (word 0x2b ∷ []) (λ a. 7)
      ≡ some (5, mem'))
    × ((a : ℕ) → mem' a ≡ (if leb 1000 a && ltb a (1000 + 5) then get_or cut (a - 1000) 0 else 7))
unfolding format_calls vfprintf_loop consume_until_percent text_before consume_format_specifier
    consume_bang consume_width specifier_of vfprintf_specifier vfprintf_process after_calls
    process_specifier c_string four_cc signed_dec write_digits digits_loop pad_loop write_status
    status_extract status_err mod_id_of field32_read hex_dump hex_pad_loop hex_bytes_loop
base_snprintf_lem_example =
    base_snprintf_lem 1000 5 (codes "a=%04x") (word 0x2b ∷ []) (λ a. 7)
      (codes "a=" ∷ codes "002b" ∷ []) (omega arith, λ h. (omega arith, omega arith)) refl

-- A sink that takes one byte at a time, and counts.
abbrev one_byte : Sink ℕ
one_byte bytes w = (min (length bytes) 1, w + 1)

one_byte-IsWriting : IsWriting one_byte
one_byte-IsWriting bytes w h = (omega arith, omega arith)

base_fhexdump_with-Ended_example :
    Ended (base_fhexdump_with 100 20 (some one_byte) default_fmt letters 16 0).0
base_fhexdump_with-Ended_example =
    base_fhexdump_with-Ended default_fmt one_byte letters 16 100 20 0 one_byte-IsWriting
      (omega arith) (omega arith) (omega arith) (omega arith) (omega arith) (omega arith)
      (omega arith)

abbrev IsFull : Captures → Type 0
IsFull c = c.bytes_left ≡ 0

snprintf_sink-IsStuck : IsStuck snprintf_sink IsFull
unfolding snprintf_sink
snprintf_sink-IsStuck bytes c h =
    let e : (c.bytes_left == 0) ≡ true = ground arith in rw e (refl, h)

base_fhexdump_with-IsStuck_example :
    (base_fhexdump_with 1000 1000
      (some snprintf_sink)
      default_fmt
      letters
      3
      (record { memory = λ a. 7; buf = 1000; bytes_left = 0 })).0
    ≡ none
base_fhexdump_with-IsStuck_example =
    base_fhexdump_with-IsStuck default_fmt snprintf_sink IsFull letters 3 1000 1000
      (record { memory = λ a. 7; buf = 1000; bytes_left = 0 }) snprintf_sink-IsStuck refl
      (omega arith) (omega arith) (omega arith)
