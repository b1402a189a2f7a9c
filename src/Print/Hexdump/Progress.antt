-- ===== src/Print/Hexdump/Progress.antt =====
-- A hex dump to a sink that always writes something.
use mathlib.Core.Path.{subst}
use sunburst_chip.Base.{
  ℕ, zero, suc, ◌+◌, ◌-◌, ◌^◌, ◌≤◌, ◌<◌, ◌≡◌, refl, sym, arith, ltb, u32, List, [], ◌∷◌, length,
  Option, some, Bool-cases, inl, inr, false, min, codes, take,
}
use sunburst_chip.Print.{Sink, Calls, or_null, emit, hex_dump, digits_low}
use sunburst_chip.Print.Format.{
  word, pointer, format_calls, vfprintf_loop, consume_until_percent, text_before,
  consume_format_specifier, consume_bang, consume_width, specifier_of, vfprintf_specifier,
  vfprintf_process, after_calls, process_specifier,
}
use sunburst_chip.Print.Capture.{length-take}
use sunburst_chip.Print.Hexdump.{
  HexdumpFmt, bytes_per_line, chars_per_line, printed_calls, fprintf_calls, when_some, spaces, drop,
  spaces_loop, line_end, words_loop, lines_loop, base_fhexdump_with,
}

-- Of a buffer that is not empty the sink writes a part that is not empty.
abbrev pub IsWriting : {W : Type 0} → Sink W → Type 0
IsWriting {W} out =
    (bytes : List ℕ) (w : W)
    → 0 < length bytes
    → (0 < (out bytes w).0) × ((out bytes w).0 ≤ length bytes)

-- A loop that ended.
abbrev pub Ended : Option ℕ → Type 0
Ended o = (n : ℕ) × (o ≡ some n)

spaces_calls :
    (n : ℕ) → fprintf_calls (codes "%!s") (word n ∷ pointer spaces ∷ []) ≡ take n spaces ∷ []
unfolding fprintf_calls printed_calls format_calls vfprintf_loop consume_until_percent text_before
    consume_format_specifier consume_bang consume_width specifier_of vfprintf_specifier
    vfprintf_process after_calls process_specifier
spaces_calls n = refl

module _ (fmt : HexdumpFmt) {W : Type 0} (out : Sink W) (writing : IsWriting out) where
  spaces_Ended :
      (fuel written : ℕ) (w : W)
      → chars_per_line fmt - written < fuel
      → Ended (spaces_loop fmt out fuel written w).0
  unfolding spaces_loop emit
  spaces_Ended zero written w enough = absurd (omega arith)
  spaces_Ended (suc fuel) written w enough = elim (Bool-cases (ltb written (chars_per_line fmt))) [
    | inr e ↦ rw e (written, refl)
    | inl e ↦
        let to_print = min (chars_per_line fmt - written) 16 in
        let size : length (take to_print spaces) ≡ to_print =
          omega (arith, length-take to_print spaces) in
        let (pos, le) = writing (take to_print spaces) w (ground arith) in
        let n = (out (take to_print spaces) w).0 in
        rw e (
          subst
            (λ (calls : Calls).
              Ended
                (spaces_loop fmt out fuel (u32 (written + (emit out calls w).0))
                  (emit out calls w).1).0)
            (sym (spaces_calls to_print))
            (spaces_Ended fuel (u32 (written + u32 (n + 0))) (out (take to_print spaces) w).1
              (ground arith)))
  ]

  words_Ended :
      (buf : List ℕ) (len line limit fuel index written : ℕ) (w : W)
      → 0 < fmt.bytes_per_word
      → bytes_per_line fmt + fmt.bytes_per_word < 2 ^ 32
      → chars_per_line fmt < limit
      → bytes_per_line fmt - index < fuel
      → Ended (words_loop fmt out limit fuel buf len line index written w).0
  unfolding words_loop
  words_Ended buf len line limit zero index written w pos fits wide enough = absurd (omega arith)
  words_Ended buf len line limit (suc fuel) index written w pos fits wide enough =
      elim (Bool-cases (ltb index (bytes_per_line fmt))) [
        | inr e ↦ rw e (written, refl)
        | inl e ↦ elim (Bool-cases (ltb len (u32 (line + index)))) [
          | inl over ↦ rw (e, over) (spaces_Ended limit written w (omega arith))
          | inr within ↦
              let next : u32 (index + fmt.bytes_per_word) ≡ index + fmt.bytes_per_word =
                ground arith in
              let size = fmt.bytes_per_word in
              let bytes_left = min (u32 (len + (2 ^ 32 - line) + (2 ^ 32 - index))) size in
              let bytes = drop (line + index) buf in
              let (n, w') = emit out (fprintf_calls (codes " ") []) w in
              let (m, w'') =
                emit out (hex_dump bytes bytes_left bytes_left b'0' false digits_low) w' in
              let total = u32 (u32 (written + n) + m) in
              rw (e, within)
                (subst (λ i. Ended (words_loop fmt out limit fuel buf len line i total w'').0)
                  (sym next)
                  (words_Ended buf len line limit fuel (index + size) total w'' pos fits wide
                    (ground arith)))
        ]
      ]

  lines_Ended :
      (buf : List ℕ) (len limit fuel line total : ℕ) (w : W)
      → 0 < fmt.bytes_per_word
      → 0 < bytes_per_line fmt
      → bytes_per_line fmt + fmt.bytes_per_word < 2 ^ 32
      → len + bytes_per_line fmt < 2 ^ 32
      → bytes_per_line fmt < limit
      → chars_per_line fmt < limit
      → len - line < fuel
      → Ended (lines_loop fmt out limit fuel buf len line total w).0
  unfolding lines_loop when_some
  lines_Ended buf len limit zero line total w pos pos' fits fits' wide wide' enough =
      absurd (omega arith)
  lines_Ended buf len limit (suc fuel) line total w pos pos' fits fits' wide wide' enough =
      elim (Bool-cases (ltb line len)) [
        | inr e ↦ rw e (total, refl)
        | inl e ↦
            let (n, w1) = emit out (fprintf_calls (codes "%08x:") (word line ∷ [])) w in
            let (m, ended) =
              words_Ended buf len line limit limit 0 0 w1 pos fits wide' (omega arith) in
            let w2 = (words_loop fmt out limit limit buf len line 0 0 w1).1 in
            let (k, w3) = line_end fmt out buf len line w2 in
            let next : u32 (line + bytes_per_line fmt) ≡ line + bytes_per_line fmt = ground arith in
            let total' = u32 (u32 (u32 (total + n) + m) + k) in
            rw (e, ended)
              (subst (λ i. Ended (lines_loop fmt out limit fuel buf len i total' w3).0) (sym next)
                (lines_Ended buf len limit fuel (line + bytes_per_line fmt) total' w3 pos pos' fits
                  fits' wide wide' (ground arith)))
      ]

-- Where the sink writes at least one byte of every buffer that is not empty and no more than the
-- buffer, a hex dump with words and lines of at least one byte, whose sizes do not wrap at 32 bits,
-- ends, with more rounds than a line has bytes and characters, and more lines than there are bytes.
pub base_fhexdump_with-Ended :
    {W : Type 0} (fmt : HexdumpFmt) (out : Sink W) (buf : List ℕ) (len limit fuel : ℕ) (w : W)
    → IsWriting out
    → 0 < fmt.bytes_per_word
    → 0 < bytes_per_line fmt
    → bytes_per_line fmt + fmt.bytes_per_word < 2 ^ 32
    → len + bytes_per_line fmt < 2 ^ 32
    → bytes_per_line fmt < limit
    → chars_per_line fmt < limit
    → len < fuel
    → Ended (base_fhexdump_with limit fuel (some out) fmt buf len w).0
unfolding base_fhexdump_with or_null
base_fhexdump_with-Ended fmt out buf len limit fuel w writing pos pos' fits fits' wide wide'
      enough =
    lines_Ended fmt out writing buf len limit fuel 0 0 w pos pos' fits fits' wide wide'
      (omega arith)
