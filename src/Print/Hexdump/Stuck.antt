-- ===== src/Print/Hexdump/Stuck.antt =====
-- A hex dump to a sink that takes nothing more.
use sunburst_chip.Base.{
  ℕ, zero, suc, ◌+◌, ◌-◌, ◌^◌, ◌<◌, ◌≡◌, refl, ap, ap₂, ◌∙◌, arith, ltb, u32, List, [], ◌∷◌, none,
  some, Bool-cases, inl, inr, true, min, codes, false,
}
use sunburst_chip.Print.{Sink, Calls, or_null, emit, hex_dump, digits_low}
use sunburst_chip.Print.Format.{word, pointer}
use sunburst_chip.Print.Hexdump.{
  HexdumpFmt, bytes_per_line, chars_per_line, fprintf_calls, spaces, drop, spaces_loop, words_loop,
  lines_loop, base_fhexdump_with,
}

-- In a state that is `Full` the sink writes nothing, and its state stays so.
abbrev pub IsStuck : {W : Type 0} → Sink W → (W → Type 0) → Type 0
IsStuck {W} out Full =
    (bytes : List ℕ) (w : W) → Full w → ((out bytes w).0 ≡ 0) × Full (out bytes w).1

module _ (fmt : HexdumpFmt) {W : Type 0} (out : Sink W) (Full : W → Type 0)
    (stuck : IsStuck out Full) where
  emit_stuck :
      (calls : Calls) (w : W) → Full w → ((emit out calls w).0 ≡ 0) × Full (emit out calls w).1
  unfolding emit
  emit_stuck [] w h = (refl, h)
  emit_stuck (c ∷ calls) w h =
      let (e, h') = stuck c w h in
      let (e', h'') = emit_stuck calls (out c w).1 h' in (omega arith, h'')

  spaces_stuck :
      (fuel written : ℕ) (w : W)
      → Full w
      → written < chars_per_line fmt
      → (spaces_loop fmt out fuel written w).0 ≡ none
  unfolding spaces_loop
  spaces_stuck zero written w h short = refl
  spaces_stuck (suc fuel) written w h short =
      let to_print = min (chars_per_line fmt - written) 16 in
      let calls = fprintf_calls (codes "%!s") (word to_print ∷ pointer spaces ∷ []) in
      let more : ltb written (chars_per_line fmt) ≡ true = ground arith in
      let (e, h') = emit_stuck calls w h in
      let same : u32 (written + (emit out calls w).0) ≡ written = omega arith in
      let w' = (emit out calls w).1 in
      rw more
        (ap (λ k. (spaces_loop fmt out fuel k w').0) same ∙ spaces_stuck fuel written w' h' short)

  module _ (buf : List ℕ) (len line : ℕ) (fits : line + bytes_per_line fmt < 2 ^ 32)
      (begun : line < len) (short : len + fmt.bytes_per_word < line + bytes_per_line fmt)
      (wide : 0 < chars_per_line fmt) where
    words_stuck :
        (limit fuel index : ℕ) (w : W)
        → Full w
        → index < bytes_per_line fmt
        → (words_loop fmt out limit fuel buf len line index 0 w).0 ≡ none
    unfolding words_loop
    words_stuck limit zero index w h inside = refl
    words_stuck limit (suc fuel) index w h inside =
        let e : ltb index (bytes_per_line fmt) ≡ true = ground arith in
        let s : u32 (line + index) ≡ line + index = omega arith in
        elim (Bool-cases (ltb len (line + index))) [
          | inl over ↦ rw (e, s, over) (spaces_stuck limit 0 w h wide)
          | inr within ↦
              let bytes_left =
                min (u32 (len + (2 ^ 32 - line) + (2 ^ 32 - index))) fmt.bytes_per_word in
              let dump =
                hex_dump (drop (line + index) buf) bytes_left bytes_left b'0' false digits_low in
              let (n, h') = emit_stuck (fprintf_calls (codes " ") []) w h in
              let w' = (emit out (fprintf_calls (codes " ") []) w).1 in
              let (m, h'') = emit_stuck dump w' h' in
              let next : u32 (index + fmt.bytes_per_word) ≡ index + fmt.bytes_per_word =
                ground arith in
              let still : u32
                    (u32 (0 + (emit out (fprintf_calls (codes " ") []) w).0) + (emit out dump w').0)
                  ≡ 0 =
                omega arith in
              let w'' = (emit out dump w').1 in
              rw (e, s, within)
                (ap₂ (λ i t. (words_loop fmt out limit fuel buf len line i t w'').0) next still
                  ∙ words_stuck limit fuel (index + fmt.bytes_per_word) w'' h'' (ground arith))
        ]

    lines_stuck :
        (limit fuel total : ℕ) (w : W)
        → Full w
        → (lines_loop fmt out limit fuel buf len line total w).0 ≡ none
    unfolding lines_loop
    lines_stuck limit zero total w h = refl
    lines_stuck limit (suc fuel) total w h =
        let more : ltb line len ≡ true = ground arith in
        let calls = fprintf_calls (codes "%08x:") (word line ∷ []) in
        let (n, h') = emit_stuck calls w h in
        let ended = words_stuck limit limit 0 (emit out calls w).1 h' (omega arith) in
        rw (more, ended) refl

-- A hex dump of at least one byte, and of fewer than a line less a word, to a sink that writes
-- nothing and goes on so, never ends: every fuel runs out.
pub base_fhexdump_with-IsStuck :
    {W : Type 0} (fmt : HexdumpFmt) (out : Sink W) (Full : W → Type 0) (buf : List ℕ)
    (len limit fuel : ℕ) (w : W)
    → IsStuck out Full
    → Full w
    → 0 < len
    → len + fmt.bytes_per_word < bytes_per_line fmt
    → 0 < chars_per_line fmt
    → (base_fhexdump_with limit fuel (some out) fmt buf len w).0 ≡ none
unfolding base_fhexdump_with or_null
base_fhexdump_with-IsStuck fmt out Full buf len limit fuel w stuck h pos short wide =
    lines_stuck fmt out Full stuck buf len 0 (omega arith) pos (omega arith) wide limit fuel 0 w h
