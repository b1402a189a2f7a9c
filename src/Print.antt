-- ===== src/Print.antt =====
-- sw/device/lib/runtime/print.c: formatted printing to a sink. No printing function looks at what
-- its sink returns but to add it up, so that each is the list of the calls it makes of the sink, and
-- `emit` makes the calls. The hex dump, whose padding hangs on what the sink returned, is in
-- Print/Hexdump.antt.
pub mod Format
pub mod Digits
pub mod Specifier
pub mod Pieces
pub mod Rounds
pub mod HexDump
pub mod Capture
pub mod Hexdump
mod Stdout
mod Tests
use sunburst_chip.Base.{
  ℕ, zero, suc, ◌+◌, ◌-◌, ◌*◌, ◌/◌, ◌%◌, ◌^◌, min, bit_and, Bool, true, false, if◌then◌else◌, ltb,
  leb, ◌==◌, u8, u32, ◌>>>◌, List, [], ◌∷◌, ◌++◌, length, get_or, take, codes, Option, none, some,
}
use sunburst_chip.Mmio.{Bus, M, pure, ◌>>=◌}
use sunburst_chip.Dif.{DifResult, dif_ok}
use sunburst_chip.Uart.Stream.{byte_send_polled}
use sunburst_chip.Status.{Extracted, status_extract}

abbrev pub digits_low : List ℕ
digits_low = codes "0123456789abcdef"

abbrev pub digits_high : List ℕ
digits_high = codes "0123456789ABCDEF"

-- A sink takes the bytes of a buffer and returns how many it wrote. `W` is what its `data` shows.
abbrev pub Sink : Type 0 → Type 0
Sink W = List ℕ → M W ℕ

unfoldable pub base_dev_null : {W : Type 0} → Sink W
base_dev_null buf = pure (length buf)

-- A NULL sink is `base_dev_null`.
unfoldable pub or_null : {W : Type 0} → Option (Sink W) → Sink W
unfolding base_dev_null
or_null none = base_dev_null
or_null (some sink) = sink

-- The loop of `base_dev_uart` from byte `i` on, with `rest` to go. `none` means that a polling loop
-- ran out of its fuel.
unfoldable pub dev_uart_loop : {S : Type 0} → Bus S → ℕ → Option ℕ → ℕ → ℕ → List ℕ → M S (Option ℕ)
dev_uart_loop bus fuel uart len i [] = pure (some len)
dev_uart_loop bus fuel uart len i (c ∷ rest) = do
  result ← byte_send_polled bus fuel uart (u8 c)
  elim result [
    | none ↦ pure none
    | some dif_ok ↦ dev_uart_loop bus fuel uart len (i + 1) rest
    | some other ↦ pure (some i)
  ]

unfoldable pub base_dev_uart : {S : Type 0} → Bus S → ℕ → Option ℕ → List ℕ → M S (Option ℕ)
unfolding dev_uart_loop
base_dev_uart bus fuel uart buf = dev_uart_loop bus fuel uart (length buf) 0 buf

-- Calls of a sink in their order, and what they return in all.
abbrev pub Calls : Type 0
Calls = List (List ℕ)

unfoldable pub emit : {W : Type 0} → Sink W → Calls → M W ℕ
emit out [] = pure 0
emit out (buf ∷ calls) = do n ← out buf; m ← emit out calls; pure (u32 (n + m))

-- The digits of `value` before those of `buffer`, which is the used end of the 32 bytes.
unfoldable pub digits_loop : ℕ → ℕ → ℕ → List ℕ → List ℕ → List ℕ
digits_loop zero value base glyphs buffer = buffer
digits_loop (suc fuel) value base glyphs buffer =
    let rest =
      digits_loop fuel (value / base) base glyphs (get_or glyphs (value % base) 0 ∷ buffer) in
    if value == 0 then buffer else rest

-- `n` times the padding before the buffer.
unfoldable pub pad_loop : ℕ → ℕ → List ℕ → List ℕ
pad_loop zero padding buffer = buffer
pad_loop (suc n) padding buffer = pad_loop n padding (padding ∷ buffer)

unfoldable pub write_digits : ℕ → ℕ → ℕ → ℕ → List ℕ → Calls
write_digits value width padding base glyphs =
    let buffer =
      if value == 0 then get_or glyphs 0 0 ∷ [] else digits_loop 32 value base glyphs [] in
    let width' = min (if width == 0 then 1 else width) 32 in
    pad_loop (width' - length buffer) padding buffer ∷ []

unfoldable pub write_status : ℕ → Bool → Calls
unfolding status_extract
write_status value as_json =
    let e = status_extract value in
    let arg = write_digits e.arg 0 0 10 digits_low in
    let module_name = (b'"' ∷ []) ++ (e.mod_id ++ (b'"' ∷ b',' ∷ [])) in
    (take (if as_json then 2 else 0) (codes "{\"")
      ∷ e.code
      ∷ take (if as_json then 1 else 0) (codes "\"")
      ∷ codes ":"
      ∷ [])
    ++ ((if e.is_error then (codes "[" ∷ module_name ∷ []) ++ (arg ++ (codes "]" ∷ [])) else arg)
        ++ (take (if as_json then 1 else 0) (codes "}") ∷ []))

abbrev pub replicate : ℕ → ℕ → List ℕ
replicate zero c = []
replicate (suc n) c = c ∷ replicate n c

-- The padding loop of `hex_dump`; every round but the last writes 32 characters.
unfoldable pub hex_pad_loop : ℕ → ℕ → ℕ → Calls
hex_pad_loop zero width padding = []
hex_pad_loop (suc fuel) width padding =
    let to_write = if ltb 32 width then 32 else width in
    let rest = hex_pad_loop fuel (width - to_write) padding in
    if width == 0 then [] else replicate to_write padding ∷ rest

abbrev pub hex_pair : List ℕ → ℕ → List ℕ
hex_pair glyphs byte =
    get_or glyphs (bit_and (byte >>> 4) 0xf) 0 ∷ get_or glyphs (bit_and byte 0xf) 0 ∷ []

-- The loop over the bytes at index `i` with `left` to go; `buf` holds what is buffered.
unfoldable pub hex_bytes_loop : List ℕ → ℕ → Bool → List ℕ → List ℕ → ℕ → ℕ → Calls
hex_bytes_loop bytes len big_endian glyphs buf i zero = if length buf == 0 then [] else buf ∷ []
hex_bytes_loop bytes len big_endian glyphs buf i (suc left) =
    let idx = if big_endian then len - i - 1 else i in
    let buf' = buf ++ hex_pair glyphs (get_or bytes idx 0) in
    let full = length buf' == 32 in
    let rest =
      hex_bytes_loop bytes len big_endian glyphs (if full then [] else buf') (i + 1) left in
    if full then buf' ∷ rest else rest

unfoldable pub hex_dump : List ℕ → ℕ → ℕ → ℕ → Bool → List ℕ → Calls
hex_dump bytes len width padding big_endian glyphs =
    (if ltb len width then hex_pad_loop (width - len) (width - len) padding else [])
    ++ hex_bytes_loop bytes len big_endian glyphs [] 0 len
