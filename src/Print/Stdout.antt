-- ===== src/Print/Stdout.antt =====
-- The standard output of print.c: `base_stdout` is a sink that may be NULL.
use sunburst_chip.Base.{ℕ, Option, none, some, List}
use sunburst_chip.Mmio.{M}
use sunburst_chip.Print.{Sink, base_dev_null}
use sunburst_chip.Print.Format.{Arg, base_vfprintf}
use sunburst_chip.Print.Hexdump.{HexdumpFmt, default_fmt, base_fhexdump_with}

-- What `base_stdout` is after the call.
unfoldable pub base_set_stdout : {W : Type 0} → Option (Sink W) → Option (Sink W)
unfolding base_dev_null
base_set_stdout none = some base_dev_null
base_set_stdout (some out) = some out

-- The functions below take `base_stdout` first.
module _ {W : Type 0} (base_stdout : Option (Sink W)) where
  unfoldable base_vprintf : List ℕ → List Arg → Option (M W ℕ)
  unfolding base_vfprintf
  base_vprintf format args = base_vfprintf base_stdout format args

  unfoldable base_printf : List ℕ → List Arg → Option (M W ℕ)
  unfolding base_vprintf
  base_printf format args = base_vprintf format args

  unfoldable base_hexdump_with : ℕ → ℕ → HexdumpFmt → List ℕ → ℕ → M W (Option ℕ)
  unfolding base_fhexdump_with
  base_hexdump_with limit fuel fmt buf len = base_fhexdump_with limit fuel base_stdout fmt buf len

  unfoldable base_hexdump : ℕ → ℕ → List ℕ → ℕ → M W (Option ℕ)
  unfolding base_hexdump_with
  base_hexdump limit fuel buf len = base_hexdump_with limit fuel default_fmt buf len
