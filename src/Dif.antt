-- ===== src/Dif.antt =====
-- sw/device/lib/dif/dif_base.h: what the drivers share, their results and toggles.
use sunburst_chip.Base.{ℕ, Bool, true, false, if◌then◌else◌}

-- `dif_result_t`.
pub data DifResult : Type 0 where
  dif_ok dif_error bad_arg locked unavailable ip_fifo_full out_of_range unaligned : DifResult

-- `dif_toggle_t`; C lets any other number stand there too.
pub data Toggle : Type 0 where
  disabled enabled : Toggle
  other_toggle : ℕ → Toggle

unfoldable pub is_valid_toggle : Toggle → Bool
is_valid_toggle enabled = true
is_valid_toggle disabled = true
is_valid_toggle (other_toggle n) = false

unfoldable pub toggle_to_bool : Toggle → Bool
toggle_to_bool enabled = true
toggle_to_bool disabled = false
toggle_to_bool (other_toggle n) = false

unfoldable pub bool_to_toggle : Bool → Toggle
bool_to_toggle val = if val then enabled else disabled
