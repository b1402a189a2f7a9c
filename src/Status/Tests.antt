-- ===== src/Status/Tests.antt =====
-- The status words at concrete errors.
use sunburst_chip.Base.{◌-◌, ◌^◌, ◌≡◌, refl, arith, true, codes}
use sunburst_chip.Status.{
  make_module_id, ascii_5bit, basename_char, component_start, packed, status_create, status_err,
  status_extract,
}
use sunburst_chip.Bitfield.{field32_read, field32_write, bit32_write}
use sunburst_chip.Status.Extract.{status_extract-create}

-- A negative result with the code for success becomes an error whose code is that of success.
negative_ok :
    (status_extract (status_create 0 0 (codes "a/uart.c") (2 ^ 32 - 1))).code ≡ codes "ErrorError"
unfolding status_create status_extract status_err packed field32_read field32_write bit32_write
    make_module_id ascii_5bit basename_char component_start
negative_ok = refl

status_extract-create_example :
    status_extract (status_create 3 (make_module_id b'@' b'@' b'@') (codes "lib/dif/uart.c") 77)
    ≡ record { is_error = true; code = codes "InvalidArgument"; arg = 77; mod_id = codes "UAR" }
unfolding make_module_id ascii_5bit basename_char component_start
status_extract-create_example =
    status_extract-create b'@' b'@' b'@' 3 77 (codes "lib/dif/uart.c") (omega arith) (omega arith)
      (omega arith)
