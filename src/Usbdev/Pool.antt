-- ===== src/Usbdev/Pool.antt =====
-- The pool of free packet buffers in dif_usbdev.c: an array used as a stack, with the index of its
-- top, -1 where it is empty.
pub mod Stack
use sunburst_chip.Base.{ℕ, zero, suc, ◌+◌, Bool, true, false, not, ◌||◌, if◌then◌else◌, ltb}
use sunburst_chip.Base.{Option, none, some, List, get_or, set, ℤ, pos, negsuc, incr, decr, eq_ℤ, u8}

abbrev pub num_buffers : ℕ
num_buffers = 32

-- `dif_usbdev_buffer_pool_t`.
pub record BufferPool : Type 0 where
  pub buffers : List ℕ
  pub top : ℤ

abbrev pub pool_full : ℤ
pool_full = pos 31

abbrev pub pool_empty : ℤ
pool_empty = negsuc 0

unfoldable pub is_full : BufferPool → Bool
is_full pool = eq_ℤ pool.top pool_full

unfoldable pub is_empty : BufferPool → Bool
is_empty pool = eq_ℤ pool.top pool_empty

unfoldable pub is_valid_buffer_id : ℕ → Bool
is_valid_buffer_id buffer_id = ltb buffer_id num_buffers

-- `buffers[top]`, at an index in the array.
abbrev pub buffer_at : List ℕ → ℤ → ℕ
buffer_at buffers (pos i) = get_or buffers i 0
buffer_at buffers (negsuc i) = 0

abbrev pub set_buffer_at : List ℕ → ℤ → ℕ → List ℕ
set_buffer_at buffers (pos i) v = set buffers i v
set_buffer_at buffers (negsuc i) v = buffers

unfoldable pub add : BufferPool → ℕ → Bool × BufferPool
unfolding is_full is_valid_buffer_id
add pool buffer_id = if is_full pool || not (is_valid_buffer_id buffer_id) then (false, pool) else (
  true,
  record { buffers = set_buffer_at pool.buffers (incr pool.top) buffer_id; top = incr pool.top },
)

-- Every call passes the address of a local variable, so `buffer_id` is never NULL.
unfoldable pub remove : BufferPool → Option ℕ × BufferPool
unfolding is_empty
remove pool = if is_empty pool then (none, pool) else (
  some (buffer_at pool.buffers pool.top),
  record { buffers = pool.buffers; top = decr pool.top },
)

-- The loop that adds every buffer, with `left` of them to go.
unfoldable pub add_all : ℕ → ℕ → BufferPool → Bool × BufferPool
add_all i zero pool = (true, pool)
add_all i (suc left) pool =
    let (added, pool') = add pool i in
    let rest = add_all (u8 (i + 1)) left pool' in if added then rest else (false, pool')

unfoldable pub init : BufferPool → Bool × BufferPool
init pool = add_all 0 num_buffers (record { buffers = pool.buffers; top = negsuc 0 })
