-- ===== src/Usbdev/Packet/Lifecycle.antt =====
-- A buffer's way from the pool and back, and into the hardware.
use sunburst_chip.Base.{
  ℕ, suc, ◌+◌, ◌*◌, ◌/◌, ◌^◌, ◌<◌, ◌≡◌, refl, arith, ◌∙◌, ap, sym, bit_and, Bool, true, false,
  lt→ltb, Option, none, some, ◌∷◌, length,
}
use sunburst_chip.Bits.{bit_and_mask}
use sunburst_chip.Bitfield.{field32_read, field32_write, bit32_read, bit32_write, bit32_to_field32}
use sunburst_chip.Bitfield.Laws.{field32_read-write, field32_read-write-Disjoint, field32_write-lt}
use sunburst_chip.Bitfield.Bit.{Disjoint-of_masks, bit32_read-write, bit32_write-lt}
use sunburst_chip.Mmio.{Bus}
use sunburst_chip.Mmio.Registers.{IsRegisterFile, peek, peek-store_self}
use sunburst_chip.Dif.{DifResult, dif_ok, bad_arg}
use sunburst_chip.Usbdev.Pool.{BufferPool, is_empty, add, remove}
use sunburst_chip.Usbdev.Pool.Stack.{
  Stack, IsValid, contents, push, pop, add_refines, remove_refines, is_nil, is_empty_lem,
  length-contents,
}
use sunburst_chip.Usbdev.Fifos.{buffer_field}
use sunburst_chip.Usbdev.Endpoint.{is_valid_endpoint, config_in_reg_offset}
use sunburst_chip.Usbdev.Packet.{
  Buffer, type_write, stale, requested, buffer_request, returned, return_by_type, buffer_return,
  config_in_of, send, get_tx_status, pending, size_field,
}

abbrev fresh : ℕ → Buffer
fresh id = record { id = id; offset = 0; remaining_bytes = 64; type = type_write }

requested_lem :
    (id : ℕ) (rest : Stack) (removed : Option ℕ × BufferPool)
    → ◌≡◌ {A = Option ℕ × Stack} (removed.0, contents removed.1) (some id, rest)
    → requested removed ≡ (dif_ok, removed.1, some (fresh id))
unfolding requested
requested_lem id rest (none, p) e = absurd (cc)
requested_lem id rest (some x, p) e =
    let same : x ≡ id = cc in ap (λ v. (dif_ok, p, some (fresh v))) same

pub returned_lem :
    (buffer : Buffer) (out : Bool × BufferPool)
    → out.0 ≡ true
    → returned buffer out ≡ (dif_ok, out.1, stale buffer)
unfolding returned
returned_lem buffer (true, p) e = refl
returned_lem buffer (false, p) e = absurd (cc)

pub push_lem :
    (id : ℕ) (rest : Stack) → id < 32 → length rest < 32 → push rest id ≡ (true, id ∷ rest)
unfolding push
push_lem id rest h k = rw (lt→ltb (length rest) 32 k, lt→ltb id 32 h) refl

popped :
    (pool : BufferPool) (id : ℕ) (rest : Stack)
    → contents pool ≡ id ∷ rest
    → pop (contents pool) ≡ (some id, rest)
unfolding pop
popped pool id rest e = ap pop e

room :
    (pool : BufferPool) (id : ℕ) (rest : Stack)
    → IsValid pool
    → contents pool ≡ id ∷ rest
    → length rest < 32
room pool id rest v e =
    let l : length (contents pool) ≡ suc (length rest) = ap length e in
    omega (arith, length-contents pool v)

-- What a return leaves: the same buffers as before the request, and a buffer that is refused if it
-- is returned again.
abbrev pub IsReturned : Stack → DifResult × BufferPool × Buffer → Type 0
IsReturned st (r, pool, buffer) =
    (r ≡ dif_ok)
    × IsValid pool
    × (contents pool ≡ st)
    × (buffer_return pool buffer ≡ (bad_arg, pool, buffer))

-- With a valid pool that is not empty and whose top buffer is below 32, a request succeeds and
-- takes that buffer. Returning it succeeds and leaves a valid pool with the same buffers in the
-- same order; to return it once more is refused and changes nothing.
pub buffer_return-request :
    (pool : BufferPool) (id : ℕ) (rest : Stack)
    → IsValid pool
    → contents pool ≡ id ∷ rest
    → id < 32
    → (taken : BufferPool) × (buffer : Buffer) × (buffer_request pool
        ≡ (dif_ok, taken, some buffer))
      × (contents taken ≡ rest)
      × IsReturned (contents pool) (buffer_return taken buffer)
unfolding buffer_request buffer_return return_by_type
buffer_return-request pool id rest v e h =
    let (r, w) = remove_refines pool v in
    let full : is_empty pool ≡ false = is_empty_lem pool v ∙ ap is_nil e in
    let taken = (remove pool).1 in
    let r' : ◌≡◌ {A = Option ℕ × Stack} ((remove pool).0, contents taken) (some id, rest) =
      r ∙ popped pool id rest e in
    let ct : contents taken ≡ rest = ap (λ t. t.1) r' in
    let few : length rest < 32 = room pool id rest v e in
    let (a, u) = add_refines taken id w in
    let a' : ◌≡◌ {A = Bool × Stack} ((add taken id).0, contents (add taken id).1)
        (true, id ∷ rest) =
      a ∙ ap (λ st. push st id) ct ∙ push_lem id rest h few in
    let ok : (add taken id).0 ≡ true = ap (λ t. t.0) a' in
    (
      taken,
      fresh id,
      rw full (requested_lem id rest (remove pool) r'),
      ct,
      rw (returned_lem (fresh id) (add taken id) ok) (refl, u, ap (λ t. t.1) a' ∙ sym e, refl),
    )

-- The register that a send leaves, for a buffer below 32 and a size below 128.
abbrev ready : Buffer → ℕ
ready buffer = bit32_write (config_in_of buffer) 31 true

first-lt : (buffer : Buffer) → field32_write 0 buffer_field buffer.id < 2 ^ 32
first-lt buffer = field32_write-lt 0 buffer_field buffer.id (omega arith) (omega arith)

config_in-lt : (buffer : Buffer) → config_in_of buffer < 2 ^ 32
config_in-lt buffer =
    field32_write-lt (field32_write 0 buffer_field buffer.id) size_field buffer.offset
      (first-lt buffer) (omega arith)

ready_id : (buffer : Buffer) → buffer.id < 32 → field32_read (ready buffer) buffer_field ≡ buffer.id
unfolding bit32_write
ready_id buffer h =
    let m : bit_and buffer.id 0x1f ≡ buffer.id = omega (arith, bit_and_mask 5 buffer.id) in
    field32_read-write-Disjoint (config_in_of buffer) (bit32_to_field32 31) buffer_field 1
      (config_in-lt buffer) (omega arith)
      (Disjoint-of_masks (bit32_to_field32 31) buffer_field refl)
    ∙ field32_read-write-Disjoint (field32_write 0 buffer_field buffer.id) size_field buffer_field
        buffer.offset (first-lt buffer) (omega arith)
        (Disjoint-of_masks size_field buffer_field refl)
    ∙ field32_read-write 0 buffer_field buffer.id (omega arith) (omega arith)
    ∙ m

ready_size :
    (buffer : Buffer) → buffer.offset < 128 → field32_read (ready buffer) size_field ≡ buffer.offset
unfolding bit32_write
ready_size buffer h =
    let m : bit_and buffer.offset 0x7f ≡ buffer.offset =
      omega (arith, bit_and_mask 7 buffer.offset) in
    field32_read-write-Disjoint (config_in_of buffer) (bit32_to_field32 31) size_field 1
      (config_in-lt buffer) (omega arith) (Disjoint-of_masks (bit32_to_field32 31) size_field refl)
    ∙ field32_read-write (field32_write 0 buffer_field buffer.id) size_field buffer.offset
        (first-lt buffer) (omega arith)
    ∙ m

abbrev pub IsPlain : ℕ → ℕ → ℕ → Type 0
IsPlain base endpoint a = a ≡ base + config_in_reg_offset endpoint / 4 * 4

module _ {S : Type 0} (bus : Bus S) (base endpoint : ℕ)
    (regs : IsRegisterFile bus (IsPlain base endpoint)) where
  -- For an endpoint below 12 whose configuration register holds what is written, sending a write
  -- buffer below 32 with fewer than 128 bytes succeeds and makes the buffer stale; the register
  -- then shows the buffer and the size, and the status of the packet is pending.
  pub get_tx_status-send :
      (buffer : Buffer) (s : S)
      → endpoint < 12
      → buffer.type ≡ type_write
      → buffer.id < 32
      → buffer.offset < 128
      → let (out, s') = send bus (some base) endpoint buffer s in
        let config_in = peek bus (base + config_in_reg_offset endpoint / 4 * 4) s' in
        (out ≡ (dif_ok, stale buffer))
        × (field32_read config_in buffer_field ≡ buffer.id)
        × (field32_read config_in size_field ≡ buffer.offset)
        × ((get_tx_status bus (some base) endpoint true s').0 ≡ (dif_ok, some pending))
  unfolding send get_tx_status is_valid_endpoint
  get_tx_status-send buffer s h t p q =
      let lt = bit32_write-lt (config_in_of buffer) 31 true (config_in-lt buffer) (omega arith) in
      let on : bit32_read (ready buffer) 31 ≡ true =
        bit32_read-write (config_in_of buffer) 31 31 true (config_in-lt buffer) (omega arith) in
      rw (lt→ltb endpoint 12 h, t)
        (
          refl,
          rw (peek-store_self regs {v = ready buffer} _ refl lt) (ready_id buffer p),
          rw (peek-store_self regs {v = ready buffer} _ refl lt) (ready_size buffer q),
          rw (peek-store_self regs {v = ready buffer} _ refl lt, on) refl,
        )
