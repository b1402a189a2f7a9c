-- ===== src/Usbdev/Fifos/Conservation.antt =====
-- Filling the FIFOs from the pool, and what the device takes.
use sunburst_chip.Base.{ℕ, zero, suc, ◌+◌, ◌%◌, ◌≤◌, ◌<◌, ◌≡◌, refl, arith, ◌∙◌, ap, ◌⊎◌, inl, inr}
use sunburst_chip.Base.{
  true, false, ◌&&◌, Option, none, some, List, [], ◌∷◌, length, leb, Bool-cases, bit_and, sym,
}
use sunburst_chip.Bits.{bit_and_mask}
use sunburst_chip.Bitfield.{field32_read, field32_write, bit32_read}
use sunburst_chip.Bitfield.Laws.{field32_read-write}
use sunburst_chip.Mmio.{Bus}
use sunburst_chip.Mmio.Registers.{peek}
use sunburst_chip.Dif.{DifResult, dif_ok}
use sunburst_chip.Usbdev.Pool.{BufferPool, is_empty, remove}
use sunburst_chip.Usbdev.Pool.Stack.{
  Stack, IsValid, contents, pop, remove_refines, is_nil, is_empty_lem, length-contents,
}
use sunburst_chip.Usbdev.Fifos.{
  usbstat_reg, av_out_buffer_reg, av_setup_buffer_reg, av_setup_depth_field,
}
use sunburst_chip.Usbdev.Fifos.{
  buffer_field, supply, supply_removed, fill_loop, fill_available_fifos,
}

-- The device as far as filling it goes: the buffers that it took, the last one first. A load of the
-- status takes none. A store to either register right after a load takes the buffer of the value's
-- field if that status showed room: an OUT FIFO that is not full, a SETUP FIFO of less than its four
-- entries. What is stored to a full FIFO may be lost.
pub record IsReceiver {S : Type 0} (bus : Bus S) (base : ℕ) (given : S → List ℕ) : Type 0 where
  pub given-load : (s : S) → given (bus.load (base + usbstat_reg) s).1 ≡ given s
  pub given-store_out :
      (v : ℕ) (s : S)
      → bit32_read (peek bus (base + usbstat_reg) s) 23 ≡ false
      → given (bus.store (base + av_out_buffer_reg) v (bus.load (base + usbstat_reg) s).1)
        ≡ field32_read v buffer_field ∷ given s
  pub given-store_setup :
      (v : ℕ) (s : S)
      → field32_read (peek bus (base + usbstat_reg) s) av_setup_depth_field < 4
      → given (bus.store (base + av_setup_buffer_reg) v (bus.load (base + usbstat_reg) s).1)
        ≡ field32_read v buffer_field ∷ given s

-- The entries of `xs` put before `ys` one at a time, each cut to the 5 bits of a buffer number.
abbrev pub hand_over : List ℕ → List ℕ → List ℕ
hand_over [] ys = ys
hand_over (x ∷ xs) ys = hand_over xs (x % 32 ∷ ys)

field_of : (id : ℕ) → field32_read (field32_write 0 buffer_field id) buffer_field ≡ id % 32
field_of id =
    let m : bit_and id 0x1f ≡ id % 32 = omega (arith, bit_and_mask 5 id) in
    field32_read-write 0 buffer_field id (omega arith) (omega arith) ∙ m

-- The stack of a pool before and after `x` is removed.
abbrev pub Popped : Stack → ℕ → Stack → Type 0
Popped old x new = old ≡ x ∷ new

pop-none : (st rest : Stack) → (none, rest) ≡ pop st → st ≡ []
unfolding pop
pop-none [] rest e = refl
pop-none (x ∷ st) rest e = absurd (cc)

pop-some : (st rest : Stack) (x : ℕ) → (some x, rest) ≡ pop st → Popped st x rest
unfolding pop
pop-some [] rest x e = absurd (cc)
pop-some (y ∷ st) rest x e = cc

nil_of : (st : Stack) → is_nil st ≡ true → st ≡ []
nil_of [] h = refl
nil_of (x ∷ st) h = absurd (cc)

module _ {S : Type 0} (bus : Bus S) (base : ℕ) (given : S → List ℕ)
    (receiver : IsReceiver bus base given) where
  -- What is supplied right after a status that does not end the run is taken.
  supply_gives :
      (id : ℕ) (s : S)
      → let status = peek bus (base + usbstat_reg) s in
        let depth = field32_read status av_setup_depth_field in
        (leb 2 depth && bit32_read status 23) ≡ false
        → given (supply bus base depth id (bus.load (base + usbstat_reg) s).1).1 ≡ id % 32 ∷ given s
  unfolding supply
  supply_gives id s wants =
      let depth = field32_read (peek bus (base + usbstat_reg) s) av_setup_depth_field in
      elim (Bool-cases (leb 2 depth)) [
        | inl t ↦ rw t (
            receiver.given-store_out _ s (ground (arith, wants, t))
            ∙ ap (λ x. x ∷ given s) (field_of id))
        | inr t ↦ rw t (
            receiver.given-store_setup _ s (ground (arith, t))
            ∙ ap (λ x. x ∷ given s) (field_of id))
      ]

  -- The FIFOs want no more: two buffers are there for SETUP, and the OUT FIFO is full.
  abbrev pub Sated : S → Type 0
  Sated s =
      let status = peek bus (base + usbstat_reg) s in
      (2 ≤ field32_read status av_setup_depth_field) × (bit32_read status 23 ≡ true)

  -- Where a run may end: with the pool empty, or just after a status in which the FIFOs were sated.
  abbrev pub IsDone : BufferPool → S → Type 0
  IsDone pool s' =
      (contents pool ≡ []) ⊎ ((s : S) × (s' ≡ (bus.load (base + usbstat_reg) s).1) × Sated s)

  -- A finished run: what it returns, and that each buffer is still in the pool or was given away.
  pub record IsFilled (pool : BufferPool) (s : S) (out : Option (DifResult × BufferPool) × S)
      : Type 0 where
    pub left : BufferPool
    pub returns : out.0 ≡ some (dif_ok, left)
    pub valid : IsValid left
    pub kept : hand_over (contents left) (given out.1) ≡ hand_over (contents pool) (given s)
    pub done : IsDone left out.1

  nonempty_contents : (pool : BufferPool) → IsValid pool → contents pool ≡ [] → is_empty pool ≡ true
  nonempty_contents pool v e = is_empty_lem pool v ∙ ap is_nil e

  -- One removal, and the rest of the run by the hypothesis on it.
  round_lem :
      (fuel depth : ℕ) (pool : BufferPool) (s s1 : S) (removed : Option ℕ × BufferPool)
      → ((id : ℕ) → given (supply bus base depth id s1).1 ≡ id % 32 ∷ given s)
      → IsValid pool
      → is_empty pool ≡ false
      → length (contents pool) < suc fuel
      → (removed.0, contents removed.1) ≡ pop (contents pool)
      → IsValid removed.1
      → ((p : BufferPool) (t : S)
          → IsValid p
          → length (contents p) < fuel
          → IsFilled p t (fill_loop bus fuel base p t))
      → IsFilled pool s (supply_removed bus base depth (fill_loop bus fuel base) removed s1)
  unfolding supply_removed
  round_lem fuel depth pool s s1 (none, p) gives v ne h r w ih =
      let e = nonempty_contents pool v (pop-none (contents pool) (contents p) r) in absurd (cc)
  round_lem fuel depth pool s s1 (some id, p) gives v ne h r w ih =
      let e : contents pool ≡ id ∷ contents p = pop-some (contents pool) (contents p) id r in
      let l : length (contents pool) ≡ suc (length (contents p)) = ap length e in
      let next = (supply bus base depth id s1).1 in
      let f = ih p next w (omega arith) in
      record {
        left = f.left;
        returns = f.returns;
        valid = f.valid;
        kept =
            f.kept
            ∙ ap (hand_over (contents p)) (gives id)
            ∙ ap (λ st. hand_over st (given s)) (sym e);
        done = f.done;
      }

  fill_loop_lem :
      (fuel : ℕ) (pool : BufferPool) (s : S)
      → IsValid pool
      → length (contents pool) < fuel
      → IsFilled pool s (fill_loop bus fuel base pool s)
  unfolding fill_loop
  fill_loop_lem zero pool s v h = absurd (omega arith)
  fill_loop_lem (suc fuel) pool s v h =
      let status = peek bus (base + usbstat_reg) s in
      let enough = leb 2 (field32_read status av_setup_depth_field) in
      elim (Bool-cases (is_empty pool)) [
        | inl e ↦ rw e (record {
          left = pool;
          returns = refl;
          valid = v;
          kept = refl;
          done = inl (nil_of (contents pool) (sym (is_empty_lem pool v) ∙ e));
        })
        | inr ne ↦ elim (Bool-cases (enough && bit32_read status 23)) [
          | inl full ↦
              rw (ne, full)
                (record {
                  left = pool;
                  returns = refl;
                  valid = v;
                  kept = ap (hand_over (contents pool)) (receiver.given-load s);
                  done = inr (s, refl, (ground arith, ground arith));
                })
          | inr wants ↦
              let (r, w) = remove_refines pool v in
              rw (ne, wants)
                (round_lem fuel (field32_read status av_setup_depth_field) pool s
                  ((bus.load (base + usbstat_reg) s).1) (remove pool)
                  (λ id. supply_gives id s wants) v ne h r w (fill_loop_lem fuel))
        ]
      ]

  -- With a valid pool and a device that may lose a buffer number stored while its FIFO is full, but
  -- takes one stored right after a status with room for it (the OUT FIFO not full, less than four
  -- SETUP buffers), filling returns, succeeds and leaves a valid pool. The buffers that the device
  -- took, last one first, and those that are left in the pool are together those from before, in
  -- order, as 5-bit numbers. It ends with the pool empty, or just after a status with two SETUP
  -- buffers and the OUT FIFO full.
  pub fill_available_fifos_lem :
      (pool : BufferPool) (s : S)
      → IsValid pool
      → let (out, s') = fill_available_fifos bus (some base) (some pool) s in
        (left : BufferPool) × (out ≡ some (dif_ok, some left))
        × IsValid left
        × (hand_over (contents left) (given s') ≡ hand_over (contents pool) (given s))
        × IsDone left s'
  unfolding fill_available_fifos
  fill_available_fifos_lem pool s v =
      let f = fill_loop_lem 33 pool s v (omega (arith, length-contents pool v)) in
      (f.left, rw f.returns refl, f.valid, f.kept, f.done)
