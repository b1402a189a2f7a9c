-- ===== src/SpiHost/Tests.antt =====
-- A sending FIFO that is full until the poll after each store, and loses what is stored meanwhile, and
-- a short message.
use sunburst_chip.Base.{
  ℕ, ◌+◌, ◌*◌, ◌^◌, not, min, ◌≡◌, refl, arith, true, false, ◌==◌, if◌then◌else◌, some, List, [],
  ◌∷◌, ◌++◌,
}
use sunburst_chip.Bitfield.{field32_read}
use sunburst_chip.Memory.{byte_at}
use sunburst_chip.Mmio.{Bus}
use sunburst_chip.Dif.{dif_ok}
use sunburst_chip.SpiHost.Fifos.{fifo_write}
use sunburst_chip.SpiHost.Send.{IsTxFifo, fifo_write_lem}
use sunburst_chip.SpiHost.Transaction.{transmit, quad, command_of}
use sunburst_chip.Bitfield.{field32_write, bit32_write}

abbrev Wire : Type 0
Wire = ℕ × List ℕ

abbrev bytes_of : ℕ → List ℕ
bytes_of w = byte_at w 0 ∷ byte_at w 1 ∷ byte_at w 2 ∷ byte_at w 3 ∷ []

abbrev wire : Bus Wire
wire = record {
  load = λ a s. (if s.0 == 0 then 0 else 72, (0, s.1));
  store = λ a v s. (1, if s.0 == 0 then s.1 ++ bytes_of v else s.1);
}

abbrev wire8 : ℕ → ℕ → Wire → Wire
wire8 a v s = (1, if s.0 == 0 then s.1 ++ (v ∷ []) else s.1)

abbrev sent : Wire → List ℕ
sent s = s.1

abbrev delay : Wire → ℕ
delay s = min s.0 1

wire-IsTxFifo : IsTxFifo wire wire8 0x1000 sent delay 1
unfolding field32_read
wire-IsTxFifo = record {
  full-load = λ s. full s.0;
  sent-load = λ s. refl;
  delay-load = λ s. omega arith;
  delay-le = λ s. omega arith;
  sent-write8 = λ b s h ready. taken s.0 s.1 (b ∷ []) ready;
  sent-store = λ w s ready. taken s.0 s.1 (bytes_of w) ready;
}
  where
    full :
        (n : ℕ)
        → (field32_read (if n == 0 then 0 else 72) (record { mask = 0xff; index = 0 }) == 72)
          ≡ not (min n 1 == 0)
    full n = ground arith

    taken :
        (n : ℕ) (old new : List ℕ) → min n 1 ≡ 0 → (if n == 0 then old ++ new else old) ≡ old ++ new
    taken n old new h = let e : (n == 0) ≡ true = ground arith in rw e refl

-- A command for three bytes in quad mode, not the last.
command_word : command_of 3 quad transmit false ≡ 2 * 2 ^ 5 + (2 * 2 ^ 3 + (2 * 2 + 1))
unfolding command_of field32_write bit32_write
command_word = refl

fifo_write_lem_example :
    (s' : Wire) × (fifo_write wire wire8 2
        (some 0x1000)
        (some (0x2003, 1 ∷ 2 ∷ 3 ∷ 4 ∷ 5 ∷ 6 ∷ 7 ∷ []))
        6
        (1, 9 ∷ [])
      ≡ (some dif_ok, s'))
    × (s'.1 ≡ 9 ∷ 1 ∷ 2 ∷ 3 ∷ 4 ∷ 5 ∷ 6 ∷ [])
fifo_write_lem_example =
    fifo_write_lem wire wire8 0x1000 sent delay 1 wire-IsTxFifo 2 (omega arith) 0x2003 6
      (1 ∷ 2 ∷ 3 ∷ 4 ∷ 5 ∷ 6 ∷ 7 ∷ []) (1, 9 ∷ []) (omega arith) (omega arith)
