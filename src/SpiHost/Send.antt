-- ===== src/SpiHost/Send.antt =====
-- Sending: the FIFO, and the loops that fill it.
use mathlib.Core.List.{append_assoc, append-nil}
use sunburst_chip.Base.{
  ℕ, zero, suc, ◌+◌, ◌-◌, ◌≤◌, ◌<◌, ◌≡◌, refl, sym, ap, ◌∙◌, arith, Bool-cases, inl, inr, not, ◌==◌,
  u32, List, [], ◌∷◌, ◌++◌, length, take, Option, some,
}
use sunburst_chip.Bitfield.{field32_read}
use sunburst_chip.Memory.{byte_at, word_of, misalignment32_of}
use sunburst_chip.Mmio.{Bus, region_write32}
use sunburst_chip.Dif.{dif_ok}
use sunburst_chip.SpiHost.{status_reg, txqd_field, Polling, after, ◌>>=◌, lift, wait_until}
use sunburst_chip.SpiHost.Fifos.{
  txdata_reg, tx_depth, wait_tx_fifo, put8, tx_fifo_write8, tx_fifo_write32, write_tail, write_body,
  write_head, fifo_write,
}

-- The sending FIFO: the bytes that it took, and for how many polls it is still full, which is
-- `patience` at most. It takes what is stored only while it is not full.
pub record IsTxFifo {S : Type 0} (bus : Bus S) (write8 : ℕ → ℕ → S → S) (base : ℕ)
    (sent : S → List ℕ) (delay : S → ℕ) (patience : ℕ) : Type 0 where
  pub full-load :
      (s : S)
      → (field32_read (bus.load (base + status_reg) s).0 txqd_field == tx_depth)
        ≡ not (delay s == 0)
  pub sent-load : (s : S) → sent (bus.load (base + status_reg) s).1 ≡ sent s
  pub delay-load : (s : S) → delay (bus.load (base + status_reg) s).1 ≤ delay s - 1
  pub delay-le : (s : S) → delay s ≤ patience
  pub sent-write8 :
      (b : ℕ) (s : S)
      → b < 256
      → delay s ≡ 0
      → sent (write8 (base + txdata_reg) b s) ≡ sent s ++ (b ∷ [])
  pub sent-store :
      (w : ℕ) (s : S)
      → delay s ≡ 0
      → sent (bus.store (base + txdata_reg) w s)
        ≡ sent s ++ (byte_at w 0 ∷ byte_at w 1 ∷ byte_at w 2 ∷ byte_at w 3 ∷ [])

abbrev pub AreBytes : List ℕ → Type 0
AreBytes [] = Unit {0}
AreBytes (b ∷ bytes) = (b < 256) × AreBytes bytes

AreBytes-take : (n : ℕ) (bytes : List ℕ) → AreBytes bytes → AreBytes (take n bytes)
AreBytes-take zero bytes h = tt
AreBytes-take (suc n) [] h = tt
AreBytes-take (suc n) (b ∷ bytes) (hb, h) = (hb, AreBytes-take n bytes h)

module _ {S : Type 0} (bus : Bus S) (write8 : ℕ → ℕ → S → S) (base : ℕ) (sent : S → List ℕ)
    (delay : S → ℕ) (patience : ℕ) (fifo : IsTxFifo bus write8 base sent delay patience) (fuel : ℕ)
    (enough : patience < fuel) where
  -- `m` gives `a` and sends `buf`.
  abbrev IsSent : {A : Type 0} → Polling S A → S → A → List ℕ → Type 0
  IsSent m s a buf = (s' : S) × (m s ≡ (some a, s')) × (sent s' ≡ sent s ++ buf)

  IsSent-then :
      {A B : Type 0} (m : Polling S A) (k : A → Polling S B) (s : S) (a : A) (b : B)
      (buf buf' : List ℕ)
      → IsSent m s a buf
      → ((s' : S) → IsSent (k a) s' b buf')
      → IsSent (m >>= k) s b (buf ++ buf')
  IsSent-then m k s a b buf buf' (s1, e, p) f =
      let (s2, e', p') = f s1 in
      (s2, ap (λ r. after r k) e ∙ e', p' ∙ ap (λ t. t ++ buf') p ∙ append_assoc (sent s) buf buf')

  -- `m` returns with nothing sent, and the FIFO is not full.
  abbrev IsReady : Polling S (Unit {0}) → S → Type 0
  IsReady m s = (s' : S) × (m s ≡ (some tt, s')) × (sent s' ≡ sent s) × (delay s' ≡ 0)

  IsReady-then :
      (m : Polling S (Unit {0})) (k : Unit {0} → Polling S (Unit {0})) (s : S) (buf : List ℕ)
      → IsReady m s
      → ((s' : S) → delay s' ≡ 0 → IsSent (k tt) s' tt buf)
      → IsSent (m >>= k) s tt buf
  IsReady-then m k s buf (s1, e, p, ready) f =
      let (s2, e', p') = f s1 ready in (s2, ap (λ r. after r k) e ∙ e', p' ∙ ap (λ t. t ++ buf) p)

  wait_lem :
      (rounds : ℕ) (s : S)
      → delay s < rounds
      → IsReady
          (wait_until bus rounds base (λ reg. not (field32_read reg txqd_field == tx_depth)))
          s
  unfolding wait_until
  wait_lem zero s h = absurd (omega arith)
  wait_lem (suc rounds) s h = elim (Bool-cases (delay s == 0)) [
    | inl e ↦
        rw (fifo.full-load s, e)
          (
            (bus.load (base + status_reg) s).1,
            refl,
            fifo.sent-load s,
            ground (arith, fifo.delay-load s),
          )
    | inr e ↦
        let s1 = (bus.load (base + status_reg) s).1 in
        let fewer : delay s1 < rounds = ground (arith, fifo.delay-load s) in
        let (s2, p, q, ready) = wait_lem rounds s1 fewer in
        rw (fifo.full-load s, e) (s2, p, q ∙ fifo.sent-load s, ready)
  ]

  wait_tx_fifo_lem : (s : S) → IsReady (wait_tx_fifo bus write8 fuel base) s
  unfolding wait_tx_fifo
  wait_tx_fifo_lem s = wait_lem fuel s (omega (arith, fifo.delay-le s))

  write8_lem :
      (b : ℕ) (s : S) → b < 256 → IsSent (tx_fifo_write8 bus write8 fuel base b) s tt (b ∷ [])
  unfolding tx_fifo_write8 put8
  write8_lem b s h =
      IsReady-then (wait_tx_fifo bus write8 fuel base) (λ _. put8 bus write8 base b) s (b ∷ [])
        (wait_tx_fifo_lem s)
        (λ s' ready. (write8 (base + txdata_reg) b s', refl, fifo.sent-write8 b s' h ready))

  write32_lem :
      (a b c d : ℕ) (s : S)
      → a < 256
      → b < 256
      → c < 256
      → d < 256
      → IsSent (tx_fifo_write32 bus write8 fuel base (word_of a b c d)) s tt (a ∷ b ∷ c ∷ d ∷ [])
  unfolding tx_fifo_write32
  write32_lem a b c d s ha hb hc hd =
      let w = word_of a b c d in
      let e0 : byte_at w 0 ≡ a = omega arith in
      let e1 : byte_at w 1 ≡ b = omega arith in
      let e2 : byte_at w 2 ≡ c = omega arith in
      let e3 : byte_at w 3 ≡ d = omega arith in
      IsReady-then (wait_tx_fifo bus write8 fuel base)
        (λ _. lift (region_write32 bus base txdata_reg w)) s (a ∷ b ∷ c ∷ d ∷ [])
        (wait_tx_fifo_lem s)
        λ s' ready. (
          bus.store (base + txdata_reg) w s',
          refl,
          fifo.sent-store w s' ready ∙ rw (e0, e1, e2, e3) refl,
        )

  nothing : (s : S) → IsSent (λ s. (some tt, s)) s tt []
  nothing s = (s, refl, sym (append-nil (sent s)))

  write_tail_lem :
      (src : List ℕ) (s : S) → AreBytes src → IsSent (write_tail bus write8 fuel base src) s tt src
  unfolding write_tail
  write_tail_lem [] s h = nothing s
  write_tail_lem (b ∷ src) s (hb, h) =
      IsSent-then (tx_fifo_write8 bus write8 fuel base b) (λ _. write_tail bus write8 fuel base src)
        s tt tt (b ∷ []) src (write8_lem b s hb) (λ s'. write_tail_lem src s' h)

  write_body_lem :
      (src : List ℕ) (s : S) → AreBytes src → IsSent (write_body bus write8 fuel base src) s tt src
  unfolding write_body
  write_body_lem [] s h = write_tail_lem [] s h
  write_body_lem (a ∷ []) s h = write_tail_lem (a ∷ []) s h
  write_body_lem (a ∷ b ∷ []) s h = write_tail_lem (a ∷ b ∷ []) s h
  write_body_lem (a ∷ b ∷ c ∷ []) s h = write_tail_lem (a ∷ b ∷ c ∷ []) s h
  write_body_lem (a ∷ b ∷ c ∷ d ∷ src) s (ha, (hb, (hc, (hd, h)))) =
      IsSent-then (tx_fifo_write32 bus write8 fuel base (word_of a b c d))
        (λ _. write_body bus write8 fuel base src) s tt tt (a ∷ b ∷ c ∷ d ∷ []) src
        (write32_lem a b c d s ha hb hc hd) (λ s'. write_body_lem src s' h)

  write_head_lem :
      (src : List ℕ) (ptr : ℕ) (s : S)
      → AreBytes src
      → IsSent (write_head bus write8 fuel base ptr src) s tt src
  unfolding write_head
  write_head_lem [] ptr s h = nothing s
  write_head_lem (b ∷ src) ptr s (hb, h) = elim (Bool-cases (misalignment32_of ptr == 0)) [
    | inl e ↦ rw e (write_body_lem (b ∷ src) s (hb, h))
    | inr e ↦ rw e (
        IsSent-then (tx_fifo_write8 bus write8 fuel base b)
          (λ _. write_head bus write8 fuel base (u32 (ptr + 1)) src) s tt tt (b ∷ []) src
          (write8_lem b s hb) (λ s'. write_head_lem src (u32 (ptr + 1)) s' h))
  ]

  -- Where the sending FIFO is full for a bounded number of polls, fewer than the fuel, and takes a
  -- byte or a word only while it is not full, writing the first bytes of a buffer that has as many
  -- returns and succeeds, whatever the alignment of its address, and has sent those bytes in order
  -- and nothing else.
  pub fifo_write_lem :
      (ptr len : ℕ) (bytes : List ℕ) (s : S)
      → AreBytes bytes
      → len ≤ length bytes
      → IsSent
          (fifo_write bus write8 fuel (some base) (some (ptr, bytes)) len)
          s
          dif_ok
          (take len bytes)
  unfolding fifo_write
  fifo_write_lem ptr len bytes s h _ =
      let (s', e, p) = write_head_lem (take len bytes) ptr s (AreBytes-take len bytes h) in
      (s', ap (λ (r : Option (Unit {0}) × S). after r (λ _ s. (some dif_ok, s))) e, p)
