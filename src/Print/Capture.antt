-- ===== src/Print/Capture.antt =====
-- `base_snprintf`: the sink that fills a buffer, and what it makes of the calls.
use sunburst_chip.Base.{
  ℕ, zero, suc, ◌+◌, ◌-◌, ◌^◌, ◌≤◌, ◌<◌, min, ◌≡◌, refl, sym, ap, ap₂, ◌∙◌, arith, ◌==◌, leb, ltb,
  ◌&&◌, u32, false, if◌then◌else◌, List, [], ◌∷◌, ◌++◌, length, length-append, take, ℕ_discrete,
  get_or, Option, none, some, Bool-cases, inl, inr,
}
use sunburst_chip.Memory.{Memory, put8}
use sunburst_chip.Mmio.{M}
use sunburst_chip.Print.{Sink, Calls, or_null, emit}
use sunburst_chip.Print.HexDump.{concat}
use sunburst_chip.Print.Format.{Arg, printed, format_calls, run_printed, base_vfprintf}

-- `snprintf_captures_t` and the memory that `buf` points into.
pub record Captures : Type 0 where
  pub memory : Memory
  pub buf : ℕ
  pub bytes_left : ℕ

-- The memory with bytes copied to an address.
unfoldable pub store_bytes : ℕ → List ℕ → Memory → Memory
store_bytes a [] mem = mem
store_bytes a (b ∷ bytes) mem = store_bytes (a + 1) bytes (put8 a b mem)

-- `memcpy`, which copies nothing to NULL.
unfoldable pub copy_text : ℕ → List ℕ → Memory → Memory
unfolding store_bytes
copy_text a bytes mem = if a == 0 then mem else store_bytes a bytes mem

unfoldable pub snprintf_sink : Sink Captures
unfolding copy_text
snprintf_sink bytes captures =
    let len = min (length bytes) captures.bytes_left in
    if captures.bytes_left == 0 then (0, captures) else (
      len,
      record {
        memory = copy_text captures.buf (take len bytes) captures.memory;
        buf = u32 (captures.buf + len);
        bytes_left = captures.bytes_left - len;
      },
    )

unfoldable pub run_captured : Option (M Captures ℕ) → Captures → Option (ℕ × Memory)
run_captured none captures = none
run_captured (some print) captures =
    let (n, captures') = print captures in some (n, captures'.memory)

-- What is returned, and the memory after the call; `none` is undefined.
unfoldable pub base_snprintf : ℕ → ℕ → List ℕ → List Arg → Memory → Option (ℕ × Memory)
unfolding snprintf_sink base_vfprintf run_captured
base_snprintf buf len format args mem =
    run_captured (base_vfprintf (some snprintf_sink) format args)
      (record { memory = mem; buf = buf; bytes_left = len })

pub length-take : (n : ℕ) (xs : List ℕ) → length (take n xs) ≡ min n (length xs)
length-take zero xs = omega arith
length-take (suc n) [] = omega arith
length-take (suc n) (x ∷ xs) = omega (arith, length-take n xs)

take-append : (n : ℕ) (xs ys : List ℕ) → take n (xs ++ ys) ≡ take n xs ++ take (n - length xs) ys
take-append n [] ys = ap (λ k. take k ys) {x = n} {y = n - 0} (omega arith) ∙ nil n
  where
    nil : (k : ℕ) → take (n - 0) ys ≡ take k [] ++ take (n - 0) ys
    nil zero = refl
    nil (suc k) = refl
take-append zero (x ∷ xs) ys = ap (λ k. take k ys) {x = 0} {y = 0 - suc (length xs)} (omega arith)
take-append (suc n) (x ∷ xs) ys =
    ap (λ t. x ∷ t)
      (take-append n xs ys
        ∙ ap (λ k. take n xs ++ take k ys) {x = n - length xs} {y = suc n - suc (length xs)}
            (omega arith))

-- No more than all.
take-min : (n : ℕ) (xs : List ℕ) → take (min (length xs) n) xs ≡ take n xs
take-min zero xs = ap (λ k. take k xs) {x = min (length xs) 0} {y = 0} (omega arith)
take-min (suc n) [] = ap (λ k. take k []) {x = min 0 (suc n)} {y = 0} (omega arith)
take-min (suc n) (x ∷ xs) =
    ap (λ k. take k (x ∷ xs)) {x = min (suc (length xs)) (suc n)} {y = suc (min (length xs) n)}
      (omega arith)
    ∙ ap (λ t. x ∷ t) (take-min n xs)

store_bytes-append :
    (xs ys : List ℕ) (a : ℕ) (mem : Memory)
    → store_bytes a (xs ++ ys) mem ≡ store_bytes (a + length xs) ys (store_bytes a xs mem)
unfolding store_bytes
store_bytes-append [] ys a mem = ap (λ k. store_bytes k ys mem) {x = a} {y = a + 0} (omega arith)
store_bytes-append (x ∷ xs) ys a mem =
    store_bytes-append xs ys (a + 1) (put8 a x mem)
    ∙ ap (λ k. store_bytes k ys (store_bytes (a + 1) xs (put8 a x mem))) {x = a + 1 + length xs}
        {y = a + suc (length xs)} (omega arith)

pub store_bytes_lem :
    (bytes : List ℕ) (a : ℕ) (mem : Memory) (b : ℕ)
    → store_bytes a bytes mem b
      ≡ (if leb a b && ltb b (a + length bytes) then get_or bytes (b - a) 0 else mem b)
unfolding store_bytes
store_bytes_lem [] a mem b = ground arith
store_bytes_lem (x ∷ bytes) a mem b = store_bytes_lem bytes (a + 1) (put8 a x mem) b ∙ first
  where
    first :
        (if leb (a + 1) b && ltb b (a + 1 + length bytes)
          then get_or bytes (b - (a + 1)) 0
          else put8 a x mem b)
        ≡ (if leb a b && ltb b (a + suc (length bytes))
            then get_or (x ∷ bytes) (b - a) 0
            else mem b)
    first = elim (ℕ_discrete b a) [
      | yes e ↦
          let z : b - a ≡ 0 = omega arith in ground (arith, ap (λ k. get_or (x ∷ bytes) k 0) z)
      | no ne ↦
          let e = λ (h : a ≤ b).
            ap (λ k. get_or (x ∷ bytes) k 0) {x = b - a} {y = suc (b - (a + 1))} (omega arith) in
          ground (arith, e)
    ]

-- Where there is room, it does not start at NULL and does not go round the end of the address space.
abbrev pub HasRoom : ℕ → ℕ → Type 0
HasRoom buf len = (buf < 2 ^ 32) × (0 < len → (0 < buf) × (buf + len ≤ 2 ^ 32))

-- The captures after the text.
after : Captures → List ℕ → Captures
after c text = record {
  memory = store_bytes c.buf text c.memory;
  buf = u32 (c.buf + length text);
  bytes_left = c.bytes_left - length text;
}

captures_eq :
    {mem mem' : Memory} {b b' l l' : ℕ}
    → mem ≡ mem'
    → b ≡ b'
    → l ≡ l'
    → ◌≡◌ {A = Captures}
        (record { memory = mem; buf = b; bytes_left = l })
        (record { memory = mem'; buf = b'; bytes_left = l' })
captures_eq p q r = rw (p, q, r) refl

after-nil : (c : Captures) → c.buf < 2 ^ 32 → c ≡ after c []
unfolding after store_bytes
after-nil c h = captures_eq refl (omega arith) (omega arith)

-- Nothing is stored behind what still has room.
store_wrapped :
    (t : List ℕ) (a : ℕ) (mem : Memory)
    → a + length t ≤ 2 ^ 32
    → store_bytes (u32 a) t mem ≡ store_bytes a t mem
unfolding store_bytes
store_wrapped [] a mem h = refl
store_wrapped (x ∷ t) a mem h = let e : u32 a ≡ a = omega arith in rw e refl

after-append :
    (c : Captures) (s t : List ℕ)
    → HasRoom c.buf c.bytes_left
    → length s + length t ≤ c.bytes_left
    → after (after c s) t ≡ after c (s ++ t)
unfolding after
after-append c s t (small, h) le =
    let fits : c.buf + length s + length t ≤ 2 ^ 32 = ground (arith, h) in
    captures_eq
      (store_wrapped t (c.buf + length s) (store_bytes c.buf s c.memory) fits
        ∙ sym (store_bytes-append s t c.buf c.memory))
      (omega (arith, length-append s t)) (omega (arith, length-append s t))

after-HasRoom :
    (c : Captures) (s : List ℕ)
    → HasRoom c.buf c.bytes_left
    → length s ≤ c.bytes_left
    → HasRoom (after c s).buf (after c s).bytes_left
unfolding after
after-HasRoom c s (small, h) le =
    (omega arith, λ pos. let (p, q) = h (omega arith) in (omega arith, omega arith))

stored :
    (bytes : List ℕ) (c : Captures)
    → let len = min (length bytes) c.bytes_left in
      let text = take c.bytes_left bytes in
      ◌≡◌ {A = ℕ × Captures}
        (
          len,
          record {
            memory = store_bytes c.buf text c.memory;
            buf = u32 (c.buf + len);
            bytes_left = c.bytes_left - len;
          },
        )
        (length text, after c text)
unfolding after
stored bytes c =
    let e : min (length bytes) c.bytes_left ≡ length (take c.bytes_left bytes) =
      omega (arith, length-take c.bytes_left bytes) in
    rw e refl

snprintf_sink_lem :
    (bytes : List ℕ) (c : Captures)
    → HasRoom c.buf c.bytes_left
    → let text = take c.bytes_left bytes in snprintf_sink bytes c ≡ (length text, after c text)
unfolding snprintf_sink copy_text
snprintf_sink_lem bytes c (small, h) = elim (Bool-cases (c.bytes_left == 0)) [
  | inl e ↦
      let t : take c.bytes_left bytes ≡ [] =
        ap (λ k. take k bytes) {x = c.bytes_left} {y = 0} (ground arith) in
      rw (e, t) (ap (λ c'. (0, c')) (after-nil c small))
  | inr e ↦
      let not_null : (c.buf == 0) ≡ false = ground (arith, h) in
      rw (e, not_null, take-min c.bytes_left bytes) (stored bytes c)
]

emit_snprintf :
    (calls : Calls) (c : Captures)
    → HasRoom c.buf c.bytes_left
    → let text = take c.bytes_left (concat calls) in
      emit snprintf_sink calls c ≡ (length text, after c text)
unfolding emit after
emit_snprintf [] c h =
    let t : take c.bytes_left [] ≡ [] = nil c.bytes_left in
    rw t (ap (λ c'. (0, c')) (after-nil c h.0))
  where
    nil : (k : ℕ) → take {A = ℕ} k [] ≡ []
    nil zero = refl
    nil (suc k) = refl
emit_snprintf (bytes ∷ calls) c h =
    let n = c.bytes_left in
    let t1 = take n bytes in
    let t2 = take (n - length t1) (concat calls) in
    let split : take n (bytes ++ concat calls) ≡ t1 ++ t2 =
      take-append n bytes (concat calls)
      ∙ ap (λ k. t1 ++ take k (concat calls)) {x = n - length bytes} {y = n - length t1}
          (omega (arith, length-take n bytes)) in
    let small : length t1 ≤ n = omega (arith, length-take n bytes) in
    let fits : length t1 + length t2 ≤ n =
      omega (arith, length-take (n - length t1) (concat calls)) in
    let rest : emit snprintf_sink calls (after c t1) ≡ (length t2, after (after c t1) t2) =
      emit_snprintf calls (after c t1) (after-HasRoom c t1 h small) in
    let bound : n < 2 ^ 32 = ground (arith, h.1) in
    let total : u32 (length t1 + length t2) ≡ length (t1 ++ t2) =
      omega (arith, length-append t1 t2) in
    rw (snprintf_sink_lem bytes c h, split, rest)
      (ap₂ (λ a b. (a, b)) total (after-append c t1 t2 h fits))

-- Where the format makes some calls, base_snprintf to a 32-bit address returns the number of bytes
-- that it stored, if the buffer is not NULL and does not go round the end of the address space, or
-- its length is 0; from the start of the buffer on, the memory holds the first bytes of what the
-- calls print, as many as fit in the length, and every other address is as it was.
pub base_snprintf_lem :
    (buf len : ℕ) (format : List ℕ) (args : List Arg) (mem : Memory) (calls : Calls)
    → HasRoom buf len
    → format_calls format args ≡ printed calls
    → let text = take len (concat calls) in
      (mem' : Memory) × (base_snprintf buf len format args mem ≡ some (length text, mem'))
      × ((a : ℕ)
          → mem' a
            ≡ (if leb buf a && ltb a (buf + length text) then get_or text (a - buf) 0 else mem a))
unfolding base_snprintf base_vfprintf run_captured run_printed or_null after
base_snprintf_lem buf len format args mem calls h e =
    let c : Captures = record { memory = mem; buf = buf; bytes_left = len } in
    let text = take len (concat calls) in
    (
      store_bytes buf text mem,
      ap (λ p. run_captured (run_printed snprintf_sink p) c) e
          ∙ (ap (λ (r : ℕ × Captures). some (r.0, r.1.memory)) (emit_snprintf calls c h)),
      store_bytes_lem text buf mem,
    )
