-- ===== src/Usbdev/Pool/Stack.antt =====
-- The pool refines a stack of at most 32 buffer numbers.
use sunburst_chip.Base.{
  ℕ, zero, suc, ◌+◌, ◌≤◌, ◌<◌, ◌≡◌, refl, arith, ◌∙◌, ap, ap₂, Bool, true, false,
}
use sunburst_chip.Base.{
  Option, none, some, List, [], ◌∷◌, get_or, set, length, length-set, if◌then◌else◌, ltb,
}
use sunburst_chip.Base.{lt→ltb, ◌==◌, Bool-cases, inl, inr, u8}
use sunburst_chip.Base.{ℤ, pos, negsuc}
use sunburst_chip.Usbdev.Pool.{BufferPool, add, remove, add_all, init, is_empty}

-- The stack of buffers, the top first.
abbrev pub Stack : Type 0
Stack = List ℕ

unfoldable pub push : Stack → ℕ → Bool × Stack
push s id =
    if ltb (length s) 32 then (if ltb id 32 then (true, id ∷ s) else (false, s)) else (false, s)

unfoldable pub pop : Stack → Option ℕ × Stack
pop [] = (none, [])
pop (x ∷ s) = (some x, s)

abbrev pub is_nil : Stack → Bool
is_nil [] = true
is_nil (x ∷ s) = false

-- The lowest `n` entries of the array, the highest of them first.
abbrev pub entries : List ℕ → ℕ → Stack
entries buffers zero = []
entries buffers (suc n) = get_or buffers n 0 ∷ entries buffers n

abbrev pub size : ℤ → ℕ
size (pos n) = suc n
size (negsuc n) = 0

abbrev pub contents : BufferPool → Stack
contents pool = entries pool.buffers (size pool.top)

-- The top lies between -1 and 31, in an array of 32.
abbrev pub InRange : ℤ → Type 0
InRange (pos n) = n < 32
InRange (negsuc n) = n ≡ 0

pub record IsValid (pool : BufferPool) : Type 0 where
  pub room : length pool.buffers ≡ 32
  pub in_range : InRange pool.top

length-entries : (b : List ℕ) (n : ℕ) → length (entries b n) ≡ n
length-entries b zero = refl
length-entries b (suc n) = ap suc (length-entries b n)

get_or-set_self : (b : List ℕ) (i v : ℕ) → i < length b → get_or (set b i v) i 0 ≡ v
get_or-set_self [] i v h = absurd (omega arith)
get_or-set_self (x ∷ b) zero v h = refl
get_or-set_self (x ∷ b) (suc i) v h = get_or-set_self b i v (omega arith)

get_or-set_below : (b : List ℕ) (i j v : ℕ) → j < i → get_or (set b i v) j 0 ≡ get_or b j 0
get_or-set_below [] i j v h = refl
get_or-set_below (x ∷ b) zero j v h = absurd (omega arith)
get_or-set_below (x ∷ b) (suc i) zero v h = refl
get_or-set_below (x ∷ b) (suc i) (suc j) v h = get_or-set_below b i j v (omega arith)

entries-set : (b : List ℕ) (n i v : ℕ) → n ≤ i → entries (set b i v) n ≡ entries b n
entries-set b zero i v h = refl
entries-set b (suc n) i v h =
    ap₂ ◌∷◌ (get_or-set_below b i n v h) (entries-set b n i v (omega arith))

-- The entries with one more written above them.
entries-push : (b : List ℕ) (n v : ℕ) → n < length b → entries (set b n v) (suc n) ≡ v ∷ entries b n
entries-push b n v h = ap₂ ◌∷◌ (get_or-set_self b n v h) (entries-set b n n v (omega arith))

abbrev pool_of : List ℕ → ℤ → BufferPool
pool_of b top = record { buffers = b; top = top }

-- What a refined addition and removal look like, for a pool in parts.
abbrev Added : List ℕ → ℤ → ℕ → Type 0
Added b top id =
    let (added, pool) = add (pool_of b top) id in
    ((added, contents pool) ≡ push (entries b (size top)) id) × IsValid pool

abbrev Removed : List ℕ → ℤ → Type 0
Removed b top =
    let (id, pool) = remove (pool_of b top) in
    ((id, contents pool) ≡ pop (entries b (size top))) × IsValid pool

add_at : (b : List ℕ) (top : ℤ) (id : ℕ) → length b ≡ 32 → InRange top → Added b top id
unfolding add push
add_at b (pos n) id room h =
    let l = length-entries b (suc n) in
    elim (Bool-cases (n == 31)) [
      | inl full ↦
          let t : ltb (suc n) 32 ≡ false = ground arith in
          rw (full, l, t) (refl, record { room = room; in_range = h })
      | inr free ↦
          let lt : suc n < 32 = ground arith in
          let t : ltb (suc n) 32 ≡ true = lt→ltb (suc n) 32 lt in
          elim (Bool-cases (ltb id 32)) [
            | inl ok ↦
                rw (free, ok, l, t)
                  (
                    ap (λ s. (true, s)) (entries-push b (suc n) id (omega arith)),
                    record { room = length-set b (suc n) id ∙ room; in_range = lt },
                  )
            | inr bad ↦ rw (free, bad, l, t) (refl, record { room = room; in_range = h })
          ]
    ]
add_at b (negsuc zero) id room h = elim (Bool-cases (ltb id 32)) [
  | inl ok ↦ rw ok (
    ap (λ s. (true, s)) (entries-push b 0 id (omega arith)),
    record { room = length-set b 0 id ∙ room; in_range = omega arith },
  )
  | inr bad ↦ rw bad (refl, record { room = room; in_range = h })
]
add_at b (negsuc (suc n)) id room h = absurd (omega arith)

remove_at : (b : List ℕ) (top : ℤ) → length b ≡ 32 → InRange top → Removed b top
unfolding remove pop
remove_at b (pos zero) room h = (refl, record { room = room; in_range = refl })
remove_at b (pos (suc n)) room h = (refl, record { room = room; in_range = omega arith })
remove_at b (negsuc zero) room h = (refl, record { room = room; in_range = h })
remove_at b (negsuc (suc n)) room h = absurd (omega arith)

-- Adding a buffer to a valid pool answers what pushing it on the pool's stack does, and leaves a
-- valid pool with that stack; both refuse a full pool or stack and a number of 32 or more.
pub add_refines :
    (pool : BufferPool) (id : ℕ)
    → IsValid pool
    → let (added, pool') = add pool id in
      ((added, contents pool') ≡ push (contents pool) id) × IsValid pool'
add_refines pool id v = add_at pool.buffers pool.top id v.room v.in_range

-- Removing from a valid pool answers what popping its stack does, and leaves a valid pool with that
-- stack.
pub remove_refines :
    (pool : BufferPool)
    → IsValid pool
    → let (id, pool') = remove pool in ((id, contents pool') ≡ pop (contents pool)) × IsValid pool'
remove_refines pool v = remove_at pool.buffers pool.top v.room v.in_range

-- The stack `n - 1, …, 1, 0` of the first buffers.
abbrev pub countdown : ℕ → Stack
countdown zero = []
countdown (suc n) = n ∷ countdown n

length-countdown : (n : ℕ) → length (countdown n) ≡ n
length-countdown zero = refl
length-countdown (suc n) = ap suc (length-countdown n)

push-countdown : (i : ℕ) → i < 32 → push (countdown i) i ≡ (true, countdown (suc i))
unfolding push
push-countdown i h = rw (length-countdown i, lt→ltb i 32 h) refl

-- What the loop has done once it ends.
abbrev Filled : ℕ → Bool × BufferPool → Type 0
Filled n (ok, pool) = (ok ≡ true) × IsValid pool × (contents pool ≡ countdown n)

step_byte : (i : ℕ) → i < 32 → u8 (i + 1) ≡ suc i
step_byte i h = omega arith

add_all-step :
    (i left : ℕ) (pool : BufferPool)
    → i < 32
    → IsValid pool
    → contents pool ≡ countdown i
    → (add_all i (suc left) pool ≡ add_all (suc i) left (add pool i).1)
      × IsValid (add pool i).1
      × (contents (add pool i).1 ≡ countdown (suc i))
unfolding add_all
add_all-step i left pool h v e =
    let (r, v') = add_refines pool i v in
    let r' : ((add pool i).0, contents (add pool i).1) ≡ (true, countdown (suc i)) =
      r ∙ ap (λ s. push s i) e ∙ push-countdown i h in
    let next : u8 (i + 1) ≡ suc i = step_byte i h in
    let ok : (add pool i).0 ≡ true = ap (λ t. t.0) r' in (rw (ok, next) refl, v', ap (λ t. t.1) r')

add_all_lem :
    (i left : ℕ) (pool : BufferPool)
    → i + left ≤ 32
    → IsValid pool
    → contents pool ≡ countdown i
    → Filled (i + left) (add_all i left pool)
add_all_lem i zero pool h v e =
    let z : i + 0 ≡ i = omega arith in unfold add_all in rw z (refl, v, e)
add_all_lem i (suc left) pool h v e =
    let (step, v', e') = add_all-step i left pool (omega arith) v e in
    let z : i + suc left ≡ suc i + left = omega arith in
    rw (step, z) (add_all_lem (suc i) left (add pool i).1 (omega arith) v' e')

-- Initializing a pool with an array of 32 succeeds, whatever it held, and leaves it valid, with the
-- 32 buffers 31, ..., 1, 0 from the top, each once.
pub init_lem :
    (pool : BufferPool)
    → length pool.buffers ≡ 32
    → let (ok, pool') = init pool in (ok ≡ true) × IsValid pool' × (contents pool' ≡ countdown 32)
init_lem pool room =
    unfold init in
    add_all_lem 0 32 (pool_of pool.buffers (negsuc 0)) (omega arith)
      (record { room = room; in_range = refl }) refl

length_at : (b : List ℕ) (top : ℤ) → InRange top → length (entries b (size top)) ≤ 32
length_at b (pos n) h = omega (arith, length-entries b (suc n))
length_at b (negsuc n) h = omega arith

empty_at :
    (b : List ℕ) (top : ℤ) → InRange top → is_empty (pool_of b top) ≡ is_nil (entries b (size top))
unfolding is_empty
empty_at b (pos n) h = refl
empty_at b (negsuc zero) h = refl
empty_at b (negsuc (suc n)) h = absurd (omega arith)

pub length-contents : (pool : BufferPool) → IsValid pool → length (contents pool) ≤ 32
length-contents pool v = length_at pool.buffers pool.top v.in_range

-- A valid pool says that it is empty if its stack is.
pub is_empty_lem : (pool : BufferPool) → IsValid pool → is_empty pool ≡ is_nil (contents pool)
is_empty_lem pool v = empty_at pool.buffers pool.top v.in_range
