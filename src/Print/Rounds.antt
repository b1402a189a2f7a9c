-- ===== src/Print/Rounds.antt =====
-- The rounds of the formatting loop.
use sunburst_chip.Base.{
  ℕ, zero, suc, ◌≤◌, ◌<◌, ◌≡◌, ◌≢◌, refl, sym, ap, ◌∙◌, arith, ◌==◌, ◌&&◌, ◌||◌, not, ltb,
  if◌then◌else◌, List, [], ◌∷◌, length, get_or, none, some, true, false, Bool, Bool-cases, inl, inr,
}
use sunburst_chip.Print.{Calls}
use sunburst_chip.Print.Format.{
  Arg, Consumed, consumed, refused, text_before, consume_until_percent, drop_one, consume_bang,
  consume_width, specifier_of, consume_format_specifier, process_specifier, Processed, Printed,
  printed, bad_args, no_fuel, after_calls, vfprintf_process, vfprintf_specifier, vfprintf_loop,
  format_calls,
}

text_before-length : (s : List ℕ) → length (text_before s).1 ≤ length s
unfolding text_before
text_before-length [] = omega arith
text_before-length (c ∷ s) = ground (arith, text_before-length s)

consume_bang-length : (s : List ℕ) → length (consume_bang s).1 ≤ length s
unfolding consume_bang
consume_bang-length [] = omega arith
consume_bang-length (c ∷ s) = ground arith

le_step : {a b : ℕ} → a ≤ b → a ≤ suc b
le_step h = omega arith

consume_width-length : (s : List ℕ) (w p : ℕ) → length (consume_width w p s).2 ≤ length s
unfolding consume_width
consume_width-length [] w p = omega arith
consume_width-length (c ∷ s) w p = elim (Bool-cases (ltb c b'0' || ltb b'9' c)) [
  | inl e ↦ rw e (omega arith)
  | inr e ↦ rw e (le_step (consume_width-length s _ _))
]

-- What is left after the specifier, if there is one.
abbrev left : Consumed → List ℕ
left (consumed spec rest) = rest
left (refused calls) = []

specifier_of-length :
    (b : Bool) (w p : ℕ) (s : List ℕ) → length (left (specifier_of b w p s)) ≤ length s
unfolding specifier_of
specifier_of-length b w p [] = omega arith
specifier_of-length b w p (c ∷ s) = elim (Bool-cases (c == 0)) [
  | inl e ↦ rw e (omega arith)
  | inr e ↦ elim (Bool-cases ((w == 0 && not (p == 0)) || ltb 32 w)) [
    | inl f ↦ rw (e, f) (omega arith)
    | inr f ↦ rw (e, f) (omega arith)
  ]
]

consume_format_specifier-length :
    (s : List ℕ) → length (left (consume_format_specifier s)) ≤ length s
unfolding consume_format_specifier
consume_format_specifier-length s =
    let s' = (consume_bang s).1 in
    let r = consume_width 0 0 s' in
    omega (
      arith,
      consume_bang-length s,
      consume_width-length s' 0 0,
      specifier_of-length (consume_bang s).0 r.0 r.1 r.2,
    )

-- After a `%`, the rest is shorter than the format.
percent-length :
    (format : List ℕ)
    → let (calls, rest, percent) = consume_until_percent format in
      percent ≡ true → length (drop_one rest) < length format
unfolding consume_until_percent
percent-length format h = shorter (text_before format).1 (text_before-length format) h
  where
    shorter :
        (rest : List ℕ)
        → length rest ≤ length format
        → not (get_or rest 0 0 == 0) ≡ true
        → length (drop_one rest) < length format
    shorter [] le e = ground arith
    shorter (c ∷ rest) le e = omega arith

abbrev ended : Printed → Bool
ended (printed calls) = true
ended bad_args = true
ended no_fuel = false

after_calls-ended : (calls : Calls) (p : Printed) → ended (after_calls calls p) ≡ ended p
unfolding after_calls
after_calls-ended calls (printed c) = refl
after_calls-ended calls bad_args = refl
after_calls-ended calls no_fuel = refl

process-ended :
    (loop : List ℕ → List Arg → Printed) (p : Processed) (format : List ℕ)
    → ((args : List Arg) → ended (loop format args) ≡ true)
    → ended (vfprintf_process loop p format) ≡ true
unfolding vfprintf_process
process-ended loop none format h = refl
process-ended loop (some (calls, args)) format h =
    after_calls-ended calls (loop format args) ∙ h args

specifier-ended :
    (loop : List ℕ → List Arg → Printed) (c : Consumed) (args : List Arg)
    → ((args : List Arg) → ended (loop (left c) args) ≡ true)
    → ended (vfprintf_specifier loop c args) ≡ true
unfolding vfprintf_specifier
specifier-ended loop (consumed spec rest) args h =
    process-ended loop (process_specifier spec args) rest h
specifier-ended loop (refused calls) args h = refl

vfprintf_loop-ended :
    (fuel : ℕ) (format : List ℕ) (args : List Arg)
    → length format < fuel
    → ended (vfprintf_loop fuel format args) ≡ true
unfolding vfprintf_loop
vfprintf_loop-ended zero format args h = absurd (omega arith)
vfprintf_loop-ended (suc fuel) [] args h = refl
vfprintf_loop-ended (suc fuel) (c ∷ s) args h =
    let (calls, rest, percent) = consume_until_percent (c ∷ s) in
    let spec = consume_format_specifier (drop_one rest) in
    let next = vfprintf_specifier (vfprintf_loop fuel) spec args in
    after_calls-ended calls (if percent then next else printed []) ∙ elim (Bool-cases percent) [
      | inl e ↦
          let shorter : length (drop_one rest) < length (c ∷ s) = percent-length (c ∷ s) e in
          rw e (
            specifier-ended (vfprintf_loop fuel) spec args (λ args'.
              vfprintf_loop-ended fuel (left spec) args'
                (omega (arith, consume_format_specifier-length (drop_one rest)))))
      | inr e ↦ rw e refl
    ]

-- For every format and arguments, one round more than the format has characters is enough for
-- formatting to end.
pub format_calls_ends : (format : List ℕ) (args : List Arg) → format_calls format args ≢ no_fuel
unfolding format_calls
format_calls_ends format args e =
    let h = vfprintf_loop-ended (suc (length format)) format args (omega arith) in
    let f : true ≡ false = sym h ∙ ap ended e in ground (arith, f)
