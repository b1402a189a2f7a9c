-- ===== src/Print/Pieces.antt =====
-- A format made of texts and specifiers prints them in turn.
use sunburst_chip.Base.{
  ℕ, zero, suc, ◌≤◌, ◌<◌, ◌≡◌, ◌≢◌, refl, ap, ◌∙◌, arith, ◌==◌, ◌||◌, if◌then◌else◌, List, [], ◌∷◌,
  ◌++◌, length, length-append, Bool, Bool-cases, inl, inr, none, some, true, false,
}
use sunburst_chip.Print.{Calls}
use sunburst_chip.Print.Format.{
  Arg, FormatSpecifier, text_before, consume_until_percent, drop_one, consume_format_specifier,
  process_specifier, Processed, Printed, printed, bad_args, after_calls, vfprintf_process,
  vfprintf_specifier, vfprintf_loop, format_calls,
}
use sunburst_chip.Print.Specifier.{
  spec_text, width_text, IsConversion, IsWidth, consume_format_specifier-spec_text,
}

-- A text, which may be empty, and the specifier after it with the digits of its width.
pub record Piece : Type 0 where
  pub text : List ℕ
  pub spec : FormatSpecifier
  pub digits : List ℕ

abbrev pub IsText : List ℕ → Type 0
IsText [] = Unit {0}
IsText (c ∷ s) = (c ≢ 0) × (c ≢ b'%') × IsText s

abbrev pub ArePieces : List Piece → Type 0
ArePieces [] = Unit {0}
ArePieces (p ∷ ps) =
    IsText p.text
    × IsConversion p.spec.type
    × IsWidth p.spec.padding p.spec.width p.digits
    × ArePieces ps

abbrev pub format_text : List Piece → List ℕ → List ℕ
format_text [] last = last
format_text (p ∷ ps) last = p.text ++ (b'%' ∷ spec_text p.spec p.digits (format_text ps last))

-- A text that is not empty is one call.
abbrev pub text_calls : List ℕ → Calls
text_calls [] = []
text_calls (c ∷ s) = (c ∷ s) ∷ []

-- What a specifier's calls and the arguments that are left go on to.
abbrev pub then_print : Processed → (List Arg → Printed) → Printed
then_print none k = bad_args
then_print (some (calls, args)) k = after_calls calls (k args)

-- Each piece in turn, and the last text.
abbrev pub print_pieces : List Piece → List ℕ → List Arg → Printed
print_pieces [] last args = printed (text_calls last)
print_pieces (p ∷ ps) last args =
    after_calls (text_calls p.text)
      (then_print (process_specifier p.spec args) (print_pieces ps last))

text_before_percent :
    (s rest : List ℕ) → IsText s → text_before (s ++ (b'%' ∷ rest)) ≡ (s, b'%' ∷ rest)
unfolding text_before
text_before_percent [] rest h = refl
text_before_percent (c ∷ s) rest (nz, np, h) =
    let e : (c == 0 || c == b'%') ≡ false = ground arith in
    rw (e, text_before_percent s rest h) refl

text_before_end : (s : List ℕ) → IsText s → text_before s ≡ (s, [])
unfolding text_before
text_before_end [] h = refl
text_before_end (c ∷ s) (nz, np, h) =
    let e : (c == 0 || c == b'%') ≡ false = ground arith in rw (e, text_before_end s h) refl

text_calls_lem : (s : List ℕ) → (if length s == 0 then [] else s ∷ []) ≡ text_calls s
text_calls_lem [] = refl
text_calls_lem (c ∷ s) = ground arith

consume_percent :
    (s rest : List ℕ)
    → IsText s
    → consume_until_percent (s ++ (b'%' ∷ rest)) ≡ (text_calls s, b'%' ∷ rest, true)
unfolding consume_until_percent
consume_percent s rest h =
    rw (text_before_percent s rest h) (ap (λ t. (t, b'%' ∷ rest, true)) (text_calls_lem s))

consume_end : (s : List ℕ) → IsText s → consume_until_percent s ≡ (text_calls s, [], false)
unfolding consume_until_percent
consume_end s h = rw (text_before_end s h) (ap (λ t. (t, [], false)) (text_calls_lem s))

then_print_lem :
    (p : Processed) (format : List ℕ) (loop : List ℕ → List Arg → Printed) (k : List Arg → Printed)
    → ((args : List Arg) → loop format args ≡ k args)
    → vfprintf_process loop p format ≡ then_print p k
unfolding vfprintf_process
then_print_lem none format loop k h = refl
then_print_lem (some (calls, args)) format loop k h = ap (after_calls calls) (h args)

-- A round of the loop.
vfprintf_loop_step :
    (fuel : ℕ) (format : List ℕ) (args : List Arg)
    → format ≢ []
    → let (calls, rest, percent) = consume_until_percent format in
      vfprintf_loop (suc fuel) format args
      ≡ after_calls calls (
          if percent
          then vfprintf_specifier
              (vfprintf_loop fuel)
              (consume_format_specifier (drop_one rest))
              args
          else printed [])
unfolding vfprintf_loop
vfprintf_loop_step fuel [] args h = absurd (h refl)
vfprintf_loop_step fuel (c ∷ s) args h = refl

vfprintf_loop_piece :
    (fuel : ℕ) (p : Piece) (rest : List ℕ) (args : List Arg) (k : List Arg → Printed)
    → IsText p.text
    → IsConversion p.spec.type
    → IsWidth p.spec.padding p.spec.width p.digits
    → ((args : List Arg) → vfprintf_loop fuel rest args ≡ k args)
    → vfprintf_loop (suc fuel) (p.text ++ (b'%' ∷ spec_text p.spec p.digits rest)) args
      ≡ after_calls (text_calls p.text) (then_print (process_specifier p.spec args) k)
unfolding vfprintf_specifier
vfprintf_loop_piece fuel p rest args k text conv width h =
    let s = spec_text p.spec p.digits rest in
    vfprintf_loop_step fuel (p.text ++ (b'%' ∷ s)) args (nonempty p.text s)
    ∙ rw
        (
          consume_percent p.text s text,
          consume_format_specifier-spec_text p.spec p.digits rest conv width,
        )
        (ap (after_calls (text_calls p.text))
          (then_print_lem (process_specifier p.spec args) rest (vfprintf_loop fuel) k h))
  where
    nonempty : (t s : List ℕ) → t ++ (b'%' ∷ s) ≢ []
    nonempty [] s e = ground arith
    nonempty (c ∷ t) s e = ground arith

text_loop :
    (fuel : ℕ) (s : List ℕ) (args : List Arg)
    → IsText s
    → vfprintf_loop (suc fuel) s args ≡ printed (text_calls s)
unfolding vfprintf_loop after_calls
text_loop fuel [] args h = refl
text_loop fuel (c ∷ s) args h =
    vfprintf_loop_step fuel (c ∷ s) args (λ e. ground arith)
    ∙ ap
        (λ (t : Calls × List ℕ × Bool). after_calls t.0 (
          if t.2
          then vfprintf_specifier (vfprintf_loop fuel) (consume_format_specifier (drop_one t.1))
              args
          else printed []))
        (consume_end (c ∷ s) h)

vfprintf_loop_pieces :
    (fuel : ℕ) (ps : List Piece) (last : List ℕ) (args : List Arg)
    → ArePieces ps
    → IsText last
    → length ps < fuel
    → vfprintf_loop fuel (format_text ps last) args ≡ print_pieces ps last args
vfprintf_loop_pieces zero ps last args h text enough = absurd (omega arith)
vfprintf_loop_pieces (suc fuel) [] last args h text enough = text_loop fuel last args text
vfprintf_loop_pieces (suc fuel) (p ∷ ps) last args (t, conv, width, h) text enough =
    vfprintf_loop_piece fuel p (format_text ps last) args (print_pieces ps last) t conv width
      (λ args'. vfprintf_loop_pieces fuel ps last args' h text (omega arith))

format_text-length : (ps : List Piece) (last : List ℕ) → length ps ≤ length (format_text ps last)
format_text-length [] last = omega arith
format_text-length (p ∷ ps) last =
    let rest = format_text ps last in
    omega (
      arith,
      length-append p.text (b'%' ∷ spec_text p.spec p.digits rest),
      longer p rest,
      format_text-length ps last,
    )
  where
    longer : (p : Piece) (rest : List ℕ) → length rest ≤ length (spec_text p.spec p.digits rest)
    longer p rest =
        let w = width_text p.spec.padding p.digits in
        let e = length-append w (p.spec.type ∷ rest) in
        elim (Bool-cases p.spec.is_nonstd) [
          | inl nonstd ↦ rw nonstd (omega (arith, e))
          | inr std ↦ rw std (omega (arith, e))
        ]

-- A format that is made of texts without percent sign and NUL, each followed by a specifier with no
-- width or a width from 1 to 32, and of a last such text, makes the calls of the sink that its
-- pieces make in turn: a text that is not empty in one call, and for a specifier what
-- process_specifier does with the arguments left; it is undefined exactly where a specifier finds
-- no argument of its kind.
pub format_calls-format_text :
    (ps : List Piece) (last : List ℕ) (args : List Arg)
    → ArePieces ps
    → IsText last
    → format_calls (format_text ps last) args ≡ print_pieces ps last args
unfolding format_calls
format_calls-format_text ps last args h text =
    vfprintf_loop_pieces (suc (length (format_text ps last))) ps last args h text
      (omega (arith, format_text-length ps last))
