-- ===== src/Ujson/Strings.antt =====
-- Reading back a string that was written.
use mathlib.Core.List.{append_assoc, append-nil}
use sunburst_chip.Base.{
  ℕ, zero, suc, ◌+◌, ◌-◌, ◌^◌, ◌≤◌, ◌<◌, ◌≡◌, ◌≢◌, refl, sym, ap, ◌∙◌, arith, ltb, ◌==◌, true,
  false, u8, u32, if◌then◌else◌, List, [], ◌∷◌, ◌++◌, length,
}
use sunburst_chip.Mmio.{M}
use sunburst_chip.Ujson.{Ujson, Result, ok, return, ◌>>=◌, is_space}
use sunburst_chip.Ujson.Write.{escaped, ujson_putbuf, string_loop, ujson_serialize_string}
use sunburst_chip.Ujson.Read.{
  ujson_getc, consume_whitespace, ujson_consume, qs_char, qs_loop, ujson_parse_qs,
}
use sunburst_chip.Ujson.Channel.{
  IsSource, IsTarget, pending, IsRead, IsWritten, IsRead-then, IsWritten-then, ujson_getc_lem,
  ujson_putbuf_lem, append_cancel,
}
use sunburst_chip.Ujson.Characters.{char_lem}

abbrev AreChars : List ℕ → Type 0
AreChars [] = Unit {0}
AreChars (c ∷ s) = (0 < c) × (c < 256) × AreChars s

abbrev escapes : List ℕ → List ℕ
escapes [] = []
escapes (c ∷ s) = escaped c ++ escapes s

abbrev quoted : List ℕ → List ℕ
quoted s = b'"' ∷ (escapes s ++ (b'"' ∷ []))

module _ {W : Type 0} (getc : M W ℕ) (text : W → List ℕ) (source : IsSource getc text) where
  -- The round after the first character `x` of what the byte `c` is written as.
  qs_round :
      (fuel len c x : ℕ) (str : List ℕ) (uj : Ujson W) (more out rest : List ℕ)
      → x < 256
      → x ≢ b'"'
      → IsRead text (qs_char getc x) uj c more
      → ((uj' : Ujson W)
          → pending text uj' ≡ more
          → IsRead text
              (qs_loop getc fuel (len - 1) (if ltb 0 len then str ++ (c ∷ []) else str))
              uj'
              out
              rest)
      → IsRead text
          (if u8 x == b'"' then return str else (do
            ch ← qs_char getc (u8 x)
            qs_loop getc fuel (len - 1) (if ltb 0 len then str ++ (ch ∷ []) else str)))
          uj
          out
          rest
  qs_round fuel len c x str uj more out rest h nq char next =
      let same : u8 x ≡ x = omega arith in
      let other : (x == b'"') ≡ false = ground arith in
      rw (same, other) (IsRead-then text (qs_char getc x) _ uj c out more rest char next)

  qs_loop_lem :
      (s : List ℕ) (fuel len : ℕ) (str : List ℕ) (uj : Ujson W) (rest : List ℕ)
      → AreChars s
      → length s < fuel
      → length s ≤ len
      → pending text uj ≡ escapes s ++ (b'"' ∷ rest)
      → IsRead text (qs_loop getc fuel len str) uj (str ++ s) rest
  unfolding qs_loop
  qs_loop_lem s zero len str uj rest h enough room p = absurd (omega arith)
  qs_loop_lem [] (suc fuel) len str uj rest h enough room p =
      IsRead-then text (ujson_getc getc) _ uj b'"' (str ++ []) rest rest
        (ujson_getc_lem getc text source uj b'"' rest (omega arith) p)
        (λ uj' q. (uj', ap (λ (t : List ℕ). (ok t, uj')) (sym (append-nil str)), q))
  qs_loop_lem (c ∷ s) (suc fuel) len str uj rest (pos, small, h) enough room p =
      let more = escapes s ++ (b'"' ∷ rest) in
      let (x, mid, below, nq, first, char_read) =
        char_lem getc text source c uj more small
          (p ∙ append_assoc (escaped c) (escapes s) (b'"' ∷ rest)) in
      let has_room : ltb 0 len ≡ true = ground arith in
      let snoc : (str ++ (c ∷ [])) ++ s ≡ str ++ (c ∷ s) = append_assoc str (c ∷ []) s in
      let loop = λ (uj2 : Ujson W) (q2 : pending text uj2 ≡ more).
        qs_loop_lem s fuel (len - 1) (str ++ (c ∷ [])) uj2 rest h (omega arith) (omega arith) q2 in
      IsRead-then text (ujson_getc getc) _ uj x (str ++ (c ∷ s)) mid rest
        (ujson_getc_lem getc text source uj x mid below first)
        λ uj1 q1.
          qs_round fuel len c x str uj1 more (str ++ (c ∷ s)) rest below nq (char_read uj1 q1)
            (λ uj2 q2. rw (has_room, sym snoc) (loop uj2 q2))

  -- The opening quote is not white space.
  quote_lem :
      (fuel : ℕ) (uj : Ujson W) (rest : List ℕ)
      → 0 < fuel
      → pending text uj ≡ b'"' ∷ rest
      → IsRead text (ujson_consume getc fuel b'"') uj 0 rest
  unfolding ujson_consume consume_whitespace is_space
  quote_lem zero uj rest h p = absurd (omega arith)
  quote_lem (suc fuel) uj rest h p =
      IsRead-then text (consume_whitespace getc (suc fuel)) _ uj b'"' 0 rest rest
        (IsRead-then text (ujson_getc getc) _ uj b'"' b'"' rest rest
          (ujson_getc_lem getc text source uj b'"' rest (omega arith) p) (λ uj' q. (uj', refl, q)))
        (λ uj' q. (uj', refl, q))

  ujson_parse_qs_lem :
      (s : List ℕ) (fuel len : ℕ) (uj : Ujson W) (rest : List ℕ)
      → AreChars s
      → length s < fuel
      → length s < len
      → len < 2 ^ 32
      → pending text uj ≡ quoted s ++ rest
      → IsRead text (ujson_parse_qs getc fuel len) uj (length s, s ++ (0 ∷ [])) rest
  unfolding ujson_parse_qs
  ujson_parse_qs_lem s fuel len uj rest h enough room fits p =
      let more = escapes s ++ (b'"' ∷ rest) in
      let q : pending text uj ≡ b'"' ∷ more =
        p ∙ ap (λ t. b'"' ∷ t) (append_assoc (escapes s) (b'"' ∷ []) rest) in
      IsRead-then text (ujson_consume getc fuel b'"') _ uj 0 _ more rest
        (quote_lem fuel uj more (omega arith) q)
        λ uj1 q1.
          IsRead-then text (qs_loop getc fuel (u32 (len + 2 ^ 32 - 1)) []) _ uj1 s _ rest rest
            (qs_loop_lem s fuel (u32 (len + 2 ^ 32 - 1)) [] uj1 rest h enough (omega arith) q1)
            (λ uj2 q2. (uj2, refl, q2))

module _ {W : Type 0} (putbuf : List ℕ → M W ℕ) (written : W → List ℕ)
    (target : IsTarget putbuf written) where
  string_loop_lem :
      (s : List ℕ) (uj : Ujson W)
      → AreChars s
      → IsWritten written (string_loop putbuf s) uj 0 (escapes s)
  unfolding string_loop
  string_loop_lem [] uj h = (uj, refl, sym (append-nil (written uj.io_context)))
  string_loop_lem (c ∷ s) uj (pos, small, h) =
      let ne : (c == 0) ≡ false = ground arith in
      rw ne (
        IsWritten-then written (ujson_putbuf putbuf (escaped c)) (λ _. string_loop putbuf s) uj 0 0
          (escaped c) (escapes s) (ujson_putbuf_lem putbuf written target (escaped c) uj)
          (λ uj'. string_loop_lem s uj' h))

  ujson_serialize_string_lem :
      (s : List ℕ) (uj : Ujson W)
      → AreChars s
      → IsWritten written (ujson_serialize_string putbuf s) uj 0 (quoted s)
  unfolding ujson_serialize_string
  ujson_serialize_string_lem s uj h =
      let quote = ujson_putbuf_lem putbuf written target (b'"' ∷ []) in
      IsWritten-then written (ujson_putbuf putbuf (b'"' ∷ [])) _ uj 0 0 (b'"' ∷ [])
        (escapes s ++ (b'"' ∷ [])) (quote uj)
        λ uj1.
          IsWritten-then written (string_loop putbuf s) _ uj1 0 0 (escapes s) (b'"' ∷ [])
            (string_loop_lem s uj1 h)
            λ uj2.
              IsWritten-then written (ujson_putbuf putbuf (b'"' ∷ [])) _ uj2 0 0 (b'"' ∷ []) []
                (quote uj2) (λ uj3. (uj3, refl, sym (append-nil (written uj3.io_context))))

-- Writing a string of bytes from 1 to 255 to a channel that takes everything succeeds; where what
-- was written is then read from a channel, with whatever follows it and room for the string and its
-- NUL, the parser gives the length, the same bytes and the NUL, and leaves just what follows.
pub ujson_parse_qs-serialize :
    {W V : Type 0} (putbuf : List ℕ → M W ℕ) (written : W → List ℕ) (getc : M V ℕ)
    (text : V → List ℕ) (s t rest : List ℕ) (fuel len : ℕ) (uj : Ujson W) (vj : Ujson V)
    → IsTarget putbuf written
    → IsSource getc text
    → AreChars s
    → length s < fuel
    → length s < len
    → len < 2 ^ 32
    → written (ujson_serialize_string putbuf s uj).1.io_context ≡ written uj.io_context ++ t
    → pending text vj ≡ t ++ rest
    → ((ujson_serialize_string putbuf s uj).0 ≡ ok 0)
      × IsRead text (ujson_parse_qs getc fuel len) vj (length s, s ++ (0 ∷ [])) rest
ujson_parse_qs-serialize putbuf written getc text s t rest fuel len uj vj target source h enough
      room fits w p =
    let (uj', e, q) = ujson_serialize_string_lem putbuf written target s uj h in
    let same : written uj.io_context ++ quoted s ≡ written uj.io_context ++ t =
      sym q ∙ sym (ap (λ (r : Result ℕ × Ujson _). written r.1.io_context) e) ∙ w in
    let out : quoted s ≡ t = append_cancel (written uj.io_context) (quoted s) t same in
    (
      ap (λ (r : Result ℕ × Ujson _). r.0) e,
      ujson_parse_qs_lem getc text source s fuel len vj rest h enough room fits
          (p ∙ ap (λ l. l ++ rest) (sym out)),
    )
