-- ===== src/Ujson/Tests.antt =====
-- The reader and the writer on channels that are lists of characters.
use sunburst_chip.Base.{ℕ, ◌+◌, ◌-◌, ◌^◌, ◌≡◌, refl, ap, arith, true, List, [], ◌∷◌, ◌++◌, codes}
use sunburst_chip.Mmio.{M}
use sunburst_chip.Status.{}
use sunburst_chip.Ujson.{ok, ujson_init, is_space, ujson_ungetc, ungetc_over}
use sunburst_chip.Ujson.Write.{
  ujson_serialize_integer32, decimal_loop32, escaped, ujson_putbuf, string_loop,
  ujson_serialize_string,
}
use sunburst_chip.Ujson.Read.{
  getc_after, ujson_getc, consume_whitespace, ujson_consume, bool_after, ujson_deserialize_bool,
  after_digit, digits_loop, put_back, ujson_parse_integer, ujson_parse_qs,
}
use sunburst_chip.Ujson.Channel.{IsSource, IsTarget, IsRead}
use sunburst_chip.Ujson.Integers.{ujson_parse_integer-serialize}
use sunburst_chip.Ujson.Strings.{ujson_parse_qs-serialize}

-- No more characters: an error.
abbrev list_getc : M (List ℕ) ℕ
list_getc [] = (2 ^ 31 + 11, [])
list_getc (c ∷ s) = (c, s)

abbrev list_putbuf : List ℕ → M (List ℕ) ℕ
list_putbuf buf w = (0, w ++ buf)

abbrev same : List ℕ → List ℕ
same w = w

abbrev tail : List ℕ → List ℕ
tail [] = []
tail (c ∷ s) = s

abbrev head : List ℕ → ℕ
head [] = 0
head (c ∷ s) = c

list_getc-IsSource : IsSource list_getc same
list_getc-IsSource = record {
  char-getc = λ w c rest e. char w c rest e;
  text-getc = λ w c rest e. text w c rest e;
}
  where
    char : (w : List ℕ) (c : ℕ) (rest : List ℕ) → w ≡ c ∷ rest → (list_getc w).0 ≡ c
    char [] c rest e = absurd (ground arith)
    char (d ∷ w) c rest e = ap head e

    text : (w : List ℕ) (c : ℕ) (rest : List ℕ) → w ≡ c ∷ rest → (list_getc w).1 ≡ rest
    text [] c rest e = absurd (ground arith)
    text (d ∷ w) c rest e = ap tail e

list_putbuf-IsTarget : IsTarget list_putbuf same
list_putbuf-IsTarget = record { status-putbuf = λ buf w. refl; written-putbuf = λ buf w. refl }

-- White space between the letters of a Boolean is skipped.
spaced_bool : (ujson_deserialize_bool list_getc 9 (ujson_init (codes " t r\tu e,"))).0 ≡ ok true
unfolding ujson_deserialize_bool bool_after ujson_consume consume_whitespace ujson_getc getc_after
    is_space ujson_init
spaced_bool = refl

parsed_integer :
    (ujson_parse_integer list_getc 9 4 (ujson_init (codes " -12,"))).0 ≡ ok (2 ^ 32 - 12)
unfolding ujson_parse_integer digits_loop after_digit put_back consume_whitespace ujson_getc
    getc_after is_space ujson_init ujson_ungetc ungetc_over
parsed_integer = refl

abbrev sample : List ℕ
sample = codes "a\"b" ++ (1 ∷ 200 ∷ [])

ujson_parse_qs-serialize_example :
    ((ujson_serialize_string list_putbuf sample (ujson_init [])).0 ≡ ok 0)
    × IsRead same
        (ujson_parse_qs list_getc 9 9)
        (ujson_init (codes "\"a\\\"b\\u0001\\u00c8\";"))
        (5, sample ++ (0 ∷ []))
        (codes ";")
unfolding ujson_init ujson_serialize_string string_loop ujson_putbuf escaped
ujson_parse_qs-serialize_example =
    ujson_parse_qs-serialize list_putbuf same list_getc same sample
      (codes "\"a\\\"b\\u0001\\u00c8\"") (codes ";") 9 9 (ujson_init [])
      (ujson_init (codes "\"a\\\"b\\u0001\\u00c8\";")) list_putbuf-IsTarget list_getc-IsSource
      ((
        omega arith,
        omega arith,
        (
          omega arith,
          omega arith,
          (omega arith, omega arith, (omega arith, omega arith, (omega arith, omega arith, tt))),
        ),
      ))
      (omega arith) (omega arith) (omega arith) refl refl

ujson_parse_integer-serialize_example :
    ((ujson_serialize_integer32 list_putbuf (2 ^ 32 - 12) true (ujson_init [])).0 ≡ ok 0)
    × IsRead same
        (ujson_parse_integer list_getc 11 4)
        (ujson_init (codes "-12,"))
        (2 ^ 32 - 12)
        (codes ",")
unfolding ujson_init ujson_serialize_integer32 decimal_loop32 ujson_putbuf
ujson_parse_integer-serialize_example =
    ujson_parse_integer-serialize list_putbuf same list_getc same (2 ^ 32 - 12) b',' true
      (codes "-12") [] 11 (ujson_init []) (ujson_init (codes "-12,")) list_putbuf-IsTarget
      list_getc-IsSource (omega arith) (λ e. omega arith) (omega arith) (omega arith) refl refl refl
