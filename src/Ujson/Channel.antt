-- ===== src/Ujson/Channel.antt =====
-- What the model relies on of the two functions of a `ujson_t`, and steps on such channels.
use mathlib.Core.List.{append_assoc}
use sunburst_chip.Base.{
  ℕ, ◌^◌, ◌<◌, ◌≡◌, refl, ap, ◌∙◌, arith, ltb, true, List, [], ◌∷◌, ◌++◌, get_or, Option, none,
  some,
}
use sunburst_chip.Mmio.{M}
use sunburst_chip.Ujson.{Ujson, ok, Io, after, of_status, ◌>>=◌}
use sunburst_chip.Ujson.Read.{ujson_getc, getc_after}
use sunburst_chip.Ujson.Write.{ujson_putbuf}

-- `getc` takes the characters of a text one by one.
pub record IsSource {W : Type 0} (getc : M W ℕ) (text : W → List ℕ) : Type 0 where
  pub char-getc : (w : W) (c : ℕ) (rest : List ℕ) → text w ≡ c ∷ rest → (getc w).0 ≡ c
  pub text-getc : (w : W) (c : ℕ) (rest : List ℕ) → text w ≡ c ∷ rest → text (getc w).1 ≡ rest

-- `putbuf` succeeds and appends to what was written.
pub record IsTarget {W : Type 0} (putbuf : List ℕ → M W ℕ) (written : W → List ℕ) : Type 0 where
  pub status-putbuf : (buf : List ℕ) (w : W) → (putbuf buf w).0 ≡ 0
  pub written-putbuf : (buf : List ℕ) (w : W) → written (putbuf buf w).1 ≡ written w ++ buf

-- The text that is still to be read, with the character that was put back.
abbrev pub put_before : Option ℕ → List ℕ → List ℕ
put_before none text = text
put_before (some b) text = b ∷ text

abbrev pub pending : {W : Type 0} → (W → List ℕ) → Ujson W → List ℕ
pending text uj = put_before uj.buffer (text uj.io_context)

-- `m` gives `a` and leaves `rest` to be read.
abbrev pub IsRead : {W A : Type 0} → (W → List ℕ) → Io W A → Ujson W → A → List ℕ → Type 0
IsRead {W} text m uj a rest = (uj' : Ujson W) × (m uj ≡ (ok a, uj')) × (pending text uj' ≡ rest)

-- `m` gives `a` and has written `buf`.
abbrev pub IsWritten : {W A : Type 0} → (W → List ℕ) → Io W A → Ujson W → A → List ℕ → Type 0
IsWritten {W} written m uj a buf =
    (uj' : Ujson W) × (m uj ≡ (ok a, uj')) × (written uj'.io_context ≡ written uj.io_context ++ buf)

pub IsRead-then :
    {W A B : Type 0} (text : W → List ℕ) (m : Io W A) (k : A → Io W B) (uj : Ujson W) (a : A)
    (b : B) (rest rest' : List ℕ)
    → IsRead text m uj a rest
    → ((uj' : Ujson W) → pending text uj' ≡ rest → IsRead text (k a) uj' b rest')
    → IsRead text (m >>= k) uj b rest'
IsRead-then text m k uj a b rest rest' (uj', e, p) f =
    let (uj'', e', p') = f uj' p in (uj'', ap (λ r. after r k) e ∙ e', p')

pub IsWritten-then :
    {W A B : Type 0} (written : W → List ℕ) (m : Io W A) (k : A → Io W B) (uj : Ujson W) (a : A)
    (b : B) (buf buf' : List ℕ)
    → IsWritten written m uj a buf
    → ((uj' : Ujson W) → IsWritten written (k a) uj' b buf')
    → IsWritten written (m >>= k) uj b (buf ++ buf')
IsWritten-then written m k uj a b buf buf' (uj', e, p) f =
    let (uj'', e', p') = f uj' in
    (
      uj'',
      ap (λ r. after r k) e ∙ e',
      p' ∙ ap (λ t. t ++ buf') p ∙ append_assoc (written uj.io_context) buf buf',
    )

abbrev tail : List ℕ → List ℕ
tail [] = []
tail (c ∷ s) = s

module _ {W : Type 0} (getc : M W ℕ) (text : W → List ℕ) (source : IsSource getc text) where
  getc_after_lem :
      (b : Option ℕ) (uj : Ujson W) (c : ℕ) (rest : List ℕ)
      → c < 256
      → put_before b (text uj.io_context) ≡ c ∷ rest
      → IsRead text (getc_after getc b) uj c rest
  unfolding getc_after
  getc_after_lem none uj c rest h q =
      let e : (getc uj.io_context).0 ≡ c = source.char-getc uj.io_context c rest q in
      let small : ltb c (2 ^ 31) ≡ true = ground arith in
      let uj' = (getc_after getc none uj).1 in
      let status : of_status c ≡ ok c = rw small refl in
      (
        uj',
        ap (λ s. (of_status s, uj')) e ∙ ap (λ r. (r, uj')) status,
        source.text-getc uj.io_context c rest q,
      )
  getc_after_lem (some b) uj c rest h q =
      let e : b ≡ c = ap (λ l. get_or l 0 0) q in
      (_, ap (λ (v : ℕ). (ok v, (getc_after getc (some b) uj).1)) e, ap tail q)

  pub ujson_getc_lem :
      (uj : Ujson W) (c : ℕ) (rest : List ℕ)
      → c < 256
      → pending text uj ≡ c ∷ rest
      → IsRead text (ujson_getc getc) uj c rest
  unfolding ujson_getc
  ujson_getc_lem uj c rest h p = getc_after_lem uj.buffer uj c rest h p

module _ {W : Type 0} (putbuf : List ℕ → M W ℕ) (written : W → List ℕ)
    (target : IsTarget putbuf written) where
  pub ujson_putbuf_lem :
      (buf : List ℕ) (uj : Ujson W) → IsWritten written (ujson_putbuf putbuf buf) uj 0 buf
  unfolding ujson_putbuf
  ujson_putbuf_lem buf uj = (
    _,
    ap (λ (s : ℕ). (of_status s, (ujson_putbuf putbuf buf uj).1))
        (target.status-putbuf buf uj.io_context),
    target.written-putbuf buf uj.io_context,
  )

pub append_cancel : (xs a b : List ℕ) → xs ++ a ≡ xs ++ b → a ≡ b
append_cancel [] a b h = h
append_cancel (x ∷ xs) a b h = append_cancel xs a b (ap tail h)
