-- ===== src/Compiler/Literals/Printed.antt =====
-- The literals that lib/buffer.c prints, as lib/compiler.c reads them.
use chammer.Prelude.{
  ℕ, ◌+◌, ◌*◌, ◌^◌, ◌<◌, ◌≤◌, ◌≡◌, refl, sym, ◌⊎◌, inl, inr, List, [], ◌∷◌, ◌++◌, arith, length,
  All,
}
use mathlib.Core.Path.{subst}
use chammer.Buffer.{Buffer, IsValid}
use chammer.Buffer.Literal.{escape_char, buffer_print_string_literal}
use chammer.Buffer.Literal.Printing
use chammer.Compiler.Literals.{compile_string}
use chammer.Compiler.Literals.RoundTrip
use chammer.Compiler.Literals.RoundTrip.{escaped, compile_string-escape_all}

-- A printable character of ASCII, a line feed or a carriage return.
abbrev pub IsText : ℕ → Type 0
IsText c = ((0x20 ≤ c) × (c ≤ 0x7e)) ⊎ ((c ≡ 0x0a) ⊎ (c ≡ 0x0d))

escape_char-escaped : (c : ℕ) → IsText c → escape_char c ≡ escaped c
unfolding escape_char
escape_char-escaped c (inl (lo, hi)) = ground arith
escape_char-escaped c (inr (inl e)) = rw e refl
escape_char-escaped c (inr (inr e)) = rw e refl

escape_all-same :
    (str : List ℕ) → All IsText str → Printing.escape_all str ≡ RoundTrip.escape_all str
unfolding Printing.escape_all RoundTrip.escape_all
escape_all-same [] h = refl
escape_all-same (c ∷ str) (here, h) = rw (escape_char-escaped c here, escape_all-same str h) refl

IsText-byte : (str : List ℕ) → All IsText str → All (λ c. c < 256) str
IsText-byte [] h = tt
IsText-byte (c ∷ str) (inl (lo, hi), h) = (omega (arith, hi), IsText-byte str h)
IsText-byte (c ∷ str) (inr (inl e), h) = (omega (arith, e), IsText-byte str h)
IsText-byte (c ∷ str) (inr (inr e), h) = (omega (arith, e), IsText-byte str h)

-- Into a well-formed buffer with room for twelve bytes a character, a string of printable ASCII
-- characters, line feeds and carriage returns is printed behind the contents as a literal that
-- `compile_string` turns into the string again.
pub print_string_literal-compile :
    (b : Buffer) (str : List ℕ)
    → IsValid b
    → length b.bytes + length str * 12 + 2 < 2 ^ 63
    → All IsText str
    → (lit : List ℕ) × ((buffer_print_string_literal b str).bytes ≡ b.bytes ++ lit)
      × ((out : Buffer) → (compile_string lit out).bytes ≡ out.bytes ++ str)
print_string_literal-compile b str v room text = (
  b'"' ∷ (Printing.escape_all str ++ b'"' ∷ []),
  Printing.print_string_literal-bytes b str v room,
  λ out.
      subst
        (λ (body : List ℕ).
          (compile_string (b'"' ∷ (body ++ b'"' ∷ [])) out).bytes ≡ out.bytes ++ str)
        (sym (escape_all-same str text)) (compile_string-escape_all str out (IsText-byte str text)),
)
