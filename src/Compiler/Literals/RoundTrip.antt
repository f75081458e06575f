-- ===== src/Compiler/Literals/RoundTrip.antt =====
-- A string is compiled from the literal that escapes it, and a number from its digits.
use chammer.Prelude.{
  ℕ, zero, suc, ◌+◌, ◌*◌, ◌-◌, ◌≤◌, ◌<◌, ◌≡◌, refl, sym, ◌∙◌, ap, false, some, List, [], ◌∷◌, ◌++◌,
  ◌==◌, ◌||◌, length, take, append_assoc, append-nil, length-append, take-append_length, ◌^◌,
  if◌then◌else◌, arith, All,
}
use chammer.Prelude.Int.{pos, sub_ℕ, ◌+ℤ◌, ◌-ℤ◌}
use chammer.Buffer.{Buffer, buffer_putc}
use chammer.Compiler.Literals.{compile_chars, compile_string, compile_digits, compile_int}

-- How a character stands in a literal.
abbrev pub escaped : ℕ → List ℕ
escaped c =
    if c == 0x0a
    then b'\\' ∷ b'n' ∷ []
    else if c == 0x0d
    then b'\\' ∷ b'r' ∷ []
    else if c == b'\\' || c == b'"'
    then b'\\' ∷ c ∷ []
    else c ∷ []

unfoldable pub escape_all : List ℕ → List ℕ
escape_all [] = []
escape_all (c ∷ s) = escaped c ++ escape_all s

-- What one character compiles to.
escaped-compile :
    (c : ℕ) (s : List ℕ) (out : Buffer)
    → compile_chars false (escaped c ++ s) out ≡ compile_chars false s (buffer_putc out c)
unfolding compile_chars
escaped-compile c s out = ground arith

pub puts_each : List ℕ → Buffer → Buffer
puts_each [] out = out
puts_each (c ∷ s) out = puts_each s (buffer_putc out c)

escape_all-compile :
    (s : List ℕ) (out : Buffer) → compile_chars false (escape_all s) out ≡ puts_each s out
unfolding compile_chars escape_all puts_each
escape_all-compile [] out = refl
escape_all-compile (c ∷ s) out =
    escaped-compile c (escape_all s) out ∙ escape_all-compile s (buffer_putc out c)

putc-bytes : (out : Buffer) (c : ℕ) → c < 256 → (buffer_putc out c).bytes ≡ out.bytes ++ c ∷ []
unfolding buffer_putc
putc-bytes out c h = ground arith

puts_each-bytes :
    (s : List ℕ) (out : Buffer) → All (λ c. c < 256) s → (puts_each s out).bytes ≡ out.bytes ++ s
unfolding puts_each
puts_each-bytes [] out h = sym (append-nil out.bytes)
puts_each-bytes (c ∷ s) out (h, hs) =
    puts_each-bytes s (buffer_putc out c) hs
    ∙ (rw (putc-bytes out c h) (append_assoc out.bytes (c ∷ []) s))

take-body : (body : List ℕ) → take (suc (length (body ++ b'"' ∷ [])) - 2) (body ++ b'"' ∷ []) ≡ body
take-body body =
    let e : suc (length (body ++ b'"' ∷ [])) - 2 ≡ length body =
      omega (arith, length-append body (b'"' ∷ [])) in
    rw e (take-append_length body (b'"' ∷ []))

-- A string literal that escapes the string's line ends, backslashes and quotes compiles to the
-- string, which is appended to the buffer.
pub compile_string-escape_all :
    (s : List ℕ) (out : Buffer)
    → All (λ c. c < 256) s
    → (compile_string (b'"' ∷ (escape_all s ++ b'"' ∷ [])) out).bytes ≡ out.bytes ++ s
unfolding compile_string
compile_string-escape_all s out h =
    ap (λ body. (compile_chars false body out).bytes) (take-body (escape_all s))
    ∙ (ap (λ b. b.bytes) (escape_all-compile s out) ∙ puts_each-bytes s out h)

-- The number that digits stand for: each counts ten to the number of those behind it.
unfoldable pub decimal : List ℕ → ℕ
decimal [] = 0
decimal (c ∷ s) = (c - b'0') * 10 ^ length s + decimal s

abbrev IsDigit : ℕ → Type 0
IsDigit c = (b'0' ≤ c) × (c ≤ b'9')

pow_step : (l : ℕ) → 10 ^ suc l ≡ 10 ^ l * 10
pow_step l = omega arith

pow_positive : (l : ℕ) → 1 ≤ 10 ^ l
pow_positive zero = omega arith
pow_positive (suc l) = omega (arith, pow_positive l, pow_step l)

le-mul : (a p : ℕ) → 1 ≤ p → a ≤ a * p
le-mul a zero h = elim h [ ]
le-mul a (suc p) h = omega arith

-- One more digit in front of `l` others.
shift : (v d l r : ℕ) → v * 10 ^ suc l + (d * 10 ^ l + r) ≡ (10 * v + d) * 10 ^ l + r
shift v d l r = rw (pow_step l) (omega arith)

-- One round of the loop, within the bounds.
digit_round :
    (c v : ℕ) (s : List ℕ)
    → b'0' ≤ c
    → 10 * v + (c - b'0') < 2 ^ 63
    → compile_digits (c ∷ s) (pos v) ≡ compile_digits s (pos (10 * v + (c - b'0')))
unfolding compile_digits
digit_round c v s lo lt =
    let tenfold : sub_ℕ (10 * v) 0 ≡ pos (10 * v) = ground arith in
    let next : pos (10 * v) +ℤ (pos c -ℤ pos b'0') ≡ pos (10 * v + (c - b'0')) = ground arith in
    rw (tenfold, next) (ground arith)

compile_digits-decimal :
    (s : List ℕ) (v : ℕ)
    → All IsDigit s
    → v * 10 ^ length s + decimal s < 2 ^ 63
    → compile_digits s (pos v) ≡ some (pos (v * 10 ^ length s + decimal s))
unfolding compile_digits decimal
compile_digits-decimal [] v h lt = ap (λ n. some (pos n)) (omega arith)
compile_digits-decimal (c ∷ s) v ((lo, hi), hs) lt =
    let e = shift v (c - b'0') (length s) (decimal s) in
    let below = le-mul (10 * v + (c - b'0')) (10 ^ length s) (pow_positive (length s)) in
    digit_round c v s lo (omega (arith, e, below, lt))
    ∙ (compile_digits-decimal s (10 * v + (c - b'0')) hs (omega (arith, e, lt))
        ∙ ap (λ n. some (pos n)) (sym e))

-- An integer literal compiles to the number that its digits stand for, if that is below 2 ^ 63.
pub compile_int-decimal :
    (s : List ℕ) → All IsDigit s → decimal s < 2 ^ 63 → compile_int s ≡ some (pos (decimal s))
unfolding compile_int
compile_int-decimal s h lt =
    compile_digits-decimal s 0 h (omega (arith, lt)) ∙ ap (λ n. some (pos n)) (omega arith)
