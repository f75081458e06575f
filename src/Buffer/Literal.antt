-- ===== src/Buffer/Literal.antt =====
-- `buffer_print_string_literal` of lib/buffer.c.
pub mod Printing
use chammer.Prelude.{
  ℕ, zero, suc, ◌+◌, ◌-◌, ◌*◌, ◌/◌, ◌%◌, ◌^◌, ◌<◌, ◌≤◌, ◌≡◌, refl, Bool, true, false, ◌&&◌, ◌||◌,
  Option, none, some, List, [], ◌∷◌, ◌++◌, arith, ltb, leb, ◌==◌, if◌then◌else◌, length, All,
  append_assoc, inl, inr, Bool-cases,
}
use chammer.Buffer.{Buffer, buffer_putc, buffer_printf}

-- `isprint` in the C locale
abbrev pub isprint : ℕ → Bool
isprint c = leb 0x20 c && leb c 0x7e

-- The `n` last octal digits.
abbrev pub octal : ℕ → ℕ → List ℕ
octal zero v = []
octal (suc n) v = (b'0' + v / 8 ^ n % 8) ∷ octal n v

-- `%03o` of an `unsigned`, exact below 8 ^ 3 and from 8 ^ 10 on. A `char` is signed: from 128 on
-- it is promoted to a negative `int`, which the format reads as a number near 2 ^ 32.
abbrev pub printf_03o : ℕ → List ℕ
printf_03o c = if ltb c 128 then octal 3 c else octal 11 (2 ^ 32 - 256 + c)

-- The text that one byte is printed as.
unfoldable pub escape_char : ℕ → List ℕ
escape_char c =
    if c == 0
    then b'\\' ∷ b'0' ∷ []
    else if c == 7
    then b'\\' ∷ b'a' ∷ []
    else if c == 8
    then b'\\' ∷ b'b' ∷ []
    else if c == 12
    then b'\\' ∷ b'f' ∷ []
    else if c == 10
    then b'\\' ∷ b'n' ∷ []
    else if c == 13
    then b'\\' ∷ b'r' ∷ []
    else if c == 9
    then b'\\' ∷ b't' ∷ []
    else if c == 11
    then b'\\' ∷ b'v' ∷ []
    else if c == b'\\'
    then b'\\' ∷ b'\\' ∷ []
    else if c == 0x22
    then b'\\' ∷ 0x22 ∷ []
    else if isprint c
    then c ∷ []
    else b'\\' ∷ printf_03o c

-- The loop over the characters.
pub print_chars : Buffer → List ℕ → Buffer
print_chars b [] = b
print_chars b (c ∷ str) = print_chars (buffer_printf b (escape_char c)) str

unfoldable pub buffer_print_string_literal : Buffer → List ℕ → Buffer
unfolding print_chars
buffer_print_string_literal b str = buffer_putc (print_chars (buffer_putc b 0x22) str) 0x22
