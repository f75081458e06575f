-- ===== src/Compiler/Literals.antt =====
-- `compile_string` and `compile_int` of lib/compiler.c.
pub mod RoundTrip
pub mod Printed
use chammer.Prelude.{
  ℕ, ◌+◌, ◌*◌, ◌-◌, ◌^◌, Bool, true, false, Option, none, some, List, [], ◌∷◌, ◌++◌, ◌==◌, ◌&&◌,
  not, length, take, drop, if◌then◌else◌,
}
use chammer.Prelude.Int.{ℤ, pos, pos_part, neg_part, sub_ℕ, ◌+ℤ◌, ◌-ℤ◌, is_signed}
use chammer.Buffer.{Buffer, buffer_putc}

-- The loop over the characters between the quotes, with the flag `escape`.
pub compile_chars : Bool → List ℕ → Buffer → Buffer
unfolding buffer_putc
compile_chars escape [] out = out
compile_chars true (c ∷ s) out = compile_chars false s (
    if c == b'n'
    then buffer_putc out 0x0a
    else if c == b'r'
    then buffer_putc out 0x0d
    else buffer_putc out c)
compile_chars false (c ∷ s) out =
    if c == b'\\' then compile_chars true s out else compile_chars false s (buffer_putc out c)

-- The quotes are ignored; a token has two characters at least.
unfoldable pub compile_string : List ℕ → Buffer → Buffer
unfolding compile_chars
compile_string str out = compile_chars false (take (length str - 2) (drop 1 str)) out

-- `(value * 10) + (str.data[i] - '0')`; `none` stands for a number beyond `int64_t`, whose value C
-- does not define.
pub compile_digits : List ℕ → ℤ → Option ℤ
compile_digits [] value = some value
compile_digits (c ∷ s) value =
    let tenfold = sub_ℕ (10 * pos_part value) (10 * neg_part value) in
    let next = tenfold +ℤ (pos c -ℤ pos b'0') in
    let rest = compile_digits s next in
    if is_signed (2 ^ 64) tenfold && is_signed (2 ^ 64) next then rest else none

unfoldable pub compile_int : List ℕ → Option ℤ
unfolding compile_digits
compile_int str = compile_digits str (pos 0)
