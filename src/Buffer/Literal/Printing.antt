-- ===== src/Buffer/Literal/Printing.antt =====
-- What `buffer_print_string_literal` of lib/buffer.c prints.
use mathlib.Core.Path.{subst}
use chammer.Prelude.{
  Option, none, sym, ap, ℕ, ◌+◌, ◌*◌, ◌^◌, ◌<◌, ◌≤◌, ◌≡◌, refl, some, List, [], ◌∷◌, ◌++◌, arith,
  length, append_assoc, ◌∙◌,
}
use chammer.Buffer.{Buffer, IsValid, buffer_putc, buffer_printf}
use chammer.Buffer.Literal.{escape_char, print_chars, buffer_print_string_literal}
use chammer.Buffer.Refines.{Op, putc, printf, run_all, effects, total, Refines, run_all-Refines}

unfoldable pub escape_all : List ℕ → List ℕ
escape_all [] = []
escape_all (c ∷ str) = escape_char c ++ escape_all str

length-escape_char_le : (c : ℕ) → length (escape_char c) ≤ 12
unfolding escape_char
length-escape_char_le c = ground arith

-- The run of buffer operations that prints a literal.
print_ops : List ℕ → List Op
print_ops [] = putc 0x22 ∷ []
print_ops (c ∷ str) = printf (escape_char c) ∷ print_ops str

print_chars-run_all :
    (b : Buffer) (str : List ℕ)
    → some (buffer_putc (print_chars b str) 0x22) ≡ run_all (print_ops str) b
unfolding print_chars print_ops
print_chars-run_all b [] = refl
print_chars-run_all b (c ∷ str) = print_chars-run_all (buffer_printf b (escape_char c)) str

total-print_ops_le : (str : List ℕ) → total (print_ops str) ≤ length str * 12 + 1
unfolding print_ops
total-print_ops_le [] = omega arith
total-print_ops_le (c ∷ str) = omega (arith, total-print_ops_le str, length-escape_char_le c)

effects-print_ops :
    (str bs : List ℕ) → effects (print_ops str) bs ≡ some (bs ++ (escape_all str ++ 0x22 ∷ []))
unfolding print_ops escape_all
effects-print_ops [] bs = refl
effects-print_ops (c ∷ str) bs = effects-print_ops str (bs ++ escape_char c) ∙ simp append_assoc

Refines-bytes :
    (b : Buffer) (x : Option (List ℕ)) (bs : List ℕ)
    → Refines (some b) x
    → x ≡ some bs
    → b.bytes ≡ bs
Refines-bytes b none bs r e = absurd (cc)
Refines-bytes b (some cs) bs (v, same) e = let there : cs ≡ bs = cc in same ∙ there

-- Into a buffer with room for twelve bytes a character.
pub print_string_literal-bytes :
    (b : Buffer) (str : List ℕ)
    → IsValid b
    → length b.bytes + length str * 12 + 2 < 2 ^ 63
    → (buffer_print_string_literal b str).bytes ≡ b.bytes ++ 0x22 ∷ (escape_all str ++ 0x22 ∷ [])
unfolding buffer_print_string_literal
print_string_literal-bytes b str v h =
    let ops = putc 0x22 ∷ print_ops str in
    let run_ok = run_all-Refines ops b v (omega (arith, total-print_ops_le str)) in
    let printed = print_chars-run_all (buffer_putc b 0x22) str in
    Refines-bytes (buffer_print_string_literal b str) (effects ops b.bytes)
      (b.bytes ++ 0x22 ∷ (escape_all str ++ 0x22 ∷ []))
      (subst (λ (x : Option Buffer). Refines x (effects ops b.bytes)) (sym printed) run_ok)
      (effects-print_ops str (b.bytes ++ 0x22 ∷ [])
        ∙ ap some (append_assoc b.bytes (0x22 ∷ []) (escape_all str ++ 0x22 ∷ [])))
