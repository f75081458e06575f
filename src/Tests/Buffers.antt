-- ===== src/Tests/Buffers.antt =====
-- Buffers, words and strings on concrete inputs.
use chammer.Prelude.{
  inl, inr, ◌⊎◌, true, false, ℕ, ◌+◌, ◌≤◌, ◌≡◌, refl, arith, none, some, List, [], ◌∷◌, ◌++◌,
}
use chammer.Prelude.Int.{negsuc}
use chammer.Buffer.{buffer_putc, buffer_truncate, Buffer, buffer_init, grow_loop}
use chammer.Buffer.Growth.{grow_loop_room}
use chammer.Buffer.Literal.{buffer_print_string_literal}
use chammer.Compiler.Literals.{compile_string}
use chammer.Compiler.Literals.Printed.{print_string_literal-compile}
use chammer.Buffer.Refines.{
  Op, putc, puts, printf, truncate, run_all, effects, Refines, run_all-init,
}
use chammer.Bytes.{read_i64be, write_i64be}
use chammer.Bytes.RoundTrip.{read_i64be-write}
use chammer.Text.{string_eq}
use chammer.Text.Laws.{string_eq-eq}

abbrev blank : ℕ → ℕ
blank i = 0

abbrev session : List Op
session = puts (1 ∷ 2 ∷ 3 ∷ []) ∷ truncate 1 ∷ putc 0x1ff ∷ printf (4 ∷ []) ∷ []

run_all-init_example : Refines (run_all session (buffer_init blank)) (effects session [])
run_all-init_example = run_all-init session blank (omega arith)

session_bytes : effects session [] ≡ some (1 ∷ 255 ∷ 4 ∷ [])
session_bytes = refl

too_long : run_all (putc 1 ∷ truncate 2 ∷ []) (buffer_init blank) ≡ none
unfolding buffer_init buffer_putc buffer_truncate
too_long = refl

grow_loop_room_example : 100 + 1 ≤ grow_loop 64 100 3
grow_loop_room_example = grow_loop_room 100 3 (omega arith) (omega arith)

abbrev small : Buffer
small = record { bytes = 7 ∷ []; spare = blank; capacity = 2 }

print_string_literal-compile_example :
    (lit : List ℕ) × ((buffer_print_string_literal small (b'a' ∷ 10 ∷ b'"' ∷ [])).bytes
      ≡ 7 ∷ [] ++ lit)
    × ((out : Buffer) → (compile_string lit out).bytes ≡ out.bytes ++ (b'a' ∷ 10 ∷ b'"' ∷ []))
print_string_literal-compile_example =
    print_string_literal-compile small (b'a' ∷ 10 ∷ b'"' ∷ []) (omega arith) (omega arith)
      (inl (omega arith), (inr (inl refl), (inl (omega arith), tt)))

read_i64be-write_example : read_i64be (write_i64be (negsuc 1) ++ 9 ∷ []) ≡ some (negsuc 1, 9 ∷ [])
read_i64be-write_example = read_i64be-write (negsuc 1) (9 ∷ []) (omega arith)

string_eq-eq_example :
    ((string_eq (b'i' ∷ b'f' ∷ []) (b'i' ∷ b'n' ∷ []) ≡ true)
      × ◌≡◌ {A = List ℕ} (b'i' ∷ b'f' ∷ []) (b'i' ∷ b'n' ∷ []))
    ⊎ ((string_eq (b'i' ∷ b'f' ∷ []) (b'i' ∷ b'n' ∷ []) ≡ false)
        × (◌≡◌ {A = List ℕ} (b'i' ∷ b'f' ∷ []) (b'i' ∷ b'n' ∷ []) → ⊥))
string_eq-eq_example = string_eq-eq (b'i' ∷ b'f' ∷ []) (b'i' ∷ b'n' ∷ []) (omega arith)
