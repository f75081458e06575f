-- ===== src/Tests/Running.antt =====
-- Programs from their text to their output, in the phases of src/main.c.
use chammer.Prelude.{ℕ, ◌≡◌, refl, Option, none, some, List, [], ◌∷◌, ◌==◌}
use chammer.Buffer.{Buffer, grow_loop}
use chammer.Ast.{Node, no_token}
use chammer.Lexer.{token_begin}
use chammer.Parser.{Parsed, parsed, parse_ok}
use chammer.Parser.Program.{parse_program, parser_init}
use chammer.Bytecode.Program.{Program, program_read, accepted, ReadResult}
use chammer.Compiler.Blocks.{Compiler, ◌>>?◌}
use chammer.Compiler.Visit.Program.{compiler_visit_program}
use chammer.Compiler.Write.{compiler_write_program}
use chammer.Value.{Value, Result, ok, err, undefined}
use chammer.Machine.{Machine, World, Module, machine_init, machine_add_module}
use chammer.Machine.Modules.{module_make_prelude}
use chammer.Machine.Step.{run}

abbrev no_bytes : Buffer
no_bytes = record { bytes = []; spare = λ _. 0; capacity = 16 }

-- Pools of one bucket.
abbrev small_compiler : Compiler
small_compiler = record {
  memory = λ _. 0;
  string_buffer = no_bytes;
  strings = record { buckets = [] ∷ []; key_buffer = no_bytes };
  idents = record { buckets = [] ∷ []; key_buffer = no_bytes };
  blocks = [];
  jumps = [];
  funcs = [];
}

written : Node → Option (List ℕ)
unfolding compiler_visit_program compiler_write_program
written n = compiler_visit_program 8 small_compiler n >>? λ c.
    compiler_write_program c no_bytes >>? λ b. some b.bytes

abbrev tree_of : Parsed → Option Node
tree_of (parsed parse_ok p t) = some p.node
tree_of _ = none

abbrev program_of_result : ReadResult → Option Program
program_of_result (accepted p) = some p
program_of_result _ = none

abbrev output_of : Result (Option Value × Machine) → Result (List ℕ)
output_of (ok (error, m)) = ok m.output
output_of (err e) = err e

run_program : Module → Program → Result (List ℕ)
unfolding run machine_init machine_add_module
run_program prelude p = output_of (
    run (record { prog = p; localtime = []; float_eq = λ a b. a == b; float_text = λ _. [] }) 5 200
      (machine_add_module (machine_init (λ _. 0)) prelude))

-- What the program of a text prints.
printed : List ℕ → Option (Result (List ℕ))
unfolding module_make_prelude parser_init parse_program token_begin written program_read run_program
printed s = module_make_prelude parser_init >>? λ (prelude, parser).
    tree_of (parse_program 100 parser (token_begin no_token s)) >>? written >>? λ b.
    program_of_result (program_read b) >>? λ p. some (run_program prelude p)

abbrev print_sum : List ℕ
print_sum = b'p' ∷ b'r' ∷ b'i' ∷ b'n' ∷ b't' ∷ b' ' ∷ b'(' ∷ b'1' ∷ b'+' ∷ b'2' ∷ b')' ∷ []

printed-print_sum : printed print_sum ≡ some (ok (b'3' ∷ b'\n' ∷ []))
unfolding printed chammer.Lexer.token_next chammer.Bytes.buffer_put_i64be
    chammer.Machine.member_value grow_loop chammer.Bytes.buffer_put_i16be
printed-print_sum = refl

abbrev patterns : List ℕ
patterns =
    b'l' ∷ b'e' ∷ b't' ∷ b' ' ∷ b'f' ∷ b' ' ∷ b'x' ∷ b' ' ∷ b'=' ∷ b' ' ∷ b'i' ∷ b'f' ∷ b' ' ∷ b'x'
    ∷ b' ' ∷ b'=' ∷ b'=' ∷ b' ' ∷ b'1' ∷ b' ' ∷ b't' ∷ b'h' ∷ b'e' ∷ b'n' ∷ b' ' ∷ b'7' ∷ b' '
    ∷ b'e' ∷ b'l' ∷ b's' ∷ b'e' ∷ b' ' ∷ b'8' ∷ b';' ∷ b'\n' ∷ b'l' ∷ b'e' ∷ b't' ∷ b' ' ∷ b'['
    ∷ b'e' ∷ b',' ∷ b' ' ∷ b'.' ∷ b'.' ∷ b'.' ∷ b']' ∷ b' ' ∷ b'=' ∷ b' ' ∷ b'[' ∷ b'5' ∷ b','
    ∷ b' ' ∷ b'6' ∷ b']' ∷ b';' ∷ b'\n' ∷ b'p' ∷ b'r' ∷ b'i' ∷ b'n' ∷ b't' ∷ b' ' ∷ b'(' ∷ b'f'
    ∷ b' ' ∷ b'e' ∷ b',' ∷ b' ' ∷ b'm' ∷ b'a' ∷ b't' ∷ b'c' ∷ b'h' ∷ b' ' ∷ b'3' ∷ b' ' ∷ b'c'
    ∷ b'a' ∷ b's' ∷ b'e' ∷ b' ' ∷ b'4' ∷ b' ' ∷ b't' ∷ b'h' ∷ b'e' ∷ b'n' ∷ b' ' ∷ b'1' ∷ b' '
    ∷ b'c' ∷ b'a' ∷ b's' ∷ b'e' ∷ b' ' ∷ b'y' ∷ b' ' ∷ b't' ∷ b'h' ∷ b'e' ∷ b'n' ∷ b' ' ∷ b'y'
    ∷ b')' ∷ []

printed-patterns :
    printed patterns ≡ some (ok (b'(' ∷ b'8' ∷ b',' ∷ b' ' ∷ b'3' ∷ b')' ∷ b'\n' ∷ []))
unfolding printed chammer.Lexer.token_next chammer.Bytes.buffer_put_i64be
    chammer.Machine.member_value grow_loop chammer.Bytes.buffer_put_i16be
printed-patterns = refl

abbrev failing : List ℕ
failing =
    b'p' ∷ b'r' ∷ b'i' ∷ b'n' ∷ b't' ∷ b' ' ∷ b'(' ∷ b'm' ∷ b'a' ∷ b't' ∷ b'c' ∷ b'h' ∷ b' ' ∷ b'1'
    ∷ b' ' ∷ b'c' ∷ b'a' ∷ b's' ∷ b'e' ∷ b' ' ∷ b'(' ∷ b'x' ∷ b',' ∷ b' ' ∷ b'y' ∷ b')' ∷ b' '
    ∷ b't' ∷ b'h' ∷ b'e' ∷ b'n' ∷ b' ' ∷ b'x' ∷ b' ' ∷ b'c' ∷ b'a' ∷ b's' ∷ b'e' ∷ b' ' ∷ b'z'
    ∷ b' ' ∷ b't' ∷ b'h' ∷ b'e' ∷ b'n' ∷ b' ' ∷ b'z' ∷ b')' ∷ []

-- A pattern that fails leaves locals unset, which the frame's end drops.
printed-failing : printed failing ≡ some (err undefined)
unfolding printed chammer.Lexer.token_next chammer.Bytes.buffer_put_i64be
    chammer.Machine.member_value grow_loop chammer.Bytes.buffer_put_i16be
printed-failing = refl
