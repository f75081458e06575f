-- ===== src/Tests/Compiling.antt =====
-- Scopes of functions within a program.
use chammer.Ast.{Node, node, nil, cons, n_int, n_if, no_token}
use chammer.Compiler.Visit.Program.{compiler_visit_program, visit_program, visitors_over}
use chammer.Compiler.Visit.{Routines}
use chammer.Compiler.Visit.Depth.{weight}
use chammer.Compiler.Visit.Depth.Enough.{compiler_visit_program-enough}
use chammer.Compiler.Write.Patches.{Fits, SameOffsets, distance}
use chammer.Compiler.Write.Landing.{Lands, BeginsIn, compiler_visit_program-Lands}
use chammer.Prelude.{false, Option, All}
use chammer.Compiler.Blocks.{compiler_init}
use chammer.Buffer.{Buffer}
use chammer.Bytecode.Program.{FuncMeta, program_read, accepted}
use chammer.Bytecode.Program.Image.{program_of}
use chammer.Compiler.Blocks.{Compiler, Block}
use chammer.Compiler.Write.{resolve_jumps, meta_of, compiler_write_program}
use chammer.Compiler.Write.Accepted.{AreMetas, code_of, compiler_write_program-accepted}
use chammer.Prelude.{ℕ, ◌≡◌, ◌≤◌, length, refl, some, none, replicate, List, ◌++◌, [], ◌∷◌, arith}
use chammer.Buffer.{Buffer, buffer_init}
use chammer.Prelude.Int.{pos, negsuc}
use chammer.Compiler.Literals.{compile_string, compile_int}
use chammer.Compiler.Literals.RoundTrip.{
  escape_all, decimal, compile_string-escape_all, compile_int-decimal,
}
use chammer.Compiler.Scopes.{
  Scope, root, inner, scope_get_local, scope_resolve_symbol, put_load_captures, put_store_captures,
}
use chammer.Compiler.Scopes.Laws.Resolve.{
  ResolvedOk, resolve_symbol-ResolvedOk, captures_put, get_local-full,
}

abbrev program : Scope
program = record { locals = 1 ∷ []; captures = 1 ∷ [] }

resolve_symbol-ResolvedOk_example :
    ResolvedOk
      (inner program (root program))
      7
      (scope_resolve_symbol (inner program (root program)) 7)
resolve_symbol-ResolvedOk_example =
    resolve_symbol-ResolvedOk (inner program (root program)) 7
      ((λ name h. h), (λ name h. h), (λ name h. h))

captures_put_example :
    ((b' : Buffer) × (put_load_captures (buffer_init (λ i. 0)) program program ≡ some b'))
    × ((p' : Buffer) × (put_store_captures (buffer_init (λ i. 0)) program ≡ some p'))
captures_put_example =
    captures_put program (root program) (buffer_init (λ i. 0)) (buffer_init (λ i. 0))
      ((λ name h. h), (λ name h. h), (λ name h. h)) (omega arith) (omega arith)

-- A scope with as many locals as bytes can number.
abbrev full : Scope
full = record { locals = replicate 256 0; captures = [] }

get_local-full_example : scope_get_local full 0 ≡ none
get_local-full_example = get_local-full full 0 refl

-- A string with a quote and a line end, and the buffer that it is compiled into.
abbrev text : List ℕ
text = b'"' ∷ 0x0a ∷ b'a' ∷ []

compile_string-escape_all_example :
    (compile_string (b'"' ∷ (escape_all text ++ b'"' ∷ [])) (buffer_init (λ i. 0))).bytes
    ≡ (buffer_init (λ i. 0)).bytes ++ text
compile_string-escape_all_example =
    compile_string-escape_all text (buffer_init (λ i. 0))
      (omega arith, (omega arith, (omega arith, tt)))

compile_int-decimal_example :
    compile_int (b'4' ∷ b'2' ∷ []) ≡ some (pos (decimal (b'4' ∷ b'2' ∷ [])))
unfolding decimal
compile_int-decimal_example =
    compile_int-decimal (b'4' ∷ b'2' ∷ [])
      ((omega arith, omega arith), ((omega arith, omega arith), tt)) (omega arith)

abbrev short_code : List ℕ → Buffer
short_code code = record { bytes = code; spare = λ _. 0; capacity = 16 }

-- The first block jumps to the third one, behind the second, which is a function's.
abbrev three_blocks : Compiler
three_blocks = record {
  memory = λ _. 0;
  string_buffer = short_code [];
  strings = record { buckets = [] ∷ []; key_buffer = short_code (b'f' ∷ []) };
  idents = record { buckets = [] ∷ []; key_buffer = short_code [] };
  blocks =
      record { id = 0; bytecode = short_code (0x01 ∷ 0xff ∷ 0xff ∷ []) }
      ∷ record { id = 2; bytecode = short_code (0x22 ∷ 0x05 ∷ []) }
      ∷ record { id = 1; bytecode = short_code (0xf0 ∷ []) }
      ∷ [];
  jumps = record { origin = 0; target = 1; addr_offset = 1; origin_offset = 0 } ∷ [];
  funcs =
      record {
        start = 2;
        locals = 0;
        args = 0;
        captures = 0;
        type = 4;
        name_offset = 0;
        name_len = 1;
      }
      ∷ [];
}

abbrev resolved_blocks : List Block
resolved_blocks =
    record { id = 0; bytecode = short_code (0x01 ∷ 0x00 ∷ 0x05 ∷ []) }
    ∷ record { id = 2; bytecode = short_code (0x22 ∷ 0x05 ∷ []) }
    ∷ record { id = 1; bytecode = short_code (0xf0 ∷ []) }
    ∷ []

abbrev metas_of_three : List FuncMeta
metas_of_three =
    record { addr = 3; locals = 0; args = 0; captures = 0; type = 4; name_offset = 0; name_len = 1 }
    ∷ []

three_blocks-resolve : resolve_jumps three_blocks.jumps three_blocks.blocks ≡ some resolved_blocks
unfolding resolve_jumps
three_blocks-resolve = refl

three_blocks-AreMetas : AreMetas resolved_blocks three_blocks.funcs metas_of_three
unfolding AreMetas meta_of
three_blocks-AreMetas = (refl, tt)

three_blocks-room : 4 ≤ length (code_of resolved_blocks)
unfolding code_of
three_blocks-room = omega arith

compiler_write_program-accepted_example :
    (out : Buffer) × (compiler_write_program three_blocks (short_code []) ≡ some out)
    × (program_read out.bytes
        ≡ accepted (program_of (b'f' ∷ []) metas_of_three (code_of resolved_blocks)))
compiler_write_program-accepted_example =
    compiler_write_program-accepted three_blocks (short_code []) resolved_blocks metas_of_three refl
      (omega arith) (omega arith) three_blocks-resolve three_blocks-AreMetas three_blocks-room

-- `if 1 then 2 else 3`.
abbrev digit : ℕ → Node
digit d = node n_int false (record no_token { str = d ∷ []; len = 1 }) nil

abbrev conditional : Node
conditional =
    node n_if false no_token (cons (digit b'1') (cons (digit b'2') (cons (digit b'3') nil)))

abbrev compiled_or : Option Compiler → Compiler
compiled_or (some c) = c
compiled_or none = three_blocks

abbrev compiled : Compiler
unfolding compiler_visit_program compiler_init
compiled = compiled_or (compiler_visit_program 3 (compiler_init (λ _. 0)) conditional)

compiles : compiler_visit_program 3 (compiler_init (λ _. 0)) conditional ≡ some compiled
unfolding compiled
compiles = refl

compiled-Fits : All (Fits compiled.blocks) compiled.jumps
unfolding compiled distance chammer.Compiler.Write.offset_of chammer.Bytes.buffer_put_u32be
    chammer.Bytes.buffer_put_i64be chammer.Bytes.buffer_put_i16be chammer.Buffer.grow_loop
compiled-Fits = (
  record { rel = pos 13; is_distance = refl; in_range = omega arith },
  (record { rel = negsuc 9; is_distance = refl; in_range = omega arith }, tt),
)

compiler_visit_program-Lands_example :
    (bs : List Block) × (resolve_jumps compiled.jumps compiled.blocks ≡ some bs)
    × SameOffsets compiled.blocks bs
    × All (Lands bs) compiled.jumps
    × All (BeginsIn bs) compiled.funcs
compiler_visit_program-Lands_example =
    compiler_visit_program-Lands 3 (λ _. 0) conditional compiled compiles compiled-Fits

conditional-weight : weight conditional ≤ 9
unfolding weight
conditional-weight = omega arith

-- Routines that leave everything as it is.
abbrev idle : Routines
idle = record { expr = λ n v. some v; pattern = λ lhs rhs v. some v; block_body = λ ns v. some v }

compiler_visit_program-enough_example :
    visit_program (visitors_over idle 9) (compiler_init (λ _. 0)) conditional
    ≡ compiler_visit_program 10 (compiler_init (λ _. 0)) conditional
compiler_visit_program-enough_example =
    compiler_visit_program-enough idle 9 10 (compiler_init (λ _. 0)) conditional conditional-weight
      (omega (arith, conditional-weight))
