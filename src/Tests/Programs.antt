-- ===== src/Tests/Programs.antt =====
-- Instructions and the container of a program on concrete inputs.
use chammer.Prelude.{ℕ, ◌≡◌, refl, arith, some, List, [], ◌∷◌, ◌++◌}
use chammer.Prelude.Int.{negsuc}
use chammer.Buffer.{Buffer, write_at}
use chammer.Bytes.{write_i16be}
use chammer.Bytecode.{pushstr, op_jumpifn, jumpifn, fetch, bytecode_put_jump}
use chammer.Bytecode.Format.{emit, fetch-emit}
use chammer.Bytecode.Jumps.{fetch-patched_jump}
use chammer.Bytecode.Program.{FuncMeta, program_read, program_func_meta, accepted}
use chammer.Bytecode.Program.Image.{image, program_of, program_read-image, program_func_meta-image}
use chammer.Bytecode.Program.Safety.{IsSound, program_read-IsSound}

abbrev code_buffer : Buffer
code_buffer = record { bytes = 5 ∷ []; spare = λ i. 0; capacity = 16 }

fetch-emit_example :
    (w : List ℕ) × ((emit code_buffer (pushstr 3 300)).bytes ≡ 5 ∷ [] ++ w)
    × (fetch (w ++ 6 ∷ []) ≡ some (pushstr 3 300, 6 ∷ []))
fetch-emit_example = fetch-emit code_buffer (pushstr 3 300) (6 ∷ []) (omega arith)

fetch-patched_jump_example :
    (w : List ℕ) × (write_at
        (bytecode_put_jump code_buffer op_jumpifn).0
        (write_i16be (negsuc 4))
        ((bytecode_put_jump code_buffer op_jumpifn).1.bytes ++ 6 ∷ [])
      ≡ 5 ∷ [] ++ (w ++ 6 ∷ []))
    × (fetch (w ++ 6 ∷ []) ≡ some (jumpifn (negsuc 4), 6 ∷ []))
fetch-patched_jump_example =
    fetch-patched_jump code_buffer op_jumpifn (negsuc 4) (6 ∷ []) tt (omega arith)

abbrev main_meta : FuncMeta
main_meta = record {
  addr = 5;
  locals = 2;
  args = 1;
  captures = 1;
  type = 2;
  name_offset = 0;
  name_len = 0;
}

abbrev code : List ℕ
code = 4 ∷ 0 ∷ 0 ∷ 0 ∷ 0 ∷ 5 ∷ []

program_read-image_example :
    program_read (image (b'x' ∷ []) (main_meta ∷ []) code)
    ≡ accepted (program_of (b'x' ∷ []) (main_meta ∷ []) code)
program_read-image_example =
    program_read-image (b'x' ∷ []) (main_meta ∷ []) code (omega arith) (omega arith) (omega arith)

program_func_meta-image_example :
    program_func_meta (program_of (b'x' ∷ []) (main_meta ∷ []) code) 0 ≡ some main_meta
program_func_meta-image_example =
    program_func_meta-image (b'x' ∷ []) (main_meta ∷ []) code 0 main_meta refl (omega arith)

program_read-IsSound_example : IsSound 3 (program_read (b'H' ∷ b'A' ∷ b'M' ∷ []))
program_read-IsSound_example = program_read-IsSound (b'H' ∷ b'A' ∷ b'M' ∷ [])
