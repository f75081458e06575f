-- ===== src/Compiler/Write.antt =====
-- `compiler_write_program` of lib/compiler.c: blocks get their places, jumps their addresses, and
-- everything is written.
pub mod Accepted
pub mod Landing
pub mod Resolved
pub mod Patches
use chammer.Prelude.{
  ℕ, ◌+◌, ◌%◌, ◌^◌, Option, none, some, List, [], ◌∷◌, ◌==◌, length, if◌then◌else◌,
}
use chammer.Prelude.Int.{pos, ◌-ℤ◌}
use chammer.Buffer.{Buffer, buffer_puts, buffer_write}
use chammer.Bytes.{
  checked_u8, checked_u32, checked_i16, write_i16be, buffer_put_u16be, buffer_put_u32be,
}
use chammer.Bytecode.Program.{FuncMeta, magic, bytecode_version, bytecode_put_func_meta}
use chammer.StringMap.{string_pool_contents}
use chammer.Compiler.Blocks.{◌>>?◌, Compiler, Block, Jump, Func, change_block}

-- Where a block begins.
unfoldable pub offset_of : ℕ → ℕ → List Block → Option ℕ
offset_of at id [] = none
offset_of at id (b ∷ bs) =
    if b.id == id then some at else offset_of (at + length b.bytecode.bytes) id bs

-- A jump's address is relative to the jump.
unfoldable pub resolve_jump : Jump → List Block → Option (List Block)
unfolding offset_of write_i16be buffer_write change_block
resolve_jump j bs = offset_of 0 j.target bs >>? λ target. offset_of 0 j.origin bs >>? λ origin.
    checked_i16 (pos target -ℤ pos origin -ℤ pos j.origin_offset) >>? λ addr.
    some (change_block j.origin (λ b. buffer_write b j.addr_offset (write_i16be addr)) bs)

unfoldable pub resolve_jumps : List Jump → List Block → Option (List Block)
unfolding resolve_jump
resolve_jumps [] bs = some bs
resolve_jumps (j ∷ js) bs = resolve_jump j bs >>? resolve_jumps js

-- The metadata of a function whose block has its place.
unfoldable pub meta_of : List Block → Func → Option FuncMeta
unfolding offset_of
meta_of bs f = offset_of 0 f.start bs >>? λ addr. checked_u8 f.locals >>? λ locals.
    checked_u8 f.args >>? λ args. checked_u8 f.captures >>? λ captures.
    checked_u32 f.name_offset >>? λ name_offset. checked_u8 f.name_len >>? λ name_len.
    some (record {
      addr = addr % 2 ^ 32;
      locals = locals;
      args = args;
      captures = captures;
      type = f.type;
      name_offset = name_offset;
      name_len = name_len;
    })

unfoldable pub put_funcs : List Block → List Func → Buffer → Option Buffer
unfolding meta_of bytecode_put_func_meta
put_funcs bs [] b = some b
put_funcs bs (f ∷ fs) b = meta_of bs f >>? λ fn. put_funcs bs fs (bytecode_put_func_meta b fn)

unfoldable pub put_blocks : List Block → Buffer → Buffer
unfolding buffer_puts
put_blocks [] b = b
put_blocks (block ∷ bs) b = put_blocks bs (buffer_puts b block.bytecode.bytes).1

unfoldable pub put_strings : List ℕ → Buffer → Option Buffer
unfolding buffer_puts buffer_put_u16be buffer_put_u32be
put_strings strings b = checked_u32 (length strings) >>? λ len.
    some
      (buffer_puts
        (buffer_put_u32be (buffer_put_u16be (buffer_puts b magic).1 bytecode_version) len)
        strings).1

unfoldable pub compiler_write_program : Compiler → Buffer → Option Buffer
unfolding put_strings buffer_put_u32be resolve_jumps put_funcs put_blocks
compiler_write_program c b = put_strings (string_pool_contents c.strings) b >>? λ b₁.
    checked_u32 (length c.funcs) >>? λ funcs_len. resolve_jumps c.jumps c.blocks >>? λ bs.
    put_funcs bs c.funcs (buffer_put_u32be b₁ funcs_len) >>? λ b₂. some (put_blocks bs b₂)
