-- ===== src/Compiler/Blocks.antt =====
-- The state of lib/compiler.c: blocks of code, jumps between them, and functions. A block is known
-- by its number; the blocks stand in the order in which they are linked.
pub mod Appends
pub mod Linked
pub mod Post
pub mod Steps
use chammer.Prelude.{ℕ, Option, none, some, List, [], ◌∷◌, ◌++◌, ◌==◌, length, if◌then◌else◌}
use chammer.Buffer.{Buffer, buffer_init, buffer_putc}
use chammer.Bytes.{checked_u32}
use chammer.Bytecode.{Opcode, opcode_byte, bytecode_put_jump}
use chammer.StringMap.{
  StringPool, Entry, string_pool_init, string_pool_intern, string_pool_get_entry, symbol_string,
}
use chammer.Compiler.Scopes.{Scope, Scopes, root, inner}

infixl 5 ◌>>?◌
abbrev pub ◌>>?◌ : {A B : Type 0} → Option A → (A → Option B) → Option B
none >>? f = none
some a >>? f = f a

pub record Block : Type 0 where
  pub id : ℕ
  pub bytecode : Buffer

pub record Jump : Type 0 where
  pub origin : ℕ
  pub target : ℕ
  pub addr_offset : ℕ
  pub origin_offset : ℕ

pub record Func : Type 0 where
  pub start : ℕ
  pub locals : ℕ
  pub args : ℕ
  pub captures : ℕ
  pub type : ℕ
  pub name_offset : ℕ
  pub name_len : ℕ

-- `memory` is what fresh memory holds.
pub record Compiler : Type 0 where
  pub memory : ℕ → ℕ
  pub string_buffer : Buffer
  pub strings : StringPool
  pub idents : StringPool
  pub blocks : List Block
  pub jumps : List Jump
  pub funcs : List Func

unfoldable pub compiler_init : (ℕ → ℕ) → Compiler
unfolding buffer_init string_pool_init
compiler_init memory = record {
  memory = memory;
  string_buffer = buffer_init memory;
  strings = string_pool_init memory;
  idents = string_pool_init memory;
  blocks = [];
  jumps = [];
  funcs = [];
}

unfoldable pub block_init : ℕ → (ℕ → ℕ) → Block
unfolding buffer_init
block_init id memory = record { id = id; bytecode = buffer_init memory }

unfoldable pub link_after : ℕ → Block → List Block → List Block
link_after prev new [] = []
link_after prev new (b ∷ bs) = if b.id == prev then b ∷ new ∷ bs else b ∷ link_after prev new bs

-- The number of the new block, and the compiler with it.
unfoldable pub insert_block_after : ℕ → Compiler → ℕ × Compiler
unfolding block_init link_after
insert_block_after prev c =
    let id = length c.blocks in
    (id, record c { blocks = link_after prev (block_init id c.memory) c.blocks })

unfoldable pub change_block : ℕ → (Buffer → Buffer) → List Block → List Block
change_block id f [] = []
change_block id f (b ∷ bs) =
    if b.id == id then record b { bytecode = f b.bytecode } ∷ bs else b ∷ change_block id f bs

unfoldable pub block_code : ℕ → List Block → Option Buffer
block_code id [] = none
block_code id (b ∷ bs) = if b.id == id then some b.bytecode else block_code id bs

unfoldable pub emit_in : ℕ → (Buffer → Buffer) → Compiler → Compiler
unfolding change_block
emit_in id f c = record c { blocks = change_block id f c.blocks }

unfoldable pub op_byte : Opcode → Buffer → Buffer
unfolding buffer_putc
op_byte op b = buffer_putc b (opcode_byte op)

-- A write that may panic.
unfoldable pub try_emit_in : ℕ → (Buffer → Option Buffer) → Compiler → Option Compiler
unfolding block_code emit_in
try_emit_in id f c = block_code id c.blocks >>? f >>? λ b. some (emit_in id (λ _. b) c)

-- The jump lies at the end of `origin`.
unfoldable pub put_jump : Opcode → ℕ → ℕ → Compiler → Option Compiler
unfolding block_code bytecode_put_jump emit_in
put_jump op origin target c = block_code origin c.blocks >>? λ code.
    let (addr_offset, code') = bytecode_put_jump code op in
    some (record (emit_in origin (λ _. code') c) {
      jumps =
          c.jumps
          ++ record {
            origin = origin;
            target = target;
            addr_offset = addr_offset;
            origin_offset = length code.bytes;
          }
            ∷ [];
    })

abbrev pub top : Scopes → Scope
top (root s) = s
top (inner s outer) = s

abbrev pub with_top : Scope → Scopes → Scopes
with_top s (root _) = root s
with_top s (inner _ outer) = inner s outer

-- The offset and length of a function's name among the strings; without a name both are 0.
unfoldable pub name_entry : Option (Entry Unit) → Compiler → Option ((ℕ × ℕ) × Compiler)
unfolding string_pool_intern
name_entry none c = some ((0, 0), c)
name_entry (some name) c =
    let (sym, strings) = string_pool_intern c.strings (symbol_string c.idents name) in
    sym >>? λ e. some (string_pool_get_entry e, record c { strings = strings })

-- The function's number.
unfoldable pub push_func :
    ℕ → Scope → ℕ → ℕ → Option (Entry Unit) → Compiler → Option (ℕ × Compiler)
unfolding name_entry
push_func start inner_scope args type name c =
    name_entry name c >>? λ ((name_offset, name_len), c'). checked_u32 (length c.funcs) >>? λ index.
    some (
      index,
      record c' {
        funcs =
            c.funcs
            ++ record {
              start = start;
              locals = length inner_scope.locals;
              args = args;
              captures = length inner_scope.captures;
              type = type;
              name_offset = name_offset;
              name_len = name_len;
            }
              ∷ [];
      },
    )
