-- ===== src/Compiler/Visit.antt =====
-- The visitors of lib/compiler.c. `none` is a panic, a failed check or a read through a null pointer.
-- A symbol's number is where its string stands in the pool.
pub mod Depth
pub mod Exprs
pub mod Functions
pub mod Links
pub mod Patterns
pub mod Program
use chammer.Prelude.{
  ℕ, zero, suc, ◌+◌, Bool, true, false, Option, none, some, List, [], ◌∷◌, ◌++◌, ◌==◌, length,
  if◌then◌else◌,
}
use chammer.Buffer.{Buffer}
use chammer.Ast.{Node, Nodes, node, nil, cons, type_of, token_of}
use chammer.Lexer.{token_ident}
use chammer.Tokens.{Token, token_string}
use chammer.Bytecode.{Opcode, bytecode_put_load}
use chammer.StringMap.{StringPool, Entry, string_pool_intern}
use chammer.Compiler.Scopes.{
  Scope, Scopes, root, inner, scope_init, scope_resolve_symbol, scope_get_or_put_local, resolved,
  panicked, unresolved,
}
use chammer.Compiler.Blocks.{
  Compiler, ◌>>?◌, emit_in, try_emit_in, put_jump, insert_block_after, op_byte, top, with_top,
}

-- The compiler, the scopes from the current one on, the current block, and the block that a failed
-- pattern jumps to, if there is one.
pub record Visit : Type 0 where
  pub compiler : Compiler
  pub scopes : Scopes
  pub block : ℕ
  pub fail : Option ℕ

-- The visitors that the others call.
pub record Routines : Type 0 where
  pub expr : Node → Visit → Option Visit
  pub pattern : Node → Option Node → Visit → Option Visit
  pub block_body : Nodes → Visit → Option Visit

unfoldable pub emit : (Buffer → Buffer) → Visit → Visit
unfolding emit_in
emit f v = record v { compiler = emit_in v.block f v.compiler }

unfoldable pub emit_op : Opcode → Visit → Visit
unfolding emit op_byte
emit_op op v = emit (op_byte op) v

unfoldable pub new_block_after : ℕ → Visit → ℕ × Visit
unfolding insert_block_after
new_block_after prev v =
    let (id, c) = insert_block_after prev v.compiler in (id, record v { compiler = c })

unfoldable pub jump_to : Opcode → ℕ → Visit → Option Visit
unfolding put_jump
jump_to op target v =
    put_jump op v.block target v.compiler >>? λ c. some (record v { compiler = c })

-- A symbol of the identifiers.
unfoldable pub intern_ident : List ℕ → Visit → Option (Entry Unit × Visit)
unfolding string_pool_intern
intern_ident name v =
    let (sym, idents) = string_pool_intern v.compiler.idents name in
    sym >>? λ e. some (e, record v { compiler = record v.compiler { idents = idents } })

-- The local of a symbol in the current scope.
unfoldable pub local_of : Entry Unit → Visit → Option (ℕ × Visit)
unfolding scope_get_or_put_local
local_of sym v = scope_get_or_put_local (top v.scopes) sym.key_at >>? λ (s, id).
    some (id, record v { scopes = with_top s v.scopes })

-- The block that failures jump to, made if there is none.
unfoldable pub block_for_fail : Option ℕ → Visit → ℕ × Visit
unfolding new_block_after
block_for_fail (some id) v = (id, v)
block_for_fail none v =
    let (id, v') = new_block_after v.block v in (id, record v' { fail = some id })

unfoldable pub fail_block : Visit → ℕ × Visit
unfolding block_for_fail
fail_block v = block_for_fail v.fail v
