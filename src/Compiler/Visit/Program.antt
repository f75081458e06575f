-- ===== src/Compiler/Visit/Program.antt =====
-- The compilation of a program: `compiler_visit_program` of lib/compiler.c. Visitors are nested at
-- most as deep as they are told.
use chammer.Prelude.{ℕ, zero, suc, Option, none, some, List, [], ◌∷◌, ◌==◌, if◌then◌else◌}
use chammer.Ast.{
  Node, NodeType, type_of, first_child, n_ident, n_string, n_int, n_tuple, n_list, n_unary,
  n_binary, n_apply, n_if, n_match, n_lambda, n_block, n_pident, n_pwild, n_papply, n_ptuple,
  n_plist, n_pconst,
}
use chammer.Bytecode.{
  op_yield, op_loadext, bytecode_put_call, bytecode_put_pushstr, bytecode_put_store,
}
use chammer.Bytecode.Program.{fn_global}
use chammer.StringMap.{Entry, string_pool_intern, string_pool_get_entry, symbol_string}
use chammer.StringMap.Iteration.{entries_of}
use chammer.Compiler.Scopes.{Scope, root, scope_init, scope_get_local}
use chammer.Compiler.Blocks.{
  ◌>>?◌, Compiler, block_init, emit_in, op_byte, push_func, insert_block_after, top,
}
use chammer.Compiler.Visit.{Visit, Routines, emit_op}
use chammer.Compiler.Visit.Exprs.{
  visit_ident, visit_string, visit_int, visit_tuple, visit_list, visit_unary, visit_binary,
  visit_apply, visit_if,
}
use chammer.Compiler.Visit.Functions.{visit_match, visit_lambda, visit_block_body}
use chammer.Compiler.Visit.Patterns.{
  visit_pident, visit_papply, visit_ptuple, visit_plist, visit_pconst, visit_pwild,
}

-- Decimal numbers and spreads outside lists are not supported.
unfoldable pub visit_expr_at : Routines → NodeType → Node → Visit → Option Visit
unfolding visit_ident visit_string visit_int visit_tuple visit_list visit_unary visit_binary
    visit_apply visit_if visit_match visit_lambda
visit_expr_at r n_ident n v = visit_ident n v
visit_expr_at r n_string n v = visit_string n v
visit_expr_at r n_int n v = visit_int n v
visit_expr_at r n_tuple n v = visit_tuple r n v
visit_expr_at r n_list n v = visit_list r n v
visit_expr_at r n_unary n v = visit_unary r n v
visit_expr_at r n_binary n v = visit_binary r n v
visit_expr_at r n_apply n v = visit_apply r n v
visit_expr_at r n_if n v = visit_if r n v
visit_expr_at r n_match n v = visit_match r n v
visit_expr_at r n_lambda n v = visit_lambda r n none v
visit_expr_at r n_block n v = r.block_body (first_child n) v
visit_expr_at r _ n v = none

unfoldable pub visit_expr : Routines → Node → Visit → Option Visit
unfolding visit_expr_at
visit_expr r n v = visit_expr_at r (type_of n) n v

-- Aliases are not supported.
unfoldable pub visit_pattern_at : Routines → NodeType → Node → Option Node → Visit → Option Visit
unfolding visit_pident visit_papply visit_ptuple visit_plist visit_pconst visit_pwild
visit_pattern_at r n_pident lhs rhs v = visit_pident r lhs rhs v
visit_pattern_at r n_papply lhs rhs v = visit_papply r lhs rhs v
visit_pattern_at r n_ptuple lhs rhs v = visit_ptuple r lhs rhs v
visit_pattern_at r n_plist lhs rhs v = visit_plist r lhs rhs v
visit_pattern_at r n_pconst lhs rhs v = visit_pconst r lhs rhs v
visit_pattern_at r n_pwild lhs rhs v = visit_pwild rhs v
visit_pattern_at r _ lhs rhs v = none

unfoldable pub visit_pattern : Routines → Node → Option Node → Visit → Option Visit
unfolding visit_pattern_at
visit_pattern r lhs rhs v = visit_pattern_at r (type_of lhs) lhs rhs v

-- Visitors nested at most `depth` deep, over what the innermost ones call.
unfoldable pub visitors_over : Routines → ℕ → Routines
unfolding visit_expr visit_pattern visit_block_body
visitors_over beyond zero = beyond
visitors_over beyond (suc depth) =
    let inner_visitors = visitors_over beyond depth in
    record {
      expr = visit_expr inner_visitors;
      pattern = visit_pattern inner_visitors;
      block_body = visit_block_body inner_visitors;
    }

-- Routines that always panic.
abbrev pub panicking : Routines
panicking = record { expr = λ n v. none; pattern = λ lhs rhs v. none; block_body = λ ns v. none }

-- The symbol with a number.
unfoldable pub symbol_at : ℕ → List (Entry Unit) → Option (Entry Unit)
symbol_at number [] = none
symbol_at number (e ∷ es) = if e.key_at == number then some e else symbol_at number es

-- The captures of the global scope are symbols of other modules.
unfoldable pub put_load_externs : ℕ → Scope → List ℕ → Compiler → Option Compiler
unfolding symbol_at scope_get_local string_pool_intern emit_in op_byte entries_of
put_load_externs block scope [] c = some c
put_load_externs block scope (capture ∷ captures) c =
    symbol_at capture (entries_of c.idents.buckets) >>? λ sym.
    scope_get_local scope capture >>? λ local.
    let (name, strings) = string_pool_intern c.strings (symbol_string c.idents sym) in
    name >>? λ e.
    let (offset, len) = string_pool_get_entry e in
    put_load_externs block scope captures (
      emit_in block
        (λ b. bytecode_put_store (op_byte op_loadext (bytecode_put_pushstr b offset len)) local)
        (record c { strings = strings }))

-- On a compiler without blocks. The first block calls the function that loads the symbols of other
-- modules, and the second holds the program.
unfoldable pub visit_program : Routines → Compiler → Node → Option Compiler
unfolding block_init insert_block_after visit_expr emit_op put_load_externs push_func emit_in
    scope_init
visit_program r c n =
    let c₀ = record c { blocks = block_init 0 c.memory ∷ [] } in
    let (block, c₁) = insert_block_after 0 c₀ in
    visit_expr r n (record { compiler = c₁; scopes = root scope_init; block = block; fail = none })
    >>? λ v.
        let (init, c₂) = insert_block_after 0 (emit_op op_yield v).compiler in
        let global_scope = top v.scopes in
        put_load_externs init global_scope global_scope.captures c₂ >>? λ c₃.
        push_func init global_scope 0 fn_global none c₃ >>? λ (init_fnindex, c₄).
        some (emit_in 0 (λ b. bytecode_put_call b init_fnindex) c₄)

-- A depth of the tree's weight is never used up.
unfoldable pub compiler_visit_program : ℕ → Compiler → Node → Option Compiler
unfolding visit_program visitors_over
compiler_visit_program depth c n = visit_program (visitors_over panicking depth) c n
