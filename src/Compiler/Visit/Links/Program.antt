-- ===== src/Compiler/Visit/Links/Program.antt =====
-- A compiled program's blocks, jumps and functions fit together.
use chammer.Prelude.{
  ℕ, zero, suc, ◌<◌, ◌≡◌, refl, sym, Option, none, List, [], ◌∷◌, length, All, arith,
}
use mathlib.Core.Path.{subst}
use chammer.Buffer.{Buffer, buffer_init}
use chammer.Ast.{
  Node, NodeType, n_ident, n_string, n_int, n_tuple, n_list, n_unary, n_binary, n_apply, n_if,
  n_match, n_lambda, n_block, n_pident, n_pwild, n_papply, n_ptuple, n_plist, n_pconst, first_child,
  type_of,
}
use chammer.Bytecode.{
  op_yield, op_loadext, bytecode_put_call, bytecode_put_pushstr, bytecode_put_store,
}
use chammer.Bytecode.Program.{fn_global}
use chammer.StringMap.{string_pool_intern, string_pool_get_entry, symbol_string}
use chammer.StringMap.Iteration.{entries_of}
use chammer.Compiler.Scopes.{Scope, root, scope_init, scope_get_local}
use chammer.Compiler.Blocks.{
  Compiler, Func, block_init, emit_in, op_byte, insert_block_after, block_code, top,
}
use chammer.Compiler.Blocks.Post.{Post, post, bind-Post, any-Post, mono-Post}
use chammer.Compiler.Blocks.Appends.{
  Begins_trans, Appends, op_byte-Appends, put_call-Appends, put_store-Appends, put_pushstr-Appends,
}
use chammer.Compiler.Blocks.Linked.{IsLinked, Placed, Apart, length-change}
use chammer.Compiler.Blocks.Steps.{
  Alike, emit_in-IsLinked, insert_block_after-IsLinked, push_func-IsLinked, pools-IsLinked,
}
use chammer.Compiler.Visit.{Visit, Routines, emit_op}
use chammer.Compiler.Visit.Program.{
  visit_expr_at, visit_pattern_at, visit_expr, visit_pattern, visitors_over, panicking,
  visit_program, symbol_at, put_load_externs, compiler_visit_program,
}
use chammer.Compiler.Visit.Links.{IsGood, After, Links, emit_op-After}
use chammer.Compiler.Visit.Links.Exprs.{
  visit_ident-Post, visit_string-Post, visit_int-Post, visit_tuple-Post, visit_list-Post,
  visit_unary-Post, visit_binary-Post, visit_apply-Post, visit_if-Post,
}
use chammer.Compiler.Visit.Links.Functions.{visit_match-Post, visit_lambda-Post}
use chammer.Compiler.Visit.Links.Bodies.{visit_block_body-Post}
use chammer.Compiler.Visit.Links.Patterns.{
  visit_pident-Post, visit_papply-Post, visit_ptuple-Post, visit_plist-Post, visit_pconst-Post,
  visit_pwild-Post,
}

module _ (r : Routines) (h : Links r) (n : Node) where
  expr_at : (type : NodeType) (v : Visit) → IsGood v → Post (After v) (visit_expr_at r type n v)
  unfolding visit_expr_at
  expr_at n_ident v g = visit_ident-Post n v g
  expr_at n_string v g = visit_string-Post n v g
  expr_at n_int v g = visit_int-Post n v g
  expr_at n_tuple v g = visit_tuple-Post r h n v g
  expr_at n_list v g = visit_list-Post r h n v g
  expr_at n_unary v g = visit_unary-Post r h n v g
  expr_at n_binary v g = visit_binary-Post r h n v g
  expr_at n_apply v g = visit_apply-Post r h n v g
  expr_at n_if v g = visit_if-Post r h n v g
  expr_at n_match v g = visit_match-Post r h n v g
  expr_at n_lambda v g = visit_lambda-Post r h n none v g
  expr_at n_block v g = h.block_body (first_child n) v g
  expr_at _ v g = post tt

  pattern_at :
      (type : NodeType) (rhs : Option Node) (v : Visit)
      → IsGood v
      → Post (After v) (visit_pattern_at r type n rhs v)
  unfolding visit_pattern_at
  pattern_at n_pident rhs v g = visit_pident-Post r h n rhs v g
  pattern_at n_papply rhs v g = visit_papply-Post r h n rhs v g
  pattern_at n_ptuple rhs v g = visit_ptuple-Post r h n rhs v g
  pattern_at n_plist rhs v g = visit_plist-Post r h n rhs v g
  pattern_at n_pconst rhs v g = visit_pconst-Post r h n rhs v g
  pattern_at n_pwild rhs v g = visit_pwild-Post r h rhs v g
  pattern_at _ rhs v g = post tt

-- At every depth.
visitors-Links : (depth : ℕ) → Links (visitors_over panicking depth)
unfolding visitors_over visit_expr visit_pattern
visitors-Links zero = record {
  expr = λ n v g. post tt;
  pattern = λ lhs rhs v g. post tt;
  block_body = λ ns v g. post tt;
}
visitors-Links (suc depth) =
    let h = visitors-Links depth in
    record {
      expr = λ n v g. expr_at (visitors_over panicking depth) h n (type_of n) v g;
      pattern =
          λ lhs rhs v g. pattern_at (visitors_over panicking depth) h lhs (type_of lhs) rhs v g;
      block_body = λ ns v g. visit_block_body-Post (visitors_over panicking depth) h ns v g;
    }

load_extern-Appends :
    (offset len local : ℕ)
    → Appends
        (λ b. bytecode_put_store (op_byte op_loadext (bytecode_put_pushstr b offset len)) local)
load_extern-Appends offset len local b =
    let b₁ = bytecode_put_pushstr b offset len in
    let b₂ = op_byte op_loadext b₁ in
    let b₃ = bytecode_put_store b₂ local in
    Begins_trans b b₁ b₃ (put_pushstr-Appends offset len b)
      (Begins_trans b₁ b₂ b₃ (op_byte-Appends op_loadext b₁) (put_store-Appends local b₂))

put_load_externs-Post :
    (block : ℕ) (scope : Scope) (captures : List ℕ) (c : Compiler)
    → block < length c.blocks
    → IsLinked c
    → Post (Alike c) (put_load_externs block scope captures c)
unfolding put_load_externs emit_in
put_load_externs-Post block scope [] c lt l = post (l, refl)
put_load_externs-Post block scope (capture ∷ captures) c lt l =
    any-Post (symbol_at capture (entries_of c.idents.buckets)) (λ sym.
      any-Post (scope_get_local scope capture) (λ local.
        let (name, strings) = string_pool_intern c.strings (symbol_string c.idents sym) in
        any-Post name (λ e.
          let (offset, len) = string_pool_get_entry e in
          let put = λ (b : Buffer).
            bytecode_put_store (op_byte op_loadext (bytecode_put_pushstr b offset len)) local in
          let c₁ = record c { strings = strings } in
          let same = length-change put block c.blocks in
          let l₁ =
            emit_in-IsLinked block put c₁ (load_extern-Appends offset len local) lt
              (pools-IsLinked c c.string_buffer strings c.idents l) in
          mono-Post
            (put_load_externs-Post block scope captures (emit_in block put c₁)
              (omega (arith, same, lt)) l₁)
            (λ c' (l', same'). (l', omega (arith, same, same'))))))

-- The compiler with its first block.
begun-IsLinked :
    (c : Compiler)
    → c.jumps ≡ []
    → c.funcs ≡ []
    → IsLinked (record c { blocks = block_init 0 c.memory ∷ [] })
unfolding block_init block_code
begun-IsLinked c no_jumps no_funcs = record {
  numbered = λ id lt. (buffer_init c.memory, ground arith);
  jumps_placed = subst (All (Placed (block_init 0 c.memory ∷ []))) (sym no_jumps) tt;
  jumps_apart = subst Apart (sym no_jumps) tt;
  funcs_begin = subst (All (λ (f : Func). f.start < 1)) (sym no_funcs) tt;
}

-- What is compiled from a tree, at any depth, is linked.
pub compiler_visit_program-Post :
    (depth : ℕ) (c : Compiler) (n : Node)
    → c.jumps ≡ []
    → c.funcs ≡ []
    → Post IsLinked (compiler_visit_program depth c n)
unfolding compiler_visit_program visit_program visit_expr emit_in insert_block_after
compiler_visit_program-Post depth c n no_jumps no_funcs =
    let c₀ = record c { blocks = block_init 0 c.memory ∷ [] } in
    let (l₁, two) =
      insert_block_after-IsLinked 0 c₀ (omega arith) (begun-IsLinked c no_jumps no_funcs) in
    let (block, c₁) = insert_block_after 0 c₀ in
    let v₁ : Visit = record {
      compiler = c₁;
      scopes = root scope_init;
      block = block;
      fail = none;
    } in
    let g₁ : IsGood v₁ = record { linked = l₁; block_in = omega (arith, two); fail_in = tt } in
    bind-Post (expr_at (visitors_over panicking depth) (visitors-Links depth) n (type_of n) v₁ g₁)
      (λ v a.
        let y = emit_op-After op_yield v a.good in
        let c' = (emit_op op_yield v).compiler in
        let (l₂, one_more) =
          insert_block_after-IsLinked 0 c' (omega (arith, two, a.more, y.more)) y.good.linked in
        let (init, c₂) = insert_block_after 0 c' in
        let scope = top v.scopes in
        bind-Post (put_load_externs-Post init scope scope.captures c₂ (omega (arith, one_more)) l₂)
          (λ c₃ (l₃, same).
            bind-Post
              (push_func-IsLinked init scope 0 fn_global none c₃ (omega (arith, one_more, same)) l₃)
              (λ (index, c₄) (l₄, same'). post (
                emit_in-IsLinked 0 (λ b. bytecode_put_call b index) c₄ (put_call-Appends index)
                  (omega (arith, one_more, same, same')) l₄))))
