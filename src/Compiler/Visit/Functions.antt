-- ===== src/Compiler/Visit/Functions.antt =====
-- The visitors that make functions: lambdas, `match` and blocks.
use chammer.Prelude.{ℕ, ◌+◌, ◌%◌, ◌^◌, Bool, true, false, Option, none, some, if◌then◌else◌}
use chammer.Ast.{
  Node, Nodes, node, nil, cons, type_of, first_child, node_type_is_expr, n_assign, n_bind, n_void,
}
use chammer.Bytecode.{
  op_dup, op_return, op_halt, op_pop, op_swap, op_bind, op_pushtrue, op_pushfalse, op_jump,
  op_jumpif, bytecode_put_callval, bytecode_put_store, bytecode_put_makecls, bytecode_put_call,
  bytecode_put_maketuple,
}
use chammer.Bytecode.Program.{fn_named, fn_block, fn_lambda, fn_case}
use chammer.StringMap.{Entry}
use chammer.Compiler.Scopes.{
  Scope, Scopes, root, inner, scope_init, scope_put_local, put_store_captures, put_load_captures,
}
use chammer.Compiler.Blocks.{◌>>?◌, Compiler, try_emit_in, push_func, top, with_top}
use chammer.Compiler.Visit.{Visit, Routines, emit, emit_op, new_block_after, jump_to}

-- A function's scope and two blocks behind `prev`, the second of which is the current one.
unfoldable pub enter : ℕ → Visit → ℕ × Visit
unfolding new_block_after scope_init
enter prev v =
    let (prelude, v₁) = new_block_after prev v in
    let (body, v₂) = new_block_after prelude v₁ in
    (prelude, record v₂ { scopes = inner scope_init v.scopes; block = body; fail = none })

-- The scope of the function, and the outer ones.
abbrev pub leave : Scopes → Option (Scope × Scopes)
leave (root s) = none
leave (inner s outer) = some (s, outer)

-- The captures are stored in the prelude and loaded in the block that makes the function.
unfoldable pub put_captures : ℕ → ℕ → Scope → Scopes → Compiler → Option Compiler
unfolding try_emit_in put_store_captures put_load_captures
put_captures prelude block s outer c =
    try_emit_in prelude (λ b. put_store_captures b s) c
    >>? try_emit_in block (λ b. put_load_captures b s (top outer))

-- The end of a function that `v` began in `block`: its captures and its number.
unfoldable pub finish_func :
    ℕ → ℕ → Option ℕ → ℕ → ℕ → Option (Entry Unit) → Visit → Option (ℕ × Visit)
unfolding put_captures push_func
finish_func prelude block fail args type name v = leave v.scopes >>? λ (s, outer).
    put_captures prelude block s outer v.compiler >>? λ c.
    push_func prelude s args type name c >>? λ (fnindex, c').
    some (fnindex, record { compiler = c'; scopes = outer; block = block; fail = fail })

unfoldable pub emit_fail : (Visit → Visit) → Visit → Visit
emit_fail f v = elim v.fail [
  | none ↦ v
  | some id ↦ record (f (record v { block = id })) { block = v.block }
]

-- A recursive function is given itself, and calls it to make its own closure.
unfoldable pub put_self : Bool → Option (Entry Unit) → Visit → Option (ℕ × Visit)
unfolding scope_put_local emit_op emit bytecode_put_callval bytecode_put_store
put_self false name v = some (0, v)
put_self true none v = none
put_self true (some sym) v = scope_put_local (top v.scopes) sym.key_at >>? λ (s, local). some (
  1,
  emit (λ b. bytecode_put_store b local)
      (emit (λ b. bytecode_put_callval b 1)
        (emit_op op_dup (record v { scopes = with_top s v.scopes }))),
)

abbrev pub type_for : Option (Entry Unit) → ℕ
type_for none = fn_lambda
type_for (some name) = fn_named

unfoldable pub tie : Bool → Visit → Visit
unfolding emit_op emit bytecode_put_callval
tie false v = v
tie true v = emit (λ b. bytecode_put_callval b 1) (emit_op op_dup v)

-- The last child is the body.
unfoldable pub split_body : Nodes → Option (Nodes × Node)
split_body nil = none
split_body (cons n ns) = elim (split_body ns) [
  | none ↦ some (nil, n)
  | some (params, body) ↦ some (cons n params, body)
]

module _ (r : Routines) where
  -- The patterns of the arguments, and how many they are; the count is a byte.
  unfoldable pub visit_args : Nodes → ℕ → Visit → Option (ℕ × Visit)
  visit_args nil args v = some (args, v)
  visit_args (cons arg rest) args v = r.pattern arg none v >>? visit_args rest ((args + 1) % 2 ^ 8)

  unfoldable pub visit_function : Nodes → Node → Option (Entry Unit) → Bool → Visit → Option Visit
  unfolding enter put_self visit_args emit_op emit_fail finish_func emit bytecode_put_makecls tie
  visit_function params body name rec_ v =
      let (prelude, v₁) = enter v.block v in
      put_self rec_ name v₁ >>? λ (given, v₂). visit_args params given v₂ >>? λ (args, v₃).
      r.expr body v₃ >>? λ v₄.
      finish_func prelude v.block v.fail args (type_for name) name
        (emit_fail (emit_op op_halt) (emit_op op_return v₄))
      >>? λ (fnindex, v₅). some (tie rec_ (emit (λ b. bytecode_put_makecls b fnindex) v₅))

  unfoldable pub visit_lambda : Node → Option (Entry Unit) → Visit → Option Visit
  unfolding split_body visit_function
  visit_lambda n name v =
      split_body (first_child n) >>? λ (params, body). visit_function params body name false v

  -- A function of the scrutinee, whose result says whether it matches.
  unfoldable pub visit_case : ℕ → Node → Node → Visit → Option Visit
  unfolding emit_op enter finish_func emit bytecode_put_call jump_to
  visit_case cont_block lhs rhs v =
      let v₁ = emit_op op_dup v in
      let (prelude, v₂) = enter cont_block v₁ in
      r.pattern lhs none (record v₂ { fail = v.fail }) >>? r.expr rhs >>? λ v₃.
      finish_func prelude v.block v₃.fail 1 fn_case none
        (emit_op op_return (emit_op op_pushtrue v₃))
      >>? λ (fnindex, v₄). jump_to op_jumpif cont_block (emit (λ b. bytecode_put_call b fnindex) v₄)

  -- The loop over the cases; a last child without a partner is the `else` case.
  unfoldable pub visit_cases : ℕ → Nodes → Visit → Option Visit
  unfolding visit_case jump_to
  visit_cases cont_block nil v = some v
  visit_cases cont_block (cons n nil) v = r.expr n v >>? jump_to op_jump cont_block
  visit_cases cont_block (cons lhs (cons rhs ns)) v =
      visit_case cont_block lhs rhs v >>? visit_cases cont_block ns

  unfoldable pub visit_match : Node → Visit → Option Visit
  unfolding new_block_after visit_cases emit_op emit_fail
  visit_match (node type flag token nil) v = none
  visit_match (node type flag token (cons scrutinee cases)) v = r.expr scrutinee v >>? λ v₁.
      let (cont_block, v₂) = new_block_after v₁.block v₁ in
      visit_cases cont_block cases (record v₂ { fail = none }) >>? λ v₃.
      let v₄ = emit_fail (λ f. emit_op op_return (emit_op op_pushfalse f)) (emit_op op_halt v₃) in
      some (emit_op op_pop (emit_op op_swap (record v₄ { block = cont_block; fail = v.fail })))

  -- The assignments that a block begins with, and what follows them. At the end of the block the
  -- loop reads through a null pointer.
  unfoldable pub visit_assigns : Nodes → Visit → Option (Nodes × Visit)
  visit_assigns nil v = none
  visit_assigns (cons (node n_assign flag token (cons lhs (cons rhs _))) ns) v =
      r.pattern lhs (some rhs) v >>? visit_assigns ns
  visit_assigns (cons (node n_assign flag token _) ns) v = none
  visit_assigns (cons n ns) v = some (cons n ns, v)

  -- What the rest of a block does with the value of an effect: a function of it.
  unfoldable pub visit_rest : (Visit → Option Visit) → Nodes → Node → Visit → Option Visit
  unfolding enter emit_op finish_func emit bytecode_put_makecls emit_fail
  visit_rest begin_ rest effect v =
      let (prelude, v₁) = enter v.block v in
      begin_ v₁ >>? r.block_body rest >>? λ v₂.
      finish_func prelude v.block v.fail 1 fn_block none (emit_op op_return v₂) >>? λ (fnindex, v₃).
      r.expr effect (emit (λ b. bytecode_put_makecls b fnindex) v₃) >>? λ v₄.
      let v₅ = emit_op op_bind v₄ in
      some (record (emit_fail (emit_op op_halt) (record v₅ { fail = v₂.fail })) { fail = v.fail })

  unfoldable pub visit_assign_block : Nodes → Visit → Option Visit
  unfolding enter visit_assigns emit_op finish_func emit bytecode_put_call emit_fail
  visit_assign_block ns v =
      let (prelude, v₁) = enter v.block v in
      visit_assigns ns v₁ >>? λ (rest, v₂). r.block_body rest v₂ >>? λ v₃.
      finish_func prelude v.block v.fail 0 fn_block none
        (emit_fail (emit_op op_halt) (emit_op op_return v₃))
      >>? λ (fnindex, v₄). some (emit (λ b. bytecode_put_call b fnindex) v₄)

  unfoldable pub visit_block_body : Nodes → Visit → Option Visit
  unfolding emit bytecode_put_maketuple visit_assign_block visit_rest emit_op
  visit_block_body nil v = some (emit (λ b. bytecode_put_maketuple b 0) v)
  visit_block_body (cons (node n_assign flag token children) ns) v =
      visit_assign_block (cons (node n_assign flag token children) ns) v
  visit_block_body (cons (node n_bind flag token (cons lhs (cons rhs _))) ns) v =
      visit_rest (r.pattern lhs none) ns rhs v
  visit_block_body (cons (node n_void flag token (cons effect _)) ns) v =
      visit_rest (λ v. some (emit_op op_pop v)) ns effect v
  visit_block_body (cons n ns) v = if node_type_is_expr (type_of n) then r.expr n v else none
