-- ===== src/Compiler/Visit/Patterns.antt =====
-- The visitors of patterns. Without a value the pattern matches what is on top of the stack.
use chammer.Prelude.{ℕ, ◌+◌, Bool, true, false, Option, none, some}
use chammer.StringMap.{Entry}
use chammer.Bytes.{checked_u16}
use chammer.Ast.{
  Node, NodeType, Nodes, node, nil, cons, type_of, token_of, flag_of, first_child, count_nodes,
  n_lambda, n_pltail,
}
use chammer.Tokens.{token_string}
use chammer.Bytecode.{
  op_pop, op_eq, op_chkcons, op_chknil, op_uncons, op_jumpifn, bytecode_put_store,
  bytecode_put_chktuple, bytecode_put_tupleget,
}
use chammer.Compiler.Blocks.{◌>>?◌}
use chammer.Compiler.Visit.{
  Visit, Routines, emit, emit_op, jump_to, intern_ident, local_of, fail_block,
}
use chammer.Compiler.Visit.Functions.{visit_lambda, visit_function}

-- The current block jumps to the block for failures.
abbrev pub jump_to_fail : ℕ → Visit → Option Visit
jump_to_fail fail v = jump_to op_jumpifn fail v

-- The tail of a list pattern ends it, with or without a name.
unfoldable pub visit_tail_named : Bool → Node → Visit → Option Visit
unfolding intern_ident local_of emit bytecode_put_store emit_op
visit_tail_named true n v = intern_ident (token_string (token_of n)) v >>? λ (sym, v₁).
    local_of sym v₁ >>? λ (local, v₂). some (emit (λ b. bytecode_put_store b local) v₂)
visit_tail_named false n v = some (emit_op op_pop v)

unfoldable pub visit_tail : Node → Visit → Option Visit
unfolding visit_tail_named
visit_tail n v = visit_tail_named (flag_of n) n v

-- With a value at hand, nothing is done.
unfoldable pub visit_pwild : Option Node → Visit → Option Visit
unfolding emit_op
visit_pwild none v = some (emit_op op_pop v)
visit_pwild (some rhs) v = some v

module _ (r : Routines) where
  abbrev pub visit_value : Option Node → Visit → Option Visit
  visit_value none v = some v
  visit_value (some rhs) v = r.expr rhs v

  -- A lambda is given the name that its value gets.
  unfoldable pub name_value : NodeType → Node → Entry Unit → Visit → Option Visit
  unfolding visit_lambda
  name_value n_lambda n sym v = visit_lambda r n (some sym) v
  name_value _ n sym v = r.expr n v

  unfoldable pub visit_named : Option Node → Entry Unit → Visit → Option Visit
  unfolding name_value
  visit_named none sym v = some v
  visit_named (some n) sym v = name_value (type_of n) n sym v

  unfoldable pub visit_pident : Node → Option Node → Visit → Option Visit
  unfolding intern_ident visit_named local_of emit bytecode_put_store
  visit_pident lhs rhs v = intern_ident (token_string (token_of lhs)) v >>? λ (sym, v₁).
      visit_named rhs sym v₁ >>? local_of sym >>? λ (local, v₂).
      some (emit (λ b. bytecode_put_store b local) v₂)

  -- A recursive function gets its local first.
  unfoldable pub visit_applied : Bool → Node → Node → Entry Unit → Visit → Option (ℕ × Visit)
  unfolding local_of visit_function
  visit_applied true lhs rhs sym v = local_of sym v >>? λ (local, v').
      visit_function r (first_child lhs) rhs (some sym) true v' >>? λ v''. some (local, v'')
  visit_applied false lhs rhs sym v =
      visit_function r (first_child lhs) rhs (some sym) false v >>? local_of sym

  unfoldable pub visit_papply : Node → Option Node → Visit → Option Visit
  unfolding intern_ident visit_applied emit bytecode_put_store
  visit_papply lhs none v = none
  visit_papply lhs (some rhs) v = intern_ident (token_string (token_of lhs)) v >>? λ (sym, v₁).
      visit_applied (flag_of lhs) lhs rhs sym v₁ >>? λ (local, v₂).
      some (emit (λ b. bytecode_put_store b local) v₂)

  unfoldable pub visit_tuple_items : Nodes → ℕ → Visit → Option Visit
  unfolding emit bytecode_put_tupleget
  visit_tuple_items nil index v = some v
  visit_tuple_items (cons n ns) index v = checked_u16 index >>? λ i.
      r.pattern n none (emit (λ b. bytecode_put_tupleget b i) v)
      >>? visit_tuple_items ns (index + 1)

  unfoldable pub visit_ptuple : Node → Option Node → Visit → Option Visit
  unfolding fail_block emit bytecode_put_chktuple jump_to visit_tuple_items emit_op
  visit_ptuple lhs rhs v = visit_value rhs v >>? λ v₁.
      let (fail, v₂) = fail_block v₁ in
      checked_u16 (count_nodes (first_child lhs)) >>? λ len.
      jump_to_fail fail (emit (λ b. bytecode_put_chktuple b len) v₂)
      >>? visit_tuple_items (first_child lhs) 0
      >>? λ v₃. some (emit_op op_pop v₃)

  unfoldable pub visit_list_items : ℕ → Nodes → Visit → Option Visit
  unfolding emit_op jump_to visit_tail
  visit_list_items fail nil v =
      jump_to_fail fail (emit_op op_chknil v) >>? λ v'. some (emit_op op_pop v')
  visit_list_items fail (cons (node n_pltail flag token children) ns) v =
      visit_tail (node n_pltail flag token children) v
  visit_list_items fail (cons n ns) v = jump_to_fail fail (emit_op op_chkcons v) >>? λ v'.
      r.pattern n none (emit_op op_uncons v') >>? visit_list_items fail ns

  unfoldable pub visit_plist : Node → Option Node → Visit → Option Visit
  unfolding fail_block visit_list_items
  visit_plist lhs rhs v = visit_value rhs v >>? λ v₁.
      let (fail, v₂) = fail_block v₁ in visit_list_items fail (first_child lhs) v₂

  unfoldable pub visit_pconst : Node → Option Node → Visit → Option Visit
  unfolding fail_block emit_op jump_to
  visit_pconst (node type flag token nil) rhs v = none
  visit_pconst (node type flag token (cons n ns)) rhs v = visit_value rhs v >>? λ v₁.
      let (fail, v₂) = fail_block v₁ in r.expr n v₂ >>? λ v₃. jump_to_fail fail (emit_op op_eq v₃)
