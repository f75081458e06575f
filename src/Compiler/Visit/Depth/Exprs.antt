-- ===== src/Compiler/Visit/Depth/Exprs.antt =====
-- The visitors of expressions that make no function depend on lighter trees only.
use chammer.Prelude.{ℕ, ◌≤◌, ◌<◌, ◌≡◌, refl, arith}
use mathlib.Core.Path.{fun_ext}
use chammer.Ast.{Node, Nodes, node, nil, cons, n_spread, n_int}
use chammer.Compiler.Visit.{Visit, Routines}
use chammer.Compiler.Visit.Exprs.{
  visit_reverse_siblings, visit_tuple, visit_binary, visit_apply, call_unary, visit_unary, visit_if,
  visit_element, visit_elements, visit_list,
}
use chammer.Compiler.Visit.Depth.{weight, weights, Agree}

module _ (m : ℕ) (r r' : Routines) (a : Agree m r r') where
  siblings-same :
      (ns : Nodes) (v : Visit)
      → weights ns ≤ m
      → visit_reverse_siblings r ns v ≡ visit_reverse_siblings r' ns v
  unfolding visit_reverse_siblings weights
  siblings-same nil v h = refl
  siblings-same (cons n ns) v h = rw (siblings-same ns v (omega arith), a.expr n (omega arith)) refl

  pub visit_tuple-same :
      (n : Node) (v : Visit) → weight n ≤ m → visit_tuple r n v ≡ visit_tuple r' n v
  unfolding visit_tuple weight
  visit_tuple-same (node type flag token children) v h =
      rw (siblings-same children v (omega arith)) refl

  pub visit_binary-same :
      (n : Node) (v : Visit) → weight n ≤ m → visit_binary r n v ≡ visit_binary r' n v
  unfolding visit_binary weight
  visit_binary-same (node type flag token children) v h =
      rw (siblings-same children v (omega arith)) refl

  pub visit_apply-same :
      (n : Node) (v : Visit) → weight n ≤ m → visit_apply r n v ≡ visit_apply r' n v
  unfolding visit_apply weight
  visit_apply-same (node type flag token children) v h =
      rw (siblings-same children v (omega arith)) refl

  call_unary-same :
      (n child : Node) (v : Visit)
      → weight child < m
      → call_unary r n child v ≡ call_unary r' n child v
  unfolding call_unary
  call_unary-same n child v h = rw (a.expr child h) refl

  pub visit_unary-same :
      (n : Node) (v : Visit) → weight n ≤ m → visit_unary r n v ≡ visit_unary r' n v
  unfolding visit_unary weight weights
  visit_unary-same (node type flag token nil) v h = refl
  visit_unary-same (node type flag token (cons (node n_int flag' token' children) ns)) v h =
      rw
        (call_unary-same (node type flag token nil) (node n_int flag' token' children) v
          (omega arith))
        refl
  visit_unary-same (node type flag token (cons child ns)) v h =
      call_unary-same (node type flag token nil) child v (omega arith)

  pub visit_if-same : (n : Node) (v : Visit) → weight n ≤ m → visit_if r n v ≡ visit_if r' n v
  unfolding visit_if weight weights
  visit_if-same (node type flag token (cons cond (cons then_node (cons else_node ns)))) v h =
      rw (a.expr cond (omega arith), a.expr then_node (omega arith), a.expr else_node (omega arith))
        refl
  visit_if-same (node type flag token nil) v h = refl
  visit_if-same (node type flag token (cons cond nil)) v h = refl
  visit_if-same (node type flag token (cons cond (cons then_node nil))) v h = refl

  visit_element-same :
      (n : Node) (parts part_len : ℕ) (v : Visit)
      → weight n < m
      → visit_element r n parts part_len v ≡ visit_element r' n parts part_len v
  unfolding weight weights
  visit_element-same (node n_spread flag token (cons child ns)) parts part_len v h =
      rw (a.expr child (omega arith)) refl
  visit_element-same (node n_spread flag token nil) parts part_len v h = refl
  visit_element-same n parts part_len v h = rw (a.expr n h) refl

  visit_elements-same :
      (ns : Nodes) (parts part_len : ℕ) (v : Visit)
      → weights ns ≤ m
      → visit_elements r ns parts part_len v ≡ visit_elements r' ns parts part_len v
  unfolding visit_elements weights
  visit_elements-same nil parts part_len v h = refl
  visit_elements-same (cons n ns) parts part_len v h =
      rw
        (
          visit_element-same n parts part_len v (omega arith),
          fun_ext (λ p. fun_ext (λ l. fun_ext (λ w. visit_elements-same ns p l w (omega arith)))),
        )
        refl

  pub visit_list-same : (n : Node) (v : Visit) → weight n ≤ m → visit_list r n v ≡ visit_list r' n v
  unfolding visit_list weight
  visit_list-same (node type flag token nil) v h = refl
  visit_list-same (node type flag token (cons n ns)) v h =
      visit_elements-same (cons n ns) 1 0 v (omega arith)
