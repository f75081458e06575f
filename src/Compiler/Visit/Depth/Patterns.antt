-- ===== src/Compiler/Visit/Depth/Patterns.antt =====
-- The visitors of patterns depend on lighter trees only.
use chammer.Prelude.{
  ℕ, suc, ◌+◌, ◌≤◌, ◌<◌, ◌≡◌, refl, ap, Bool, true, false, Option, none, some, arith,
}
use mathlib.Core.Path.{fun_ext}
use chammer.Ast.{Node, Nodes, node, nil, cons, NodeType, n_pltail, n_lambda, type_of, flag_of}
use chammer.StringMap.{Entry}
use chammer.Compiler.Blocks.{◌>>?◌}
use chammer.Compiler.Visit.{Visit, Routines, local_of}
use chammer.Compiler.Visit.Depth.{weight, weights, rhs_weight, Agree}
use chammer.Compiler.Visit.Depth.Functions.{bind-eq, any, visit_lambda-same, visit_function-same}
use chammer.Compiler.Visit.Functions.{visit_function}
use chammer.Compiler.Visit.Patterns.{
  visit_value, name_value, visit_named, visit_pident, visit_applied, visit_papply,
  visit_tuple_items, visit_ptuple, visit_list_items, visit_plist, visit_pconst,
}

module _ (m : ℕ) (r r' : Routines) (a : Agree m r r') where
  visit_value-same :
      (rhs : Option Node) (v : Visit)
      → rhs_weight rhs < m
      → visit_value r rhs v ≡ visit_value r' rhs v
  visit_value-same none v h = refl
  visit_value-same (some n) v h = ap (λ f. f v) (a.expr n h)

  name_value-same :
      (type : NodeType) (n : Node) (s : Entry Unit) (v : Visit)
      → weight n < m
      → name_value r type n s v ≡ name_value r' type n s v
  unfolding name_value
  name_value-same n_lambda n s v h = visit_lambda-same m r r' a n (some s) v (omega arith)
  name_value-same type n s v h = ap (λ f. f v) (a.expr n h)

  visit_named-same :
      (rhs : Option Node) (s : Entry Unit) (v : Visit)
      → rhs_weight rhs < m
      → visit_named r rhs s v ≡ visit_named r' rhs s v
  unfolding visit_named
  visit_named-same none s v h = refl
  visit_named-same (some n) s v h = name_value-same (type_of n) n s v h

  pub visit_pident-same :
      (lhs : Node) (rhs : Option Node) (v : Visit)
      → suc (weight lhs + rhs_weight rhs) ≤ m
      → visit_pident r lhs rhs v ≡ visit_pident r' lhs rhs v
  unfolding visit_pident
  visit_pident-same lhs rhs v h =
      rw (fun_ext (λ s. fun_ext (λ w. visit_named-same rhs s w (omega arith)))) refl

  visit_applied-same :
      (is_rec : Bool) (lhs rhs : Node) (s : Entry Unit) (v : Visit)
      → weight lhs ≤ m
      → weight rhs < m
      → visit_applied r is_rec lhs rhs s v ≡ visit_applied r' is_rec lhs rhs s v
  unfolding visit_applied weight
  visit_applied-same true (node type flag token children) rhs s v h h' =
      bind-eq (λ _. Unit) {o = local_of s v} {f = given r} {g = given r'} (any _) refl
        (λ x _.
          bind-eq (λ _. Unit) (any _)
            (visit_function-same m r r' a children rhs (some s) true x.1 (omega (arith, h)) h')
            (λ w _. refl))
    where
      given : Routines → ℕ × Visit → Option (ℕ × Visit)
      given q x = visit_function q children rhs (some s) true x.1 >>? λ w. some (x.0, w)
  visit_applied-same false (node type flag token children) rhs s v h h' =
      rw (visit_function-same m r r' a children rhs (some s) false v (omega arith) h') refl

  pub visit_papply-same :
      (lhs : Node) (rhs : Option Node) (v : Visit)
      → suc (weight lhs + rhs_weight rhs) ≤ m
      → visit_papply r lhs rhs v ≡ visit_papply r' lhs rhs v
  unfolding visit_papply
  visit_papply-same lhs none v h = refl
  visit_papply-same lhs (some rhs) v h =
      rw
        (fun_ext (λ s.
          fun_ext (λ w. visit_applied-same (flag_of lhs) lhs rhs s w (omega arith) (omega arith))))
        refl

  visit_tuple_items-same :
      (ns : Nodes) (index : ℕ) (v : Visit)
      → weights ns < m
      → visit_tuple_items r ns index v ≡ visit_tuple_items r' ns index v
  unfolding visit_tuple_items weights
  visit_tuple_items-same nil index v h = refl
  visit_tuple_items-same (cons n ns) index v h =
      rw
        (
          a.pattern n none (omega arith),
          fun_ext (λ w. visit_tuple_items-same ns (index + 1) w (omega arith)),
        )
        refl

  pub visit_ptuple-same :
      (lhs : Node) (rhs : Option Node) (v : Visit)
      → suc (weight lhs + rhs_weight rhs) ≤ m
      → visit_ptuple r lhs rhs v ≡ visit_ptuple r' lhs rhs v
  unfolding visit_ptuple weight
  visit_ptuple-same (node type flag token children) rhs v h =
      rw
        (
          visit_value-same rhs v (omega arith),
          fun_ext (λ w. visit_tuple_items-same children 0 w (omega arith)),
        )
        refl

  visit_list_items-same :
      (fail : ℕ) (ns : Nodes) (v : Visit)
      → weights ns < m
      → visit_list_items r fail ns v ≡ visit_list_items r' fail ns v
  unfolding visit_list_items weights
  visit_list_items-same fail nil v h = refl
  visit_list_items-same fail (cons (node n_pltail flag token children) ns) v h = refl
  visit_list_items-same fail (cons n ns) v h =
      rw
        (
          a.pattern n none (omega arith),
          fun_ext (λ w. visit_list_items-same fail ns w (omega arith)),
        )
        refl

  pub visit_plist-same :
      (lhs : Node) (rhs : Option Node) (v : Visit)
      → suc (weight lhs + rhs_weight rhs) ≤ m
      → visit_plist r lhs rhs v ≡ visit_plist r' lhs rhs v
  unfolding visit_plist weight
  visit_plist-same (node type flag token children) rhs v h =
      bind-eq (λ _. Unit) (any _) (visit_value-same rhs v (omega arith))
        (λ v₁ _. visit_list_items-same _ children _ (omega arith))

  pub visit_pconst-same :
      (lhs : Node) (rhs : Option Node) (v : Visit)
      → suc (weight lhs + rhs_weight rhs) ≤ m
      → visit_pconst r lhs rhs v ≡ visit_pconst r' lhs rhs v
  unfolding visit_pconst weight weights
  visit_pconst-same (node type flag token nil) rhs v h = refl
  visit_pconst-same (node type flag token (cons n ns)) rhs v h =
      rw (visit_value-same rhs v (omega arith), a.expr n (omega arith)) refl
