-- ===== src/Compiler/Visit/Depth/Enough.antt =====
-- A tree's weight is as deep as its visitors are nested.
use chammer.Prelude.{ℕ, zero, suc, ◌+◌, ◌≤◌, ◌≡◌, refl, ap, Option, none, arith}
use mathlib.Core.Path.{fun_ext}
use chammer.Ast.{
  Node, node, NodeType, n_lambda, n_tuple, n_list, n_unary, n_binary, n_apply, n_if, n_match,
  n_block, n_pident, n_papply, n_ptuple, n_plist, n_pconst, first_child, type_of,
}
use chammer.Compiler.Blocks.{Compiler}
use chammer.Compiler.Visit.{Visit, Routines}
use chammer.Compiler.Visit.Program.{
  visit_expr_at, visit_expr, visit_pattern_at, visit_pattern, visitors_over, panicking,
  visit_program, compiler_visit_program,
}
use chammer.Compiler.Visit.Depth.{weight, rhs_weight, Agree}
use chammer.Compiler.Visit.Depth.Exprs.{
  visit_tuple-same, visit_list-same, visit_unary-same, visit_binary-same, visit_apply-same,
  visit_if-same,
}
use chammer.Compiler.Visit.Depth.Functions.{
  visit_lambda-same, visit_match-same, visit_block_body-same,
}
use chammer.Compiler.Visit.Depth.Patterns.{
  visit_pident-same, visit_papply-same, visit_ptuple-same, visit_plist-same, visit_pconst-same,
}

module _ (m : ℕ) (r r' : Routines) (a : Agree m r r') where
  first_child-same :
      (n : Node) (v : Visit)
      → weight n ≤ m
      → r.block_body (first_child n) v ≡ r'.block_body (first_child n) v
  unfolding weight
  first_child-same (node type flag token children) v h =
      ap (λ f. f v) (a.block_body children (omega arith))

  visit_expr_at-same :
      (type : NodeType) (n : Node) (v : Visit)
      → weight n ≤ m
      → visit_expr_at r type n v ≡ visit_expr_at r' type n v
  unfolding visit_expr_at
  visit_expr_at-same n_tuple n v h = visit_tuple-same m r r' a n v h
  visit_expr_at-same n_list n v h = visit_list-same m r r' a n v h
  visit_expr_at-same n_unary n v h = visit_unary-same m r r' a n v h
  visit_expr_at-same n_binary n v h = visit_binary-same m r r' a n v h
  visit_expr_at-same n_apply n v h = visit_apply-same m r r' a n v h
  visit_expr_at-same n_if n v h = visit_if-same m r r' a n v h
  visit_expr_at-same n_match n v h = visit_match-same m r r' a n v h
  visit_expr_at-same n_lambda n v h = visit_lambda-same m r r' a n none v h
  visit_expr_at-same n_block n v h = first_child-same n v h
  visit_expr_at-same type n v h = refl

  visit_pattern_at-same :
      (type : NodeType) (lhs : Node) (rhs : Option Node) (v : Visit)
      → suc (weight lhs + rhs_weight rhs) ≤ m
      → visit_pattern_at r type lhs rhs v ≡ visit_pattern_at r' type lhs rhs v
  unfolding visit_pattern_at
  visit_pattern_at-same n_pident lhs rhs v h = visit_pident-same m r r' a lhs rhs v h
  visit_pattern_at-same n_papply lhs rhs v h = visit_papply-same m r r' a lhs rhs v h
  visit_pattern_at-same n_ptuple lhs rhs v h = visit_ptuple-same m r r' a lhs rhs v h
  visit_pattern_at-same n_plist lhs rhs v h = visit_plist-same m r r' a lhs rhs v h
  visit_pattern_at-same n_pconst lhs rhs v h = visit_pconst-same m r r' a lhs rhs v h
  visit_pattern_at-same type lhs rhs v h = refl

-- Visitors that are nested deeply enough agree, whatever lies beyond.
visitors-Agree :
    (beyond beyond' : Routines) (m d d' : ℕ)
    → m ≤ d
    → m ≤ d'
    → Agree m (visitors_over beyond d) (visitors_over beyond' d')
unfolding visitors_over visit_expr visit_pattern
visitors-Agree beyond beyond' zero d d' h h' = record {
  expr = λ n lt. absurd (omega (arith, lt));
  pattern = λ lhs rhs lt. absurd (omega (arith, lt));
  block_body = λ ns lt. absurd (omega (arith, lt));
}
visitors-Agree beyond beyond' (suc m) zero d' h h' = absurd (omega (arith, h))
visitors-Agree beyond beyond' (suc m) (suc d) zero h h' = absurd (omega (arith, h'))
visitors-Agree beyond beyond' (suc m) (suc d) (suc d') h h' =
    let r = visitors_over beyond d in
    let r' = visitors_over beyond' d' in
    let a = visitors-Agree beyond beyond' m d d' (omega (arith, h)) (omega (arith, h')) in
    record {
      expr = λ n lt. fun_ext (λ v. visit_expr_at-same m r r' a (type_of n) n v (omega (arith, lt)));
      pattern = λ lhs rhs lt.
          fun_ext (λ v. visit_pattern_at-same m r r' a (type_of lhs) lhs rhs v (omega (arith, lt)));
      block_body = λ ns lt. fun_ext (λ v. visit_block_body-same m r r' a ns v (omega (arith, lt)));
    }

-- At a depth that is at least the tree's weight, the compilation never calls what lies beyond the
-- depth: whatever routines stand there, it is the one of `compiler_visit_program`, at any two such
-- depths. So it ends, be it in a program or in a panic of its own.
pub compiler_visit_program-enough :
    (beyond : Routines) (depth depth' : ℕ) (c : Compiler) (n : Node)
    → weight n ≤ depth
    → weight n ≤ depth'
    → visit_program (visitors_over beyond depth) c n ≡ compiler_visit_program depth' c n
unfolding compiler_visit_program visit_program visit_expr
compiler_visit_program-enough beyond depth depth' c n h h' =
    let r = visitors_over beyond depth in
    let r' = visitors_over panicking depth' in
    let a = visitors-Agree beyond panicking (weight n) depth depth' h h' in
    rw (visit_expr_at-same (weight n) r r' a (type_of n) n _ (omega arith)) refl
