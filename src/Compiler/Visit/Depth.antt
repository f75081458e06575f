-- ===== src/Compiler/Visit/Depth.antt =====
-- How deep the visitors of lib/compiler.c are nested: a tree's weight is deep enough, so that nothing
-- but the tree itself makes a compilation fail.
pub mod Exprs
pub mod Functions
pub mod Patterns
pub mod Enough
use chammer.Prelude.{
  ℕ, zero, suc, ◌+◌, ◌≤◌, ◌<◌, ◌≡◌, refl, sym, ◌∙◌, Bool, true, false, Option, none, some, arith,
  if◌then◌else◌,
}
use mathlib.Core.Path.{fun_ext}
use chammer.Ast.{
  Node, Nodes, node, nil, cons, NodeType, n_spread, n_int, n_assign, n_bind, n_void, n_pltail,
  n_lambda, n_ident, n_string, n_tuple, n_list, n_unary, n_binary, n_apply, n_if, n_match, n_block,
  n_pident, n_pwild, n_papply, n_ptuple, n_plist, n_pconst, first_child, type_of, flag_of,
}
use chammer.StringMap.{Entry}
use chammer.Compiler.Blocks.{◌>>?◌}
use chammer.Compiler.Visit.{Visit, Routines}

unfoldable mutual
  pub weight : Node → ℕ
  weight (node type flag token children) = suc (weights children)

  pub weights : Nodes → ℕ
  weights nil = 0
  weights (cons n ns) = suc (weight n + weights ns)

abbrev pub rhs_weight : Option Node → ℕ
rhs_weight none = 0
rhs_weight (some n) = weight n

-- The same on everything lighter than `m`.
pub record Agree (m : ℕ) (r r' : Routines) : Type 0 where
  pub expr : (n : Node) → weight n < m → r.expr n ≡ r'.expr n
  pub pattern :
      (lhs : Node) (rhs : Option Node)
      → suc (weight lhs + rhs_weight rhs) < m
      → r.pattern lhs rhs ≡ r'.pattern lhs rhs
  pub block_body : (ns : Nodes) → weights ns < m → r.block_body ns ≡ r'.block_body ns
