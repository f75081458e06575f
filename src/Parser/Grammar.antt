-- ===== src/Parser/Grammar.antt =====
-- The routines of lib/parser.c for statements, blocks and the simpler expressions. `Self` holds the
-- routines that call one another recursively; `Parser/Program.antt` ties the knot.
pub mod Sequences
pub mod Binary
pub mod Patterns
use chammer.Prelude.{ℕ, zero, suc, Bool, true, false, List, [], ◌∷◌, ◌++◌, if◌then◌else◌}
use chammer.Prelude.Int.{ℤ}
use chammer.Tokens.{
  TokenType, Token, LexResult, lex_ok, t_let, t_if, t_then, t_else, t_match, t_case, t_ident,
  t_string, t_int, t_dec, t_op, t_eq, t_larrow, t_rarrow, t_bslash, t_copen, t_cclose, t_semi,
  same_type,
}
use chammer.Ast.{
  Node, node, Nodes, nil, cons, NodeType, no_token, append_node, one, two, three, n_ident, n_string,
  n_int, n_dec, n_unary, n_apply, n_if, n_match, n_lambda, n_block, n_assign, n_bind, n_void,
}
use chammer.Parser.{
  Routine, M, ◌>>=◌, ◌>>◌, pure, discard, frame, then_, attempt, get_node, push_node, choice,
  next_token, try_token, expect_token, set_current, get_rounds, fail_with, exhausted, ParseResult,
  parse_ok,
}

-- `parse_expr_flags`
pub record ExprFlags : Type 0 where
  pub binary : Bool
  pub unary : Bool
  pub apply : Bool

abbrev pub expr_all : ExprFlags
expr_all = record { binary = true; unary = true; apply = true }

abbrev pub no_binary : ExprFlags
no_binary = record { binary = false; unary = true; apply = true }

abbrev pub no_operation : ExprFlags
no_operation = record { binary = false; unary = false; apply = false }

-- The argument of `pattern` is the flag `PAT_APPLY`.
pub record Self : Type 0 where
  pub expr : ExprFlags → Routine
  pub pattern : Bool → Routine
  pub binary_rest : ℤ → Node → Routine

unfoldable pub parse_atom : TokenType → NodeType → Routine
unfolding frame expect_token
parse_atom ty nt = frame do t ← expect_token ty; push_node (node nt false t nil)

abbrev pub parse_ident : Routine
parse_ident = parse_atom t_ident n_ident

abbrev pub parse_string : Routine
parse_string = parse_atom t_string n_string

abbrev pub parse_int : Routine
parse_int = parse_atom t_int n_int

abbrev pub parse_dec : Routine
parse_dec = parse_atom t_dec n_dec

-- `while (TRY_V(f, …))` over one routine, with the result that ended it.
unfoldable pub many_loop : Routine → ℕ → Nodes → M (Nodes × ParseResult)
unfolding append_node
many_loop routine zero items = fail_with exhausted
many_loop routine (suc fuel) items = do
  r ← attempt routine
  n ← get_node
  elim r [ parse_ok ↦ many_loop routine fuel (append_node items n) | other ↦ pure (items, other) ]

module _ (self : Self) where
  unfoldable pub parse_assign : Routine
  unfolding frame expect_token
  parse_assign = frame do
    expect_token t_let
    lhs ← then_ (self.pattern true)
    expect_token t_eq
    rhs ← then_ (self.expr expr_all)
    expect_token t_semi
    push_node (node n_assign false no_token (two lhs rhs))

  unfoldable pub parse_bind : Routine
  unfolding frame expect_token
  parse_bind = frame do
    expect_token t_let
    lhs ← then_ (self.pattern true)
    expect_token t_larrow
    rhs ← then_ (self.expr expr_all)
    expect_token t_semi
    push_node (node n_bind false no_token (two lhs rhs))

  unfoldable pub parse_void : Routine
  unfolding frame expect_token
  parse_void = frame do
    expr ← then_ (self.expr expr_all)
    expect_token t_semi
    push_node (node n_void false no_token (one expr))

  unfoldable pub parse_stmt : Routine
  unfolding parse_assign parse_bind parse_void choice
  parse_stmt = frame (choice (parse_bind ∷ parse_assign ∷ parse_void ∷ []) parse_ok)

  -- `while (TRY(f, parse_stmt))`
  unfoldable pub block_loop : ℕ → Nodes → M Nodes
  unfolding parse_stmt
  block_loop zero items = fail_with exhausted
  block_loop (suc fuel) items = do
    r ← attempt parse_stmt
    n ← get_node
    elim r [ parse_ok ↦ block_loop fuel (append_node items n) | _ ↦ pure items ]

  unfoldable pub parse_block_body : Routine
  unfolding block_loop append_node
  parse_block_body = frame do
    fuel ← get_rounds
    items ← block_loop fuel nil
    r ← attempt (self.expr expr_all)
    n ← get_node
    let all : Nodes = elim r [ parse_ok ↦ append_node items n | _ ↦ items ]
    push_node (node n_block false no_token all)

  -- The node is that of the body.
  unfoldable pub parse_block : Routine
  unfolding parse_block_body expect_token
  parse_block =
      frame do expect_token t_copen; then_ parse_block_body; expect_token t_cclose >>= λ _. pure tt

  unfoldable pub parse_if : Routine
  unfolding frame expect_token
  parse_if = frame do
    expect_token t_if
    cond ← then_ (self.expr expr_all)
    expect_token t_then
    then_node ← then_ (self.expr expr_all)
    expect_token t_else
    else_node ← then_ (self.expr expr_all)
    push_node (node n_if false no_token (three cond then_node else_node))

  -- The scrutinee stands in the list already, so the default case of the switch ends the loop.
  unfoldable pub match_loop : ℕ → Nodes → M Nodes
  unfolding try_token expect_token append_node
  match_loop zero items = fail_with exhausted
  match_loop (suc fuel) items = do
    (r, peek) ← try_token
    elim r [
      | lex_ok ↦ elim (same_type peek.type t_case) [
        | true ↦ do
          set_current peek
          lhs ← then_ (self.pattern false)
          expect_token t_then
          rhs ← then_ (self.expr expr_all)
          match_loop fuel (append_node (append_node items lhs) rhs)
        | false ↦ elim (same_type peek.type t_else) [
          | true ↦ do
            set_current peek
            else_node ← then_ (self.expr expr_all)
            match_loop fuel (append_node items else_node)
          | false ↦ pure items
        ]
      ]
      | _ ↦ pure items
    ]

  unfoldable pub parse_match : Routine
  unfolding match_loop
  parse_match = frame do
    expect_token t_match
    scrutinee ← then_ (self.expr expr_all)
    fuel ← get_rounds
    items ← match_loop fuel (one scrutinee)
    push_node (node n_match false no_token items)

  -- A lambda has one parameter at least; else the result is the one that ended the loop.
  unfoldable pub parse_lambda : Routine
  unfolding many_loop expect_token
  parse_lambda = frame do
    expect_token t_bslash
    fuel ← get_rounds
    (params, last) ← many_loop (self.pattern false) fuel nil
    elim params [
      | nil ↦ discard last
      | cons a r ↦ do
        expect_token t_rarrow
        body ← then_ (self.expr expr_all)
        push_node (node n_lambda false no_token (append_node (cons a r) body))
    ]

  -- An application has one argument at least.
  unfoldable pub parse_apply : Routine
  unfolding many_loop
  parse_apply = frame do
    func ← then_ (self.expr no_operation)
    fuel ← get_rounds
    (items, last) ← many_loop (self.expr no_operation) fuel (one func)
    elim items [
      | cons f (cons a as') ↦ push_node (node n_apply false no_token (cons f (cons a as')))
      | _ ↦ discard last
    ]

  unfoldable pub parse_unary : Routine
  unfolding expect_token
  parse_unary = frame do
    op ← expect_token t_op
    expr ← then_ (self.expr no_binary)
    push_node (node n_unary false op (one expr))
