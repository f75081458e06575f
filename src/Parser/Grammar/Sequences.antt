-- ===== src/Parser/Grammar/Sequences.antt =====
-- Tuples, parentheses and lists of expressions, and the loop that tuple patterns share.
use chammer.Prelude.{ℕ, zero, suc, true, false}
use chammer.Tokens.{t_popen, t_pclose, t_sopen, t_sclose, t_comma, t_ellips, same_type}
use chammer.Ast.{
  Node, node, Nodes, nil, cons, NodeType, no_token, append_node, one, n_tuple, n_list, n_spread,
}
use chammer.Parser.{
  Routine, M, ◌>>=◌, ◌>>◌, pure, discard, frame, then_, attempt, set_node, push_node, next_token,
  expect_token, set_current, set_expected, get_rounds, fail_with, exhausted, parse_ok,
  parse_expected_token,
}
use chammer.Parser.Grammar.{Self, expr_all}

-- One item in parentheses is that item itself, and pushes no node.
abbrev pub close_tuple : NodeType → Nodes → M (Unit {0})
close_tuple type (cons n nil) = set_node n
close_tuple type items = push_node (node type false no_token items)

-- `parse_tuple_or_parens` and `parse_ptuple_or_parens` differ in the item and the node's type.
unfoldable pub tuple_loop : Routine → NodeType → ℕ → Nodes → M (Unit {0})
unfolding next_token append_node
tuple_loop item type zero items = fail_with exhausted
tuple_loop item type (suc fuel) items = do
  peek ← next_token
  elim (same_type peek.type t_pclose) [
    | true ↦ do set_current peek; close_tuple type items
    | false ↦ elim (same_type peek.type t_comma) [
      | true ↦ do
        set_current peek
        elim items [
          | nil ↦ do set_expected t_pclose; discard parse_expected_token
          | cons n ns ↦ do
            behind ← next_token
            elim (same_type behind.type t_pclose) [
              | true ↦ do set_current behind; push_node (node type false no_token (cons n ns))
              | false ↦ tuple_loop item type fuel (cons n ns)
            ]
        ]
      | false ↦ do n ← then_ item; tuple_loop item type fuel (append_node items n)
    ]
  ]

-- The end of a round of `parse_list` and `parse_plist`: an item, and the next round.
abbrev item_then : Routine → (Node → M (Unit {0})) → M (Unit {0})
item_then item k = then_ item >>= k

unfoldable pub list_loop : Routine → ℕ → Nodes → M (Unit {0})
unfolding next_token append_node
list_loop item zero items = fail_with exhausted
list_loop item (suc fuel) items = do
  peek ← next_token
  elim (same_type peek.type t_sclose) [
    | true ↦ do set_current peek; push_node (node n_list false no_token items)
    | false ↦ elim (same_type peek.type t_comma) [
      | true ↦ do
        set_current peek
        elim items [
          | nil ↦ do set_expected t_sclose; discard parse_expected_token
          | cons n ns ↦ do
            behind ← next_token
            elim (same_type behind.type t_sclose) [
              | true ↦ do set_current behind; push_node (node n_list false no_token (cons n ns))
              | false ↦ item_then item (λ m. list_loop item fuel (append_node (cons n ns) m))
            ]
        ]
      | false ↦ elim items [
        | nil ↦ item_then item (λ m. list_loop item fuel (one m))
        | cons _ _ ↦ do set_expected t_comma; discard parse_expected_token
      ]
    ]
  ]

module _ (self : Self) where
  unfoldable pub parse_spread : Routine
  unfolding frame expect_token
  parse_spread = frame do
    expect_token t_ellips
    expr ← then_ (self.expr expr_all)
    push_node (node n_spread false no_token (one expr))

  unfoldable pub parse_list_or_tuple_item : Routine
  unfolding parse_spread
  parse_list_or_tuple_item = frame do
    r ← attempt parse_spread
    elim r [ parse_ok ↦ pure tt | _ ↦ then_ (self.expr expr_all) >>= λ _. pure tt ]

  unfoldable pub parse_tuple_or_parens : Routine
  unfolding parse_list_or_tuple_item tuple_loop expect_token
  parse_tuple_or_parens = frame do
    expect_token t_popen
    fuel ← get_rounds
    tuple_loop parse_list_or_tuple_item n_tuple fuel nil

  unfoldable pub parse_list : Routine
  unfolding parse_list_or_tuple_item list_loop expect_token
  parse_list =
      frame do expect_token t_sopen; fuel ← get_rounds; list_loop parse_list_or_tuple_item fuel nil
