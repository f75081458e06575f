-- ===== src/Tests/Parsing.antt =====
-- The parser on short programs.
use chammer.Prelude.{arith, true, false, ℕ, ◌≡◌, refl, List, [], ◌∷◌, Option, none, some}
use chammer.Lexer.{token_begin, token_next}
use chammer.Tokens.{token_string, Token, t_op}
use chammer.Ast.{Node, node, Nodes, nil, cons, no_token, NodeType, n_block, n_binary, n_int}
use chammer.Parser.{Parsed, parsed, parse_ok, Parser, OpDef, assoc_left}
use chammer.Parser.Program.{parse_program, parser_init, routines}
use chammer.Parser.Frames.{ParsedOk}
use chammer.Parser.Total.Program.Verdict.{
  ProgramOk, parse_program-ProgramOk, parse_expr-ParsedOk, parse_pattern-ParsedOk,
  binary_rest_takes,
}
use chammer.Parser.Grammar.{expr_all}
use chammer.Parser.Operators.{parser_get_operator, parser_define_operator}
use chammer.Parser.Operators.Laws.{IsTable, get_operator-update, define_operator-IsTable}
use chammer.Tokens.{lex_none}
use chammer.Prelude.Int.{pos}
use chammer.Text.{string_eq}

-- The types and the tokens of a tree.
data Tree : Type 0 where
  end_of : Tree
  branch : NodeType → List ℕ → Tree → Tree
  then_tree : Tree → Tree → Tree

mutual
  shape : Node → Tree
  shape (node type flag token children) = branch type (token_string token) (shapes children)

  shapes : Nodes → Tree
  shapes nil = end_of
  shapes (cons n ns) = then_tree (shape n) (shapes ns)

outcome : Parsed → Option Tree
unfolding shape shapes
outcome (parsed parse_ok p t) = some (shape p.node)
outcome _ = none

parse_text : List ℕ → Option Tree
unfolding outcome parse_program token_begin parser_init string_eq token_next
parse_text s = outcome (parse_program 20 parser_init (token_begin no_token s))

abbrev no_node : Node
no_node = node n_int false no_token nil

number : List ℕ → Tree
number s = branch n_int s end_of

sum :
    parse_text (b'1' ∷ b'+' ∷ b'2' ∷ [])
    ≡ some (
        branch n_block [] (
          then_tree
            (branch n_binary
              (b'+' ∷ [])
              (then_tree (number (b'1' ∷ [])) (then_tree (number (b'2' ∷ [])) end_of)))
            end_of))
unfolding parse_text number
sum = refl

quote_ignored :
    parse_text (b'1' ∷ 0x27 ∷ b'2' ∷ [])
    ≡ some (branch n_block [] (then_tree (number (b'1' ∷ [])) end_of))
unfolding parse_text number
quote_ignored = refl

abbrev one_plus : List ℕ
one_plus = b'1' ∷ b'+' ∷ []

abbrev plus_one : List ℕ
plus_one = b'+' ∷ b'1' ∷ []

parse_program-ProgramOk_example :
    ProgramOk parser_init
      (token_begin no_token one_plus)
      (parse_program 20 parser_init (token_begin no_token one_plus))
unfolding token_begin
parse_program-ProgramOk_example =
    parse_program-ProgramOk 20 parser_init (token_begin no_token one_plus) (omega arith)

parse_expr-ParsedOk_example :
    ParsedOk 1 parser_init
      (token_begin no_token one_plus)
      ((routines 20).expr expr_all parser_init (token_begin no_token one_plus))
unfolding token_begin
parse_expr-ParsedOk_example =
    parse_expr-ParsedOk 20 expr_all parser_init (token_begin no_token one_plus) (omega arith)

parse_pattern-ParsedOk_example :
    ParsedOk 1 parser_init
      (token_begin no_token one_plus)
      ((routines 20).pattern true parser_init (token_begin no_token one_plus))
unfolding token_begin
parse_pattern-ParsedOk_example =
    parse_pattern-ParsedOk 20 true parser_init (token_begin no_token one_plus) (omega arith)

abbrev plus : Token
plus = record { type = t_op; str = plus_one; len = 1 }

binary_rest_takes_example :
    ParsedOk 1 parser_init
      (token_begin no_token plus_one)
      ((routines 20).binary_rest (pos 0) no_node parser_init (token_begin no_token plus_one))
unfolding token_begin token_next parser_init parser_get_operator string_eq
binary_rest_takes_example =
    binary_rest_takes 20 (pos 0) no_node parser_init (token_begin no_token plus_one) plus refl refl
      refl (omega arith)

abbrev plus_name : List ℕ
plus_name = b'+' ∷ []

abbrev times_name : List ℕ
times_name = b'*' ∷ []

abbrev plus_op : OpDef
plus_op = record { name = plus_name; prec = pos 5; assoc = assoc_left }

-- A parser that knows `+`, and what a definition makes of it.
abbrev with_plus : Parser
with_plus = record {
  operators = plus_op ∷ [];
  nodes_len = 0;
  node = no_node;
  lex_result = lex_none;
  expected_token = t_op;
}

abbrev with_times : Parser
with_times = record with_plus {
  operators = plus_op ∷ record { name = times_name; prec = pos 6; assoc = assoc_left } ∷ [];
}

abbrev with_other_plus : Parser
with_other_plus = record with_plus {
  operators = record { name = plus_name; prec = pos 6; assoc = assoc_left } ∷ [];
}

get_operator-update_example :
    (parser_get_operator with_other_plus plus_name
      ≡ some (record { name = plus_name; prec = pos 6; assoc = assoc_left }))
    × ((other : List ℕ)
        → string_eq plus_name other ≡ false
        → parser_get_operator with_other_plus other ≡ parser_get_operator with_plus other)
unfolding parser_define_operator string_eq
get_operator-update_example =
    get_operator-update with_plus with_other_plus plus_name (pos 6) assoc_left refl

define_operator-IsTable_example : IsTable with_times.operators
unfolding parser_define_operator string_eq
define_operator-IsTable_example =
    define_operator-IsTable with_plus with_times times_name (pos 6) assoc_left
      (record { bounded = omega arith; short = (omega arith, tt) }) refl
