-- ===== src/Parser/Program.antt =====
-- The recursion of the routines, on fuel, and `parse_program`.
use chammer.Prelude.{ℕ, zero, suc, false, [], ◌∷◌, ◌++◌, if◌then◌else◌}
use chammer.Lexer.{token_next}
use chammer.Tokens.{Token, lex_none, Lexed, lexed, out_of_bounds, stuck, t_bcomm}
use chammer.Ast.{node, nil, n_ident, no_token}
use chammer.Parser.{
  Routine, Parser, Parsed, parsed, faulted, overrun, exhausted, frame, choice, parse_ok,
  parse_leftover_tokens,
}
use chammer.Parser.Grammar.{
  Self, ExprFlags, parse_block_body, parse_unary, parse_apply, parse_block, parse_if, parse_match,
  parse_lambda, parse_ident, parse_string, parse_int, parse_dec,
}
use chammer.Parser.Grammar.Sequences.{parse_tuple_or_parens, parse_list}
use chammer.Parser.Grammar.Binary.{parse_binary, parse_binary_rest}
use chammer.Parser.Grammar.Patterns.{parse_pattern}

-- The alternatives of `parse_expr` that its flags allow, in their order.
unfoldable pub parse_expr : Self → ExprFlags → Routine
unfolding choice parse_binary parse_unary parse_apply parse_tuple_or_parens parse_list parse_block
    parse_if parse_match parse_lambda
parse_expr self flags = frame (
    choice
      ((if flags.binary then parse_binary self ∷ [] else [])
        ++ ((if flags.unary then parse_unary self ∷ [] else [])
            ++ ((if flags.apply then parse_apply self ∷ [] else [])
                ++ (parse_tuple_or_parens self
                    ∷ parse_list self
                    ∷ parse_block self
                    ∷ parse_if self
                    ∷ parse_match self
                    ∷ parse_lambda self
                    ∷ parse_ident
                    ∷ parse_string
                    ∷ parse_int
                    ∷ parse_dec
                    ∷ []))))
      parse_ok)

-- The routines with calls nested at most `n` deep.
unfoldable pub routines : ℕ → Self
unfolding parse_expr parse_pattern parse_binary_rest
routines zero = record {
  expr = λ flags p t. faulted exhausted;
  pattern = λ apply p t. faulted exhausted;
  binary_rest = λ min_prec lhs p t. faulted exhausted;
}
routines (suc n) =
    let self = routines n in
    record {
      expr = parse_expr self;
      pattern = parse_pattern self;
      binary_rest = parse_binary_rest self;
    }

-- Does the lexer find no token behind?
abbrev pub leftover : Parser → Token → Lexed → Parsed
leftover p t (lexed lex_none _) = parsed parse_ok p t
leftover p t (lexed _ _) = parsed parse_leftover_tokens p t
leftover p t out_of_bounds = faulted overrun
leftover p t stuck = faulted exhausted

abbrev pub check_leftover : Parsed → Parsed
check_leftover (parsed parse_ok p t) = leftover p t (token_next false t)
check_leftover (parsed r p t) = parsed r p t
check_leftover (faulted e) = faulted e

unfoldable pub parse_program : ℕ → Routine
unfolding routines parse_block_body
parse_program depth p ts = check_leftover (parse_block_body (routines depth) p ts)

unfoldable pub parser_init : Parser
parser_init = record {
  operators = [];
  nodes_len = 0;
  node = node n_ident false no_token nil;
  lex_result = lex_none;
  expected_token = t_bcomm;
}

unfoldable pub parser_reset : Parser → Parser
parser_reset p = record p { nodes_len = 0; node = node n_ident false no_token nil }
