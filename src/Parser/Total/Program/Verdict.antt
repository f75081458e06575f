-- ===== src/Parser/Total/Program/Verdict.antt =====
-- What `parse_program` of lib/parser.c can answer.
use chammer.Prelude.{ℕ, zero, suc, ◌+◌, ◌*◌, ◌≤◌, ◌≡◌, refl, Bool, true, false, arith, length}
use chammer.Prelude.Int.{ℤ, lt_ℤ}
use chammer.Lexer.{token_next, token_is_binary_op}
use chammer.Tokens.{
  Token, lex_ok, lex_none, lex_eeoi, lex_enum, Lexed, lexed, out_of_bounds, stuck, token_string,
}
use chammer.Lexer.Progress.{Outcome, token_next-Outcome_any}
use chammer.Ast.{Node, Nodes, append_node, nil}
use chammer.Parser.{
  Parser, Parsed, parsed, faulted, overrun, ParseResult, parse_ok, parse_leftover_tokens,
  parse_lex_error, parse_expected_token, Step, next, stop, fault, M, go_on, tried_parsed, pure,
  end_frame,
}
use chammer.Parser.Operators.{parser_get_operator}
use chammer.Parser.Frames.{rest_of, Moved, ParsedOk, FaultOk}
use chammer.Parser.Frames.Rules.{FaultOk-Moved}
use chammer.Parser.Total.{rank_bound}
use chammer.Parser.Total.Statements.{parse_block_body_ok}
use chammer.Parser.Grammar.{Self, ExprFlags, parse_block_body, block_loop, parse_stmt, expr_all}
use chammer.Parser.Grammar.Binary.{prec_of}
use chammer.Parser.Program.{routines, leftover, check_leftover, parse_program}
use chammer.Parser.Total.Program.{routines_ok}

-- A program is parsed to where no token is found, which is the end of its text or a byte that begins
-- none, or tokens are left over.
abbrev pub ProgramOk : Parser → Token → Parsed → Type 0
ProgramOk p t (parsed parse_ok p' t') =
    Moved 0 p t p' t' × ((end : Token) × (token_next false t' ≡ lexed lex_none end))
ProgramOk p t (parsed parse_leftover_tokens p' t') = Moved 0 p t p' t'
ProgramOk p t (parsed r p' t') = ⊥
ProgramOk p t (faulted e) = FaultOk t e

-- `parse_block_body` does not fail: a statement that is none ends its loop.
abbrev Flows : {A : Type 0} → Step A → Type 0
Flows (next a p t) = Unit
Flows (stop r p) = ⊥
Flows (fault e) = Unit

attempt-Flows :
    {A : Type 0} (x : Parsed) (k : ParseResult → M A)
    → ((r : ParseResult) (q : Parser) (u : Token) → Flows (k r q u))
    → Flows (go_on (tried_parsed x) k)
attempt-Flows (parsed r q u) k h = h r q u
attempt-Flows (faulted e) k h = tt

test_result :
    {A : Type 0} (r : ParseResult) (x y : M A) (q : Parser) (u : Token)
    → Flows (x q u)
    → Flows (y q u)
    → Flows (
        (elim r as (λ _. M A) [
          | parse_ok ↦ x
          | parse_lex_error ↦ y
          | parse_expected_token ↦ y
          | parse_leftover_tokens ↦ y
        ])
          q u)
test_result parse_ok x y q u h g = h
test_result parse_lex_error x y q u h g = g
test_result parse_expected_token x y q u h g = g
test_result parse_leftover_tokens x y q u h g = g

module _ (self : Self) where
  block_loop-Flows :
      (fuel : ℕ) (items : Nodes) (p : Parser) (t : Token) → Flows (block_loop self fuel items p t)
  unfolding block_loop
  block_loop-Flows zero items p t = tt
  block_loop-Flows (suc fuel) items p t = attempt-Flows (parse_stmt self p t) _ (λ r q u.
      test_result r (block_loop self fuel (append_node items q.node)) (pure items) q u
        (block_loop-Flows fuel (append_node items q.node) q u) tt)

abbrev Succeeds : Parsed → Type 0
Succeeds (parsed parse_ok p t) = Unit
Succeeds (parsed r p t) = ⊥
Succeeds (faulted e) = Unit

bind-Flows :
    {A B : Type 0} (s : Step A) (f : A → M B)
    → Flows s
    → ((a : A) (q : Parser) (u : Token) → Flows (f a q u))
    → Flows (go_on s f)
bind-Flows (next a p t) f h k = k a p t
bind-Flows (stop r p) f h k = h
bind-Flows (fault e) f h k = tt

end_frame-Succeeds :
    (b : ℕ) (t : Token) (s : Step (Unit {0})) → Flows s → Succeeds (end_frame b t s)
end_frame-Succeeds b t (next a p u) h = tt
end_frame-Succeeds b t (stop r p) h = elim h [ ]
end_frame-Succeeds b t (fault e) h = tt

parse_block_body-Succeeds :
    (self : Self) (p : Parser) (t : Token) → Succeeds (parse_block_body self p t)
unfolding parse_block_body
parse_block_body-Succeeds self p t = end_frame-Succeeds p.nodes_len t _ (
    bind-Flows (block_loop self (suc (length (rest_of t))) nil p t) _
      (block_loop-Flows self (suc (length (rest_of t))) nil p t)
      (λ items q u. attempt-Flows (self.expr expr_all q u) _ (λ r q u. tt)))

leftover-ProgramOk :
    (p p' : Parser) (t t' : Token) (l : Lexed)
    → Moved 0 p t p' t'
    → token_next false t' ≡ l
    → Outcome false (rest_of t') l
    → ProgramOk p t (leftover p' t' l)
leftover-ProgramOk p p' t t' (lexed lex_none tok) m e o = (m, (tok, e))
leftover-ProgramOk p p' t t' (lexed lex_ok tok) m e o = m
leftover-ProgramOk p p' t t' (lexed lex_eeoi tok) m e o = m
leftover-ProgramOk p p' t t' (lexed lex_enum tok) m e o = m
leftover-ProgramOk p p' t t' out_of_bounds m e o = FaultOk-Moved overrun m o
leftover-ProgramOk p p' t t' stuck m e o = o

check_leftover-ProgramOk :
    (p : Parser) (t : Token) (x : Parsed)
    → ParsedOk 0 p t x
    → Succeeds x
    → ProgramOk p t (check_leftover x)
check_leftover-ProgramOk p t (parsed parse_ok p' t') m s =
    leftover-ProgramOk p p' t t' (token_next false t') m refl (token_next-Outcome_any false t')
check_leftover-ProgramOk p t (parsed parse_lex_error p' t') m s = elim s [ ]
check_leftover-ProgramOk p t (parsed parse_expected_token p' t') m s = elim s [ ]
check_leftover-ProgramOk p t (parsed parse_leftover_tokens p' t') m s = elim s [ ]
check_leftover-ProgramOk p t (faulted e) m s = m

-- With calls nested up to four times the bytes of the text and three more, `parse_program` ends: it
-- succeeds where `token_next` finds no token behind, which is so at the end of the text and also at a
-- byte that begins no token, or it reports leftover tokens and no other error, or the text ends in
-- `{-`, behind which the lexer reads. It keeps the operators, adds nodes only, and leaves a suffix
-- of the text.
pub parse_program-ProgramOk :
    (depth : ℕ) (p : Parser) (t : Token)
    → 4 * length (rest_of t) + 3 ≤ depth
    → ProgramOk p t (parse_program depth p t)
unfolding parse_program
parse_program-ProgramOk depth p t room =
    check_leftover-ProgramOk p t (parse_block_body (routines depth) p t)
      (parse_block_body_ok (routines_ok depth) p t room)
      (parse_block_body-Succeeds (routines depth) p t)

-- With calls nested up to four times the bytes of the text and three more, `parse_expr` ends, with
-- any flags: it takes a byte at least and adds nodes only, or it fails and leaves the token and the
-- number of nodes as they were, or the text ends in `{-`.
pub parse_expr-ParsedOk :
    (depth : ℕ) (flags : ExprFlags) (p : Parser) (t : Token)
    → 4 * length (rest_of t) + 3 ≤ depth
    → ParsedOk 1 p t ((routines depth).expr flags p t)
parse_expr-ParsedOk depth flags p t room =
    (routines_ok depth).expr_ok flags p t (omega (arith, rank_bound flags))

-- With calls nested up to four times the bytes of the text and four more, `parse_pattern` ends: it
-- takes a byte at least and adds nodes only, or it fails and leaves the token and the number of
-- nodes as they were, or the text ends in `{-`.
pub parse_pattern-ParsedOk :
    (depth : ℕ) (apply : Bool) (p : Parser) (t : Token)
    → 4 * length (rest_of t) + 4 ≤ depth
    → ParsedOk 1 p t ((routines depth).pattern apply p t)
parse_pattern-ParsedOk depth apply p t room = (routines_ok depth).pattern_ok apply p t room

-- With calls nested up to four times the bytes of the text and one more, `parse_binary_` ends, and
-- when the next token is a binary operator whose precedence is not below `min_prec`, it takes it: it
-- consumes a byte at least, or fails, or the text ends in `{-`.
pub binary_rest_takes :
    (depth : ℕ) (min_prec : ℤ) (lhs : Node) (p : Parser) (t peek : Token)
    → token_next false t ≡ lexed lex_ok peek
    → token_is_binary_op peek ≡ true
    → lt_ℤ (prec_of (parser_get_operator p (token_string peek))) min_prec ≡ false
    → 4 * length (rest_of t) + 1 ≤ depth
    → ParsedOk 1 p t ((routines depth).binary_rest min_prec lhs p t)
binary_rest_takes depth min_prec lhs p t peek = (routines_ok depth).rest_eats min_prec lhs p t peek
