-- ===== src/Parser/Total/Program.antt =====
-- The recursion of lib/parser.c's routines, and `parse_program`.
pub mod Verdict
use chammer.Prelude.{
  ℕ, zero, suc, ◌+◌, ◌*◌, ◌≤◌, ◌≡◌, refl, Bool, true, false, List, [], ◌∷◌, ◌++◌, arith, length,
  if◌then◌else◌,
}
use chammer.Prelude.Int.{ℤ, lt_ℤ}
use chammer.Lexer.{token_next, token_is_binary_op}
use chammer.Tokens.{
  Token, lex_ok, lex_none, lex_eeoi, lex_enum, Lexed, lexed, out_of_bounds, stuck, token_string,
  t_ident, t_string, t_int, t_dec,
}
use chammer.Lexer.Progress.{Outcome, token_next-Outcome_any}
use chammer.Ast.{Node, Nodes, append_node, nil, n_ident, n_string, n_int, n_dec}
use chammer.Parser.{
  Parser, Routine, Parsed, parsed, faulted, overrun, ParseResult, parse_ok, parse_leftover_tokens,
  parse_lex_error, parse_expected_token, choice, Step, next, stop, fault, M, go_on, tried_parsed,
  pure, end_frame,
}
use chammer.Parser.Operators.{parser_get_operator}
use chammer.Parser.Frames.{rest_of, Moved, Post, ParsedOk, FaultOk}
use chammer.Parser.Frames.Rules.{FaultOk-Moved}
use chammer.Parser.Total.{
  Total, AllTotal, AllTotal-append, SelfOk, rank, rank_bound, frame-Total, choice_ok,
}
use chammer.Parser.Total.Statements.{
  parse_atom_ok, parse_block_body_ok, parse_block_ok, parse_if_ok, parse_match_ok, parse_lambda_ok,
  parse_apply_ok, parse_unary_ok,
}
use chammer.Parser.Total.Items.{parse_tuple_or_parens_ok, parse_list_ok}
use chammer.Parser.Total.Patterns.{parse_pattern_ok}
use chammer.Parser.Total.Binary.{parse_binary_ok, parse_binary_rest_ok, parse_binary_rest_eats}
use chammer.Parser.Grammar.{
  Self, ExprFlags, parse_block_body, block_loop, parse_stmt, expr_all, parse_block, parse_if,
  parse_match, parse_lambda, parse_apply, parse_unary, parse_ident, parse_string, parse_int,
  parse_dec,
}
use chammer.Parser.Grammar.Sequences.{parse_tuple_or_parens, parse_list}
use chammer.Parser.Grammar.Binary.{prec_of, parse_binary}
use chammer.Parser.Program.{parse_expr, routines, leftover, check_leftover, parse_program}

abbrev NonEmpty : List Routine → Type 0
NonEmpty [] = ⊥
NonEmpty (f ∷ fs) = Unit

append-NonEmpty : (gs fs : List Routine) → NonEmpty fs → NonEmpty (gs ++ fs)
append-NonEmpty [] fs h = h
append-NonEmpty (g ∷ gs) fs h = tt

choice_nonempty_ok :
    {n : ℕ} (k : ℕ) {p : Parser} {t : Token} (fs : List Routine) (last : ParseResult)
    → NonEmpty fs
    → AllTotal n k fs
    → 4 * length (rest_of t) + k ≤ n
    → Post (λ a. Moved 1 p t) p t (choice fs last p t)
choice_nonempty_ok k [] last h all room = elim h [ ]
choice_nonempty_ok k (f ∷ fs) last h all room = choice_ok k f fs last all room

if-Total :
    {n : ℕ} (k : ℕ) (b : Bool) (f : Routine)
    → (b ≡ true → Total n k 1 f)
    → AllTotal n k (if b then f ∷ [] else [])
if-Total k true f h = (h refl, tt)
if-Total k false f h = tt

rank_of_least :
    (b u a : Bool)
    → let r : ℕ = if b then 3 else if u then 2 else if a then 2 else 1 in
      (1 ≤ r) × (a ≡ true → 2 ≤ r) × (b ≡ true → 3 ≤ r)
rank_of_least true u a = (omega arith, (λ e. omega arith), (λ e. omega arith))
rank_of_least false true a = (omega arith, (λ e. omega arith), (λ e. ground arith))
rank_of_least false false true = (omega arith, (λ e. omega arith), (λ e. ground arith))
rank_of_least false false false = (omega arith, (λ e. ground arith), (λ e. ground arith))

rank_least :
    (flags : ExprFlags)
    → (1 ≤ rank flags)
      × (flags.apply ≡ true → 2 ≤ rank flags)
      × (flags.binary ≡ true → 3 ≤ rank flags)
unfolding rank
rank_least flags = rank_of_least flags.binary flags.unary flags.apply

no_room : (l k : ℕ) → 4 * l + suc k ≤ 0 → ⊥
no_room l k h = omega (arith, h)

module _ {n : ℕ} {self : Self} (ok : SelfOk n self) where
  -- The alternatives that begin with a token of their own.
  simple_total :
      (k : ℕ)
      → 1 ≤ k
      → AllTotal (suc n) k (
          parse_tuple_or_parens self
          ∷ parse_list self
          ∷ parse_block self
          ∷ parse_if self
          ∷ parse_match self
          ∷ parse_lambda self
          ∷ parse_ident
          ∷ parse_string
          ∷ parse_int
          ∷ parse_dec
          ∷ [])
  simple_total k le = (
    (λ p t h. parse_tuple_or_parens_ok ok p t (omega arith)),
    (
      (λ p t h. parse_list_ok ok p t (omega arith)),
      (
        (λ p t h. parse_block_ok ok p t (omega arith)),
        (
          (λ p t h. parse_if_ok ok p t (omega arith)),
          (
            (λ p t h. parse_match_ok ok p t (omega arith)),
            (
              (λ p t h. parse_lambda_ok ok p t (omega arith)),
              (
                parse_atom_ok k t_ident n_ident,
                (
                  parse_atom_ok k t_string n_string,
                  (parse_atom_ok k t_int n_int, (parse_atom_ok k t_dec n_dec, tt)),
                ),
              ),
            ),
          ),
        ),
      ),
    ),
  )

  parse_expr_ok : (flags : ExprFlags) → Total (suc n) (rank flags) 1 (parse_expr self flags)
  unfolding parse_expr
  parse_expr_ok flags =
      let (least, unary_apply, binary) = rank_least flags in
      frame-Total _ _ (λ p t room.
        choice_nonempty_ok (rank flags) _ parse_ok
          (append-NonEmpty (if flags.binary then parse_binary self ∷ [] else []) _ (
            append-NonEmpty (if flags.unary then parse_unary self ∷ [] else []) _
              (append-NonEmpty (if flags.apply then parse_apply self ∷ [] else []) _ tt)))
          (AllTotal-append _ _ (if flags.binary then parse_binary self ∷ [] else []) _
            (if-Total (rank flags) flags.binary (parse_binary self)
              (λ e p t h. parse_binary_ok ok p t (omega (arith, binary e))))
            (AllTotal-append _ _ (if flags.unary then parse_unary self ∷ [] else []) _
              (if-Total (rank flags) flags.unary (parse_unary self)
                (λ e p t h. parse_unary_ok ok p t (omega (arith, least))))
              (AllTotal-append _ _ (if flags.apply then parse_apply self ∷ [] else []) _
                (if-Total (rank flags) flags.apply (parse_apply self)
                  (λ e p t h. parse_apply_ok ok p t (omega (arith, unary_apply e))))
                (simple_total (rank flags) least))))
          room)

pub routines_ok : (n : ℕ) → SelfOk n (routines n)
unfolding routines
routines_ok zero = record {
  expr_ok = λ flags p t h.
      elim (no_room (length (rest_of t)) 0 (omega (arith, h, (rank_least flags).0))) [ ];
  pattern_ok = λ apply p t h. elim (no_room (length (rest_of t)) 3 h) [ ];
  rest_ok = λ min_prec lhs p t h. elim (no_room (length (rest_of t)) 0 h) [ ];
  rest_eats = λ min_prec lhs p t peek e b l h. elim (no_room (length (rest_of t)) 0 h) [ ];
}
routines_ok (suc n) =
    let ok = routines_ok n in
    record {
      expr_ok = parse_expr_ok ok;
      pattern_ok = parse_pattern_ok ok;
      rest_ok = parse_binary_rest_ok ok;
      rest_eats = parse_binary_rest_eats ok;
    }
