-- ===== src/Parser/Grammar/Binary.antt =====
-- Binary operators by precedence climbing.
use chammer.Prelude.{
  ℕ, zero, suc, Bool, true, false, ◌&&◌, ◌||◌, Option, none, some, not, if◌then◌else◌,
}
use chammer.Prelude.Int.{ℤ, pos, ◌+ℤ◌, lt_ℤ}
use chammer.Lexer.{token_is_binary_op}
use chammer.Tokens.{Token, lex_ok, token_string}
use chammer.Ast.{Node, node, two, n_binary}
use chammer.Parser.{
  Routine, OpDef, Assoc, assoc_left, M, ◌>>=◌, ◌>>◌, pure, frame, then_, push_node, get_node,
  next_token, next, try_token, set_current, get_rounds, fail_with, exhausted,
}
use chammer.Parser.Operators.{parser_get_operator, prec_default}
use chammer.Parser.Grammar.{Self, no_binary}

abbrev pub prec_of : Option OpDef → ℤ
prec_of none = prec_default
prec_of (some op) = op.prec

abbrev pub assoc_of : Option OpDef → Assoc
assoc_of none = assoc_left
assoc_of (some op) = op.assoc

abbrev pub is_left : Assoc → Bool
is_left assoc_left = true
is_left _ = false

-- Does what stands behind `rhs` end the inner loop? `prec₁ > prec₂`, or they are equal and the
-- second operator associates to the left.
abbrev pub binds_less : ℤ → Option OpDef → Bool
binds_less prec₁ op₂ =
    lt_ℤ (prec_of op₂) prec₁ || (not (lt_ℤ prec₁ (prec_of op₂)) && is_left (assoc_of op₂))

abbrev pub climb : ℤ → ℤ → ℤ
climb prec₁ prec₂ = if lt_ℤ prec₁ prec₂ then prec₁ +ℤ pos 1 else prec₁

abbrev pub get_operator : Token → M (Option OpDef)
get_operator op p t = next (parser_get_operator p (token_string op)) p t

module _ (self : Self) where
  -- The loop over the operators that bind tighter; it ends with the operand and the token behind.
  unfoldable pub inner_loop : ℕ → ℤ → Node → M (Node × Token)
  unfolding try_token parser_get_operator
  inner_loop zero prec₁ rhs = fail_with exhausted
  inner_loop (suc fuel) prec₁ rhs = do
    (r, peek) ← try_token
    elim r [
      | lex_ok ↦ elim (token_is_binary_op peek) [
        | true ↦ do
          op₂ ← get_operator peek
          elim (binds_less prec₁ op₂) [
            | true ↦ pure (rhs, peek)
            | false ↦ do
              rhs' ← then_ (self.binary_rest (climb prec₁ (prec_of op₂)) rhs)
              inner_loop fuel prec₁ rhs'
          ]
        | false ↦ pure (rhs, peek)
      ]
      | _ ↦ pure (rhs, peek)
    ]

  -- A round of the outer loop, which takes the operator `op₁` at `peek`.
  unfoldable pub outer_round :
      (Node → Token → M (Unit {0})) → Option OpDef → Node → Token → M (Unit {0})
  unfolding inner_loop
  outer_round again op₁ lhs peek = do
    set_current peek
    rhs ← then_ (self.expr no_binary)
    inner_fuel ← get_rounds
    (operand, behind) ← inner_loop inner_fuel (prec_of op₁) rhs
    push_node (node n_binary false peek (two lhs operand))
    lhs' ← get_node
    again lhs' behind

  unfoldable pub outer_loop : ℕ → ℤ → Node → Token → M (Unit {0})
  unfolding outer_round
  outer_loop zero min_prec lhs peek = fail_with exhausted
  outer_loop (suc fuel) min_prec lhs peek = elim (token_is_binary_op peek) [
    | false ↦ pure tt
    | true ↦ do
      op₁ ← get_operator peek
      elim (lt_ℤ (prec_of op₁) min_prec) [
        | true ↦ pure tt
        | false ↦ outer_round (outer_loop fuel min_prec) op₁ lhs peek
      ]
  ]

  -- `parse_binary_`
  unfoldable pub parse_binary_rest : ℤ → Node → Routine
  unfolding frame outer_loop next_token
  parse_binary_rest min_prec lhs =
      frame do peek ← next_token; fuel ← get_rounds; outer_loop fuel min_prec lhs peek

  unfoldable pub parse_binary : Routine
  unfolding frame
  parse_binary =
      frame
        do lhs ← then_ (self.expr no_binary); then_ (self.binary_rest (pos 0) lhs) >>= λ _. pure tt
