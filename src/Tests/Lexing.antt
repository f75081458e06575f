-- ===== src/Tests/Lexing.antt =====
-- The lexer on short texts.
use chammer.Prelude.{ℕ, ◌≡◌, refl, arith, false, List, [], ◌∷◌}
use chammer.Lexer.{token_next, token_next_string}
use chammer.Tokens.{
  t_bcomm, t_string, t_larrow, t_int, t_ident, Token, lexed, out_of_bounds, lex_ok, lex_eeoi,
}
use chammer.Lexer.Progress.{Outcome, token_next-Outcome}
use chammer.Lexer.Literals.{is_body, token_next_string-body, token_next_string-backslashes}
use chammer.Text.{string_eq}

abbrev begin : List ℕ → Token
begin s = record { type = t_bcomm; str = s; len = 0 }

program : Unit {0}
unfolding token_next string_eq is_body
program = tt

arrow :
    token_next false (begin (0x20 ∷ b'<' ∷ b'-' ∷ b'1' ∷ []))
    ≡ lexed lex_ok (record { type = t_larrow; str = b'<' ∷ b'-' ∷ b'1' ∷ []; len = 2 })
unfolding program
arrow = refl

comment :
    token_next false (begin (b'-' ∷ b'-' ∷ b'a' ∷ 10 ∷ b'b' ∷ []))
    ≡ lexed lex_ok (record { type = t_ident; str = b'b' ∷ []; len = 1 })
unfolding program
comment = refl

open_comment : token_next false (begin (0x7b ∷ b'-' ∷ [])) ≡ out_of_bounds
unfolding program
open_comment = refl

token_next-Outcome_example :
    Outcome false (0x20 ∷ b'1' ∷ b'+' ∷ []) (token_next false (begin (0x20 ∷ b'1' ∷ b'+' ∷ [])))
token_next-Outcome_example =
    token_next-Outcome false (begin (0x20 ∷ b'1' ∷ b'+' ∷ [])) (omega arith)

token_next_string-body_example :
    token_next_string
      (record { type = t_int; str = 0x22 ∷ b'\\' ∷ 0x22 ∷ 0x22 ∷ b'x' ∷ []; len = 1 })
    ≡ (lex_ok, record { type = t_string; str = 0x22 ∷ b'\\' ∷ 0x22 ∷ 0x22 ∷ b'x' ∷ []; len = 4 })
unfolding program
token_next_string-body_example = token_next_string-body t_int 1 (b'\\' ∷ 0x22 ∷ []) (b'x' ∷ []) refl

token_next_string-backslashes_example :
    (token_next_string
      (record { type = t_int; str = 0x22 ∷ b'\\' ∷ b'\\' ∷ 0x22 ∷ b'x' ∷ []; len = 1 })).0
    ≡ lex_eeoi
token_next_string-backslashes_example =
    token_next_string-backslashes t_int 1 [] (b'x' ∷ []) tt (omega arith)
