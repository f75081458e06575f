-- ===== src/Parser.antt =====
-- lib/parser.h and lib/parser.c: the parser's state, its operators, and the primitives in terms of
-- which the routines are written.
pub mod Operators
pub mod Grammar
pub mod Program
pub mod Frames
pub mod Total
use chammer.Prelude.{
  ℕ, zero, suc, ◌+◌, Bool, true, false, ◌&&◌, Option, none, some, List, [], ◌∷◌, ◌++◌, ltb, leb,
  if◌then◌else◌, length, drop,
}
use chammer.Prelude.Int.{ℤ}
use chammer.Lexer.{token_next}
use chammer.Tokens.{
  TokenType, Token, LexResult, lex_none, lex_ok, Lexed, lexed, out_of_bounds, stuck, same_type,
}
use chammer.Ast.{Node, node, n_ident, no_token, nil, NodeType, Nodes}

pub data ParseResult : Type 0 where
  parse_ok parse_lex_error parse_expected_token parse_leftover_tokens : ParseResult

pub data Assoc : Type 0 where
  assoc_left assoc_right : Assoc

pub record OpDef : Type 0 where
  pub name : List ℕ
  pub prec : ℤ
  pub assoc : Assoc

-- `nodes_len` is the length of the arena of nodes. `node` is read only after a routine succeeded.
pub record Parser : Type 0 where
  pub operators : List OpDef
  pub nodes_len : ℕ
  pub node : Node
  pub lex_result : LexResult
  pub expected_token : TokenType

-- How a routine can end besides its result: a read behind the source text, or the end of the fuel.
pub data Fault : Type 0 where
  overrun exhausted : Fault

-- The result of a routine, with the token that it leaves at `ts`.
pub data Parsed : Type 0 where
  parsed : ParseResult → Parser → Token → Parsed
  faulted : Fault → Parsed

abbrev pub Routine : Type 0
Routine = Parser → Token → Parsed

-- A routine's body between `begin` and `COMMIT` or `DISCARD`, over the frame's current token.
pub data Step (A : Type 0) : Type 0 where
  next : A → Parser → Token → Step A
  stop : ParseResult → Parser → Step A
  fault : Fault → Step A

abbrev pub M : Type 0 → Type 0
M A = Parser → Token → Step A

abbrev pub go_on : {A B : Type 0} → Step A → (A → M B) → Step B
go_on (next a p t) f = f a p t
go_on (stop r p) f = stop r p
go_on (fault e) f = fault e

infixl 5 ◌>>=◌ ◌>>◌
abbrev pub ◌>>=◌ : {A B : Type 0} → M A → (A → M B) → M B
◌>>=◌ m f p t = go_on (m p t) f

abbrev pub ◌>>◌ : {A B : Type 0} → M A → M B → M B
◌>>◌ m k = m >>= λ _. k

abbrev pub pure : {A : Type 0} → A → M A
pure a p t = next a p t

-- `DISCARD(f)` when the frame's result is `r`.
abbrev pub discard : {A : Type 0} → ParseResult → M A
discard r p t = stop r p

-- `COMMIT` stores the frame's token; `DISCARD` truncates the arena and leaves the caller's token.
abbrev pub end_frame : ℕ → Token → Step (Unit {0}) → Parsed
end_frame begin ts (next _ p t) = parsed parse_ok p t
end_frame begin ts (stop r p) = parsed r (record p { nodes_len = begin }) ts
end_frame begin ts (fault e) = faulted e

unfoldable pub frame : M (Unit {0}) → Routine
frame body p ts = end_frame p.nodes_len ts (body p ts)

-- The token behind a token, with the parser's `lex_result` set.
abbrev pub lex_step : Parser → Lexed → Step (LexResult × Token)
lex_step p (lexed r t) = next (r, t) (record p { lex_result = r }) t
lex_step p out_of_bounds = fault overrun
lex_step p stuck = fault exhausted

-- `NEXT_TOKEN(f, peek)` with `peek = f.current_token` before it: the current token stays.
abbrev pub peeked : Token → Step (LexResult × Token) → Step Token
peeked cur (next (lex_ok, t) p _) = next t p cur
peeked cur (next (_, t) p _) = stop parse_lex_error p
peeked cur (stop r p) = stop r p
peeked cur (fault e) = fault e

unfoldable pub next_token : M Token
next_token p t = peeked t (lex_step p (token_next false t))

-- The bare `token_next(&peek, 0)` of some loops, which sets no field of the parser.
abbrev pub tried : Parser → Token → Lexed → Step (LexResult × Token)
tried p cur (lexed r t) = next (r, t) p cur
tried p cur out_of_bounds = fault overrun
tried p cur stuck = fault exhausted

unfoldable pub try_token : M (LexResult × Token)
try_token p t = tried p t (token_next false t)

abbrev pub set_current : Token → M (Unit {0})
set_current t p _ = next tt p t

abbrev pub set_expected : TokenType → M (Unit {0})
set_expected ty p t = next tt (record p { expected_token = ty }) t

-- `next_token(f, &f->current_token)`, and the comparison of `expect_token`.
abbrev pub expected : TokenType → Step (LexResult × Token) → Step Token
expected ty (next (lex_ok, t) p _) =
    if same_type t.type ty
    then next t (record p { expected_token = ty }) t
    else stop parse_expected_token (record p { expected_token = ty })
expected ty (next (_, t) p _) = stop parse_lex_error p
expected ty (stop r p) = stop r p
expected ty (fault e) = fault e

unfoldable pub expect_token : TokenType → M Token
expect_token ty p t = expected ty (lex_step p (token_next false t))

-- `THEN(f, var, parser_fn)`
abbrev pub then_parsed : Parsed → Step Node
then_parsed (parsed parse_ok p t) = next p.node p t
then_parsed (parsed r p t) = stop r p
then_parsed (faulted e) = fault e

abbrev pub then_ : Routine → M Node
then_ f p t = then_parsed (f p t)

-- `TRY(f, parser_fn)`, with the result that it stores in the frame.
abbrev pub tried_parsed : Parsed → Step ParseResult
tried_parsed (parsed r p t) = next r p t
tried_parsed (faulted e) = fault e

abbrev pub attempt : Routine → M ParseResult
attempt f p t = tried_parsed (f p t)

abbrev pub get_node : M Node
get_node p t = next p.node p t

-- `p->node = n`
abbrev pub set_node : Node → M (Unit {0})
set_node n p t = next tt (record p { node = n }) t

-- `arena_push_zeroed`, and the node's fields.
abbrev pub push_node : Node → M (Unit {0})
push_node n p t = next tt (record p { nodes_len = p.nodes_len + 1; node = n }) t

-- `if (TRY(f, …)) COMMIT(f);` for each alternative, then `DISCARD(f)`.
pub choice : List Routine → ParseResult → M (Unit {0})
choice [] last = discard last
choice (f ∷ fs) last = do r ← attempt f; elim r [ parse_ok ↦ pure tt | other ↦ choice fs other ]

-- Rounds of a loop over tokens: each takes one at least.
abbrev pub rounds : Token → ℕ
rounds t = suc (length (drop t.len t.str))

abbrev pub get_rounds : M ℕ
get_rounds p t = next (rounds t) p t

abbrev pub fail_with : {A : Type 0} → Fault → M A
fail_with e p t = fault e
