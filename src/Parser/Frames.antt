-- ===== src/Parser/Frames.antt =====
-- What every routine of lib/parser.c keeps, over a fixed frame that began with the parser `p` at the
-- token `t`.
pub mod Rules
use chammer.Prelude.{
  ℕ, zero, suc, ◌+◌, ◌≤◌, ◌<◌, ◌≡◌, refl, sym, ◌∙◌, Bool, true, false, List, [], ◌∷◌, arith, length,
  length-drop, drop, if◌then◌else◌,
}
use mathlib.Core.Path.{subst}
use chammer.Lexer.{token_next}
use chammer.Tokens.{
  TokenType, Token, LexResult, lex_none, lex_ok, lex_eeoi, lex_enum, Lexed, lexed, out_of_bounds,
  stuck, same_type,
}
use chammer.Lexer.Scan.{IsSuffix, IsSuffix-trans, drop-IsSuffix}
use chammer.Lexer.Progress.{Outcome, token_next-Outcome_any}
use chammer.Ast.{Node, Nodes, nil, cons}
use chammer.Parser.{
  Parser, ParseResult, parse_ok, parse_lex_error, parse_expected_token, parse_leftover_tokens,
  Fault, overrun, exhausted, Parsed, parsed, faulted, Routine, Step, next, stop, fault, M, go_on,
  frame, end_frame, next_token, try_token, expect_token, then_, attempt, push_node, lex_step,
  peeked, tried, expected, then_parsed, tried_parsed, set_node,
}

abbrev pub rest_of : Token → List ℕ
rest_of t = drop t.len t.str

-- From `p` at `t` to `p'` at `t'`: the operators stay, nodes are only added, the text left is a
-- suffix of the text before, and at least `d` bytes are taken.
pub record Moved (d : ℕ) (p : Parser) (t : Token) (p' : Parser) (t' : Token) : Type 0 where
  pub same_operators : p'.operators ≡ p.operators
  pub more_nodes : p.nodes_len ≤ p'.nodes_len
  pub suffix : IsSuffix (rest_of t') (rest_of t)
  pub taken : d + length (rest_of t') ≤ length (rest_of t)

abbrev pub Failed : ParseResult → Type 0
Failed parse_ok = ⊥
Failed _ = Unit

pub record Stopped (p p' : Parser) (r : ParseResult) : Type 0 where
  pub kept_operators : p'.operators ≡ p.operators
  pub kept_nodes : p.nodes_len ≤ p'.nodes_len
  pub failed : Failed r

abbrev pub FaultOk : Token → Fault → Type 0
FaultOk t overrun = IsSuffix (0x7b ∷ b'-' ∷ []) (rest_of t)
FaultOk t exhausted = ⊥

-- A step of the frame that ends normally satisfies `Q`; one that stops has failed; the fuel lasts.
abbrev pub Ends : {A : Type 0} → (A → Parser → Token → Type 0) → Parser → Token → Step A → Type 0
Ends Q p t (next a p' t') = Q a p' t'
Ends Q p t (stop r p') = Stopped p p' r
Ends Q p t (fault e) = FaultOk t e

pub data Post {A : Type 0} (Q : A → Parser → Token → Type 0) (p : Parser) (t : Token) (s : Step A)
    : Type 0 where
  post : Ends Q p t s → Post Q p t s

pub ends :
    {A : Type 0} {Q : A → Parser → Token → Type 0} {p : Parser} {t : Token} {s : Step A}
    → Post Q p t s
    → Ends Q p t s
ends (post h) = h

-- A routine that fails leaves the caller's token, and the arena as long as it was.
abbrev pub ParsedOk : ℕ → Parser → Token → Parsed → Type 0
ParsedOk d p t (parsed parse_ok p' t') = Moved d p t p' t'
ParsedOk d p t (parsed r p' t') =
    (p'.operators ≡ p.operators) × (p'.nodes_len ≡ p.nodes_len) × (t' ≡ t)
ParsedOk d p t (faulted e) = FaultOk t e

pub Moved-refl : (p : Parser) (t : Token) → Moved 0 p t p t
Moved-refl p t = record {
  same_operators = refl;
  more_nodes = omega arith;
  suffix = (0, refl, omega arith);
  taken = omega arith;
}

pub Moved-weaken :
    {d : ℕ} (e : ℕ) {p p' : Parser} {t t' : Token} → e ≤ d → Moved d p t p' t' → Moved e p t p' t'
Moved-weaken e h m = record {
  same_operators = m.same_operators;
  more_nodes = m.more_nodes;
  suffix = m.suffix;
  taken = omega (arith, m.taken);
}

pub Moved-trans :
    {d e : ℕ} {p p' p'' : Parser} {t t' t'' : Token}
    → Moved d p t p' t'
    → Moved e p' t' p'' t''
    → Moved (d + e) p t p'' t''
Moved-trans {t = t} {t' = t'} {t'' = t''} m n = record {
  same_operators = n.same_operators ∙ m.same_operators;
  more_nodes = omega (arith, m.more_nodes, n.more_nodes);
  suffix = IsSuffix-trans (rest_of t'') (rest_of t') (rest_of t) n.suffix m.suffix;
  taken = omega (arith, m.taken, n.taken);
}

-- A token that `token_next` finds lies one byte further at least.
pub ok_token-Moved :
    {d : ℕ} (p p' : Parser) (t t' tok : Token)
    → Moved d p t p' t'
    → Outcome false (rest_of t') (lexed lex_ok tok)
    → Moved (d + 1) p t p' tok
ok_token-Moved p p' t t' tok m (s, lo, hi, c) =
    let s' =
      IsSuffix-trans (rest_of tok) tok.str (rest_of t') (drop-IsSuffix tok.len tok.str hi) s in
    Moved-trans m (record {
      same_operators = refl;
      more_nodes = omega arith;
      suffix = s';
      taken = rw (length-drop tok.len tok.str) (omega (arith, s.2));
    })
