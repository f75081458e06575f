-- ===== src/Parser/Frames/Rules.antt =====
-- The rules for the primitives of lib/parser.c, from the step of a token to the end of a frame.
pub mod Routines
use chammer.Prelude.{
  ℕ, zero, suc, ◌+◌, ◌≤◌, ◌<◌, ◌≡◌, refl, sym, ◌∙◌, Bool, true, false, List, [], ◌∷◌, arith, length,
  length-drop, drop, if◌then◌else◌,
}
use mathlib.Core.Path.{subst}
use chammer.Lexer.{token_next}
use chammer.Tokens.{
  TokenType, Token, LexResult, lex_none, lex_ok, lex_eeoi, lex_enum, Lexed, lexed, out_of_bounds,
  stuck, same_type,
}
use chammer.Lexer.Scan.{IsSuffix, IsSuffix-trans, drop-IsSuffix}
use chammer.Lexer.Progress.{Outcome, token_next-Outcome_any}
use chammer.Ast.{Node, Nodes, nil, cons}
use chammer.Parser.{
  Parser, ParseResult, parse_ok, parse_lex_error, parse_expected_token, parse_leftover_tokens,
  Fault, overrun, exhausted, Parsed, parsed, faulted, Routine, Step, next, stop, fault, M, go_on,
  frame, end_frame, next_token, try_token, expect_token, then_, attempt, push_node, lex_step,
  peeked, tried, expected, then_parsed, tried_parsed, set_node,
}
use chammer.Parser.Frames.{
  rest_of, Moved, Failed, Stopped, FaultOk, Ends, Post, post, ends, ParsedOk, Moved-refl,
  Moved-weaken, Moved-trans, ok_token-Moved,
}

-- `f` follows a step of the frame.
pub bind_ok :
    {A B : Type 0} {Q : A → Parser → Token → Type 0} {R : B → Parser → Token → Type 0} {p : Parser}
    {t : Token} {s : Step A} {f : A → M B}
    → Post Q p t s
    → ((a : A) (p' : Parser) (t' : Token) → Q a p' t' → Post R p t (f a p' t'))
    → Post R p t (go_on s f)
bind_ok {s = next a p' t'} (post h) k = k a p' t' h
bind_ok {s = stop r p'} (post h) k = post h
bind_ok {s = fault overrun} (post h) k = post h
bind_ok {s = fault exhausted} (post h) k = post h

-- The frame's node, the parser's other fields and the token that stays change nothing that counts.
pub same-Moved :
    {d : ℕ} {p p' : Parser} (p'' : Parser) {t t' : Token}
    → Moved d p t p' t'
    → p''.operators ≡ p'.operators
    → p'.nodes_len ≤ p''.nodes_len
    → Moved d p t p'' t'
same-Moved p'' m e le = record {
  same_operators = e ∙ m.same_operators;
  more_nodes = omega (arith, m.more_nodes, le);
  suffix = m.suffix;
  taken = m.taken;
}

pub Stopped-here :
    {d : ℕ} {p p' : Parser} {t t' : Token} {r : ParseResult}
    → Moved d p t p' t'
    → (p'' : Parser) → p''.operators ≡ p'.operators
    → p'.nodes_len ≤ p''.nodes_len
    → Failed r
    → Stopped p p'' r
Stopped-here m p'' e le n =
    let m' = same-Moved p'' m e le in
    record { kept_operators = m'.same_operators; kept_nodes = m'.more_nodes; failed = n }

-- A read behind the text that happens at a later token happens behind the same text.
pub FaultOk-Moved :
    {d : ℕ} {p p' : Parser} {t t' : Token} (e : Fault)
    → Moved d p t p' t'
    → FaultOk t' e
    → FaultOk t e
FaultOk-Moved {t = t} {t' = t'} overrun m h =
    IsSuffix-trans (0x7b ∷ 0x2d ∷ []) (rest_of t') (rest_of t) h m.suffix
FaultOk-Moved exhausted m h = h

-- What is known of a token: it stands behind the frame's, or is that of `peek`.
abbrev pub Peeked : ℕ → Parser → Token → Token → Parser → Token → Type 0
Peeked d p t peek p' t' =
    Moved d p t p' t' × Moved (d + 1) p t p' peek × (length (rest_of peek) < length (rest_of t'))

peeked-Ends :
    (d : ℕ) (p p' : Parser) (t t' : Token) (l : Lexed)
    → Moved d p t p' t'
    → Outcome false (rest_of t') l
    → Ends (Peeked d p t) p t (peeked t' (lex_step p' l))
peeked-Ends d p p' t t' (lexed lex_ok tok) m o =
    let q = record p' { lex_result = lex_ok } in
    let n = same-Moved q m refl (omega arith) in
    let here = ok_token-Moved q q t' t' tok (Moved-refl q t') o in
    (n, ok_token-Moved p q t t' tok n o, omega (arith, here.taken))
peeked-Ends d p p' t t' (lexed lex_none tok) m o =
    Stopped-here m (record p' { lex_result = lex_none }) refl (omega arith) tt
peeked-Ends d p p' t t' (lexed lex_eeoi tok) m o =
    Stopped-here m (record p' { lex_result = lex_eeoi }) refl (omega arith) tt
peeked-Ends d p p' t t' (lexed lex_enum tok) m o =
    Stopped-here m (record p' { lex_result = lex_enum }) refl (omega arith) tt
peeked-Ends d p p' t t' out_of_bounds m o = FaultOk-Moved overrun m o
peeked-Ends d p p' t t' stuck m o = FaultOk-Moved exhausted m o

pub next_token_ok :
    {d : ℕ} {p p' : Parser} {t t' : Token}
    → Moved d p t p' t'
    → Post (Peeked d p t) p t (next_token p' t')
unfolding next_token
next_token_ok {d} {p} {p'} {t} {t'} m =
    post (peeked-Ends d p p' t t' (token_next false t') m (token_next-Outcome_any false t'))

-- The token of `expect_token` becomes the frame's.
abbrev pub Advanced : ℕ → Parser → Token → Token → Parser → Token → Type 0
Advanced d p t tok p' t' = Moved d p t p' t'

expected-Ends :
    (d : ℕ) (p p' : Parser) (t t' : Token) (ty : TokenType) (l : Lexed)
    → Moved d p t p' t'
    → Outcome false (rest_of t') l
    → Ends (Advanced (d + 1) p t) p t (expected ty (lex_step p' l))
expected-Ends d p p' t t' ty (lexed lex_ok tok) m o =
    let q = record p' { lex_result = lex_ok; expected_token = ty } in
    let n = same-Moved q m refl (omega arith) in
    elim (same_type tok.type ty)
      as (λ b. Ends (Advanced (d + 1) p t) p t (
        if b
        then next tok q tok
        else stop parse_expected_token (record p' { lex_result = lex_ok; expected_token = ty }))) [
          | true ↦ ok_token-Moved p q t t' tok n o
          | false ↦ Stopped-here m q refl (omega arith) tt
        ]
expected-Ends d p p' t t' ty (lexed lex_none tok) m o =
    Stopped-here m (record p' { lex_result = lex_none }) refl (omega arith) tt
expected-Ends d p p' t t' ty (lexed lex_eeoi tok) m o =
    Stopped-here m (record p' { lex_result = lex_eeoi }) refl (omega arith) tt
expected-Ends d p p' t t' ty (lexed lex_enum tok) m o =
    Stopped-here m (record p' { lex_result = lex_enum }) refl (omega arith) tt
expected-Ends d p p' t t' ty out_of_bounds m o = FaultOk-Moved overrun m o
expected-Ends d p p' t t' ty stuck m o = FaultOk-Moved exhausted m o

pub expect_token_ok :
    {d : ℕ} {p p' : Parser} {t t' : Token} (ty : TokenType)
    → Moved d p t p' t'
    → Post (Advanced (d + 1) p t) p t (expect_token ty p' t')
unfolding expect_token
expect_token_ok {d} {p} {p'} {t} {t'} ty m =
    post (expected-Ends d p p' t t' ty (token_next false t') m (token_next-Outcome_any false t'))

drop-IsSuffix_any : (n : ℕ) (s : List ℕ) → IsSuffix (drop n s) s
drop-IsSuffix_any zero s = (0, refl, omega arith)
drop-IsSuffix_any (suc n) [] = (0, refl, omega arith)
drop-IsSuffix_any (suc n) (c ∷ s) =
    let (k, e, l) = drop-IsSuffix_any n s in (suc k, e, omega (arith, l))

-- So does what `token_next` leaves when it finds none, though its length is the old one.
failed_token-Moved :
    {d : ℕ} (p p' : Parser) (t t' tok : Token)
    → Moved d p t p' t'
    → IsSuffix tok.str (rest_of t')
    → Moved d p t p' tok
failed_token-Moved p p' t t' tok m s =
    let s' =
      IsSuffix-trans (rest_of tok) tok.str (rest_of t') (drop-IsSuffix_any tok.len tok.str) s in
    Moved-weaken _ (omega arith) (
      Moved-trans {e = 0} m (record {
        same_operators = refl;
        more_nodes = omega arith;
        suffix = s';
        taken = omega (arith, s'.2);
      }))

-- What follows, from wherever the frame is then.
abbrev pub Follows :
    {B : Type 0} → ℕ → Parser → Token → (B → Parser → Token → Type 0) → M B → Type 0
Follows d p t R m = (q : Parser) (u : Token) → Moved d p t q u → Post R p t (m q u)

tried_token :
    {B : Type 0} {R : B → Parser → Token → Type 0} (d : ℕ) (p p' : Parser) (t t' : Token)
    (l : Lexed) (k : LexResult × Token → M B)
    → Moved d p t p' t'
    → Outcome false (rest_of t') l
    → ((peek : Token)
        → l ≡ lexed lex_ok peek
        → Moved (d + 1) p t p' peek
        → Post R p t (k (lex_ok, peek) p' t'))
    → ((peek : Token) → Moved d p t p' peek → Post R p t (k (lex_none, peek) p' t'))
    → ((peek : Token) → Moved d p t p' peek → Post R p t (k (lex_eeoi, peek) p' t'))
    → ((peek : Token) → Moved d p t p' peek → Post R p t (k (lex_enum, peek) p' t'))
    → Post R p t (go_on (tried p' t' l) k)
tried_token d p p' t t' (lexed lex_ok tok) k m o ok f g i =
    ok tok refl (ok_token-Moved p p' t t' tok m o)
tried_token d p p' t t' (lexed lex_none tok) k m o ok f g i =
    f tok (failed_token-Moved p p' t t' tok m o)
tried_token d p p' t t' (lexed lex_eeoi tok) k m o ok f g i =
    g tok (failed_token-Moved p p' t t' tok m o)
tried_token d p p' t t' (lexed lex_enum tok) k m o ok f g i =
    i tok (failed_token-Moved p p' t t' tok m o)
tried_token d p p' t t' out_of_bounds k m o ok f g i = post (FaultOk-Moved overrun m o)
tried_token d p p' t t' stuck k m o ok f g i = post (FaultOk-Moved exhausted m o)

-- `try_token` finds a token, or something else.
pub try_token_ok :
    {B : Type 0} {R : B → Parser → Token → Type 0} {d : ℕ} {p p' : Parser} {t t' : Token}
    (k : LexResult × Token → M B)
    → Moved d p t p' t'
    → ((peek : Token)
        → token_next false t' ≡ lexed lex_ok peek
        → Moved (d + 1) p t p' peek
        → Post R p t (k (lex_ok, peek) p' t'))
    → ((peek : Token) → Moved d p t p' peek → Post R p t (k (lex_none, peek) p' t'))
    → ((peek : Token) → Moved d p t p' peek → Post R p t (k (lex_eeoi, peek) p' t'))
    → ((peek : Token) → Moved d p t p' peek → Post R p t (k (lex_enum, peek) p' t'))
    → Post R p t (go_on (try_token p' t') k)
unfolding try_token
try_token_ok {d = d} {p} {p'} {t} {t'} k m =
    tried_token d p p' t t' (token_next false t') k m (token_next-Outcome_any false t')

-- A test, and a list of nodes, decide what follows.
pub test_ok :
    {B : Type 0} {R : B → Parser → Token → Type 0} {p p' : Parser} {t t' : Token} (b : Bool)
    (x y : M B)
    → Post R p t (x p' t')
    → Post R p t (y p' t')
    → Post R p t ((elim b as (λ _. M B) [ true ↦ x | false ↦ y ]) p' t')
test_ok true x y h g = h
test_ok false x y h g = g

pub test_equal_ok :
    {B : Type 0} {R : B → Parser → Token → Type 0} {p p' : Parser} {t t' : Token} (b : Bool)
    (x y : M B)
    → (b ≡ true → Post R p t (x p' t'))
    → (b ≡ false → Post R p t (y p' t'))
    → Post R p t ((elim b as (λ _. M B) [ true ↦ x | false ↦ y ]) p' t')
test_equal_ok true x y h g = h refl
test_equal_ok false x y h g = g refl

pub test_true :
    {B : Type 0} {R : B → Parser → Token → Type 0} {p p' : Parser} {t t' : Token} (b : Bool)
    (x y : M B)
    → b ≡ true
    → Post R p t (x p' t')
    → Post R p t ((elim b as (λ _. M B) [ true ↦ x | false ↦ y ]) p' t')
test_true b x y e h = rw e h

pub test_false :
    {B : Type 0} {R : B → Parser → Token → Type 0} {p p' : Parser} {t t' : Token} (b : Bool)
    (x y : M B)
    → b ≡ false
    → Post R p t (y p' t')
    → Post R p t ((elim b as (λ _. M B) [ true ↦ x | false ↦ y ]) p' t')
test_false b x y e h = rw e h

pub nodes_ok :
    {B : Type 0} {R : B → Parser → Token → Type 0} {p p' : Parser} {t t' : Token} (items : Nodes)
    (x : M B) (y : Node → Nodes → M B)
    → Post R p t (x p' t')
    → ((n : Node) (ns : Nodes) → Post R p t (y n ns p' t'))
    → Post R p t ((elim items as (λ _. M B) [ nil ↦ x | cons n ns ↦ y n ns ]) p' t')
nodes_ok nil x y h g = h
nodes_ok (cons n ns) x y h g = g n ns
