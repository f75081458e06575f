-- ===== src/Parser/Frames/Rules/Routines.antt =====
-- The rules for calls of routines in lib/parser.c, `THEN` and `TRY`, and for the end of a frame.
use chammer.Prelude.{ℕ, ◌+◌, ◌≤◌, ◌≡◌, refl, sym, ◌∙◌, arith}
use mathlib.Core.Path.{subst}
use chammer.Tokens.{Token}
use chammer.Ast.{Node}
use chammer.Parser.{
  Parser, ParseResult, parse_ok, parse_lex_error, parse_expected_token, parse_leftover_tokens,
  Parsed, parsed, faulted, Routine, Step, next, stop, fault, M, go_on, frame, end_frame, then_,
  attempt, push_node, then_parsed, tried_parsed, set_node,
}
use chammer.Parser.Frames.{Moved, Ends, Post, post, ends, ParsedOk, Moved-weaken, Moved-trans}
use chammer.Parser.Frames.Rules.{same-Moved, Stopped-here, FaultOk-Moved, Follows}

-- `THEN`: the routine takes `e` bytes.
then_parsed-Ends :
    (d e : ℕ) (p p' : Parser) (t t' : Token) (x : Parsed)
    → Moved d p t p' t'
    → ParsedOk e p' t' x
    → Ends (λ n. Moved (d + e) p t) p t (then_parsed x)
then_parsed-Ends d e p p' t t' (parsed parse_ok q u) m h = Moved-trans m h
then_parsed-Ends d e p p' t t' (parsed parse_lex_error q u) m (o, n, _) =
    Stopped-here m q o (omega (arith, n)) tt
then_parsed-Ends d e p p' t t' (parsed parse_expected_token q u) m (o, n, _) =
    Stopped-here m q o (omega (arith, n)) tt
then_parsed-Ends d e p p' t t' (parsed parse_leftover_tokens q u) m (o, n, _) =
    Stopped-here m q o (omega (arith, n)) tt
then_parsed-Ends d e p p' t t' (faulted f) m h = FaultOk-Moved f m h

pub then_ok :
    {d : ℕ} (e : ℕ) {p p' : Parser} {t t' : Token} (f : Routine)
    → Moved d p t p' t'
    → ParsedOk e p' t' (f p' t')
    → Post (λ n. Moved (d + e) p t) p t (then_ f p' t')
then_ok {d} e {p} {p'} {t} {t'} f m h = post (then_parsed-Ends d e p p' t t' (f p' t') m h)

-- A failure leaves the frame where it was.
failed-Moved :
    (d : ℕ) (p p' q : Parser) (t t' u : Token)
    → Moved d p t p' t'
    → (q.operators ≡ p'.operators) × (q.nodes_len ≡ p'.nodes_len) × (u ≡ t')
    → Moved d p t q u
failed-Moved d p p' q t t' u m (o, n, e) =
    subst (λ v. Moved d p t q v) (sym e) (same-Moved q m o (omega (arith, n)))

attempted :
    {B : Type 0} {R : B → Parser → Token → Type 0} (d e : ℕ) (p p' : Parser) (t t' : Token)
    (x : Parsed) (k : ParseResult → M B)
    → Moved d p t p' t'
    → ParsedOk e p' t' x
    → Follows (d + e) p t R (k parse_ok)
    → Follows d p t R (k parse_lex_error)
    → Follows d p t R (k parse_expected_token)
    → Follows d p t R (k parse_leftover_tokens)
    → Post R p t (go_on (tried_parsed x) k)
attempted d e p p' t t' (parsed parse_ok q u) k m h ok f g i = ok q u (Moved-trans m h)
attempted d e p p' t t' (parsed parse_lex_error q u) k m h ok f g i =
    f q u (failed-Moved d p p' q t t' u m h)
attempted d e p p' t t' (parsed parse_expected_token q u) k m h ok f g i =
    g q u (failed-Moved d p p' q t t' u m h)
attempted d e p p' t t' (parsed parse_leftover_tokens q u) k m h ok f g i =
    i q u (failed-Moved d p p' q t t' u m h)
attempted d e p p' t t' (faulted c) k m h ok f g i = post (FaultOk-Moved c m h)

pub attempt_ok :
    {B : Type 0} {R : B → Parser → Token → Type 0} {d : ℕ} (e : ℕ) {p p' : Parser} {t t' : Token}
    (f : Routine) (k : ParseResult → M B)
    → Moved d p t p' t'
    → ParsedOk e p' t' (f p' t')
    → Follows (d + e) p t R (k parse_ok)
    → Follows d p t R (k parse_lex_error)
    → Follows d p t R (k parse_expected_token)
    → Follows d p t R (k parse_leftover_tokens)
    → Post R p t (go_on (attempt f p' t') k)
attempt_ok {d = d} e {p} {p'} {t} {t'} f k m h = attempted d e p p' t t' (f p' t') k m h

-- The frame's end: `COMMIT` keeps what moved, `DISCARD` restores the token and the arena's length.
end_frame-ParsedOk :
    (d : ℕ) (p : Parser) (t : Token) (s : Step (Unit {0}))
    → Ends (λ n. Moved d p t) p t s
    → ParsedOk d p t (end_frame p.nodes_len t s)
end_frame-ParsedOk d p t (next a p' t') h = h
end_frame-ParsedOk d p t (stop parse_ok q) h = elim h.failed [ ]
end_frame-ParsedOk d p t (stop parse_lex_error q) h = (h.kept_operators, refl, refl)
end_frame-ParsedOk d p t (stop parse_expected_token q) h = (h.kept_operators, refl, refl)
end_frame-ParsedOk d p t (stop parse_leftover_tokens q) h = (h.kept_operators, refl, refl)
end_frame-ParsedOk d p t (fault e) h = h

pub frame_ok :
    {d : ℕ} {p : Parser} {t : Token} (body : M (Unit {0}))
    → Post (λ n. Moved d p t) p t (body p t)
    → ParsedOk d p t (frame body p t)
unfolding frame
frame_ok {d} {p} {t} body h = end_frame-ParsedOk d p t (body p t) (ends h)

-- A part of the frame that is shown from its own beginning.
pub rebase :
    {A : Type 0} {Q R : A → Parser → Token → Type 0} {d : ℕ} {p p' : Parser} {t t' : Token}
    {s : Step A}
    → Moved d p t p' t'
    → Post Q p' t' s
    → ((a : A) (q : Parser) (u : Token) → Q a q u → R a q u)
    → Post R p t s
rebase {s = next a q u} m (post h) f = post (f a q u h)
rebase {s = stop r q} m (post h) f = post (record {
  kept_operators = h.kept_operators ∙ m.same_operators;
  kept_nodes = omega (arith, m.more_nodes, h.kept_nodes);
  failed = h.failed;
})
rebase {s = fault e} m (post h) f = post (FaultOk-Moved e m h)

-- `push_node` and `p->node = n` keep where the frame is.
pub push_ok :
    {d : ℕ} {p p' : Parser} {t t' : Token} (n : Node)
    → Moved d p t p' t'
    → Post (λ a. Moved d p t) p t (push_node n p' t')
push_ok {p' = p'} n m =
    post (same-Moved (record p' { nodes_len = p'.nodes_len + 1; node = n }) m refl (omega arith))

pub set_ok :
    {d : ℕ} {p p' : Parser} {t t' : Token} (n : Node)
    → Moved d p t p' t'
    → Post (λ a. Moved d p t) p t (set_node n p' t')
set_ok {p' = p'} n m = post (same-Moved (record p' { node = n }) m refl (omega arith))

-- What follows a part of the frame, shown from where that part ends.
pub after_ok :
    {A : Type 0} {d : ℕ} (e e' : ℕ) {p p' : Parser} {t t' : Token} {s : Step A}
    → Moved d p t p' t'
    → e' ≤ d + e
    → Post (λ a. Moved e p' t') p' t' s
    → Post (λ a. Moved e' p t) p t s
after_ok e e' m le h = rebase m h (λ a q u x. Moved-weaken e' le (Moved-trans m x))
