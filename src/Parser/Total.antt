-- ===== src/Parser/Total.antt =====
-- The routines of lib/parser.c end, given fuel for the depth of their calls.
pub mod Statements
pub mod Items
pub mod Patterns
pub mod Binary
pub mod Program
use chammer.Prelude.{
  ℕ, zero, suc, ◌+◌, ◌*◌, ◌≤◌, ◌<◌, ◌≡◌, refl, Bool, true, false, List, [], ◌∷◌, ◌++◌, arith,
  length, if◌then◌else◌,
}
use chammer.Lexer.{token_next, token_is_binary_op}
use chammer.Tokens.{Token, TokenType, LexResult, lex_ok, Lexed, lexed, token_string}
use chammer.Ast.{Node, Nodes, append_node}
use chammer.Parser.{
  Parser, ParseResult, parse_ok, parse_lex_error, parse_expected_token, parse_leftover_tokens,
  Parsed, Routine, Step, next, M, choice, attempt, frame, then_, expect_token, discard,
}
use chammer.Parser.Frames.{
  rest_of, Moved, Moved-refl, Moved-weaken, Moved-trans, Failed, Post, post, ParsedOk,
}
use chammer.Parser.Frames.Rules.{bind_ok, same-Moved, Stopped-here, expect_token_ok, Advanced}
use chammer.Parser.Frames.Rules.Routines.{rebase, frame_ok, attempt_ok, then_ok}
use chammer.Parser.Grammar.{many_loop, Self, ExprFlags}
use chammer.Parser.Operators.{parser_get_operator}
use chammer.Parser.Grammar.Binary.{prec_of}
use chammer.Prelude.Int.{ℤ, lt_ℤ}

-- With fuel `n`, the routine ends on a text that leaves four calls for each byte and `k` more, and
-- takes `d` bytes if it succeeds.
abbrev pub Total : ℕ → ℕ → ℕ → Routine → Type 0
Total n k d f = (p : Parser) (t : Token) → 4 * length (rest_of t) + k ≤ n → ParsedOk d p t (f p t)

abbrev pub AllTotal : ℕ → ℕ → List Routine → Type 0
AllTotal n k [] = Unit
AllTotal n k (f ∷ fs) = Total n k 1 f × AllTotal n k fs

-- A routine is a frame around its body.
pub frame-Total :
    {n : ℕ} (k : ℕ) {d : ℕ} (body : M (Unit {0}))
    → ((p : Parser) (t : Token)
        → 4 * length (rest_of t) + k ≤ n
        → Post (λ a. Moved d p t) p t (body p t))
    → Total n k d (frame body)
frame-Total k body h p t room = frame_ok body (h p t room)

pub AllTotal-append :
    (n k : ℕ) (fs gs : List Routine) → AllTotal n k fs → AllTotal n k gs → AllTotal n k (fs ++ gs)
AllTotal-append n k [] gs h g = g
AllTotal-append n k (f ∷ fs) gs (h, hs) g = (h, AllTotal-append n k fs gs hs g)

-- The rest of a choice, once an alternative has failed.
choice_rest_ok :
    {n : ℕ} (k : ℕ) {p p' : Parser} {t t' : Token} (fs : List Routine) (last : ParseResult)
    → Failed last
    → AllTotal n k fs
    → 4 * length (rest_of t) + k ≤ n
    → Moved 0 p t p' t'
    → Post (λ a. Moved 1 p t) p t (choice fs last p' t')
unfolding choice
choice_rest_ok k {p' = p'} [] last failed hs fuel m =
    post (Stopped-here m p' refl (omega arith) failed)
choice_rest_ok k {p' = p'} {t' = t'} (f ∷ fs) last failed (h, hs) fuel m =
    attempt_ok 1 f _ m (h p' t' (omega (arith, m.taken))) (λ q u. post)
      (λ q u. choice_rest_ok k fs parse_lex_error tt hs fuel)
      (λ q u. choice_rest_ok k fs parse_expected_token tt hs fuel)
      (λ q u. choice_rest_ok k fs parse_leftover_tokens tt hs fuel)

pub choice_ok :
    {n : ℕ} (k : ℕ) {p : Parser} {t : Token} (f : Routine) (fs : List Routine) (last : ParseResult)
    → AllTotal n k (f ∷ fs)
    → 4 * length (rest_of t) + k ≤ n
    → Post (λ a. Moved 1 p t) p t (choice (f ∷ fs) last p t)
unfolding choice
choice_ok k {p} {t} f fs last (h, hs) fuel =
    attempt_ok 1 f _ (Moved-refl p t) (h p t fuel) (λ q u. post)
      (λ q u. choice_rest_ok k fs parse_lex_error tt hs fuel)
      (λ q u. choice_rest_ok k fs parse_expected_token tt hs fuel)
      (λ q u. choice_rest_ok k fs parse_leftover_tokens tt hs fuel)

-- A loop over one routine ends, with the failure that ended it.
pub many_loop_ok :
    {n : ℕ} (k : ℕ) (routine : Routine) (fuel : ℕ) (items : Nodes) (p : Parser) (t : Token)
    → Total n k 1 routine
    → length (rest_of t) < fuel
    → 4 * length (rest_of t) + k ≤ n
    → Post (λ a q u. Failed a.1 × Moved 0 p t q u) p t (many_loop routine fuel items p t)
unfolding many_loop
many_loop_ok k routine zero items p t h lt le = elim lt [ ]
many_loop_ok k routine (suc fuel) items p t h lt le =
    attempt_ok 1 routine _ (Moved-refl p t) (h p t le)
      (λ q u m.
        rebase m
          (many_loop_ok k routine fuel (append_node items q.node) q u h (omega (arith, m.taken))
            (omega (arith, m.taken)))
          (λ a p' t' x. (x.0, Moved-weaken 0 (omega arith) (Moved-trans m x.1))))
      (λ q u m. post (tt, m)) (λ q u m. post (tt, m)) (λ q u m. post (tt, m))

-- How deep an expression can call others before it takes a byte.
unfoldable pub rank : ExprFlags → ℕ
rank flags = if flags.binary then 3 else if flags.unary then 2 else if flags.apply then 2 else 1

pub rank_bound : (flags : ExprFlags) → rank flags ≤ 3
unfolding rank
rank_bound flags =
    elim flags.binary
      as (λ b. (if b then 3 else if flags.unary then 2 else if flags.apply then 2 else 1) ≤ 3) [
        | true ↦ omega arith
        | false ↦ ground arith
      ]

-- The routines of `self` end with fuel `n`, and what the loops of `parse_binary_` rely on.
pub record SelfOk (n : ℕ) (self : Self) : Type 0 where
  pub expr_ok : (flags : ExprFlags) → Total n (rank flags) 1 (self.expr flags)
  pub pattern_ok : (apply : Bool) → Total n 4 1 (self.pattern apply)
  pub rest_ok : (min_prec : ℤ) (lhs : Node) → Total n 1 0 (self.binary_rest min_prec lhs)
  pub rest_eats :
      (min_prec : ℤ) (lhs : Node) (p : Parser) (t peek : Token)
      → token_next false t ≡ lexed lex_ok peek
      → token_is_binary_op peek ≡ true
      → lt_ℤ (prec_of (parser_get_operator p (token_string peek))) min_prec ≡ false
      → 4 * length (rest_of t) + 1 ≤ n
      → ParsedOk 1 p t (self.binary_rest min_prec lhs p t)

-- `expect_token`, when what matters is that a byte is taken.
pub expect_one :
    {d : ℕ} {p p' : Parser} {t t' : Token} (ty : TokenType)
    → Moved d p t p' t'
    → Post (Advanced 1 p t) p t (expect_token ty p' t')
expect_one ty m =
    rebase (Moved-refl _ _) (expect_token_ok ty m) (λ a q u. Moved-weaken 1 (omega arith))

module _ {n : ℕ} {self : Self} (ok : SelfOk n self) where
  pub expr_here :
      {p p' : Parser} {t t' : Token} (flags : ExprFlags)
      → 4 * length (rest_of t) + 3 ≤ n
      → Moved 0 p t p' t'
      → ParsedOk 1 p' t' (self.expr flags p' t')
  expr_here {p' = p'} {t' = t'} flags room m =
      ok.expr_ok flags p' t' (omega (arith, m.taken, rank_bound flags))

  pub expr_later :
      {p p' : Parser} {t t' : Token} (flags : ExprFlags)
      → 4 * length (rest_of t) + 1 ≤ suc n
      → Moved 1 p t p' t'
      → ParsedOk 1 p' t' (self.expr flags p' t')
  expr_later {p' = p'} {t' = t'} flags room m =
      ok.expr_ok flags p' t' (omega (arith, m.taken, rank_bound flags))

  pub pattern_later :
      {p p' : Parser} {t t' : Token} (apply : Bool)
      → 4 * length (rest_of t) + 1 ≤ suc n
      → Moved 1 p t p' t'
      → ParsedOk 1 p' t' (self.pattern apply p' t')
  pattern_later {p' = p'} {t' = t'} apply room m =
      ok.pattern_ok apply p' t' (omega (arith, m.taken))

  pub then_expr :
      {p p' : Parser} {t t' : Token} (flags : ExprFlags)
      → 4 * length (rest_of t) + 1 ≤ suc n
      → Moved 1 p t p' t'
      → Post (λ a. Moved 1 p t) p t (then_ (self.expr flags) p' t')
  then_expr flags room m =
      rebase (Moved-refl _ _) (then_ok 1 (self.expr flags) m (expr_later flags room m))
        (λ a q u. Moved-weaken 1 (omega arith))

  pub then_pattern :
      {p p' : Parser} {t t' : Token} (apply : Bool)
      → 4 * length (rest_of t) + 1 ≤ suc n
      → Moved 1 p t p' t'
      → Post (λ a. Moved 1 p t) p t (then_ (self.pattern apply) p' t')
  then_pattern apply room m =
      rebase (Moved-refl _ _) (then_ok 1 (self.pattern apply) m (pattern_later apply room m))
        (λ a q u. Moved-weaken 1 (omega arith))
