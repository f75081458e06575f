-- ===== src/Parser/Total/Binary.antt =====
-- Precedence climbing in lib/parser.c: every round of its loops takes a byte.
use chammer.Prelude.{
  ℕ, zero, suc, ◌+◌, ◌*◌, ◌≤◌, ◌<◌, ◌≡◌, refl, sym, Bool, true, false, ◌||◌, Option, arith, length,
  if◌then◌else◌,
}
use mathlib.Core.Path.{subst}
use chammer.Prelude.Int.{ℤ, pos, negsuc, ◌+ℤ◌, lt_ℤ}
use chammer.Lexer.{token_next, token_is_binary_op}
use chammer.Tokens.{Token, lex_ok, lexed, token_string}
use chammer.Lexer.Progress.{Outcome, token_next-Outcome_any}
use chammer.Ast.{Node, node, two, n_binary}
use chammer.Parser.{Parser, OpDef, M, next_token, go_on, peeked, lex_step, get_rounds, ◌>>=◌}
use chammer.Parser.Operators.{parser_get_operator}
use chammer.Parser.Frames.{
  rest_of, Moved, Moved-refl, Moved-weaken, Moved-trans, Post, post, ParsedOk, ok_token-Moved,
}
use chammer.Parser.Frames.Rules.{
  bind_ok, same-Moved, next_token_ok, try_token_ok, test_ok, test_equal_ok, test_true, test_false,
}
use chammer.Parser.Frames.Rules.Routines.{rebase, after_ok, frame_ok, then_ok}
use chammer.Parser.Total.{Total, SelfOk, rank, frame-Total}
use chammer.Parser.Grammar.{Self, no_binary}
use chammer.Parser.Grammar.Binary.{
  prec_of, binds_less, climb, inner_loop, outer_round, outer_loop, parse_binary_rest, parse_binary,
}

lt_ℤ-succ : (a b : ℤ) → lt_ℤ a b ≡ true → lt_ℤ b (a +ℤ pos 1) ≡ false
lt_ℤ-succ (pos a) (pos b) h = ground arith
lt_ℤ-succ (pos a) (negsuc b) h = ground arith
lt_ℤ-succ (negsuc a) (pos b) h = ground arith
lt_ℤ-succ (negsuc a) (negsuc b) h = ground arith

-- The operator that goes on is not below the precedence that the call is given.
lt_ℤ-climb : (a b : ℤ) → lt_ℤ b a ≡ false → lt_ℤ b (climb a b) ≡ false
lt_ℤ-climb a b h =
    elim (lt_ℤ a b) as (λ c. lt_ℤ a b ≡ c → lt_ℤ b (if c then a +ℤ pos 1 else a) ≡ false) [
      | true ↦ lt_ℤ-succ a b
      | false ↦ λ _. h
    ]
      refl

or_false : (a b : Bool) → (a || b) ≡ false → a ≡ false
or_false true b h = h
or_false false b h = refl

pub binds_less-climb :
    (a : ℤ) (op : Option OpDef)
    → binds_less a op ≡ false
    → lt_ℤ (prec_of op) (climb a (prec_of op)) ≡ false
binds_less-climb a op h = lt_ℤ-climb a (prec_of op) (or_false _ _ h)

module _ {n : ℕ} {self : Self} (ok : SelfOk n self) where
  inner_loop_ok :
      (fuel : ℕ) (prec₁ : ℤ) (rhs : Node) (p : Parser) (t : Token)
      → length (rest_of t) < fuel
      → 4 * length (rest_of t) + 1 ≤ n
      → Post (λ a q u. Moved 0 p t q u × Moved 0 p t q a.1) p t (inner_loop self fuel prec₁ rhs p t)
  unfolding inner_loop
  inner_loop_ok zero prec₁ rhs p t lt room = elim lt [ ]
  inner_loop_ok (suc fuel) prec₁ rhs p t lt room =
      let here = Moved-refl p t in
      try_token_ok _ here
        (λ peek e m.
          let op₂ = parser_get_operator p (token_string peek) in
          test_equal_ok (token_is_binary_op peek) _ _
            (λ is_op.
              test_equal_ok (binds_less prec₁ op₂) _ _
                (λ _. post (here, Moved-weaken 0 (omega arith) m))
                (λ more.
                  bind_ok
                    (then_ok 1 (self.binary_rest (climb prec₁ (prec_of op₂)) rhs) here (
                      ok.rest_eats (climb prec₁ (prec_of op₂)) rhs p t peek e is_op
                        (binds_less-climb prec₁ op₂ more) room))
                    (λ rhs' q u m.
                      rebase m
                        (inner_loop_ok fuel prec₁ rhs' q u (omega (arith, m.taken))
                          (omega (arith, m.taken)))
                        (λ a q u x. (
                          Moved-weaken 0 (omega arith) (Moved-trans m x.0),
                          Moved-weaken 0 (omega arith) (Moved-trans m x.1),
                        )))))
            (λ _. post (here, Moved-weaken 0 (omega arith) m)))
        (λ peek m. post (here, m)) (λ peek m. post (here, m)) (λ peek m. post (here, m))

  outer_round_ok :
      (again : Node → Token → M (Unit {0})) (op₁ : Option OpDef) (lhs : Node) (peek t : Token)
      (p : Parser)
      → 4 * length (rest_of peek) + 2 ≤ n
      → ((lhs' : Node) (behind : Token) (q : Parser) (u : Token)
          → Moved 1 p peek q u
          → Moved 1 p peek q behind
          → Post (λ a. Moved 1 p peek) p peek (again lhs' behind q u))
      → Post (λ a. Moved 1 p peek) p peek (outer_round self again op₁ lhs peek p t)
  unfolding outer_round rank
  outer_round_ok again op₁ lhs peek t p room h =
      bind_ok
        (then_ok 1 (self.expr no_binary) (Moved-refl p peek) (ok.expr_ok no_binary p peek room))
        (λ rhs q u m.
          bind_ok
            (rebase {R = λ a q u. Moved 1 p peek q u × Moved 1 p peek q a.1} m
              (inner_loop_ok (suc (length (rest_of u))) (prec_of op₁) rhs q u (omega arith)
                (omega (arith, m.taken)))
              (λ a q u x. (Moved-trans m x.0, Moved-trans m x.1)))
            (λ a q u x.
              let tree = node n_binary false peek (two lhs a.0) in
              let pushed = record q { nodes_len = q.nodes_len + 1; node = tree } in
              h tree a.1 pushed u (same-Moved pushed x.0 refl (omega arith))
                (same-Moved pushed x.1 refl (omega arith))))

  pub outer_loop_ok :
      {d : ℕ} (fuel : ℕ) (min_prec : ℤ) (lhs : Node) (peek : Token) {p p' : Parser} {t t' : Token}
      → length (rest_of peek) < fuel
      → 4 * length (rest_of peek) + 2 ≤ n
      → Moved d p t p' t'
      → Moved d p t p' peek
      → Post (λ a. Moved d p t) p t (outer_loop self fuel min_prec lhs peek p' t')
  unfolding outer_loop
  outer_loop_ok zero min_prec lhs peek lt room m b = elim lt [ ]
  outer_loop_ok {d} (suc fuel) min_prec lhs peek {p' = p'} {t' = t'} lt room m b =
      test_ok (token_is_binary_op peek) _ _
        (test_ok (lt_ℤ (prec_of (parser_get_operator p' (token_string peek))) min_prec) _ _ (post m)
          (after_ok 1 d b (omega arith) (
            outer_round_ok _ (parser_get_operator p' (token_string peek)) lhs peek t' p' room
              (λ lhs' behind q u m b.
                outer_loop_ok fuel min_prec lhs' behind (omega (arith, b.taken))
                  (omega (arith, b.taken)) m b))))
        (post m)

  outer_loop_takes :
      {p : Parser} {t : Token} (fuel : ℕ) (min_prec : ℤ) (lhs : Node) (peek : Token) (p' : Parser)
      (t' : Token)
      → token_is_binary_op peek ≡ true
      → lt_ℤ (prec_of (parser_get_operator p' (token_string peek))) min_prec ≡ false
      → length (rest_of peek) ≤ fuel
      → 4 * length (rest_of peek) + 2 ≤ n
      → Moved 1 p t p' peek
      → Post (λ a. Moved 1 p t) p t (outer_loop self (suc fuel) min_prec lhs peek p' t')
  unfolding outer_loop
  outer_loop_takes fuel min_prec lhs peek p' t' is_op above lt room b =
      test_true (token_is_binary_op peek) _ _ is_op (
        test_false (lt_ℤ (prec_of (parser_get_operator p' (token_string peek))) min_prec) _ _ above
          (after_ok 1 1 b (omega arith) (
            outer_round_ok _ (parser_get_operator p' (token_string peek)) lhs peek t' p' room
              (λ lhs' behind q u m b.
                outer_loop_ok fuel min_prec lhs' behind (omega (arith, b.taken))
                  (omega (arith, b.taken)) m b))))

  pub parse_binary_rest_ok :
      (min_prec : ℤ) (lhs : Node) → Total (suc n) 1 0 (parse_binary_rest self min_prec lhs)
  unfolding parse_binary_rest
  parse_binary_rest_ok min_prec lhs = frame-Total _ _ (λ p t room.
      bind_ok (next_token_ok (Moved-refl p t)) (λ peek q u x.
        outer_loop_ok (suc (length (rest_of u))) min_prec lhs peek (omega (arith, x.2))
          (omega (arith, x.1.taken)) x.0 (Moved-weaken 0 (omega arith) x.1)))

  -- An operator that the call may take is taken.
  pub parse_binary_rest_eats :
      (min_prec : ℤ) (lhs : Node) (p : Parser) (t peek : Token)
      → token_next false t ≡ lexed lex_ok peek
      → token_is_binary_op peek ≡ true
      → lt_ℤ (prec_of (parser_get_operator p (token_string peek))) min_prec ≡ false
      → 4 * length (rest_of t) + 1 ≤ suc n
      → ParsedOk 1 p t (parse_binary_rest self min_prec lhs p t)
  unfolding parse_binary_rest next_token
  parse_binary_rest_eats min_prec lhs p t peek e is_op above room =
      let o = subst (λ l. Outcome false (rest_of t) l) e (token_next-Outcome_any false t) in
      let q = record p { lex_result = lex_ok } in
      let m = ok_token-Moved p q t t peek (same-Moved q (Moved-refl p t) refl (omega arith)) o in
      frame_ok
        (next_token >>= λ peek. get_rounds >>= λ fuel. outer_loop self fuel min_prec lhs peek)
        (subst
          (λ l.
            Post (λ a. Moved 1 p t) p t
              (go_on (peeked t (lex_step p l))
                (λ peek. get_rounds >>= λ fuel. outer_loop self fuel min_prec lhs peek)))
          (sym e)
          (outer_loop_takes (length (rest_of t)) min_prec lhs peek q t is_op above
            (omega (arith, m.taken)) (omega (arith, m.taken)) m))

  pub parse_binary_ok : Total (suc n) 3 1 (parse_binary self)
  unfolding parse_binary rank
  parse_binary_ok = frame-Total _ _ (λ p t room.
      bind_ok
        (then_ok 1 (self.expr no_binary) (Moved-refl p t) (ok.expr_ok no_binary p t (omega arith)))
        (λ lhs q u m.
          bind_ok
            (then_ok 0 (self.binary_rest (pos 0) lhs) m
              (ok.rest_ok (pos 0) lhs q u (omega (arith, m.taken))))
            (λ _ q u. post)))
